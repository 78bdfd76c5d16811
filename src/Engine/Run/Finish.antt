-- ===== src/Engine/Run/Finish.antt =====
-- The end of a run: its result, after verification and cleanup (`Run`, `endRun` and
-- `checkpointResult` of engine/engine.go).
use aat.Base.{List, [], Bool, true, false, ◌&&◌, if◌then◌else◌, Option, none, some}
use aat.Graph.Names.{Name}
use aat.Engine.KnownIssue.{
  RunOutcome, passed, failed, errored, aborted, stopped, KnownIssue, Log, is_passed, gating,
}
use aat.Engine.Steps.{Result}
use aat.Engine.Cleanup.{CleanupSkip, CleanupRun}
use aat.Engine.Execute.{Engine}
use aat.Engine.Run.{
  missing_node, cancelled, stopped_after_failure, Failure, End, end_error, end_covered,
  end_checkpoint, Vars, start, Turn, going, aborting, missing, run_loop,
}
use aat.Engine.Run.Verify.{Verified, failure_at, run_verification}
use aat.Engine.Run.Cleaning.{Plan, run_cleanup}

pub record RunResult (V : Type 0) : Type 0 where
  pub outcome : RunOutcome
  pub steps : List (Result V)
  pub cleanup_results : List (Result V)
  pub cleanup_skipped : List CleanupSkip
  pub error : Option Failure
  pub known_issues : List (Name × KnownIssue)
  pub known_issues_resolved : List (Name × KnownIssue)
  pub ended_early : Bool
  pub stopped_at : Option Name

abbrev pub is_failed : RunOutcome → Bool
is_failed failed = true
is_failed _ = false

abbrev pub is_errored : RunOutcome → Bool
is_errored errored = true
is_errored _ = false

module _ {V X E B : Type 0} (e : Engine V X E B) where
  abbrev pub with_log : Option Log → RunResult V → RunResult V
  with_log none r = r
  with_log (some l) r = record r {
    known_issues = l.applied_to;
    known_issues_resolved = l.resolved_on;
    ended_early = l.early;
  }

  abbrev pub result_of :
      RunOutcome
      → List (Result V)
      → List (Result V) × List CleanupSkip
      → Option Failure
      → RunResult V
  result_of outcome steps (results, skips) err = record {
    outcome = outcome;
    steps = steps;
    cleanup_results = results;
    cleanup_skipped = skips;
    error = err;
    known_issues = [];
    known_issues_resolved = [];
    ended_early = false;
    stopped_at = none;
  }

  abbrev pub cleaned : Option (List (Result V) × CleanupRun) → List (Result V) × List CleanupSkip
  cleaned none = ([], [])
  cleaned (some (rs, st)) = (rs, st.skips)

  unfoldable pub end_run : Plan → Vars V → RunOutcome → Option Log → Option Failure → RunResult V
  end_run p v outcome log err =
      with_log log
        (result_of outcome v.results (cleaned (run_cleanup e p v (gating log outcome))) err)

  unfoldable pub aborted_result : Plan → Vars V → RunResult V
  aborted_result p v = end_run p v aborted none (some (failure_at [] cancelled))

  abbrev pub checkpoint_result : Name → Vars V → RunResult V
  checkpoint_result id v =
      if is_failed v.outcome
      then record (result_of failed v.results ([], [])
          (some (failure_at id stopped_after_failure))) { stopped_at = some id }
      else record (result_of stopped v.results ([], []) none) { stopped_at = some id }

  -- After the main loop, when nothing ended it: `verify`.
  abbrev pub take_verified : Vars V → Verified V → Vars V
  take_verified v ver = record v {
    results = ver.results;
    state = ver.state;
    outcome = if is_passed ver.outcome then v.outcome else ver.outcome;
  }

  abbrev pub verify : Plan → Vars V → RunResult V
  verify p v =
      let ver = run_verification e p.verification v.state v.results passed none in
      if is_errored ver.outcome && e.done_verifying
      then aborted_result p (record v { results = ver.results; state = ver.state })
      else let v' = take_verified v ver in end_run p v' v'.outcome (some v'.log) ver.error

  abbrev pub finish_ended : Plan → Option End → Vars V → RunResult V
  finish_ended p none v = verify p v
  finish_ended p (some (end_checkpoint id)) v = checkpoint_result id v
  finish_ended p (some (end_error err)) v = end_run p v v.outcome (some v.log) (some err)
  finish_ended p (some end_covered) v = end_run p v v.outcome (some v.log) none

  abbrev pub finish : Plan → Turn V → RunResult V
  finish p (going v) = finish_ended p v.end v
  finish p (aborting v) = aborted_result p v
  finish p (missing name v) =
      result_of errored v.results ([], []) (some (failure_at name missing_node))

  -- `Run` from its loop on.
  unfoldable pub run : Plan → RunResult V
  run p = finish p (run_loop e p.sorted start)
