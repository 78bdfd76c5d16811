-- ===== src/Engine/Run.antt =====
-- The main loop of a run: `Run` of engine/engine.go, for a plan without fuzz cases, where the steps
-- of the plan are the whole queue. An error is its kind, with the step it names.
pub mod Verify
pub mod Cleaning
pub mod Finish
pub mod Settle
pub mod Conclude
pub mod Accounts
pub mod Owed
pub mod Kept
pub mod Cleaned
pub mod Sequence
pub mod Paired
use aat.Base.{
  ℕ, List, [], ◌∷◌, ◌++◌, Bool, true, false, not, ◌&&◌, if◌then◌else◌, Option, none, some, is_some,
  or_else, ltb, leb,
}
use aat.Base.Text.{Text, text_eq}
use aat.Graph.Names.{Name}
use aat.Engine.Routing.{lookup, resolve_value_override}
use aat.Engine.Failure.{ExpectedStatus, any_expects}
use aat.Engine.Retry.{StepResult, failure_status}
use aat.Engine.State.{Values, RunState, store_outputs, new_run_state}
use aat.Engine.KnownIssue.{
  RunOutcome, passed, failed, errored, Date, KnownIssue, KnownIssueResult, Standing, applied,
  lapsed, resolved, Log, active, known_issue_for, new_known_issue_log, ended_early, suppress,
  resolve_issue,
}
use aat.Engine.Steps.{Node, Step, Exchange, Result}
use aat.Engine.Cleanup.{CleanupEntry, push}
use aat.Engine.Cleanup.Skip.{is_empty}
use aat.Engine.Execute.{Engine, execute_step_with_tracking}

pub data FailureKind : Type 0 where
  step_error not_expected status_error body_error oas_error mechanical missing_node : FailureKind
  cancelled stopped_after_failure : FailureKind

-- `lapsed_on` is the date that `withExpiry` adds.
pub record Failure : Type 0 where
  pub step : Name
  pub kind : FailureKind
  pub lapsed_on : Option Date

-- `runEnd`: with an error, without one, and at a checkpoint.
pub data End : Type 0 where
  end_error : Failure → End
  end_covered : End
  end_checkpoint : Name → End

-- The variables of `Run`.
pub record Vars (V : Type 0) : Type 0 where
  pub state : RunState V
  pub stack : List CleanupEntry
  pub results : List (Result V)
  pub outcome : RunOutcome
  pub log : Log
  pub end : Option End

abbrev pub start : {V : Type 0} → Vars V
start = record {
  state = new_run_state;
  stack = [];
  results = [];
  outcome = passed;
  log = new_known_issue_log;
  end = none;
}

-- How a round of the loop leaves it: it goes on, or `Run` returns.
pub data Turn (V : Type 0) : Type 0 where
  going aborting : Vars V → Turn V
  missing : Name → Vars V → Turn V

-- `ExpectFailure` of a result without an error.
abbrev pub mark_expected : {V : Type 0} → Option (List ExpectedStatus) → Result V → Result V
mark_expected none r = r
mark_expected (some es) r =
    let (status, name) = failure_status r in
    record r { rest = record r.rest { expect_failure = some (any_expects es status name) } }

abbrev pub resolve_expectation : {V : Type 0} → Option (List ExpectedStatus) → Result V → Result V
resolve_expectation es r = if is_some r.error then r else mark_expected es r

-- A validation that did not pass.
abbrev pub is_false : Option Bool → Bool
is_false (some false) = true
is_false _ = false

abbrev pub not_valid : {V : Type 0} → Result V → Bool
not_valid r = is_false r.rest.validation

-- `oasStrictError`, as whether there is one; `strict` is `oasStrict`.
abbrev pub oas_strict_error : {V : Type 0} → Bool → Option (List ExpectedStatus) → Result V → Bool
oas_strict_error strict expected r = strict && not (is_some expected) && ltb 0 r.rest.oas_errors

abbrev pub step_failed : {V : Type 0} → Bool → Option (List ExpectedStatus) → Result V → Bool
step_failed strict (some es) r = if is_false r.rest.expect_failure then true else not_valid r
step_failed strict none r =
    if leb 400 r.status_code
    then true
    else if is_some r.body_error
    then true
    else if oas_strict_error strict none r
    then true
    else not_valid r

abbrev pub note : {V : Type 0} → KnownIssue → Standing → Result V → Result V
note ki standing r = record r {
  rest = record r.rest { known_issue = some (record { issue = ki; standing = standing }) };
}

-- The known issue of a step, whose entry is in force or not, on a step that failed or not: the
-- result, whether it is suppressed, and the log.
abbrev pub settle_known :
    {V : Type 0} → Name → Result V → Log → KnownIssue → Bool → Bool → Result V × Bool × Log
settle_known id r log ki true true = (note ki applied r, true, suppress id ki log)
settle_known id r log ki false true = (note ki lapsed r, false, log)
settle_known id r log ki true false = (note ki resolved r, false, resolve_issue id ki log)
settle_known id r log ki false false = (r, false, log)

abbrev pub settle_for :
    {V : Type 0} → Name → ℕ → Option KnownIssue → Bool → Result V → Log → Result V × Bool × Log
settle_for id today none has_failed r log = (r, false, log)
settle_for id today (some ki) has_failed r log =
    settle_known id r log ki (active ki today) has_failed

abbrev date_if : Standing → Date → Option Date
date_if lapsed until = some until
date_if applied until = none
date_if resolved until = none

abbrev pub lapsed_date : Option KnownIssueResult → Option Date
lapsed_date none = none
lapsed_date (some known) = date_if known.standing known.issue.until

module _ {V X E B : Type 0} (e : Engine V X E B) where
  unfoldable pub settle : Step → Result V → Log → Result V × Bool × Log
  settle step r log =
      if is_some r.error
      then (r, false, log)
      else settle_for step.step_id e.today (known_issue_for e.plan_issue step.known_issue)
          (step_failed e.oas_strict step.expect_failure r) r log

  abbrev pub fail_at : Step → Result V → FailureKind → Vars V → Vars V
  fail_at step r kind v = record v {
    outcome = failed;
    end = some (
        end_error (record {
          step = step.step_id;
          kind = kind;
          lapsed_on = lapsed_date r.rest.known_issue;
        }));
  }

  -- A failure after which there is nothing to carry on from.
  abbrev pub fail_or_cover : Step → Result V → FailureKind → Bool → Vars V → Vars V
  fail_or_cover step r kind suppressed v =
      if suppressed
      then record v { log = ended_early v.log; end = some end_covered }
      else fail_at step r kind v

  abbrev pub at_checkpoint : Step → Bool
  at_checkpoint step = not (is_empty e.stop_after_step) && text_eq step.step_id e.stop_after_step

  abbrev pub stop_at_checkpoint : Step → Vars V → Vars V
  stop_at_checkpoint step v =
      if at_checkpoint step then record v { end = some (end_checkpoint step.step_id) } else v

  -- The mechanical assertions, and the checkpoint.
  abbrev pub conclude_checks : Step → Result V → Bool → Vars V → Vars V
  conclude_checks step r suppressed v =
      if not_valid r && not suppressed
      then if e.continue_on_assertion_failure
        then stop_at_checkpoint step (record v { outcome = failed })
        else fail_at step r mechanical v
      else stop_at_checkpoint step v

  abbrev pub store_some : Name → Option (Values V) → RunState V → RunState V
  store_some id none state = state
  store_some id (some outputs) state = store_outputs id outputs state

  abbrev pub push_some : Step → Node → List CleanupEntry → List CleanupEntry
  push_some step node stack =
      if is_empty node.cleanup.node
      then stack
      else push
          (record { node_name = node.cleanup.node; for_node = node.name; for_step = step.step_id })
          stack

  abbrev pub keep : Step → Node → Result V → Vars V → Vars V
  keep step node r v = record v {
    state = store_some step.step_id r.rest.outputs v.state;
    stack = push_some step node v.stack;
  }

  unfoldable pub conclude_plain : Step → Node → Result V → Bool → Vars V → Vars V
  conclude_plain step node r suppressed v =
      if leb 400 r.status_code
      then fail_or_cover step r status_error suppressed v
      else if is_some r.body_error
      then fail_or_cover step r body_error suppressed v
      else if oas_strict_error e.oas_strict step.expect_failure r && not suppressed
      then fail_at step r oas_error (keep step node r v)
      else conclude_checks step r suppressed (keep step node r v)

  unfoldable pub conclude_expected : Step → Result V → Bool → Vars V → Vars V
  conclude_expected step r suppressed v =
      if or_else r.rest.expect_failure false
      then conclude_checks step r suppressed v
      else fail_or_cover step r not_expected suppressed v

  -- A step whose result has no error.
  abbrev pub conclude : Step → Node → Result V → Bool → Vars V → Vars V
  conclude step node r suppressed v =
      if is_some step.expect_failure
      then conclude_expected step r suppressed v
      else conclude_plain step node r suppressed v

  abbrev pub error_at : Step → Vars V → Vars V
  error_at step v = record v {
    outcome = errored;
    end = some (end_error (record { step = step.step_id; kind = step_error; lapsed_on = none }));
  }

  -- A step's settled result is recorded, and decides how the run goes on.
  abbrev pub record_result : Step → Node → Result V × Bool × Log → Vars V → Turn V
  record_result step node (r, suppressed, log) v =
      let v' = record v { results = v.results ++ r ∷ []; log = log } in
      if is_some r.error
      then if e.done_after step then aborting v' else going (error_at step v')
      else going (conclude step node r suppressed v')

  -- `ExpectFailure` of the router's override, for a step that declares none.
  abbrev pub with_expectation : Step → Step
  with_expectation step = record step {
    expect_failure =
        if is_some step.expect_failure
        then step.expect_failure
        else (resolve_value_override e.glob_match e.router step.node).1;
  }

  unfoldable pub run_node : Step → Node → Vars V → Turn V
  run_node step node v =
      let (r, state) = execute_step_with_tracking e step node v.state in
      record_result step node (settle step (resolve_expectation step.expect_failure r) v.log)
        (record v { state = state })

  abbrev pub run_found : Step → Option Node → Vars V → Turn V
  run_found step none v = missing step.node v
  run_found step (some node) v = run_node (with_expectation step) node v

  abbrev pub run_step : Step → Vars V → Turn V
  run_step step v = run_found step (lookup step.node e.nodes) v

  abbrev pub on_turn : Turn V → (Vars V → Turn V) → Turn V
  on_turn (going v) k = k v
  on_turn (aborting v) k = aborting v
  on_turn (missing name v) k = missing name v

  abbrev pub unless_ended : Option End → Step → Vars V → Turn V
  unless_ended (some _) step v = going v
  unless_ended none step v = if e.done_before step then aborting v else run_step step v

  unfoldable pub run_loop : List Step → Vars V → Turn V
  run_loop [] v = going v
  run_loop (step ∷ steps) v = on_turn (unless_ended v.end step v) (run_loop steps)
