-- ===== src/Engine/Run/Cleaning.antt =====
-- The cleanup of a run: `runCleanup` and `pairedCleanupNodes` of engine/engine.go.
use aat.Base.{
  ℕ, zero, suc, List, [], ◌∷◌, Bool, true, false, not, ◌&&◌, ◌||◌, if◌then◌else◌, Option, none,
  some, length,
}
use aat.Base.Text.{Text, codes, text_eq}
use aat.Graph.Names.{Name, mem, add_name}
use aat.Graph.Chain.{add_names}
use aat.Engine.Routing.{lookup}
use aat.Engine.State.{RunState}
use aat.Engine.KnownIssue.{RunOutcome, is_passed}
use aat.Engine.Steps.{Node, Step, Result}
use aat.Engine.Cleanup.{CleanupEntry, CleanupRun, filter}
use aat.Engine.Cleanup.Skip.{is_empty}
use aat.Engine.Cleanup.Chain.{CleanupEnv, and_then, run_entries, run_cleanup_stack}
use aat.Engine.Execute.{Engine, send_cleanup_entry, cleanup_sending}
use aat.Engine.Run.{Vars}

-- What a run reads of its plan, whose steps are sorted: `cleanup` are the nodes of its cleanup
-- steps with their `runOn`, and `verification` what `VerificationSteps` gives.
pub record Plan : Type 0 where
  pub steps : List Step
  pub sorted : List Step
  pub verification : List Step
  pub cleanup : List (Name × Text)

-- `cleanupRunOnMatches`.
abbrev pub cleanup_run_on_matches : Text → RunOutcome → Bool
cleanup_run_on_matches run_on outcome =
    if is_empty run_on || text_eq run_on (codes "always")
    then true
    else if text_eq run_on (codes "success")
    then is_passed outcome
    else if text_eq run_on (codes "failure")
    then not (is_passed outcome)
    else false

abbrev pub ids_of : List Step → List Name
ids_of [] = []
ids_of (s ∷ ss) = s.step_id ∷ ids_of ss

module _ {V X E B : Type 0} (e : Engine V X E B) where
  -- The loop of `pairedCleanupNodes` that follows the cleanups of a node.
  unfoldable pub pair_chain : ℕ → Option Node → List Name → List Name
  pair_chain zero found paired = paired
  pair_chain (suc fuel) none paired = paired
  pair_chain (suc fuel) (some node) paired =
      if is_empty node.cleanup.node || mem node.cleanup.node paired
      then paired
      else pair_chain fuel (lookup node.cleanup.node e.nodes) (add_name node.cleanup.node paired)

  unfoldable pub paired_cleanup_nodes : List Step → List Name → List Name
  paired_cleanup_nodes [] paired = paired
  paired_cleanup_nodes (s ∷ ss) paired =
      paired_cleanup_nodes ss
        (pair_chain (suc (suc (length e.nodes))) (lookup s.node e.nodes) paired)

  -- `allow`: a paired node that the plan lists runs when a cleanup step of it is selected.
  unfoldable pub allow_cleanup : List Name → RunOutcome → List (Name × Text) → Name → Bool
  allow_cleanup paired outcome cleanup node = not (declared cleanup) || selected cleanup
    where
      declared : List (Name × Text) → Bool
      declared [] = false
      declared ((n, run_on) ∷ cs) = mem n paired && text_eq n node || declared cs

      selected : List (Name × Text) → Bool
      selected [] = false
      selected ((n, run_on) ∷ cs) =
          mem n paired && text_eq n node && cleanup_run_on_matches run_on outcome || selected cs

module _ {V X E B : Type 0} (e : Engine V X E B) where
  abbrev pub main_steps : List Name → List (Result V) → List (Result V)
  main_steps plan_ids [] = []
  main_steps plan_ids (r ∷ rs) =
      let rest = main_steps plan_ids rs in if mem r.rest.step_id plan_ids then r ∷ rest else rest

  abbrev pub plan_entries : List Name → RunOutcome → List (Name × Text) → List CleanupEntry
  plan_entries paired outcome [] = []
  plan_entries paired outcome ((n, run_on) ∷ cs) =
      let rest = plan_entries paired outcome cs in
      if mem n paired || not (cleanup_run_on_matches run_on outcome)
      then rest
      else record { node_name = n; for_node = []; for_step = [] } ∷ rest

  abbrev pub cleanup_env : (Name → Bool) → List (Result V) → RunState V → CleanupEnv V
  cleanup_env allow main state = record {
    nodes = e.nodes;
    allow = allow;
    main_steps = main;
    state = state;
    send = λ entry inputs. send_cleanup_entry e entry (lookup entry.node_name e.nodes) inputs 0;
    network = cleanup_sending e;
    same_value = e.same_value;
    holds = e.holds;
    oas_strict = e.oas_strict;
  }

  abbrev pub new_cleanup_run : Plan → CleanupRun
  new_cleanup_run p = record {
    ids = add_names (ids_of p.verification) (add_names (ids_of p.steps) []);
    skips = [];
  }

  -- `runCleanup`, where `outcome` gates it. `none` is running out of fuel.
  unfoldable pub run_cleanup : Plan → Vars V → RunOutcome → Option (List (Result V) × CleanupRun)
  run_cleanup p v outcome =
      let paired = paired_cleanup_nodes e p.steps [] in
      let allow = allow_cleanup e paired outcome p.cleanup in
      let env = cleanup_env allow (main_steps (ids_of p.steps) v.results) v.state in
      and_then
        (run_entries env (suc (length e.nodes)) (plan_entries paired outcome p.cleanup)
          (new_cleanup_run p))
        (run_cleanup_stack env (filter (λ c. allow c.node_name) v.stack))
