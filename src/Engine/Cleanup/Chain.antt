-- ===== src/Engine/Cleanup/Chain.antt =====
-- `runCleanupChain` and `runCleanupStack` of engine/cleanup.go. What one cleanup request gives
-- (`sendCleanupEntry`) and the network of its retries are parameters.
use aat.Base.{
  ℕ, zero, suc, List, [], ◌∷◌, ◌++◌, reverse, Bool, true, false, not, ◌&&◌, ◌||◌, if◌then◌else◌,
  Option, none, some, length, ltb,
}
use aat.Base.Text.{Text, text_eq}
use aat.Graph.Names.{Name}
use aat.Engine.Routing.{lookup}
use aat.Engine.Failure.{adapter}
use aat.Engine.Retry.{Sending, retry_result, cleanup_retry, classify_step_result}
use aat.Engine.State.{Values, RunState}
use aat.Engine.Steps.{Node, Exchange, Result, cleanup_succeeded}
use aat.Engine.Cleanup.{CleanupEntry, SkipReason, CleanupRun, next_id}
use aat.Engine.Cleanup.Skip.{
  is_empty, output_sources, resolve_cleanup_inputs, Decision, skip, cleanup_skip,
}

-- What does not change in a cleanup run: the graph's nodes, `allow`, the run's main steps, the
-- state they left, and the parameters.
pub record CleanupEnv (V : Type 0) : Type 0 where
  pub nodes : List (Name × Node)
  pub allow : Name → Bool
  pub main_steps : List (Result V)
  pub state : RunState V
  pub send : CleanupEntry → Values V → Result V
  pub network : CleanupEntry → Values V → Sending (Exchange V)
  pub same_value : V → V → Text → Bool
  pub holds : Text → Values V → Option Bool
  pub oas_strict : Bool

-- The node whose cleanup comes next, if the chain goes on.
abbrev pub next_node : (Name → Bool) → Option Node → Bool → Option Name
next_node allow none succeeded = none
next_node allow (some node) succeeded =
    if not (is_empty node.cleanup.node) && succeeded && allow node.cleanup.node
    then some node.cleanup.node
    else none

abbrev pub child : CleanupEntry → Name → CleanupEntry
child entry next = record {
  node_name = next;
  for_node = entry.node_name;
  for_step = entry.for_step;
}

abbrev pub is_skip : Decision → Option SkipReason
is_skip (skip reason) = some reason
is_skip _ = none

module _ {V : Type 0} where
  abbrev pub in_chain : Name → List (Result V) → Bool
  in_chain name [] = false
  in_chain name (r ∷ rs) = text_eq r.rest.node name || in_chain name rs

  -- The error result of a cleanup cycle.
  abbrev pub cycle_result : Name → Name → Name → Result V
  cycle_result id node cleanup_for = record {
    rest = record {
      step_id = id;
      node = node;
      cleanup_for = cleanup_for;
      inputs = [];
      outputs = none;
      validation = none;
      oas_errors = 0;
      expect_failure = none;
      known_issue = none;
    };
    error = some adapter;
    status_code = 0;
    body_error = none;
    response = none;
    error_class = none;
    retry_count = 0;
    retried_on = [];
  }

  abbrev pub with_first :
      Result V → Option (List (Result V) × CleanupRun) → Option (List (Result V) × CleanupRun)
  with_first result none = none
  with_first result (some (results, st)) = some (result ∷ results, st)

  abbrev pub with_all :
      List (Result V)
      → Option (List (Result V) × CleanupRun)
      → Option (List (Result V) × CleanupRun)
  with_all rs none = none
  with_all rs (some (ss, st)) = some (rs ++ ss, st)

  abbrev pub and_then :
      Option (List (Result V) × CleanupRun)
      → (CleanupRun → Option (List (Result V) × CleanupRun))
      → Option (List (Result V) × CleanupRun)
  and_then none k = none
  and_then (some (rs, st)) k = with_all rs (k st)

  -- After a step is recorded: the end of the chain, a cycle, or the step that comes next.
  abbrev pub go_on :
      Option Name
      → Result V
      → List (Result V)
      → CleanupRun
      → (Name → Option (List (Result V) × CleanupRun))
      → Option (List (Result V) × CleanupRun)
  go_on none result ancestors st k = some (result ∷ [], st)
  go_on (some next) result ancestors st k = elim (in_chain next (result ∷ ancestors)) [
    | true ↦
        let (id, st') = next_id next st in
        some (result ∷ cycle_result id next result.rest.step_id ∷ [], st')
    | false ↦ with_first result (k next)
  ]

  -- A skipped entry is recorded, and sends nothing.
  abbrev pub unless_skipped :
      Option SkipReason
      → CleanupEntry
      → Name
      → CleanupRun
      → (CleanupRun → Option (List (Result V) × CleanupRun))
      → Option (List (Result V) × CleanupRun)
  unless_skipped none entry cleanup_for st k = k st
  unless_skipped (some reason) entry cleanup_for st k = some (
    [],
    record st {
      skips =
          st.skips
          ++ record { node = entry.node_name; cleanup_for = cleanup_for; reason = reason } ∷ [];
    },
  )

module _ {V : Type 0} (env : CleanupEnv V) where
  abbrev pub node_of : Name → Option Node
  node_of name = lookup name env.nodes

  unfoldable pub execute_cleanup_entry : CleanupEntry → Values V → Result V
  execute_cleanup_entry entry inputs =
      (retry_result (env.network entry inputs) (env.send entry inputs) cleanup_retry false
        classify_step_result).result

  -- The result as it is recorded: its ID, what it cleans up, and the strict OAS error.
  abbrev pub recorded : CleanupEntry → Name → Name → Result V → Result V
  recorded entry id cleanup_for r = record r {
    rest = record r.rest { step_id = id; node = entry.node_name; cleanup_for = cleanup_for };
    error = if env.oas_strict && ltb 0 r.rest.oas_errors then some adapter else r.error;
  }

  abbrev pub inputs_for : Option Node → CleanupEntry → List (Result V) → Values V
  inputs_for none entry ancestors = []
  inputs_for (some node) entry ancestors =
      resolve_cleanup_inputs node entry ancestors env.state (output_sources env.state)

  abbrev pub skip_reason : CleanupEntry → List (Result V) → Option SkipReason
  skip_reason entry ancestors = is_skip (
      cleanup_skip env.same_value env.holds node_of entry
        (inputs_for (node_of entry.node_name) entry ancestors) ancestors env.state env.main_steps)

  -- The result of an entry, and what follows it in its chain.
  abbrev pub recorded_result : CleanupEntry → Name → List (Result V) → CleanupRun → Result V
  recorded_result entry cleanup_for ancestors st =
      recorded entry (next_id entry.node_name st).0 cleanup_for
        (execute_cleanup_entry entry (inputs_for (node_of entry.node_name) entry ancestors))

  abbrev pub following : CleanupEntry → List (Result V) → Option Name
  following entry ancestors = next_node env.allow (node_of entry.node_name) (
      cleanup_succeeded
        (execute_cleanup_entry entry (inputs_for (node_of entry.node_name) entry ancestors)))

  -- A round for each node of the graph and one more is enough; `none` is running out of them.
  unfoldable pub run_cleanup_chain :
      ℕ → CleanupEntry → Name → List (Result V) → CleanupRun → Option (List (Result V) × CleanupRun)
  run_cleanup_chain zero entry cleanup_for ancestors st = none
  run_cleanup_chain (suc fuel) entry cleanup_for ancestors st =
      unless_skipped (skip_reason entry ancestors) entry cleanup_for st (λ st.
        let result = recorded_result entry cleanup_for ancestors st in
        let st' = (next_id entry.node_name st).1 in
        go_on (following entry ancestors) result ancestors st' (λ next.
          run_cleanup_chain fuel (child entry next) result.rest.step_id (result ∷ ancestors) st'))

  unfoldable pub run_entries :
      ℕ → List CleanupEntry → CleanupRun → Option (List (Result V) × CleanupRun)
  run_entries fuel [] st = some ([], st)
  run_entries fuel (e ∷ es) st =
      and_then (run_cleanup_chain fuel e e.for_step [] st) (run_entries fuel es)

  unfoldable pub run_cleanup_stack :
      List CleanupEntry → CleanupRun → Option (List (Result V) × CleanupRun)
  run_cleanup_stack stack st = run_entries (suc (length env.nodes)) (reverse stack) st
