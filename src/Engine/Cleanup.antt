-- ===== src/Engine/Cleanup.antt =====
-- The cleanup of a run: engine/cleanup.go and engine/cleanup_skip.go. What a cleanup request gives,
-- and its retries, the comparison of two values and the evaluation of a `when` condition are
-- parameters.
pub mod Ids
pub mod Skip
pub mod Chain
pub mod Order
use aat.Base.{
  ℕ, zero, suc, ◌+◌, List, [], ◌∷◌, ◌++◌, reverse, map, Bool, true, false, not, ◌&&◌, ◌||◌,
  if◌then◌else◌, Option, none, some, or_else, is_some, length, any,
}
use aat.Base.Text.{Text, codes, text_eq}
use aat.Base.Decimal.{decimal}
use aat.Graph.Names.{Name, mem, add_name}
use aat.Engine.Routing.{lookup, first_of}
use aat.Engine.Retry.{StepResult, Sending, retry_result, cleanup_retry, classify_step_result}
use aat.Engine.State.{Values, RunState, get_output, get_all_outputs, executed_steps}
use aat.Engine.Steps.{
  CleanupPairing, Input, Node, Exchange, Result, cleanup_succeeded, step_released,
}

pub record CleanupEntry : Type 0 where
  pub node_name : Name
  pub for_node : Name
  pub for_step : Name

abbrev pub push : CleanupEntry → List CleanupEntry → List CleanupEntry
push entry stack = stack ++ entry ∷ []

unfoldable pub filter : (CleanupEntry → Bool) → List CleanupEntry → List CleanupEntry
filter keep [] = []
filter keep (e ∷ es) = let rest = filter keep es in if keep e then e ∷ rest else rest

pub data SkipReason : Type 0 where
  released : Name → SkipReason
  condition_false : Text → SkipReason

pub record CleanupSkip : Type 0 where
  pub node : Name
  pub cleanup_for : Name
  pub reason : SkipReason

-- `cleanupRun`, without what does not change: the IDs in use, and the entries skipped.
pub record CleanupRun : Type 0 where
  pub ids : List Name
  pub skips : List CleanupSkip

-- The `n`-th candidate of `nextID`: the node, and then `node_2`, `node_3`, ….
abbrev pub candidate : Name → ℕ → Name
candidate node zero = node
candidate node (suc n) = node ++ (codes "_" ++ decimal (n + 2))

-- The loop of `nextID`; the fuel is the number of the IDs in use, which is enough.
unfoldable pub free_id : List Name → Name → ℕ → ℕ → Name
free_id ids node zero n = candidate node n
free_id ids node (suc fuel) n =
    let later = free_id ids node fuel (suc n) in
    if mem (candidate node n) ids then later else candidate node n

unfoldable pub next_id : Name → CleanupRun → Name × CleanupRun
next_id node run =
    let id = free_id run.ids node (length run.ids) 0 in
    (id, record run { ids = add_name id run.ids })
