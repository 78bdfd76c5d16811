-- ===== src/Engine/Cleanup/Skip.antt =====
-- The inputs of a cleanup step, and when it is no longer needed: engine/cleanup_skip.go. How two
-- values compare for an input's type, and `predicate.Eval` of a condition over outputs (`none` is
-- its error), are parameters.
use aat.Base.{
  List, [], ◌∷◌, reverse, Bool, true, false, ◌&&◌, ◌||◌, if◌then◌else◌, Option, none, some, or_else,
}
use aat.Base.Text.{Text, text_eq}
use aat.Graph.Names.{Name, mem}
use aat.Engine.Routing.{lookup, first_of}
use aat.Engine.State.{Values, RunState, get_output, get_all_outputs, executed_steps}
use aat.Engine.Steps.{CleanupPairing, Input, Node, Result, step_released}
use aat.Engine.Cleanup.{CleanupEntry, SkipReason, released, condition_false}

abbrev pub is_empty : Text → Bool
is_empty [] = true
is_empty (c ∷ s) = false

-- The source that `resolveCleanupInputs` puts first.
abbrev pub source_step : CleanupEntry → Name
source_step entry = if is_empty entry.for_step then entry.for_node else entry.for_step

module _ {V : Type 0} where
  abbrev pub outputs_of : Result V → Values V
  outputs_of r = or_else r.rest.outputs []

  unfoldable pub from_ancestors : Text → List (Result V) → Option V
  from_ancestors name [] = none
  from_ancestors name (a ∷ as') = first_of (lookup name (outputs_of a)) (from_ancestors name as')

  unfoldable pub from_sources : RunState V → Text → List Name → Option V
  from_sources state name [] = none
  from_sources state name (id ∷ ids) =
      first_of (get_output state id name) (from_sources state name ids)

  -- The closure `lookup`.
  abbrev pub resolve_name : List (Result V) → RunState V → List Name → Text → Option V
  resolve_name ancestors state sources name =
      first_of (from_ancestors name ancestors) (from_sources state name sources)

  abbrev pub put : Text → Option V → Values V → Values V
  put name none vs = vs
  put name (some v) vs = (name, v) ∷ vs

  unfoldable pub resolve_all : (Text → Option V) → List Input → Values V
  resolve_all f [] = []
  resolve_all f (i ∷ is) = put i.name (f i.name) (resolve_all f is)

  -- `outputSources` of engine/engine.go in a run without fuzz cases.
  abbrev pub output_sources : RunState V → List Name
  output_sources state = reverse (executed_steps state)

  unfoldable pub resolve_cleanup_inputs :
      Node → CleanupEntry → List (Result V) → RunState V → List Name → Values V
  resolve_cleanup_inputs node entry ancestors state sources =
      resolve_all (resolve_name ancestors state (source_step entry ∷ sources)) node.inputs

  -- The main steps after the first with an ID, or `none`.
  unfoldable pub after_step : Name → List (Result V) → Option (List (Result V))
  after_step id [] = none
  after_step id (r ∷ rs) =
      let rest = after_step id rs in if text_eq r.rest.step_id id then some rs else rest

  abbrev pub condition_outputs : CleanupEntry → List (Result V) → RunState V → Values V
  condition_outputs entry [] state = or_else (get_all_outputs state entry.for_step) []
  condition_outputs entry (a ∷ _) state = outputs_of a

module _ {V : Type 0} (same_value : V → V → Text → Bool) where
  abbrev pub sent_same : Option V → Text → V → Bool
  sent_same none type want = false
  sent_same (some got) type want = same_value want got type

  -- `sameSharedInputs`: `seen` says that an input was compared.
  unfoldable pub same_shared_inputs : List Input → Values V → Values V → Bool → Bool
  same_shared_inputs [] cleanup sent seen = seen
  same_shared_inputs (i ∷ is) cleanup sent seen = elim (lookup i.name cleanup) [
    | none ↦ same_shared_inputs is cleanup sent seen
    | some want ↦
        sent_same (lookup i.name sent) i.type want && same_shared_inputs is cleanup sent true
  ]

  abbrev pub shares : Option Node → Values V → Result V → Bool
  shares none inputs r = false
  shares (some node) inputs r =
      step_released r && same_shared_inputs node.inputs inputs r.rest.inputs false

  -- The loop of `releasingStep`.
  unfoldable pub find_release :
      (Name → Option Node) → Name → CleanupPairing → Values V → List (Result V) → Option Name
  find_release nodes cleanup pairing inputs [] = none
  find_release nodes cleanup pairing inputs (r ∷ rs) =
      let rest = find_release nodes cleanup pairing inputs rs in
      if (text_eq r.rest.node cleanup || mem r.rest.node pairing.released_by)
        && shares (nodes r.rest.node) inputs r
      then some r.rest.step_id
      else rest

  unfoldable pub releasing_step :
      (Name → Option Node)
      → CleanupEntry
      → CleanupPairing
      → Values V
      → List (Result V)
      → Option Name
  releasing_step nodes entry pairing inputs main = elim (after_step entry.for_step main) [
    | none ↦ none
    | some later ↦ find_release nodes entry.node_name pairing inputs later
  ]

-- What `cleanupSkip` decides: run, run although the condition can't be evaluated, or skip.
pub data Decision : Type 0 where
  run when_error : Decision
  skip : SkipReason → Decision

abbrev pub decide_when : Text → Option Bool → Decision
decide_when when none = when_error
decide_when when (some true) = run
decide_when when (some false) = skip (condition_false when)

abbrev pub decide : Option Name → Text → Option Bool → Decision
decide (some by) when holds = skip (released by)
decide none when holds = if is_empty when then run else decide_when when holds

-- The pairing that an entry is of, if it is of one.
abbrev pub declared_pairing : Option Node → Option Node → Name → Option CleanupPairing
declared_pairing (some declaring) (some node) name =
    if text_eq declaring.cleanup.node name then some declaring.cleanup else none
declared_pairing _ _ name = none

module _ {V : Type 0} (same_value : V → V → Text → Bool) (holds : Text → Values V → Option Bool)
    (nodes : Name → Option Node) where
  abbrev pub release_of :
      CleanupEntry → CleanupPairing → Values V → List (Result V) → List (Result V) → Option Name
  release_of entry pairing inputs [] main =
      releasing_step same_value nodes entry pairing inputs main
  release_of entry pairing inputs (_ ∷ _) main = none

  unfoldable pub cleanup_skip :
      CleanupEntry → Values V → List (Result V) → RunState V → List (Result V) → Decision
  cleanup_skip entry inputs ancestors state main =
      elim (declared_pairing (nodes entry.for_node) (nodes entry.node_name) entry.node_name) [
        | none ↦ run
        | some pairing ↦
            decide (release_of entry pairing inputs ancestors main) pairing.when
              (holds pairing.when (condition_outputs entry ancestors state))
      ]
