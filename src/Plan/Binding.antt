-- ===== src/Plan/Binding.antt =====
-- The steps that references bind to (plan/binding.go).
use aat.Base.{
  ℕ, zero, suc, List, [], ◌∷◌, ◌++◌, Bool, true, false, not, ◌&&◌, ◌||◌, if◌then◌else◌, Option,
  none, some, or_else, length, ◌==◌, drop,
}
use aat.Base.Text.{Text, text_eq}
use aat.Graph.Names.{Name, mem, add_name}
use aat.Graph.Topo.{update}
use aat.Graph.Chain.{add_names}
use aat.Engine.Routing.{find_first, find_last, lookup, first_of}
use aat.Plan.{Step, StepSelection, StepValue, step_id, step_ids}
use aat.Engine.Cleanup.Skip.{is_empty}

-- The text before the first dot, or all of it: `splitFromNodeName`.
unfoldable pub split_from_node_name : Text → Text
split_from_node_name [] = []
split_from_node_name (c ∷ s) =
    let rest = split_from_node_name s in if c == b'.' then [] else c ∷ rest

-- The map `deps` of `dependsOnStep`, where a later step replaces an earlier one with its ID.
unfoldable pub fill_deps : List Step → (Name → List Name) → Name → List Name
fill_deps [] m = m
fill_deps (s ∷ ss) m = fill_deps ss (update m (step_id s) s.depends_on)

abbrev pub deps_of : List Step → Name → List Name
deps_of steps = fill_deps steps (λ _. [])

-- The loop over the dependencies of one step: `none` where `to` is among them. The last of
-- `pending` is the head of the list.
unfoldable pub visit_deps :
    Name → List Name → List Name → List Name → Option (List Name × List Name)
visit_deps to [] seen pending = some (seen, pending)
visit_deps to (dep ∷ deps) seen pending =
    let rest =
      visit_deps to deps (add_name dep seen) (if mem dep seen then pending else dep ∷ pending) in
    if text_eq dep to then none else rest

unfoldable pub search_deps : (Name → List Name) → Name → ℕ → List Name → List Name → Bool
unfolding visit_deps
search_deps deps to fuel seen [] = false
search_deps deps to zero seen (cur ∷ pending) = false
search_deps deps to (suc fuel) seen (cur ∷ pending) = elim (visit_deps to (deps cur) seen pending) [
  | none ↦ true
  | some (seen', pending') ↦ search_deps deps to fuel seen' pending'
]

unfoldable pub all_deps : List Step → List Name
all_deps [] = []
all_deps (s ∷ ss) = s.depends_on ++ all_deps ss

-- `dependsOnStep`, with a round for `from` and for each name that a step depends on.
unfoldable pub depends_on_step : List Step → Name → Name → Bool
unfolding search_deps fill_deps all_deps
depends_on_step steps from to =
    search_deps (deps_of steps) to (suc (length (all_deps steps))) (from ∷ []) (from ∷ [])

-- The tests of the two loops of `DefaultRefStep`.
abbrev pub binds_before : List Step → Name → Name → Step → Bool
binds_before steps consumer node s =
    text_eq s.node node && not s.expect_failure && not (depends_on_step steps (step_id s) consumer)

abbrev pub binds_anywhere : List Step → Name → Name → Step → Bool
binds_anywhere steps consumer node s =
    text_eq s.node node
    && not s.expect_failure
    && (text_eq (step_id s) consumer || not (depends_on_step steps (step_id s) consumer))

abbrev pub runs : Name → Step → Bool
runs node s = text_eq s.node node && not (is_empty (step_id s))

abbrev pub id_or : Option Step → Name → Name
id_or none name = name
id_or (some s) name = step_id s

-- `DefaultRefStep` of the step `s` between `before` and `after`.
unfoldable pub default_ref_step : List Step → Step → List Step → Name → Name
default_ref_step before s after node =
    let steps = before ++ s ∷ after in
    let consumer = step_id s in
    id_or
      (first_of (find_last (binds_before steps consumer node) before) (
        first_of (find_first (binds_anywhere steps consumer node) steps)
          (find_first (runs node) steps)))
      node

-- The step at an index, between those before it and those after it.
unfoldable pub focus : List Step → List Step → ℕ → Option (List Step × Step × List Step)
focus before [] i = none
focus before (s ∷ ss) zero = some (before, s, ss)
focus before (s ∷ ss) (suc i) = focus (before ++ s ∷ []) ss i

unfoldable pub translate_from_ref_at : Text → List Step → ℕ → Text
unfolding split_from_node_name default_ref_step focus
translate_from_ref_at ref steps i =
    let name = split_from_node_name ref in
    if is_empty name then ref else elim (focus [] steps i) [
      | none ↦ ref
      | some (before, s, after) ↦ default_ref_step before s after name ++ drop (length name) ref
    ]

unfoldable pub verification_ref_step : List Step → Name → Name
verification_ref_step steps node =
    id_or
      (first_of (find_last (λ s. text_eq s.node node && not s.expect_failure) steps)
        (find_last (runs node) steps))
      node

-- `outputs` are the names of the outputs of each node.
abbrev pub produces_output : List (Name × List Name) → Name → Name → Bool
produces_output outputs output node = mem output (or_else (lookup node outputs) [])

abbrev pub produces : List (Name × List Name) → List Step → Name → Name → Step → Bool
produces outputs steps consumer output s =
    not s.expect_failure
    && produces_output outputs output s.node
    && not (depends_on_step steps (step_id s) consumer)

-- `NearestProducer` of the step `s` between `before` and `after`; `[]` where none qualifies.
unfoldable pub nearest_producer :
    List (Name × List Name) → List Step → Step → List Step → Name → Name
nearest_producer outputs before s after output =
    id_or (find_last (produces outputs (before ++ s ∷ after) (step_id s) output) before) []

-- The closure `add` of `referencedSteps`.
abbrev pub add_ref : Text → List Name → List Name
add_ref ref refs =
    let id = split_from_node_name ref in
    if is_empty id || mem id refs then refs else refs ++ id ∷ []

unfoldable pub value_refs : List (Text × StepValue) → List Name → List Name
value_refs [] refs = refs
value_refs ((name, v) ∷ vs) refs =
    let refs' = if is_empty v.from then refs else add_ref v.from refs in
    value_refs vs (if is_empty v.from_input then refs' else add_ref v.from_input refs')

unfoldable pub selection_refs : List (Text × StepSelection) → List Name → List Name
selection_refs [] refs = refs
selection_refs ((name, sel) ∷ ss) refs =
    selection_refs ss (if is_empty sel.from then refs else add_ref sel.from refs)

abbrev pub all_refs : List (List Name) → List Name
all_refs [] = []
all_refs (refs ∷ more) = refs ++ all_refs more

-- `StepOutputRefs`.
unfoldable pub step_output_refs : Step → List Name
step_output_refs s = all_refs s.assertion_refs ++ s.until_refs

abbrev pub select_filters : List (Text × StepValue) → List Name
select_filters [] = []
select_filters ((name, v) ∷ vs) = v.filter_refs ++ select_filters vs

abbrev pub selection_filters : List (Text × StepSelection) → List Name
selection_filters [] = []
selection_filters ((name, sel) ∷ ss) = sel.filter_refs ++ selection_filters ss

-- `FilterOutputRefs`.
unfoldable pub filter_output_refs : Step → List Name
filter_output_refs s = select_filters s.values ++ selection_filters s.selections

abbrev pub value_expr_refs : List (Text × StepValue) → List Name
value_expr_refs [] = []
value_expr_refs ((name, v) ∷ vs) =
    (if v.raw then [] else v.default_refs) ++ (all_refs v.pool_refs ++ value_expr_refs vs)

-- `ValueOutputRefs`.
unfoldable pub value_output_refs : Step → List Name
value_output_refs s = value_expr_refs s.values

unfoldable pub referenced_steps : Step → List Name
unfolding value_refs selection_refs step_output_refs filter_output_refs value_output_refs
referenced_steps s =
    add_names (step_output_refs s ++ (filter_output_refs s ++ value_output_refs s))
      (selection_refs s.selections (value_refs s.values []))

-- What the injection adds to a step's dependencies: `known` are the steps of the plan.
unfoldable pub inject_refs : List Name → Bool → Name → List Name → List Name → List Name
inject_refs known external_only id deps [] = deps
inject_refs known external_only id deps (ref ∷ refs) =
    let skip =
      text_eq ref id
      || mem ref deps
      || (if external_only then mem ref known else not (mem ref known)) in
    inject_refs known external_only id (if skip then deps else deps ++ ref ∷ []) refs

unfoldable pub inject_all : List Name → Bool → List Step → List Step
unfolding inject_refs referenced_steps
inject_all known external_only [] = []
inject_all known external_only (s ∷ ss) =
    record s {
      depends_on = inject_refs known external_only (step_id s) s.depends_on (referenced_steps s);
    }
    ∷ inject_all known external_only ss

unfoldable pub inject_reference_deps : List Step → Bool → List Step
unfolding inject_all
inject_reference_deps steps external_only = inject_all (step_ids steps) external_only steps
