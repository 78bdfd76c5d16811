-- ===== src/Plan/Referenced.antt =====
-- The steps that a step references (`referencedSteps` of plan/binding.go).
use aat.Base.{
  List, [], ◌∷◌, ◌++◌, Bool, true, false, not, ◌&&◌, ◌||◌, if◌then◌else◌, any, ◌≡◌, refl, ◌∙◌, ap,
  Bool-cases, inl, inr, arith,
}
use aat.Base.Text.{Text, text_eq, text_eq→eq}
use aat.Graph.Names.{Name, mem, add_name}
use aat.Graph.Names.Sets.{mem-append, mem-add}
use aat.Graph.Chain.{add_names}
use aat.Engine.Cleanup.Skip.{is_empty}
use aat.Plan.{Step, StepValue, StepSelection}
use aat.Plan.Binding.{
  split_from_node_name, add_ref, value_refs, selection_refs, all_refs, step_output_refs,
  select_filters, selection_filters, filter_output_refs, value_expr_refs, value_output_refs,
  referenced_steps,
}

-- The reference is to the step, or to an output or input of it.
abbrev pub refers_to : Text → Name → Bool
refers_to ref d = not (is_empty d) && text_eq (split_from_node_name ref) d

abbrev pub value_refers : Name → Text × StepValue → Bool
value_refers d (name, v) = refers_to v.from d || refers_to v.from_input d

abbrev pub selection_refers : Name → Text × StepSelection → Bool
selection_refers d (name, sel) = refers_to sel.from d

abbrev pub value_filter_reads : Name → Text × StepValue → Bool
value_filter_reads d (name, v) = mem d v.filter_refs

abbrev pub selection_filter_reads : Name → Text × StepSelection → Bool
selection_filter_reads d (name, sel) = mem d sel.filter_refs

-- The expressions of the default, unless the value is raw, and those of the pool.
abbrev pub value_reads : Name → Text × StepValue → Bool
value_reads d (name, v) = not v.raw && mem d v.default_refs || any (mem d) v.pool_refs

-- What a step references, wherever it does.
abbrev pub references : Step → Name → Bool
references s d =
    any (value_refers d) s.values
    || any (selection_refers d) s.selections
    || any (mem d) s.assertion_refs
    || mem d s.until_refs
    || any (value_filter_reads d) s.values
    || any (selection_filter_reads d) s.selections
    || any (value_reads d) s.values

mem-add_names : (d : Name) (as' xs : List Name) → mem d (add_names as' xs) ≡ (mem d as' || mem d xs)
unfolding add_names
mem-add_names d [] xs = refl
mem-add_names d (a ∷ as') xs = ground (arith, mem-add_names d as' (add_name a xs), mem-add d a xs)

mem-add_ref :
    (d ref : Name) (refs : List Name) → mem d (add_ref ref refs) ≡ (mem d refs || refers_to ref d)
mem-add_ref d ref refs = ground (
  arith,
  mem-append d refs (split_from_node_name ref ∷ []),
  text_eq→eq (split_from_node_name ref) d,
)

-- A reference that is not set refers to no step.
refers_to-unset : (ref d : Name) → is_empty ref ≡ true → refers_to ref d ≡ false
unfolding split_from_node_name
refers_to-unset [] [] h = refl
refers_to-unset [] (c ∷ d) h = refl
refers_to-unset (c ∷ ref) d h = absurd (cc)

mem-add_set :
    (d ref : Name) (refs : List Name)
    → mem d (if is_empty ref then refs else add_ref ref refs) ≡ (mem d refs || refers_to ref d)
mem-add_set d ref refs = elim (Bool-cases (is_empty ref)) [
  | inl unset ↦ ground (arith, unset, refers_to-unset ref d unset)
  | inr set ↦ rw set (mem-add_ref d ref refs)
]

mem-value_refs :
    (d : Name) (vs : List (Text × StepValue)) (refs : List Name)
    → mem d (value_refs vs refs) ≡ (mem d refs || any (value_refers d) vs)
unfolding value_refs
mem-value_refs d [] refs = ground arith
mem-value_refs d ((name, v) ∷ vs) refs =
    let first = mem-add_set d v.from refs in
    let second =
      mem-add_set d v.from_input (if is_empty v.from then refs else add_ref v.from refs) in
    mem-value_refs d vs _
    ∙ ap (λ b. b || any (value_refers d) vs)
        (second ∙ ap (λ b. b || refers_to v.from_input d) first)
    ∙ ground arith

mem-selection_refs :
    (d : Name) (ss : List (Text × StepSelection)) (refs : List Name)
    → mem d (selection_refs ss refs) ≡ (mem d refs || any (selection_refers d) ss)
unfolding selection_refs
mem-selection_refs d [] refs = ground arith
mem-selection_refs d ((name, sel) ∷ ss) refs =
    mem-selection_refs d ss _
    ∙ ap (λ b. b || any (selection_refers d) ss) (mem-add_set d sel.from refs)
    ∙ ground arith

mem-all_refs : (d : Name) (refs : List (List Name)) → mem d (all_refs refs) ≡ any (mem d) refs
mem-all_refs d [] = refl
mem-all_refs d (r ∷ refs) = ground (arith, mem-append d r (all_refs refs), mem-all_refs d refs)

mem-select_filters :
    (d : Name) (vs : List (Text × StepValue))
    → mem d (select_filters vs) ≡ any (value_filter_reads d) vs
mem-select_filters d [] = refl
mem-select_filters d ((name, v) ∷ vs) =
    mem-append d v.filter_refs (select_filters vs)
    ∙ ap (λ b. mem d v.filter_refs || b) (mem-select_filters d vs)

mem-selection_filters :
    (d : Name) (ss : List (Text × StepSelection))
    → mem d (selection_filters ss) ≡ any (selection_filter_reads d) ss
mem-selection_filters d [] = refl
mem-selection_filters d ((name, sel) ∷ ss) =
    mem-append d sel.filter_refs (selection_filters ss)
    ∙ ap (λ b. mem d sel.filter_refs || b) (mem-selection_filters d ss)

mem-unless_raw :
    (d : Name) (raw : Bool) (refs : List Name)
    → mem d (if raw then [] else refs) ≡ (not raw && mem d refs)
mem-unless_raw d true refs = refl
mem-unless_raw d false refs = refl

mem-value_expr_refs :
    (d : Name) (vs : List (Text × StepValue)) → mem d (value_expr_refs vs) ≡ any (value_reads d) vs
mem-value_expr_refs d [] = refl
mem-value_expr_refs d ((name, v) ∷ vs) = ground (
  arith,
  mem-append d (if v.raw then [] else v.default_refs) (all_refs v.pool_refs ++ value_expr_refs vs),
  mem-append d (all_refs v.pool_refs) (value_expr_refs vs),
  mem-unless_raw d v.raw v.default_refs,
  mem-all_refs d v.pool_refs,
  mem-value_expr_refs d vs,
)

pub mem-referenced_steps : (s : Step) (d : Name) → mem d (referenced_steps s) ≡ references s d
unfolding referenced_steps step_output_refs filter_output_refs value_output_refs
mem-referenced_steps s d = ground (
  arith,
  mem-add_names d (step_output_refs s ++ (filter_output_refs s ++ value_output_refs s))
      (selection_refs s.selections (value_refs s.values [])),
  mem-append d (step_output_refs s) (filter_output_refs s ++ value_output_refs s),
  mem-append d (filter_output_refs s) (value_output_refs s),
  mem-append d (all_refs s.assertion_refs) s.until_refs,
  mem-append d (select_filters s.values) (selection_filters s.selections),
  mem-all_refs d s.assertion_refs,
  mem-select_filters d s.values,
  mem-selection_filters d s.selections,
  mem-value_expr_refs d s.values,
  mem-selection_refs d s.selections (value_refs s.values []),
  mem-value_refs d s.values [],
)
