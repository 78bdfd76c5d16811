-- ===== src/Graph/Chain/Total.antt =====
-- The fuel of `BackwardChain`'s loops never runs out.
use aat.Base.{
  List, [], ◌∷◌, ◌++◌, Bool, true, false, ◌≡◌, ◌≢◌, refl, inl, inr, arith, Outcome, ok, err, ◌>>=◌,
  bind-eq-err,
}
use aat.Graph.Names.{Name, mem, IsSetOf, select}
use aat.Graph.Names.Sets.{select-IsSetOf}
use aat.Graph.Topo.{TopoError, chain_topo_sort}
use aat.Graph.Topo.Order.{chain_topo_sort-ne-out_of_fuel}
use aat.Graph.Model.{Graph}
use aat.Graph.Chain.{
  ChainOptions, RequiresEdge, ChainResult, ChainError, unsorted, out_of_fuel, check_goals,
  Conditions, eval_conditions, ChainDecision,
}
use aat.Graph.Chain.Select.{compute_reachable, filter_edges}
use aat.Graph.Chain.Backward.{
  no_conditions, conditions_ok, search_all, select_all, virtual_edges, sort_error, build_result,
  backward_chain,
}
use aat.Graph.Chain.Fuel.{search_all-ends, compute_reachable-ends}
use aat.Graph.Chain.Kept.{search_all-IsSetOf, select_all-IsSetOf}

-- The errors that the source does not have.
abbrev pub is_fuel : ChainError → Bool
is_fuel out_of_fuel = true
is_fuel (unsorted TopoError.out_of_fuel) = true
is_fuel _ = false

check_goals-err :
    (g : Graph) (goals : List Name) (e : ChainError)
    → check_goals g goals ≡ err e
    → is_fuel e ≡ false
unfolding check_goals
check_goals-err g [] e h = ground arith
check_goals-err g (goal ∷ goals) e h = ground arith

conditions_ok-err :
    (st : Conditions) (e : ChainError) → conditions_ok st ≡ err e → is_fuel e ≡ false
conditions_ok-err st e h = ground arith

build_result-err :
    (included : List Name) (conds : Conditions) (edges : List RequiresEdge)
    (decisions : List ChainDecision) (e : ChainError)
    → IsSetOf included
    → build_result included conds edges decisions ≡ err e
    → is_fuel e ≡ false
unfolding build_result
build_result-err included conds edges decisions e unique h =
    let virtual = virtual_edges included conds edges in
    elim (bind-eq-err (sort_error (chain_topo_sort included virtual)) _ h) [
      | inr (s, sorted, made) ↦ absurd (cc)
      | inl failed ↦
          sorted_err (chain_topo_sort included virtual) failed
            (chain_topo_sort-ne-out_of_fuel included virtual unique)
    ]
  where
    sorted_err :
        (o : Outcome TopoError (List Name))
        → sort_error o ≡ err e
        → o ≢ err TopoError.out_of_fuel
        → is_fuel e ≡ false
    sorted_err (ok s) f n = absurd (cc)
    sorted_err (err TopoError.cycle) f n = ground arith
    sorted_err (err TopoError.out_of_fuel) f n = absurd (n refl)

module _ (g : Graph) (goals : List Name) (conds : Conditions) (e : ChainError) where
  -- What `backward_chain` does once the goals are checked and the conditions evaluated.
  abbrev rest : Outcome ChainError ChainResult
  rest = do
    search ← search_all g (goals ++ conds.required)
    let sel = select_all g goals conds.required search
    reachable ← compute_reachable goals conds.required sel.edges
    let included = select (λ n. mem n reachable) sel.included
    build_result included conds (filter_edges included sel.edges) sel.decisions

  rest-err : rest ≡ err e → is_fuel e ≡ false
  rest-err h =
      let queue = goals ++ conds.required in
      let (st, searched) = search_all-ends g queue in
      elim (bind-eq-err (search_all g queue) _ h) [
        | inl failed ↦ absurd (cc)
        | inr (search, found, h₁) ↦
            let sel = select_all g goals conds.required search in
            let (r, reached) = compute_reachable-ends goals conds.required sel.edges in
            elim (bind-eq-err (compute_reachable goals conds.required sel.edges) _ h₁) [
              | inl failed ↦ absurd (cc)
              | inr (reachable, _, h₂) ↦
                  let included = select (λ n. mem n reachable) sel.included in
                  build_result-err included conds (filter_edges included sel.edges) sel.decisions e
                    (select-IsSetOf (λ n. mem n reachable) sel.included
                      (select_all-IsSetOf g goals conds.required search
                        (search_all-IsSetOf g queue search found)))
                    h₂
            ]
      ]

-- Whatever the graph, chaining ends with a result or with one of the source's errors: no loop of
-- the model runs out of fuel.
pub backward_chain-ends :
    (g : Graph) (opts : ChainOptions) (e : ChainError)
    → backward_chain g opts ≡ err e
    → is_fuel e ≡ false
unfolding backward_chain
backward_chain-ends g opts e h = elim (bind-eq-err (check_goals g opts.goals) _ h) [
  | inl bad ↦ check_goals-err g opts.goals e bad
  | inr (goals, _, h₁) ↦
      let evaluated = eval_conditions opts.eval_predicate g.conditions no_conditions in
      elim (bind-eq-err (conditions_ok evaluated) _ h₁) [
        | inl bad ↦ conditions_ok-err evaluated e bad
        | inr (conds, _, h₂) ↦ rest-err g goals conds e h₂
      ]
]
