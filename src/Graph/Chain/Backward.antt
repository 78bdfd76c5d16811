-- ===== src/Graph/Chain/Backward.antt =====
-- `BackwardChain` as a whole.
use aat.Base.{◌+◌, List, [], ◌∷◌, ◌++◌, not, length, Outcome, ok, err, ◌>>=◌}
use aat.Graph.Names.{Name, mem, select, sort_strings}
use aat.Graph.Topo.{Edge, TopoError, chain_topo_sort}
use aat.Graph.Model.{Graph}
use aat.Graph.Chain.{
  ChainOptions, RequiresEdge, ChainResult, ChainError, bad_conditions, unsorted, check_goals,
  Conditions, eval_conditions, TokenMap, Search, search_back, all_pushes, ChainDecision,
}
use aat.Graph.Chain.Select.{
  Selection, choose_all, compute_reachable, condition_edges, filter_edges, ordering_edges,
  has_incoming,
}

abbrev pub no_conditions : Conditions
no_conditions = record { errs = []; included = []; excluded = []; required = [] }

abbrev pub no_tokens : TokenMap
no_tokens = record { keys = []; entry = λ _. [] }

abbrev pub no_search : Search
no_search = record { visited = []; candidates = no_tokens; requirers = no_tokens; decisions = [] }

-- Phase 1 as a whole: the first error ends the chaining.
abbrev pub conditions_ok : Conditions → Outcome ChainError Conditions
conditions_ok st = elim st.errs [ [] ↦ ok st | e ∷ es ↦ err (bad_conditions (e ∷ es)) ]

-- Phase 2 as a whole, with fuel for each queued name.
unfoldable pub search_all : Graph → List Name → Outcome ChainError Search
unfolding search_back all_pushes
search_all g queue = search_back g (length queue + all_pushes g g.nodes) queue no_search

unfoldable pub select_all : Graph → List Name → List Name → Search → Selection
unfolding choose_all
select_all g goals required st =
    choose_all g goals required st.candidates st.requirers (sort_strings st.candidates.keys)
      (record { included = st.visited; edges = []; decisions = st.decisions })

abbrev pub virtual_edges : List Name → Conditions → List RequiresEdge → List Edge
virtual_edges included conds edges = condition_edges included conds.included ++ ordering_edges edges

abbrev pub sort_error : Outcome TopoError (List Name) → Outcome ChainError (List Name)
sort_error (ok s) = ok s
sort_error (err e) = err (unsorted e)

-- The end of phase 3: the sorted nodes, and the result.
unfoldable pub build_result :
    List Name → Conditions → List RequiresEdge → List ChainDecision → Outcome ChainError ChainResult
build_result included conds edges decisions = do
  let virtual = virtual_edges included conds edges
  sorted ← sort_error (chain_topo_sort included virtual)
  ok (record {
    nodes = sorted;
    requires_edges = edges;
    entry_nodes = select (λ n. not (has_incoming included n virtual)) sorted;
    decisions = decisions;
    included_conditions = conds.included;
    excluded_conditions = conds.excluded;
  })

unfoldable pub backward_chain : Graph → ChainOptions → Outcome ChainError ChainResult
backward_chain g opts = do
  goals ← check_goals g opts.goals
  conds ← conditions_ok (eval_conditions opts.eval_predicate g.conditions no_conditions)
  search ← search_all g (goals ++ conds.required)
  let sel = select_all g goals conds.required search
  reachable ← compute_reachable goals conds.required sel.edges
  let included = select (λ n. mem n reachable) sel.included
  build_result included conds (filter_edges included sel.edges) sel.decisions
