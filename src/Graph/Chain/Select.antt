-- ===== src/Graph/Chain/Select.antt =====
-- Phase 3 of `BackwardChain`: one satisfier for each token, pruning, reachability.
use aat.Base.{
  ℕ, zero, suc, ◌+◌, List, [], ◌∷◌, ◌++◌, Bool, true, false, ◌&&◌, ◌||◌, not, if◌then◌else◌, length,
  none, some, Outcome, ok, err, map,
}
use aat.Base.Text.{text_eq}
use aat.Graph.Names.{Name, mem, add_name, remove_name, select, sort_strings}
use aat.Graph.Topo.{Edge}
use aat.Graph.Model.{Condition, Graph, get_node}
use aat.Graph.Chain.{RequiresEdge, ChainDecision, satisfier, ChainError, out_of_fuel, TokenMap}

abbrev pub is_preferred : Graph → Name → Bool
is_preferred g c = elim (get_node g c) [ none ↦ false | some n ↦ n.preferred ]

-- `pickSatisfier` of the candidates `first ∷ rest`: the first preferred one, or else the first.
unfoldable pub pick_from : Graph → List Name → Name → Name
pick_from g [] default = default
pick_from g (c ∷ cs) default =
    let rest = pick_from g cs default in if is_preferred g c then c else rest

unfoldable pub pick_satisfier : Graph → Name → List Name → Name
unfolding pick_from
pick_satisfier g first rest = pick_from g (first ∷ rest) first

-- What phase 3 changes: the included nodes, the edges and the decisions.
pub record Selection : Type 0 where
  pub included : List Name
  pub edges : List RequiresEdge
  pub decisions : List ChainDecision

module _ (g : Graph) (goals required : List Name) (candidates requirers : TokenMap) where
  -- Another token has the node among its candidates.
  unfoldable pub in_other_token : Name → Name → List Name → Bool
  in_other_token token c [] = false
  in_other_token token c (other ∷ others) =
      not (text_eq other token) && mem c (candidates.entry other) || in_other_token token c others

  -- `neededElsewhere`.
  unfoldable pub needed_elsewhere : Name → Name → Bool
  unfolding in_other_token
  needed_elsewhere token c = in_other_token token c candidates.keys || mem c goals || mem c required

  -- The loop that prunes the candidates that were not chosen.
  unfoldable pub prune_unchosen : Name → Name → List Name → List Name → List Name
  unfolding needed_elsewhere remove_name
  prune_unchosen token chosen [] included = included
  prune_unchosen token chosen (c ∷ cs) included =
      prune_unchosen token chosen cs
        (if text_eq c chosen || needed_elsewhere token c then included else remove_name c included)

  abbrev pub edges_from : Name → Name → List Name → List RequiresEdge
  edges_from chosen token reqs = map (λ req. record { from = chosen; to = req; token = token }) reqs

  abbrev pub decision_for : Name → Name → List Name → List ChainDecision
  decision_for token chosen [] = []
  decision_for token chosen (_ ∷ []) = []
  decision_for token chosen (c ∷ d ∷ cs) =
      satisfier chosen token (select (λ x. not (text_eq x chosen)) (c ∷ d ∷ cs)) ∷ []

  -- The body of the loop over the tokens, given its sorted valid candidates.
  unfoldable pub choose : Name → List Name → Selection → Selection
  unfolding pick_satisfier prune_unchosen select
  choose token [] st = st
  choose token (c ∷ cs) st =
      let chosen = pick_satisfier g c cs in
      record {
        included = prune_unchosen token chosen (c ∷ cs) st.included;
        edges =
            st.edges
            ++ edges_from chosen token
                (select (λ req. mem req st.included) (requirers.entry token));
        decisions = st.decisions ++ decision_for token chosen (c ∷ cs);
      }

  unfoldable pub choose_all : List Name → Selection → Selection
  unfolding choose sort_strings
  choose_all [] st = st
  choose_all (token ∷ tokens) st =
      choose_all tokens
        (choose token (sort_strings (select (λ c. mem c st.included) (candidates.entry token))) st)

-- `computeReachable`. `reverseAdj[node]` is the set of the sources of the node's edges.
unfoldable pub upstream : List RequiresEdge → Name → List Name
unfolding add_name
upstream [] node = []
upstream (e ∷ es) node =
    if text_eq e.to node then add_name e.from (upstream es node) else upstream es node

unfoldable pub reach_loop :
    List RequiresEdge → ℕ → List Name → List Name → Outcome ChainError (List Name)
unfolding upstream select add_name
reach_loop edges fuel [] reachable = ok reachable
reach_loop edges zero (node ∷ queue) reachable = err out_of_fuel
reach_loop edges (suc fuel) (node ∷ queue) reachable = elim (mem node reachable) [
  | true ↦ reach_loop edges fuel queue reachable
  | false ↦
      let reachable' = add_name node reachable in
      reach_loop edges fuel (queue ++ select (λ u. not (mem u reachable')) (upstream edges node))
        reachable'
]

-- The goals and the required nodes are queued, and each edge queues at most one name.
unfoldable pub compute_reachable :
    List Name → List Name → List RequiresEdge → Outcome ChainError (List Name)
unfolding reach_loop
compute_reachable goals required edges =
    reach_loop edges (length goals + length required + length edges) (goals ++ required) []

-- Condition `before` ordering.
unfoldable pub before_edges : List Name → Name → List Name → List Edge
before_edges included req [] = []
before_edges included req (bef ∷ befs) =
    if mem bef included
    then record { from = req; to = bef } ∷ before_edges included req befs
    else before_edges included req befs

unfoldable pub require_edges : List Name → List Name → List Name → List Edge
unfolding before_edges
require_edges included befs [] = []
require_edges included befs (req ∷ reqs) =
    if mem req included
    then before_edges included req befs ++ require_edges included befs reqs
    else require_edges included befs reqs

unfoldable pub condition_edges : List Name → List Condition → List Edge
unfolding require_edges
condition_edges included [] = []
condition_edges included (c ∷ cs) =
    require_edges included c.before c.require ++ condition_edges included cs

unfoldable pub filter_edges : List Name → List RequiresEdge → List RequiresEdge
filter_edges included [] = []
filter_edges included (e ∷ es) =
    if mem e.from included && mem e.to included
    then e ∷ filter_edges included es
    else filter_edges included es

abbrev pub ordering_edges : List RequiresEdge → List Edge
ordering_edges es = map (λ e. record { from = e.from; to = e.to }) es

-- A node is an entry node if no virtual edge between included nodes ends in it.
unfoldable pub has_incoming : List Name → Name → List Edge → Bool
has_incoming included node [] = false
has_incoming included node (e ∷ es) =
    mem e.from included && mem e.to included && text_eq e.to node || has_incoming included node es
