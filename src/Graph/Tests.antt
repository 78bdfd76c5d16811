-- ===== src/Graph/Tests.antt =====
-- Runs of the model on a small graph (graph/chain.go).
use native.Mathlib.Omega.{arith}
use aat.Base.{
  ℕ, List, [], ◌∷◌, Bool, true, false, ◌||◌, if◌then◌else◌, none, ok, err, ◌≡◌, refl, All, inl, inr,
}
use aat.Base.Text.{codes, text_eq, text_eq→eq}
use aat.Graph.Names.{Name, mem, occ, IsSetOf}
use aat.Graph.Topo.{Edge, cycle, chain_topo_sort}
use aat.Graph.Topo.Loop.{precedes}
use aat.Graph.Topo.Order.{chain_topo_sort-occ, chain_topo_sort-precedes, chain_topo_sort-acyclic}
use aat.Graph.Model.{Node, Graph, find_node, satisfiers}
use aat.Graph.Chain.{ChainOptions, ChainResult, no_goals, check_goals, eval_conditions, satisfier}
use aat.Graph.Chain.Select.{compute_reachable, condition_edges, filter_edges, has_incoming}
use aat.Graph.Chain.Backward.{backward_chain, search_all, select_all, build_result}
use aat.Graph.Chain.Correct.{backward_chain-goals, backward_chain-edges}
use aat.Graph.Chain.Total.{is_fuel, backward_chain-ends}

abbrev edge : ℕ → ℕ → Edge
edge a b = record { from = a ∷ []; to = b ∷ [] }

topo_test :
    (chain_topo_sort
        ((1 ∷ []) ∷ (3 ∷ []) ∷ (2 ∷ []) ∷ [])
        (edge 3 1 ∷ edge 3 2 ∷ edge 3 2 ∷ edge 7 1 ∷ [])
      ≡ ok ((3 ∷ []) ∷ (1 ∷ []) ∷ (2 ∷ []) ∷ []))
    × (chain_topo_sort ((1 ∷ []) ∷ (2 ∷ []) ∷ []) (edge 1 2 ∷ edge 2 1 ∷ []) ≡ err cycle)
unfolding chain_topo_sort
topo_test = (refl, refl)

abbrev a : Name
a = codes "a"

abbrev b : Name
b = codes "b"

abbrev c : Name
c = codes "c"

abbrev three : List Name
three = c ∷ b ∷ a ∷ []

-- `b` comes after `a` and `c`.
abbrev two_edges : List Edge
two_edges = record { from = a; to = b } ∷ record { from = c; to = b } ∷ []

three-IsSetOf : IsSetOf three
three-IsSetOf v = ground (arith, text_eq→eq a v, text_eq→eq b v, text_eq→eq c v)

sort_test : chain_topo_sort three two_edges ≡ ok (a ∷ c ∷ b ∷ [])
unfolding chain_topo_sort
sort_test = refl

chain_topo_sort-occ_example : occ b (a ∷ c ∷ b ∷ []) ≡ occ b three
chain_topo_sort-occ_example =
    chain_topo_sort-occ three two_edges three-IsSetOf (a ∷ c ∷ b ∷ []) sort_test b

chain_topo_sort-precedes_example : precedes c b (a ∷ c ∷ b ∷ []) ≡ true
chain_topo_sort-precedes_example =
    chain_topo_sort-precedes three two_edges three-IsSetOf (a ∷ c ∷ b ∷ []) sort_test c b
      (inr (inl ((record { from_in = refl; to_in = refl; distinct = refl }), refl, refl)))

-- `a` and `c` have rank 0, `b` has rank 1.
abbrev rank : Name → ℕ
rank v = if text_eq v b then 1 else 0

chain_topo_sort-acyclic_example : (s : List Name) × (chain_topo_sort three two_edges ≡ ok s)
chain_topo_sort-acyclic_example =
    chain_topo_sort-acyclic three two_edges three-IsSetOf rank
      ((λ _. omega arith), ((λ _. omega arith), tt))

-- `buy` needs a login, which `login` (preferred) and `guest` give.
abbrev step_node : List Name → List Name → Bool → Node
step_node requires satisfies preferred = record {
  requires = requires;
  satisfies = satisfies;
  cycle_breaker = false;
  preferred = preferred;
}

abbrev shop : Graph
shop = record {
  nodes =
      (codes "buy", step_node (codes "auth" ∷ []) [] false)
      ∷ (codes "login", step_node [] (codes "auth" ∷ []) true)
      ∷ (codes "guest", step_node [] (codes "auth" ∷ []) false)
      ∷ [];
  conditions = [];
}

abbrev to_buy : ChainOptions
to_buy = record { goals = codes "buy" ∷ []; eval_predicate = none }

abbrev bought : ChainResult
bought = record {
  nodes = codes "login" ∷ codes "buy" ∷ [];
  requires_edges = record { from = codes "login"; to = codes "buy"; token = codes "auth" } ∷ [];
  entry_nodes = codes "login" ∷ [];
  decisions = satisfier (codes "login") (codes "auth") (codes "guest" ∷ []) ∷ [];
  included_conditions = [];
  excluded_conditions = [];
}

chain_test : backward_chain shop to_buy ≡ ok bought
unfolding backward_chain check_goals find_node eval_conditions search_all satisfiers
    compute_reachable select_all build_result chain_topo_sort condition_edges filter_edges
    has_incoming
chain_test = refl

backward_chain-goals_example : mem (codes "buy") bought.nodes ≡ true
backward_chain-goals_example = backward_chain-goals shop to_buy bought chain_test (codes "buy") refl

backward_chain-edges_example :
    All
      (λ e.
        (mem e.from bought.nodes ≡ true)
        × (mem e.to bought.nodes ≡ true)
        × ((text_eq e.from e.to || precedes e.from e.to bought.nodes) ≡ true))
      bought.requires_edges
backward_chain-edges_example = backward_chain-edges shop to_buy bought chain_test

abbrev to_nothing : ChainOptions
to_nothing = record { goals = []; eval_predicate = none }

nothing_test : backward_chain shop to_nothing ≡ err no_goals
unfolding backward_chain check_goals
nothing_test = refl

backward_chain-ends_example : is_fuel no_goals ≡ false
backward_chain-ends_example = backward_chain-ends shop to_nothing no_goals nothing_test
