-- ===== src/Graph/Model.antt =====
-- The parts of graph/types.go that chaining reads, and the satisfier index.
use aat.Base.{List, [], ◌∷◌, ◌++◌, Bool, if◌then◌else◌, Option, none, some}
use aat.Base.Text.{Text, text_eq}
use aat.Graph.Names.{Name, sort_strings}
use aat.Graph.Topo.{update}

pub record Node : Type 0 where
  pub requires : List Name
  pub satisfies : List Name
  pub cycle_breaker : Bool
  pub preferred : Bool

pub record Condition : Type 0 where
  pub when : Text
  pub require : List Name
  pub before : List Name

-- `Nodes` is the list of the map's entries, each key once.
pub record Graph : Type 0 where
  pub nodes : List (Name × Node)
  pub conditions : List Condition

unfoldable pub find_node : Name → List (Name × Node) → Option Node
find_node k [] = none
find_node k ((j, n) ∷ ns) = if text_eq j k then some n else find_node k ns

abbrev pub get_node : Graph → Name → Option Node
get_node g k = find_node k g.nodes

-- The loops of `BuildSatisfierIndex`.
unfoldable pub index_tokens : Name → List Name → (Name → List Name) → Name → List Name
index_tokens name [] m = m
index_tokens name (token ∷ tokens) m =
    index_tokens name tokens (update m token (m token ++ name ∷ []))

unfoldable pub index_nodes : List (Name × Node) → (Name → List Name) → Name → List Name
unfolding index_tokens
index_nodes [] m = m
index_nodes ((name, n) ∷ ns) m = index_nodes ns (index_tokens name n.satisfies m)

-- `g.SatisfiersByToken[token]`, as `BuildSatisfierIndex` leaves it.
unfoldable pub satisfiers : Graph → Name → List Name
unfolding index_nodes sort_strings
satisfiers g token = sort_strings (index_nodes g.nodes (λ _. []) token)
