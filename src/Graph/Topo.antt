-- ===== src/Graph/Topo.antt =====
-- `chainTopoSort` of graph/chain.go: Kahn's algorithm on a set of nodes.
pub mod Count
pub mod Invariant
pub mod Edges
pub mod Loop
pub mod Order
use aat.Base.{
  ℕ, zero, suc, ◌-◌, ◌+◌, List, [], ◌∷◌, ◌++◌, Bool, true, false, ◌&&◌, ◌||◌, not, ◌≡◌, refl,
  if◌then◌else◌, ◌==◌, length, Outcome, ok, err,
}
use aat.Base.Text.{text_eq, codes}
use aat.Graph.Names.{Name, mem, add_name, select, sort_strings, insert_sorted}

pub record Edge : Type 0 where
  pub from : Name
  pub to : Name

-- `out_of_fuel` is the loop's own.
pub data TopoError : Type 0 where
  cycle out_of_fuel : TopoError

-- The maps `adj` and `inDeg`. A missing key reads as the empty set and as 0.
pub record Degrees : Type 0 where
  pub adj : Name → List Name
  pub in_deg : Name → ℕ

abbrev pub update {ℓ} : {A : Type ℓ} → (Name → A) → Name → A → Name → A
update f k v j = if text_eq k j then v else f j

abbrev pub no_edges : Degrees
no_edges = record { adj = λ _. []; in_deg = λ _. 0 }

-- The closure `addEdge`.
unfoldable pub add_edge : List Name → Edge → Degrees → Degrees
unfolding add_name
add_edge nodes e d =
    if not (mem e.from nodes) || not (mem e.to nodes) || text_eq e.from e.to
    then d
    else if mem e.to (d.adj e.from)
    then d
    else record {
      adj = update d.adj e.from (add_name e.to (d.adj e.from));
      in_deg = update d.in_deg e.to (d.in_deg e.to + 1);
    }

unfoldable pub add_edges : List Name → List Edge → Degrees → Degrees
unfolding add_edge
add_edges nodes [] d = d
add_edges nodes (e ∷ es) d = add_edges nodes es (add_edge nodes e d)

-- The inner loop over a popped node's neighbors: the degrees and the queue.
unfoldable pub relax : (Name → ℕ) → List Name → List Name → (Name → ℕ) × List Name
unfolding insert_sorted
relax deg queue [] = (deg, queue)
relax deg queue (n ∷ ns) =
    let deg' = update deg n (deg n - 1) in
    relax deg' (if deg' n == 0 then insert_sorted queue n else queue) ns

-- The loop of Kahn's algorithm; each round pops a node, so a round per node is enough.
unfoldable pub kahn :
    (Name → List Name) → ℕ → (Name → ℕ) → List Name → List Name → Outcome TopoError (List Name)
unfolding relax sort_strings
kahn adj fuel deg [] sorted = ok sorted
kahn adj zero deg (node ∷ queue) sorted = err out_of_fuel
kahn adj (suc fuel) deg (node ∷ queue) sorted =
    let (deg', queue') = relax deg queue (sort_strings (adj node)) in
    kahn adj fuel deg' queue' (sorted ++ node ∷ [])

abbrev pub check_all : List Name → Outcome TopoError (List Name) → Outcome TopoError (List Name)
check_all nodes (err e) = err e
check_all nodes (ok sorted) = if length sorted == length nodes then ok sorted else err cycle

unfoldable pub chain_topo_sort : List Name → List Edge → Outcome TopoError (List Name)
unfolding kahn add_edges select
chain_topo_sort nodes virtual =
    let d = add_edges nodes virtual no_edges in
    check_all nodes
      (kahn d.adj (length nodes) d.in_deg (sort_strings (select (λ n. d.in_deg n == 0) nodes)) [])
