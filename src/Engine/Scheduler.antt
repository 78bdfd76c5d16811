-- ===== src/Engine/Scheduler.antt =====
-- `TopologicalSort` of engine/scheduler.go: Kahn's algorithm on the steps of a plan, which takes the
-- ready step that comes first in the plan. Steps are read by their IDs, which a valid plan gives
-- once. The maps of degrees and dependents are those of Graph/Topo, and the set of edges holds the
-- texts `from→to`, as in the source.
pub mod Keys
pub mod Added
pub mod Order
pub mod Stable
pub mod Sorted
use aat.Base.{
  ℕ, zero, suc, ◌+◌, ◌-◌, List, [], ◌∷◌, ◌++◌, Bool, true, false, if◌then◌else◌, ◌==◌, ltb, length,
  Outcome, ok, err,
}
use aat.Base.Text.{Text, text_eq}
use aat.Graph.Names.{Name, mem, select}
use aat.Graph.Topo.{Edge, TopoError, out_of_fuel, Degrees, update, no_edges, check_all}

pub record Planned : Type 0 where
  pub id : Name
  pub depends_on : List Name

abbrev pub ids_of : List Planned → List Name
ids_of [] = []
ids_of (s ∷ ss) = s.id ∷ ids_of ss

-- The edges of the steps' `dependsOn`, in the order they are added.
abbrev pub edges_to : Name → List Name → List Edge → List Edge
edges_to id [] es = es
edges_to id (d ∷ ds) es = record { from = d; to = id } ∷ edges_to id ds es

unfoldable pub dependencies : List Planned → List Edge
dependencies [] = []
dependencies (s ∷ ss) = edges_to s.id s.depends_on (dependencies ss)

-- The bytes of `→`.
abbrev pub arrow : Text
arrow = 226 ∷ 134 ∷ 146 ∷ []

abbrev pub edge_key : Name → Name → Text
edge_key from to = from ++ (arrow ++ to)

-- `inDegree`, `dependents` and `edges`.
pub record Links : Type 0 where
  pub degrees : Degrees
  pub edges : List Text

-- The closure `addEdge`.
unfoldable pub add_dependency : Name → Name → Links → Links
add_dependency from to l =
    if text_eq from to then l else if mem (edge_key from to) l.edges then l else record {
      degrees = record {
        adj = update l.degrees.adj from (l.degrees.adj from ++ to ∷ []);
        in_deg = update l.degrees.in_deg to (l.degrees.in_deg to + 1);
      };
      edges = edge_key from to ∷ l.edges;
    }

-- The loop over the dependencies; a name that is not a step's is passed over.
unfoldable pub add_dependencies : List Name → List Edge → Links → Links
unfolding add_dependency
add_dependencies ids [] l = l
add_dependencies ids (e ∷ es) l =
    add_dependencies ids es (if mem e.from ids then add_dependency e.from e.to l else l)

-- `stepIndex`.
abbrev pub index_of : Name → List Name → ℕ
index_of v [] = 0
index_of v (x ∷ xs) = if text_eq x v then 0 else suc (index_of v xs)

-- The dependents of a step that ran lose one predecessor each, and the last one makes them ready.
unfoldable pub release : (Name → ℕ) → List Name → List Name → (Name → ℕ) × List Name
release deg ready [] = (deg, ready)
release deg ready (n ∷ ns) =
    let deg' = update deg n (deg n - 1) in
    release deg' (if deg' n == 0 then ready ++ n ∷ [] else ready) ns

-- The ready step with the smallest index, of `best` and the others.
unfoldable pub first_ready : (Name → ℕ) → Name → List Name → Name
first_ready index best [] = best
first_ready index best (r ∷ rs) =
    first_ready index (if ltb (index r) (index best) then r else best) rs

unfoldable pub drop_ready : Name → List Name → List Name
drop_ready v [] = []
drop_ready v (r ∷ rs) = if text_eq r v then rs else r ∷ drop_ready v rs

-- Each round takes a step, so a round for each is enough.
unfoldable pub schedule :
    (Name → List Name)
    → (Name → ℕ)
    → ℕ
    → (Name → ℕ)
    → List Name
    → List Name
    → Outcome TopoError (List Name)
unfolding release first_ready drop_ready
schedule dependents index fuel deg [] sorted = ok sorted
schedule dependents index zero deg (r ∷ rs) sorted = err out_of_fuel
schedule dependents index (suc fuel) deg (r ∷ rs) sorted =
    let step = first_ready index r rs in
    let (deg', ready) = release deg (drop_ready step (r ∷ rs)) (dependents step) in
    schedule dependents index fuel deg' ready (sorted ++ step ∷ [])

unfoldable pub topological_sort : List Planned → Outcome TopoError (List Name)
unfolding schedule add_dependencies select
topological_sort steps =
    let ids = ids_of steps in
    let d =
      (add_dependencies ids (dependencies steps)
        (record { degrees = no_edges; edges = [] })).degrees in
    check_all ids (
      schedule d.adj (λ v. index_of v ids) (length ids) d.in_deg (select (λ n. d.in_deg n == 0) ids)
        [])
