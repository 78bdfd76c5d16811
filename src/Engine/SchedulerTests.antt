-- ===== src/Engine/SchedulerTests.antt =====
-- Runs of the sort of steps on small plans (engine/scheduler.go).
use native.Mathlib.Omega.{arith}
use aat.Base.{List, [], ◌∷◌, ◌++◌, true, false, ◌≡◌, refl, ok}
use aat.Base.Text.{text_eq→eq, codes, text_eq}
use aat.Graph.Names.{Name, mem, occ, IsSetOf}
use aat.Graph.Topo.Loop.{precedes}
use aat.Engine.Scheduler.{arrow, Planned, ids_of, dependencies, topological_sort}
use aat.Engine.Scheduler.Keys.{HasNoArrow}
use aat.Engine.Scheduler.Sorted.{
  DependsOn, InOrder, topological_sort-sorted, topological_sort-stable,
}

abbrev step : Name → List Name → Planned
step id deps = record { id = id; depends_on = deps }

-- `pay` is written before the `cart` it depends on.
abbrev shuffled : List Planned
shuffled =
    step (codes "pay") (codes "cart" ∷ [])
    ∷ step (codes "cart") []
    ∷ step (codes "ship") (codes "pay" ∷ codes "cart" ∷ [])
    ∷ []

abbrev written : List Planned
written = step (codes "cart") [] ∷ step (codes "pay") (codes "cart" ∷ []) ∷ []

shuffled_once : IsSetOf (ids_of shuffled)
shuffled_once v =
    ground
      (arith, text_eq→eq (codes "pay") v, text_eq→eq (codes "cart") v, text_eq→eq (codes "ship") v)

written_once : IsSetOf (ids_of written)
written_once v = ground (arith, text_eq→eq (codes "pay") v, text_eq→eq (codes "cart") v)

shuffled_plain : HasNoArrow (ids_of shuffled)
shuffled_plain v h =
    ground (
      arith,
      h,
      text_eq→eq (codes "pay") v,
      text_eq→eq (codes "cart") v,
      text_eq→eq (codes "ship") v,
    )

-- IDs that hold the arrow: `c` depends on `a→b`, and `b→c` on `a`, by the one key `a→b→c`.
abbrev a_to_b : Name
a_to_b = codes "a" ++ (arrow ++ codes "b")

abbrev b_to_c : Name
b_to_c = codes "b" ++ (arrow ++ codes "c")

-- The second edge is dropped, so that `b→c` comes before the `a` that it depends on.
arrow_lost :
    topological_sort (
      step a_to_b []
      ∷ step (codes "c") (a_to_b ∷ [])
      ∷ step b_to_c (codes "a" ∷ [])
      ∷ step (codes "a") []
      ∷ [])
    ≡ ok (a_to_b ∷ codes "c" ∷ b_to_c ∷ codes "a" ∷ [])
unfolding topological_sort dependencies
arrow_lost = refl

shuffled_sort : topological_sort shuffled ≡ ok (codes "cart" ∷ codes "pay" ∷ codes "ship" ∷ [])
unfolding topological_sort dependencies
shuffled_sort = refl

topological_sort-sorted_example :
    ((v : Name) → occ v (codes "cart" ∷ codes "pay" ∷ codes "ship" ∷ []) ≡ occ v (ids_of shuffled))
    × ((u v : Name)
        → mem u (ids_of shuffled) ≡ true
        → mem v (ids_of shuffled) ≡ true
        → text_eq u v ≡ false
        → DependsOn shuffled v u
        → precedes u v (codes "cart" ∷ codes "pay" ∷ codes "ship" ∷ []) ≡ true)
topological_sort-sorted_example =
    topological_sort-sorted shuffled shuffled_once shuffled_plain
      (codes "cart" ∷ codes "pay" ∷ codes "ship" ∷ []) shuffled_sort

written-InOrder : InOrder (ids_of written) written
written-InOrder = ((λ u m. absurd (cc)), ((λ u m hu ne. ground (arith, m)), tt))

topological_sort-stable_example : topological_sort written ≡ ok (ids_of written)
topological_sort-stable_example = topological_sort-stable written written_once written-InOrder
