-- ===== src/Engine/Scheduler/Order.antt =====
-- What the sort of a plan's steps promises (engine/scheduler.go).
use aat.Base.{
  ℕ, zero, suc, ◌+◌, ◌-◌, ◌≤◌, List, [], ◌∷◌, ◌++◌, Bool, true, false, ◌&&◌, ◌≡◌, refl, ap, ◌∙◌,
  ◌==◌, arith, ok, length, length-append, if◌then◌else◌, ltb, leb,
}
use aat.Base.Text.{text_eq, text_eq→eq, text_eq_refl}
use aat.Graph.Names.{Name, mem, occ, one_if, IsSetOf, mem-occ, occ-append, sort_strings}
use aat.Graph.Topo.{update, relax}
use aat.Graph.Topo.Invariant.{relax-deg, relax-occ}
use aat.Graph.Topo.Loop.{
  IsLoop, step-IsLoop, placed-length, sorted_neighbors-IsSetOf, mem-neighbors,
}
use aat.Engine.Scheduler.{release, first_ready, drop_ready, schedule}

release-deg :
    (deg : Name → ℕ) (ready ns : List Name) (v : Name)
    → IsSetOf ns
    → (release deg ready ns).0 v ≡ deg v - one_if (mem v ns)
unfolding release
release-deg deg ready [] v h = omega arith
release-deg deg ready (n ∷ ns) v h = ground (
  arith,
  release-deg (update deg n (deg n - 1))
      (if update deg n (deg n - 1) n == 0 then ready ++ n ∷ [] else ready) ns v
      (λ w. omega (arith, h w)),
  text_eq→eq n v,
  h v,
  mem-occ v ns,
)

release-occ :
    (deg : Name → ℕ) (ready ns : List Name) (v : Name)
    → IsSetOf ns
    → occ v (release deg ready ns).1 ≡ occ v ready + one_if (mem v ns && leb (deg v) 1)
unfolding release
release-occ deg ready [] v h = omega arith
release-occ deg ready (n ∷ ns) v h = ground (
  arith,
  release-occ (update deg n (deg n - 1))
      (if update deg n (deg n - 1) n == 0 then ready ++ n ∷ [] else ready) ns v
      (λ w. omega (arith, h w)),
  text_eq→eq n v,
  text_eq_refl n,
  h v,
  mem-occ v ns,
  occ-append v ready (n ∷ []),
)

occ-drop_ready :
    (a v : Name) (rs : List Name)
    → mem a rs ≡ true
    → occ v (drop_ready a rs) + one_if (text_eq a v) ≡ occ v rs
unfolding drop_ready
occ-drop_ready a v [] h = absurd (cc)
occ-drop_ready a v (r ∷ rs) h =
    ground (arith, text_eq→eq r a, text_eq_refl a, occ-drop_ready a v rs)

one_of_two :
    (b : Bool) (f best r : Name) (rs : List Name)
    → mem f ((if b then r else best) ∷ rs) ≡ true
    → mem f (best ∷ r ∷ rs) ≡ true
one_of_two true f best r rs h = ground (arith, h)
one_of_two false f best r rs h = ground (arith, h)

pub mem-first_ready :
    (index : Name → ℕ) (best : Name) (rs : List Name)
    → mem (first_ready index best rs) (best ∷ rs) ≡ true
unfolding first_ready
mem-first_ready index best [] = ground (arith, text_eq_refl best)
mem-first_ready index best (r ∷ rs) =
    one_of_two (ltb (index r) (index best)) (first_ready index best (r ∷ rs)) best r rs
      (mem-first_ready index (if ltb (index r) (index best) then r else best) rs)

module _ (nodes : List Name) (adj : Name → List Name) (unique : IsSetOf nodes)
    (sets : (u : Name) → IsSetOf (adj u))
    (targets : (u v : Name) → mem v (adj u) ≡ true → mem v nodes ≡ true)
    (sources : (u v : Name) → mem v (adj u) ≡ true → mem u nodes ≡ true) where
  -- The loop's state does not depend on the order of the queue.
  reordered :
      (deg : Name → ℕ) (queue queue' sorted : List Name)
      → ((v : Name) → occ v queue ≡ occ v queue')
      → IsLoop nodes adj unique sets targets sources deg queue sorted
      → IsLoop nodes adj unique sets targets sources deg queue' sorted
  reordered deg queue queue' sorted e inv = record {
    degrees = inv.degrees;
    placed = λ v. omega (arith, inv.placed v, e v);
    ordered = inv.ordered;
  }

  pub round-IsLoop :
      (deg : Name → ℕ) (step : Name) (queue sorted : List Name)
      → IsLoop nodes adj unique sets targets sources deg (step ∷ queue) sorted
      → IsLoop nodes adj unique sets targets sources
          (release deg queue (adj step)).0
          (release deg queue (adj step)).1
          (sorted ++ step ∷ [])
  round-IsLoop deg step queue sorted inv =
      let next = step-IsLoop nodes adj unique sets targets sources deg step queue sorted inv in
      record {
        degrees = λ v. same_deg v ∙ next.degrees v;
        placed = λ v. ground (arith, next.placed v, same_deg v, same_occ v);
        ordered = next.ordered;
      }
    where
      ns : List Name
      ns = sort_strings (adj step)

      same_deg : (v : Name) → (release deg queue (adj step)).0 v ≡ (relax deg queue ns).0 v
      same_deg v = omega (
        arith,
        release-deg deg queue (adj step) v (sets step),
        relax-deg deg queue ns v (
            sorted_neighbors-IsSetOf nodes adj unique sets targets sources deg step queue sorted
              inv),
        ap one_if (mem-neighbors nodes adj unique sets targets sources deg step queue sorted inv v),
      )

      same_occ : (v : Name) → occ v (release deg queue (adj step)).1 ≡ occ v (relax deg queue ns).1
      same_occ v = ground (
        arith,
        release-occ deg queue (adj step) v (sets step),
        relax-occ deg queue ns v (
            sorted_neighbors-IsSetOf nodes adj unique sets targets sources deg step queue sorted
              inv),
        mem-neighbors nodes adj unique sets targets sources deg step queue sorted inv v,
      )

  pub popped :
      (index : Name → ℕ) (deg : Name → ℕ) (r : Name) (rs sorted : List Name)
      → IsLoop nodes adj unique sets targets sources deg (r ∷ rs) sorted
      → IsLoop nodes adj unique sets targets sources deg
          (first_ready index r rs ∷ drop_ready (first_ready index r rs) (r ∷ rs))
          sorted
  popped index deg r rs sorted inv =
      reordered deg (r ∷ rs) (first_ready index r rs ∷ drop_ready (first_ready index r rs) (r ∷ rs))
        sorted
        (λ v.
          omega (
            arith,
            occ-drop_ready (first_ready index r rs) v (r ∷ rs) (mem-first_ready index r rs),
          ))
        inv

  pub schedule_ends :
      (index : Name → ℕ) (fuel : ℕ) (deg : Name → ℕ) (ready sorted : List Name)
      → length nodes ≤ fuel + length sorted
      → IsLoop nodes adj unique sets targets sources deg ready sorted
      → (final : List Name) × (deg' : Name → ℕ) × (schedule adj index fuel deg ready sorted
          ≡ ok final)
        × IsLoop nodes adj unique sets targets sources deg' [] final
  unfolding schedule
  schedule_ends index fuel deg [] sorted h inv = (sorted, deg, refl, inv)
  schedule_ends index zero deg (r ∷ rs) sorted h inv =
      absurd
        (omega (arith, placed-length nodes adj unique sets targets sources deg (r ∷ rs) sorted inv))
  schedule_ends index (suc fuel) deg (r ∷ rs) sorted h inv =
      schedule_ends index fuel _ _ (sorted ++ first_ready index r rs ∷ [])
        (omega (arith, length-append sorted (first_ready index r rs ∷ [])))
        (round-IsLoop deg (first_ready index r rs) (drop_ready (first_ready index r rs) (r ∷ rs))
          sorted (popped index deg r rs sorted inv))
