-- ===== src/Graph/Topo/Loop.antt =====
-- The loop of Kahn's algorithm: its invariant, and that its fuel is enough.
use aat.Base.{
  ℕ, zero, suc, ◌+◌, ◌≤◌, List, [], ◌∷◌, ◌++◌, Bool, true, false, ◌&&◌, ◌||◌, not, ◌≡◌, refl, ◌==◌,
  inl, inr, Bool-cases, arith, subst, ok, length, length-append,
}
use aat.Base.Text.{text_eq, text_eq→eq, text_eq_refl}
use aat.Graph.Names.{
  Name, mem, occ, one_if, IsSetOf, mem-occ, sort_strings, occ-append, occ-sort_strings,
}
use aat.Graph.Names.Sizes.{mem-eq_of_occ, length-le_of_occ}
use aat.Graph.Topo.{relax, kahn}
use aat.Graph.Topo.Count.{preds, preds-snoc, mem-snoc}
use aat.Graph.Topo.Invariant.{relax-deg, relax-occ}

-- `u` stands before the first `v`.
abbrev pub precedes : Name → Name → List Name → Bool
precedes u v [] = false
precedes u v (x ∷ xs) = not (text_eq x v) && (text_eq x u || precedes u v xs)

precedes-append :
    (u v : Name) (xs ys : List Name) → precedes u v xs ≡ true → precedes u v (xs ++ ys) ≡ true
precedes-append u v [] ys h = cc
precedes-append u v (x ∷ xs) ys h = ground (arith, precedes-append u v xs ys)

precedes_new :
    (u v : Name) (xs ys : List Name)
    → mem u xs ≡ true
    → mem v xs ≡ false
    → precedes u v (xs ++ ys) ≡ true
precedes_new u v [] ys h k = cc
precedes_new u v (x ∷ xs) ys h k = ground (arith, precedes_new u v xs ys)

-- Where no predecessor waits, each is sorted.
preds-zero :
    (adj : Name → List Name) (done us : List Name) (u v : Name)
    → preds adj done us v ≡ 0
    → mem u us ≡ true
    → mem v (adj u) ≡ true
    → mem u done ≡ true
preds-zero adj done [] u v z m h = cc
preds-zero adj done (x ∷ us) u v z m h = ground (arith, preds-zero adj done us u v, text_eq→eq x u)

module _ (nodes : List Name) (adj : Name → List Name) (unique : IsSetOf nodes)
    (sets : (u : Name) → IsSetOf (adj u))
    (targets : (u v : Name) → mem v (adj u) ≡ true → mem v nodes ≡ true)
    (sources : (u v : Name) → mem v (adj u) ≡ true → mem u nodes ≡ true) where
  pub record IsLoop (deg : Name → ℕ) (queue sorted : List Name) : Type 0 where
    pub degrees : (v : Name) → deg v ≡ preds adj sorted nodes v
    pub placed : (v : Name) → occ v sorted + occ v queue ≡ one_if (mem v nodes && deg v == 0)
    pub ordered :
        (u v : Name) → mem v (adj u) ≡ true → mem v sorted ≡ true → precedes u v sorted ≡ true

  module _ (deg : Name → ℕ) (node : Name) (queue sorted : List Name)
      (inv : IsLoop deg (node ∷ queue) sorted) where
    abbrev next : (Name → ℕ) × List Name
    next = relax deg queue (sort_strings (adj node))

    -- The popped node is in the set, has degree 0, and is not yet sorted.
    popped_in : mem node nodes ≡ true
    popped_in = ground (arith, inv.placed node, text_eq_refl node)

    popped_deg : deg node ≡ 0
    popped_deg = ground (arith, inv.placed node, text_eq_refl node)

    popped_new : mem node sorted ≡ false
    popped_new = ground (arith, inv.placed node, text_eq_refl node, mem-occ node sorted)

    pub sorted_neighbors-IsSetOf : IsSetOf (sort_strings (adj node))
    sorted_neighbors-IsSetOf v = omega (arith, sets node v, occ-sort_strings v (adj node))

    pub mem-neighbors : (v : Name) → mem v (sort_strings (adj node)) ≡ mem v (adj node)
    mem-neighbors v =
        mem-eq_of_occ v (sort_strings (adj node)) (adj node) (occ-sort_strings v (adj node))

    once : occ node nodes ≡ 1
    once = omega (arith, unique node, mem-occ node nodes popped_in)

    degrees' : (v : Name) → next.0 v ≡ preds adj (sorted ++ node ∷ []) nodes v
    degrees' v = ground (
      arith,
      relax-deg deg queue (sort_strings (adj node)) v sorted_neighbors-IsSetOf,
      mem-neighbors v,
      inv.degrees v,
      preds-snoc adj sorted nodes node v popped_new,
      once,
    )

    placed' :
        (v : Name)
        → occ v (sorted ++ node ∷ []) + occ v next.1 ≡ one_if (mem v nodes && next.0 v == 0)
    placed' v = ground (
      arith,
      relax-deg deg queue (sort_strings (adj node)) v sorted_neighbors-IsSetOf,
      relax-occ deg queue (sort_strings (adj node)) v sorted_neighbors-IsSetOf,
      mem-neighbors v,
      inv.degrees v,
      preds-snoc adj sorted nodes node v popped_new,
      once,
      inv.placed v,
      occ-append v sorted (node ∷ []),
      targets node v,
    )

    ordered' :
        (u v : Name)
        → mem v (adj u) ≡ true
        → mem v (sorted ++ node ∷ []) ≡ true
        → precedes u v (sorted ++ node ∷ []) ≡ true
    ordered' u v e m = elim (Bool-cases (mem v sorted)) [
      | inl old ↦ precedes-append u v sorted (node ∷ []) (inv.ordered u v e old)
      | inr new ↦
          let same : node ≡ v = text_eq→eq node v (ground (arith, mem-snoc v node sorted)) in
          let zero_deg : deg v ≡ 0 = subst (λ w. deg w ≡ 0) same popped_deg in
          precedes_new u v sorted (node ∷ [])
            (preds-zero adj sorted nodes u v (omega (arith, inv.degrees v)) (sources u v e) e) new
    ]

    pub step-IsLoop : IsLoop next.0 next.1 (sorted ++ node ∷ [])
    step-IsLoop = record { degrees = degrees'; placed = placed'; ordered = ordered' }

  -- No more names are placed than there are nodes.
  pub placed-length :
      (deg : Name → ℕ) (queue sorted : List Name)
      → IsLoop deg queue sorted
      → length sorted + length queue ≤ length nodes
  placed-length deg queue sorted inv = omega (
    arith,
    length-append sorted queue,
    length-le_of_occ (sorted ++ queue) nodes
        λ v. ground (arith, inv.placed v, occ-append v sorted queue, mem-occ v nodes),
  )

  -- A loop with a round left for each node that is not sorted ends, with an empty queue.
  pub kahn_ends :
      (fuel : ℕ) (deg : Name → ℕ) (queue sorted : List Name)
      → length nodes ≤ fuel + length sorted
      → IsLoop deg queue sorted
      → (final : List Name) × (deg' : Name → ℕ) × (kahn adj fuel deg queue sorted ≡ ok final)
        × IsLoop deg' [] final
  unfolding kahn
  kahn_ends fuel deg [] sorted h inv = (sorted, deg, refl, inv)
  kahn_ends zero deg (node ∷ queue) sorted h inv =
      absurd (omega (arith, placed-length deg (node ∷ queue) sorted inv))
  kahn_ends (suc fuel) deg (node ∷ queue) sorted h inv =
      kahn_ends fuel _ _ (sorted ++ node ∷ []) (omega (arith, length-append sorted (node ∷ [])))
        (step-IsLoop deg node queue sorted inv)
