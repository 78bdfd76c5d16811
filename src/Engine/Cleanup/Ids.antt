-- ===== src/Engine/Cleanup/Ids.antt =====
-- The step IDs of cleanup steps (engine/cleanup.go).
use aat.Base.{
  ℕ, zero, suc, ◌+◌, ◌≤◌, ◌<◌, List, [], ◌∷◌, ◌++◌, true, false, ◌≡◌, ◌≢◌, refl, sym, ap, subst,
  ◌⊎◌, inl, inr, length, length-append, Bool-cases, arith,
}
use aat.Base.Text.{Text, codes, text_eq, text_eq→eq, text_eq_refl}
use aat.Base.Decimal.{decimal, decimal_injective}
use aat.Graph.Names.{Name, mem, add_name, occ, IsSetOf, mem-occ, not_mem-occ}
use aat.Graph.Names.Sizes.{length-le_of_occ}
use aat.Graph.Names.Sets.{mem-add, add-IsSetOf}
use aat.Engine.Cleanup.{CleanupRun, candidate, free_id, next_id}

append_cancel : (s t u : Text) → s ++ t ≡ s ++ u → t ≡ u
append_cancel [] t u h = h
append_cancel (c ∷ s) t u h = append_cancel s t u (cc)

length_ne : (s t : Text) → length s < length t → s ≢ t
length_ne s t h e = omega (arith, ap length e)

node_ne : (node : Name) (n : ℕ) → candidate node zero ≢ candidate node (suc n)
node_ne node n =
    length_ne node (node ++ (codes "_" ++ decimal (n + 2)))
      (omega (arith, length-append node (codes "_" ++ decimal (n + 2))))

candidate_injective : (node : Name) (m n : ℕ) → candidate node m ≡ candidate node n → m ≡ n
candidate_injective node zero zero h = refl
candidate_injective node zero (suc n) h = absurd (node_ne node n h)
candidate_injective node (suc m) zero h = absurd (node_ne node m (sym h))
candidate_injective node (suc m) (suc n) h =
    let same : decimal (m + 2) ≡ decimal (n + 2) =
      append_cancel (codes "_") (decimal (m + 2)) (decimal (n + 2))
        (append_cancel node (codes "_" ++ decimal (m + 2)) (codes "_" ++ decimal (n + 2)) h) in
    omega (arith, decimal_injective (m + 2) (n + 2) same)

abbrev candidates : Name → ℕ → ℕ → List Name
candidates node n zero = []
candidates node n (suc k) = candidate node n ∷ candidates node (suc n) k

length-candidates : (node : Name) (n k : ℕ) → length (candidates node n k) ≡ k
length-candidates node n zero = refl
length-candidates node n (suc k) = omega (arith, length-candidates node (suc n) k)

occ-candidates :
    (node : Name) (m n k : ℕ) → m < n → occ (candidate node m) (candidates node n k) ≡ 0
occ-candidates node m n zero h = refl
occ-candidates node m n (suc k) h =
    elim (Bool-cases (text_eq (candidate node n) (candidate node m))) [
      | inl same ↦ absurd (
          omega (
            arith,
            candidate_injective node n m (text_eq→eq (candidate node n) (candidate node m) same),
          ))
      | inr other ↦ rw other (omega (arith, occ-candidates node m (suc n) k (omega arith)))
    ]

candidates-IsSetOf : (node : Name) (n k : ℕ) → IsSetOf (candidates node n k)
candidates-IsSetOf node n zero v = omega arith
candidates-IsSetOf node n (suc k) v = elim (Bool-cases (text_eq (candidate node n) v)) [
  | inl same ↦
      let later : occ v (candidates node (suc n) k) ≡ 0 =
        subst (λ w. occ w (candidates node (suc n) k) ≡ 0) (text_eq→eq (candidate node n) v same)
          (occ-candidates node n (suc n) k (omega arith)) in
      rw same (omega (arith, later))
  | inr other ↦ rw other (omega (arith, candidates-IsSetOf node (suc n) k v))
]

abbrev AllTaken : List Name → List Name → Type 0
AllTaken ids cs = (v : Name) → mem v cs ≡ true → mem v ids ≡ true

-- The candidate found is free, or every candidate tried is taken.
free_id-free :
    (ids : List Name) (node : Name) (fuel n : ℕ)
    → (mem (free_id ids node fuel n) ids ≡ false) ⊎ AllTaken ids (candidates node n (suc fuel))
unfolding free_id
free_id-free ids node zero n = elim (Bool-cases (mem (candidate node n) ids)) [
  | inl taken ↦ inr (λ v h. ground (arith, taken, text_eq→eq (candidate node n) v))
  | inr free ↦ inl free
]
free_id-free ids node (suc fuel) n = elim (Bool-cases (mem (candidate node n) ids)) [
  | inr free ↦ inl (rw free free)
  | inl taken ↦ elim (free_id-free ids node fuel (suc n)) [
    | inl found ↦ inl (rw taken found)
    | inr all ↦ inr (λ v h. ground (arith, taken, all v, text_eq→eq (candidate node n) v))
  ]
]

too_many :
    (ids : List Name) (node : Name) (n k : ℕ) → AllTaken ids (candidates node n k) → k ≤ length ids
too_many ids node n k all = omega (
  arith,
  length-candidates node n k,
  length-le_of_occ (candidates node n k) ids (λ v. ground (
    arith,
    candidates-IsSetOf node n k v,
    not_mem-occ v (candidates node n k),
    mem-occ v ids,
    all v,
  )),
)

-- A cleanup step's ID is one that no step of the run has, and it is in use from then on, so that a
-- run's step IDs stay distinct.
pub next_id-fresh :
    (node : Name) (run : CleanupRun)
    → IsSetOf run.ids
    → (mem (next_id node run).0 run.ids ≡ false)
      × (mem (next_id node run).0 (next_id node run).1.ids ≡ true)
      × IsSetOf (next_id node run).1.ids
unfolding next_id
next_id-fresh node run h = (
  elim (free_id-free run.ids node (length run.ids) 0) [
    | inl free ↦ free
    | inr all ↦ absurd (omega (arith, too_many run.ids node 0 (suc (length run.ids)) all))
  ],
  mem-added (free_id run.ids node (length run.ids) 0) run.ids,
  add-IsSetOf (free_id run.ids node (length run.ids) 0) run.ids h,
)
  where
    mem-added : (a : Name) (xs : List Name) → mem a (add_name a xs) ≡ true
    mem-added a xs = ground (arith, mem-add a a xs, text_eq_refl a)
