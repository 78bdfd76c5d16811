-- ===== src/Plan/Reach.antt =====
-- `dependsOnStep` of plan/binding.go decides whether a path of dependencies leads from a step to
-- another.
use aat.Base.{
  ℕ, zero, suc, ◌+◌, ◌≤◌, ◌<◌, List, [], ◌∷◌, true, false, ◌||◌, if◌then◌else◌, none, some, length,
  ◌≡◌, refl, sym, ap, ◌∙◌, subst, ◌⊎◌, inl, inr, ◌↔◌, Bool-cases, arith,
}
use aat.Base.Text.{text_eq, text_eq→eq, text_eq_refl}
use aat.Graph.Names.{Name, mem, add_name}
use aat.Graph.Names.Sets.{mem-add, mem-append}
use aat.Graph.Topo.{update}
use aat.Plan.{Step, step_id}
use aat.Plan.Binding.{fill_deps, deps_of, visit_deps, search_deps, all_deps, depends_on_step}

-- A path of dependencies.
pub data Reaches (deps : Name → List Name) : Name → Name → Type 0 where
  direct : {x y : Name} → mem y (deps x) ≡ true → Reaches deps x y
  through : {x y z : Name} → mem y (deps x) ≡ true → Reaches deps y z → Reaches deps x z

pub Reaches-trans :
    (deps : Name → List Name) (x y z : Name)
    → Reaches deps x y
    → Reaches deps y z
    → Reaches deps x z
Reaches-trans deps x y z (direct h) q = through h q
Reaches-trans deps x y z (through {y = w} h p) q = through h (Reaches-trans deps w y z p q)

-- The names that are not seen yet.
abbrev unseen : List Name → List Name → ℕ
unseen [] seen = 0
unseen (x ∷ xs) seen = let rest = unseen xs seen in if mem x seen then rest else suc rest

unseen-le : (xs seen : List Name) → unseen xs seen ≤ length xs
unseen-le [] seen = omega arith
unseen-le (x ∷ xs) seen = ground (arith, unseen-le xs seen)

unseen-add :
    (xs : List Name) (d : Name) (seen : List Name) → unseen xs (add_name d seen) ≤ unseen xs seen
unseen-add [] d seen = omega arith
unseen-add (x ∷ xs) d seen = ground (arith, unseen-add xs d seen, mem-add x d seen)

unseen-new :
    (xs : List Name) (d : Name) (seen : List Name)
    → mem d xs ≡ true
    → mem d seen ≡ false
    → unseen xs (add_name d seen) < unseen xs seen
unseen-new [] d seen in_it fresh = absurd (cc)
unseen-new (x ∷ xs) d seen in_it fresh = elim (Bool-cases (text_eq x d)) [
  | inl same ↦
      let equal = text_eq→eq x d same in
      let out : mem x seen ≡ false = ap (λ n. mem n seen) equal ∙ fresh in
      let added : mem x (add_name d seen) ≡ true =
        ground (arith, mem-add x d seen, ap (text_eq d) equal, text_eq_refl d) in
      simp (out, added) (omega (arith, unseen-add xs d seen))
  | inr other ↦ ground (
    arith,
    unseen-new xs d seen (simp other at in_it) fresh,
    mem-add x d seen,
    unseen-add xs d seen,
  )
]

abbrev Within : List Name → List Name → Type 0
Within xs ys = (x : Name) → mem x xs ≡ true → mem x ys ≡ true

-- What a visit of the dependencies `ds` leaves.
record Visited (all ds seen pending seen' pending' : List Name) : Type 0 where
  marked : (x : Name) → mem x seen' ≡ (mem x seen || mem x ds)
  kept : Within pending pending'
  from_ds : (x : Name) → mem x pending' ≡ true → (mem x pending ≡ true) ⊎ (mem x ds ≡ true)
  queued : (x : Name) → mem x ds ≡ true → (mem x seen ≡ true) ⊎ (mem x pending' ≡ true)
  work : unseen all seen' + length pending' ≤ unseen all seen + length pending

visit_deps-none :
    (to : Name) (ds seen pending : List Name)
    → mem to ds ≡ true
    → visit_deps to ds seen pending ≡ none
unfolding visit_deps
visit_deps-none to [] seen pending h = absurd (cc)
visit_deps-none to (d ∷ ds) seen pending h = elim (Bool-cases (text_eq d to)) [
  | inl same ↦ simp same
  | inr other ↦ simp other (visit_deps-none to ds _ _ (simp other at h))
]

Visited-skip :
    (all : List Name) (d : Name) (ds seen pending seen' pending' : List Name)
    → mem d seen ≡ true
    → Visited all ds (add_name d seen) pending seen' pending'
    → Visited all (d ∷ ds) seen pending seen' pending'
Visited-skip all d ds seen pending seen' pending' old v = record {
  marked = λ x. ground (arith, v.marked x, mem-add x d seen, text_eq→eq d x);
  kept = v.kept;
  from_ds = λ x h. ground (arith, v.from_ds x h);
  queued = λ x h. ground (arith, v.queued x, mem-add x d seen, text_eq→eq d x);
  work = omega (arith, v.work, unseen-add all d seen);
}

Visited-push :
    (all : List Name) (d : Name) (ds seen pending seen' pending' : List Name)
    → mem d seen ≡ false
    → mem d all ≡ true
    → Visited all ds (add_name d seen) (d ∷ pending) seen' pending'
    → Visited all (d ∷ ds) seen pending seen' pending'
Visited-push all d ds seen pending seen' pending' fresh in_all v = record {
  marked = λ x. ground (arith, v.marked x, mem-add x d seen);
  kept = λ x h. v.kept x (ground arith);
  from_ds = λ x h. ground (arith, v.from_ds x h);
  queued = λ x h. ground (arith, v.queued x, v.kept x, mem-add x d seen);
  work = omega (arith, v.work, unseen-new all d seen in_all fresh);
}

visit_deps-Visited :
    (all : List Name) (to : Name) (ds seen pending : List Name)
    → mem to ds ≡ false
    → Within ds all
    → (seen' : List Name) × (pending' : List Name) × (visit_deps to ds seen pending
        ≡ some (seen', pending'))
      × Visited all ds seen pending seen' pending'
unfolding visit_deps
visit_deps-Visited all to [] seen pending h within = (
  seen,
  pending,
  refl,
  record {
    marked = λ x. ground arith;
    kept = λ x p. p;
    from_ds = λ x p. inl p;
    queued = λ x p. absurd (cc);
    work = omega arith;
  },
)
visit_deps-Visited all to (d ∷ ds) seen pending h within = elim (Bool-cases (mem d seen)) [
  | inl old ↦
      let (seen', pending', e, v) =
        visit_deps-Visited all to ds (add_name d seen) pending later within_ds in
      (
        seen',
        pending',
        simp (other, old) e,
        Visited-skip all d ds seen pending seen' pending' old v,
      )
  | inr fresh ↦
      let (seen', pending', e, v) =
        visit_deps-Visited all to ds (add_name d seen) (d ∷ pending) later within_ds in
      (
        seen',
        pending',
        simp (other, fresh) e,
        Visited-push all d ds seen pending seen' pending' fresh
            (within d (ground (arith, text_eq_refl d))) v,
      )
]
  where
    other : text_eq d to ≡ false
    other = ground (arith, h)

    later : mem to ds ≡ false
    later = ground (arith, h)

    within_ds : Within ds all
    within_ds x m = within x (ground (arith, m))

module _ (deps : Name → List Name) (all : List Name) (covered : (x : Name) → Within (deps x) all)
    (from to : Name) where
  -- A pending name is `from`, or a path leads to it.
  abbrev Found : List Name → Type 0
  Found pending = (x z : Name) → mem x pending ≡ true → Reaches deps x z → Reaches deps from z

  search_deps_sound :
      (fuel : ℕ) (seen pending : List Name)
      → Found pending
      → search_deps deps to fuel seen pending ≡ true
      → Reaches deps from to
  unfolding search_deps
  search_deps_sound zero seen [] found h = absurd (cc)
  search_deps_sound (suc fuel) seen [] found h = absurd (cc)
  search_deps_sound zero seen (cur ∷ pending) found h = absurd (cc)
  search_deps_sound (suc fuel) seen (cur ∷ pending) found h =
      elim (Bool-cases (mem to (deps cur))) [
        | inl hit ↦ found cur to (ground (arith, text_eq_refl cur)) (direct hit)
        | inr missed ↦
            let (seen', pending', e, v) =
              visit_deps-Visited all to (deps cur) seen pending missed (covered cur) in
            search_deps_sound fuel seen' pending'
              (λ x z m p. elim (v.from_ds x m) [
                | inl old ↦ found x z (ground (arith, old)) p
                | inr new ↦ found cur z (ground (arith, text_eq_refl cur)) (through new p)
              ])
              (rw (e, search_deps) at h)
      ]

  -- Where `x` was visited, its dependencies are seen and `to` is not among them.
  abbrev Done : List Name → Name → Type 0
  Done seen x = (mem to (deps x) ≡ false) × Within (deps x) seen

  abbrev Closed : List Name → List Name → Type 0
  Closed seen pending = (x : Name) → mem x seen ≡ true → (mem x pending ≡ true) ⊎ Done seen x

  Closed-visit :
      (cur : Name) (seen pending seen' pending' : List Name)
      → mem to (deps cur) ≡ false
      → Visited all (deps cur) seen pending seen' pending'
      → Closed seen (cur ∷ pending)
      → Closed seen' pending'
  Closed-visit cur seen pending seen' pending' missed v closed x m =
      elim (Bool-cases (mem x seen)) [
        | inl old ↦ elim (Bool-cases (text_eq cur x)) [
          | inl same ↦ inr (
              subst (Done seen') (text_eq→eq cur x same)
                (missed, λ d h. ground (arith, v.marked d, h)))
          | inr other ↦ elim (closed x old) [
            | inl waits ↦ inl (v.kept x (ground (arith, waits, other)))
            | inr (no_hit, within) ↦ inr (no_hit, λ d h. ground (arith, v.marked d, within d h))
          ]
        ]
        | inr new ↦ inl (ground (arith, v.marked x, v.queued x))
      ]

  Closed-Reaches :
      (seen : List Name) (x : Name) → Closed seen [] → mem x seen ≡ true → Reaches deps x to → ⊥
  Closed-Reaches seen x closed m (direct h) = elim (closed x m) [
    | inl waits ↦ cc
    | inr (no_hit, within) ↦ cc
  ]
  Closed-Reaches seen x closed m (through {y} h p) = elim (closed x m) [
    | inl waits ↦ absurd (cc)
    | inr (no_hit, within) ↦ Closed-Reaches seen y closed (within y h) p
  ]

  search_deps_complete :
      (fuel : ℕ) (seen pending : List Name)
      → unseen all seen + length pending ≤ fuel
      → mem from seen ≡ true
      → Closed seen pending
      → Reaches deps from to
      → search_deps deps to fuel seen pending ≡ true
  unfolding search_deps
  search_deps_complete zero seen [] enough start closed p =
      absurd (Closed-Reaches seen from closed start p)
  search_deps_complete (suc fuel) seen [] enough start closed p =
      absurd (Closed-Reaches seen from closed start p)
  search_deps_complete zero seen (cur ∷ pending) enough start closed p =
      absurd (omega (arith, enough))
  search_deps_complete (suc fuel) seen (cur ∷ pending) enough start closed p =
      elim (Bool-cases (mem to (deps cur))) [
        | inl hit ↦ rw (visit_deps-none to (deps cur) seen pending hit, search_deps)
        | inr missed ↦
            let (seen', pending', e, v) =
              visit_deps-Visited all to (deps cur) seen pending missed (covered cur) in
            rw (e, search_deps)
              (search_deps_complete fuel seen' pending' (omega (arith, enough, v.work))
                (ground (arith, v.marked from))
                (Closed-visit cur seen pending seen' pending' missed v closed) p)
      ]

pub fill_deps-Within :
    (steps : List Step) (m : Name → List Name) (x d : Name)
    → mem d (fill_deps steps m x) ≡ true
    → (mem d (m x) ≡ true) ⊎ (mem d (all_deps steps) ≡ true)
unfolding fill_deps all_deps
fill_deps-Within [] m x d h = inl h
fill_deps-Within (s ∷ ss) m x d h = ground (
  arith,
  fill_deps-Within ss (update m (step_id s) s.depends_on) x d h,
  mem-append d s.depends_on (all_deps ss),
)

-- `dependsOnStep` answers true exactly when a path of dependencies leads from the one step to the
-- other.
pub depends_on_step-Reaches :
    (steps : List Step) (from to : Name)
    → (depends_on_step steps from to ≡ true) ↔ Reaches (deps_of steps) from to
unfolding depends_on_step
depends_on_step-Reaches steps from to = (
  search_deps_sound (deps_of steps) all covered from to (suc (length all)) (from ∷ []) (from ∷ [])
      (λ x z m p.
        subst (λ y. Reaches (deps_of steps) y z) (sym (text_eq→eq from x (ground (arith, m)))) p),
  search_deps_complete (deps_of steps) all covered from to (suc (length all)) (from ∷ [])
      (from ∷ []) (omega (arith, unseen-le all (from ∷ []))) (ground (arith, text_eq_refl from))
      (λ x m. inl m),
)
  where
    all : List Name
    all = all_deps steps

    covered : (x : Name) → Within (deps_of steps x) all
    covered x d h = ground (arith, fill_deps-Within steps (λ _. []) x d h)
