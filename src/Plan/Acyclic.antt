-- ===== src/Plan/Acyclic.antt =====
-- The bindings of plan/binding.go close no cycle of dependencies, and what the injection of
-- dependencies adds.
use aat.Base.{
  List, [], ◌∷◌, ◌++◌, Bool, true, false, not, ◌||◌, Option, some, any, ◌≡◌, refl, sym, ap, ◌∙◌,
  subst, ◌⊎◌, inl, inr, Bool-cases, Option-cases, arith, reverse, some_injective,
}
use mathlib.Core.List.{reverse_aux}
use aat.Base.Text.{text_eq, text_eq→eq, text_eq_refl}
use aat.Graph.Names.{Name, mem, occ, IsSetOf, mem-occ, occ-append}
use aat.Graph.Names.Sets.{mem-append}
use aat.Engine.Routing.{find_first, find_last}
use aat.Engine.Cleanup.Skip.{is_empty}
use aat.Plan.{Step, step_id, step_ids}
use aat.Plan.Binding.{
  fill_deps, deps_of, depends_on_step, default_ref_step, nearest_producer, binds_before,
  binds_anywhere, produces,
}
use aat.Plan.Reach.{Reaches, direct, through, Reaches-trans, depends_on_step-Reaches}

-- No step depends on itself, also not through others.
abbrev pub IsAcyclic : List Step → Type 0
IsAcyclic steps = (x : Name) → Reaches (deps_of steps) x x → ⊥

-- The plan where the step between `before` and `after` depends on `src` too.
abbrev pub with_dep : List Step → Step → List Step → Name → List Step
with_dep before s after src = before ++ record s { depends_on = s.depends_on ++ src ∷ [] } ∷ after

module _ (s : Step) (src : Name) where
  abbrev Extends : (Name → List Name) → (Name → List Name) → Type 0
  Extends m m' =
      (x y : Name) → mem y (m' x) ≡ true → (mem y (m x) ≡ true) ⊎ (step_id s ≡ x) × (src ≡ y)

  fill_deps-Extends :
      (ss : List Step) (m m' : Name → List Name)
      → Extends m m'
      → Extends (fill_deps ss m) (fill_deps ss m')
  unfolding fill_deps
  fill_deps-Extends [] m m' h = h
  fill_deps-Extends (t ∷ ss) m m' h = fill_deps-Extends ss _ _ (λ x y k.
      elim (Bool-cases (text_eq (step_id t) x)) [
        | inl same ↦ simp same (inl (simp same at k))
        | inr other ↦ simp other (h x y (simp other at k))
      ])

  deps_of-Extends :
      (before after : List Step) (m : Name → List Name)
      → Extends (fill_deps (before ++ s ∷ after) m) (fill_deps (with_dep before s after src) m)
  unfolding fill_deps
  deps_of-Extends [] after m = fill_deps-Extends after _ _ (λ x y k.
      elim (Bool-cases (text_eq (step_id s) x)) [
        | inl same ↦ simp same (
            ground (
              arith,
              simp same at k,
              mem-append y s.depends_on (src ∷ []),
              text_eq→eq src y,
              text_eq→eq (step_id s) x,
            ))
        | inr other ↦ simp other (inl (simp other at k))
      ])
  deps_of-Extends (t ∷ before) after m = deps_of-Extends before after _

  module _ (deps deps' : Name → List Name) (extends : Extends deps deps') where
    abbrev Upto : Name → Name → Type 0
    Upto x y = (x ≡ y) ⊎ Reaches deps x y

    Upto-trans : (x y z : Name) → Upto x y → Upto y z → Upto x z
    Upto-trans x y z (inl e) q = subst (λ w. Upto w z) (sym e) q
    Upto-trans x y z (inr p) (inl e) = inr (subst (Reaches deps x) e p)
    Upto-trans x y z (inr p) (inr q) = inr (Reaches-trans deps x y z p q)

    -- A path uses the new dependency or not.
    Reaches-split :
        (x y : Name) → Reaches deps' x y → Reaches deps x y ⊎ Upto x (step_id s) × Upto src y
    Reaches-split x y (direct h) = elim (extends x y h) [
      | inl old ↦ inl (direct old)
      | inr (at_s, at_src) ↦ inr (inl (sym at_s), inl at_src)
    ]
    Reaches-split x y (through {y = w} h p) = elim (extends x w h) [
      | inl old ↦ elim (Reaches-split w y p) [
        | inl q ↦ inl (through old q)
        | inr (to_s, from_src) ↦ inr (Upto-trans x w (step_id s) (inr (direct old)) to_s, from_src)
      ]
      | inr (at_s, at_src) ↦ elim (Reaches-split w y p) [
        | inl q ↦ inr (inl (sym at_s), Upto-trans src w y (inl at_src) (inr q))
        | inr (to_s, from_src) ↦ inr (inl (sym at_s), from_src)
      ]
    ]

    no_cycle :
        ((x : Name) → Reaches deps x x → ⊥)
        → (Upto src (step_id s) → ⊥)
        → (x : Name) → Reaches deps' x x
        → ⊥
    no_cycle acyclic apart x p = elim (Reaches-split x x p) [
      | inl q ↦ acyclic x q
      | inr (to_s, from_src) ↦ apart (Upto-trans src x (step_id s) from_src to_s)
    ]

with_dep-IsAcyclic :
    (before : List Step) (s : Step) (after : List Step) (src : Name)
    → IsAcyclic (before ++ s ∷ after)
    → text_eq src (step_id s) ≡ false
    → depends_on_step (before ++ s ∷ after) src (step_id s) ≡ false
    → IsAcyclic (with_dep before s after src)
with_dep-IsAcyclic before s after src acyclic other free =
    no_cycle s src _ _ (deps_of-Extends s src before after (λ _. [])) acyclic (λ u. elim u [
      | inl e ↦
          let same : text_eq src (step_id s) ≡ true =
            subst (λ n. text_eq src n ≡ true) e (text_eq_refl src) in
          cc
      | inr p ↦
          let found = (depends_on_step-Reaches (before ++ s ∷ after) src (step_id s)).1 p in cc
    ])

find_first-some :
    (p : Step → Bool) (xs : List Step) (t : Step)
    → find_first p xs ≡ some t
    → (p t ≡ true) × (mem (step_id t) (step_ids xs) ≡ true)
find_first-some p [] t h = absurd (cc)
find_first-some p (x ∷ xs) t h = elim (Bool-cases (p x)) [
  | inl hit ↦
      let same : x ≡ t = some_injective x t (simp hit at h) in
      (
        subst (λ u. p u ≡ true) same hit,
        subst (λ u. mem (step_id u) (step_ids (x ∷ xs)) ≡ true) same
            (ground (arith, text_eq_refl (step_id x))),
      )
  | inr missed ↦
      let (holds, m) = find_first-some p xs t (simp missed at h) in (holds, ground (arith, m))
]

step_ids-append : (xs ys : List Step) → step_ids (xs ++ ys) ≡ step_ids xs ++ step_ids ys
step_ids-append [] ys = refl
step_ids-append (x ∷ xs) ys = ap (λ l. step_id x ∷ l) (step_ids-append xs ys)

mem-reverse_aux :
    (v : Name) (xs ys : List Step)
    → mem v (step_ids (reverse_aux xs ys)) ≡ true
    → (mem v (step_ids xs) ≡ true) ⊎ (mem v (step_ids ys) ≡ true)
mem-reverse_aux v [] ys h = inr h
mem-reverse_aux v (x ∷ xs) ys h = ground (arith, mem-reverse_aux v xs (x ∷ ys) h)

find_last-some :
    (p : Step → Bool) (xs : List Step) (t : Step)
    → find_last p xs ≡ some t
    → (p t ≡ true) × (mem (step_id t) (step_ids xs) ≡ true)
find_last-some p xs t h =
    let (holds, m) = find_first-some p (reverse xs) t h in
    (holds, ground (arith, mem-reverse_aux (step_id t) xs [] m))

-- With distinct IDs the step's own ID is not that of a step before it.
before-ne :
    (before : List Step) (s : Step) (after : List Step) (v : Name)
    → IsSetOf (step_ids (before ++ s ∷ after))
    → mem v (step_ids before) ≡ true
    → text_eq v (step_id s) ≡ false
before-ne before s after v once m = elim (Bool-cases (text_eq v (step_id s))) [
  | inr other ↦ other
  | inl same ↦
      let twice =
        ap (occ v) (step_ids-append before (s ∷ after))
        ∙ occ-append v (step_ids before) (step_ids (s ∷ after)) in
      absurd (
        ground (
          arith,
          once v,
          twice,
          mem-occ v (step_ids before),
          text_eq→eq v (step_id s),
          text_eq_refl (step_id s),
        ))
]

-- When the steps' IDs are distinct and no step depends on itself, the nearest producer of an output
-- is a step before the consumer, and a dependency on it closes no cycle.
pub nearest_producer-IsAcyclic :
    (outputs : List (Name × List Name)) (before : List Step) (s : Step) (after : List Step)
    (output : Name)
    → IsSetOf (step_ids (before ++ s ∷ after))
    → IsAcyclic (before ++ s ∷ after)
    → let src = nearest_producer outputs before s after output in
      is_empty src ≡ false
      → (mem src (step_ids before) ≡ true) × IsAcyclic (with_dep before s after src)
unfolding nearest_producer
nearest_producer-IsAcyclic outputs before s after output once acyclic set =
    elim (Option-cases chosen) [
      | inl nothing ↦ absurd (cc (simp nothing at set))
      | inr (t, found) ↦
          let (holds, m) =
            find_last-some (produces outputs (before ++ s ∷ after) (step_id s) output) before t
              found in
          simp found (
            m,
            with_dep-IsAcyclic before s after (step_id t) acyclic
                (before-ne before s after (step_id t) once m) (ground (arith, holds)),
          )
    ]
  where
    chosen : Option Step
    chosen = find_last (produces outputs (before ++ s ∷ after) (step_id s) output) before

find_first-any :
    (p : Step → Bool) (xs : List Step) → any p xs ≡ true → (t : Step) × (find_first p xs ≡ some t)
find_first-any p [] h = absurd (cc)
find_first-any p (x ∷ xs) h = elim (Bool-cases (p x)) [
  | inl hit ↦ (x, simp hit)
  | inr missed ↦ let (t, e) = find_first-any p xs (simp missed at h) in (t, simp missed e)
]

-- Where a step on the node qualifies and no step depends on itself, a default's reference binds to
-- the consumer itself, or to a step on the node that is not expected to fail, and the dependency on
-- that step closes no cycle.
pub default_ref_step-IsAcyclic :
    (before : List Step) (s : Step) (after : List Step) (node : Name)
    → any (binds_anywhere (before ++ s ∷ after) (step_id s) node) (before ++ s ∷ after) ≡ true
    → IsAcyclic (before ++ s ∷ after)
    → let src = default_ref_step before s after node in
      (t : Step) × (src ≡ step_id t)
      × (text_eq t.node node ≡ true)
      × (t.expect_failure ≡ false)
      × ((src ≡ step_id s) ⊎ IsAcyclic (with_dep before s after src))
unfolding default_ref_step
default_ref_step-IsAcyclic before s after node exists acyclic = elim (Option-cases nearest) [
  | inl nothing ↦
      let (t, found) = find_first-any (binds_anywhere steps (step_id s) node) steps exists in
      let (holds, _) = find_first-some (binds_anywhere steps (step_id s) node) steps t found in
      (
        t,
        simp (nothing, found),
        ground (arith, holds),
        ground (arith, holds),
        simp (nothing, found) (apart t (ground (arith, holds))),
      )
  | inr (t, found) ↦
      let (holds, _) = find_last-some (binds_before steps (step_id s) node) before t found in
      (
        t,
        simp found,
        ground (arith, holds),
        ground (arith, holds),
        simp found (apart t (ground (arith, holds))),
      )
]
  where
    steps : List Step
    steps = before ++ s ∷ after

    nearest : Option Step
    nearest = find_last (binds_before steps (step_id s) node) before

    apart :
        (t : Step)
        → (text_eq (step_id t) (step_id s) || not (depends_on_step steps (step_id t) (step_id s)))
          ≡ true
        → (step_id t ≡ step_id s) ⊎ IsAcyclic (with_dep before s after (step_id t))
    apart t h = elim (Bool-cases (text_eq (step_id t) (step_id s))) [
      | inl same ↦ inl (text_eq→eq (step_id t) (step_id s) same)
      | inr other ↦
          inr
            (with_dep-IsAcyclic before s after (step_id t) acyclic other (ground (arith, h, other)))
    ]
