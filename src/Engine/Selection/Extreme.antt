-- ===== src/Engine/Selection/Extreme.antt =====
-- What the min and max strategies select (`selectByFieldExtreme` of engine/selection.go).
use aat.Base.{
  ℕ, suc, ◌+◌, List, [], ◌∷◌, ◌++◌, Bool, true, false, if◌then◌else◌, Option, none, some, length,
  ok, append-nil, ◌≡◌, refl, sym, ap, ◌∙◌, subst, ◌⊎◌, inl, inr, Bool-cases, arith, keep,
  keep-append, get_elem?, append_assoc, length-append, All, All-append, All-append_left,
  All-append_right, All-map_both,
}
use aat.Base.Text.{Text}
use aat.Predicate.Syntax.{Floats}
use aat.Engine.Selection.{
  Library, V, SelectionResult, Best, better, improve, extract_numeric_field, extreme_loop,
  select_by_field_extreme,
}

-- `<` on the numbers that are neither NaN nor infinite: transitive, and what is below one number is
-- below the other, or that is below the first.
pub record IsOrdered (fl : Floats) (lib : Library fl) : Type 0 where
  pub trans :
      (a b c : fl.Float)
      → lib.is_finite a ≡ true
      → lib.is_finite b ≡ true
      → lib.is_finite c ≡ true
      → fl.flt a b ≡ true
      → fl.flt b c ≡ true
      → fl.flt a c ≡ true
  pub cotrans :
      (a b c : fl.Float)
      → lib.is_finite a ≡ true
      → lib.is_finite b ≡ true
      → lib.is_finite c ≡ true
      → fl.flt a c ≡ true
      → (fl.flt a b ≡ true) ⊎ (fl.flt b c ≡ true)

module _ (fl : Floats) (lib : Library fl) where
  abbrev pub F : Type 0
  F = fl.Float

  -- The numbers that the elements hold in the field.
  abbrev pub Holds : Text → List (V fl lib) → List F → Type 0
  Holds field [] [] = Unit
  Holds field (x ∷ xs) (f ∷ fs) = (extract_numeric_field fl lib x field ≡ ok f) × Holds field xs fs
  Holds field _ _ = ⊥

  abbrev pub same_as : F → F → Bool
  same_as best f = fl.feq f best

  -- Of the numbers, the first of the best ones: those before it are worse, and those behind it are
  -- not better.
  abbrev pub IsFirstBest : Bool → List F → F → ℕ → ℕ → Type 0
  IsFirstBest largest fs best index ties =
      (before : List F) × (after : List F) × (fs ≡ before ++ best ∷ after)
      × (index ≡ length before)
      × All (λ f. better fl lib largest best f ≡ true) before
      × All (λ f. better fl lib largest f best ≡ false) after
      × (ties ≡ suc (length (keep (same_as best) after)))

  -- The best of the numbers so far.
  abbrev Leads : Bool → List F → Option (Best fl lib) → Type 0
  Leads largest [] best = best ≡ none
  Leads largest (f ∷ fs) best =
      (b : Best fl lib) × (best ≡ some b)
      × IsFirstBest largest (f ∷ fs) b.best_value b.best_index b.best_ties

  abbrev IsFinite : List F → Type 0
  IsFinite fs = All (λ f. lib.is_finite f ≡ true) fs

  module _ (ordered : IsOrdered fl lib) (largest : Bool) where
    better_trans :
        (a b c : F)
        → lib.is_finite a ≡ true
        → lib.is_finite b ≡ true
        → lib.is_finite c ≡ true
        → better fl lib largest a b ≡ true
        → better fl lib largest b c ≡ true
        → better fl lib largest a c ≡ true
    better_trans a b c fa fb fc h k = elim (Bool-cases largest) [
      | inl up ↦ simp up (ordered.trans c b a fc fb fa (simp up at k) (simp up at h))
      | inr down ↦ simp down (ordered.trans a b c fa fb fc (simp down at h) (simp down at k))
    ]

    -- What is not better than `b` is worse than what is better than `b`.
    better_cotrans :
        (a b c : F)
        → lib.is_finite a ≡ true
        → lib.is_finite b ≡ true
        → lib.is_finite c ≡ true
        → better fl lib largest a b ≡ true
        → better fl lib largest c b ≡ false
        → better fl lib largest a c ≡ true
    better_cotrans a b c fa fb fc h k = elim (Bool-cases largest) [
      | inl up ↦ elim (ordered.cotrans b c a fb fc fa (simp up at h)) [
        | inl less ↦ absurd (cc (simp up at k))
        | inr good ↦ simp up good
      ]
      | inr down ↦ elim (ordered.cotrans a c b fa fc fb (simp down at h)) [
        | inl good ↦ simp down good
        | inr less ↦ absurd (cc (simp down at k))
      ]
    ]

    improve-new :
        (done : List F) (b val : F) (index ties : ℕ)
        → IsFinite (done ++ val ∷ [])
        → IsFirstBest largest done b index ties
        → better fl lib largest val b ≡ true
        → IsFirstBest largest (done ++ val ∷ []) val (length done) 1
    improve-new done b val index ties finite (before, after, e, _, worse, no_better, _) h = (
      done,
      [],
      refl,
      refl,
      subst (All (λ f. better fl lib largest val f ≡ true)) (sym e) beats,
      tt,
      refl,
    )
      where
        finite_val : lib.is_finite val ≡ true
        finite_val = (All-append_right (λ f. lib.is_finite f ≡ true) done (val ∷ []) finite).0

        finite_done : IsFinite (before ++ b ∷ after)
        finite_done =
            subst IsFinite e (All-append_left (λ f. lib.is_finite f ≡ true) done (val ∷ []) finite)

        finite_rest : IsFinite (b ∷ after)
        finite_rest = All-append_right (λ f. lib.is_finite f ≡ true) before (b ∷ after) finite_done

        beats : All (λ f. better fl lib largest val f ≡ true) (before ++ b ∷ after)
        beats =
            All-append _ before (b ∷ after)
              (All-map_both (λ f ff k. better_trans val b f finite_val finite_rest.0 ff h k) before
                (All-append_left (λ f. lib.is_finite f ≡ true) before (b ∷ after) finite_done)
                worse)
              (
                h,
                All-map_both (λ f ff k. better_cotrans val b f finite_val finite_rest.0 ff h k)
                    after finite_rest.1 no_better,
              )

    improve-old :
        (done : List F) (b val : F) (index ties : ℕ)
        → IsFirstBest largest done b index ties
        → better fl lib largest val b ≡ false
        → IsFirstBest largest (done ++ val ∷ []) b index (if fl.feq val b then suc ties else ties)
    improve-old done b val index ties (before, after, e, at, worse, no_better, count) h = (
      before,
      after ++ val ∷ [],
      ap (λ l. l ++ val ∷ []) e ∙ append_assoc before (b ∷ after) (val ∷ []),
      at,
      worse,
      All-append _ after (val ∷ []) no_better (h, tt),
      elim (Bool-cases (fl.feq val b)) [
        | inl same ↦ simp same (ap suc count ∙ ap suc (sized same))
        | inr other ↦ simp other (count ∙ sized_other other)
      ],
    )
      where
        appended :
            length (keep (same_as b) (after ++ val ∷ []))
            ≡ length (keep (same_as b) after) + length (keep (same_as b) (val ∷ []))
        appended =
            ap length (keep-append (same_as b) after (val ∷ []))
            ∙ length-append (keep (same_as b) after) (keep (same_as b) (val ∷ []))

        sized :
            fl.feq val b ≡ true
            → suc (length (keep (same_as b) after)) ≡ length (keep (same_as b) (after ++ val ∷ []))
        sized same = ground (arith, appended, same)

        sized_other :
            fl.feq val b ≡ false
            → suc (length (keep (same_as b) after))
              ≡ suc (length (keep (same_as b) (after ++ val ∷ [])))
        sized_other other = ground (arith, appended, other)

    improve_all : List F → ℕ → Option (Best fl lib) → Option (Best fl lib)
    improve_all [] i best = best
    improve_all (f ∷ fs) i best = improve_all fs (suc i) (improve fl lib largest i f best)

    extreme_loop-Holds :
        (field : Text) (xs : List (V fl lib)) (fs : List F) (i : ℕ) (best : Option (Best fl lib))
        → Holds field xs fs
        → extreme_loop fl lib field largest xs i best ≡ ok (improve_all fs i best)
    unfolding extreme_loop improve_all
    extreme_loop-Holds field [] [] i best h = refl
    extreme_loop-Holds field [] (f ∷ fs) i best h = absurd h
    extreme_loop-Holds field (x ∷ xs) [] i best h = absurd h
    extreme_loop-Holds field (x ∷ xs) (f ∷ fs) i best (e, h) =
        simp e (extreme_loop-Holds field xs fs (suc i) (improve fl lib largest i f best) h)

    improve-Leads :
        (done : List F) (val : F) (best : Option (Best fl lib))
        → IsFinite (done ++ val ∷ [])
        → Leads largest done best
        → Leads largest (done ++ val ∷ []) (improve fl lib largest (length done) val best)
    improve-Leads [] val best finite e = simp e (
      record { best_index = 0; best_value = val; best_ties = 1 },
      refl,
      ([], [], refl, refl, tt, tt, refl),
    )
    improve-Leads (f ∷ fs) val best finite (b, e, first) =
        elim (Bool-cases (better fl lib largest val b.best_value)) [
          | inl new ↦
              simp (e, new)
                (
                  _,
                  refl,
                  improve-new (f ∷ fs) b.best_value val b.best_index b.best_ties finite first new,
                )
          | inr old ↦
              let first' =
                improve-old (f ∷ fs) b.best_value val b.best_index b.best_ties first old in
              elim (Bool-cases (fl.feq val b.best_value)) [
                | inl same ↦ simp (e, old, same) (_, refl, simp same at first')
                | inr other ↦ simp (e, old, other) (b, refl, simp other at first')
              ]
        ]

    improve_all-Leads :
        (done fs : List F) (best : Option (Best fl lib))
        → IsFinite (done ++ fs)
        → Leads largest done best
        → Leads largest (done ++ fs) (improve_all fs (length done) best)
    unfolding improve_all
    improve_all-Leads done [] best finite leads =
        subst (λ l. Leads largest l best) (sym (append-nil done)) leads
    improve_all-Leads done (f ∷ fs) best finite leads =
        let regroup = append_assoc done (f ∷ []) fs in
        let finite' = subst IsFinite (sym regroup) finite in
        let step =
          improve-Leads done f best
            (All-append_left (λ f. lib.is_finite f ≡ true) (done ++ f ∷ []) fs finite') leads in
        let rest = improve_all-Leads (done ++ f ∷ []) fs _ finite' step in
        let next : length (done ++ f ∷ []) ≡ suc (length done) =
          omega (arith, length-append done (f ∷ [])) in
        subst
          (λ l.
            Leads largest l
              (improve_all fs (suc (length done)) (improve fl lib largest (length done) f best)))
          regroup
          (subst
            (λ n.
              Leads largest ((done ++ f ∷ []) ++ fs)
                (improve_all fs n (improve fl lib largest (length done) f best)))
            next rest)

    -- An element at the index of a number that the elements hold.
    Holds-index :
        (field : Text) (xs : List (V fl lib)) (before : List F) (f : F) (after : List F)
        → Holds field xs (before ++ f ∷ after)
        → (x : V fl lib) × (get_elem? xs (length before) ≡ some x)
          × (extract_numeric_field fl lib x field ≡ ok f)
    Holds-index field [] [] f after h = absurd h
    Holds-index field [] (g ∷ before) f after h = absurd h
    Holds-index field (x ∷ xs) [] f after (e, h) = (x, refl, e)
    Holds-index field (x ∷ xs) (g ∷ before) f after (e, h) = Holds-index field xs before f after h

-- Where every element holds a finite number in the field, min and max select the first element with
-- the least, or the greatest, number: the numbers before it are worse and none behind it is better.
-- The result has its number, its index, the size of the array, and how many share the number.
pub select_by_field_extreme-IsFirstBest :
    (fl : Floats) (lib : Library fl) (largest : Bool) (field : Text) (x : V fl lib)
    (xs : List (V fl lib)) (fs : List fl.Float)
    → IsOrdered fl lib
    → Holds fl lib field (x ∷ xs) fs
    → All (λ f. lib.is_finite f ≡ true) fs
    → (r : SelectionResult (V fl lib) fl.Float) × (best : fl.Float) × (select_by_field_extreme fl
          lib
          (x ∷ xs)
          field
          largest
        ≡ ok r)
      × (get_elem? (x ∷ xs) r.index ≡ some r.element)
      × (extract_numeric_field fl lib r.element field ≡ ok best)
      × IsFirstBest fl lib largest fs best r.index r.ties
      × (r.filtered_size ≡ length (x ∷ xs))
      × (r.sort_value ≡ some best)
unfolding select_by_field_extreme
select_by_field_extreme-IsFirstBest fl lib largest field x xs [] ordered holds finite = absurd holds
select_by_field_extreme-IsFirstBest fl lib largest field x xs (f ∷ fs) ordered holds finite =
    let (b, e, (before, after, whole, at, worse, no_better, count)) =
      improve_all-Leads fl lib ordered largest [] (f ∷ fs) none finite refl in
    let (y, found, number) =
      Holds-index fl lib ordered largest field (x ∷ xs) before b.best_value after
        (subst (Holds fl lib field (x ∷ xs)) whole holds) in
    let looped =
      extreme_loop-Holds fl lib ordered largest field (x ∷ xs) (f ∷ fs) 0 none holds ∙ ap ok e in
    let present = ap (get_elem? (x ∷ xs)) at ∙ found in
    (
      record {
        element = y;
        index = b.best_index;
        filtered_size = length (x ∷ xs);
        ties = b.best_ties;
        sort_value = some b.best_value;
      },
      b.best_value,
      simp (looped, present),
      present,
      number,
      (before, after, whole, at, worse, no_better, count),
      refl,
      refl,
    )
