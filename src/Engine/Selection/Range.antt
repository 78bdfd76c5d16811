-- ===== src/Engine/Selection/Range.antt =====
-- A selection never indexes an array out of range (`applySelection` of engine/selection.go).
use aat.Base.{
  ok_injective, or_else, ℕ, suc, ◌+◌, ◌-◌, ◌<◌, List, [], ◌∷◌, Bool, true, false, if◌then◌else◌,
  Option, none, some, length, leb, Outcome, ok, err, bind-eq-ok, ◌≡◌, ◌≢◌, refl, ap, subst, inl,
  inr, Bool-cases, arith,
}
use aat.Base.Text.{Text}
use aat.Predicate.Syntax.{Floats, Node}
use aat.Engine.Selection.{
  unknown_strategy, compare_field, Library, V, Selected, SelectError, out_of_range, SelectionConfig,
  SelectionResult, Best, better, improve, accepts, parse_filter, apply_filter, note_match,
  match_loop, first_match, select_match, extract_numeric_field, extreme_loop, best_element,
  select_by_field_extreme, at_checked_index, by_strategy, apply_config, apply_selection,
}
use aat.Engine.Selection.Match.{apply_filter-keep}
use aat.Engine.Selection.Safe.{
  IsSafe, bind-IsSafe, place-IsSafe, parse_filter-IsSafe, accepts-IsSafe,
  extract_numeric_field-IsSafe, apply_filter-IsSafe,
}

module _ (fl : Floats) (lib : Library fl) where
  -- The index of the first match lies among the elements seen.
  abbrev Below : ℕ → Option ℕ → Type 0
  Below n none = Unit
  Below n (some i) = i < n

  Below-suc : (n : ℕ) (o : Option ℕ) → Below n o → Below (suc n) o
  Below-suc n none h = tt
  Below-suc n (some i) h = omega (arith, h)

  note_match-IsSafe :
      (o : Outcome SelectError Bool) (i : ℕ) (first : Option ℕ) (n : ℕ)
      → IsSafe o
      → Below i first
      → IsSafe (note_match fl lib o i first n)
        × ((r : Option ℕ × ℕ) → note_match fl lib o i first n ≡ ok r → Below (suc i) r.0)
  note_match-IsSafe (ok true) i first n safe h = (
    λ k. cc,
    λ r k.
        subst (Below (suc i)) (ap (λ p. p.0) (ok_injective (some (or_else first i), suc n) r k))
          (first_below first h),
  )
    where
      first_below : (o : Option ℕ) → Below i o → Below (suc i) (some (or_else o i))
      first_below none h = omega arith
      first_below (some j) h = omega (arith, h)
  note_match-IsSafe (ok false) i first n safe h = (
    λ k. cc,
    λ r k.
        subst (Below (suc i)) (ap (λ p. p.0) (ok_injective (first, n) r k)) (Below-suc i first h),
  )
  note_match-IsSafe (err e) i none n safe h = (λ k. safe (cc), λ r k. absurd (cc))
  note_match-IsSafe (err e) i (some j) n safe h = (
    λ k. cc,
    λ r k.
        subst (Below (suc i)) (ap (λ p. p.0) (ok_injective (some j, n) r k))
          (Below-suc i (some j) h),
  )

  match_loop-IsSafe :
      (pred : Node fl.Float) (xs : List (V fl lib)) (i : ℕ) (first : Option ℕ) (n : ℕ)
      → Below i first
      → IsSafe (match_loop fl lib pred xs i first n)
  unfolding match_loop
  match_loop-IsSafe pred [] i first n h = λ k. cc
  match_loop-IsSafe pred (x ∷ xs) i first n h =
      let (safe, below) =
        note_match-IsSafe (accepts fl lib pred x) i first n (accepts-IsSafe fl lib pred x) h in
      bind-IsSafe _ _ safe (λ s e. match_loop-IsSafe pred xs (suc i) s.0 s.1 (below s e))

  match_loop-Below :
      (pred : Node fl.Float) (xs : List (V fl lib)) (i : ℕ) (first : Option ℕ) (n : ℕ)
      (r : Option ℕ × ℕ)
      → Below i first
      → match_loop fl lib pred xs i first n ≡ ok r
      → Below (i + length xs) r.0
  unfolding match_loop
  match_loop-Below pred [] i first n r h e =
      subst (λ m. Below m r.0) (omega arith)
        (subst (Below i) (ap (λ p. p.0) (ok_injective (first, n) r e)) h)
  match_loop-Below pred (x ∷ xs) i first n r h e =
      let (s, noted, rest) = bind-eq-ok (note_match fl lib (accepts fl lib pred x) i first n) _ e in
      let (_, below) =
        note_match-IsSafe (accepts fl lib pred x) i first n (accepts-IsSafe fl lib pred x) h in
      subst (λ m. Below m r.0) (omega arith)
        (match_loop-Below pred xs (suc i) s.0 s.1 r (below s noted) rest)

  first_match-IsSafe :
      (arr : List (V fl lib)) (r : Option ℕ × ℕ)
      → Below (length arr) r.0
      → IsSafe (first_match fl lib arr r)
  first_match-IsSafe arr (none, n) h = λ k. cc
  first_match-IsSafe arr (some i, n) h = place-IsSafe fl lib arr i n 0 none h

  select_match-IsSafe :
      (arr : List (V fl lib)) (expr : Text) → IsSafe (select_match fl lib arr expr)
  unfolding select_match
  select_match-IsSafe arr expr =
      bind-IsSafe (parse_filter fl lib expr) _ (parse_filter-IsSafe fl lib expr) (λ pred _.
        bind-IsSafe (match_loop fl lib pred arr 0 none 0) (first_match fl lib arr)
          (match_loop-IsSafe pred arr 0 none 0 tt)
          (λ r e.
            first_match-IsSafe arr r
              (subst (λ m. Below m r.0) (omega arith) (match_loop-Below pred arr 0 none 0 r tt e))))

  -- The best element lies among the elements seen, and is there when there is one.
  abbrev HasBest : ℕ → Option (Best fl lib) → Type 0
  HasBest n none = n ≡ 0
  HasBest n (some b) = b.best_index < n

  improve-HasBest :
      (largest : Bool) (i : ℕ) (val : fl.Float) (best : Option (Best fl lib))
      → HasBest i best
      → HasBest (suc i) (improve fl lib largest i val best)
  improve-HasBest largest i val none h = omega arith
  improve-HasBest largest i val (some b) h =
      elim (Bool-cases (better fl lib largest val b.best_value)) [
        | inl new ↦ simp new (omega arith)
        | inr old ↦ elim (Bool-cases (fl.feq val b.best_value)) [
          | inl same ↦ simp (old, same) (omega (arith, h))
          | inr other' ↦ simp (old, other') (omega (arith, h))
        ]
      ]

  extreme_loop-IsSafe :
      (field : Text) (largest : Bool) (xs : List (V fl lib)) (i : ℕ) (best : Option (Best fl lib))
      → IsSafe (extreme_loop fl lib field largest xs i best)
  unfolding extreme_loop
  extreme_loop-IsSafe field largest [] i best = λ k. cc
  extreme_loop-IsSafe field largest (x ∷ xs) i best =
      bind-IsSafe (extract_numeric_field fl lib x field) _
        (extract_numeric_field-IsSafe fl lib x field)
        (λ val _. extreme_loop-IsSafe field largest xs (suc i) (improve fl lib largest i val best))

  extreme_loop-HasBest :
      (field : Text) (largest : Bool) (xs : List (V fl lib)) (i : ℕ) (best r : Option (Best fl lib))
      → HasBest i best
      → extreme_loop fl lib field largest xs i best ≡ ok r
      → HasBest (i + length xs) r
  unfolding extreme_loop
  extreme_loop-HasBest field largest [] i best r h e =
      subst (λ m. HasBest m r) (omega arith) (subst (HasBest i) (ok_injective best r e) h)
  extreme_loop-HasBest field largest (x ∷ xs) i best r h e =
      let (val, read, rest) = bind-eq-ok (extract_numeric_field fl lib x field) _ e in
      subst (λ m. HasBest m r) (omega arith)
        (extreme_loop-HasBest field largest xs (suc i) (improve fl lib largest i val best) r
          (improve-HasBest largest i val best h) rest)

  best_element-IsSafe :
      (arr : List (V fl lib)) (best : Option (Best fl lib))
      → 0 < length arr
      → HasBest (length arr) best
      → IsSafe (best_element fl lib arr best)
  best_element-IsSafe arr none size h = absurd (omega (arith, h, size))
  best_element-IsSafe arr (some b) size h =
      place-IsSafe fl lib arr b.best_index (length arr) b.best_ties (some b.best_value) h

  select_by_field_extreme-IsSafe :
      (arr : List (V fl lib)) (field : Text) (largest : Bool)
      → 0 < length arr
      → IsSafe (select_by_field_extreme fl lib arr field largest)
  unfolding select_by_field_extreme
  select_by_field_extreme-IsSafe arr field largest size =
      bind-IsSafe (extreme_loop fl lib field largest arr 0 none) (best_element fl lib arr)
        (extreme_loop-IsSafe field largest arr 0 none)
        (λ best e. best_element-IsSafe arr best size (
          subst (λ m. HasBest m best) (omega arith)
            (extreme_loop-HasBest field largest arr 0 none best refl e)))

  at_checked_index-IsSafe :
      (arr : List (V fl lib)) (i : Option ℕ) → IsSafe (at_checked_index fl lib arr i)
  at_checked_index-IsSafe arr none = λ k. cc
  at_checked_index-IsSafe arr (some i) = elim (Bool-cases (leb (length arr) i)) [
    | inl beyond ↦ simp beyond (λ k. cc)
    | inr within ↦
        simp within (place-IsSafe fl lib arr i (length arr) 0 none (ground (arith, within)))
  ]

  if-IsSafe :
      (b : Bool) (o o' : Selected fl lib) → IsSafe o → IsSafe o' → IsSafe (if b then o else o')
  if-IsSafe true o o' h h' = h
  if-IsSafe false o o' h h' = h'

  -- `IntN` gives a number below its argument.
  abbrev pub DrawsBelow : Type 0
  DrawsBelow = (n : ℕ) → 0 < n → lib.int_n n < n

  by_strategy-IsSafe :
      (sel : SelectionConfig) (arr : List (V fl lib))
      → DrawsBelow
      → 0 < length arr
      → IsSafe (by_strategy fl lib sel arr)
  unfolding by_strategy
  by_strategy-IsSafe sel arr draws size =
      if-IsSafe _ _ _ (place-IsSafe fl lib arr 0 (length arr) 0 none size) (
        if-IsSafe _ _ _
          (place-IsSafe fl lib arr (length arr - 1) (length arr) 0 none (omega (arith, size)))
          (if-IsSafe _ _ _ (at_checked_index-IsSafe arr sel.index) (
            if-IsSafe _ _ _
              (place-IsSafe fl lib arr (lib.int_n (length arr)) (length arr) 0 none
                (draws (length arr) size))
              (if-IsSafe _ _ _ (select_by_field_extreme-IsSafe arr (compare_field sel) false size) (
                if-IsSafe _ _ _ (select_by_field_extreme-IsSafe arr (compare_field sel) true size)
                  unknown)))))
    where
      unknown :
          IsSafe {A = SelectionResult (V fl lib) fl.Float} (err (unknown_strategy sel.strategy))
      unknown k = cc

  apply_config-IsSafe :
      (arr : List (V fl lib)) (sel : SelectionConfig)
      → DrawsBelow
      → 0 < length arr
      → IsSafe (apply_config fl lib arr sel)
  unfolding apply_config
  apply_config-IsSafe arr sel draws size =
      if-IsSafe _ _ _ (place-IsSafe fl lib arr 0 (length arr) 0 none size) (
        if-IsSafe _ _ _ (select_match-IsSafe arr sel.filter) (
          if-IsSafe _ _ _ (by_strategy-IsSafe sel arr draws size) (
            bind-IsSafe (apply_filter fl lib arr sel.filter) (by_strategy fl lib sel)
              (apply_filter-IsSafe fl lib arr sel.filter)
              (λ ys e.
                let (_, _, _, some_left) = apply_filter-keep fl lib arr sel.filter ys e in
                by_strategy-IsSafe sel ys draws some_left))))

-- No selection indexes an array out of range, whatever its strategy, filter and fields, when a
-- random draw lies below the size that it is given.
pub apply_selection-ne-out_of_range :
    (fl : Floats) (lib : Library fl) (arr : List (V fl lib)) (sel : Option SelectionConfig)
    → DrawsBelow fl lib
    → apply_selection fl lib arr sel ≢ err out_of_range
unfolding apply_selection
apply_selection-ne-out_of_range fl lib [] sel draws = λ k. cc
apply_selection-ne-out_of_range fl lib (x ∷ xs) none draws = λ k. cc
apply_selection-ne-out_of_range fl lib (x ∷ xs) (some sel) draws =
    apply_config-IsSafe fl lib (x ∷ xs) sel draws (omega arith)
