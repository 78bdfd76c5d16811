-- ===== src/Engine/Selection/Match.antt =====
-- What the filter of a selection keeps, and what a match selects (engine/selection.go).
use aat.Base.{
  ℕ, suc, ◌+◌, List, [], ◌∷◌, ◌++◌, Bool, false, Option, none, some, length, Outcome, ok, err,
  bind-eq-ok, Outcome-cases, ok_injective, some_injective, ◌<◌, ◌≡◌, refl, sym, ap, ◌∙◌, subst, ◌⊎◌,
  inl, inr, Bool-cases, arith, keep, get_elem?, append_assoc, append-nil,
}
use aat.Base.Text.{Text}
use aat.Predicate.Syntax.{Floats, Node}
use aat.Engine.Selection.{
  Library, V, SelectError, SelectionResult, accepts, parse_filter, filter_all, some_elements,
  apply_filter, match_loop, place, first_match, select_match,
}

module _ (fl : Floats) (lib : Library fl) where
  abbrev pub said_yes : Outcome SelectError Bool → Bool
  said_yes (ok b) = b
  said_yes (err e) = false

  -- The predicate can be evaluated on the element, and is true.
  abbrev pub hits : Node fl.Float → V fl lib → Bool
  hits pred x = said_yes (accepts fl lib pred x)

  filter_all-keep :
      (pred : Node fl.Float) (xs result ys : List (V fl lib))
      → filter_all fl lib pred xs result ≡ ok ys
      → ys ≡ result ++ keep (hits pred) xs
  unfolding filter_all
  filter_all-keep pred [] result ys h = sym (ok_injective result ys h) ∙ sym (append-nil result)
  filter_all-keep pred (x ∷ xs) result ys h =
      let (hit, e, rest) = bind-eq-ok (accepts fl lib pred x) _ h in
      let said : hits pred x ≡ hit = ap said_yes e in
      elim (Bool-cases hit) [
        | inl holds ↦
            simp (said, holds)
              (filter_all-keep pred xs (result ++ x ∷ []) ys (simp holds at rest)
                ∙ append_assoc result (x ∷ []) (keep (hits pred) xs))
        | inr fails ↦ simp (said, fails) (filter_all-keep pred xs result ys (simp fails at rest))
      ]

  pub apply_filter-keep :
      (arr : List (V fl lib)) (expr : Text) (ys : List (V fl lib))
      → apply_filter fl lib arr expr ≡ ok ys
      → (pred : Node fl.Float) × (parse_filter fl lib expr ≡ ok pred)
        × (ys ≡ keep (hits pred) arr)
        × (0 < length ys)
  unfolding apply_filter
  apply_filter-keep arr expr ys h =
      let (pred, parsed, rest) = bind-eq-ok (parse_filter fl lib expr) _ h in
      let (found, filtered, last) =
        bind-eq-ok (filter_all fl lib pred arr []) (some_elements fl lib) rest in
      let (same, size) = filled found ys last in
      (pred, parsed, sym same ∙ filter_all-keep pred arr [] found filtered, size)
    where
      filled :
          (found ys : List (V fl lib))
          → some_elements fl lib found ≡ ok ys
          → (found ≡ ys) × (0 < length ys)
      filled [] ys h = absurd (cc)
      filled (x ∷ xs) ys h =
          let same = ok_injective (x ∷ xs) ys h in
          (same, subst (λ l. 0 < length l) same (omega arith))

  abbrev kept_size : Node fl.Float → List (V fl lib) → ℕ
  kept_size pred xs = length (keep (hits pred) xs)

  match_loop-some :
      (pred : Node fl.Float) (xs : List (V fl lib)) (i j n : ℕ) (r : Option ℕ × ℕ)
      → match_loop fl lib pred xs i (some j) n ≡ ok r
      → (r.0 ≡ some j) × (r.1 ≡ n + kept_size pred xs)
  unfolding match_loop
  match_loop-some pred [] i j n r h = (
    ap (λ p. p.0) (sym (ok_injective (some j, n) r h)),
    omega (arith, ap (λ p. p.1) (ok_injective (some j, n) r h)),
  )
  match_loop-some pred (x ∷ xs) i j n r h = elim (Outcome-cases (accepts fl lib pred x)) [
    | inl (hit, e) ↦ elim (Bool-cases hit) [
      | inl holds ↦
          let (first, size) = match_loop-some pred xs (suc i) j (suc n) r (simp (e, holds) at h) in
          (first, simp (e, holds) (omega (arith, size)))
      | inr fails ↦
          let (first, size) = match_loop-some pred xs (suc i) j n r (simp (e, fails) at h) in
          (first, simp (e, fails) size)
    ]
    | inr (error, e) ↦
        let (first, size) = match_loop-some pred xs (suc i) j n r (simp e at h) in
        (first, simp e size)
  ]

  -- The first match of `xs`, where `i` elements stand before them.
  abbrev FirstMatch : Node fl.Float → List (V fl lib) → ℕ → ℕ → Option ℕ × ℕ → Type 0
  FirstMatch pred xs i n r =
      (k : ℕ) × (x : V fl lib) × (rest : List (V fl lib)) × (r.0 ≡ some (i + k))
      × (get_elem? xs k ≡ some x)
      × (keep (hits pred) xs ≡ x ∷ rest)
      × (r.1 ≡ n + kept_size pred xs)

  match_loop-none :
      (pred : Node fl.Float) (xs : List (V fl lib)) (i n : ℕ) (r : Option ℕ × ℕ)
      → match_loop fl lib pred xs i none n ≡ ok r
      → (r.0 ≡ none) ⊎ FirstMatch pred xs i n r
  unfolding match_loop
  match_loop-none pred [] i n r h = inl (ap (λ p. p.0) (sym (ok_injective (none, n) r h)))
  match_loop-none pred (x ∷ xs) i n r h = elim (Outcome-cases (accepts fl lib pred x)) [
    | inl (hit, e) ↦ elim (Bool-cases hit) [
      | inl holds ↦
          let (first, size) = match_loop-some pred xs (suc i) i (suc n) r (simp (e, holds) at h) in
          inr (
            0,
            x,
            keep (hits pred) xs,
            first ∙ ap some (omega arith),
            refl,
            simp (e, holds),
            simp (e, holds) (omega (arith, size)),
          )
      | inr fails ↦ elim (match_loop-none pred xs (suc i) n r (simp (e, fails) at h)) [
        | inl nothing ↦ inl nothing
        | inr (k, y, rest, at_k, found, kept, size) ↦ inr (
          suc k,
          y,
          rest,
          at_k ∙ ap some (omega arith),
          found,
          simp (e, fails) kept,
          simp (e, fails) size,
        )
      ]
    ]
    | inr (error, e) ↦ absurd (cc (simp e at h))
  ]

  pub place-eq-ok :
      (o : Option (V fl lib)) (i size ties : ℕ) (value : Option fl.Float)
      (r : SelectionResult (V fl lib) fl.Float)
      → place fl lib o i size ties value ≡ ok r
      → (o ≡ some r.element)
        × (r.index ≡ i)
        × (r.filtered_size ≡ size)
        × (r.ties ≡ ties)
        × (r.sort_value ≡ value)
  place-eq-ok none i size ties value r h = absurd (cc)
  place-eq-ok (some x) i size ties value r h =
      let same =
        ok_injective
          (record { element = x; index = i; filtered_size = size; ties = ties; sort_value = value })
          r h in
      (
        ap (λ s. some s.element) same,
        ap (λ s. s.index) (sym same),
        ap (λ s. s.filtered_size) (sym same),
        ap (λ s. s.ties) (sym same),
        ap (λ s. s.sort_value) (sym same),
      )

  pub select_match-first :
      (arr : List (V fl lib)) (expr : Text) (r : SelectionResult (V fl lib) fl.Float)
      → select_match fl lib arr expr ≡ ok r
      → (pred : Node fl.Float) × (rest : List (V fl lib)) × (parse_filter fl lib expr ≡ ok pred)
        × (keep (hits pred) arr ≡ r.element ∷ rest)
        × (get_elem? arr r.index ≡ some r.element)
        × (r.filtered_size ≡ kept_size pred arr)
  unfolding select_match
  select_match-first arr expr r h =
      let (pred, parsed, rest) = bind-eq-ok (parse_filter fl lib expr) _ h in
      let (found, looped, last) =
        bind-eq-ok (match_loop fl lib pred arr 0 none 0) (first_match fl lib arr) rest in
      let (i, at_i, placed) = by_index found last in
      let (element, index, size, _, _) = place-eq-ok (get_elem? arr i) i found.1 0 none r placed in
      elim (match_loop-none pred arr 0 0 found looped) [
        | inl nothing ↦ absurd (cc)
        | inr (k, x, kept_rest, at_k, present, kept, count) ↦
            let same : i ≡ k = omega (arith, some_injective i (0 + k) (sym at_i ∙ at_k)) in
            let chosen : x ≡ r.element =
              some_injective x r.element (sym present ∙ ap (get_elem? arr) (sym same) ∙ element) in
            (
              pred,
              kept_rest,
              parsed,
              kept ∙ ap (λ y. y ∷ kept_rest) chosen,
              ap (get_elem? arr) index ∙ element,
              size ∙ count ∙ omega arith,
            )
      ]
    where
      by_index :
          (found : Option ℕ × ℕ)
          → first_match fl lib arr found ≡ ok r
          → (i : ℕ) × (found.0 ≡ some i) × (place fl lib (get_elem? arr i) i found.1 0 none ≡ ok r)
      by_index (none, n) h = absurd (cc)
      by_index (some i, n) h = (i, refl, h)
