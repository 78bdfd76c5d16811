-- ===== src/Engine/Selection/Chosen.antt =====
-- What a selection returns (`applySelection` of engine/selection.go).
use aat.Base.{
  not, ℕ, ◌-◌, List, [], ◌∷◌, Bool, true, false, ◌&&◌, if◌then◌else◌, Option, none, some, length,
  leb, ok, err, bind-eq-ok, ◌≡◌, refl, ap, ◌∙◌, ◌⊎◌, inl, inr, Bool-cases, arith, keep, get_elem?,
}
use aat.Base.Text.{Text, codes}
use aat.Predicate.Syntax.{Floats, Node}
use aat.Engine.Cleanup.Skip.{is_empty}
use aat.Engine.Selection.{
  Library, V, Selected, SelectionConfig, SelectionResult, Best, parse_filter, apply_filter,
  at_index, best_element, extreme_loop, select_by_field_extreme, at_checked_index, by_strategy,
  apply_config, apply_selection, one_of, compare_field, unknown_strategy,
}
use aat.Engine.Selection.Match.{hits, apply_filter-keep, place-eq-ok, select_match-first}

module _ (fl : Floats) (lib : Library fl) where
  -- The elements that the filter keeps, or all without one.
  abbrev pub IsPool : SelectionConfig → List (V fl lib) → List (V fl lib) → Type 0
  IsPool sel arr pool =
      (is_empty sel.filter ≡ true) × (pool ≡ arr)
      ⊎ (pred : Node fl.Float) × (parse_filter fl lib sel.filter ≡ ok pred)
        × (pool ≡ keep (hits fl lib pred) arr)

  abbrev pub is_match : SelectionConfig → Bool
  is_match sel =
      one_of sel.strategy (codes "match") [] && not (is_empty sel.strategy && is_empty sel.filter)

  -- The result's element stands at its index in `arr`, and `size` is the filtered size.
  abbrev From : List (V fl lib) → ℕ → Selected fl lib → Type 0
  From arr size o =
      (r : SelectionResult (V fl lib) fl.Float)
      → o ≡ ok r
      → (get_elem? arr r.index ≡ some r.element) × (r.filtered_size ≡ size)

  at_index-From :
      (arr : List (V fl lib)) (i size ties : ℕ) (value : Option fl.Float)
      → From arr size (at_index fl lib arr i size ties value)
  at_index-From arr i size ties value r h =
      let (element, index, filtered, _, _) =
        place-eq-ok fl lib (get_elem? arr i) i size ties value r h in
      (ap (get_elem? arr) index ∙ element, filtered)

  if-From :
      (arr : List (V fl lib)) (size : ℕ) (b : Bool) (o o' : Selected fl lib)
      → From arr size o
      → From arr size o'
      → From arr size (if b then o else o')
  if-From arr size true o o' h h' = h
  if-From arr size false o o' h h' = h'

  at_checked_index-From :
      (arr : List (V fl lib)) (i : Option ℕ) → From arr (length arr) (at_checked_index fl lib arr i)
  at_checked_index-From arr none = λ r k. absurd (cc)
  at_checked_index-From arr (some i) =
      if-From arr (length arr) (leb (length arr) i) _ _ (λ r k. absurd (cc))
        (at_index-From arr i (length arr) 0 none)

  best_element-From :
      (arr : List (V fl lib)) (best : Option (Best fl lib))
      → From arr (length arr) (best_element fl lib arr best)
  best_element-From arr none = λ r k. absurd (cc)
  best_element-From arr (some b) =
      at_index-From arr b.best_index (length arr) b.best_ties (some b.best_value)

  select_by_field_extreme-From :
      (arr : List (V fl lib)) (field : Text) (largest : Bool)
      → From arr (length arr) (select_by_field_extreme fl lib arr field largest)
  unfolding select_by_field_extreme
  select_by_field_extreme-From arr field largest r h =
      let (best, _, rest) =
        bind-eq-ok (extreme_loop fl lib field largest arr 0 none) (best_element fl lib arr) h in
      best_element-From arr best r rest

  by_strategy-From :
      (sel : SelectionConfig) (arr : List (V fl lib))
      → From arr (length arr) (by_strategy fl lib sel arr)
  unfolding by_strategy
  by_strategy-From sel arr =
      let pick = if-From arr (length arr) in
      pick _ _ _ (at_index-From arr 0 (length arr) 0 none) (
        pick _ _ _ (at_index-From arr (length arr - 1) (length arr) 0 none) (
          pick _ _ _ (at_checked_index-From arr sel.index) (
            pick _ _ _ (at_index-From arr (lib.int_n (length arr)) (length arr) 0 none) (
              pick _ _ _ (select_by_field_extreme-From arr (compare_field sel) false) (
                pick _ _ _ (select_by_field_extreme-From arr (compare_field sel) true)
                  unknown_From)))))
    where
      unknown_From : From arr (length arr) (err (unknown_strategy sel.strategy))
      unknown_From r k = absurd (cc)

  abbrev pub IsChosen :
      SelectionConfig → List (V fl lib) → SelectionResult (V fl lib) fl.Float → Type 0
  IsChosen sel arr r =
      (pool : List (V fl lib)) × IsPool sel arr pool
      × (r.filtered_size ≡ length pool)
      × (get_elem? (if is_match sel then arr else pool) r.index ≡ some r.element)
      × (is_match sel ≡ true → (rest : List (V fl lib)) × (pool ≡ r.element ∷ rest))

  apply_config-IsChosen :
      (arr : List (V fl lib)) (sel : SelectionConfig) (r : SelectionResult (V fl lib) fl.Float)
      → apply_config fl lib arr sel ≡ ok r
      → IsChosen sel arr r
  unfolding apply_config
  apply_config-IsChosen arr sel r h =
      elim (Bool-cases (is_empty sel.strategy && is_empty sel.filter)) [
        | inl default ↦
            let (element, size) = at_index-From arr 0 (length arr) 0 none r (simp default at h) in
            (
              arr,
              inl (ground (arith, default), refl),
              size,
              simp default (ground (arith, element)),
              λ matching. absurd (ground (arith, default, matching)),
            )
        | inr set ↦ elim (Bool-cases (one_of sel.strategy (codes "match") [])) [
          | inl matching ↦
              let (pred, rest, parsed, kept, element, size) =
                select_match-first fl lib arr sel.filter r (simp (set, matching) at h) in
              (
                keep (hits fl lib pred) arr,
                inr (pred, parsed, refl),
                size,
                simp (set, matching) element,
                λ _. (rest, kept),
              )
          | inr other ↦ elim (Bool-cases (is_empty sel.filter)) [
            | inl whole ↦
                let (element, size) =
                  by_strategy-From sel arr r
                    (let h' = simp set at h in let h'' = simp other at h' in simp whole at h'') in
                (
                  arr,
                  inl (whole, refl),
                  size,
                  simp (set, other) element,
                  λ matching. absurd (ground (arith, other, matching)),
                )
            | inr filtering ↦
                let (ys, filtered, chosen) =
                  bind-eq-ok (apply_filter fl lib arr sel.filter) (by_strategy fl lib sel) (
                    let h' = simp set at h in
                    let h'' = simp other at h' in simp filtering at h'') in
                let (pred, parsed, kept, _) = apply_filter-keep fl lib arr sel.filter ys filtered in
                let (element, size) = by_strategy-From sel ys r chosen in
                (
                  ys,
                  inr (pred, parsed, kept),
                  size,
                  simp (set, other) element,
                  λ matching. absurd (ground (arith, other, matching)),
                )
          ]
        ]
      ]

-- A selection picks from the elements that its filter accepts, or from all without a filter, and
-- counts them; the element stands at the given index among them. A match picks the first of them,
-- and gives its index in the whole array.
pub apply_selection-IsChosen :
    (fl : Floats) (lib : Library fl) (arr : List (V fl lib)) (sel : SelectionConfig)
    (r : SelectionResult (V fl lib) fl.Float)
    → apply_selection fl lib arr (some sel) ≡ ok r
    → IsChosen fl lib sel arr r
unfolding apply_selection
apply_selection-IsChosen fl lib [] sel r h = absurd (cc)
apply_selection-IsChosen fl lib (x ∷ xs) sel r h = apply_config-IsChosen fl lib (x ∷ xs) sel r h
