-- ===== src/Engine/SelectionTests.antt =====
-- The theorems on selections at an array of three offers, and tests.
use aat.Base.{
  ℕ, ◌-◌, List, [], ◌∷◌, true, false, none, some, ltb, ◌==◌, if◌then◌else◌, ◌≡◌, ◌≢◌, refl, ok, err,
  get_elem?, arith,
}
use aat.Base.Text.{codes}
use aat.Predicate.Syntax.{Floats}
use aat.Predicate.Value.{Value, number, object, end, field}
use aat.Engine.Selection.{
  Library, SelectionConfig, SelectionResult, out_of_range, apply_selection, select_by_field_extreme,
  extract_numeric_field,
}
use aat.Engine.Selection.Extreme.{IsOrdered, IsFirstBest, select_by_field_extreme-IsFirstBest}
use aat.Engine.Selection.Range.{apply_selection-ne-out_of_range}
use aat.Engine.Selection.Chosen.{IsChosen, apply_selection-IsChosen}

abbrev units : Floats
units = record {
  Float = ℕ;
  parse_float = λ s. none;
  format_float = λ x. [];
  of_int = λ negative x. if negative then 0 else x;
  feq = λ a b. a == b;
  flt = λ a b. ltb a b;
}

abbrev lib : Library units
lib = record {
  round_trip = λ v. none;
  get_path = λ v path. none;
  trim_space = λ s. s;
  is_finite = λ f. true;
  int_n = λ n. n - 1;
}

abbrev offer : ℕ → Value ℕ
offer price = object (field (codes "price") (number price) end)

abbrev offers : List (Value ℕ)
offers = offer 3 ∷ offer 2 ∷ offer 2 ∷ []

abbrev cheapest : SelectionConfig
cheapest = record {
  strategy = codes "min";
  field = [];
  filter = [];
  index = some 0;
  sort_field = codes "price";
  on_tie = [];
}

units-IsOrdered : IsOrdered units lib
units-IsOrdered = record {
  trans = λ a b c fa fb fc h k. ground (arith, h, k);
  cotrans = λ a b c fa fb fc h. ground (arith, h);
}

select_by_field_extreme-IsFirstBest_example :
    (r : SelectionResult (Value ℕ) ℕ) × (best : ℕ) × (select_by_field_extreme units lib offers
        (codes "price")
        false
      ≡ ok r)
    × (get_elem? offers r.index ≡ some r.element)
    × (extract_numeric_field units lib r.element (codes "price") ≡ ok best)
    × IsFirstBest units lib false (3 ∷ 2 ∷ 2 ∷ []) best r.index r.ties
    × (r.filtered_size ≡ 3)
    × (r.sort_value ≡ some best)
unfolding extract_numeric_field
select_by_field_extreme-IsFirstBest_example =
    select_by_field_extreme-IsFirstBest units lib false (codes "price") (offer 3)
      (offer 2 ∷ offer 2 ∷ []) (3 ∷ 2 ∷ 2 ∷ []) units-IsOrdered (refl, (refl, (refl, tt)))
      (refl, (refl, (refl, tt)))

apply_selection-ne-out_of_range_example :
    apply_selection units lib offers (some cheapest) ≢ err out_of_range
apply_selection-ne-out_of_range_example =
    apply_selection-ne-out_of_range units lib offers (some cheapest) (λ n h. omega (arith, h))

abbrev chosen : SelectionResult (Value ℕ) ℕ
chosen = record { element = offer 2; index = 1; filtered_size = 3; ties = 2; sort_value = some 2 }

picks : apply_selection units lib offers (some cheapest) ≡ ok chosen
unfolding apply_selection extract_numeric_field
picks = refl

apply_selection-IsChosen_example : IsChosen units lib cheapest offers chosen
apply_selection-IsChosen_example = apply_selection-IsChosen units lib offers cheapest chosen picks
