-- ===== src/Engine/Selection/Safe.antt =====
-- The parts of a selection that read elements do not index an array (engine/selection.go).
use aat.Base.{
  ℕ, ◌<◌, List, [], ◌∷◌, Option, none, some, length, Outcome, ok, err, ◌>>=◌, ◌≡◌, ◌≢◌, refl, arith,
  get_elem?-lt,
}
use aat.Base.Text.{Text}
use aat.Predicate.Syntax.{Floats, Node}
use aat.Predicate.Value.{object, number, int, text, bool, array, other, get_field}
use aat.Engine.Selection.{
  in_fields, found_field, finite_number, eval_predicate, evaluating, element_to_map, found_map,
  Fields, parse, bad_filter, map_err, Library, V, SelectError, out_of_range, accepts, parse_filter,
  filter_all, some_elements, apply_filter, at_index, extract_field, to_float, extract_numeric_field,
}

-- The result is not the panic of an index out of range.
abbrev pub IsSafe {ℓ} : {A : Type ℓ} → Outcome SelectError A → Type ℓ
IsSafe o = o ≢ err out_of_range

pub bind-IsSafe :
    {A B : Type 0} (m : Outcome SelectError A) (f : A → Outcome SelectError B)
    → IsSafe m
    → ((a : A) → m ≡ ok a → IsSafe (f a))
    → IsSafe (m >>= f)
bind-IsSafe (ok a) f h next = next a refl
bind-IsSafe (err e) f h next = λ k. h (cc)

pub map_err-IsSafe :
    {A E : Type 0} (f : E → SelectError) (m : Outcome E A)
    → ((e : E) → f e ≢ out_of_range)
    → IsSafe (map_err f m)
map_err-IsSafe f (ok a) h k = cc
map_err-IsSafe f (err e) h k = h e (cc)

module _ (fl : Floats) (lib : Library fl) where
  pub place-IsSafe :
      (arr : List (V fl lib)) (i size ties : ℕ) (value : Option fl.Float)
      → i < length arr
      → IsSafe (at_index fl lib arr i size ties value)
  place-IsSafe arr i size ties value h = let (x, e) = get_elem?-lt arr i h in simp e (λ k. cc)

  pub parse_filter-IsSafe : (expr : Text) → IsSafe (parse_filter fl lib expr)
  parse_filter-IsSafe expr = map_err-IsSafe bad_filter (parse fl expr) (λ e k. cc)

  found_map-IsSafe : (o : Option (Fields fl.Float)) → IsSafe (found_map fl lib o)
  found_map-IsSafe none k = cc
  found_map-IsSafe (some m) k = cc

  element_to_map-IsSafe : (x : V fl lib) → IsSafe (element_to_map fl lib x)
  element_to_map-IsSafe (object m) = λ k. cc
  element_to_map-IsSafe (number f) = found_map-IsSafe (lib.round_trip (number f))
  element_to_map-IsSafe (int s n) = found_map-IsSafe (lib.round_trip (int s n))
  element_to_map-IsSafe (text s) = found_map-IsSafe (lib.round_trip (text s))
  element_to_map-IsSafe (bool b) = found_map-IsSafe (lib.round_trip (bool b))
  element_to_map-IsSafe (array vs) = found_map-IsSafe (lib.round_trip (array vs))
  element_to_map-IsSafe other = found_map-IsSafe (lib.round_trip other)

  pub accepts-IsSafe : (pred : Node fl.Float) (x : V fl lib) → IsSafe (accepts fl lib pred x)
  unfolding accepts
  accepts-IsSafe pred x = bind-IsSafe (element_to_map fl lib x) _ (element_to_map-IsSafe x) (λ m _.
      map_err-IsSafe (λ e. bad_filter (evaluating e)) (eval_predicate fl m pred) (λ e k. cc))

  finite_number-IsSafe : (o : Option fl.Float) → IsSafe (finite_number fl lib o)
  finite_number-IsSafe none k = cc
  finite_number-IsSafe (some f) k = ground (arith, k)

  to_float-IsSafe : (x : V fl lib) → IsSafe (to_float fl lib x)
  unfolding to_float
  to_float-IsSafe (object m) = λ k. cc
  to_float-IsSafe (number f) = λ k. cc
  to_float-IsSafe (int s n) = λ k. cc
  to_float-IsSafe (text s) = finite_number-IsSafe (fl.parse_float (lib.trim_space s))
  to_float-IsSafe (bool b) = λ k. cc
  to_float-IsSafe (array vs) = λ k. cc
  to_float-IsSafe other = λ k. cc

  found_field-IsSafe : (o : Option (V fl lib)) → IsSafe (found_field fl lib o)
  found_field-IsSafe none k = cc
  found_field-IsSafe (some m) k = cc

  extract_field-IsSafe : (x : V fl lib) (field : Text) → IsSafe (extract_field fl lib x field)
  unfolding extract_field
  extract_field-IsSafe (object m) field = in_map (get_field field m)
    where
      in_map : (o : Option (V fl lib)) → IsSafe (in_fields fl lib o (object m) field)
      in_map none = found_field-IsSafe (lib.get_path (object m) field)
      in_map (some w) = λ k. cc
  extract_field-IsSafe (number f) field = found_field-IsSafe (lib.get_path (number f) field)
  extract_field-IsSafe (int s n) field = found_field-IsSafe (lib.get_path (int s n) field)
  extract_field-IsSafe (text s) field = found_field-IsSafe (lib.get_path (text s) field)
  extract_field-IsSafe (bool b) field = found_field-IsSafe (lib.get_path (bool b) field)
  extract_field-IsSafe (array vs) field = found_field-IsSafe (lib.get_path (array vs) field)
  extract_field-IsSafe other field = found_field-IsSafe (lib.get_path other field)

  pub extract_numeric_field-IsSafe :
      (x : V fl lib) (field : Text) → IsSafe (extract_numeric_field fl lib x field)
  unfolding extract_numeric_field
  extract_numeric_field-IsSafe x field =
      bind-IsSafe (extract_field fl lib x field) _ (extract_field-IsSafe x field)
        (λ w _. to_float-IsSafe w)

  filter_all-IsSafe :
      (pred : Node fl.Float) (xs result : List (V fl lib))
      → IsSafe (filter_all fl lib pred xs result)
  unfolding filter_all
  filter_all-IsSafe pred [] result = λ k. cc
  filter_all-IsSafe pred (x ∷ xs) result =
      bind-IsSafe (accepts fl lib pred x) _ (accepts-IsSafe pred x)
        (λ hit _. filter_all-IsSafe pred xs _)

  some_elements-IsSafe : (xs : List (V fl lib)) → IsSafe (some_elements fl lib xs)
  some_elements-IsSafe [] k = cc
  some_elements-IsSafe (x ∷ xs) k = cc

  pub apply_filter-IsSafe :
      (arr : List (V fl lib)) (expr : Text) → IsSafe (apply_filter fl lib arr expr)
  unfolding apply_filter
  apply_filter-IsSafe arr expr =
      bind-IsSafe (parse_filter fl lib expr) _ (parse_filter-IsSafe expr) (λ pred _.
        bind-IsSafe (filter_all fl lib pred arr []) (some_elements fl lib)
          (filter_all-IsSafe pred arr []) (λ ys _. some_elements-IsSafe ys))
