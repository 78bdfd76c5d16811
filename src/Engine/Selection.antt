-- ===== src/Engine/Selection.antt =====
-- The selection of an element of an array (engine/selection.go).
pub mod Match
pub mod Extreme
pub mod Safe
pub mod Range
pub mod Chosen
use aat.Base.{
  ℕ, zero, suc, ◌+◌, ◌-◌, List, [], ◌∷◌, ◌++◌, Bool, true, false, not, ◌&&◌, ◌||◌, if◌then◌else◌,
  Option, none, some, or_else, is_some, ltb, leb, length, Outcome, ok, err, ◌>>=◌, get_elem?,
}
use aat.Base.Text.{Text, codes, text_eq}
use aat.Predicate.Syntax.{Floats, Node}
use aat.Predicate.Value.{Value, Fields, number, int, text, bool, array, object, other, get_field}
use aat.Predicate.Eval.{Error, parse, eval_predicate, evaluating, map_err}
use aat.Engine.Cleanup.Skip.{is_empty}

-- `SelectionConfig`; `index` is `none` where it is negative.
pub record SelectionConfig : Type 0 where
  pub strategy : Text
  pub field : Text
  pub filter : Text
  pub index : Option ℕ
  pub sort_field : Text
  pub on_tie : Text

-- `out_of_range` is an index that the array does not have, which in Go is a panic.
pub data SelectError : Type 0 where
  empty_array not_a_map no_match index_out_of_bounds no_field not_a_number out_of_range
        ties_not_allowed :
      SelectError
  bad_filter : Error → SelectError
  unknown_strategy : Text → SelectError

pub record SelectionResult (V F : Type 0) : Type 0 where
  pub element : V
  pub index : ℕ
  pub filtered_size : ℕ
  pub ties : ℕ
  pub sort_value : Option F

-- What is called of encoding/json, gjson, strings, math and math/rand: the round trip of an element
-- to a map, a field by its path, `TrimSpace`, that a number is neither NaN nor infinite, and the
-- next `IntN`.
pub record Library (fl : Floats) : Type 0 where
  pub round_trip : Value fl.Float → Option (Fields fl.Float)
  pub get_path : Value fl.Float → Text → Option (Value fl.Float)
  pub trim_space : Text → Text
  pub is_finite : fl.Float → Bool
  pub int_n : ℕ → ℕ

abbrev pub one_of : Text → Text → Text → Bool
one_of s a b = text_eq s a || text_eq s b

-- `compareField`.
abbrev pub compare_field : SelectionConfig → Text
compare_field sel = if is_empty sel.sort_field then sel.field else sel.sort_field

module _ (fl : Floats) (lib : Library fl) where
  open fl use {Float, parse_float, of_int, feq, flt}

  abbrev pub V : Type 0
  V = Value Float

  abbrev pub Selected : Type 0
  Selected = Outcome SelectError (SelectionResult V Float)

  abbrev pub found_map : Option (Fields Float) → Outcome SelectError (Fields Float)
  found_map none = err not_a_map
  found_map (some m) = ok m

  abbrev pub element_to_map : V → Outcome SelectError (Fields Float)
  element_to_map (object m) = ok m
  element_to_map v = found_map (lib.round_trip v)

  -- An element against a parsed filter.
  unfoldable pub accepts : Node Float → V → Outcome SelectError Bool
  accepts pred elem = do
    m ← element_to_map elem
    map_err (λ e. bad_filter (evaluating e)) (eval_predicate fl m pred)

  abbrev pub parse_filter : Text → Outcome SelectError (Node Float)
  parse_filter expr = map_err bad_filter (parse fl expr)

  -- The loop of `applyFilter`.
  unfoldable pub filter_all : Node Float → List V → List V → Outcome SelectError (List V)
  filter_all pred [] result = ok result
  filter_all pred (x ∷ xs) result = do
    hit ← accepts pred x
    filter_all pred xs (if hit then result ++ x ∷ [] else result)

  abbrev pub some_elements : List V → Outcome SelectError (List V)
  some_elements [] = err no_match
  some_elements (x ∷ xs) = ok (x ∷ xs)

  unfoldable pub apply_filter : List V → Text → Outcome SelectError (List V)
  unfolding filter_all
  apply_filter arr expr = do
    pred ← parse_filter expr
    result ← filter_all pred arr []
    some_elements result

  -- The round of `selectMatch` for the element at `i`: the first match so far and how many match.
  abbrev pub note_match :
      Outcome SelectError Bool → ℕ → Option ℕ → ℕ → Outcome SelectError (Option ℕ × ℕ)
  note_match (ok true) i first matches = ok (some (or_else first i), suc matches)
  note_match (ok false) i first matches = ok (first, matches)
  note_match (err e) i none matches = err e
  note_match (err e) i (some j) matches = ok (some j, matches)

  unfoldable pub match_loop :
      Node Float → List V → ℕ → Option ℕ → ℕ → Outcome SelectError (Option ℕ × ℕ)
  match_loop pred [] i first matches = ok (first, matches)
  match_loop pred (x ∷ xs) i first matches =
      note_match (accepts pred x) i first matches >>= λ s. match_loop pred xs (suc i) s.0 s.1

  abbrev pub place : Option V → ℕ → ℕ → ℕ → Option Float → Selected
  place none i size ties value = err out_of_range
  place (some x) i size ties value =
      ok (record { element = x; index = i; filtered_size = size; ties = ties; sort_value = value })

  -- An element by its index.
  abbrev pub at_index : List V → ℕ → ℕ → ℕ → Option Float → Selected
  at_index arr i size ties value = place (get_elem? arr i) i size ties value

  abbrev pub first_match : List V → Option ℕ × ℕ → Selected
  first_match arr (none, matches) = err no_match
  first_match arr (some i, matches) = at_index arr i matches 0 none

  unfoldable pub select_match : List V → Text → Selected
  unfolding match_loop
  select_match arr expr = do
    pred ← parse_filter expr
    found ← match_loop pred arr 0 none 0
    first_match arr found

  -- `extractField`.
  abbrev pub found_field : Option V → Outcome SelectError V
  found_field none = err no_field
  found_field (some w) = ok w

  abbrev pub field_by_path : V → Text → Outcome SelectError V
  field_by_path v field = found_field (lib.get_path v field)

  abbrev pub in_fields : Option V → V → Text → Outcome SelectError V
  in_fields none v field = field_by_path v field
  in_fields (some w) v field = ok w

  unfoldable pub extract_field : V → Text → Outcome SelectError V
  unfolding get_field
  extract_field (object m) field = in_fields (get_field field m) (object m) field
  extract_field v field = field_by_path v field

  abbrev pub finite_number : Option Float → Outcome SelectError Float
  finite_number none = err not_a_number
  finite_number (some f) = if lib.is_finite f then ok f else err not_a_number

  -- `toFloat64`.
  unfoldable pub to_float : V → Outcome SelectError Float
  to_float (number f) = ok f
  to_float (int s n) = ok (of_int s n)
  to_float (text s) = finite_number (parse_float (lib.trim_space s))
  to_float v = err not_a_number

  unfoldable pub extract_numeric_field : V → Text → Outcome SelectError Float
  unfolding extract_field to_float
  extract_numeric_field v field = do w ← extract_field v field; to_float w

  -- The best element so far: its index, its value, and how many share the value.
  pub record Best : Type 0 where
    pub best_index : ℕ
    pub best_value : Float
    pub best_ties : ℕ

  abbrev pub better : Bool → Float → Float → Bool
  better largest val best = if largest then flt best val else flt val best

  abbrev pub improve : Bool → ℕ → Float → Option Best → Option Best
  improve largest i val none = some (record { best_index = i; best_value = val; best_ties = 1 })
  improve largest i val (some b) =
      if better largest val b.best_value
      then some (record { best_index = i; best_value = val; best_ties = 1 })
      else if feq val b.best_value
      then some (record b { best_ties = suc b.best_ties })
      else some b

  unfoldable pub extreme_loop :
      Text → Bool → List V → ℕ → Option Best → Outcome SelectError (Option Best)
  extreme_loop field largest [] i best = ok best
  extreme_loop field largest (x ∷ xs) i best = do
    val ← extract_numeric_field x field
    extreme_loop field largest xs (suc i) (improve largest i val best)

  abbrev pub best_element : List V → Option Best → Selected
  best_element arr none = err out_of_range
  best_element arr (some b) = at_index arr b.best_index (length arr) b.best_ties (some b.best_value)

  unfoldable pub select_by_field_extreme : List V → Text → Bool → Selected
  unfolding extreme_loop
  select_by_field_extreme arr field largest = do
    best ← extreme_loop field largest arr 0 none
    best_element arr best

  abbrev pub at_checked_index : List V → Option ℕ → Selected
  at_checked_index arr none = err index_out_of_bounds
  at_checked_index arr (some i) =
      if leb (length arr) i then err index_out_of_bounds else at_index arr i (length arr) 0 none

  -- The strategies that select from the filtered elements.
  unfoldable pub by_strategy : SelectionConfig → List V → Selected
  unfolding select_by_field_extreme
  by_strategy sel arr =
      if text_eq sel.strategy (codes "first")
      then at_index arr 0 (length arr) 0 none
      else if text_eq sel.strategy (codes "last")
      then at_index arr (length arr - 1) (length arr) 0 none
      else if text_eq sel.strategy (codes "index")
      then at_checked_index arr sel.index
      else if text_eq sel.strategy (codes "random")
      then at_index arr (lib.int_n (length arr)) (length arr) 0 none
      else if text_eq sel.strategy (codes "min")
      then select_by_field_extreme arr (compare_field sel) false
      else if text_eq sel.strategy (codes "max")
      then select_by_field_extreme arr (compare_field sel) true
      else err (unknown_strategy sel.strategy)

  unfoldable pub apply_config : List V → SelectionConfig → Selected
  unfolding select_match apply_filter by_strategy
  apply_config arr sel =
      if is_empty sel.strategy && is_empty sel.filter
      then at_index arr 0 (length arr) 0 none
      else if one_of sel.strategy (codes "match") []
      then select_match arr sel.filter
      else if is_empty sel.filter
      then by_strategy sel arr
      else apply_filter arr sel.filter >>= by_strategy sel

  unfoldable pub apply_selection : List V → Option SelectionConfig → Selected
  unfolding apply_config
  apply_selection [] sel = err empty_array
  apply_selection (x ∷ xs) none = at_index (x ∷ xs) 0 (length (x ∷ xs)) 0 none
  apply_selection (x ∷ xs) (some sel) = apply_config (x ∷ xs) sel

  -- `tieError`.
  abbrev pub tie_error : SelectionResult V Float → Text → Option SelectError
  tie_error r on_tie =
      if not (text_eq on_tie (codes "fail")) || ltb r.ties 2 then none else some ties_not_allowed
