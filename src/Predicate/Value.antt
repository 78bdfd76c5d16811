-- ===== src/Predicate/Value.antt =====
-- The values that predicates compare (Go's `any`), `resolveField`, and exact decimal numbers.
use Prim.Native.Nat.{compare, Ordering}
use aat.Base.{
  ℕ, ◌+◌, ◌*◌, ◌-◌, ◌^◌, List, [], ◌∷◌, ◌++◌, Bool, true, false, ◌&&◌, if◌then◌else◌, ◌==◌, all,
  length, Option, none, some, Outcome, ok, err,
}
use aat.Base.Text.{Text, text_eq}
use aat.Predicate.Lexer.{is_digit}

-- The dynamic types of a field. `int` stands for int, int32 and int64, with its sign; `other` for
-- every type that no operator reads (nil, json.Number, structs).
module _ (F : Type 0) where
  mutual
    pub data Value : Type 0 where
      number : F → Value
      int : Bool → ℕ → Value
      text : Text → Value
      bool : Bool → Value
      array : Values → Value
      object : Fields → Value
      other : Value

    pub data Values : Type 0 where
      nil : Values
      cons : Value → Values → Values

    pub data Fields : Type 0 where
      end : Fields
      field : Text → Value → Fields → Fields

pub data EvalError : Type 0 where
  unknown_field : Text → EvalError
  not_traversable not_bool_operand not_array cannot_compare string_equals_number not_decimal
        unknown_operator type_mismatch unsupported_type result_not_bool :
      EvalError

-- `strings.Split(name, ".")`.
unfoldable pub split_dots : Text → Text → List Text
split_dots cur [] = cur ∷ []
split_dots cur (c ∷ s) =
    let here = cur ∷ split_dots [] s in
    let later = split_dots (cur ++ c ∷ []) s in if c == b'.' then here else later

module _ {F : Type 0} where
  unfoldable pub get_field : Text → Fields F → Option (Value F)
  get_field k end = none
  get_field k (field j v m) = if text_eq j k then some v else get_field k m

  -- The loop of `resolveField` over the parts of the name.
  unfoldable pub resolve_parts : Text → List Text → Value F → Outcome EvalError (Value F)
  unfolding get_field
  resolve_parts name [] current = ok current
  resolve_parts name (part ∷ parts) (object m) = elim (get_field part m) [
    | none ↦ err (unknown_field name)
    | some v ↦ resolve_parts name parts v
  ]
  resolve_parts name (part ∷ parts) current = err not_traversable

  unfoldable pub resolve_field : Text → Fields F → Outcome EvalError (Value F)
  unfolding resolve_parts split_dots
  resolve_field name ctx = resolve_parts name (split_dots [] name) (object ctx)

-- `big.Rat` of a decimal text: its sign, and its digits over a power of ten.
pub record Decimal : Type 0 where
  pub negative : Bool
  pub digits : ℕ
  pub scale : ℕ

abbrev pub digits_value : ℕ → Text → ℕ
digits_value acc [] = acc
digits_value acc (c ∷ s) = digits_value (acc * 10 + (c - b'0')) s

abbrev pub some_digits : Text → Bool
some_digits [] = false
some_digits (c ∷ s) = all is_digit (c ∷ s)

-- What stands before and behind the first dot; no fraction where there is no dot.
unfoldable pub split_point : Text → Text × Option Text
split_point [] = ([], none)
split_point (c ∷ s) = let (w, f) = split_point s in if c == b'.' then ([], some s) else (c ∷ w, f)

abbrev pub strip_minus : Text → Bool × Text
strip_minus [] = (false, [])
strip_minus (c ∷ s) = if c == b'-' then (true, s) else (false, c ∷ s)

abbrev pub unsigned_decimal : Bool → Text × Option Text → Option Decimal
unsigned_decimal sign (w, none) =
    if some_digits w
    then some (record { negative = sign; digits = digits_value 0 w; scale = 0 })
    else none
unsigned_decimal sign (w, some f) =
    if some_digits w && some_digits f
    then some (record { negative = sign; digits = digits_value 0 (w ++ f); scale = length f })
    else none

-- `decimalRe.MatchString` and `new(big.Rat).SetString`: `-?[0-9]+(\.[0-9]+)?`.
unfoldable pub parse_decimal : Text → Option Decimal
unfolding split_point
parse_decimal s = let (sign, rest) = strip_minus s in unsigned_decimal sign (split_point rest)

abbrev pub scaled : Decimal → Decimal → ℕ
scaled x y = x.digits * 10 ^ y.scale

abbrev pub positive_part : Decimal → Decimal → ℕ
positive_part x y = if x.negative then 0 else scaled x y

abbrev pub negative_part : Decimal → Decimal → ℕ
negative_part x y = if x.negative then scaled x y else 0

-- `x.Cmp(y)`, both over one denominator, and with the negative parts on the other side.
unfoldable pub decimal_cmp : Decimal → Decimal → Ordering
decimal_cmp x y =
    compare (positive_part x y + negative_part y x) (positive_part y x + negative_part x y)

-- `decimalPair`.
unfoldable pub decimal_pair : Text → Text → Option (Decimal × Decimal)
unfolding parse_decimal
decimal_pair a b = elim (parse_decimal a) [
  | none ↦ none
  | some x ↦ elim (parse_decimal b) [ none ↦ none | some y ↦ some (x, y) ]
]
