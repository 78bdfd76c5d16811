-- ===== src/Predicate/Eval.antt =====
-- The evaluator of internal/predicate/predicate.go, and the functions of its interface.
use Prim.Native.Nat.{Ordering}
use aat.Base.{
  List, [], ◌∷◌, Bool, true, false, ◌||◌, not, if◌then◌else◌, none, some, Outcome, ok, err, ◌>>=◌,
}
use aat.Base.Text.{Text, text_eq, text_compare}
use aat.Predicate.Token.{Token}
use aat.Predicate.Lexer.{LexError, tokenize}
use aat.Predicate.Syntax.{
  Floats, BinOp, or_op, and_op, in_op, eq_op, ne_op, lt_op, gt_op, le_op, ge_op, Node, num_lit,
  str_lit, bool_lit, ident_node, array_node, not_node, binary, Nodes,
}
use aat.Predicate.Parser.{ParseError, parse_tokens}
use aat.Predicate.Value.{
  Value, number, int, text, bool, array, Values, Fields, EvalError, not_bool_operand, not_array,
  cannot_compare, string_equals_number, not_decimal, unknown_operator, type_mismatch,
  unsupported_type, result_not_bool, resolve_field, decimal_cmp, decimal_pair,
}

abbrev pub is_lt : Ordering → Bool
is_lt Ordering.lt = true
is_lt _ = false

abbrev pub is_gt : Ordering → Bool
is_gt Ordering.gt = true
is_gt _ = false

-- The ordering operators on the result of a three-way comparison.
unfoldable pub order_test : BinOp → Ordering → Outcome EvalError Bool
order_test lt_op c = ok (is_lt c)
order_test gt_op c = ok (is_gt c)
order_test le_op c = ok (not (is_gt c))
order_test ge_op c = ok (not (is_lt c))
order_test _ c = err unknown_operator

-- `compareString`'s ordering: as numbers when both are decimals, and as text otherwise.
unfoldable pub order_texts : Text → Text → Ordering
unfolding decimal_pair
order_texts a b = elim (decimal_pair a b) [
  | none ↦ text_compare a b
  | some (x, y) ↦ decimal_cmp x y
]

unfoldable pub compare_string : BinOp → Text → Text → Outcome EvalError Bool
unfolding order_test order_texts
compare_string eq_op a b = ok (text_eq a b)
compare_string ne_op a b = ok (not (text_eq a b))
compare_string o a b = order_test o (order_texts a b)

abbrev pub compare_bool : BinOp → Bool → Bool → Outcome EvalError Bool
compare_bool eq_op a b = ok (if a then b else not b)
compare_bool ne_op a b = ok (if a then not b else b)
compare_bool _ a b = err unknown_operator

-- The part of `compareMixed` behind its type tests; `a` and `b` are the two texts in order.
unfoldable pub compare_mixed : BinOp → Text → Text → Outcome EvalError Bool
unfolding order_test decimal_pair
compare_mixed eq_op a b = err string_equals_number
compare_mixed ne_op a b = err string_equals_number
compare_mixed o a b = elim (decimal_pair a b) [
  | none ↦ err not_decimal
  | some (x, y) ↦ order_test o (decimal_cmp x y)
]

module _ (fl : Floats) where
  open fl use {Float, format_float, of_int, feq, flt}

  abbrev pub V : Type 0
  V = Value Float

  abbrev pub coerce_numeric : V → V
  coerce_numeric (int s n) = number (of_int s n)
  coerce_numeric v = v

  abbrev pub compare_float : BinOp → Float → Float → Outcome EvalError Bool
  compare_float eq_op a b = ok (feq a b)
  compare_float ne_op a b = ok (not (feq a b))
  compare_float lt_op a b = ok (flt a b)
  compare_float gt_op a b = ok (flt b a)
  compare_float le_op a b = ok (flt a b || feq a b)
  compare_float ge_op a b = ok (flt b a || feq a b)
  compare_float _ a b = err unknown_operator

  -- `compareEqual`, of two values whose integers are already floats.
  abbrev pub coerced_equal : V → V → Outcome EvalError Bool
  coerced_equal (number a) (number b) = ok (feq a b)
  coerced_equal (number a) _ = err type_mismatch
  coerced_equal (text a) (text b) = ok (text_eq a b)
  coerced_equal (text a) _ = err type_mismatch
  coerced_equal (bool a) (bool b) = ok (if a then b else not b)
  coerced_equal (bool a) _ = err type_mismatch
  coerced_equal _ _ = err unsupported_type

  unfoldable pub compare_equal : V → V → Outcome EvalError Bool
  compare_equal a b = coerced_equal (coerce_numeric a) (coerce_numeric b)

  abbrev pub ok_true : Outcome EvalError Bool → Bool
  ok_true (ok b) = b
  ok_true (err e) = false

  -- The loop of the `in` operator: an element that does not compare is passed over.
  unfoldable pub contains_value : V → Values Float → Bool
  unfolding compare_equal
  contains_value v Values.nil = false
  contains_value v (Values.cons w ws) = ok_true (compare_equal v w) || contains_value v ws

  -- The comparison operators, of two values whose integers are already floats.
  unfoldable pub compare_values : BinOp → V → V → Outcome EvalError Bool
  unfolding compare_string compare_mixed
  compare_values o (text a) (number y) = compare_mixed o a (format_float y)
  compare_values o (number x) (text b) = compare_mixed o (format_float x) b
  compare_values o (number x) (number y) = compare_float o x y
  compare_values o (text a) (text b) = compare_string o a b
  compare_values o (bool a) (bool b) = compare_bool o a b
  compare_values o _ _ = err cannot_compare

  abbrev pub as_bool : Outcome EvalError Bool → Outcome EvalError V
  as_bool (ok b) = ok (bool b)
  as_bool (err e) = err e

  -- `b, ok := operand.(bool)`.
  abbrev pub bool_operand : V → Outcome EvalError Bool
  bool_operand (bool b) = ok b
  bool_operand _ = err not_bool_operand

  abbrev pub in_values : V → V → Outcome EvalError V
  unfolding contains_value
  in_values l (array vs) = ok (bool (contains_value l vs))
  in_values l _ = err not_array

  -- `evalBinary`, given what its operands evaluate to. The right one is read only where the source
  -- evaluates it, so an error in it does not count behind a short circuit.
  unfoldable pub eval_binary :
      BinOp → Outcome EvalError V → Outcome EvalError V → Outcome EvalError V
  unfolding compare_values
  eval_binary and_op left right = do
    l ← left
    lb ← bool_operand l
    if lb then (right >>= λ r. as_bool (bool_operand r)) else ok (bool false)
  eval_binary or_op left right = do
    l ← left
    lb ← bool_operand l
    if lb then ok (bool true) else (right >>= λ r. as_bool (bool_operand r))
  eval_binary in_op left right = do l ← left; r ← right; in_values l r
  eval_binary o left right = do
    l ← left
    r ← right
    as_bool (compare_values o (coerce_numeric l) (coerce_numeric r))

  abbrev pub eval_not : Outcome EvalError V → Outcome EvalError V
  eval_not operand = do v ← operand; b ← bool_operand v; ok (bool (not b))

  abbrev pub cons_value :
      Outcome EvalError V → Outcome EvalError (Values Float) → Outcome EvalError (Values Float)
  cons_value v vs = v >>= λ x. vs >>= λ xs. ok (Values.cons x xs)

  abbrev pub bool_result : V → Outcome EvalError Bool
  bool_result (bool b) = ok b
  bool_result _ = err result_not_bool

  module _ (ctx : Fields Float) where
    unfoldable mutual
      unfolding eval_binary resolve_field

      pub eval : Node Float → Outcome EvalError V
      eval (num_lit x) = ok (number x)
      eval (str_lit s) = ok (text s)
      eval (bool_lit b) = ok (bool b)
      eval (ident_node name) = resolve_field name ctx
      eval (array_node ms) = eval_list ms >>= λ vs. ok (array vs)
      eval (not_node n) = eval_not (eval n)
      eval (binary o l r) = eval_binary o (eval l) (eval r)

      pub eval_list : Nodes Float → Outcome EvalError (Values Float)
      eval_list Nodes.nil = ok Values.nil
      eval_list (Nodes.cons n ms) = cons_value (eval n) (eval_list ms)

    -- `Predicate.Eval`.
    unfoldable pub eval_predicate : Node Float → Outcome EvalError Bool
    eval_predicate n = eval n >>= bool_result

pub data Error : Type 0 where
  lexing : LexError → Error
  parsing : ParseError → Error
  evaluating : EvalError → Error

abbrev pub map_err {ℓ κ μ} :
    {A : Type ℓ} {E : Type κ} {E' : Type μ} → (E → E') → Outcome E A → Outcome E' A
map_err f (ok a) = ok a
map_err f (err e) = err (f e)

module _ (fl : Floats) where
  unfoldable pub parse : Text → Outcome Error (Node fl.Float)
  parse expr = do tokens ← map_err lexing (tokenize expr); map_err parsing (parse_tokens fl tokens)

  unfoldable pub eval_text : Text → Fields fl.Float → Outcome Error Bool
  eval_text expr ctx = do n ← parse expr; map_err evaluating (eval_predicate fl ctx n)

-- The loop of `Fields` over the tokens.
abbrev pub mem_text : Text → List Text → Bool
mem_text a [] = false
mem_text a (x ∷ xs) = text_eq x a || mem_text a xs

unfoldable pub token_fields : List Text → List Token → List Text
token_fields seen [] = []
token_fields seen (Token.ident s ∷ ts) =
    let again = token_fields seen ts in
    let new = s ∷ token_fields (s ∷ seen) ts in if mem_text s seen then again else new
token_fields seen (_ ∷ ts) = token_fields seen ts

abbrev pub listed : Outcome LexError (List Token) → List Text
listed (err e) = []
listed (ok ts) = token_fields [] ts

unfoldable pub fields : Text → List Text
fields expr = listed (tokenize expr)
