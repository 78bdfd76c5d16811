-- ===== src/Predicate/Tests.antt =====
-- Runs of the model on small predicates (internal/predicate/predicate.go).
use aat.Base.{
  ℕ, ◌+◌, ◌-◌, List, [], ◌∷◌, false, if◌then◌else◌, ◌==◌, ltb, Option, none, some, ok, All, err,
  ◌≡◌, ◌≢◌, refl,
}
use aat.Base.Text.{Text, codes}
use aat.Predicate.Token.{
  ge, land, Token, number, string, ident, operator, lbracket, rbracket, in_kw, eof,
}
use aat.Predicate.Lexer.{tokenize}
use aat.Predicate.Syntax.{
  Floats, Node, num_lit, str_lit, ident_node, array_node, binary, and_op, ge_op, in_op, nil, cons,
}
use aat.Predicate.Parser.{
  out_of_fuel, parse_tokens, parse_expression, array_loop, parse_array, parse_primary, parse_unary,
  parse_in_expr, parse_comparison, and_loop, parse_logical_and, or_loop, parse_logical_or,
}
use aat.Predicate.Grammar.{IsOr}
use aat.Predicate.Sound.{AtEnd, parse_tokens_sound}
use aat.Predicate.Fuel.{parse_tokens-ne-out_of_fuel}
use aat.Predicate.Value.{int, text, Fields, end, field, resolve_field}
use aat.Predicate.Eval.{eval_text, token_fields, fields}
use aat.Predicate.Reads.{eval_text-fields}

-- Whole numbers of one digit in place of float64.
abbrev digit : Text → Option ℕ
digit (c ∷ []) = some (c - b'0')
digit _ = none

abbrev digits : Floats
digits = record {
  Float = ℕ;
  parse_float = digit;
  format_float = λ x. (b'0' + x) ∷ [];
  of_int = λ negative x. if negative then 0 else x;
  feq = λ a b. a == b;
  flt = λ a b. ltb a b;
}

-- `x >= 3 && y in ["q"]`.
abbrev two_tests : List Token
two_tests =
    ident (codes "x")
    ∷ operator ge
    ∷ number (codes "3")
    ∷ operator land
    ∷ ident (codes "y")
    ∷ in_kw
    ∷ lbracket
    ∷ string (codes "q")
    ∷ rbracket
    ∷ eof
    ∷ []

abbrev two_tests_tree : Node ℕ
two_tests_tree =
    binary and_op (binary ge_op (ident_node (codes "x")) (num_lit 3))
      (binary in_op (ident_node (codes "y")) (array_node (cons (str_lit (codes "q")) nil)))

parse_test : parse_tokens digits two_tests ≡ ok two_tests_tree
unfolding parse_tokens parse_expression array_loop parse_array parse_primary parse_unary
    parse_in_expr parse_comparison and_loop parse_logical_and or_loop parse_logical_or
parse_test = refl

parse_tokens_sound_example : (us : List Token) × IsOr digits two_tests two_tests_tree us × AtEnd us
parse_tokens_sound_example = parse_tokens_sound digits two_tests two_tests_tree parse_test

parse_tokens-ne-out_of_fuel_example : parse_tokens digits two_tests ≢ err out_of_fuel
parse_tokens-ne-out_of_fuel_example = parse_tokens-ne-out_of_fuel digits two_tests

abbrev smaller : Fields ℕ
smaller = field (codes "x") (int false 4) (field (codes "y") (text (codes "q")) end)

abbrev larger : Fields ℕ
larger = field (codes "z") (int false 7) smaller

agree_test :
    All
      (λ a. resolve_field a smaller ≡ resolve_field a larger)
      (fields (codes "x >= 3 && y in ['q']"))
unfolding fields tokenize token_fields resolve_field
agree_test = (refl, (refl, tt))

eval_text-fields_example :
    eval_text digits (codes "x >= 3 && y in ['q']") smaller
    ≡ eval_text digits (codes "x >= 3 && y in ['q']") larger
eval_text-fields_example =
    eval_text-fields digits (codes "x >= 3 && y in ['q']") smaller larger agree_test
