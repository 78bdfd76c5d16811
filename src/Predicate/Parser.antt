-- ===== src/Predicate/Parser.antt =====
-- The recursive-descent parser of internal/predicate/predicate.go. The parser's position is the
-- list of tokens that are left; reading past the end gives `eof`, as `peek` does. Each level of the
-- grammar takes the parser of a whole expression as an argument, `self`; `parse_expression` ties
-- the knot on fuel, which bounds the depth of brackets. A loop's fuel is the tokens left.
use aat.Base.{ℕ, zero, suc, List, [], ◌∷◌, length, Option, none, some, Outcome, ok, err, ◌>>=◌}
use aat.Predicate.Token.{
  Op, eq, ne, le, ge, land, lor, lt, gt, bang, Token, number, string, bool, ident, operator, lparen,
  rparen, lbracket, rbracket, comma, in_kw, eof,
}
use aat.Predicate.Syntax.{
  Floats, BinOp, or_op, and_op, in_op, eq_op, ne_op, lt_op, gt_op, le_op, ge_op, Node, num_lit,
  str_lit, bool_lit, ident_node, array_node, not_node, binary, Nodes, nil, cons, snoc,
}

pub data ParseError : Type 0 where
  missing_paren missing_bracket invalid_number unexpected_token trailing out_of_fuel : ParseError

-- The comparison operators, as `parseComparison` tests for them.
abbrev pub comparison_op : Op → Option BinOp
comparison_op eq = some eq_op
comparison_op ne = some ne_op
comparison_op lt = some lt_op
comparison_op gt = some gt_op
comparison_op le = some le_op
comparison_op ge = some ge_op
comparison_op _ = none

module _ (fl : Floats) where
  open fl use {Float, parse_float}

  abbrev pub Parsed : Type 0
  Parsed = Outcome ParseError (Node Float × List Token)

  abbrev pub ParsedList : Type 0
  ParsedList = Outcome ParseError (Nodes Float × List Token)

  abbrev pub Parse : Type 0
  Parse = List Token → Parsed

  -- `expect(tokenRParen)` behind an expression.
  abbrev pub close_paren : Node Float → Parse
  close_paren n (rparen ∷ ts) = ok (n, ts)
  close_paren n _ = err missing_paren

  abbrev pub close_bracket : Nodes Float → Parse
  close_bracket ms (rbracket ∷ ts) = ok (array_node ms, ts)
  close_bracket ms _ = err missing_bracket

  module _ (self : Parse) where
    -- The loop `for p.peek().kind == tokenComma` of `parseArrayLiteral`.
    unfoldable pub array_loop : ℕ → Nodes Float → List Token → ParsedList
    array_loop zero ms ts = err out_of_fuel
    array_loop (suc n) ms (comma ∷ ts) = do (e, r) ← self ts; array_loop n (snoc ms e) r
    array_loop (suc n) ms ts = ok (ms, ts)

    -- `parseArrayLiteral` behind its opening bracket.
    unfoldable pub parse_array : Parse
    unfolding array_loop
    parse_array (rbracket ∷ ts) = ok (array_node nil, ts)
    parse_array ts = do
      (e, r) ← self ts
      (ms, r') ← array_loop (suc (length r)) (cons e nil) r
      close_bracket ms r'

    unfoldable pub parse_primary : Parse
    unfolding parse_array
    parse_primary (lparen ∷ ts) = do (n, r) ← self ts; close_paren n r
    parse_primary (lbracket ∷ ts) = parse_array ts
    parse_primary (number s ∷ ts) = elim (parse_float s) [
      | some x ↦ ok (num_lit x, ts)
      | none ↦ err invalid_number
    ]
    parse_primary (string s ∷ ts) = ok (str_lit s, ts)
    parse_primary (bool b ∷ ts) = ok (bool_lit b, ts)
    parse_primary (ident s ∷ ts) = ok (ident_node s, ts)
    parse_primary _ = err unexpected_token

    unfoldable pub parse_unary : Parse
    unfolding parse_primary
    parse_unary (operator bang ∷ ts) = do (n, r) ← parse_unary ts; ok (not_node n, r)
    parse_unary ts = parse_primary ts

    abbrev pub in_tail : Node Float → Parse
    in_tail left (in_kw ∷ ts) = do (right, r) ← parse_primary ts; ok (binary in_op left right, r)
    in_tail left ts = ok (left, ts)

    unfoldable pub parse_in_expr : Parse
    unfolding parse_unary
    parse_in_expr ts = do (left, r) ← parse_unary ts; in_tail left r

    abbrev pub comparison_tail : Node Float → Parse
    comparison_tail left (operator o ∷ ts) = elim (comparison_op o) [
      | none ↦ ok (left, operator o ∷ ts)
      | some b ↦ parse_in_expr ts >>= λ p. ok (binary b left p.0, p.1)
    ]
    comparison_tail left ts = ok (left, ts)

    unfoldable pub parse_comparison : Parse
    unfolding parse_in_expr
    parse_comparison ts = do (left, r) ← parse_in_expr ts; comparison_tail left r

    -- The loop of `parseLogicalAnd`.
    unfoldable pub and_loop : ℕ → Node Float → Parse
    unfolding parse_comparison
    and_loop zero left ts = err out_of_fuel
    and_loop (suc n) left (operator land ∷ ts) = do
      (right, r) ← parse_comparison ts
      and_loop n (binary and_op left right) r
    and_loop (suc n) left ts = ok (left, ts)

    unfoldable pub parse_logical_and : Parse
    unfolding and_loop
    parse_logical_and ts = do (left, r) ← parse_comparison ts; and_loop (suc (length r)) left r

    -- The loop of `parseLogicalOr`.
    unfoldable pub or_loop : ℕ → Node Float → Parse
    unfolding parse_logical_and
    or_loop zero left ts = err out_of_fuel
    or_loop (suc n) left (operator lor ∷ ts) = do
      (right, r) ← parse_logical_and ts
      or_loop n (binary or_op left right) r
    or_loop (suc n) left ts = ok (left, ts)

    unfoldable pub parse_logical_or : Parse
    unfolding or_loop
    parse_logical_or ts = do (left, r) ← parse_logical_and ts; or_loop (suc (length r)) left r

  unfoldable pub parse_expression : ℕ → Parse
  unfolding parse_logical_or
  parse_expression zero ts = err out_of_fuel
  parse_expression (suc fuel) ts = parse_logical_or (parse_expression fuel) ts

  -- `parseTokens`: an expression, and then the end.
  abbrev pub finish : Node Float → List Token → Outcome ParseError (Node Float)
  finish n [] = ok n
  finish n (eof ∷ ts) = ok n
  finish n _ = err trailing

  unfoldable pub parse_tokens : List Token → Outcome ParseError (Node Float)
  unfolding parse_expression
  parse_tokens ts = do (n, r) ← parse_expression (suc (length ts)) ts; finish n r
