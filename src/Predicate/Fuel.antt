-- ===== src/Predicate/Fuel.antt =====
-- The parser's fuel is enough: what it reads is shorter than what it is given.
use aat.Base.{
  ℕ, zero, suc, ◌≤◌, ◌<◌, List, [], ◌∷◌, ◌≢◌, ◌≡◌, length, Option-cases, inl, inr, Outcome, ok, err,
  ◌>>=◌, bind-eq-err, arith,
}
use aat.Predicate.Token.{
  land, lor, bang, Token, number, operator, lparen, rparen, lbracket, rbracket, comma, in_kw, eof,
}
use aat.Predicate.Syntax.{Floats, Node, binary, and_op, or_op, Nodes, nil, cons, snoc}
use aat.Predicate.Parser.{
  ParseError, out_of_fuel, comparison_op, Parse, close_paren, close_bracket, array_loop,
  parse_array, parse_primary, parse_unary, in_tail, parse_in_expr, comparison_tail,
  parse_comparison, and_loop, parse_logical_and, or_loop, parse_logical_or, parse_expression,
  finish, parse_tokens,
}
use aat.Predicate.Grammar.{IsOr}
use aat.Predicate.Sound.{
  parse_unary_sound, parse_in_expr_sound, parse_comparison_sound, parse_logical_and_sound,
  parse_expression_sound,
}
use aat.Predicate.Shorter.{IsOr-lt, IsAnd-lt, IsComparison-lt, IsIn-lt, IsUnary-lt}

abbrev Fueled {ℓ} : {A : Type ℓ} → Outcome ParseError A → Type ℓ
Fueled r = r ≢ err out_of_fuel

-- A chain has fuel if its head has, and its rest has after every head.
Fueled-bind :
    {A B : Type 0} (m : Outcome ParseError A) (f : A → Outcome ParseError B)
    → Fueled m
    → ((a : A) → m ≡ ok a → Fueled (f a))
    → Fueled (m >>= f)
Fueled-bind m f hm hf h = elim (bind-eq-err m f h) [
  | inl out ↦ hm out
  | inr (a, e, out) ↦ hf a e out
]

module _ (fl : Floats) (self : Parse fl) (limit : ℕ)
    (sound : (ts us : List Token) (n : Node fl.Float) → self ts ≡ ok (n, us) → IsOr fl ts n us)
    (fueled : (ts : List Token) → length ts < limit → Fueled (self ts)) where
  close_paren-Fueled : (n : Node fl.Float) (ts : List Token) → Fueled (close_paren fl n ts)
  close_paren-Fueled n [] = cc
  close_paren-Fueled n (rparen ∷ ts) = cc
  close_paren-Fueled n _ = cc

  close_bracket-Fueled : (ms : Nodes fl.Float) (ts : List Token) → Fueled (close_bracket fl ms ts)
  close_bracket-Fueled ms [] = cc
  close_bracket-Fueled ms (rbracket ∷ ts) = cc
  close_bracket-Fueled ms _ = cc

  array_loop-Fueled :
      (k : ℕ) (ms : Nodes fl.Float) (ts : List Token)
      → length ts < k
      → length ts ≤ limit
      → Fueled (array_loop fl self k ms ts)
  unfolding array_loop
  array_loop-Fueled zero ms ts h b = absurd (omega arith)
  array_loop-Fueled (suc k) ms (comma ∷ ts) h b =
      Fueled-bind (self ts) _ (fueled ts (omega arith)) λ p e.
        array_loop-Fueled k (snoc ms p.0) p.1 (omega (arith, IsOr-lt (sound ts p.1 p.0 e)))
          (omega (arith, IsOr-lt (sound ts p.1 p.0 e)))
  array_loop-Fueled (suc k) ms ts h b = cc

  array-Fueled :
      (ts : List Token)
      → length ts < limit
      → Fueled (
          self ts >>= λ p. array_loop fl self (suc (length p.1)) (cons p.0 nil) p.1 >>= λ q.
          close_bracket fl q.0 q.1)
  array-Fueled ts b = Fueled-bind (self ts) _ (fueled ts b) λ p e.
      Fueled-bind (array_loop fl self (suc (length p.1)) (cons p.0 nil) p.1) _
        (array_loop-Fueled (suc (length p.1)) (cons p.0 nil) p.1 (omega arith)
          (omega (arith, IsOr-lt (sound ts p.1 p.0 e))))
        λ q _. close_bracket-Fueled q.0 q.1

  parse_array-Fueled : (ts : List Token) → length ts < limit → Fueled (parse_array fl self ts)
  unfolding parse_array
  parse_array-Fueled (rbracket ∷ ts) b = cc
  parse_array-Fueled ts b = array-Fueled ts b

  parse_primary-Fueled : (ts : List Token) → length ts ≤ limit → Fueled (parse_primary fl self ts)
  unfolding parse_primary
  parse_primary-Fueled (lparen ∷ ts) b =
      Fueled-bind (self ts) _ (fueled ts (omega arith)) λ p _. close_paren-Fueled p.0 p.1
  parse_primary-Fueled (lbracket ∷ ts) b = parse_array-Fueled ts (omega arith)
  parse_primary-Fueled (number s ∷ ts) b = elim (Option-cases (fl.parse_float s)) [
    | inl bad ↦ rw (bad, parse_primary) (cc)
    | inr (x, good) ↦ rw (good, parse_primary) (cc)
  ]
  parse_primary-Fueled _ b = cc

  parse_unary-Fueled : (ts : List Token) → length ts ≤ limit → Fueled (parse_unary fl self ts)
  unfolding parse_unary
  parse_unary-Fueled (operator bang ∷ ts) b =
      Fueled-bind (parse_unary fl self ts) _ (parse_unary-Fueled ts (omega arith)) λ p _. cc
  parse_unary-Fueled ts b = parse_primary-Fueled ts b

  in_tail-Fueled :
      (l : Node fl.Float) (ts : List Token) → length ts ≤ limit → Fueled (in_tail fl self l ts)
  in_tail-Fueled l (in_kw ∷ ts) b =
      Fueled-bind (parse_primary fl self ts) _ (parse_primary-Fueled ts (omega arith)) λ p _. cc
  in_tail-Fueled l ts b = cc

  parse_in_expr-Fueled : (ts : List Token) → length ts ≤ limit → Fueled (parse_in_expr fl self ts)
  unfolding parse_in_expr
  parse_in_expr-Fueled ts b =
      Fueled-bind (parse_unary fl self ts) _ (parse_unary-Fueled ts b) λ p e.
        in_tail-Fueled p.0 p.1
          (omega (arith, IsUnary-lt (parse_unary_sound fl self sound ts p.1 p.0 e)))

  comparison_tail-Fueled :
      (l : Node fl.Float) (ts : List Token)
      → length ts ≤ limit
      → Fueled (comparison_tail fl self l ts)
  comparison_tail-Fueled l (operator o ∷ ts) b = elim (Option-cases (comparison_op o)) [
    | inl other ↦ rw (other, comparison_tail) (cc)
    | inr (op, found) ↦
        rw (found, comparison_tail)
          (Fueled-bind (parse_in_expr fl self ts) _ (parse_in_expr-Fueled ts (omega arith))
            λ p _. cc)
  ]
  comparison_tail-Fueled l ts b = cc

  parse_comparison-Fueled :
      (ts : List Token) → length ts ≤ limit → Fueled (parse_comparison fl self ts)
  unfolding parse_comparison
  parse_comparison-Fueled ts b =
      Fueled-bind (parse_in_expr fl self ts) _ (parse_in_expr-Fueled ts b) λ p e.
        comparison_tail-Fueled p.0 p.1
          (omega (arith, IsIn-lt (parse_in_expr_sound fl self sound ts p.1 p.0 e)))

  and_loop-Fueled :
      (k : ℕ) (l : Node fl.Float) (ts : List Token)
      → length ts < k
      → length ts ≤ limit
      → Fueled (and_loop fl self k l ts)
  unfolding and_loop
  and_loop-Fueled zero l ts h b = absurd (omega arith)
  and_loop-Fueled (suc k) l (operator land ∷ ts) h b =
      Fueled-bind (parse_comparison fl self ts) _ (parse_comparison-Fueled ts (omega arith)) λ p e.
        and_loop-Fueled k (binary and_op l p.0) p.1
          (omega (arith, IsComparison-lt (parse_comparison_sound fl self sound ts p.1 p.0 e)))
          (omega (arith, IsComparison-lt (parse_comparison_sound fl self sound ts p.1 p.0 e)))
  and_loop-Fueled (suc k) l ts h b = cc

  parse_logical_and-Fueled :
      (ts : List Token) → length ts ≤ limit → Fueled (parse_logical_and fl self ts)
  unfolding parse_logical_and
  parse_logical_and-Fueled ts b =
      Fueled-bind (parse_comparison fl self ts) _ (parse_comparison-Fueled ts b) λ p e.
        and_loop-Fueled (suc (length p.1)) p.0 p.1 (omega arith)
          (omega (arith, IsComparison-lt (parse_comparison_sound fl self sound ts p.1 p.0 e)))

  or_loop-Fueled :
      (k : ℕ) (l : Node fl.Float) (ts : List Token)
      → length ts < k
      → length ts ≤ limit
      → Fueled (or_loop fl self k l ts)
  unfolding or_loop
  or_loop-Fueled zero l ts h b = absurd (omega arith)
  or_loop-Fueled (suc k) l (operator lor ∷ ts) h b =
      Fueled-bind (parse_logical_and fl self ts) _ (parse_logical_and-Fueled ts (omega arith))
        λ p e.
          or_loop-Fueled k (binary or_op l p.0) p.1
            (omega (arith, IsAnd-lt (parse_logical_and_sound fl self sound ts p.1 p.0 e)))
            (omega (arith, IsAnd-lt (parse_logical_and_sound fl self sound ts p.1 p.0 e)))
  or_loop-Fueled (suc k) l ts h b = cc

  parse_logical_or-Fueled :
      (ts : List Token) → length ts ≤ limit → Fueled (parse_logical_or fl self ts)
  unfolding parse_logical_or
  parse_logical_or-Fueled ts b =
      Fueled-bind (parse_logical_and fl self ts) _ (parse_logical_and-Fueled ts b) λ p e.
        or_loop-Fueled (suc (length p.1)) p.0 p.1 (omega arith)
          (omega (arith, IsAnd-lt (parse_logical_and_sound fl self sound ts p.1 p.0 e)))

parse_expression-Fueled :
    (fl : Floats) (fuel : ℕ) (ts : List Token)
    → length ts < fuel
    → Fueled (parse_expression fl fuel ts)
unfolding parse_expression
parse_expression-Fueled fl zero ts b = absurd (omega arith)
parse_expression-Fueled fl (suc fuel) ts b =
    parse_logical_or-Fueled fl (parse_expression fl fuel) fuel (parse_expression_sound fl fuel)
      (parse_expression-Fueled fl fuel) ts (omega arith)

finish-Fueled : (fl : Floats) (n : Node fl.Float) (ts : List Token) → Fueled (finish fl n ts)
finish-Fueled fl n [] = cc
finish-Fueled fl n (eof ∷ ts) = cc
finish-Fueled fl n _ = cc

-- Whatever the tokens, `parseTokens` ends with a tree or with one of the source's errors: the
-- fuel of the model never runs out.
pub parse_tokens-ne-out_of_fuel :
    (fl : Floats) (ts : List Token) → parse_tokens fl ts ≢ err out_of_fuel
unfolding parse_tokens
parse_tokens-ne-out_of_fuel fl ts =
    Fueled-bind (parse_expression fl (suc (length ts)) ts) _
      (parse_expression-Fueled fl (suc (length ts)) ts (omega arith))
      λ p _. finish-Fueled fl p.0 p.1
