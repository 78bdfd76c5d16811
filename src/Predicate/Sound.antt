-- ===== src/Predicate/Sound.antt =====
-- The parser of Predicate.Parser builds only trees that the grammar of Predicate.Grammar gives.
mod Arrays
use aat.Base.{
  ℕ, zero, suc, List, [], ◌∷◌, ◌≡◌, refl, length, Option-cases, inl, inr, some, ok, ◌>>=◌,
  bind-eq-ok, ok_cast, subst, arith,
}
use aat.Base.Text.{Text}
use aat.Predicate.Token.{
  land, lor, bang, Token, number, string, bool, ident, operator, lparen, rparen, lbracket, rbracket,
  comma, in_kw, eof,
}
use aat.Predicate.Syntax.{Floats, Node, num_lit, binary, and_op, or_op, Nodes, nil, cons, snoc}
use aat.Predicate.Parser.{
  comparison_op, Parse, Parsed, close_paren, close_bracket, array_loop, parse_array, parse_primary,
  parse_unary, in_tail, parse_in_expr, comparison_tail, parse_comparison, and_loop,
  parse_logical_and, or_loop, parse_logical_or, parse_expression, finish, parse_tokens,
}
use aat.Predicate.Grammar.{
  IsOr, or_one, or_more, IsAnd, and_one, and_more, IsComparison, plain, compared, IsIn, no_in,
  with_in, IsUnary, no_bang, negated, IsPrimary, paren, empty_array, full_array, a_number, a_string,
  a_bool, an_ident, IsElements, one_element, more_elements,
}
use Arrays.{parse_array_sound}

module _ (fl : Floats) where
  close_paren-eq-ok :
      (n m : Node fl.Float) (ts us : List Token)
      → close_paren fl n ts ≡ ok (m, us)
      → (n ≡ m) × (ts ≡ rparen ∷ us)
  close_paren-eq-ok n m (rparen ∷ ts) us h = (cc, cc)
  close_paren-eq-ok n m _ us h = cc

  module _ (self : Parse fl)
      (sound : (ts us : List Token) (n : Node fl.Float)
        → self ts ≡ ok (n, us)
        → IsOr fl ts n us) where
    number_case :
        {s : Text} {ts us : List Token} {n : Node fl.Float} {x : fl.Float}
        → fl.parse_float s ≡ some x
        → Path (Parsed fl) (ok (num_lit x, ts)) (ok (n, us))
        → IsPrimary fl (number s ∷ ts) n us
    number_case {s} {ts} good h = ok_cast (IsPrimary fl (number s ∷ ts)) h (a_number good)

    pub parse_primary_sound :
        (ts us : List Token) (n : Node fl.Float)
        → parse_primary fl self ts ≡ ok (n, us)
        → IsPrimary fl ts n us
    unfolding parse_primary
    parse_primary_sound (lparen ∷ ts) us n h =
        let ((m, r), head, tail) = bind-eq-ok (self ts) _ h in
        let (same, closed) = close_paren-eq-ok m n r us tail in
        paren (sound ts (rparen ∷ us) n (cc))
    parse_primary_sound (lbracket ∷ ts) us n h = parse_array_sound fl self sound ts us n h
    parse_primary_sound (number s ∷ ts) us n h = elim (Option-cases (fl.parse_float s)) [
      | inl bad ↦ absurd (ground arith)
      | inr (x, good) ↦ number_case good (rw (good, parse_primary) at h)
    ]
    parse_primary_sound (string s ∷ ts) us n h = ok_cast (IsPrimary fl (string s ∷ ts)) h a_string
    parse_primary_sound (bool b ∷ ts) us n h = ok_cast (IsPrimary fl (bool b ∷ ts)) h a_bool
    parse_primary_sound (ident s ∷ ts) us n h = ok_cast (IsPrimary fl (ident s ∷ ts)) h an_ident
    parse_primary_sound _ us n h = absurd (cc)

    pub parse_unary_sound :
        (ts us : List Token) (n : Node fl.Float)
        → parse_unary fl self ts ≡ ok (n, us)
        → IsUnary fl ts n us
    unfolding parse_unary
    parse_unary_sound (operator bang ∷ ts) us n h =
        let ((m, r), head, tail) = bind-eq-ok (parse_unary fl self ts) _ h in
        ok_cast (IsUnary fl (operator bang ∷ ts)) tail (negated (parse_unary_sound ts r m head))
    parse_unary_sound ts us n h = no_bang (parse_primary_sound ts us n h)

    in_tail_sound :
        (ts rs us : List Token) (l n : Node fl.Float)
        → IsUnary fl ts l rs
        → in_tail fl self l rs ≡ ok (n, us)
        → IsIn fl ts n us
    in_tail_sound ts (in_kw ∷ rs) us l n d h =
        let ((m, r), head, tail) = bind-eq-ok (parse_primary fl self rs) _ h in
        ok_cast (IsIn fl ts) tail (with_in d (parse_primary_sound rs r m head))
    in_tail_sound ts rs us l n d h = ok_cast (IsIn fl ts) h (no_in d)

    pub parse_in_expr_sound :
        (ts us : List Token) (n : Node fl.Float)
        → parse_in_expr fl self ts ≡ ok (n, us)
        → IsIn fl ts n us
    unfolding parse_in_expr
    parse_in_expr_sound ts us n h =
        let ((m, r), head, tail) = bind-eq-ok (parse_unary fl self ts) _ h in
        in_tail_sound ts r us m n (parse_unary_sound ts r m head) tail

    comparison_tail_sound :
        (ts rs us : List Token) (l n : Node fl.Float)
        → IsIn fl ts l rs
        → comparison_tail fl self l rs ≡ ok (n, us)
        → IsComparison fl ts n us
    comparison_tail_sound ts (operator o ∷ rs) us l n d h = elim (Option-cases (comparison_op o)) [
      | inl other ↦ ok_cast (IsComparison fl ts) (rw (other, comparison_tail) at h) (plain d)
      | inr (b, op) ↦
          let ((m, r), head, tail) =
            bind-eq-ok (parse_in_expr fl self rs) _ (rw (op, comparison_tail) at h) in
          ok_cast (IsComparison fl ts) tail (compared op d (parse_in_expr_sound rs r m head))
    ]
    comparison_tail_sound ts rs us l n d h = ok_cast (IsComparison fl ts) h (plain d)

    pub parse_comparison_sound :
        (ts us : List Token) (n : Node fl.Float)
        → parse_comparison fl self ts ≡ ok (n, us)
        → IsComparison fl ts n us
    unfolding parse_comparison
    parse_comparison_sound ts us n h =
        let ((m, r), head, tail) = bind-eq-ok (parse_in_expr fl self ts) _ h in
        comparison_tail_sound ts r us m n (parse_in_expr_sound ts r m head) tail

    and_loop_sound :
        (k : ℕ) (ts rs us : List Token) (l n : Node fl.Float)
        → IsAnd fl ts l rs
        → and_loop fl self k l rs ≡ ok (n, us)
        → IsAnd fl ts n us
    unfolding and_loop
    and_loop_sound zero ts rs us l n d h = absurd (cc)
    and_loop_sound (suc k) ts (operator land ∷ rs) us l n d h =
        let ((m, r), head, tail) = bind-eq-ok (parse_comparison fl self rs) _ h in
        and_loop_sound k ts r us (binary and_op l m) n
          (and_more d (parse_comparison_sound rs r m head)) tail
    and_loop_sound (suc k) ts rs us l n d h = ok_cast (IsAnd fl ts) h d

    pub parse_logical_and_sound :
        (ts us : List Token) (n : Node fl.Float)
        → parse_logical_and fl self ts ≡ ok (n, us)
        → IsAnd fl ts n us
    unfolding parse_logical_and
    parse_logical_and_sound ts us n h =
        let ((m, r), head, tail) = bind-eq-ok (parse_comparison fl self ts) _ h in
        and_loop_sound (suc (length r)) ts r us m n (and_one (parse_comparison_sound ts r m head))
          tail

    or_loop_sound :
        (k : ℕ) (ts rs us : List Token) (l n : Node fl.Float)
        → IsOr fl ts l rs
        → or_loop fl self k l rs ≡ ok (n, us)
        → IsOr fl ts n us
    unfolding or_loop
    or_loop_sound zero ts rs us l n d h = absurd (cc)
    or_loop_sound (suc k) ts (operator lor ∷ rs) us l n d h =
        let ((m, r), head, tail) = bind-eq-ok (parse_logical_and fl self rs) _ h in
        or_loop_sound k ts r us (binary or_op l m) n
          (or_more d (parse_logical_and_sound rs r m head)) tail
    or_loop_sound (suc k) ts rs us l n d h = ok_cast (IsOr fl ts) h d

    parse_logical_or_sound :
        (ts us : List Token) (n : Node fl.Float)
        → parse_logical_or fl self ts ≡ ok (n, us)
        → IsOr fl ts n us
    unfolding parse_logical_or
    parse_logical_or_sound ts us n h =
        let ((m, r), head, tail) = bind-eq-ok (parse_logical_and fl self ts) _ h in
        or_loop_sound (suc (length r)) ts r us m n (or_one (parse_logical_and_sound ts r m head))
          tail

  pub parse_expression_sound :
      (fuel : ℕ) (ts us : List Token) (n : Node fl.Float)
      → parse_expression fl fuel ts ≡ ok (n, us)
      → IsOr fl ts n us
  unfolding parse_expression
  parse_expression_sound zero ts us n h = absurd (cc)
  parse_expression_sound (suc fuel) ts us n h =
      parse_logical_or_sound (parse_expression fl fuel) (parse_expression_sound fuel) ts us n h

-- Nothing is left, or the end of the text.
pub data AtEnd : List Token → Type 0 where
  no_tokens : AtEnd []
  at_eof : {ts : List Token} → AtEnd (eof ∷ ts)

finish_sound :
    (fl : Floats) (n m : Node fl.Float) (r : List Token) → finish fl n r ≡ ok m → (n ≡ m) × AtEnd r
finish_sound fl n m [] h = (cc, no_tokens)
finish_sound fl n m (eof ∷ ts) h = (cc, at_eof)
finish_sound fl n m _ h = absurd (cc)

-- A list of tokens that `parseTokens` accepts is a whole expression of the grammar, with the tree
-- that the grammar gives it, and the end of the text.
pub parse_tokens_sound :
    (fl : Floats) (ts : List Token) (n : Node fl.Float)
    → parse_tokens fl ts ≡ ok n
    → (us : List Token) × IsOr fl ts n us × AtEnd us
unfolding parse_tokens
parse_tokens_sound fl ts n h =
    let ((m, r), head, tail) = bind-eq-ok (parse_expression fl (suc (length ts)) ts) _ h in
    let (same, over) = finish_sound fl m n r tail in
    (
      r,
      subst (λ x. IsOr fl ts x r) same (parse_expression_sound fl (suc (length ts)) ts r m head),
      over,
    )
