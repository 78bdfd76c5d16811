-- ===== src/Predicate/Reads.antt =====
-- Which fields a predicate reads: `Fields` of internal/predicate/predicate.go lists them all.
use aat.Base.{
  List, [], ◌∷◌, ◌≡◌, refl, ap, ap₂, subst, Bool, Bool-cases, true, inl, inr, Outcome, ok, err,
  ◌>>=◌, All, All-append_left, All-append_right, arith,
}
use aat.Base.Text.{Text, text_eq, text_eq→eq}
use aat.Predicate.Token.{Token, ident}
use aat.Predicate.Lexer.{LexError, tokenize}
use aat.Predicate.Syntax.{
  Floats, Node, num_lit, str_lit, bool_lit, ident_node, array_node, not_node, binary, Nodes, idents,
  idents_list,
}
use aat.Predicate.Parser.{ParseError, parse_tokens}
use aat.Predicate.Value.{Fields, resolve_field}
use aat.Predicate.Eval.{
  Error, lexing, evaluating, parsing, map_err, eval, eval_list, eval_binary, eval_not, cons_value,
  eval_predicate, bool_result, parse, eval_text, mem_text, token_fields, listed, fields,
}
use aat.Predicate.Grammar.{ident_tokens, IsOr-idents}
use aat.Predicate.Sound.{parse_tokens_sound}

module _ (fl : Floats) (c d : Fields fl.Float) where
  -- Two contexts give the same to a name.
  abbrev pub Agrees : Text → Type 0
  Agrees a = resolve_field a c ≡ resolve_field a d

  mutual
    unfolding eval idents

    eval-Agrees : (n : Node fl.Float) → All Agrees (idents n) → eval fl c n ≡ eval fl d n
    eval-Agrees (num_lit x) h = refl
    eval-Agrees (str_lit s) h = refl
    eval-Agrees (bool_lit b) h = refl
    eval-Agrees (ident_node s) h = h.0
    eval-Agrees (array_node ms) h = rw (eval_list-Agrees ms h)
    eval-Agrees (not_node n) h = ap (eval_not fl) (eval-Agrees n h)
    eval-Agrees (binary o l r) h =
        ap₂ (eval_binary fl o) (eval-Agrees l (All-append_left Agrees (idents l) (idents r) h))
          (eval-Agrees r (All-append_right Agrees (idents l) (idents r) h))

    eval_list-Agrees :
        (ms : Nodes fl.Float) → All Agrees (idents_list ms) → eval_list fl c ms ≡ eval_list fl d ms
    eval_list-Agrees Nodes.nil h = refl
    eval_list-Agrees (Nodes.cons n ms) h =
        ap₂ (cons_value fl) (eval-Agrees n (All-append_left Agrees (idents n) (idents_list ms) h))
          (eval_list-Agrees ms (All-append_right Agrees (idents n) (idents_list ms) h))

module _ (P : Text → Type 0) where
  All-mem_text : (s : Text) (seen : List Text) → All P seen → mem_text s seen ≡ true → P s
  All-mem_text s [] h m = absurd (cc)
  All-mem_text s (x ∷ seen) (p, h) m = elim (Bool-cases (text_eq x s)) [
    | inl same ↦ subst P (text_eq→eq x s same) p
    | inr other ↦ All-mem_text s seen h (ground arith)
  ]

  -- What holds of all that `Fields` lists holds of every identifier of the text.
  token_fields-ident_tokens :
      (seen : List Text) (ts : List Token)
      → All P seen
      → All P (token_fields seen ts)
      → All P (ident_tokens ts)
  unfolding token_fields
  token_fields-ident_tokens seen [] known h = tt
  token_fields-ident_tokens seen (ident s ∷ ts) known h = elim (Bool-cases (mem_text s seen)) [
    | inl old ↦
        (All-mem_text s seen known old, token_fields-ident_tokens seen ts known (rw old at h))
    | inr new ↦
        let h' : P s × All P (token_fields (s ∷ seen) ts) = rw new at h in
        (h'.0, token_fields-ident_tokens (s ∷ seen) ts (h'.0, known) h'.1)
  ]
  token_fields-ident_tokens seen (_ ∷ ts) known h = token_fields-ident_tokens seen ts known h

  parsed_idents :
      (fl : Floats) (ts : List Token) (n : Node fl.Float)
      → parse_tokens fl ts ≡ ok n
      → All P (ident_tokens ts)
      → All P (idents n)
  parsed_idents fl ts n e h =
      let (us, derivation, end) = parse_tokens_sound fl ts n e in
      All-append_left P (idents n) (ident_tokens us) (rw (IsOr-idents derivation) at h)

module _ (fl : Floats) (c d : Fields fl.Float) where
  eval_predicate-Agrees :
      (n : Node fl.Float)
      → All (Agrees fl c d) (idents n)
      → eval_predicate fl c n ≡ eval_predicate fl d n
  unfolding eval_predicate
  eval_predicate-Agrees n h = ap (λ v. v >>= bool_result fl) (eval-Agrees fl c d n h)

  -- The rest of `Eval` behind a tokenized text.
  abbrev on_tokens : Fields fl.Float → Outcome LexError (List Token) → Outcome Error Bool
  on_tokens ctx r = (map_err lexing r >>= λ ts. map_err parsing (parse_tokens fl ts)) >>= λ n.
      map_err evaluating (eval_predicate fl ctx n)

  on_parsed-Agrees :
      (ts : List Token) (m : Outcome ParseError (Node fl.Float))
      → parse_tokens fl ts ≡ m
      → All (Agrees fl c d) (ident_tokens ts)
      → (map_err parsing m >>= λ n. map_err evaluating (eval_predicate fl c n))
        ≡ (map_err parsing m >>= λ n. map_err evaluating (eval_predicate fl d n))
  on_parsed-Agrees ts (err e) p h = refl
  on_parsed-Agrees ts (ok n) p h =
      rw (eval_predicate-Agrees n (parsed_idents (Agrees fl c d) fl ts n p h))

  on_tokens-Agrees :
      (r : Outcome LexError (List Token))
      → All (Agrees fl c d) (listed r)
      → on_tokens c r ≡ on_tokens d r
  on_tokens-Agrees (err e) h = refl
  on_tokens-Agrees (ok ts) h =
      on_parsed-Agrees ts (parse_tokens fl ts) refl
        (token_fields-ident_tokens (Agrees fl c d) [] ts tt h)

-- `Eval` reads no field that `Fields` does not list: two contexts that give the same to every
-- listed name give the same result, errors included.
pub eval_text-fields :
    (fl : Floats) (expr : Text) (c d : Fields fl.Float)
    → All (λ a. resolve_field a c ≡ resolve_field a d) (fields expr)
    → eval_text fl expr c ≡ eval_text fl expr d
unfolding eval_text fields parse
eval_text-fields fl expr c d h = on_tokens-Agrees fl c d (tokenize expr) h
