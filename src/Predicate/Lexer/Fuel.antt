-- ===== src/Predicate/Lexer/Fuel.antt =====
-- Each round of `tokenize` reads a byte, so a round per byte is enough.
use aat.Base.{
  ℕ, zero, suc, ◌≤◌, List, [], ◌∷◌, Bool, true, false, ◌||◌, ◌==◌, ◌≡◌, ◌≢◌, refl, length, Option,
  none, some, Option-cases, inl, inr, Outcome, ok, err, arith, if◌then◌else◌,
}
use aat.Base.Text.{Text}
use aat.Predicate.Token.{Op, Token, operator, string}
use aat.Predicate.Lexer.{
  LexError, unterminated, out_of_fuel, is_space, is_digit, starts_word, in_word, span,
  scan_fraction, scan_number, scan_string, single_char, two_char_op, two_chars, one_char_op,
  starts_negative, lex_long, lex_one, push_token, tokenize_loop, tokenize,
}

span-length : (p : ℕ → Bool) (s : Text) → length ((span p s).1) ≤ length s
unfolding span
span-length p [] = omega arith
span-length p (c ∷ s) = ground (arith, span-length p s)

span-first : (p : ℕ → Bool) (c : ℕ) (s : Text) → p c ≡ true → length ((span p (c ∷ s)).1) ≤ length s
unfolding span
span-first p c s h = ground (arith, span-length p s)

scan_fraction-length : (s : Text) → length ((scan_fraction s).1) ≤ length s
unfolding scan_fraction
scan_fraction-length [] = omega arith
scan_fraction-length (c ∷ s) = ground (arith, span-length is_digit s)

scan_number-length : (s : Text) → length ((scan_number s).1) ≤ length s
unfolding scan_number
scan_number-length s =
    omega (arith, span-length is_digit s, scan_fraction-length ((span is_digit s).1))

scan_number-first :
    (c : ℕ) (s : Text) → is_digit c ≡ true → length ((scan_number (c ∷ s)).1) ≤ length s
unfolding scan_number
scan_number-first c s h =
    omega (arith, span-first is_digit c s h, scan_fraction-length ((span is_digit (c ∷ s)).1))

scan_string-length : (q : ℕ) (s t r : Text) → scan_string q s ≡ some (t, r) → length r ≤ length s
unfolding scan_string
scan_string-length q [] t r h = cc
scan_string-length q (c ∷ s) t r h = elim (Option-cases (scan_string q s)) [
  | inl bad ↦ ground (arith, bad)
  | inr ((t', r'), good) ↦ ground (arith, good, scan_string-length q s t' r' good)
]

-- What a token leaves is no longer than what follows its first byte.
abbrev Leaves : Text → Outcome LexError (Token × Text) → Type 0
Leaves s (ok (t, r)) = length r ≤ length s
Leaves s (err e) = e ≢ out_of_fuel

Leaves-if :
    (s : Text) (b : Bool) (x y : Outcome LexError (Token × Text))
    → (b ≡ true → Leaves s x)
    → (b ≡ false → Leaves s y)
    → Leaves s (if b then x else y)
Leaves-if s true x y hx hy = hx refl
Leaves-if s false x y hx hy = hy refl

Leaves-string :
    (s : Text) (o : Option (Text × Text))
    → ((t r : Text) → o ≡ some (t, r) → length r ≤ length s)
    → Leaves s (elim o [ none ↦ err unterminated | some (t, r) ↦ ok (string t, r) ])
Leaves-string s none h = cc
Leaves-string s (some (t, r)) h = h t r refl

starts_word-in_word : (c : ℕ) → starts_word c ≡ true → in_word c ≡ true
starts_word-in_word c h = ground arith

lex_long-Leaves : (c : ℕ) (s : Text) → Leaves s (lex_long c s)
unfolding lex_long
lex_long-Leaves c s =
    Leaves-if s (c == b'\'' || c == b'"') _ _
      (λ _. Leaves-string s (scan_string c s) (scan_string-length c s))
      (λ _. Leaves-if s (is_digit c) _ _ (scan_number-first c s) (λ _.
        Leaves-if s (starts_negative (c ∷ s)) _ _ (λ _. scan_number-length s)
          (λ _.
            Leaves-if s (starts_word c) _ _ (λ w. span-first in_word c s (starts_word-in_word c w))
              (λ _. cc))))

two_char_op-length :
    (c : ℕ) (s r : Text) (o : Op) → two_char_op (c ∷ s) ≡ some (o, r) → length r ≤ length s
two_char_op-length c [] r o h = cc
two_char_op-length c (d ∷ s) r o h = elim (Option-cases (two_chars c d)) [
  | inl bad ↦ absurd (ground (arith, rw (bad, two_char_op) at h))
  | inr (o', good) ↦ ground (arith, rw (good, two_char_op) at h)
]

Leaves-operators :
    (s : Text) (o₁ : Option Token) (o₂ : Option (Op × Text)) (o₃ : Option Op)
    (x : Outcome LexError (Token × Text))
    → ((o : Op) (r : Text) → o₂ ≡ some (o, r) → length r ≤ length s)
    → Leaves s x
    → Leaves s (elim o₁ [
      | some t ↦ ok (t, s)
      | none ↦ elim o₂ [
        | some (o, r) ↦ ok (operator o, r)
        | none ↦ elim o₃ [ some o ↦ ok (operator o, s) | none ↦ x ]
      ]
    ])
Leaves-operators s (some t) o₂ o₃ x h hx = omega arith
Leaves-operators s none (some (o, r)) o₃ x h hx = h o r refl
Leaves-operators s none none (some o) x h hx = omega arith
Leaves-operators s none none none x h hx = hx

lex_one-Leaves : (c : ℕ) (s : Text) → Leaves s (lex_one c s)
unfolding lex_one
lex_one-Leaves c s =
    Leaves-operators s (single_char c) (two_char_op (c ∷ s)) (one_char_op c) (lex_long c s)
      (λ o r e. two_char_op-length c s r o e) (lex_long-Leaves c s)

push_token-ne :
    (t : Token) (r : Outcome LexError (List Token))
    → r ≢ err out_of_fuel
    → push_token t r ≢ err out_of_fuel
push_token-ne t (ok ts) h = cc
push_token-ne t (err e) h = h

next-ne :
    (fuel : ℕ) (s : Text) (space : Bool) (m : Outcome LexError (Token × Text))
    → Leaves s m
    → ((r : Text) → length r ≤ length s → tokenize_loop fuel r ≢ err out_of_fuel)
    → (elim space [
      | true ↦ tokenize_loop fuel s
      | false ↦ elim m [ err e ↦ err e | ok (t, r) ↦ push_token t (tokenize_loop fuel r) ]
    ])
      ≢ err out_of_fuel
next-ne fuel s true m h rest = rest s (omega arith)
next-ne fuel s false (ok (t, r)) h rest = push_token-ne t (tokenize_loop fuel r) (rest r h)
next-ne fuel s false (err e) h rest = λ same. h (cc)

tokenize_loop-ne : (fuel : ℕ) (s : Text) → length s ≤ fuel → tokenize_loop fuel s ≢ err out_of_fuel
unfolding tokenize_loop
tokenize_loop-ne fuel [] h = cc
tokenize_loop-ne zero (c ∷ s) h = absurd (omega arith)
tokenize_loop-ne (suc fuel) (c ∷ s) h =
    next-ne fuel s (is_space c) (lex_one c s) (lex_one-Leaves c s)
      (λ r shorter. tokenize_loop-ne fuel r (omega arith))

-- Whatever the text, `tokenize` ends with tokens or with one of the source's errors: a round per
-- byte is enough.
pub tokenize-ne-out_of_fuel : (s : Text) → tokenize s ≢ err out_of_fuel
unfolding tokenize
tokenize-ne-out_of_fuel s = tokenize_loop-ne (length s) s (omega arith)
