-- ===== src/Predicate/Lexer.antt =====
-- `tokenize` of internal/predicate/predicate.go. The index `i` into the input is the input that is
-- left; each round of the loop reads one token or one white space.
pub mod Fuel
use aat.Base.{
  ℕ, zero, suc, List, [], ◌∷◌, ◌++◌, Bool, true, false, ◌&&◌, ◌||◌, not, if◌then◌else◌, ◌==◌, leb,
  ◌≡◌, refl, length, Option, none, some, Outcome, ok, err,
}
use aat.Base.Text.{Text, codes, text_eq}
use aat.Predicate.Token.{
  Op, eq, ne, le, ge, land, lor, lt, gt, bang, Token, number, string, bool, ident, operator, lparen,
  rparen, lbracket, rbracket, comma, in_kw, eof,
}

-- The two errors of `tokenize`; `out_of_fuel` is the loop's own.
pub data LexError : Type 0 where
  unterminated unexpected out_of_fuel : LexError

abbrev pub is_space : ℕ → Bool
is_space c = c == b' ' || c == 9 || c == 10 || c == 13

abbrev pub is_digit : ℕ → Bool
is_digit c = leb b'0' c && leb c b'9'

abbrev pub is_ascii_letter : ℕ → Bool
is_ascii_letter c = leb b'a' c && leb c b'z' || leb b'A' c && leb c b'Z'

-- `unicode.IsLetter(rune(b))` of one byte: the letters of Latin-1.
abbrev pub is_letter : ℕ → Bool
is_letter c =
    is_ascii_letter c
    || c == 0xaa
    || c == 0xb5
    || c == 0xba
    || leb 0xc0 c && leb c 0xff && not (c == 0xd7 || c == 0xf7)

abbrev pub starts_word : ℕ → Bool
starts_word c = c == b'_' || is_ascii_letter c

abbrev pub in_word : ℕ → Bool
in_word c = is_letter c || is_digit c || c == b'_' || c == b'.'

-- What an inner loop `for j < len(input) && p(input[j])` takes, and what it leaves.
unfoldable pub span : (ℕ → Bool) → Text → Text × Text
span p [] = ([], [])
span p (c ∷ s) = let (t, r) = span p s in if p c then (c ∷ t, r) else ([], c ∷ s)

-- The digits of a number, and its fraction.
unfoldable pub scan_fraction : Text → Text × Text
scan_fraction [] = ([], [])
scan_fraction (c ∷ s) =
    let (t, r) = span is_digit s in if c == b'.' then (c ∷ t, r) else ([], c ∷ s)

unfoldable pub scan_number : Text → Text × Text
scan_number s =
    let (whole, r) = span is_digit s in
    let (fraction, r') = scan_fraction r in (whole ++ fraction, r')

-- The body of a string literal, up to its closing quote.
unfoldable pub scan_string : ℕ → Text → Option (Text × Text)
scan_string q [] = none
scan_string q (c ∷ s) =
    let rest = scan_string q s in
    if c == q then some ([], s) else elim rest [ none ↦ none | some (t, r) ↦ some (c ∷ t, r) ]

abbrev pub single_char : ℕ → Option Token
single_char c =
    if c == b'('
    then some lparen
    else if c == b')'
    then some rparen
    else if c == b'['
    then some lbracket
    else if c == b']'
    then some rbracket
    else if c == b','
    then some comma
    else none

abbrev pub two_chars : ℕ → ℕ → Option Op
two_chars c d =
    if c == b'=' && d == b'='
    then some eq
    else if c == b'!' && d == b'='
    then some ne
    else if c == b'<' && d == b'='
    then some le
    else if c == b'>' && d == b'='
    then some ge
    else if c == b'&' && d == b'&'
    then some land
    else if c == b'|' && d == b'|'
    then some lor
    else none

abbrev pub two_char_op : Text → Option (Op × Text)
two_char_op [] = none
two_char_op (_ ∷ []) = none
two_char_op (c ∷ d ∷ s) = elim (two_chars c d) [ none ↦ none | some o ↦ some (o, s) ]

abbrev pub one_char_op : ℕ → Option Op
one_char_op c =
    if c == b'<'
    then some lt
    else if c == b'>'
    then some gt
    else if c == b'!'
    then some bang
    else none

abbrev pub word_token : Text → Token
word_token w =
    if text_eq w (codes "true")
    then bool true
    else if text_eq w (codes "false")
    then bool false
    else if text_eq w (codes "in")
    then in_kw
    else ident w

abbrev pub starts_negative : Text → Bool
starts_negative (c ∷ d ∷ s) = c == b'-' && is_digit d
starts_negative _ = false

-- A token that is no bracket and no operator: a string, a number or a word.
unfoldable pub lex_long : ℕ → Text → Outcome LexError (Token × Text)
unfolding span scan_number scan_fraction scan_string
lex_long c s =
    if c == b'\'' || c == b'"'
    then elim (scan_string c s) [ none ↦ err unterminated | some (t, r) ↦ ok (string t, r) ]
    else if is_digit c
    then (let (t, r) = scan_number (c ∷ s) in ok (number t, r))
    else if starts_negative (c ∷ s)
    then (let (t, r) = scan_number s in ok (number (c ∷ t), r))
    else if starts_word c
    then (let (t, r) = span in_word (c ∷ s) in ok (word_token t, r))
    else err unexpected

-- One token, from a first byte that is no white space.
unfoldable pub lex_one : ℕ → Text → Outcome LexError (Token × Text)
unfolding lex_long
lex_one c s = elim (single_char c) [
  | some t ↦ ok (t, s)
  | none ↦ elim (two_char_op (c ∷ s)) [
    | some (o, r) ↦ ok (operator o, r)
    | none ↦ elim (one_char_op c) [ some o ↦ ok (operator o, s) | none ↦ lex_long c s ]
  ]
]

abbrev pub push_token : Token → Outcome LexError (List Token) → Outcome LexError (List Token)
push_token t (ok ts) = ok (t ∷ ts)
push_token t (err e) = err e

-- The loop of `tokenize`. What it appends to `tokens` is what it conses here.
unfoldable pub tokenize_loop : ℕ → Text → Outcome LexError (List Token)
unfolding lex_one
tokenize_loop fuel [] = ok (eof ∷ [])
tokenize_loop zero (c ∷ s) = err out_of_fuel
tokenize_loop (suc fuel) (c ∷ s) = elim (is_space c) [
  | true ↦ tokenize_loop fuel s
  | false ↦ elim (lex_one c s) [ err e ↦ err e | ok (t, r) ↦ push_token t (tokenize_loop fuel r) ]
]

unfoldable pub tokenize : Text → Outcome LexError (List Token)
unfolding tokenize_loop
tokenize s = tokenize_loop (length s) s

tokenize_test :
    tokenize (codes "!(a.b>=-1.5)&& x in ['q' , 3]")
    ≡ ok (
        operator bang
        ∷ lparen
        ∷ ident (codes "a.b")
        ∷ operator ge
        ∷ number (codes "-1.5")
        ∷ rparen
        ∷ operator land
        ∷ ident (codes "x")
        ∷ in_kw
        ∷ lbracket
        ∷ string (codes "q")
        ∷ comma
        ∷ number (codes "3")
        ∷ rbracket
        ∷ eof
        ∷ [])
unfolding tokenize
tokenize_test = refl
