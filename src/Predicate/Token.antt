-- ===== src/Predicate/Token.antt =====
-- The tokens of internal/predicate/predicate.go. The operator texts that the tokenizer makes are the constructors of `Op`; `in` is an
-- operator of the syntax tree, and a token of its own.
use aat.Base.Text.{Text, codes}
use aat.Base.{ℕ, [], ◌∷◌, ◌++◌, Bool, true, false, ◌&&◌, not, if◌then◌else◌, ◌==◌, any}

pub data Op : Type 0 where
  eq ne le ge land lor lt gt bang : Op

pub data Token : Type 0 where
  number : Text → Token
  string : Text → Token
  bool : Bool → Token
  ident : Text → Token
  operator : Op → Token
  lparen rparen lbracket rbracket comma in_kw eof : Token

abbrev pub op_text : Op → Text
op_text eq = b'=' ∷ b'=' ∷ []
op_text ne = b'!' ∷ b'=' ∷ []
op_text le = b'<' ∷ b'=' ∷ []
op_text ge = b'>' ∷ b'=' ∷ []
op_text land = b'&' ∷ b'&' ∷ []
op_text lor = b'|' ∷ b'|' ∷ []
op_text lt = b'<' ∷ []
op_text gt = b'>' ∷ []
op_text bang = b'!' ∷ []

abbrev pub quote_for : Text → ℕ
quote_for s = if any (λ c. c == b'"') s then b'\'' else b'"'

-- `tokenText`: a string literal takes double quotes, or single quotes when it holds a double quote.
unfoldable pub token_text : Token → Text
token_text (number s) = s
token_text (string s) = quote_for s ∷ (s ++ quote_for s ∷ [])
token_text (bool true) = codes "true"
token_text (bool false) = codes "false"
token_text (ident s) = s
token_text (operator o) = op_text o
token_text lparen = b'(' ∷ []
token_text rparen = b')' ∷ []
token_text lbracket = b'[' ∷ []
token_text rbracket = b']' ∷ []
token_text comma = b',' ∷ []
token_text in_kw = codes "in"
token_text eof = []

abbrev pub opens : Token → Bool
opens lparen = true
opens lbracket = true
opens (operator bang) = true
opens _ = false

abbrev pub closes : Token → Bool
closes rparen = true
closes rbracket = true
closes comma = true
closes _ = false

-- `spaceBetween`.
unfoldable pub space_between : Token → Token → Bool
space_between prev next = not (opens prev) && not (closes next)
