-- ===== src/Predicate/Grammar.antt =====
-- The grammar that the comments of internal/predicate/predicate.go state above each parsing
-- function, as a relation: `IsOr ts n us` says that the tokens `ts` begin with a disjunction whose
-- tree is `n`, and that `us` is what is left behind it.
use aat.Base.{List, [], ◌∷◌, ◌++◌, ◌≡◌, refl, some, Bool, append_assoc, append-nil}
use aat.Base.Text.{Text}
use aat.Predicate.Token.{
  Op, land, lor, bang, Token, number, string, bool, ident, operator, lparen, rparen, lbracket,
  rbracket, comma, in_kw,
}
use aat.Predicate.Syntax.{
  Floats, BinOp, or_op, and_op, in_op, Node, num_lit, str_lit, bool_lit, ident_node, array_node,
  not_node, binary, Nodes, nil, cons, snoc, idents, idents_list,
}
use aat.Predicate.Parser.{comparison_op}

abbrev pub ident_tokens : List Token → List Text
ident_tokens [] = []
ident_tokens (ident s ∷ ts) = s ∷ ident_tokens ts
ident_tokens (_ ∷ ts) = ident_tokens ts

module _ (fl : Floats) where
  mutual
    pub data IsOr : List Token → Node fl.Float → List Token → Type 0 where
      or_one : {ts us : List Token} {n : Node fl.Float} → IsAnd ts n us → IsOr ts n us
      or_more :
          {ts us vs : List Token} {l r : Node fl.Float}
          → IsOr ts l (operator lor ∷ us)
          → IsAnd us r vs
          → IsOr ts (binary or_op l r) vs

    pub data IsAnd : List Token → Node fl.Float → List Token → Type 0 where
      and_one : {ts us : List Token} {n : Node fl.Float} → IsComparison ts n us → IsAnd ts n us
      and_more :
          {ts us vs : List Token} {l r : Node fl.Float}
          → IsAnd ts l (operator land ∷ us)
          → IsComparison us r vs
          → IsAnd ts (binary and_op l r) vs

    pub data IsComparison : List Token → Node fl.Float → List Token → Type 0 where
      plain : {ts us : List Token} {n : Node fl.Float} → IsIn ts n us → IsComparison ts n us
      compared :
          {ts us vs : List Token} {l r : Node fl.Float} {o : Op} {b : BinOp}
          → comparison_op o ≡ some b
          → IsIn ts l (operator o ∷ us)
          → IsIn us r vs
          → IsComparison ts (binary b l r) vs

    pub data IsIn : List Token → Node fl.Float → List Token → Type 0 where
      no_in : {ts us : List Token} {n : Node fl.Float} → IsUnary ts n us → IsIn ts n us
      with_in :
          {ts us vs : List Token} {l r : Node fl.Float}
          → IsUnary ts l (in_kw ∷ us)
          → IsPrimary us r vs
          → IsIn ts (binary in_op l r) vs

    pub data IsUnary : List Token → Node fl.Float → List Token → Type 0 where
      no_bang : {ts us : List Token} {n : Node fl.Float} → IsPrimary ts n us → IsUnary ts n us
      negated :
          {ts us : List Token} {n : Node fl.Float}
          → IsUnary ts n us
          → IsUnary (operator bang ∷ ts) (not_node n) us

    pub data IsPrimary : List Token → Node fl.Float → List Token → Type 0 where
      paren :
          {ts us : List Token} {n : Node fl.Float}
          → IsOr ts n (rparen ∷ us)
          → IsPrimary (lparen ∷ ts) n us
      empty_array : {us : List Token} → IsPrimary (lbracket ∷ rbracket ∷ us) (array_node nil) us
      full_array :
          {ts us : List Token} {ms : Nodes fl.Float}
          → IsElements ts ms (rbracket ∷ us)
          → IsPrimary (lbracket ∷ ts) (array_node ms) us
      a_number :
          {us : List Token} {s : Text} {x : fl.Float}
          → fl.parse_float s ≡ some x
          → IsPrimary (number s ∷ us) (num_lit x) us
      a_string : {us : List Token} {s : Text} → IsPrimary (string s ∷ us) (str_lit s) us
      a_bool : {us : List Token} {b : Bool} → IsPrimary (bool b ∷ us) (bool_lit b) us
      an_ident : {us : List Token} {s : Text} → IsPrimary (ident s ∷ us) (ident_node s) us

    pub data IsElements : List Token → Nodes fl.Float → List Token → Type 0 where
      one_element :
          {ts us : List Token} {n : Node fl.Float} → IsOr ts n us → IsElements ts (cons n nil) us
      more_elements :
          {ts us vs : List Token} {n : Node fl.Float} {ms ns : Nodes fl.Float}
          → IsElements ts ms (comma ∷ us)
          → IsOr us n vs
          → ns ≡ snoc ms n
          → IsElements ts ns vs

idents-snoc :
    {F : Type 0} (ms : Nodes F) (n : Node F) → idents_list (snoc ms n) ≡ idents_list ms ++ idents n
unfolding idents
idents-snoc nil n = append-nil (idents n)
idents-snoc (cons m ms) n = simp (idents-snoc ms n, append_assoc)

module _ {fl : Floats} where
  -- A tree reads the identifiers of its tokens, each as often as they name it, in their order.
  mutual
    unfolding idents

    pub IsOr-idents :
        {ts us : List Token} {n : Node fl.Float}
        → IsOr fl ts n us
        → ident_tokens ts ≡ idents n ++ ident_tokens us
    IsOr-idents (or_one d) = IsAnd-idents d
    IsOr-idents (or_more d e) = simp (IsOr-idents d, IsAnd-idents e, append_assoc)

    pub IsAnd-idents :
        {ts us : List Token} {n : Node fl.Float}
        → IsAnd fl ts n us
        → ident_tokens ts ≡ idents n ++ ident_tokens us
    IsAnd-idents (and_one d) = IsComparison-idents d
    IsAnd-idents (and_more d e) = simp (IsAnd-idents d, IsComparison-idents e, append_assoc)

    pub IsComparison-idents :
        {ts us : List Token} {n : Node fl.Float}
        → IsComparison fl ts n us
        → ident_tokens ts ≡ idents n ++ ident_tokens us
    IsComparison-idents (plain d) = IsIn-idents d
    IsComparison-idents (compared q d e) = simp (IsIn-idents d, IsIn-idents e, append_assoc)

    pub IsIn-idents :
        {ts us : List Token} {n : Node fl.Float}
        → IsIn fl ts n us
        → ident_tokens ts ≡ idents n ++ ident_tokens us
    IsIn-idents (no_in d) = IsUnary-idents d
    IsIn-idents (with_in d e) = simp (IsUnary-idents d, IsPrimary-idents e, append_assoc)

    pub IsUnary-idents :
        {ts us : List Token} {n : Node fl.Float}
        → IsUnary fl ts n us
        → ident_tokens ts ≡ idents n ++ ident_tokens us
    IsUnary-idents (no_bang d) = IsPrimary-idents d
    IsUnary-idents (negated d) = IsUnary-idents d

    pub IsPrimary-idents :
        {ts us : List Token} {n : Node fl.Float}
        → IsPrimary fl ts n us
        → ident_tokens ts ≡ idents n ++ ident_tokens us
    IsPrimary-idents (paren d) = IsOr-idents d
    IsPrimary-idents empty_array = refl
    IsPrimary-idents (full_array d) = IsElements-idents d
    IsPrimary-idents (a_number q) = refl
    IsPrimary-idents a_string = refl
    IsPrimary-idents a_bool = refl
    IsPrimary-idents an_ident = refl

    pub IsElements-idents :
        {ts us : List Token} {ms : Nodes fl.Float}
        → IsElements fl ts ms us
        → ident_tokens ts ≡ idents_list ms ++ ident_tokens us
    IsElements-idents (one_element {n} d) = simp append-nil (IsOr-idents d)
    IsElements-idents (more_elements {n} {ms} d e q) =
        simp (q, idents-snoc ms n, IsElements-idents d, IsOr-idents e, append_assoc)
