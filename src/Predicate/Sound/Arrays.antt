-- ===== src/Predicate/Sound/Arrays.antt =====
-- The arrays that `parseArrayLiteral` of internal/predicate/predicate.go builds are the grammar's.
use aat.Base.{ℕ, zero, suc, List, ◌∷◌, ◌≡◌, refl, length, ok, ◌>>=◌, bind-eq-ok, ok_cast}
use aat.Predicate.Token.{Token, lbracket, rbracket, comma}
use aat.Predicate.Syntax.{Floats, Node, Nodes, nil, cons, snoc}
use aat.Predicate.Parser.{Parse, close_bracket, array_loop, parse_array}
use aat.Predicate.Grammar.{
  IsOr, IsPrimary, empty_array, full_array, IsElements, one_element, more_elements,
}

module _ (fl : Floats) where
  close_bracket_sound :
      (ts rs us : List Token) (ms : Nodes fl.Float) (n : Node fl.Float)
      → IsElements fl ts ms rs
      → close_bracket fl ms rs ≡ ok (n, us)
      → IsPrimary fl (lbracket ∷ ts) n us
  close_bracket_sound ts (rbracket ∷ rs) us ms n d h =
      ok_cast (IsPrimary fl (lbracket ∷ ts)) h (full_array d)
  close_bracket_sound ts _ us ms n d h = absurd (cc)

  module _ (self : Parse fl)
      (sound : (ts us : List Token) (n : Node fl.Float)
        → self ts ≡ ok (n, us)
        → IsOr fl ts n us) where
    array_loop_sound :
        (k : ℕ) (ts rs us : List Token) (ms ns : Nodes fl.Float)
        → IsElements fl ts ms rs
        → array_loop fl self k ms rs ≡ ok (ns, us)
        → IsElements fl ts ns us
    unfolding array_loop
    array_loop_sound zero ts rs us ms ns d h = absurd (cc)
    array_loop_sound (suc k) ts (comma ∷ rs) us ms ns d h =
        let ((e, r), head, tail) = bind-eq-ok (self rs) _ h in
        array_loop_sound k ts r us (snoc ms e) ns (more_elements d (sound rs r e head) refl) tail
    array_loop_sound (suc k) ts rs us ms ns d h = ok_cast (IsElements fl ts) h d

    array_sound :
        (ts us : List Token) (n : Node fl.Float)
        → (self ts >>= λ p. array_loop fl self (suc (length p.1)) (cons p.0 nil) p.1 >>= λ q.
            close_bracket fl q.0 q.1)
          ≡ ok (n, us)
        → IsPrimary fl (lbracket ∷ ts) n us
    array_sound ts us n h =
        let ((e, r), head, tail) = bind-eq-ok (self ts) _ h in
        let ((ms, r'), looped, closed) =
          bind-eq-ok (array_loop fl self (suc (length r)) (cons e nil) r) _ tail in
        close_bracket_sound ts r' us ms n
          (array_loop_sound (suc (length r)) ts r r' (cons e nil) ms
            (one_element (sound ts r e head)) looped)
          closed

    pub parse_array_sound :
        (ts us : List Token) (n : Node fl.Float)
        → parse_array fl self ts ≡ ok (n, us)
        → IsPrimary fl (lbracket ∷ ts) n us
    unfolding parse_array
    parse_array_sound (rbracket ∷ ts) us n h =
        ok_cast (IsPrimary fl (lbracket ∷ rbracket ∷ ts)) h empty_array
    parse_array_sound ts us n h = array_sound ts us n h
