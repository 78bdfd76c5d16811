-- ===== src/Engine/Status/RoundTrip.antt =====
-- What is written of an expected status is read back as the same status
-- (config/expected_status.go).
use aat.Base.{
  some_injective, ℕ, zero, suc, ◌+◌, ◌-◌, ◌≤◌, ◌<◌, List, [], ◌∷◌, ◌&&◌, leb, Option, none, some,
  ◌≡◌, refl, subst, sym, ap, ◌∙◌, inl, inr, Bool-cases, arith, length,
}
use aat.Base.Text.{Text, codes, text_eq}
use aat.Base.Decimal.{decimal, decimal_digits}
use aat.Engine.Failure.{
  ExpectedStatus, code_names, code_by_name, search_names, fold_name, equal_fold,
}
use aat.Engine.Status.{
  Written, text, number, class_of, of_class, of_code, parse_expected_status, marshal, kept,
  unmarshal_json,
}

search_names-lt :
    (key : Text) (code c : ℕ) (names : List Text)
    → search_names key code names ≡ some c
    → c < code + length names
search_names-lt key code c [] h = absurd (cc)
search_names-lt key code c (n ∷ ns) h = elim (Bool-cases (text_eq (fold_name n) key)) [
  | inl here ↦
      let found : some code ≡ some c = rw here at h in let e : code ≡ c = cc in omega (arith, e)
  | inr later ↦
      let rest : search_names key (suc code) ns ≡ some c = rw later at h in
      omega (arith, search_names-lt key (suc code) c ns rest)
]

parse_expected_status-of_class :
    (c : ℕ) → 1 ≤ c → c ≤ 5 → parse_expected_status (marshal (of_class c)) ≡ some (of_class c)
unfolding parse_expected_status marshal class_of decimal decimal_digits
parse_expected_status-of_class zero a b = absurd (omega (arith, a))
parse_expected_status-of_class (suc zero) a b = refl
parse_expected_status-of_class (suc (suc zero)) a b = refl
parse_expected_status-of_class (suc (suc (suc zero))) a b = refl
parse_expected_status-of_class (suc (suc (suc (suc zero)))) a b = refl
parse_expected_status-of_class (suc (suc (suc (suc (suc zero))))) a b = refl
parse_expected_status-of_class (suc (suc (suc (suc (suc (suc n)))))) a b = absurd (omega (arith, b))

parse_expected_status-of_code :
    (c : ℕ) → c < 17 → parse_expected_status (marshal (of_code c)) ≡ some (of_code c)
unfolding parse_expected_status marshal class_of code_by_name fold_name
parse_expected_status-of_code zero h = refl
parse_expected_status-of_code (suc zero) h = refl
parse_expected_status-of_code (suc (suc zero)) h = refl
parse_expected_status-of_code (suc (suc (suc zero))) h = refl
parse_expected_status-of_code (suc (suc (suc (suc zero)))) h = refl
parse_expected_status-of_code (suc (suc (suc (suc (suc zero))))) h = refl
parse_expected_status-of_code (suc (suc (suc (suc (suc (suc zero)))))) h = refl
parse_expected_status-of_code (suc (suc (suc (suc (suc (suc (suc zero))))))) h = refl
parse_expected_status-of_code (suc (suc (suc (suc (suc (suc (suc (suc zero)))))))) h = refl
parse_expected_status-of_code (suc (suc (suc (suc (suc (suc (suc (suc (suc zero))))))))) h = refl
parse_expected_status-of_code (suc (suc (suc (suc (suc (suc (suc (suc (suc (suc zero)))))))))) h =
    refl
parse_expected_status-of_code (suc (suc (suc (suc (suc (suc (suc (suc (suc (suc (suc zero)))))))))))
      h =
    refl
parse_expected_status-of_code
      (suc (suc (suc (suc (suc (suc (suc (suc (suc (suc (suc (suc zero)))))))))))) h =
    refl
parse_expected_status-of_code
      (suc (suc (suc (suc (suc (suc (suc (suc (suc (suc (suc (suc (suc zero))))))))))))) h =
    refl
parse_expected_status-of_code
      (suc (suc (suc (suc (suc (suc (suc (suc (suc (suc (suc (suc (suc (suc zero)))))))))))))) h =
    refl
parse_expected_status-of_code
      (suc (suc (suc (suc (suc (suc (suc (suc (suc (suc (suc (suc (suc (suc (suc zero)))))))))))))))
      h =
    refl
parse_expected_status-of_code
      (suc (
        suc
          (suc (suc (suc (suc (suc (suc (suc (suc (suc (suc (suc (suc (suc (suc zero))))))))))))))))
      h =
    refl
parse_expected_status-of_code
      (suc (
        suc (
          suc
            (suc (suc (suc (suc (suc (suc (suc (suc (suc (suc (suc (suc (suc (suc n)))))))))))))))))
      h =
    absurd (omega (arith, h))

code_by_name-lt : (t : Text) (c : ℕ) → code_by_name t ≡ some c → c < 17
unfolding code_by_name
code_by_name-lt t c h = elim (Bool-cases (text_eq (fold_name t) (codes "CANCELED"))) [
  | inl one_l ↦
      let found : some 1 ≡ some c = rw one_l at h in let e : 1 ≡ c = cc in omega (arith, e)
  | inr other ↦ search_names-lt (fold_name t) 0 c code_names (rw other at h)
]

class_of-range : (t : Text) (c : ℕ) → class_of t ≡ some c → (1 ≤ c) × (c ≤ 5)
unfolding class_of
class_of-range [] c h = absurd (cc)
class_of-range (d ∷ []) c h = absurd (cc)
class_of-range (d ∷ x ∷ []) c h = absurd (cc)
class_of-range (d ∷ x ∷ y ∷ z ∷ s) c h = absurd (cc)
class_of-range (d ∷ x ∷ y ∷ []) c h =
    elim (Bool-cases (leb b'1' d && leb d b'5' && equal_fold (x ∷ y ∷ []) (codes "xx"))) [
      | inl class ↦
          let found : some (d - b'0') ≡ some c = rw class at h in
          let e : d - b'0' ≡ c = cc in (ground (arith, class, e), ground (arith, class, e))
      | inr other ↦ let none_found : none ≡ some c = rw other at h in absurd (cc)
    ]

text-marshal :
    (t : Text) (class code : Option ℕ) (e : ExpectedStatus)
    → class_of t ≡ class
    → code_by_name t ≡ code
    → parse_expected_status (text t) ≡ some e
    → parse_expected_status (marshal e) ≡ some e
unfolding parse_expected_status
text-marshal t (some c) code e hc hn h =
    let found : some (of_class c) ≡ some e = rw hc at h in
    let same : of_class c ≡ e = some_injective (of_class c) e found in
    subst (λ x. parse_expected_status (marshal x) ≡ some x) same
      (parse_expected_status-of_class c (class_of-range t c hc).0 (class_of-range t c hc).1)
text-marshal t none (some c) e hc hn h =
    let found : some (of_code c) ≡ some e = rw (hc, hn) at h in
    let same : of_code c ≡ e = some_injective (of_code c) e found in
    subst (λ x. parse_expected_status (marshal x) ≡ some x) same
      (parse_expected_status-of_code c (code_by_name-lt t c hn))
text-marshal t none none e hc hn h = let found : none ≡ some e = rw (hc, hn) at h in absurd (cc)

number-parsed :
    (n : ℕ) (e : ExpectedStatus)
    → parse_expected_status (number n) ≡ some e
    → some (record { code = n; name = []; class = 0 }) ≡ some e
unfolding parse_expected_status
number-parsed n e h = h

number-marshal :
    (n : ℕ)
    → parse_expected_status (marshal (record { code = n; name = []; class = 0 }))
      ≡ some (record { code = n; name = []; class = 0 })
unfolding parse_expected_status marshal
number-marshal n = refl

-- What is written of a status that was read, as a number, a class or a name in any spelling, is
-- read back as the same status.
pub parse_expected_status-marshal :
    (w : Written) (e : ExpectedStatus)
    → parse_expected_status w ≡ some e
    → parse_expected_status (marshal e) ≡ some e
parse_expected_status-marshal (text t) e h =
    text-marshal t (class_of t) (code_by_name t) e refl refl h
parse_expected_status-marshal (number n) e h =
    subst (λ x. parse_expected_status (marshal x) ≡ some x)
      (some_injective _ e (number-parsed n e h)) (number-marshal n)

unmarshal_json-parsed :
    (w : Written) (e : ExpectedStatus) → parse_expected_status w ≡ some e → unmarshal_json w ≡ e
unfolding unmarshal_json
unmarshal_json-parsed w e h = ap (kept w) h

unmarshal_json-unknown :
    (t : Text)
    → parse_expected_status (text t) ≡ none
    → unmarshal_json (marshal (record { code = 0; name = t; class = 0 }))
      ≡ record { code = 0; name = t; class = 0 }
unfolding unmarshal_json marshal parse_expected_status
unmarshal_json-unknown [] h = refl
unmarshal_json-unknown (c ∷ t) h = ap (kept (text (c ∷ t))) h

unmarshal_json-none :
    (t : Text)
    → parse_expected_status (text t) ≡ none
    → unmarshal_json (text t) ≡ record { code = 0; name = t; class = 0 }
unfolding unmarshal_json
unmarshal_json-none t h = ap (kept (text t)) h

never :
    (n : ℕ)
    → parse_expected_status (number n) ≡ none
    → unmarshal_json (marshal (unmarshal_json (number n))) ≡ unmarshal_json (number n)
unfolding parse_expected_status
never n h = absurd (cc)

read_back :
    (w : Written) (o : Option ExpectedStatus)
    → parse_expected_status w ≡ o
    → unmarshal_json (marshal (unmarshal_json w)) ≡ unmarshal_json w
read_back w (some e) h =
    let is_e : unmarshal_json w ≡ e = unmarshal_json-parsed w e h in
    ap (λ x. unmarshal_json (marshal x)) is_e
    ∙ unmarshal_json-parsed (marshal e) e (parse_expected_status-marshal w e h)
    ∙ sym is_e
read_back (text t) none h =
    let is_name : unmarshal_json (text t) ≡ record { code = 0; name = t; class = 0 } =
      unmarshal_json-none t h in
    ap (λ x. unmarshal_json (marshal x)) is_name ∙ unmarshal_json-unknown t h ∙ sym is_name
read_back (number n) none h = never n h

-- A status that an archive holds is read, written and read again as the same status, also when its
-- name is not known.
pub unmarshal_json-marshal :
    (w : Written) → unmarshal_json (marshal (unmarshal_json w)) ≡ unmarshal_json w
unmarshal_json-marshal w = read_back w (parse_expected_status w) refl
