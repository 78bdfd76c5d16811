-- ===== src/Graph/Layer/Keys.antt =====
-- The keys `node.input` of graph/layer.go: a node's name without a dot can be read off its keys.
use aat.Base.{
  [], ◌∷◌, false, ◌==◌, some, some_injective, ◌≡◌, refl, sym, ap, ◌∙◌, inl, inr, Bool-cases,
  Option-cases, subst, ==_iff, arith,
}
use aat.Base.Text.{Text}
use aat.Graph.Names.{Name}
use aat.Graph.Layer.{cut_dot, cons_before, has_dot, key_of}

pub cut_dot-key_of :
    (node input : Name) → has_dot node ≡ false → cut_dot (key_of node input) ≡ some (node, input)
unfolding cut_dot
cut_dot-key_of [] input h = refl
cut_dot-key_of (c ∷ node) input h = elim (Bool-cases (c == b'.')) [
  | inl dot ↦ absurd (ground (arith, h, dot))
  | inr other ↦
      simp other (ap (cons_before c) (cut_dot-key_of node input (ground (arith, h, other))))
]

-- What `cut_dot` returns of `key`.
abbrev Cuts : Text → Text × Text → Type 0
Cuts key (node, input) = (key ≡ key_of node input) × (has_dot node ≡ false)

pub cut_dot-eq-some :
    (key node input : Name)
    → cut_dot key ≡ some (node, input)
    → (key ≡ key_of node input) × (has_dot node ≡ false)
unfolding cut_dot
cut_dot-eq-some [] node input h = absurd (cc)
cut_dot-eq-some (c ∷ s) node input h = elim (Bool-cases (c == b'.')) [
  | inl dot ↦
      let same = some_injective ([], s) (node, input) (simp dot at h) in
      subst (Cuts (c ∷ s)) same (ap (λ d. d ∷ s) ((==_iff c b'.').0 dot), refl)
  | inr other ↦ elim (Option-cases (cut_dot s)) [
    | inl whole ↦ absurd (cc (simp (other, whole) at h))
    | inr ((before, after), cut) ↦
        let (e, dotless) = cut_dot-eq-some s before after cut in
        let same = some_injective (c ∷ before, after) (node, input) (simp (other, cut) at h) in
        subst (Cuts (c ∷ s)) same (ap (λ t. c ∷ t) e, ground (arith, other, dotless))
  ]
]

pub key_of_injective :
    (node node' input input' : Name)
    → has_dot node ≡ false
    → has_dot node' ≡ false
    → key_of node input ≡ key_of node' input'
    → (node ≡ node') × (input ≡ input')
key_of_injective node node' input input' h h' e =
    let same =
      some_injective (node, input) (node', input')
        (sym (cut_dot-key_of node input h) ∙ ap cut_dot e ∙ cut_dot-key_of node' input' h') in
    (ap (λ p. p.0) same, ap (λ p. p.1) same)
