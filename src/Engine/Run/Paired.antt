-- ===== src/Engine/Run/Paired.antt =====
-- The nodes that `pairedCleanupNodes` of engine/engine.go collects.
use aat.Base.{
  some_injective, ℕ, zero, suc, ◌+◌, ◌≤◌, ◌<◌, List, [], ◌∷◌, true, false, if◌then◌else◌, Option,
  none, some, length, ◌≡◌, refl, sym, ap, ◌∙◌, subst, ◌⊎◌, inl, inr, Bool-cases, arith,
}
use aat.Base.Text.{text_eq, text_eq→eq, text_eq_refl}
use aat.Graph.Names.{Name, mem, add_name}
use aat.Graph.Names.Sets.{mem-add}
use aat.Engine.Routing.{lookup}
use aat.Engine.Steps.{Node, Step}
use aat.Engine.Cleanup.Skip.{is_empty}
use aat.Engine.Execute.{Engine}
use aat.Engine.Run.Cleaning.{pair_chain, paired_cleanup_nodes}

-- The cleanup that a graph declares for the node `name` is among `paired`.
abbrev pub Leads : List (Name × Node) → List Name → Name → Type 0
Leads nodes paired name =
    (node : Node)
    → lookup name nodes ≡ some node
    → is_empty node.cleanup.node ≡ false
    → mem node.cleanup.node paired ≡ true

abbrev pub IsClosed : List (Name × Node) → List Name → Type 0
IsClosed nodes paired = (name : Name) → mem name paired ≡ true → Leads nodes paired name

abbrev Within : List Name → List Name → Type 0
Within xs ys = (name : Name) → mem name xs ≡ true → mem name ys ≡ true

abbrev pub Leading : List (Name × Node) → List Step → List Name → Type 0
Leading nodes [] paired = Unit
Leading nodes (s ∷ ss) paired = Leads nodes paired s.node × Leading nodes ss paired

-- The declared nodes that are not among `paired`.
abbrev unpaired : List (Name × Node) → List Name → ℕ
unpaired [] paired = zero
unpaired ((name, node) ∷ nodes) paired =
    let rest = unpaired nodes paired in if mem name paired then rest else suc rest

unpaired-length :
    (nodes : List (Name × Node)) (paired : List Name) → unpaired nodes paired ≤ length nodes
unpaired-length [] paired = omega arith
unpaired-length ((name, node) ∷ nodes) paired = ground (arith, unpaired-length nodes paired)

unpaired-add :
    (nodes : List (Name × Node)) (c : Name) (paired : List Name)
    → unpaired nodes (add_name c paired) ≤ unpaired nodes paired
unpaired-add [] c paired = omega arith
unpaired-add ((name, node) ∷ nodes) c paired =
    ground (arith, unpaired-add nodes c paired, mem-add name c paired)

unpaired-found :
    (nodes : List (Name × Node)) (c : Name) (paired : List Name) (found : Node)
    → mem c paired ≡ false
    → lookup c nodes ≡ some found
    → unpaired nodes (add_name c paired) < unpaired nodes paired
unpaired-found [] c paired found fresh h = absurd (cc)
unpaired-found ((name, node) ∷ nodes) c paired found fresh h = elim (Bool-cases (text_eq name c)) [
  | inl same ↦
      let equal = text_eq→eq name c same in
      let out : mem name paired ≡ false = ap (λ n. mem n paired) equal ∙ fresh in
      let in_it : mem name (add_name c paired) ≡ true =
        ground (arith, mem-add name c paired, ap (λ n. text_eq c n) equal, text_eq_refl c) in
      simp (out, in_it) (omega (arith, unpaired-add nodes c paired))
  | inr other ↦
      let later = unpaired-found nodes c paired found fresh (simp other at h) in
      ground (arith, later, mem-add name c paired)
]

Leads-Within :
    (nodes : List (Name × Node)) (xs ys : List Name) (name : Name)
    → Within xs ys
    → Leads nodes xs name
    → Leads nodes ys name
Leads-Within nodes xs ys name within leads node found some_cleanup =
    within node.cleanup.node (leads node found some_cleanup)

module _ {V X E B : Type 0} (e : Engine V X E B) where
  abbrev Enough : ℕ → Option Node → List Name → Type 0
  Enough fuel none paired = 0 < fuel
  Enough fuel (some _) paired = unpaired e.nodes paired + 1 < fuel

  -- Every paired node but `name` leads into `paired`.
  abbrev ClosedBut : Name → List Name → Type 0
  ClosedBut name paired = (x : Name) → mem x paired ≡ true → (x ≡ name) ⊎ Leads e.nodes paired x

  abbrev Closes : Name → List Name → List Name → Type 0
  Closes name before paired =
      IsClosed e.nodes paired × Leads e.nodes paired name × Within before paired

  Closes-here :
      (name : Name) (paired : List Name)
      → ClosedBut name paired
      → Leads e.nodes paired name
      → Closes name paired paired
  Closes-here name paired but leads = (
    λ x h. elim (but x h) [
      | inl same ↦ subst (Leads e.nodes paired) (sym same) leads
      | inr closed ↦ closed
    ],
    leads,
    λ x h. h,
  )

  Enough-next :
      (fuel : ℕ) (c : Name) (found : Option Node) (paired : List Name)
      → lookup c e.nodes ≡ found
      → mem c paired ≡ false
      → unpaired e.nodes paired < fuel
      → Enough fuel found (add_name c paired)
  Enough-next fuel c none paired h fresh enough = omega (arith, enough)
  Enough-next fuel c (some node) paired h fresh enough =
      omega (arith, enough, unpaired-found e.nodes c paired node fresh h)

  pair_chain-Closes :
      (fuel : ℕ) (name : Name) (found : Option Node) (paired : List Name)
      → lookup name e.nodes ≡ found
      → Enough fuel found paired
      → ClosedBut name paired
      → Closes name paired (pair_chain e fuel found paired)
  unfolding pair_chain
  pair_chain-Closes zero name none paired h enough but = absurd (omega (arith, enough))
  pair_chain-Closes zero name (some node) paired h enough but = absurd (omega (arith, enough))
  pair_chain-Closes (suc fuel) name none paired h enough but =
      Closes-here name paired but (λ node found _. absurd (cc))
  pair_chain-Closes (suc fuel) name (some node) paired h enough but =
      elim (Bool-cases (is_empty node.cleanup.node)) [
        | inl nothing ↦
            simp nothing (Closes-here name paired but (λ node' found some_cleanup. absurd (cc)))
        | inr something ↦ elim (Bool-cases (mem c paired)) [
          | inl known ↦
              simp (something, known) (Closes-here name paired but (leads_on paired known))
          | inr fresh ↦
              let (closed, leads, within) =
                pair_chain-Closes fuel c (lookup c e.nodes) (add_name c paired) refl
                  (Enough-next fuel c (lookup c e.nodes) paired refl fresh (omega (arith, enough)))
                  but_c in
              simp (something, fresh)
                (closed, leads_on _ (within c added), λ x m. within x (kept x m))
        ]
      ]
    where
      c : Name
      c = node.cleanup.node

      added : mem c (add_name c paired) ≡ true
      added = ground (arith, mem-add c c paired, text_eq_refl c)

      kept : Within paired (add_name c paired)
      kept x m = ground (arith, mem-add x c paired, m)

      leads_on : (ys : List Name) → mem c ys ≡ true → Leads e.nodes ys name
      leads_on ys m node' found some_cleanup =
          simp (sym (some_injective node node' (sym h ∙ found))) m

      but_c : ClosedBut c (add_name c paired)
      but_c x m = elim (Bool-cases (text_eq c x)) [
        | inl same ↦ inl (sym (text_eq→eq c x same))
        | inr other ↦ elim (but x (ground (arith, mem-add x c paired, m, other))) [
          | inl top ↦ inr (subst (Leads e.nodes (add_name c paired)) (sym top) (leads_on _ added))
          | inr leads ↦ inr (Leads-Within e.nodes paired (add_name c paired) x kept leads)
        ]
      ]

  paired_from :
      (steps : List Step) (paired : List Name)
      → IsClosed e.nodes paired
      → let all = paired_cleanup_nodes e steps paired in
        IsClosed e.nodes all × Leading e.nodes steps all × Within paired all
  unfolding paired_cleanup_nodes
  paired_from [] paired closed = (closed, tt, λ x m. m)
  paired_from (s ∷ ss) paired closed =
      let (closed', leads, within) =
        pair_chain-Closes (suc (suc (length e.nodes))) s.node (lookup s.node e.nodes) paired refl
          (Enough-first (lookup s.node e.nodes)) (λ x m. inr (closed x m)) in
      let (all_closed, leading, within_all) = paired_from ss _ closed' in
      (
        all_closed,
        (Leads-Within e.nodes _ _ s.node within_all leads, leading),
        λ x m. within_all x (within x m),
      )
    where
      Enough-first : (found : Option Node) → Enough (suc (suc (length e.nodes))) found paired
      Enough-first none = omega arith
      Enough-first (some node) = omega (arith, unpaired-length e.nodes paired)

-- The nodes paired with a plan's steps hold the declared cleanup of each step's node, and with
-- each node its own declared cleanup.
pub paired_cleanup_nodes-IsClosed :
    {V X E B : Type 0} (e : Engine V X E B) (steps : List Step)
    → let paired = paired_cleanup_nodes e steps [] in
      IsClosed e.nodes paired × Leading e.nodes steps paired
paired_cleanup_nodes-IsClosed e steps =
    let (closed, leading, _) = paired_from e steps [] (λ x m. absurd (cc)) in (closed, leading)
