-- ===== src/Graph/Topo/Edges.antt =====
-- What `addEdge` makes of the ordering edges: the adjacency holds each that counts, and no other.
use aat.Base.{ℕ, ◌+◌, ◌<◌, List, [], ◌∷◌, true, false, ◌≡◌, ◌⊎◌, inl, inr, Bool-cases, arith}
use aat.Base.Text.{text_eq, text_eq→eq, text_eq_refl}
use aat.Graph.Names.{Name, mem, add_name, IsSetOf}
use aat.Graph.Topo.{Edge, Degrees, update, add_edge, add_edges}
use aat.Graph.Topo.Count.{mem-update}
use aat.Graph.Topo.Invariant.{IsCounted, new_edge-IsCounted}

-- An edge that `addEdge` does not refuse.
pub record Counts (nodes : List Name) (e : Edge) : Type 0 where
  pub from_in : mem e.from nodes ≡ true
  pub to_in : mem e.to nodes ≡ true
  pub distinct : text_eq e.from e.to ≡ false

-- The three outcomes of `addEdge`.
pub data Added (nodes : List Name) (e : Edge) (d : Degrees) : Type 0 where
  refused : ¬ Counts nodes e → add_edge nodes e d ≡ d → Added nodes e d
  known : Counts nodes e → mem e.to (d.adj e.from) ≡ true → add_edge nodes e d ≡ d → Added nodes e d
  added :
      Counts nodes e
      → mem e.to (d.adj e.from) ≡ false
      → add_edge nodes e d ≡ record {
        adj = update d.adj e.from (add_name e.to (d.adj e.from));
        in_deg = update d.in_deg e.to (d.in_deg e.to + 1);
      }
      → Added nodes e d

pub add_edge-cases : (nodes : List Name) (e : Edge) (d : Degrees) → Added nodes e d
unfolding add_edge
add_edge-cases nodes e d = elim (Bool-cases (mem e.from nodes)) [
  | inr out ↦ refused (λ c. cc (c.from_in)) (rw out)
  | inl f ↦ elim (Bool-cases (mem e.to nodes)) [
    | inr out ↦ refused (λ c. cc (c.to_in)) (rw (f, out))
    | inl t ↦ elim (Bool-cases (text_eq e.from e.to)) [
      | inl same ↦ refused (λ c. cc (c.distinct)) (rw (f, t, same))
      | inr o ↦
          let c : Counts nodes e = record { from_in = f; to_in = t; distinct = o } in
          elim (Bool-cases (mem e.to (d.adj e.from))) [
            | inl old ↦ known c old (rw (f, t, o, old))
            | inr new ↦ added c new (rw (f, t, o, new))
          ]
    ]
  ]
]

-- A property of the maps that a new edge keeps is kept by all edges.
module _ (P : Degrees → Type 0) (nodes : List Name)
    (keep : (e : Edge) (d : Degrees) → Added nodes e d → P d → P (add_edge nodes e d)) where
  pub add_edges_ind : (es : List Edge) (d : Degrees) → P d → P (add_edges nodes es d)
  unfolding add_edges
  add_edges_ind [] d p = p
  add_edges_ind (e ∷ es) d p =
      add_edges_ind es (add_edge nodes e d) (keep e d (add_edge-cases nodes e d) p)

pub add_edges-IsCounted :
    (nodes : List Name)
    → IsSetOf nodes
    → (es : List Edge) (d : Degrees) → IsCounted nodes d
    → IsCounted nodes (add_edges nodes es d)
add_edges-IsCounted nodes unique = add_edges_ind (IsCounted nodes) nodes λ e d a c. elim a [
  | refused n same ↦ rw same c
  | known n old same ↦ rw same c
  | added n new same ↦
      rw same (new_edge-IsCounted nodes unique e.from e.to d c n.from_in n.to_in new)
]

-- What is in the adjacency of the maps stays there.
edge_kept :
    (nodes : List Name) (u v : Name) (es : List Edge) (d : Degrees)
    → mem v (d.adj u) ≡ true
    → mem v ((add_edges nodes es d).adj u) ≡ true
edge_kept nodes u v =
    add_edges_ind (λ d. mem v (d.adj u) ≡ true) nodes
      λ e d a h. elim a [
        | refused n same ↦ rw same h
        | known n old same ↦ rw same h
        | added n new same ↦ rw same (ground (arith, mem-update d.adj e.from e.to v u))
      ]

-- An edge between two nodes of the set, and not from a node to itself.
abbrev pub HasEdge : List Name → List Edge → Name → Name → Type 0
HasEdge nodes [] u v = ⊥
HasEdge nodes (e ∷ es) u v = (Counts nodes e × (e.from ≡ u) × (e.to ≡ v)) ⊎ HasEdge nodes es u v

add_edge-mem :
    (nodes : List Name) (e : Edge) (d : Degrees)
    → Counts nodes e
    → mem e.to ((add_edge nodes e d).adj e.from) ≡ true
add_edge-mem nodes e d c = elim (add_edge-cases nodes e d) [
  | refused n same ↦ absurd (n c)
  | known n old same ↦ rw same old
  | added n new same ↦ rw same (
      ground
        (arith, mem-update d.adj e.from e.to e.to e.from, text_eq_refl e.from, text_eq_refl e.to))
]

pub HasEdge-mem :
    (nodes : List Name) (es : List Edge) (d : Degrees) (u v : Name)
    → HasEdge nodes es u v
    → mem v ((add_edges nodes es d).adj u) ≡ true
unfolding add_edges
HasEdge-mem nodes [] d u v h = absurd h
HasEdge-mem nodes (e ∷ es) d u v (inl (c, p, q)) =
    edge_kept nodes u v es (add_edge nodes e d) (rw (← p, ← q) (add_edge-mem nodes e d c))
HasEdge-mem nodes (e ∷ es) d u v (inr h) = HasEdge-mem nodes es (add_edge nodes e d) u v h

-- `rank` grows along every edge that counts, so these edges make no cycle.
abbrev pub IsRanked : (Name → ℕ) → List Name → List Edge → Type 0
IsRanked rank nodes [] = Unit
IsRanked rank nodes (e ∷ es) = (Counts nodes e → rank e.from < rank e.to) × IsRanked rank nodes es

pub add_edges-rank :
    (rank : Name → ℕ) (nodes : List Name) (es : List Edge) (d : Degrees)
    → IsRanked rank nodes es
    → ((u v : Name) → mem v (d.adj u) ≡ true → rank u < rank v)
    → (u v : Name) → mem v ((add_edges nodes es d).adj u) ≡ true
    → rank u < rank v
unfolding add_edges
add_edges-rank rank nodes [] d r h = h
add_edges-rank rank nodes (e ∷ es) d r h =
    add_edges-rank rank nodes es (add_edge nodes e d) r.1 (step (add_edge-cases nodes e d))
  where
    step :
        Added nodes e d → (u v : Name) → mem v ((add_edge nodes e d).adj u) ≡ true → rank u < rank v
    step (refused n same) = rw same h
    step (known n old same) = rw same h
    step (added n new same) = rw same λ u v m. ground (
      arith,
      h u v,
      r.0 n,
      mem-update d.adj e.from e.to v u,
      text_eq→eq e.from u,
      text_eq→eq e.to v,
    )
