-- ===== src/Engine/Scheduler/Added.antt =====
-- The maps that the dependencies of the steps give (engine/scheduler.go).
use aat.Base.{
  ℕ, ◌+◌, ◌<◌, List, [], ◌∷◌, ◌++◌, true, false, if◌then◌else◌, ◌≡◌, sym, ap, ◌∙◌, inl, inr,
  Bool-cases, arith,
}
use aat.Base.Text.{Text, text_eq, text_eq→eq, text_eq_refl}
use aat.Graph.Names.{Name, mem, add_name, IsSetOf}
use aat.Graph.Topo.{Edge, update, no_edges}
use aat.Graph.Topo.Count.{mem-update}
use aat.Graph.Topo.Invariant.{IsCounted, no_edges-IsCounted, new_edge-IsCounted}
use aat.Graph.Topo.Edges.{Counts, HasEdge, IsRanked}
use aat.Engine.Scheduler.{Links, edge_key, add_dependency, add_dependencies}
use aat.Engine.Scheduler.Keys.{HasNoArrow, edge_key_injective}

add_name-new : (t : Name) (xs : List Name) → mem t xs ≡ false → xs ++ t ∷ [] ≡ add_name t xs
unfolding add_name
add_name-new t xs new = rw new

-- The links with one more edge.
abbrev linked : Name → Name → Links → Links
linked from to l = record {
  degrees = record {
    adj = update l.degrees.adj from (add_name to (l.degrees.adj from));
    in_deg = update l.degrees.in_deg to (l.degrees.in_deg to + 1);
  };
  edges = edge_key from to ∷ l.edges;
}

abbrev pub no_links : Links
no_links = record { degrees = no_edges; edges = [] }

abbrev link : List Name → Edge → Links → Links
link ids e l = if mem e.from ids then add_dependency e.from e.to l else l

-- Every dependent is among the edges that were added.
abbrev pub IsKeyed : Links → Type 0
IsKeyed l = (u v : Name) → mem v (l.degrees.adj u) ≡ true → mem (edge_key u v) l.edges ≡ true

data Link (ids : List Name) (e : Edge) (l : Links) : Type 0 where
  refused : ¬ Counts ids e → link ids e l ≡ l → Link ids e l
  known : Counts ids e → mem (edge_key e.from e.to) l.edges ≡ true → link ids e l ≡ l → Link ids e l
  added :
      Counts ids e
      → mem e.to (l.degrees.adj e.from) ≡ false
      → link ids e l ≡ linked e.from e.to l
      → Link ids e l

new_to :
    (l : Links) (e : Edge)
    → IsKeyed l
    → mem (edge_key e.from e.to) l.edges ≡ false
    → mem e.to (l.degrees.adj e.from) ≡ false
new_to l e h new = elim (Bool-cases (mem e.to (l.degrees.adj e.from))) [
  | inr out ↦ out
  | inl old ↦ absurd (let k = h e.from e.to old in cc)
]

link-cases :
    (ids : List Name) (e : Edge) (l : Links) → mem e.to ids ≡ true → IsKeyed l → Link ids e l
unfolding add_dependency
link-cases ids e l t h = elim (Bool-cases (mem e.from ids)) [
  | inr out ↦ refused (λ c. cc (c.from_in)) (rw out)
  | inl f ↦ elim (Bool-cases (text_eq e.from e.to)) [
    | inl same ↦ refused (λ c. cc (c.distinct)) (rw (f, same))
    | inr o ↦
        let c : Counts ids e = record { from_in = f; to_in = t; distinct = o } in
        elim (Bool-cases (mem (edge_key e.from e.to) l.edges)) [
          | inl old ↦ known c old (rw (f, o, old))
          | inr new ↦
              let out = new_to l e h new in
              added c out (
                rw (f, o, new)
                  (ap
                    (λ xs. record {
                      degrees = record {
                        adj = update l.degrees.adj e.from xs;
                        in_deg = update l.degrees.in_deg e.to (l.degrees.in_deg e.to + 1);
                      };
                      edges = edge_key e.from e.to ∷ l.edges;
                    })
                    (add_name-new e.to (l.degrees.adj e.from) out)))
        ]
  ]
]

-- The edges end at steps.
abbrev pub AreInto : List Name → List Edge → Type 0
AreInto ids [] = Unit
AreInto ids (e ∷ es) = (mem e.to ids ≡ true) × AreInto ids es

linked-IsKeyed : (e : Edge) (l : Links) → IsKeyed l → IsKeyed (linked e.from e.to l)
linked-IsKeyed e l h u v m = elim (Bool-cases (mem v (l.degrees.adj u))) [
  | inl old ↦ ground (arith, h u v old)
  | inr new ↦
      let here = mem-update l.degrees.adj e.from e.to v u in
      let first : e.from ≡ u = text_eq→eq e.from u (ground (arith, here, m, new)) in
      let last : e.to ≡ v = text_eq→eq e.to v (ground (arith, here, m, new)) in
      let key : text_eq (edge_key e.from e.to) (edge_key u v) ≡ true =
        ap (text_eq (edge_key e.from e.to))
          (ap (λ a. edge_key a v) (sym first) ∙ ap (edge_key e.from) (sym last))
        ∙ text_eq_refl (edge_key e.from e.to) in
      ground (arith, key)
]

link-IsKeyed :
    (ids : List Name) (e : Edge) (l : Links) → IsKeyed l → Link ids e l → IsKeyed (link ids e l)
link-IsKeyed ids e l k (refused n same) = rw same k
link-IsKeyed ids e l k (known n old same) = rw same k
link-IsKeyed ids e l k (added n new same) = rw same (linked-IsKeyed e l k)

-- A property of the links that a new edge keeps is kept by all edges.
module _ (ids : List Name) (P : Links → Type 0)
    (keep : (e : Edge) (l : Links) → IsKeyed l → Link ids e l → P l → P (link ids e l)) where
  add_dependencies_ind :
      (es : List Edge)
      → AreInto ids es
      → (l : Links) → IsKeyed l
      → P l
      → P (add_dependencies ids es l)
  unfolding add_dependencies
  add_dependencies_ind [] into l k p = p
  add_dependencies_ind (e ∷ es) (to_in, into) l k p =
      let c = link-cases ids e l to_in k in
      add_dependencies_ind es into (link ids e l) (link-IsKeyed ids e l k c) (keep e l k c p)

pub dependencies-IsCounted :
    (ids : List Name)
    → IsSetOf ids
    → (es : List Edge) → AreInto ids es
    → IsCounted ids (add_dependencies ids es no_links).degrees
dependencies-IsCounted ids unique es into =
    add_dependencies_ind ids (λ l. IsCounted ids l.degrees)
      (λ e l k a c. elim a [
        | refused n same ↦ rw same c
        | known n old same ↦ rw same c
        | added n new same ↦
            rw same (new_edge-IsCounted ids unique e.from e.to l.degrees c n.from_in n.to_in new)
      ])
      es into no_links (λ u v m. absurd (cc)) (no_edges-IsCounted ids)

pub dependencies-rank :
    (rank : Name → ℕ) (ids : List Name) (es : List Edge)
    → AreInto ids es
    → IsRanked rank ids es
    → (l : Links) → IsKeyed l
    → ((u v : Name) → mem v (l.degrees.adj u) ≡ true → rank u < rank v)
    → (u v : Name) → mem v ((add_dependencies ids es l).degrees.adj u) ≡ true
    → rank u < rank v
unfolding add_dependencies
dependencies-rank rank ids [] into r l k h = h
dependencies-rank rank ids (e ∷ es) (to_in, into) r l k h =
    let c = link-cases ids e l to_in k in
    dependencies-rank rank ids es into r.1 (link ids e l) (link-IsKeyed ids e l k c) (step c)
  where
    step :
        Link ids e l → (u v : Name) → mem v ((link ids e l).degrees.adj u) ≡ true → rank u < rank v
    step (refused n same) = rw same h
    step (known n old same) = rw same h
    step (added n new same) = rw same λ u v m. ground (
      arith,
      h u v,
      r.0 n,
      mem-update l.degrees.adj e.from e.to v u,
      text_eq→eq e.from u,
      text_eq→eq e.to v,
    )

key_kept :
    (ids : List Name) (key : Text) (es : List Edge)
    → AreInto ids es
    → (l : Links) → IsKeyed l
    → mem key l.edges ≡ true
    → mem key (add_dependencies ids es l).edges ≡ true
key_kept ids key =
    add_dependencies_ind ids (λ l. mem key l.edges ≡ true)
      (λ e l k a h. elim a [
        | refused n same ↦ rw same h
        | known n old same ↦ rw same h
        | added n new same ↦ rw same (ground (arith, h))
      ])

link-key :
    (ids : List Name) (e : Edge) (l : Links)
    → Counts ids e
    → Link ids e l
    → mem (edge_key e.from e.to) (link ids e l).edges ≡ true
link-key ids e l c (refused n same) = absurd (n c)
link-key ids e l c (known n old same) = rw same old
link-key ids e l c (added n new same) =
    rw same (ground (arith, text_eq_refl (edge_key e.from e.to)))

HasEdge-key :
    (ids : List Name) (es : List Edge)
    → AreInto ids es
    → (l : Links) → IsKeyed l
    → (u v : Name) → HasEdge ids es u v
    → mem (edge_key u v) (add_dependencies ids es l).edges ≡ true
unfolding add_dependencies
HasEdge-key ids [] into l k u v h = absurd h
HasEdge-key ids (e ∷ es) (to_in, into) l k u v (inl (c, p, q)) =
    let a = link-cases ids e l to_in k in
    key_kept ids (edge_key u v) es into (link ids e l) (link-IsKeyed ids e l k a)
      (rw (← p, ← q) (link-key ids e l c a))
HasEdge-key ids (e ∷ es) (to_in, into) l k u v (inr h) =
    HasEdge-key ids es into (link ids e l) (link-IsKeyed ids e l k (link-cases ids e l to_in k)) u v
      h

-- Between steps without the arrow, each key is that of one edge, which was added.
abbrev IsLinked : List Name → Links → Type 0
IsLinked ids l =
    (u v : Name)
    → mem u ids ≡ true
    → mem (edge_key u v) l.edges ≡ true
    → mem v (l.degrees.adj u) ≡ true

linked-IsLinked :
    (ids : List Name) (e : Edge) (l : Links)
    → HasNoArrow ids
    → Counts ids e
    → IsLinked ids l
    → IsLinked ids (linked e.from e.to l)
linked-IsLinked ids e l plain c h u v hu m =
    elim (Bool-cases (text_eq (edge_key e.from e.to) (edge_key u v))) [
      | inl same ↦
          let (first, last) =
            edge_key_injective e.from e.to u v (plain e.from c.from_in) (plain u hu)
              (text_eq→eq (edge_key e.from e.to) (edge_key u v) same) in
          ground (
            arith,
            mem-update l.degrees.adj e.from e.to v u,
            ap (text_eq e.from) (sym first) ∙ text_eq_refl e.from,
            ap (text_eq e.to) (sym last) ∙ text_eq_refl e.to,
          )
      | inr other ↦
          ground (arith, mem-update l.degrees.adj e.from e.to v u, h u v hu (simp other at m))
    ]

pub HasEdge-linked :
    (ids : List Name)
    → HasNoArrow ids
    → (es : List Edge) → AreInto ids es
    → (u v : Name) → mem u ids ≡ true
    → HasEdge ids es u v
    → mem v ((add_dependencies ids es no_links).degrees.adj u) ≡ true
HasEdge-linked ids plain es into u v hu h =
    add_dependencies_ind ids (IsLinked ids)
      (λ e l k a p. elim a [
        | refused n same ↦ rw same p
        | known n old same ↦ rw same p
        | added n new same ↦ rw same (linked-IsLinked ids e l plain n p)
      ])
      es into no_links (λ x y m. absurd (cc)) (λ x y hx m. absurd (cc)) u v hu
      (HasEdge-key ids es into no_links (λ x y m. absurd (cc)) u v h)
