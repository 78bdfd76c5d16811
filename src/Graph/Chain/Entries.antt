-- ===== src/Graph/Chain/Entries.antt =====
-- The entry nodes of a chain (graph/chain.go).
use aat.Base.{List, [], ◌∷◌, ◌++◌, true, false, ◌&&◌, not, ◌≡◌, All, ok, arith}
use aat.Base.Text.{text_eq}
use aat.Graph.Names.{Name, mem, select}
use aat.Graph.Names.Sets.{mem-select}
use aat.Graph.Topo.{Edge}
use aat.Graph.Model.{Graph}
use aat.Graph.Chain.{ChainOptions, ChainResult, RequiresEdge}
use aat.Graph.Chain.Select.{ordering_edges, condition_edges, has_incoming}
use aat.Graph.Chain.Backward.{virtual_edges, backward_chain}
use aat.Graph.Chain.Correct.{phases, built, included, edges, Inside, filter_edges-Inside}

has_incoming-append_right :
    (nodes : List Name) (v : Name) (xs ys : List Edge)
    → has_incoming nodes v (xs ++ ys) ≡ false
    → has_incoming nodes v ys ≡ false
unfolding has_incoming
has_incoming-append_right nodes v [] ys h = h
has_incoming-append_right nodes v (x ∷ xs) ys h =
    has_incoming-append_right nodes v xs ys (ground arith)

has_incoming-ordering_edges :
    (nodes : List Name) (v : Name) (es : List RequiresEdge)
    → All (Inside nodes) es
    → has_incoming nodes v (ordering_edges es) ≡ false
    → All (λ e. text_eq e.to v ≡ false) es
unfolding has_incoming
has_incoming-ordering_edges nodes v [] i h = tt
has_incoming-ordering_edges nodes v (e ∷ es) ((f, t), i) h =
    (ground arith, has_incoming-ordering_edges nodes v es i (ground arith))

-- An entry node of a chain is one of its nodes, and no requirement edge of the chain ends in it.
pub backward_chain-entry_nodes :
    (g : Graph) (opts : ChainOptions) (r : ChainResult) (v : Name)
    → backward_chain g opts ≡ ok r
    → mem v r.entry_nodes ≡ true
    → (mem v r.nodes ≡ true) × All (λ e. text_eq e.to v ≡ false) r.requires_edges
backward_chain-entry_nodes g opts r v h m =
    let p = phases g opts r h in
    let nodes = included g opts r p in
    let es = edges g opts r p in
    let virtual = virtual_edges nodes p.conds es in
    let b = built g opts r p in
    let entry : mem v (select (λ n. not (has_incoming nodes n virtual)) r.nodes) ≡ true =
      rw (← b.entries) m in
    let both : (mem v r.nodes && not (has_incoming nodes v virtual)) ≡ true =
      rw (← mem-select v (λ n. not (has_incoming nodes n virtual)) r.nodes) entry in
    (
      ground arith,
      rw (b.same_edges) (
          has_incoming-ordering_edges nodes v es (filter_edges-Inside nodes _) (
            has_incoming-append_right nodes v (condition_edges nodes p.conds.included)
              (ordering_edges es) (ground arith))),
    )
