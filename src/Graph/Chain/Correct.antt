-- ===== src/Graph/Chain/Correct.antt =====
-- What `BackwardChain` promises of its result.
use aat.Base.{
  List, [], ◌∷◌, ◌++◌, true, ◌&&◌, ◌||◌, not, ◌≡◌, refl, sym, subst, ◌⊎◌, inl, inr, Bool-cases,
  arith, Outcome, ok, err, bind-eq-ok, All, All-map, ◌≤◌,
}
use aat.Base.Text.{text_eq}
use aat.Graph.Names.{Name, mem, occ, IsSetOf, select}
use aat.Graph.Names.Sets.{mem-append, mem-select, select-IsSetOf}
use aat.Graph.Names.Sizes.{mem-eq_of_occ}
use aat.Graph.Topo.{Edge, TopoError, chain_topo_sort}
use aat.Graph.Topo.Edges.{HasEdge}
use aat.Graph.Topo.Loop.{precedes}
use aat.Graph.Topo.Order.{chain_topo_sort-occ, chain_topo_sort-precedes}
use aat.Graph.Model.{Graph}
use aat.Graph.Chain.{
  ChainOptions, RequiresEdge, ChainResult, check_goals, Conditions, eval_conditions, Search,
  ChainDecision,
}
use aat.Graph.Chain.Select.{
  Selection, compute_reachable, filter_edges, ordering_edges, condition_edges, has_incoming,
}
use aat.Graph.Chain.Backward.{
  no_conditions, conditions_ok, search_all, select_all, virtual_edges, sort_error, build_result,
  backward_chain,
}
use aat.Graph.Chain.Kept.{
  search_all-visits, search_all-IsSetOf, select_all-keeps, select_all-IsSetOf,
  compute_reachable-reaches,
}

-- The values between the phases of a successful run.
pub record Phases (g : Graph) (opts : ChainOptions) (r : ChainResult) : Type 0 where
  pub conds : Conditions
  pub search : Search
  pub reachable : List Name
  pub searched : search_all g (opts.goals ++ conds.required) ≡ ok search
  pub reached :
      compute_reachable opts.goals conds.required
        (select_all g opts.goals conds.required search).edges
      ≡ ok reachable
  pub built :
      build_result
        (select (λ n. mem n reachable) (select_all g opts.goals conds.required search).included)
        conds
        (filter_edges
          (select (λ n. mem n reachable) (select_all g opts.goals conds.required search).included)
          (select_all g opts.goals conds.required search).edges)
        (select_all g opts.goals conds.required search).decisions
      ≡ ok r

check_goals-eq-ok : (g : Graph) (goals gs : List Name) → check_goals g goals ≡ ok gs → goals ≡ gs
unfolding check_goals
check_goals-eq-ok g [] gs h = absurd (cc)
check_goals-eq-ok g (goal ∷ goals) gs h = ground arith

pub phases :
    (g : Graph) (opts : ChainOptions) (r : ChainResult)
    → backward_chain g opts ≡ ok r
    → Phases g opts r
unfolding backward_chain
phases g opts r h =
    let (gs, checked, h₁) = bind-eq-ok (check_goals g opts.goals) _ h in
    let same = check_goals-eq-ok g opts.goals gs checked in
    let evaluated =
      conditions_ok (eval_conditions opts.eval_predicate g.conditions no_conditions) in
    let (conds, conditions, h₂) = bind-eq-ok evaluated _ h₁ in
    let (search, searched, h₃) = bind-eq-ok (search_all g (gs ++ conds.required)) _ h₂ in
    let sel = select_all g gs conds.required search in
    let (reachable, reached, h₄) =
      bind-eq-ok (compute_reachable gs conds.required sel.edges) _ h₃ in
    subst (λ goals. Phases g (record { goals = goals; eval_predicate = opts.eval_predicate }) r)
      (sym same)
      (record {
        conds = conds;
        search = search;
        reachable = reachable;
        searched = searched;
        reached = reached;
        built = h₄;
      })

sort_error-eq-ok :
    (o : Outcome TopoError (List Name)) (s : List Name) → sort_error o ≡ ok s → o ≡ ok s
sort_error-eq-ok (ok t) s h = cc
sort_error-eq-ok (err e) s h = absurd (cc)

-- The nodes of a built result are the included ones, sorted along the edges, and its edges are
-- those given.
pub record IsBuilt (included : List Name) (conds : Conditions) (edges : List RequiresEdge)
    (r : ChainResult) : Type 0 where
  pub sorted : chain_topo_sort included (virtual_edges included conds edges) ≡ ok r.nodes
  pub same_edges : r.requires_edges ≡ edges
  pub entries :
      r.entry_nodes
      ≡ select (λ n. not (has_incoming included n (virtual_edges included conds edges))) r.nodes

build_result-IsBuilt :
    (included : List Name) (conds : Conditions) (edges : List RequiresEdge)
    (decisions : List ChainDecision) (r : ChainResult)
    → build_result included conds edges decisions ≡ ok r
    → IsBuilt included conds edges r
unfolding build_result
build_result-IsBuilt included conds edges decisions r built =
    let virtual = virtual_edges included conds edges in
    let (s, sorted, made) = bind-eq-ok (sort_error (chain_topo_sort included virtual)) _ built in
    let e : record {
      nodes = s;
      requires_edges = edges;
      entry_nodes = select (λ n. not (has_incoming included n virtual)) s;
      decisions = decisions;
      included_conditions = conds.included;
      excluded_conditions = conds.excluded;
    }
        ≡ r =
      cc in
    subst (IsBuilt included conds edges) e (record {
      sorted = sort_error-eq-ok (chain_topo_sort included virtual) s sorted;
      same_edges = refl;
      entries = refl;
    })

module _ (g : Graph) (opts : ChainOptions) (r : ChainResult) (p : Phases g opts r) where
  abbrev selection : Selection
  selection = select_all g opts.goals p.conds.required p.search

  abbrev pub included : List Name
  included = select (λ n. mem n p.reachable) selection.included

  abbrev pub edges : List RequiresEdge
  edges = filter_edges included selection.edges

  pub built : IsBuilt included p.conds edges r
  built = build_result-IsBuilt included p.conds edges selection.decisions r p.built

  included-IsSetOf : IsSetOf included
  included-IsSetOf =
      select-IsSetOf (λ n. mem n p.reachable) selection.included
        (select_all-IsSetOf g opts.goals p.conds.required p.search
          (search_all-IsSetOf g (opts.goals ++ p.conds.required) p.search p.searched))

  mem-nodes : (v : Name) → mem v r.nodes ≡ mem v included
  mem-nodes v = mem-eq_of_occ v r.nodes included (
      chain_topo_sort-occ included (virtual_edges included p.conds edges) included-IsSetOf r.nodes
        built.sorted v)

  kept : (v : Name) → (mem v opts.goals || mem v p.conds.required) ≡ true → mem v r.nodes ≡ true
  kept v k = rw (mem-nodes v) (
      ground (
        arith,
        mem-select v (λ n. mem n p.reachable) selection.included,
        compute_reachable-reaches opts.goals p.conds.required selection.edges p.reachable v
            p.reached k,
        select_all-keeps g opts.goals p.conds.required p.search v k,
        search_all-visits g (opts.goals ++ p.conds.required) p.search v p.searched,
        mem-append v opts.goals p.conds.required,
      ))

-- Every goal is among the nodes of the chain.
pub backward_chain-goals :
    (g : Graph) (opts : ChainOptions) (r : ChainResult)
    → backward_chain g opts ≡ ok r
    → (goal : Name) → mem goal opts.goals ≡ true
    → mem goal r.nodes ≡ true
backward_chain-goals g opts r h goal m = kept g opts r (phases g opts r h) goal (ground arith)

-- No node stands twice in the chain.
pub backward_chain-IsSetOf :
    (g : Graph) (opts : ChainOptions) (r : ChainResult)
    → backward_chain g opts ≡ ok r
    → (v : Name) → occ v r.nodes ≤ 1
backward_chain-IsSetOf g opts r h v =
    let p = phases g opts r h in
    omega (
      arith,
      included-IsSetOf g opts r p v,
      chain_topo_sort-occ (included g opts r p)
          (virtual_edges (included g opts r p) p.conds (edges g opts r p))
          (included-IsSetOf g opts r p) r.nodes (built g opts r p).sorted v,
    )

abbrev pub Inside : List Name → RequiresEdge → Type 0
Inside nodes e = (mem e.from nodes ≡ true) × (mem e.to nodes ≡ true)

pub filter_edges-Inside :
    (nodes : List Name) (es : List RequiresEdge) → All (Inside nodes) (filter_edges nodes es)
unfolding filter_edges
filter_edges-Inside nodes [] = tt
filter_edges-Inside nodes (e ∷ es) = elim (Bool-cases (mem e.from nodes && mem e.to nodes)) [
  | inl both ↦ rw both ((ground arith, ground arith), filter_edges-Inside nodes es)
  | inr missing ↦ rw missing (filter_edges-Inside nodes es)
]

HasEdge-append :
    (nodes : List Name) (xs ys : List Edge) (u v : Name)
    → HasEdge nodes ys u v
    → HasEdge nodes (xs ++ ys) u v
HasEdge-append nodes [] ys u v h = h
HasEdge-append nodes (x ∷ xs) ys u v h = inr (HasEdge-append nodes xs ys u v h)

abbrev Ordered : List Name → List Edge → RequiresEdge → Type 0
Ordered nodes virtual e =
    Inside nodes e × ((text_eq e.from e.to ≡ true) ⊎ HasEdge nodes virtual e.from e.to)

ordering_edges-HasEdge :
    (nodes : List Name) (es : List RequiresEdge)
    → All (Inside nodes) es
    → All (Ordered nodes (ordering_edges es)) es
ordering_edges-HasEdge nodes [] h = tt
ordering_edges-HasEdge nodes (e ∷ es) h = (
  (
    h.0,
    elim (Bool-cases (text_eq e.from e.to)) [
      | inl same ↦ inl same
      | inr distinct ↦
          inr (inl (record { from_in = h.0.0; to_in = h.0.1; distinct = distinct }, refl, refl))
    ],
  ),
  All-map (λ f o. (o.0, elim o.1 [ inl same ↦ inl same | inr has ↦ inr (inr has) ])) es
      (ordering_edges-HasEdge nodes es h.1),
)

-- Every requirement edge of the chain joins two of its nodes, and unless it joins a node to itself
-- the satisfier stands before the node that requires it.
pub backward_chain-edges :
    (g : Graph) (opts : ChainOptions) (r : ChainResult)
    → backward_chain g opts ≡ ok r
    → All
        (λ e.
          (mem e.from r.nodes ≡ true)
          × (mem e.to r.nodes ≡ true)
          × ((text_eq e.from e.to || precedes e.from e.to r.nodes) ≡ true))
        r.requires_edges
backward_chain-edges g opts r h =
    let p = phases g opts r h in
    let nodes = included g opts r p in
    let es = edges g opts r p in
    let virtual = virtual_edges nodes p.conds es in
    let b = built g opts r p in
    rw (b.same_edges) (
      All-map
        (λ e o. (
          rw (mem-nodes g opts r p e.from) o.0.0,
          rw (mem-nodes g opts r p e.to) o.0.1,
          elim o.1 [
            | inl same ↦ rw same
            | inr has ↦
                rw
                  (chain_topo_sort-precedes nodes virtual (included-IsSetOf g opts r p) r.nodes
                    b.sorted e.from e.to
                    (HasEdge-append nodes (condition_edges nodes p.conds.included)
                      (ordering_edges es) e.from e.to has))
                  (ground arith)
          ],
        ))
        es
        (ordering_edges-HasEdge nodes es (filter_edges-Inside nodes (selection g opts r p).edges)))
