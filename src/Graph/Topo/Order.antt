-- ===== src/Graph/Topo/Order.antt =====
-- What `chainTopoSort` promises: an order of all nodes along the edges, unless there is a cycle.
use aat.Base.{
  ℕ, zero, suc, ◌≤◌, ◌<◌, List, [], ◌∷◌, true, false, ◌&&◌, not, ◌≡◌, ◌≢◌, sym, ◌∙◌, ◌==◌, ==_iff,
  inl, inr, Bool-cases, arith, subst, ok, err, length,
}
use aat.Graph.Names.{
  Name, mem, select, occ, IsSetOf, mem-occ, not_mem-occ, sort_strings, occ-sort_strings, occ-select,
}
use aat.Graph.Names.Sizes.{mem_of_occ, length-le_of_occ, occ-eq_of_length}
use aat.Graph.Topo.{
  Edge, out_of_fuel, Degrees, no_edges, add_edges, kahn, check_all, chain_topo_sort,
}
use aat.Graph.Topo.Count.{preds}
use aat.Graph.Topo.Invariant.{IsCounted, no_edges-IsCounted}
use aat.Graph.Topo.Edges.{add_edges-IsCounted, HasEdge, HasEdge-mem, IsRanked, add_edges-rank}
use aat.Graph.Topo.Loop.{IsLoop, kahn_ends, precedes}

module _ (nodes : List Name) (virtual : List Edge) (unique : IsSetOf nodes) where
  abbrev maps : Degrees
  maps = add_edges nodes virtual no_edges

  abbrev first_queue : List Name
  first_queue = sort_strings (select (λ n. maps.in_deg n == 0) nodes)

  maps-IsCounted : IsCounted nodes maps
  maps-IsCounted = add_edges-IsCounted nodes unique virtual no_edges (no_edges-IsCounted nodes)

  abbrev Loop : (Name → ℕ) → List Name → List Name → Type 0
  Loop =
      IsLoop nodes maps.adj unique maps-IsCounted.sets maps-IsCounted.targets maps-IsCounted.sources

  start-IsLoop : Loop maps.in_deg first_queue []
  start-IsLoop = record {
    degrees = maps-IsCounted.counted;
    placed = λ v. ground (
      arith,
      occ-sort_strings v (select (λ n. maps.in_deg n == 0) nodes),
      occ-select v (λ n. maps.in_deg n == 0) nodes,
      unique v,
      mem-occ v nodes,
      not_mem-occ v nodes,
    );
    ordered = λ u v e m. cc;
  }

  -- What the loop gives, before the lengths are compared.
  record Run : Type 0 where
    final : List Name
    deg : Name → ℕ
    ends : kahn maps.adj (length nodes) maps.in_deg first_queue [] ≡ ok final
    loop : Loop deg [] final

  run : Run
  run =
      let (final, deg, ends, loop) =
        kahn_ends nodes maps.adj unique maps-IsCounted.sets maps-IsCounted.targets
          maps-IsCounted.sources (length nodes) maps.in_deg first_queue [] (omega arith)
          start-IsLoop in
      record { final = final; deg = deg; ends = ends; loop = loop }

  sorted_run : chain_topo_sort nodes virtual ≡ check_all nodes (ok run.final)
  unfolding chain_topo_sort
  sorted_run = rw (run.ends)

  final-le : (v : Name) → occ v run.final ≤ occ v nodes
  final-le v = ground (arith, run.loop.placed v, mem-occ v nodes)

  -- The sort of a set of nodes never runs out of fuel, whatever the edges: a round per node is
  -- enough, and a cycle is the only error left.
  pub chain_topo_sort-ne-out_of_fuel : chain_topo_sort nodes virtual ≢ err out_of_fuel
  chain_topo_sort-ne-out_of_fuel = rw sorted_run (ground arith)

  check_all-ok :
      (xs s : List Name) → check_all nodes (ok xs) ≡ ok s → (xs ≡ s) × (length xs ≡ length nodes)
  check_all-ok xs s h = elim (Bool-cases (length xs == length nodes)) [
    | inl same ↦ (ground arith, (==_iff _ _).0 same)
    | inr other ↦ absurd (ground arith)
  ]

  sorted-final :
      (s : List Name)
      → chain_topo_sort nodes virtual ≡ ok s
      → (run.final ≡ s) × (length run.final ≡ length nodes)
  sorted-final s h = check_all-ok run.final s (sym sorted_run ∙ h)

  -- A successful sort of a set of nodes gives every node, as often as the set holds it, and nothing else.
  pub chain_topo_sort-occ :
      (s : List Name) → chain_topo_sort nodes virtual ≡ ok s → (v : Name) → occ v s ≡ occ v nodes
  chain_topo_sort-occ s h v =
      let (same, len) = sorted-final s h in
      subst (λ xs. occ v xs ≡ occ v nodes) same (occ-eq_of_length run.final nodes final-le len v)

  -- A successful sort puts the source of every edge that counts (between two different nodes of
  -- the set) before its target.
  pub chain_topo_sort-precedes :
      (s : List Name)
      → chain_topo_sort nodes virtual ≡ ok s
      → (u v : Name) → HasEdge nodes virtual u v
      → precedes u v s ≡ true
  chain_topo_sort-precedes s h u v e =
      let (same, len) = sorted-final s h in
      let m = HasEdge-mem nodes virtual no_edges u v e in
      let in_final : mem v run.final ≡ true = mem_of_occ v run.final (
        omega (
          arith,
          occ-eq_of_length run.final nodes final-le len v,
          mem-occ v nodes (maps-IsCounted.targets u v m),
        )) in
      subst (λ xs. precedes u v xs ≡ true) same (run.loop.ordered u v m in_final)

  preds-pos :
      (adj : Name → List Name) (done us : List Name) (v : Name)
      → 0 < preds adj done us v
      → (u : Name) × (mem v (adj u) ≡ true) × (mem u done ≡ false)
  preds-pos adj done [] v h = elim h [ ]
  preds-pos adj done (x ∷ us) v h = elim (Bool-cases (mem v (adj x) && not (mem x done))) [
    | inl here ↦ (x, ground arith, ground arith)
    | inr later ↦ preds-pos adj done us v (ground arith)
  ]

  module _ (rank : Name → ℕ) (r : IsRanked rank nodes virtual) where
    -- By induction on its rank, every node is sorted.
    all_sorted : (k : ℕ) (v : Name) → rank v < k → mem v nodes ≡ true → run.deg v ≡ 0
    all_sorted zero v h m = elim h [ ]
    all_sorted (suc k) v h m = elim (Bool-cases (run.deg v == 0)) [
      | inl done ↦ (==_iff _ _).0 done
      | inr waits ↦
          let (u, e, absent) =
            preds-pos maps.adj run.final nodes v (ground (arith, run.loop.degrees v)) in
          let below = add_edges-rank rank nodes virtual no_edges r (λ a b q. absurd (cc)) u v e in
          let deg_u = all_sorted k u (omega arith) (maps-IsCounted.sources u v e) in
          absurd (
            ground (
              arith,
              run.loop.placed u,
              not_mem-occ u run.final absent,
              maps-IsCounted.sources u v e,
            ))
    ]

    -- Without a cycle, as a ranking that grows along the edges shows, the sort succeeds.
    pub chain_topo_sort-acyclic : (s : List Name) × (chain_topo_sort nodes virtual ≡ ok s)
    chain_topo_sort-acyclic = (run.final, sorted_run ∙ full)
      where
        nodes-le : (v : Name) → occ v nodes ≤ occ v run.final
        nodes-le v = ground (
          arith,
          run.loop.placed v,
          unique v,
          not_mem-occ v nodes,
          all_sorted (suc (rank v)) v (omega arith),
        )

        full : check_all nodes (ok run.final) ≡ ok run.final
        full = ground (
          arith,
          length-le_of_occ nodes run.final nodes-le,
          length-le_of_occ run.final nodes final-le,
        )
