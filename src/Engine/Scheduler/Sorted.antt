-- ===== src/Engine/Scheduler/Sorted.antt =====
-- What the sort of a plan's steps promises (engine/scheduler.go).
use aat.Base.{
  ◌||◌, ℕ, ◌≤◌, ◌<◌, List, [], ◌∷◌, true, false, ◌≡◌, ◌≢◌, refl, sym, ap, ◌∙◌, ◌==◌, ==_iff, ◌⊎◌,
  inl, inr, Bool-cases, arith, subst, ok, err, length,
}
use aat.Base.Text.{text_eq, text_eq→eq, text_eq_refl}
use aat.Graph.Names.{Name, mem, select, occ, IsSetOf, mem-occ, not_mem-occ, occ-select}
use aat.Graph.Names.Sizes.{mem_of_occ, occ-eq_of_length}
use aat.Graph.Topo.{Edge, out_of_fuel, Degrees, check_all}
use aat.Graph.Topo.Invariant.{IsCounted}
use aat.Graph.Topo.Edges.{HasEdge, IsRanked}
use aat.Graph.Topo.Loop.{IsLoop, precedes}
use aat.Engine.Scheduler.Keys.{HasNoArrow}
use aat.Engine.Scheduler.Added.{
  no_links, AreInto, dependencies-IsCounted, dependencies-rank, HasEdge-linked,
}
use aat.Engine.Scheduler.{
  add_dependencies, Planned, ids_of, edges_to, dependencies, index_of, schedule, topological_sort,
}
use aat.Engine.Scheduler.Order.{schedule_ends}
use aat.Engine.Scheduler.Stable.{schedule-keeps}

-- A step `v` of the plan names `u` in its `dependsOn`.
abbrev pub DependsOn : List Planned → Name → Name → Type 0
DependsOn [] v u = true ≡ false
DependsOn (s ∷ ss) v u = ((s.id ≡ v) × (mem u s.depends_on ≡ true)) ⊎ DependsOn ss v u

-- Each step comes after the steps of the plan that it depends on.
abbrev pub InOrder : List Name → List Planned → Type 0
InOrder ids [] = Unit
InOrder ids (s ∷ ss) =
    ((u : Name)
      → mem u s.depends_on ≡ true
      → mem u ids ≡ true
      → text_eq u s.id ≡ false
      → index_of u ids < index_of s.id ids)
    × InOrder ids ss

module _ (ids : List Name) where
  edges_to-HasEdge :
      (v : Name) (ds : List Name) (es : List Edge) (u : Name)
      → mem u ids ≡ true
      → mem v ids ≡ true
      → text_eq u v ≡ false
      → (mem u ds ≡ true) ⊎ HasEdge ids es u v
      → HasEdge ids (edges_to v ds es) u v
  edges_to-HasEdge v [] es u hu hv ne (inl m) = absurd (cc)
  edges_to-HasEdge v [] es u hu hv ne (inr h) = h
  edges_to-HasEdge v (d ∷ ds) es u hu hv ne (inl m) = elim (Bool-cases (text_eq d u)) [
    | inl same ↦
        let eq : d ≡ u = text_eq→eq d u same in
        inl (
          record {
            from_in = ap (λ w. mem w ids) eq ∙ hu;
            to_in = hv;
            distinct = ap (λ w. text_eq w v) eq ∙ ne;
          },
          eq,
          refl,
        )
    | inr other ↦ inr (edges_to-HasEdge v ds es u hu hv ne (inl (ground (arith, m, other))))
  ]
  edges_to-HasEdge v (d ∷ ds) es u hu hv ne (inr h) =
      inr (edges_to-HasEdge v ds es u hu hv ne (inr h))

  edges_to-more :
      (a : Name) (ds : List Name) (es : List Edge) (u v : Name)
      → HasEdge ids es u v
      → HasEdge ids (edges_to a ds es) u v
  edges_to-more a [] es u v h = h
  edges_to-more a (d ∷ ds) es u v h = inr (edges_to-more a ds es u v h)

  dependencies-HasEdge :
      (steps : List Planned) (u v : Name)
      → mem u ids ≡ true
      → mem v ids ≡ true
      → text_eq u v ≡ false
      → DependsOn steps v u
      → HasEdge ids (dependencies steps) u v
  unfolding dependencies
  dependencies-HasEdge [] u v hu hv ne h = absurd (cc)
  dependencies-HasEdge (s ∷ ss) u v hu hv ne (inl (same, m)) =
      subst (λ w. HasEdge ids (edges_to s.id s.depends_on (dependencies ss)) u w) same
        (edges_to-HasEdge s.id s.depends_on (dependencies ss) u hu (ap (λ w. mem w ids) same ∙ hv)
          (ap (text_eq u) same ∙ ne) (inl m))
  dependencies-HasEdge (s ∷ ss) u v hu hv ne (inr h) =
      edges_to-more s.id s.depends_on (dependencies ss) u v (dependencies-HasEdge ss u v hu hv ne h)

  edges_to-IsRanked :
      (v : Name) (ds : List Name) (es : List Edge)
      → ((u : Name)
          → mem u ds ≡ true
          → mem u ids ≡ true
          → text_eq u v ≡ false
          → index_of u ids < index_of v ids)
      → IsRanked (λ w. index_of w ids) ids es
      → IsRanked (λ w. index_of w ids) ids (edges_to v ds es)
  edges_to-IsRanked v [] es h r = r
  edges_to-IsRanked v (d ∷ ds) es h r = (
    (λ c. h d (ground (arith, text_eq_refl d)) c.from_in c.distinct),
    edges_to-IsRanked v ds es (λ u m. h u (ground (arith, m))) r,
  )

  dependencies-IsRanked :
      (steps : List Planned)
      → InOrder ids steps
      → IsRanked (λ w. index_of w ids) ids (dependencies steps)
  unfolding dependencies
  dependencies-IsRanked [] h = tt
  dependencies-IsRanked (s ∷ ss) (h, rest) =
      edges_to-IsRanked s.id s.depends_on (dependencies ss) h (dependencies-IsRanked ss rest)

edges_to-AreInto :
    (ids : List Name) (v : Name) (ds : List Name) (es : List Edge)
    → mem v ids ≡ true
    → AreInto ids es
    → AreInto ids (edges_to v ds es)
edges_to-AreInto ids v [] es hv h = h
edges_to-AreInto ids v (d ∷ ds) es hv h = (hv, edges_to-AreInto ids v ds es hv h)

dependencies-AreInto :
    (ids : List Name) (steps : List Planned)
    → ((v : Name) → mem v (ids_of steps) ≡ true → mem v ids ≡ true)
    → AreInto ids (dependencies steps)
unfolding dependencies
dependencies-AreInto ids [] h = tt
dependencies-AreInto ids (s ∷ ss) h =
    edges_to-AreInto ids s.id s.depends_on (dependencies ss)
      (h s.id (ap (λ b. b || mem s.id (ids_of ss)) (text_eq_refl s.id)))
      (dependencies-AreInto ids ss (λ v m. h v (ground (arith, m))))

module _ (steps : List Planned) (unique : IsSetOf (ids_of steps)) where
  abbrev ids : List Name
  ids = ids_of steps

  abbrev maps : Degrees
  maps = (add_dependencies ids (dependencies steps) no_links).degrees

  abbrev index : Name → ℕ
  index v = index_of v ids

  maps-IsCounted : IsCounted ids maps
  maps-IsCounted =
      dependencies-IsCounted ids unique (dependencies steps)
        (dependencies-AreInto ids steps (λ v m. m))

  abbrev Loop : (Name → ℕ) → List Name → List Name → Type 0
  Loop =
      IsLoop ids maps.adj unique maps-IsCounted.sets maps-IsCounted.targets maps-IsCounted.sources

  start-IsLoop : Loop maps.in_deg (select (λ n. maps.in_deg n == 0) ids) []
  start-IsLoop = record {
    degrees = maps-IsCounted.counted;
    placed = λ v. ground (
      arith,
      occ-select v (λ n. maps.in_deg n == 0) ids,
      unique v,
      mem-occ v ids,
      not_mem-occ v ids,
    );
    ordered = λ u v e m. cc;
  }

  -- What the loop gives, before the lengths are compared.
  record Run : Type 0 where
    final : List Name
    deg : Name → ℕ
    ends :
        schedule maps.adj index (length ids) maps.in_deg (select (λ n. maps.in_deg n == 0) ids) []
        ≡ ok final
    loop : Loop deg [] final

  run : Run
  run =
      let (final, deg, ends, loop) =
        schedule_ends ids maps.adj unique maps-IsCounted.sets maps-IsCounted.targets
          maps-IsCounted.sources index (length ids) maps.in_deg
          (select (λ n. maps.in_deg n == 0) ids) [] (omega arith) start-IsLoop in
      record { final = final; deg = deg; ends = ends; loop = loop }

  sorted_run : topological_sort steps ≡ check_all ids (ok run.final)
  unfolding topological_sort
  sorted_run = rw (run.ends)

  -- When the steps' IDs are distinct, the loop never runs out of rounds, whatever the steps depend
  -- on: a cycle is the only error of the sort.
  pub topological_sort-ne-out_of_fuel : topological_sort steps ≢ err out_of_fuel
  topological_sort-ne-out_of_fuel = rw sorted_run (ground arith)

  final-le : (v : Name) → occ v run.final ≤ occ v ids
  final-le v = ground (arith, run.loop.placed v, mem-occ v ids)

  check_all-ok :
      (xs s : List Name) → check_all ids (ok xs) ≡ ok s → (xs ≡ s) × (length xs ≡ length ids)
  check_all-ok xs s h = elim (Bool-cases (length xs == length ids)) [
    | inl same ↦ (ground arith, (==_iff _ _).0 same)
    | inr other ↦ absurd (ground arith)
  ]

  -- When the steps' IDs are distinct and none holds the arrow `→`, a successful sort gives every step
  -- of the plan once, each after the other steps of the plan that its `dependsOn` names.
  pub topological_sort-sorted :
      HasNoArrow (ids_of steps)
      → (s : List Name) → topological_sort steps ≡ ok s
      → ((v : Name) → occ v s ≡ occ v (ids_of steps))
        × ((u v : Name)
            → mem u (ids_of steps) ≡ true
            → mem v (ids_of steps) ≡ true
            → text_eq u v ≡ false
            → DependsOn steps v u
            → precedes u v s ≡ true)
  topological_sort-sorted plain s h =
      let (same, len) = check_all-ok run.final s (sym sorted_run ∙ h) in
      let full : (v : Name) → occ v run.final ≡ occ v ids =
        occ-eq_of_length run.final ids final-le len in
      (
        (λ v. subst (λ xs. occ v xs ≡ occ v ids) same (full v)),
        λ u v hu hv ne d.
            subst (λ xs. precedes u v xs ≡ true) same
              (run.loop.ordered u v
                (HasEdge-linked ids plain (dependencies steps)
                  (dependencies-AreInto ids steps (λ w m. m)) u v hu
                  (dependencies-HasEdge ids steps u v hu hv ne d))
                (mem_of_occ v run.final (omega (arith, full v, mem-occ v ids hv)))),
      )

  -- When the steps' IDs are distinct and each step stands after the other steps of the plan that
  -- it depends on, the sort succeeds and keeps the plan's order.
  pub topological_sort-stable :
      InOrder (ids_of steps) steps → topological_sort steps ≡ ok (ids_of steps)
  unfolding topological_sort
  topological_sort-stable in_order =
      ap (check_all ids) (
        schedule-keeps ids maps.adj unique maps-IsCounted.sets maps-IsCounted.targets
          maps-IsCounted.sources
          (dependencies-rank index ids (dependencies steps)
            (dependencies-AreInto ids steps (λ w m. m)) (dependencies-IsRanked ids steps in_order)
            no_links (λ a b q. absurd (cc)) (λ a b q. absurd (cc)))
          (length ids) maps.in_deg (select (λ n. maps.in_deg n == 0) ids) [] ids refl (omega arith)
          start-IsLoop)
      ∙ ground arith
