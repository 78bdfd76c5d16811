-- ===== src/Plan/Cycles/Detected.antt =====
-- `detectDependsOnCycles` of plan/validate.go reports a cycle exactly when there is one.
use aat.Base.{List, [], ◌∷◌, true, false, none, some, Option, ◌≡◌, ◌≢◌, refl, ◌⊎◌, inl, inr, arith}
use aat.Graph.Names.{Name, mem}
use aat.Graph.Names.Sets.{mem-append}
use aat.Graph.Topo.{update}
use aat.Plan.{Step, step_id, step_ids}
use aat.Plan.Binding.{fill_deps, deps_of, all_deps}
use aat.Plan.Reach.{Reaches, direct, through, fill_deps-Within}
use aat.Plan.Cycles.{
  Color, white, gray, black, is_white, Marks, cycles_of, step_names, detect_depends_on_cycles,
}
use aat.Plan.Cycles.Decided.{IsCyclic, Ends, run_all-Ends}

-- Only a step's ID has dependencies.
fill_deps-source :
    (steps : List Step) (m : Name → List Name) (x d : Name)
    → mem d (fill_deps steps m x) ≡ true
    → (mem d (m x) ≡ true) ⊎ (mem x (step_ids steps) ≡ true)
unfolding fill_deps
fill_deps-source [] m x d h = inl h
fill_deps-source (s ∷ ss) m x d h =
    ground (arith, fill_deps-source ss (update m (step_id s) s.depends_on) x d h)

Reaches-source :
    (steps : List Step) (x y : Name) → Reaches (deps_of steps) x y → mem x (step_ids steps) ≡ true
Reaches-source steps x y (direct {y = d} h) = ground (arith, fill_deps-source steps (λ _. []) x d h)
Reaches-source steps x y (through {y = d} h p) =
    ground (arith, fill_deps-source steps (λ _. []) x d h)

-- Either nothing is reported and no step depends on itself, or the first report names one that does.
abbrev pub Decides : List Step → List (Name × Name) → Type 0
Decides steps cycles =
    (cycles ≡ []) × ((x : Name) → ¬ Reaches (deps_of steps) x x) ⊎ IsCyclic (deps_of steps) cycles

visited_black : (c : Color) → is_white c ≡ false → c ≢ gray → c ≡ black
visited_black white h k = absurd (cc)
visited_black gray h k = absurd (k refl)
visited_black black h k = refl

cycles_of-Decides :
    (steps : List Step) (m : Marks) (o : Option Marks)
    → Ends (deps_of steps) (step_ids steps) m o
    → (cycles : List (Name × Name)) × (cycles_of o ≡ some cycles) × Decides steps cycles
cycles_of-Decides steps m none h = elim h [ ]
cycles_of-Decides steps m (some m') (inr c) = (m'.cycles, refl, inr c)
cycles_of-Decides steps m (some m') (inl ((none_yet, good, no_gray), kept, seen)) = (
  m'.cycles,
  refl,
  inl (
    none_yet,
    λ x p.
        good.clean x (visited_black (m'.color x) (seen x (Reaches-source steps x x p)) (no_gray x))
          p,
  ),
)

-- The search ends. It reports nothing exactly when no step depends on itself, and otherwise the
-- first step that it reports depends on itself.
pub detect_depends_on_cycles-Decides :
    (steps : List Step)
    → (cycles : List (Name × Name)) × (detect_depends_on_cycles steps ≡ some cycles)
      × Decides steps cycles
unfolding detect_depends_on_cycles
detect_depends_on_cycles-Decides steps = cycles_of-Decides steps start _ (
    run_all-Ends (deps_of steps) (step_names steps)
      (λ x d h.
        let named = fill_deps-Within steps (λ _. []) x d h in
        ground (arith, named, mem-append d (step_ids steps) (all_deps steps)))
      (step_ids steps) (λ x h. ground (arith, h, mem-append x (step_ids steps) (all_deps steps)))
      start
      (refl, record { closed = λ x d h e. absurd (cc); clean = λ x h. absurd (cc) }, λ x h. cc))
  where
    start : Marks
    start = record { color = λ x. white; cycles = [] }
