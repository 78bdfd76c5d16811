-- ===== src/Plan/Inject.antt =====
-- What `InjectReferenceDeps` of plan/binding.go adds to the dependencies of a plan's steps.
use aat.Base.{List, [], ◌∷◌, ◌++◌, Bool, not, ◌&&◌, ◌||◌, if◌then◌else◌, ◌≡◌, refl, arith}
use aat.Base.Text.{text_eq, text_eq→eq}
use aat.Graph.Names.{Name, mem}
use aat.Graph.Names.Sets.{mem-append}
use aat.Plan.{Step, step_id, step_ids}
use aat.Plan.Referenced.{references, mem-referenced_steps}
use aat.Plan.Binding.{inject_refs, inject_all, inject_reference_deps, referenced_steps}

-- The steps that an injection may name.
abbrev pub allowed : List Name → Bool → Name → Bool
allowed known external_only d = if external_only then not (mem d known) else mem d known

mem-inject_refs :
    (known : List Name) (external_only : Bool) (id : Name) (deps refs : List Name) (d : Name)
    → mem d (inject_refs known external_only id deps refs)
      ≡ (mem d deps || mem d refs && not (text_eq d id) && allowed known external_only d)
unfolding inject_refs
mem-inject_refs known external_only id deps [] d = ground arith
mem-inject_refs known external_only id deps (ref ∷ refs) d = ground (
  arith,
  mem-inject_refs known external_only id deps refs d,
  mem-inject_refs known external_only id (deps ++ ref ∷ []) refs d,
  mem-append d deps (ref ∷ []),
  text_eq→eq ref d,
)

-- Step by step: the ID and the node stay, and the dependencies are the old ones with the allowed
-- references.
abbrev pub Injected : List Name → Bool → List Step → List Step → Type 0
Injected known external_only [] [] = Unit
Injected known external_only (s ∷ ss) (t ∷ ts) =
    (step_id t ≡ step_id s)
    × (t.node ≡ s.node)
    × ((d : Name)
        → mem d t.depends_on ≡ (
            mem d s.depends_on
            || references s d && not (text_eq d (step_id s)) && allowed known external_only d))
    × Injected known external_only ss ts
Injected known external_only _ _ = ⊥

inject_all-Injected :
    (known : List Name) (external_only : Bool) (steps : List Step)
    → Injected known external_only steps (inject_all known external_only steps)
unfolding inject_all
inject_all-Injected known external_only [] = tt
inject_all-Injected known external_only (s ∷ ss) = (
  refl,
  refl,
  λ d. ground (
    arith,
    mem-inject_refs known external_only (step_id s) s.depends_on (referenced_steps s) d,
    mem-referenced_steps s d,
  ),
  inject_all-Injected known external_only ss,
)

-- After the injection each step depends on what it depended on before and on each other step that
-- it references and that the plan has (with `externalOnly`, that the plan has not), and on nothing
-- else; the steps' IDs and nodes stay. A step references what its values and named selections read
-- from, and what the expressions of its assertions, its repeat condition, its filters, its values
-- and their pools name, but for the default of a raw value.
pub inject_reference_deps-Injected :
    (steps : List Step) (external_only : Bool)
    → Injected (step_ids steps) external_only steps (inject_reference_deps steps external_only)
unfolding inject_reference_deps
inject_reference_deps-Injected steps external_only =
    inject_all-Injected (step_ids steps) external_only steps
