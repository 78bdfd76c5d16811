-- ===== src/Plan/Tests.antt =====
-- The theorems on plans at a plan of three steps, and tests.
use aat.Base.{List, [], ◌∷◌, true, false, ◌≡◌, refl, ◌⊎◌, ◌↔◌, arith, any, some}
use aat.Base.Text.{codes, text_eq, text_eq→eq}
use aat.Graph.Names.{Name, mem, add_name, IsSetOf}
use aat.Plan.{Step, step_id, step_ids}
use aat.Plan.Binding.{
  fill_deps, deps_of, depends_on_step, default_ref_step, nearest_producer, inject_reference_deps,
  translate_from_ref_at, binds_anywhere, verification_ref_step,
}
use aat.Plan.Cycles.{detect_depends_on_cycles}
use aat.Plan.Cycles.Detected.{Decides, detect_depends_on_cycles-Decides}
use aat.Plan.Reach.{Reaches, direct, through, depends_on_step-Reaches}
use aat.Plan.Acyclic.{IsAcyclic, with_dep, nearest_producer-IsAcyclic, default_ref_step-IsAcyclic}
use aat.Plan.Inject.{Injected, inject_reference_deps-Injected}

abbrev step_on : Name → Name → List Name → Step
step_on id node deps = record {
  id = id;
  node = node;
  slot = [];
  depends_on = deps;
  values = [];
  selections = [];
  assertion_refs = [];
  until_refs = [];
  expect_failure = false;
}

abbrev create : Step
create = step_on (codes "c") (codes "create") []

abbrev pay : Step
pay = step_on (codes "p") (codes "pay") (codes "c" ∷ [])

abbrev read : Step
read = record (step_on (codes "r") (codes "read") []) {
  values =
      (
        codes "id",
        record {
          from = codes "c.id";
          from_input = [];
          raw = true;
          default_refs = codes "p" ∷ [];
          pool_refs = (codes "p" ∷ []) ∷ [];
          filter_refs = [];
        },
      )
      ∷ [];
}

abbrev steps : List Step
steps = create ∷ pay ∷ read ∷ []

abbrev outputs : List (Name × List Name)
outputs = (codes "create", codes "id" ∷ []) ∷ []

depends_on_step-Reaches_example :
    (depends_on_step steps (codes "p") (codes "c") ≡ true)
    ↔ Reaches (deps_of steps) (codes "p") (codes "c")
depends_on_step-Reaches_example = depends_on_step-Reaches steps (codes "p") (codes "c")

runs_before :
    (depends_on_step steps (codes "p") (codes "c") ≡ true)
    × (depends_on_step steps (codes "c") (codes "p") ≡ false)
unfolding depends_on_step
runs_before = (refl, refl)

nearest : nearest_producer outputs (create ∷ pay ∷ []) read [] (codes "id") ≡ codes "c"
unfolding nearest_producer depends_on_step
nearest = refl

bound : translate_from_ref_at (codes "create.id") steps 2 ≡ codes "c.id"
unfolding translate_from_ref_at depends_on_step
bound = refl

verified : verification_ref_step steps (codes "pay") ≡ codes "p"
unfolding verification_ref_step
verified = refl

first_dep :
    (x y : Name)
    → mem y (deps_of steps x) ≡ true
    → (text_eq (codes "p") x ≡ true) × (text_eq (codes "c") y ≡ true)
unfolding fill_deps
first_dep x y h = ground arith

last_dep : (x y : Name) → Reaches (deps_of steps) x y → text_eq (codes "c") y ≡ true
last_dep x y (direct h) = (first_dep x y h).1
last_dep x y (through {y = w} h p) = last_dep w y p

apart : (x : Name) → text_eq (codes "p") x ≡ true → text_eq (codes "c") x ≡ true → ⊥
apart x h k = ground (arith, text_eq→eq (codes "p") x, text_eq→eq (codes "c") x)

steps-IsAcyclic : IsAcyclic steps
steps-IsAcyclic x (direct h) = apart x (first_dep x x h).0 (first_dep x x h).1
steps-IsAcyclic x (through {y = w} h p) = apart x (first_dep x w h).0 (last_dep w x p)

steps-IsSetOf : IsSetOf (step_ids steps)
steps-IsSetOf v =
    ground (arith, text_eq→eq (codes "c") v, text_eq→eq (codes "p") v, text_eq→eq (codes "r") v)

nearest_producer-IsAcyclic_example :
    (mem
        (nearest_producer outputs (create ∷ pay ∷ []) read [] (codes "id"))
        (step_ids (create ∷ pay ∷ []))
      ≡ true)
    × IsAcyclic (
        with_dep
          (create ∷ pay ∷ [])
          read
          []
          (nearest_producer outputs (create ∷ pay ∷ []) read [] (codes "id")))
nearest_producer-IsAcyclic_example =
    nearest_producer-IsAcyclic outputs (create ∷ pay ∷ []) read [] (codes "id") steps-IsSetOf
      steps-IsAcyclic (simp nearest refl)

qualifies : any (binds_anywhere steps (codes "r") (codes "create")) steps ≡ true
unfolding depends_on_step
qualifies = refl

default_ref_step-IsAcyclic_example :
    (t : Step) × (default_ref_step (create ∷ pay ∷ []) read [] (codes "create") ≡ step_id t)
    × (text_eq t.node (codes "create") ≡ true)
    × (t.expect_failure ≡ false)
    × ((default_ref_step (create ∷ pay ∷ []) read [] (codes "create") ≡ codes "r")
        ⊎ IsAcyclic (
            with_dep
              (create ∷ pay ∷ [])
              read
              []
              (default_ref_step (create ∷ pay ∷ []) read [] (codes "create"))))
default_ref_step-IsAcyclic_example =
    default_ref_step-IsAcyclic (create ∷ pay ∷ []) read [] (codes "create") qualifies
      steps-IsAcyclic

inject_reference_deps-Injected_example :
    Injected (step_ids steps) false steps (inject_reference_deps steps false)
inject_reference_deps-Injected_example = inject_reference_deps-Injected steps false

abbrev first_of_two : Step
first_of_two = step_on (codes "a") (codes "create") (codes "b" ∷ [])

abbrev second_of_two : Step
second_of_two = step_on (codes "b") (codes "pay") (codes "a" ∷ [])

abbrev beside : Step
beside = step_on (codes "c") (codes "read") (codes "a" ∷ [])

no_cycle : detect_depends_on_cycles steps ≡ some []
unfolding detect_depends_on_cycles fill_deps
no_cycle = refl

-- A step of a reported cycle stays gray, so that a later step that depends on it is reported too.
reported_beside :
    (detect_depends_on_cycles (first_of_two ∷ second_of_two ∷ beside ∷ [])
      ≡ some ((codes "b", codes "a") ∷ (codes "c", codes "a") ∷ []))
    × (depends_on_step (first_of_two ∷ second_of_two ∷ beside ∷ []) (codes "c") (codes "c") ≡ false)
unfolding detect_depends_on_cycles depends_on_step add_name
reported_beside = (refl, refl)

detect_depends_on_cycles-Decides_example :
    (cycles : List (Name × Name)) × (detect_depends_on_cycles (first_of_two ∷ second_of_two ∷ [])
      ≡ some cycles)
    × Decides (first_of_two ∷ second_of_two ∷ []) cycles
detect_depends_on_cycles-Decides_example =
    detect_depends_on_cycles-Decides (first_of_two ∷ second_of_two ∷ [])
