-- ===== src/Plan/Cycles.antt =====
-- The search for cycles among the dependencies of a plan's steps (`detectDependsOnCycles` of
-- plan/validate.go).
pub mod Marked
pub mod Found
pub mod Decided
pub mod Detected
use aat.Base.{ℕ, zero, suc, List, [], ◌∷◌, ◌++◌, Bool, true, false, Option, none, some, length}
use aat.Graph.Names.{Name}
use aat.Graph.Topo.{update}
use aat.Plan.{Step, step_id, step_ids}
use aat.Plan.Binding.{deps_of, all_deps}

pub data Color : Type 0 where
  white gray black : Color

abbrev pub is_white : Color → Bool
is_white white = true
is_white gray = false
is_white black = false

-- The maps and the list that the closure `dfs` changes; a cycle is reported with the step and its
-- dependency that close it.
pub record Marks : Type 0 where
  pub color : Name → Color
  pub cycles : List (Name × Name)

abbrev pub mark : Name → Color → Marks → Marks
mark node c m = record m { color = update m.color node c }

abbrev pub report : Name → Name → Marks → Marks
report node dep m = record m { cycles = m.cycles ++ (node, dep) ∷ [] }

-- What `dfs` returns, with the marks it leaves; `none` is out of fuel.
abbrev pub Visit : Type 0
Visit = Option (Bool × Marks)

abbrev pub unless_found : Visit → (Marks → Visit) → Visit
unless_found none rest = none
unless_found (some (true, m)) rest = some (true, m)
unless_found (some (false, m)) rest = rest m

-- The body of the loop over the dependencies of `node`, by the color of `dep`.
abbrev pub by_color : Color → Name → Name → Visit → (Marks → Visit) → Marks → Visit
by_color gray node dep visited rest m = some (true, report node dep m)
by_color white node dep visited rest m = unless_found visited rest
by_color black node dep visited rest m = rest m

unfoldable pub visit : (Name → Marks → Visit) → Name → List Name → Marks → Visit
visit dfs node [] m = some (false, m)
visit dfs node (dep ∷ deps) m =
    by_color (m.color dep) node dep (dfs dep m) (λ m'. visit dfs node deps m') m

abbrev pub finish : Name → Visit → Visit
finish node none = none
finish node (some (true, m)) = some (true, m)
finish node (some (false, m)) = some (false, mark node black m)

-- The closure `dfs`; a call inside another has a white node less to visit.
unfoldable pub dfs : (Name → List Name) → ℕ → Name → Marks → Visit
unfolding visit
dfs adj zero node m = none
dfs adj (suc fuel) node m =
    finish node (visit (λ dep m'. dfs adj fuel dep m') node (adj node) (mark node gray m))

abbrev pub then_run : Visit → (Marks → Option Marks) → Option Marks
then_run none rest = none
then_run (some (b, m)) rest = rest m

abbrev pub start_at : Color → Visit → (Marks → Option Marks) → Marks → Option Marks
start_at white visited rest m = then_run visited rest
start_at gray visited rest m = rest m
start_at black visited rest m = rest m

unfoldable pub run_all : (Name → List Name) → ℕ → List Name → Marks → Option Marks
unfolding dfs
run_all adj fuel [] m = some m
run_all adj fuel (id ∷ ids) m =
    start_at (m.color id) (dfs adj fuel id m) (λ m'. run_all adj fuel ids m') m

abbrev pub cycles_of : Option Marks → Option (List (Name × Name))
cycles_of none = none
cycles_of (some m) = some m.cycles

abbrev pub step_names : List Step → List Name
step_names steps = step_ids steps ++ all_deps steps

-- The fuel is the number of names among the steps' IDs and dependencies.
unfoldable pub detect_depends_on_cycles : List Step → Option (List (Name × Name))
unfolding run_all all_deps
detect_depends_on_cycles steps = cycles_of (
    run_all (deps_of steps) (length (step_names steps)) (step_ids steps)
      (record { color = λ x. white; cycles = [] }))
