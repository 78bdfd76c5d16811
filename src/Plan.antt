-- ===== src/Plan.antt =====
-- Plans (plan/types.go), and how the references of their steps are bound.
pub mod Binding
pub mod Reach
pub mod Acyclic
pub mod Referenced
pub mod Inject
pub mod Cycles
mod Tests
use aat.Base.{List, [], ◌∷◌, Bool, if◌then◌else◌}
use aat.Base.Text.{Text}
use aat.Graph.Names.{Name}
use aat.Engine.Cleanup.Skip.{is_empty}

-- What a value reads of other steps. An empty text stands for a field that is not set. The fields
-- that hold expressions are read as the steps of the `{{step.output}}` references that plan/expr.go
-- and plan/predicate_exprs.go find in them: in the default, in each entry of the pool, and in the
-- filter of `select`.
pub record StepValue : Type 0 where
  pub from : Text
  pub from_input : Text
  pub raw : Bool
  pub default_refs : List Name
  pub pool_refs : List (List Name)
  pub filter_refs : List Name

-- A named selection, with its filter read in the same way.
pub record StepSelection : Type 0 where
  pub from : Text
  pub filter_refs : List Name

-- `values` and `selections` are the entries of the maps in the order of their names;
-- `assertion_refs` are the references of each mechanical assertion and `until_refs` those of the
-- repeat condition; `expect_failure` says whether the field is set.
pub record Step : Type 0 where
  pub id : Text
  pub node : Name
  pub slot : Text
  pub depends_on : List Name
  pub values : List (Text × StepValue)
  pub selections : List (Text × StepSelection)
  pub assertion_refs : List (List Name)
  pub until_refs : List Name
  pub expect_failure : Bool

-- `StepID`.
abbrev pub step_id : Step → Name
step_id s = if is_empty s.slot then (if is_empty s.id then s.node else s.id) else s.slot

abbrev pub step_ids : List Step → List Name
step_ids [] = []
step_ids (s ∷ ss) = step_id s ∷ step_ids ss
