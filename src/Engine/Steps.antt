-- ===== src/Engine/Steps.antt =====
-- The steps, nodes and step results that a run reads and writes: plan/types.go, graph/types.go,
-- graph/cleanup_pairing.go and engine/result.go. `V` are the values of inputs and outputs.
use aat.Base.{ℕ, List, Bool, Option, is_some, ltb, not, ◌&&◌}
use aat.Base.Text.{Text}
use aat.Graph.Names.{Name}
use aat.Engine.Failure.{ExpectedStatus, RetryConfig}
use aat.Engine.Retry.{StepResult}
use aat.Engine.State.{Values}
use aat.Engine.KnownIssue.{KnownIssue, KnownIssueResult}

-- An empty text stands for an unset `node` or `when`, as in the source.
pub record CleanupPairing : Type 0 where
  pub node : Name
  pub when : Text
  pub released_by : List Name

pub record Input : Type 0 where
  pub name : Name
  pub type : Text

pub record Node : Type 0 where
  pub name : Name
  pub cleanup : CleanupPairing
  pub inputs : List Input

-- The repeat block: `limit` is `max`, and `timeout` is 0 when there is none. The durations are in
-- nanoseconds.
pub record RepeatConfig : Type 0 where
  pub has_until : Bool
  pub next : List (Name × Name)
  pub collect : List Name
  pub interval : ℕ
  pub limit : ℕ
  pub timeout : ℕ

-- `step_id` is what `Step.StepID` gives, and `values` are the inputs that the step sets, with the
-- `From` of each. `has_assertions` says whether it has mechanical assertions.
pub record Step : Type 0 where
  pub step_id : Name
  pub node : Name
  pub values : List (Text × Text)
  pub retry : Option RetryConfig
  pub expect_failure : Option (List ExpectedStatus)
  pub known_issue : Option KnownIssue
  pub repeat : Option RepeatConfig
  pub has_assertions : Bool

-- The fields of `StepResult` that retries leave alone. `validation` and `expect_failure` are the
-- `Passed` of those results, and `oas_errors` is what `stepOASErrorCount` counts.
pub record Exchange (V : Type 0) : Type 0 where
  pub step_id : Name
  pub node : Name
  pub cleanup_for : Name
  pub inputs : Values V
  pub outputs : Option (Values V)
  pub validation : Option Bool
  pub oas_errors : ℕ
  pub expect_failure : Option Bool
  pub known_issue : Option KnownIssueResult

abbrev pub Result : Type 0 → Type 0
Result V = StepResult (Exchange V)

-- `cleanupSucceeded`.
abbrev pub cleanup_succeeded : {V : Type 0} → Result V → Bool
cleanup_succeeded r = not (is_some r.error) && ltb r.status_code 400 && not (is_some r.body_error)

-- `stepReleased`.
abbrev pub step_released : {V : Type 0} → Result V → Bool
step_released r = cleanup_succeeded r && not (is_some r.rest.expect_failure)
