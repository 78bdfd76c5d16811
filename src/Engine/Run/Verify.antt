-- ===== src/Engine/Run/Verify.antt =====
-- The verification steps of a run: `runVerification` and `fillValuesByOutputName` of
-- engine/engine.go.
use aat.Base.{List, [], ◌∷◌, ◌++◌, if◌then◌else◌, Option, none, some, is_some, leb}
use aat.Base.Text.{Text, codes}
use aat.Graph.Names.{Name}
use aat.Engine.Routing.{lookup, first_of}
use aat.Engine.State.{RunState, get_output}
use aat.Engine.KnownIssue.{RunOutcome, failed, errored}
use aat.Engine.Steps.{Node, Input, Step, Result}
use aat.Engine.Cleanup.Skip.{output_sources}
use aat.Engine.Execute.{Engine, execute_step_with_tracking}
use aat.Engine.Run.{
  FailureKind, step_error, status_error, body_error, oas_error, mechanical, missing_node, Failure,
  not_valid, oas_strict_error, store_some,
}

-- What a run verified: its results, outcome and error, and the state.
pub record Verified (V : Type 0) : Type 0 where
  pub results : List (Result V)
  pub outcome : RunOutcome
  pub error : Option Failure
  pub state : RunState V

abbrev pub failure_at : Name → FailureKind → Failure
failure_at id kind = record { step = id; kind = kind; lapsed_on = none }

abbrev pub wire : Text → Option Name → List (Text × Text) → List (Text × Text)
wire name none values = values
wire name (some id) values = (name, id ++ (codes "." ++ name)) ∷ values

module _ {V : Type 0} where
  -- The first source with an output of the name.
  unfoldable pub source_with : RunState V → Text → List Name → Option Name
  source_with state name [] = none
  source_with state name (id ∷ ids) =
      let later = source_with state name ids in
      if is_some (get_output state id name) then some id else later

  -- `fillValuesByOutputName`.
  unfoldable pub fill_values :
      List Input → RunState V → List Name → List (Text × Text) → List (Text × Text)
  fill_values [] state sources values = values
  fill_values (i ∷ is) state sources values = fill_values is state sources (
      if is_some (lookup i.name values)
      then values
      else wire i.name (source_with state i.name sources) values)

module _ {V X E B : Type 0} (e : Engine V X E B) where
  abbrev pub verification_failure : Step → Result V → Option FailureKind
  verification_failure step r =
      if leb 400 r.status_code
      then some status_error
      else if is_some r.body_error
      then some body_error
      else if not_valid r
      then some mechanical
      else if oas_strict_error e.oas_strict step.expect_failure r
      then some oas_error
      else none

  abbrev pub fill_step : Step → Node → RunState V → Step
  fill_step step node state = record step {
    values = fill_values node.inputs state (output_sources state) step.values;
  }

  -- The round of `runVerification` after a step's result; `go` is the rest of the loop, with the
  -- outcome, the first error and the state.
  abbrev pub verify_on :
      Step
      → Result V
      → Option FailureKind
      → List (Result V)
      → RunOutcome
      → Option Failure
      → RunState V
      → (RunOutcome → Option Failure → RunState V → Verified V)
      → Verified V
  verify_on step r none results outcome first state go =
      go outcome first (store_some e step.step_id r.rest.outputs state)
  verify_on step r (some kind) results outcome first state go =
      let err = first_of first (some (failure_at step.step_id kind)) in
      if e.continue_on_assertion_failure
      then go failed err state
      else record { results = results; outcome = failed; error = err; state = state }

  abbrev pub verified_error : List (Result V) → Failure → RunState V → Verified V
  verified_error results err state = record {
    results = results;
    outcome = errored;
    error = some err;
    state = state;
  }

  unfoldable pub run_verification :
      List Step → RunState V → List (Result V) → RunOutcome → Option Failure → Verified V
  run_verification [] state results outcome first = record {
    results = results;
    outcome = outcome;
    error = first;
    state = state;
  }
  run_verification (step ∷ steps) state results outcome first = elim (lookup step.node e.nodes) [
    | none ↦ verified_error results (failure_at step.node missing_node) state
    | some node ↦
        let (r, state') = execute_step_with_tracking e (fill_step step node state) node state in
        let results' = results ++ r ∷ [] in
        if is_some r.error
        then verified_error results' (failure_at step.step_id step_error) state'
        else verify_on step r (verification_failure step r) results' outcome first state'
            (λ outcome first state. run_verification steps state results' outcome first)
  ]
