-- ===== src/Engine/Execute/Stamped.antt =====
-- The fields of a step's result that no request and no retry decides (engine/engine.go,
-- engine/retry.go).
use aat.Base.{
  ◌==◌, Bool, true, false, if◌then◌else◌, ℕ, Option, none, some, ◌≡◌, refl, Bool-cases, inl, inr,
  ltb,
}
use aat.Engine.Retry.{retry_policy, execute_step_with_retry}
use aat.Engine.Retry.Rest.{run_policy-rest}
use aat.Engine.State.{Values, RunState}
use aat.Engine.Repeat.Rest.{execute_step_repeated-rest}
use aat.Engine.Steps.{RepeatConfig, Node, Step, Exchange, Result}
use aat.Engine.Execute.{
  Engine, Reply, Sent, refused, replied, Resolved, unresolved, resolved, read_sent, with_outputs,
  with_retry, sending, execute_step_with, execute_step_with_tracking, Executed, attempted,
  attempt_state, execute_with_retry, without_assertions, next_request, repeat_after, requests_after,
  first_inputs, unless_repeated,
}

-- The result is the step's, and neither its expectation nor a known issue has marked it yet.
pub record IsStamped {V : Type 0} (step : Step) (r : Exchange V) : Type 0 where
  pub names_step : r.step_id ≡ step.step_id
  pub names_node : r.node ≡ step.node
  pub unmarked : r.expect_failure ≡ none
  pub unsettled : r.known_issue ≡ none

module _ {V X E B : Type 0} (e : Engine V X E B) (step : Step) (node : Node) where
  with_outputs-IsStamped :
      (state : RunState V) (inputs : Values V) (reply : Reply B) (body_error : Option ℕ)
      (outputs : Option (Values V))
      → IsStamped step (with_outputs e step node state inputs reply body_error outputs).rest
  with_outputs-IsStamped state inputs reply body_error (some outputs) = record {
    names_step = refl;
    names_node = refl;
    unmarked = refl;
    unsettled = refl;
  }
  with_outputs-IsStamped state inputs reply (some status) none = record {
    names_step = refl;
    names_node = refl;
    unmarked = refl;
    unsettled = refl;
  }
  with_outputs-IsStamped state inputs reply none none = record {
    names_step = refl;
    names_node = refl;
    unmarked = refl;
    unsettled = refl;
  }

  read_sent-IsStamped :
      (state : RunState V) (inputs : Values V) (sent : Sent B)
      → IsStamped step (read_sent e step node state inputs sent).rest
  read_sent-IsStamped state inputs (refused c) = record {
    names_step = refl;
    names_node = refl;
    unmarked = refl;
    unsettled = refl;
  }
  read_sent-IsStamped state inputs (replied reply) = elim (Bool-cases (ltb reply.status 400)) [
    | inl answered ↦ rw answered (with_outputs-IsStamped state inputs reply _ _)
    | inr refusing ↦
        rw refusing
          (record { names_step = refl; names_node = refl; unmarked = refl; unsettled = refl })
  ]

  with_retry-IsStamped :
      (k : ℕ) (attempt : ℕ → Result V)
      → ((n : ℕ) → IsStamped step (attempt n).rest)
      → IsStamped step (with_retry e step k attempt).result.rest
  unfolding execute_step_with_retry
  with_retry-IsStamped k attempt all =
      run_policy-rest (IsStamped step) (sending e step k attempt)
        (record { expect_failure = step.expect_failure; retry = step.retry }) (attempt 0)
        (retry_policy (record { expect_failure = step.expect_failure; retry = step.retry })) (all 0)
        all

  attempted-IsStamped :
      (state : RunState V) (k n : ℕ) (inputs : Resolved V)
      → IsStamped step (attempted e step node state k n inputs).rest
  unfolding execute_step_with
  attempted-IsStamped state k n (unresolved c inputs) = record {
    names_step = refl;
    names_node = refl;
    unmarked = refl;
    unsettled = refl;
  }
  attempted-IsStamped state k n (resolved inputs) =
      read_sent-IsStamped state inputs (e.send step node inputs k n)

  execute_with_retry-IsStamped :
      (state : RunState V) (k : ℕ) (prepared : Option (Values V))
      → IsStamped step (execute_with_retry e step node state k prepared).result.rest
  unfolding execute_with_retry
  execute_with_retry-IsStamped state k prepared =
      with_retry-IsStamped k _ (λ n. attempted-IsStamped _ k n _)

  attempt_state-outputs :
      (state : RunState V) (prepared : Option (Values V)) (inputs : Resolved V)
      → (attempt_state e step state prepared inputs).outputs ≡ state.outputs
  attempt_state-outputs state (some prepared) inputs = refl
  attempt_state-outputs state none (unresolved c inputs) = refl
  attempt_state-outputs state none (resolved inputs) = refl

  execute_with_retry-outputs :
      (state : RunState V) (k : ℕ) (prepared : Option (Values V))
      → (execute_with_retry e step node state k prepared).state.outputs ≡ state.outputs
  unfolding execute_with_retry
  execute_with_retry-outputs state k prepared = attempt_state-outputs state prepared _

module _ {V X E B : Type 0} (e : Engine V X E B) (step : Step) (node : Node) where
  next_request-IsStamped :
      (polled : Step) (one : Executed e) (n : ℕ) (inputs : Values V)
      → IsStamped polled one.result.rest
      → IsStamped polled (next_request e polled node one n inputs).rest
  next_request-IsStamped polled one n inputs h =
      if-IsStamped (n == 1) _ _ h
        (execute_with_retry-IsStamped e polled node one.state n (some inputs))
    where
      if-IsStamped :
          (b : Bool) (x y : Result V)
          → IsStamped polled x.rest
          → IsStamped polled y.rest
          → IsStamped polled (if b then x else y).rest
      if-IsStamped true x y h k = h
      if-IsStamped false x y h k = k

  repeat_after-IsStamped :
      (polled : Step) (rc : RepeatConfig) (one : Executed e)
      → IsStamped polled one.result.rest
      → IsStamped polled (repeat_after e step polled node rc one).0.rest
  repeat_after-IsStamped polled rc one h =
      execute_step_repeated-rest (requests_after e step polled node one) rc (IsStamped polled)
        (λ x i s. record {
          names_step = s.names_step;
          names_node = s.names_node;
          unmarked = s.unmarked;
          unsettled = s.unsettled;
        })
        (λ x o s. record {
          names_step = s.names_step;
          names_node = s.names_node;
          unmarked = s.unmarked;
          unsettled = s.unsettled;
        })
        (λ x v s. record {
          names_step = s.names_step;
          names_node = s.names_node;
          unmarked = s.unmarked;
          unsettled = s.unsettled;
        })
        (λ n inputs. next_request-IsStamped polled one n inputs h) (first_inputs e one)

  unless_repeated-IsStamped :
      (state : RunState V) (o : Option RepeatConfig)
      → IsStamped step (unless_repeated e step node state o).0.rest
  unless_repeated-IsStamped state none = execute_with_retry-IsStamped e step node state 1 none
  unless_repeated-IsStamped state (some rc) =
      let s =
        repeat_after-IsStamped (without_assertions e step) rc
          (execute_with_retry e (without_assertions e step) node state 1 none)
          (execute_with_retry-IsStamped e (without_assertions e step) node state 1 none) in
      record {
        names_step = s.names_step;
        names_node = s.names_node;
        unmarked = s.unmarked;
        unsettled = s.unsettled;
      }

  pub execute_step_with_tracking-IsStamped :
      (state : RunState V) → IsStamped step (execute_step_with_tracking e step node state).0.rest
  unfolding execute_step_with_tracking
  execute_step_with_tracking-IsStamped state = unless_repeated-IsStamped state step.repeat

  unless_repeated-outputs :
      (state : RunState V) (o : Option RepeatConfig)
      → (unless_repeated e step node state o).1.outputs ≡ state.outputs
  unless_repeated-outputs state none = execute_with_retry-outputs e step node state 1 none
  unless_repeated-outputs state (some rc) =
      execute_with_retry-outputs e (without_assertions e step) node state 1 none

  pub execute_step_with_tracking-outputs :
      (state : RunState V)
      → (execute_step_with_tracking e step node state).1.outputs ≡ state.outputs
  unfolding execute_step_with_tracking
  execute_step_with_tracking-outputs state = unless_repeated-outputs state step.repeat
