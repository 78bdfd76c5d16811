-- ===== src/Engine/Execute.antt =====
-- How a step is executed: `executeStepWith` of engine/engine.go, `executeStepWithRetry` and
-- `executeStepWithTracking` of engine/retry.go, with the repeated steps of Engine/Repeat. The
-- resolution of a step's inputs, the request an adapter builds and what the API answers, the outputs
-- read from an answer, and the checks of its body are parameters, and times are left out.
pub mod Stamped
use aat.Base.{
  ℕ, zero, suc, ◌==◌, or_else, List, [], ◌∷◌, ◌++◌, Bool, true, false, not, ◌&&◌, if◌then◌else◌,
  Option, none, some, is_some, ltb,
}
use aat.Base.Text.{Text, codes}
use aat.Graph.Names.{Name}
use aat.Engine.Routing.{Router, lookup, resolve_value_override}
use aat.Engine.Failure.{ErrorCategory, adapter, ExpectedStatus}
use aat.Engine.Repeat.{Requests}
use aat.Engine.Repeat.Loop.{execute_step_repeated}
use aat.Engine.Retry.{Run, RetryBlocks, Sending, StepResult, execute_step_with_retry}
use aat.Engine.State.{Values, RunState, store_inputs, get_output}
use aat.Engine.KnownIssue.{KnownIssue}
use aat.Engine.Steps.{RepeatConfig, Node, Input, Step, Exchange, Result}
use aat.Engine.Cleanup.{CleanupEntry}

-- An answer: its status, its gRPC status name, and its body.
pub record Reply (B : Type 0) : Type 0 where
  pub status : ℕ
  pub grpc_name : Text
  pub body : B

-- No request was built or answered, for an error of a category; or an answer came.
pub data Sent (B : Type 0) : Type 0 where
  refused : ErrorCategory → Sent B
  replied : Reply B → Sent B

pub data Resolved (V : Type 0) : Type 0 where
  unresolved : ErrorCategory → Values V → Resolved V
  resolved : Values V → Resolved V

-- The engine with its options, and what it calls. What belongs to an attempt gets the number of the
-- step's request, from 1 on, and of the attempt, from 0 on. `polling` is what a repeated step calls
-- beside its requests and the wait the server asks for, which are those of this engine.
pub record Engine (V X E B : Type 0) : Type 0 where
  pub nodes : List (Name × Node)
  pub router : Router X V (List ExpectedStatus) E
  pub glob_match : Text → Text → Bool
  pub oas_strict : Bool
  pub continue_on_assertion_failure : Bool
  pub stop_after_step : Name
  pub plan_issue : Option KnownIssue
  pub today : ℕ
  pub resolve_inputs : Step → Node → RunState V → ℕ → ℕ → Resolved V
  pub send : Step → Node → Values V → ℕ → ℕ → Sent B
  pub detect_body_error : Node → B → Option ℕ
  pub extract_outputs : Node → Values V → Reply B → Option (Values V)
  pub count_oas_errors : Step → Node → Reply B → ℕ
  pub assertions : Step → Node → RunState V → Reply B → Option (Values V) → Option Bool
  pub polling : Step → Node → RunState V → Values V → Requests V
  pub cancelled : Step → ℕ → ℕ → Bool
  pub cancelled_waiting : Step → ℕ → ℕ → Bool
  pub retry_after : Result V → Option ℕ
  pub backoff : ℕ → ℕ
  -- Whether the run's context is done before a step, after it, and after verification.
  pub done_before : Step → Bool
  pub done_after : Step → Bool
  pub done_verifying : Bool
  -- What the cleanup of the run needs beside this.
  pub send_cleanup : CleanupEntry → Node → Values V → ℕ → Sent B
  pub cleanup_cancelled : CleanupEntry → ℕ → Bool
  pub cleanup_cancelled_waiting : CleanupEntry → ℕ → Bool
  pub count_cleanup_oas_errors : Node → Reply B → ℕ
  pub same_value : V → V → Text → Bool
  pub holds : Text → Values V → Option Bool

module _ {V : Type 0} where
  -- The fields that every result of a step starts from.
  abbrev pub exchange : Step → Values V → Exchange V
  exchange step inputs = record {
    step_id = step.step_id;
    node = step.node;
    cleanup_for = [];
    inputs = inputs;
    outputs = none;
    validation = none;
    oas_errors = 0;
    expect_failure = none;
    known_issue = none;
  }

  abbrev pub failed_result : Step → Values V → ErrorCategory → Result V
  failed_result step inputs c = record {
    rest = exchange step inputs;
    error = some c;
    status_code = 0;
    body_error = none;
    response = none;
    error_class = none;
    retry_count = 0;
    retried_on = [];
  }

  abbrev pub answered : {B : Type 0} → Step → Values V → Reply B → Option ℕ → Result V
  answered step inputs reply body_error = record {
    rest = exchange step inputs;
    error = none;
    status_code = reply.status;
    body_error = body_error;
    response = some reply.grpc_name;
    error_class = none;
    retry_count = 0;
    retried_on = [];
  }

module _ {V X E B : Type 0} (e : Engine V X E B) where
  -- The schema validation and the assertions, which run last.
  abbrev pub checked : Step → Node → RunState V → Reply B → Option (Values V) → Result V → Result V
  checked step node state reply outputs r = record r {
    rest = record r.rest {
      outputs = outputs;
      oas_errors = e.count_oas_errors step node reply;
      validation = if step.has_assertions then e.assertions step node state reply outputs else none;
    };
  }

  abbrev pub with_outputs :
      Step → Node → RunState V → Values V → Reply B → Option ℕ → Option (Values V) → Result V
  with_outputs step node state inputs reply body_error (some outputs) =
      checked step node state reply (some outputs) (answered step inputs reply body_error)
  with_outputs step node state inputs reply (some status) none =
      checked step node state reply none (answered step inputs reply (some status))
  with_outputs step node state inputs reply none none = record (answered step inputs reply none) {
    error = some adapter;
  }

  abbrev pub read_reply : Step → Node → RunState V → Values V → Reply B → Result V
  read_reply step node state inputs reply =
      if ltb reply.status 400
      then with_outputs step node state inputs reply (e.detect_body_error node reply.body)
          (e.extract_outputs node inputs reply)
      else checked step node state reply none (answered step inputs reply none)

  abbrev pub read_sent : Step → Node → RunState V → Values V → Sent B → Result V
  read_sent step node state inputs (refused c) = failed_result step inputs c
  read_sent step node state inputs (replied reply) = read_reply step node state inputs reply

  -- An attempt whose inputs are resolved.
  unfoldable pub execute_step_with : Step → Node → RunState V → Values V → ℕ → ℕ → Result V
  execute_step_with step node state inputs k n =
      read_sent step node state inputs (e.send step node inputs k n)

  abbrev pub sending : Step → ℕ → (ℕ → Result V) → Sending (Exchange V)
  sending step k again = record {
    again = again;
    cancelled = e.cancelled step k;
    cancelled_waiting = e.cancelled_waiting step k;
    retry_after = e.retry_after;
    backoff = e.backoff;
  }

  abbrev pub with_retry : Step → ℕ → (ℕ → Result V) → Run (Exchange V)
  with_retry step k attempt =
      execute_step_with_retry (sending step k attempt)
        (record { expect_failure = step.expect_failure; retry = step.retry }) (attempt 0)

  -- The values of the router's override win over the resolved ones.
  abbrev pub override_values : Node → Resolved V → Resolved V
  override_values node (unresolved c inputs) = unresolved c inputs
  override_values node (resolved inputs) =
      resolved ((resolve_value_override e.glob_match e.router node.name).0 ++ inputs)

  abbrev pub unless_resolved : Resolved V → Resolved V → Resolved V
  unless_resolved (resolved inputs) next = resolved inputs
  unless_resolved (unresolved c inputs) next = next

  -- The inputs of an attempt: those that are prepared, or those of the first attempt that resolved
  -- them. A failed resolution is not kept, so that the next attempt resolves again.
  unfoldable pub attempt_inputs : Step → Node → RunState V → ℕ → Option (Values V) → ℕ → Resolved V
  attempt_inputs step node state k (some inputs) n = resolved inputs
  attempt_inputs step node state k none zero =
      override_values node (e.resolve_inputs step node state k 0)
  attempt_inputs step node state k none (suc n) =
      unless_resolved (attempt_inputs step node state k none n)
        (override_values node (e.resolve_inputs step node state k (suc n)))

  -- Resolved inputs are stored, and prepared ones are not stored again.
  abbrev pub attempt_state : Step → RunState V → Option (Values V) → Resolved V → RunState V
  attempt_state step state (some prepared) inputs = state
  attempt_state step state none (unresolved c inputs) = state
  attempt_state step state none (resolved inputs) = store_inputs step.step_id inputs state

  abbrev pub attempted : Step → Node → RunState V → ℕ → ℕ → Resolved V → Result V
  attempted step node state k n (unresolved c inputs) = failed_result step inputs c
  attempted step node state k n (resolved inputs) = execute_step_with step node state inputs k n

  abbrev pub attempt : Step → Node → RunState V → ℕ → Option (Values V) → ℕ → Result V
  attempt step node state k prepared n =
      let inputs = attempt_inputs step node state k prepared n in
      attempted step node (attempt_state step state prepared inputs) k n inputs

  -- What a request with its retries leaves: the result, the state, and the prepared inputs.
  pub record Executed : Type 0 where
    pub result : Result V
    pub state : RunState V
    pub prepared : Option (Values V)

  abbrev pub as_prepared : Resolved V → Option (Values V)
  as_prepared (unresolved c inputs) = none
  as_prepared (resolved inputs) = some inputs

  abbrev pub after_attempts :
      Step → RunState V → Option (Values V) → (ℕ → Resolved V) → Run (Exchange V) → Executed
  after_attempts step state prepared inputs ended = record {
    result = ended.result;
    state = attempt_state step state prepared (inputs ended.requests);
    prepared = as_prepared (inputs ended.requests);
  }

  -- `executeStepWithRetry`, for the k-th request of a step.
  unfoldable pub execute_with_retry : Step → Node → RunState V → ℕ → Option (Values V) → Executed
  unfolding attempt_inputs
  execute_with_retry step node state k prepared =
      after_attempts step state prepared (attempt_inputs step node state k prepared)
        (with_retry step k (attempt step node state k prepared))

  -- The requests of a repeated step, the first of which is `one`.
  abbrev pub next_request : Step → Node → Executed → ℕ → Values V → Result V
  next_request polled node one n inputs =
      if n == 1
      then one.result
      else (execute_with_retry polled node one.state n (some inputs)).result

  abbrev pub first_inputs : Executed → Values V
  first_inputs one = or_else one.prepared one.result.rest.inputs

  abbrev pub requests_after : Step → Step → Node → Executed → Requests V
  requests_after step polled node one =
      let polling = e.polling step node one.state (first_inputs one) in
      record polling {
        request = next_request polled node one;
        retry_after = e.retry_after;
        assertions = λ r. if step.has_assertions then polling.assertions r else none;
      }

  -- `executeStepRepeated`, after its first request.
  abbrev pub repeat_after : Step → Step → Node → RepeatConfig → Executed → Result V × RunState V
  repeat_after step polled node rc one =
      (execute_step_repeated (requests_after step polled node one) rc (first_inputs one), one.state)

  abbrev pub without_assertions : Step → Step
  without_assertions step = record step { has_assertions = false }

  abbrev pub unless_repeated :
      Step → Node → RunState V → Option RepeatConfig → Result V × RunState V
  unless_repeated step node state none =
      let one = execute_with_retry step node state 1 none in (one.result, one.state)
  unless_repeated step node state (some rc) =
      repeat_after step (without_assertions step) node rc
        (execute_with_retry (without_assertions step) node state 1 none)

  unfoldable pub execute_step_with_tracking : Step → Node → RunState V → Result V × RunState V
  unfolding execute_with_retry
  execute_step_with_tracking step node state = unless_repeated step node state step.repeat

  -- `sendCleanupEntry`.
  abbrev pub cleanup_exchange : CleanupEntry → Values V → Exchange V
  cleanup_exchange entry inputs = record {
    step_id = entry.node_name;
    node = entry.node_name;
    cleanup_for = [];
    inputs = inputs;
    outputs = none;
    validation = none;
    oas_errors = 0;
    expect_failure = none;
    known_issue = none;
  }

  abbrev pub cleanup_failed : CleanupEntry → Values V → ErrorCategory → Result V
  cleanup_failed entry inputs c = record {
    rest = cleanup_exchange entry inputs;
    error = some c;
    status_code = 0;
    body_error = none;
    response = none;
    error_class = none;
    retry_count = 0;
    retried_on = [];
  }

  abbrev pub read_cleanup : CleanupEntry → Node → Values V → Sent B → Result V
  read_cleanup entry node inputs (refused c) = cleanup_failed entry inputs c
  read_cleanup entry node inputs (replied reply) = record {
    rest = record (cleanup_exchange entry inputs) {
      outputs = e.extract_outputs node inputs reply;
      oas_errors = e.count_cleanup_oas_errors node reply;
    };
    error = none;
    status_code = reply.status;
    body_error = if ltb reply.status 400 then e.detect_body_error node reply.body else none;
    response = some reply.grpc_name;
    error_class = none;
    retry_count = 0;
    retried_on = [];
  }

  abbrev pub send_cleanup_entry : CleanupEntry → Option Node → Values V → ℕ → Result V
  send_cleanup_entry entry none inputs n = cleanup_failed entry [] adapter
  send_cleanup_entry entry (some node) inputs n =
      read_cleanup entry node inputs (e.send_cleanup entry node inputs n)

  abbrev pub cleanup_sending : CleanupEntry → Values V → Sending (Exchange V)
  cleanup_sending entry inputs = record {
    again = send_cleanup_entry entry (lookup entry.node_name e.nodes) inputs;
    cancelled = e.cleanup_cancelled entry;
    cancelled_waiting = e.cleanup_cancelled_waiting entry;
    retry_after = e.retry_after;
    backoff = e.backoff;
  }
