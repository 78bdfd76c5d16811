-- ===== src/Engine/Retry.antt =====
-- How a step is retried: engine/retry.go. What sending a request gives is a parameter: `again n` is
-- the result of the n-th retry, `cancelled` and `cancelled_waiting` say whether the run's context
-- is done before and during the wait of an attempt, and `retry_after` and `backoff` are the waits
-- the server asks for and the policy adds, in nanoseconds. Beside its result a run gives how many
-- retries were sent, and the waits; the times that a result records are left out.
use aat.Base.{
  ℕ, zero, suc, ◌+◌, ◌-◌, List, [], ◌∷◌, ◌++◌, Bool, true, false, not, ◌&&◌, ◌||◌, if◌then◌else◌,
  ◌==◌, ltb, leb, Option, none, some, is_some, or_else, max,
}
use aat.Base.Text.{Text, codes}
use aat.Engine.Failure.{
  ErrorCategory, timeout, response_error, RetryFailure, RetryConfig, ExpectedStatus, any_expects,
  classify_status_code, should_retry,
}
use mathlib.Core.Path.{◌≡◌, refl}
pub mod Laws
pub mod Policy
pub mod Rest

pub data Action : Type 0 where
  unset retried failed failed_fast : Action

pub record ErrorClassification : Type 0 where
  pub category : ErrorCategory
  pub action : Action
  pub retry_attempt : ℕ

-- The fields of `StepResult` that a retry reads and writes: `Error`, by the category `classifyError`
-- gives it (the context's is a timeout), `StatusCode`, `ResponseBodyError`, by its status, and
-- `Response`, by its gRPC name. `rest` stands for the others, which the request alone gives.
pub record StepResult (P : Type 0) : Type 0 where
  pub rest : P
  pub error : Option ErrorCategory
  pub status_code : ℕ
  pub body_error : Option ℕ
  pub response : Option Text
  pub error_class : Option ErrorClassification
  pub retry_count : ℕ
  pub retried_on : List ErrorCategory

-- `StepResult.FailureStatus` of engine/error_detection.go.
abbrev pub body_or : Option ℕ → ℕ × Text → ℕ × Text
body_or none d = d
body_or (some zero) d = d
body_or (some (suc n)) d = (suc n, [])

abbrev pub failure_status : {P : Type 0} → StepResult P → ℕ × Text
failure_status r = body_or (r.body_error) (r.status_code, or_else (r.response) [])

-- `classifyStepResult`.
abbrev pub classify : Option ErrorCategory → Option ErrorCategory → Option ℕ → Option ErrorCategory
classify (some c) _ _ = some c
classify none (some c) _ = some c
classify none none (some status) = some response_error
classify none none none = none

abbrev pub classified : Option ErrorCategory → Option ErrorClassification
classified none = none
classified (some c) = some (record { category = c; action = unset; retry_attempt = 0 })

unfoldable pub classify_step_result : {P : Type 0} → StepResult P → Option ErrorClassification
classify_step_result r =
    classified (classify (r.error) (classify_status_code (r.status_code)) (r.body_error))

-- A step's result with the number of retries that were sent and the waits before them.
pub record Run (P : Type 0) : Type 0 where
  pub result : StepResult P
  pub requests : ℕ
  pub waits : List ℕ

pub record Sending (P : Type 0) : Type 0 where
  pub again : ℕ → StepResult P
  pub cancelled : ℕ → Bool
  pub cancelled_waiting : ℕ → Bool
  pub retry_after : StepResult P → Option ℕ
  pub backoff : ℕ → ℕ

-- 60 seconds.
abbrev pub max_retry_after : ℕ
max_retry_after = 60000000000

abbrev pub rate_limit_retry : RetryConfig
rate_limit_retry = record { max_retries = 3; on = codes "429" ∷ []; fail_on = [] }

abbrev pub cleanup_retry : RetryConfig
cleanup_retry = record { max_retries = 3; on = []; fail_on = [] }

abbrev pub policy_for :
    Option (List ExpectedStatus) → Option RetryConfig → Option RetryConfig × Bool
policy_for (some es) (some cfg) =
    if cfg.max_retries == 0 then (none, false) else (some rate_limit_retry, false)
policy_for (some es) none = (some rate_limit_retry, false)
policy_for none none = (some rate_limit_retry, false)
policy_for none (some cfg) = (some cfg, true)

-- The parts of a step that say how it is retried: the statuses of `ExpectFailure`, and `Retry`.
pub record RetryBlocks : Type 0 where
  pub expect_failure : Option (List ExpectedStatus)
  pub retry : Option RetryConfig

unfoldable pub retry_policy : RetryBlocks → Option RetryConfig × Bool
retry_policy step = policy_for (step.expect_failure) (step.retry)

abbrev pub unless_expected :
    List ExpectedStatus → ℕ × Text → Option ErrorClassification → Option ErrorClassification
unless_expected es (status, name) cls =
    if not (status == 429) || any_expects es status name then none else cls

unfoldable pub unexpected_rate_limit :
    {P : Type 0} → List ExpectedStatus → StepResult P → Option ErrorClassification
unexpected_rate_limit es r =
    if is_some (r.response)
    then unless_expected es (failure_status r) (classify_step_result r)
    else none

abbrev asks_too_long : Option ℕ → Bool
asks_too_long none = false
asks_too_long (some after) = ltb max_retry_after after

abbrev wait_for : ℕ → Option ℕ → ℕ
wait_for backoff none = backoff
wait_for backoff (some after) = max backoff after

abbrev pub failure_of : ErrorCategory → ℕ × Text → RetryFailure
failure_of c (status, name) = record { category = c; status = status; grpc_name = name }

abbrev pub end_cancelled : {P : Type 0} → ℕ → ℕ → List ErrorCategory → StepResult P → StepResult P
end_cancelled attempt count seen r = record r {
  error = some timeout;
  error_class = some (record { category = timeout; action = failed; retry_attempt = attempt });
  retry_count = count;
  retried_on = seen;
}

-- The failing ends that set `RetryCount`, and the last one, which leaves it as it is.
abbrev pub end_failed :
    {P : Type 0} → Action → ℕ → ErrorClassification → StepResult P → StepResult P
end_failed a attempt cls r = record r {
  error_class = some (record cls { action = a; retry_attempt = attempt });
}

abbrev pub refuse : {P : Type 0} → Action → ℕ → ErrorClassification → StepResult P → StepResult P
refuse a count cls r = record (end_failed a count cls r) { retry_count = count }

abbrev pub only : {P : Type 0} → StepResult P → Run P
only r = record { result = r; requests = 0; waits = [] }

abbrev pub sent_once : {P : Type 0} → ℕ → Run P → Run P
sent_once w run = record run { requests = suc (run.requests); waits = w ∷ run.waits }

-- The early returns of a round of the loop: a done context, a failure the rules refuse, a server
-- that asks to wait too long, a context done while waiting; then the request is sent again.
abbrev pub round : {P : Type 0} → (_ _ _ _ : Bool) → (_ _ _ _ : StepResult P) → Run P → Run P
round true _ _ _ a b c d e = only a
round false false _ _ a b c d e = only b
round false true true _ a b c d e = only c
round false true false true a b c d e = only d
round false true false false a b c d e = e

abbrev pub unless_done :
    {P : Type 0} → Option ErrorClassification → StepResult P → (ErrorClassification → Run P) → Run P
unless_done none r k = only r
unless_done (some cls) r k = k cls

module _ {P : Type 0} (s : Sending P) (failing : StepResult P → Option ErrorClassification)
    (cfg : RetryConfig) (refused : Action) where
  abbrev pub resent : ℕ → List ErrorCategory → StepResult P
  resent attempt seen = record (s.again attempt) { retry_count = attempt; retried_on = seen }

  -- The loop from an attempt on: the attempts left, the number `n` of those before, the last
  -- result, its classification, and `retriedOn`.
  unfoldable pub retry_loop :
      ℕ → ℕ → StepResult P → ErrorClassification → List ErrorCategory → Run P
  retry_loop zero n r cls seen = only (end_failed failed (cfg.max_retries) cls r)
  retry_loop (suc left) n r cls seen =
      let seen' = seen ++ cls.category ∷ [] in
      round (s.cancelled (suc n))
        (should_retry (failure_of (cls.category) (failure_status r)) (some cfg) (suc n))
        (asks_too_long (s.retry_after r)) (s.cancelled_waiting (suc n))
        (end_cancelled (suc n) n seen r) (refuse refused n cls r) (refuse failed_fast n cls r)
        (end_cancelled (suc n) (suc n) seen' r)
        (sent_once (wait_for (s.backoff (suc n)) (s.retry_after r)) (
          unless_done (failing (resent (suc n) seen')) (resent (suc n) seen')
            (λ cls'. retry_loop left (suc n) (resent (suc n) seen') cls' seen')))

module _ {P : Type 0} (s : Sending P) where
  unfoldable pub retry_result :
      StepResult P → RetryConfig → Bool → (StepResult P → Option ErrorClassification) → Run P
  retry_result first cfg written failing = unless_done (failing first) first (λ cls.
      retry_loop s failing cfg (if written then failed_fast else failed) (cfg.max_retries) 0 first
        cls [])

  abbrev pub failing_for : Option (List ExpectedStatus) → StepResult P → Option ErrorClassification
  failing_for none r = classify_step_result r
  failing_for (some es) r = unexpected_rate_limit es r

  abbrev pub run_policy : RetryBlocks → StepResult P → Option RetryConfig × Bool → Run P
  run_policy step first (none, written) = only first
  run_policy step first (some cfg, written) =
      retry_result first cfg written (failing_for (step.expect_failure))

  -- `executeStepWithRetry` after its first request.
  unfoldable pub execute_step_with_retry : RetryBlocks → StepResult P → Run P
  execute_step_with_retry step first = run_policy step first (retry_policy step)
