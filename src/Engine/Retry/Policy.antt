-- ===== src/Engine/Retry/Policy.antt =====
-- What the policies that no step writes retry (engine/retry.go, engine/errors.go).
use native.Mathlib.Omega.{arith}
use aat.Base.{
  ℕ, List, Bool, true, false, not, ◌&&◌, ◌||◌, if◌then◌else◌, ◌==◌, leb, Option, none, some,
  is_some, ◌≡◌, refl, ap,
}
use aat.Base.Text.{Text}
use aat.Engine.Failure.{
  RetryFailure, RetryConfig, ExpectedStatus, any_expects, should_retry, retry_rule_matches, atoi,
  code_by_name,
}
use aat.Engine.Retry.{
  ErrorClassification, StepResult, Run, Sending, rate_limit_retry, failure_status,
  execute_step_with_retry, retry_policy, unexpected_rate_limit, unless_expected,
  classify_step_result, run_policy, only, retry_result, unless_done,
}

-- The policy of a step without a retry block retries an attempt just when it is one of the first
-- three and the API answered 429.
pub should_retry-rate_limit_retry :
    (f : RetryFailure) (attempt : ℕ)
    → should_retry f (some rate_limit_retry) attempt ≡ (leb attempt 3 && f.status == 429)
unfolding should_retry retry_rule_matches atoi code_by_name
should_retry-rate_limit_retry f attempt = ground arith

unexpected_rate_limit-expected :
    {P : Type 0} (es : List ExpectedStatus) (r : StepResult P)
    → (not ((failure_status r).0 == 429)
        || any_expects es ((failure_status r).0) ((failure_status r).1))
      ≡ true
    → unexpected_rate_limit es r ≡ none
unfolding unexpected_rate_limit
unexpected_rate_limit-expected es r h = elim-response (r.response)
  where
    elim-response :
        (o : Option Text)
        → (if is_some o
            then unless_expected es (failure_status r) (classify_step_result r)
            else none)
          ≡ none
    elim-response none = refl
    elim-response (some t) = ap (λ b. if b then none else classify_step_result r) h

unless_done-none :
    {P : Type 0} (o : Option ErrorClassification) (r : StepResult P)
    (k : ErrorClassification → Run P)
    → o ≡ none
    → unless_done o r k ≡ only r
unless_done-none none r k h = refl
unless_done-none (some cls) r k h = cc

run_policy-expected :
    {P : Type 0} (s : Sending P) (first : StepResult P) (es : List ExpectedStatus)
    (retry : Option RetryConfig) (off : Bool)
    → (not ((failure_status first).0 == 429)
        || any_expects es ((failure_status first).0) ((failure_status first).1))
      ≡ true
    → run_policy s
        (record { expect_failure = some es; retry = retry })
        first
        (if off then (none, false) else (some rate_limit_retry, false))
      ≡ only first
unfolding retry_result
run_policy-expected s first es retry true h = refl
run_policy-expected s first es retry false h =
    unless_done-none _ first _ (unexpected_rate_limit-expected es first h)

-- A step that expects a failure sends its request once, whatever its retry block, unless the API
-- answered with a 429 that the step does not expect.
pub execute_step_with_retry-expected :
    {P : Type 0} (s : Sending P) (first : StepResult P) (es : List ExpectedStatus)
    (retry : Option RetryConfig)
    → (not ((failure_status first).0 == 429)
        || any_expects es ((failure_status first).0) ((failure_status first).1))
      ≡ true
    → execute_step_with_retry s (record { expect_failure = some es; retry = retry }) first
      ≡ only first
unfolding execute_step_with_retry retry_policy retry_result
execute_step_with_retry-expected s first es none h =
    unless_done-none _ first _ (unexpected_rate_limit-expected es first h)
execute_step_with_retry-expected s first es (some cfg) h =
    run_policy-expected s first es (some cfg) (cfg.max_retries == 0) h
