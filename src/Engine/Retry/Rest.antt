-- ===== src/Engine/Retry/Rest.antt =====
-- Retries leave the fields of a result alone that are not their own (engine/retry.go).
use aat.Base.{ℕ, zero, suc, ◌++◌, List, [], ◌∷◌, Bool, if◌then◌else◌, Option, none, some}
use aat.Engine.Failure.{RetryConfig, should_retry}
use aat.Engine.Retry.{
  ErrorClassification, StepResult, Sending, Action, failed, failed_fast, retry_loop, retry_result,
  failure_status, failure_of, resent, asks_too_long, RetryBlocks, run_policy, failing_for,
}
use aat.Engine.Retry.Laws.{round-any, unless_done-any}

module _ {P : Type 0} (Q : P → Type 0) (s : Sending P) where
  retry_loop-rest :
      (failing : StepResult P → Option ErrorClassification) (cfg : RetryConfig) (refusal : Action)
      (left n : ℕ) (r : StepResult P) (cls : ErrorClassification) (seen : List _)
      → ((n : ℕ) → Q (s.again n).rest)
      → Q r.rest
      → Q (retry_loop s failing cfg refusal left n r cls seen).result.rest
  unfolding retry_loop
  retry_loop-rest failing cfg refusal zero n r cls seen all q = q
  retry_loop-rest failing cfg refusal (suc left) n r cls seen all q =
      round-any (λ run. Q run.result.rest) (s.cancelled (suc n))
        (should_retry (failure_of (cls.category) (failure_status r)) (some cfg) (suc n))
        (asks_too_long (s.retry_after r)) (s.cancelled_waiting (suc n)) _ _ _ _ _ q q q q
        (λ _ _.
          unless_done-any (λ run. Q run.result.rest)
            (failing (resent s failing cfg refusal (suc n) (seen ++ cls.category ∷ []))) _
            (λ cls'. retry_loop s failing cfg refusal left (suc n) _ cls' _) (all (suc n))
            (λ cls'. retry_loop-rest failing cfg refusal left (suc n) _ cls' _ all (all (suc n))))

  pub run_policy-rest :
      (step : RetryBlocks) (first : StepResult P) (policy : Option RetryConfig × Bool)
      → Q first.rest
      → ((n : ℕ) → Q (s.again n).rest)
      → Q (run_policy s step first policy).result.rest
  unfolding retry_result
  run_policy-rest step first (none, written) q all = q
  run_policy-rest step first (some cfg, written) q all =
      unless_done-any (λ run. Q run.result.rest) (failing_for s step.expect_failure first) first
        (λ cls.
          retry_loop s (failing_for s step.expect_failure) cfg
            (if written then failed_fast else failed) (cfg.max_retries) 0 first cls [])
        q
        (λ cls.
          retry_loop-rest (failing_for s step.expect_failure) cfg _ (cfg.max_retries) 0 first cls []
            all q)
