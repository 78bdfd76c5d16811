-- ===== src/Engine/Retry/Laws.antt =====
-- What a retried step reports (engine/retry.go).
use native.Mathlib.Omega.{arith}
use aat.Base.{
  ℕ, zero, suc, ◌+◌, ◌≤◌, List, [], ◌∷◌, ◌++◌, Bool, true, false, if◌then◌else◌, Option, none, some,
  length, length-append, All, ◌≡◌, refl, sym, ap, ◌∙◌,
}
use aat.Engine.Failure.{ErrorCategory, RetryConfig, should_retry}
use aat.Engine.Retry.{
  ErrorClassification, StepResult, Run, Sending, Action, failed, failed_fast, retry_loop,
  retry_result, max_retry_after, failure_status, only, failure_of, resent, asks_too_long, wait_for,
  round, unless_done,
}

-- What every end of a retried step keeps: `left` retries were allowed, `n` sent before.
abbrev pub Kept : {P : Type 0} → ℕ → ℕ → Run P → Type 0
Kept left n run =
    (n + run.requests ≤ run.result.retry_count)
    × (run.result.retry_count ≤ n + run.requests + 1)
    × (run.result.retry_count ≤ n + left)
    × (length (run.result.retried_on) ≡ run.result.retry_count)

wait_for-le :
    (b : ℕ) (o : Option ℕ)
    → b ≤ max_retry_after
    → asks_too_long o ≡ false
    → wait_for b o ≤ max_retry_after
wait_for-le b none hb h = hb
wait_for-le b (some a) hb h = ground arith

pub round-any :
    {P : Type 0} (Q : Run P → Type 0) (x y z w : Bool) (a b c d : StepResult P) (e : Run P)
    → Q (only a)
    → Q (only b)
    → Q (only c)
    → Q (only d)
    → (y ≡ true → z ≡ false → Q e)
    → Q (round x y z w a b c d e)
round-any Q true y z w a b c d e qa qb qc qd qe = qa
round-any Q false false z w a b c d e qa qb qc qd qe = qb
round-any Q false true true w a b c d e qa qb qc qd qe = qc
round-any Q false true false true a b c d e qa qb qc qd qe = qd
round-any Q false true false false a b c d e qa qb qc qd qe = qe refl refl

pub unless_done-any :
    {P : Type 0} (Q : Run P → Type 0) (o : Option ErrorClassification) (r : StepResult P)
    (k : ErrorClassification → Run P)
    → Q (only r)
    → ((cls : ErrorClassification) → Q (k cls))
    → Q (unless_done o r k)
unless_done-any Q none r k qr qk = qr
unless_done-any Q (some cls) r k qr qk = qk cls

module _ {P : Type 0} (s : Sending P) (failing : StepResult P → Option ErrorClassification)
    (cfg : RetryConfig) (refused : Action) where
  retry_loop-Kept :
      (left n : ℕ) (r : StepResult P) (cls : ErrorClassification) (seen : List ErrorCategory)
      → length seen ≡ n
      → length (r.retried_on) ≡ n
      → r.retry_count ≡ n
      → Kept left n (retry_loop s failing cfg refused left n r cls seen)
  unfolding retry_loop
  retry_loop-Kept zero n r cls seen hs hr hc = (omega arith, omega arith, omega arith, hr ∙ sym hc)
  retry_loop-Kept (suc left) n r cls seen hs hr hc =
      let hs' : length (seen ++ cls.category ∷ []) ≡ suc n =
        omega (arith, length-append seen (cls.category ∷ [])) in
      round-any (Kept (suc left) n) (s.cancelled (suc n))
        (should_retry (failure_of (cls.category) (failure_status r)) (some cfg) (suc n))
        (asks_too_long (s.retry_after r)) (s.cancelled_waiting (suc n)) _ _ _ _ _
        (omega arith, omega arith, omega arith, hs) (omega arith, omega arith, omega arith, hr)
        (omega arith, omega arith, omega arith, hr) (omega arith, omega arith, omega arith, hs')
        (λ _ _.
          let (a, b, c, d) =
            unless_done-any (Kept left (suc n))
              (failing (resent s failing cfg refused (suc n) (seen ++ cls.category ∷ []))) _
              (λ cls'. retry_loop s failing cfg refused left (suc n) _ cls' _)
              (omega arith, omega arith, omega arith, hs')
              (λ cls'. retry_loop-Kept left (suc n) _ cls' _ hs' hs' refl) in
          (omega arith, omega arith, omega arith, d))

  retry_loop-waits :
      (left n : ℕ) (r : StepResult P) (cls : ErrorClassification) (seen : List ErrorCategory)
      → ((k : ℕ) → s.backoff k ≤ max_retry_after)
      → All (λ w. w ≤ max_retry_after) ((retry_loop s failing cfg refused left n r cls seen).waits)
  unfolding retry_loop
  retry_loop-waits zero n r cls seen hb = tt
  retry_loop-waits (suc left) n r cls seen hb =
      round-any (λ run. All (λ w. w ≤ max_retry_after) (run.waits)) (s.cancelled (suc n))
        (should_retry (failure_of (cls.category) (failure_status r)) (some cfg) (suc n))
        (asks_too_long (s.retry_after r)) (s.cancelled_waiting (suc n)) _ _ _ _ _ tt tt tt tt
        (λ _ short. (
          wait_for-le (s.backoff (suc n)) (s.retry_after r) (hb (suc n)) short,
          unless_done-any (λ run. All (λ w. w ≤ max_retry_after) (run.waits))
              (failing (resent s failing cfg refused (suc n) (seen ++ cls.category ∷ []))) _
              (λ cls'. retry_loop s failing cfg refused left (suc n) _ cls' _) tt
              (λ cls'. retry_loop-waits left (suc n) _ cls' _ hb),
        ))

module _ {P : Type 0} (s : Sending P) where
  -- However a retried step ends, by success, refusal, cancellation or exhaustion, when its first
  -- result counts no retry and reports no category: it reports a category for each retry it counts,
  -- counts at most the policy's `max`, and counts the retries that were sent or one more.
  pub retry_result-counts :
      (first : StepResult P) (cfg : RetryConfig) (written : Bool)
      (failing : StepResult P → Option ErrorClassification)
      → first.retry_count ≡ 0
      → first.retried_on ≡ []
      → Kept (cfg.max_retries) 0 (retry_result s first cfg written failing)
  unfolding retry_result
  retry_result-counts first cfg written failing hc hr =
      unless_done-any (Kept (cfg.max_retries) 0) (failing first) first
        (λ cls.
          retry_loop s failing cfg (if written then failed_fast else failed) (cfg.max_retries) 0
            first cls [])
        (omega arith, omega arith, omega arith, ap length hr ∙ sym hc)
        (λ cls.
          retry_loop-Kept s failing cfg _ (cfg.max_retries) 0 first cls [] refl (ap length hr) hc)

  -- No wait between two attempts is longer than the 60 seconds that cap what a server may ask for,
  -- when the policy's own backoff is not.
  pub retry_result-waits :
      (first : StepResult P) (cfg : RetryConfig) (written : Bool)
      (failing : StepResult P → Option ErrorClassification)
      → ((k : ℕ) → s.backoff k ≤ max_retry_after)
      → All (λ w. w ≤ max_retry_after) ((retry_result s first cfg written failing).waits)
  unfolding retry_result
  retry_result-waits first cfg written failing hb =
      unless_done-any (λ run. All (λ w. w ≤ max_retry_after) (run.waits)) (failing first) first
        (λ cls.
          retry_loop s failing cfg (if written then failed_fast else failed) (cfg.max_retries) 0
            first cls [])
        tt (λ cls. retry_loop-waits s failing cfg _ (cfg.max_retries) 0 first cls [] hb)
