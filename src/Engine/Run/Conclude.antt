-- ===== src/Engine/Run/Conclude.antt =====
-- What a step's result makes of the outcome (`Run` of engine/engine.go).
use aat.Base.{List, Bool, true, false, not, ◌&&◌, ◌||◌, Option, none, some, is_some, ◌≡◌, arith}
use aat.Engine.Failure.{ExpectedStatus}
use aat.Engine.KnownIssue.{is_passed}
use aat.Engine.Steps.{Node, Step, Result}
use aat.Engine.Execute.{Engine}
use aat.Engine.Run.{
  Vars, not_valid, conclude, conclude_plain, conclude_expected, conclude_checks, fail_or_cover,
  stop_at_checkpoint,
}
use aat.Engine.Run.Settle.{unmet, failing}

-- What the end of a round leaves of the results and of the log's raw outcome, and the outcome.
pub record IsConcluded {V : Type 0} (v v' : Vars V) (good : Bool) : Type 0 where
  pub same_results : v'.results ≡ v.results
  pub same_raw : v'.log.raw ≡ v.log.raw
  pub reports : is_passed v'.outcome ≡ (is_passed v.outcome && good)

module _ {V X E B : Type 0} (e : Engine V X E B) where
  pub stop_at_checkpoint-IsConcluded :
      (step : Step) (v : Vars V) → IsConcluded v (stop_at_checkpoint e step v) true
  stop_at_checkpoint-IsConcluded step v = record {
    same_results = ground arith;
    same_raw = ground arith;
    reports = ground arith;
  }

  pub conclude_checks-IsConcluded :
      (step : Step) (r : Result V) (suppressed : Bool) (v : Vars V)
      → IsConcluded v (conclude_checks e step r suppressed v) (not (not_valid r) || suppressed)
  conclude_checks-IsConcluded step r suppressed v = record {
    same_results = ground arith;
    same_raw = ground arith;
    reports = ground arith;
  }

  pub fail_or_cover-IsConcluded :
      (step : Step) (r : Result V) (kind : _) (suppressed : Bool) (v : Vars V)
      → IsConcluded v (fail_or_cover e step r kind suppressed v) suppressed
  fail_or_cover-IsConcluded step r kind suppressed v = record {
    same_results = ground arith;
    same_raw = ground arith;
    reports = ground arith;
  }

  pub conclude_plain-IsConcluded :
      (step : Step) (node : Node) (r : Result V) (suppressed : Bool) (v : Vars V)
      → step.expect_failure ≡ none
      → IsConcluded v
          (conclude_plain e step node r suppressed v)
          (not (unmet e.oas_strict none r) || suppressed)
  unfolding conclude_plain
  conclude_plain-IsConcluded step node r suppressed v h = record {
    same_results = ground arith;
    same_raw = ground arith;
    reports = ground (arith, h);
  }

  pub conclude_expected-IsConcluded :
      (step : Step) (r : Result V) (suppressed : Bool) (v : Vars V) (met : Bool)
      → r.rest.expect_failure ≡ some met
      → IsConcluded v
          (conclude_expected e step r suppressed v)
          (not (unmet e.oas_strict (some met) r) || suppressed)
  unfolding conclude_expected
  conclude_expected-IsConcluded step r suppressed v true h =
      rw h (conclude_checks-IsConcluded step r suppressed v)
  conclude_expected-IsConcluded step r suppressed v false h =
      rw h (fail_or_cover-IsConcluded step r _ suppressed v)

  pub conclude-IsConcluded :
      (step : Step) (node : Node) (r : Result V) (suppressed : Bool) (v : Vars V)
      (expected : Option (List ExpectedStatus)) (met : Option Bool)
      → step.expect_failure ≡ expected
      → r.rest.expect_failure ≡ met
      → is_some r.error ≡ false
      → is_some met ≡ is_some expected
      → IsConcluded v
          (conclude e step node r suppressed v)
          (not (failing e.oas_strict r) || suppressed)
  conclude-IsConcluded step node r suppressed v none none hs hr right same =
      simp (hs, hr, right) (conclude_plain-IsConcluded step node r suppressed v hs)
  conclude-IsConcluded step node r suppressed v none (some met) hs hr right same = absurd (cc)
  conclude-IsConcluded step node r suppressed v (some es) none hs hr right same = absurd (cc)
  conclude-IsConcluded step node r suppressed v (some es) (some met) hs hr right same =
      simp (hs, hr, right) (conclude_expected-IsConcluded step r suppressed v met hr)
