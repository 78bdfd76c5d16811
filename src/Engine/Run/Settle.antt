-- ===== src/Engine/Run/Settle.antt =====
-- Which failures a run covers by a known issue (engine/known_issue.go).
use aat.Base.{
  ℕ, List, Bool, true, false, not, ◌&&◌, ◌||◌, Option, none, some, is_some, ltb, leb, ◌≡◌, refl,
  arith, Bool-cases, inl, inr,
}
use aat.Graph.Names.{Name}
use aat.Engine.Failure.{ExpectedStatus}
use aat.Engine.KnownIssue.{KnownIssue, KnownIssueResult, Standing, applied, Log, active, is_passed}
use aat.Engine.Steps.{Step, Result}
use aat.Engine.Execute.{Engine}
use aat.Engine.Run.{not_valid, step_failed, settle, settle_for, settle_known}

-- Whether a step result alone shows a failure.
abbrev pub unmet : {V : Type 0} → Bool → Option Bool → Result V → Bool
unmet strict (some met) r = not met || not_valid r
unmet strict none r =
    leb 400 r.status_code
    || is_some r.body_error
    || strict && ltb 0 r.rest.oas_errors
    || not_valid r

abbrev pub failing : {V : Type 0} → Bool → Result V → Bool
failing strict r = is_some r.error || unmet strict r.rest.expect_failure r

abbrev pub is_applied : Standing → Bool
is_applied applied = true
is_applied _ = false

-- Whether it carries a known issue in force.
abbrev pub covered_by : Option KnownIssueResult → Bool
covered_by none = false
covered_by (some known) = is_applied known.standing

abbrev pub accepted : {V : Type 0} → Bool → Result V → Bool
accepted strict r = not (failing strict r) || covered_by r.rest.known_issue

abbrev pub uncovered : {V : Type 0} → Bool → Result V → Bool
uncovered strict r = not (failing strict r && covered_by r.rest.known_issue)

-- The expectation of a step is marked on its result.
abbrev pub IsMarked : {V : Type 0} → Option (List ExpectedStatus) → Result V → Type 0
IsMarked expected r = (is_some r.error ≡ false) × (is_some r.rest.expect_failure ≡ is_some expected)

pub step_failed-unmet :
    {V : Type 0} (strict : Bool) (expected : Option (List ExpectedStatus)) (met : Option Bool)
    (r : Result V)
    → r.rest.expect_failure ≡ met
    → is_some met ≡ is_some expected
    → step_failed strict expected r ≡ unmet strict met r
step_failed-unmet strict none none r e h = ground arith
step_failed-unmet strict none (some met) r e h = absurd (cc)
step_failed-unmet strict (some es) none r e h = absurd (cc)
step_failed-unmet strict (some es) (some true) r e h = rw e
step_failed-unmet strict (some es) (some false) r e h = rw e

-- A settled result is suppressed when it fails and carries an issue in force, and the log says so.
pub record IsSettled {V : Type 0} (strict : Bool) (r : Result V) (log : Log)
    (settled : Result V × Bool × Log) : Type 0 where
  pub keeps_error : is_some settled.0.error ≡ is_some r.error
  pub keeps_expectation : settled.0.rest.expect_failure ≡ r.rest.expect_failure
  pub suppresses : settled.1 ≡ (failing strict settled.0 && covered_by settled.0.rest.known_issue)
  pub never_error : is_some r.error ≡ true → settled.1 ≡ false
  pub logs : is_passed settled.2.raw ≡ (is_passed log.raw && not settled.1)

pub unsettled_lem :
    {V : Type 0} (strict : Bool) (r : Result V) (log : Log)
    → r.rest.known_issue ≡ none
    → IsSettled strict r log (r, false, log)
unsettled_lem strict r log h = record {
  keeps_error = refl;
  keeps_expectation = refl;
  suppresses = rw h (ground arith);
  never_error = λ _. refl;
  logs = ground arith;
}

module _ {V : Type 0} (strict : Bool) (id : Name) (r : Result V) (log : Log) where
  pub settle_known-IsSettled :
      (ki : KnownIssue) (in_force has_failed : Bool)
      → is_some r.error ≡ false
      → has_failed ≡ failing strict r
      → r.rest.known_issue ≡ none
      → IsSettled strict r log (settle_known id r log ki in_force has_failed)
  settle_known-IsSettled ki true true right e h = record {
    keeps_error = refl;
    keeps_expectation = refl;
    suppresses = ground (arith, e);
    never_error = λ wrong. absurd (cc);
    logs = ground arith;
  }
  settle_known-IsSettled ki false true right e h = record {
    keeps_error = refl;
    keeps_expectation = refl;
    suppresses = ground arith;
    never_error = λ wrong. absurd (cc);
    logs = ground arith;
  }
  settle_known-IsSettled ki true false right e h = record {
    keeps_error = refl;
    keeps_expectation = refl;
    suppresses = ground arith;
    never_error = λ wrong. absurd (cc);
    logs = ground arith;
  }
  settle_known-IsSettled ki false false right e h = unsettled_lem strict r log h

  pub settle_for-IsSettled :
      (today : ℕ) (o : Option KnownIssue) (has_failed : Bool)
      → is_some r.error ≡ false
      → has_failed ≡ failing strict r
      → r.rest.known_issue ≡ none
      → IsSettled strict r log (settle_for id today o has_failed r log)
  settle_for-IsSettled today none has_failed right e h = unsettled_lem strict r log h
  settle_for-IsSettled today (some ki) has_failed right e h =
      settle_known-IsSettled ki (active ki today) has_failed right e h

-- What a step leaves of its result's marks, before it is settled.
abbrev pub IsOpen : {V : Type 0} → Step → Result V → Type 0
IsOpen step r =
    (r.rest.known_issue ≡ none)
    × (is_some r.error ≡ false → is_some r.rest.expect_failure ≡ is_some step.expect_failure)

module _ {V X E B : Type 0} (e : Engine V X E B) where
  pub settle-IsSettled :
      (step : Step) (r : Result V) (log : Log)
      → IsOpen step r
      → IsSettled e.oas_strict r log (settle e step r log)
  unfolding settle
  settle-IsSettled step r log (h, marked) = elim (Bool-cases (is_some r.error)) [
    | inl wrong ↦ rw wrong (unsettled_lem e.oas_strict r log h)
    | inr right ↦
        let same : step_failed e.oas_strict step.expect_failure r ≡ failing e.oas_strict r =
          rw right (
            step_failed-unmet e.oas_strict step.expect_failure r.rest.expect_failure r refl
              (marked right)) in
        rw right (settle_for-IsSettled e.oas_strict step.step_id r log e.today _ _ right same h)
  ]
