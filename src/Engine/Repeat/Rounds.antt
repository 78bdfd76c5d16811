-- ===== src/Engine/Repeat/Rounds.antt =====
-- The rounds of a repeated step: how each may end (engine/repeat.go).
use aat.Base.{
  ℕ, zero, suc, ◌<◌, List, Bool, true, false, ◌||◌, Option, none, some, is_some, ◌≡◌, refl, ◌⊎◌,
  inl, inr, Bool-cases, arith,
}
use aat.Base.Text.{Text}
use aat.Engine.State.{Values}
use aat.Engine.Steps.{RepeatConfig, Result}
use aat.Engine.Repeat.{
  RepeatStop, stop_error, stop_until, stop_exhausted, RepeatFailure, Requests, repeatable,
}
use aat.Engine.Repeat.Loop.{
  Repeated, stop_after, out_of_time, end_with, before, on_stop, interrupt, decided, round,
  seen_before,
}

-- The stops that are not failures of the step's repetition.
abbrev pub needs_no_failure : RepeatStop → Bool
needs_no_failure stop_error = true
needs_no_failure stop_until = true
needs_no_failure stop_exhausted = true
needs_no_failure _ = false

abbrev pub IsJustified : RepeatStop → Option RepeatFailure → Type 0
IsJustified stop failure = (needs_no_failure stop || is_some failure) ≡ true

-- What a round decides: an end that says why, or to go on, with requests left and new cursors.
abbrev pub IsDecision : ℕ → Option ℕ → Option (RepeatStop × Option RepeatFailure) → Type 0
IsDecision left prev (some (stop, failure)) = IsJustified stop failure
IsDecision left prev none = (is_some prev ≡ false) × (0 < left)

module _ {V : Type 0} (q : Requests V) (rc : RepeatConfig) where
  stop_after-IsDecision :
      (left n : ℕ) (r : Result V) (o : Option Bool) (exhausted : Bool) (prev : Option ℕ)
      → IsDecision left prev (stop_after q rc left n r o exhausted prev)
  stop_after-IsDecision left n r none exhausted prev = refl
  stop_after-IsDecision left n r (some true) exhausted prev = refl
  stop_after-IsDecision left n r (some false) true prev = refl
  stop_after-IsDecision left n r (some false) false (some prev) = refl
  stop_after-IsDecision zero n r (some false) false none = refl
  stop_after-IsDecision (suc left) n r (some false) false none =
      elim (Bool-cases (out_of_time q rc n r)) [
        | inl late ↦ rw late refl
        | inr early ↦ rw early (refl, omega arith)
      ]

  -- A property of what a round leaves, from its ends and from going on.
  module _ (Q : Repeated V → Type 0) (left n : ℕ) (inputs : Values V) (sent : List (Text × ℕ)) where
    abbrev pub AtEnds : Type 0
    AtEnds =
        (left_as : Result V) (met : Bool) (collected : Values V) (stop : RepeatStop)
        (failure : Option RepeatFailure)
        → (left_as ≡ q.request n inputs) ⊎ (left_as ≡ interrupt q rc (q.request n inputs))
        → IsJustified stop failure
        → Q (end_with q rc n inputs (q.request n inputs) left_as met collected (stop, failure))

    on_stop-any :
        (collected : Values V) (met : Bool) (prev : Option ℕ)
        (o : Option (RepeatStop × Option RepeatFailure)) (go : ℕ → Repeated V)
        → AtEnds
        → (is_some prev ≡ false
            → 0 < left
            → Q (before q rc n inputs (q.request n inputs) (go (suc n))))
        → IsDecision left prev o
        → Q (on_stop q rc n inputs (q.request n inputs) collected met o go)
    on_stop-any collected met prev (some (stop, failure)) go ends on d =
        ends (q.request n inputs) met collected stop failure (inl refl) d
    on_stop-any collected met prev none go ends on (new, some_left) =
        elim (Bool-cases (q.interrupted n)) [
          | inl over ↦ rw over (
              ends (interrupt q rc (q.request n inputs)) met collected stop_error none (inr refl)
                refl)
          | inr waited ↦ rw waited (on new some_left)
        ]

    pub round-any :
        (collected : Values V) (go : ℕ → Repeated V)
        → AtEnds
        → (is_some (seen_before q rc (q.request n inputs) sent) ≡ false
            → 0 < left
            → Q (before q rc n inputs (q.request n inputs) (go (suc n))))
        → Q (round q rc left n inputs (q.request n inputs) sent collected go)
    round-any collected go ends on = elim (Bool-cases (repeatable (q.request n inputs))) [
      | inl good ↦ rw good (
          on_stop-any _ _ (seen_before q rc (q.request n inputs) sent)
            (decided q rc left n inputs (q.request n inputs) sent) go ends on
            (stop_after-IsDecision left n (q.request n inputs) _ _ _))
      | inr bad ↦ rw bad (ends (q.request n inputs) false collected stop_error none (inl refl) refl)
    ]
