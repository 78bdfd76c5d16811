-- ===== src/Engine/Run/Accounts.antt =====
-- What the outcome of a run's main loop says of its step results (`Run` of engine/engine.go).
use aat.Base.{Bool, not, some, ◌≡◌, all}
use aat.Engine.KnownIssue.{is_passed, gating}
use aat.Engine.Execute.{Engine}
use aat.Engine.Run.{Vars, Turn, going, aborting, missing, on_turn}
use aat.Engine.Run.Settle.{failing, accepted, uncovered}

-- The outcome and the log's raw outcome, as the results say them.
pub record IsAccounted {V : Type 0} (strict : Bool) (v : Vars V) : Type 0 where
  reported : is_passed v.outcome ≡ all (accepted strict) v.results
  logged : is_passed v.log.raw ≡ all (uncovered strict) v.results

abbrev pub WhenGoing : {V : Type 0} → (Vars V → Type 0) → Turn V → Type 0
WhenGoing P (going v) = P v
WhenGoing P (aborting v) = Unit
WhenGoing P (missing name v) = Unit

pub on_turn-WhenGoing :
    {V X E B : Type 0} (e : Engine V X E B) (P : Vars V → Type 0) (t : Turn V) (k : Vars V → Turn V)
    → WhenGoing P t
    → ((v : Vars V) → P v → WhenGoing P (k v))
    → WhenGoing P (on_turn e t k)
on_turn-WhenGoing e P (going v) k h next = next v h
on_turn-WhenGoing e P (aborting v) k h next = tt
on_turn-WhenGoing e P (missing name v) k h next = tt

-- What a run reports and what its cleanup is gated on.
abbrev pub Reports : {V : Type 0} → Bool → Vars V → Type 0
Reports strict v =
    (is_passed v.outcome ≡ all (accepted strict) v.results)
    × (is_passed (gating (some v.log) v.outcome) ≡ all (λ r. not (failing strict r)) v.results)
