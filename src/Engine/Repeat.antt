-- ===== src/Engine/Repeat.antt =====
-- Repeated steps: `executeStepRepeated` of engine/repeat.go and `MaxRequests` of plan/repeat.go. A
-- request with its retries, the evaluation of `until` over a response (`none` is its error), the
-- text of a cursor, how a collected output grows, the assertions and the clock are parameters.
pub mod Loop
pub mod Rest
pub mod Rounds
pub mod Laws
use aat.Base.{
  ℕ, zero, suc, ◌+◌, ◌-◌, List, [], ◌∷◌, ◌++◌, map, Bool, true, false, not, ◌&&◌, if◌then◌else◌,
  ◌==◌, Option, none, some, is_some, or_else, ltb, min, max,
}
use aat.Base.Text.{Text, codes, text_eq}
use aat.Graph.Names.{Name, sort_strings}
use aat.Engine.Routing.{lookup}
use aat.Engine.Retry.{StepResult, max_retry_after}
use aat.Engine.State.{Values}
use aat.Engine.Steps.{Exchange, RepeatConfig, Result}

-- `MaxRequests`, with `DefaultRepeatMax`.
abbrev pub max_requests : RepeatConfig → ℕ
max_requests rc = if rc.limit == 0 then 50 else rc.limit

pub data RepeatStop : Type 0 where
  stop_error stop_until stop_exhausted stop_loop stop_max stop_timeout : RepeatStop

-- The texts of `failure`; `repeats` names the request that sent the cursors.
pub data RepeatFailure : Type 0 where
  until_failed max_reached timed_out : RepeatFailure
  repeats : ℕ → RepeatFailure

-- What a repeated step calls, for the n-th request.
pub record Requests (V : Type 0) : Type 0 where
  pub request : ℕ → Values V → Result V
  pub until : Values V → Values V → Option Bool
  pub is_null : V → Bool
  pub is_blank : V → Bool
  pub print : V → Text
  pub gather : Option V → V → V
  pub retry_after : Result V → Option ℕ
  pub elapsed : ℕ → ℕ
  pub interrupted : ℕ → Bool
  pub assertions : Result V → Option Bool

-- `IterationResult`, with the `inputs` that its request was given.
pub record Iteration (V : Type 0) : Type 0 where
  pub index : ℕ
  pub inputs : Values V
  pub result : Result V
  pub until_met : Bool

abbrev pub Cursors : Type 0 → Type 0
Cursors V = List (Name × Option V)

abbrev pub is_nonempty : {A : Type 0} → List A → Bool
is_nonempty [] = false
is_nonempty (x ∷ xs) = true

abbrev pub is_paging : RepeatConfig → Bool
is_paging rc = is_nonempty rc.next

-- `repeatable`.
abbrev pub repeatable : {V : Type 0} → Result V → Bool
repeatable r =
    not (is_some r.error)
    && is_some r.response
    && ltb r.status_code 400
    && not (is_some r.body_error)

module _ {V : Type 0} (q : Requests V) where
  -- `cursorValue`; null and "" are `none`.
  abbrev pub cursor_value : Option V → Option V
  cursor_value none = none
  cursor_value (some v) = if q.is_null v then none else if q.is_blank v then none else some v

  unfoldable pub cursor_values : Values V → List (Name × Name) → Cursors V
  cursor_values outputs [] = []
  cursor_values outputs ((input, output) ∷ next) =
      (input, cursor_value (lookup output outputs)) ∷ cursor_values outputs next

  unfoldable pub sent_cursors : Values V → List (Name × Name) → Cursors V
  sent_cursors inputs [] = []
  sent_cursors inputs ((input, output) ∷ next) =
      (input, cursor_value (lookup input inputs)) ∷ sent_cursors inputs next

  unfoldable pub cursor_parts : Cursors V → List Name → List Text
  cursor_parts cursors [] = []
  cursor_parts cursors (name ∷ names) = elim (lookup name cursors) [
    | none ↦ cursor_parts cursors names
    | some none ↦ cursor_parts cursors names
    | some (some v) ↦ (name ++ (codes "=" ++ q.print v)) ∷ cursor_parts cursors names
  ]

  unfoldable pub cursor_key : Cursors V → Text
  cursor_key cursors = join (cursor_parts cursors (sort_strings (map (λ c. c.0) cursors)))
    where
      join : List Text → Text
      join [] = []
      join (p ∷ []) = p
      join (p ∷ p' ∷ ps) = p ++ (codes "&" ++ join (p' ∷ ps))

  unfoldable pub collect_outputs : Values V → List Name → Values V → Values V
  collect_outputs outputs [] collected = collected
  collect_outputs outputs (name ∷ names) collected =
      collect_outputs outputs names (gathered (lookup name outputs))
    where
      gathered : Option V → Values V
      gathered none = collected
      gathered (some v) =
          if q.is_null v then collected else (name, q.gather (lookup name collected) v) ∷ collected

module _ {V : Type 0} where
  -- `exhausted`.
  abbrev pub all_unset : Cursors V → Bool
  all_unset [] = true
  all_unset ((name, o) ∷ cs) = not (is_some o) && all_unset cs

  abbrev pub without : Name → Values V → Values V
  without name [] = []
  without name ((k, v) ∷ vs) =
      let rest = without name vs in if text_eq k name then rest else (k, v) ∷ rest

  unfoldable pub with_cursors : Values V → Cursors V → Values V
  with_cursors inputs [] = inputs
  with_cursors inputs ((name, none) ∷ cs) = without name (with_cursors inputs cs)
  with_cursors inputs ((name, some v) ∷ cs) = (name, v) ∷ with_cursors inputs cs
