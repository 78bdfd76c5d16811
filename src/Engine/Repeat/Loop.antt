-- ===== src/Engine/Repeat/Loop.antt =====
-- The loop and the end of `executeStepRepeated` (engine/repeat.go).
use aat.Base.{
  ℕ, zero, suc, ◌+◌, ◌-◌, List, [], ◌∷◌, ◌++◌, Bool, true, false, not, ◌&&◌, if◌then◌else◌, Option,
  none, some, is_some, or_else, ltb, min, max,
}
use aat.Base.Text.{Text}
use aat.Engine.Failure.{ErrorCategory, timeout}
use aat.Engine.Routing.{lookup}
use aat.Engine.Retry.{max_retry_after}
use aat.Engine.State.{Values}
use aat.Engine.Steps.{RepeatConfig, Result}
use aat.Engine.Repeat.{
  RepeatStop, stop_error, stop_until, stop_exhausted, stop_loop, stop_max, stop_timeout,
  RepeatFailure, until_failed, max_reached, timed_out, repeats, Requests, Iteration, Cursors,
  is_paging, is_nonempty, max_requests, repeatable, cursor_values, sent_cursors, cursor_key,
  collect_outputs, all_unset, with_cursors,
}

-- What the loop leaves: the last result, and the variables that the end reads.
pub record Repeated (V : Type 0) : Type 0 where
  pub result : Result V
  pub iterations : List (Iteration V)
  pub retries : ℕ
  pub retried_on : List ErrorCategory
  pub collected : Values V
  pub stop : RepeatStop
  pub failure : Option RepeatFailure

abbrev pub outputs_of : {V : Type 0} → Result V → Values V
outputs_of r = or_else r.rest.outputs []

module _ {V : Type 0} (q : Requests V) (rc : RepeatConfig) where
  -- `until` over a response; without one it is not met.
  abbrev pub evaluate : Values V → Result V → Option Bool
  evaluate inputs r = if rc.has_until then q.until inputs (outputs_of r) else some false

  abbrev pub wait_for : Option ℕ → ℕ
  wait_for none = rc.interval
  wait_for (some after) = max rc.interval (min after max_retry_after)

  abbrev pub out_of_time : ℕ → Result V → Bool
  out_of_time n r = ltb 0 rc.timeout && ltb rc.timeout (q.elapsed n + wait_for (q.retry_after r))

  -- Why the loop stops after a response, or `none`: `left` requests are still allowed.
  abbrev pub stop_seen : ℕ → ℕ → Result V → Option ℕ → Option (RepeatStop × Option RepeatFailure)
  stop_seen left n r (some prev) = some (stop_loop, some (repeats prev))
  stop_seen zero n r none = some (stop_max, some max_reached)
  stop_seen (suc left) n r none =
      if out_of_time n r then some (stop_timeout, some timed_out) else none

  abbrev pub stop_after :
      ℕ → ℕ → Result V → Option Bool → Bool → Option ℕ → Option (RepeatStop × Option RepeatFailure)
  stop_after left n r none exhausted prev = some (stop_error, some until_failed)
  stop_after left n r (some true) exhausted prev = some (stop_until, none)
  stop_after left n r (some false) true prev = some (stop_exhausted, none)
  stop_after left n r (some false) false prev = stop_seen left n r prev

  abbrev pub cursors_of : Result V → Cursors V
  cursors_of r = cursor_values q (outputs_of r) rc.next

  abbrev pub key_of : Result V → Text
  key_of r = cursor_key q (cursors_of r)

  abbrev pub iteration : ℕ → Values V → Result V → Bool → Iteration V
  iteration n inputs r met = record { index = n; inputs = inputs; result = r; until_met = met }

  -- The loop ends with a request: its result, as it is left, and the variables.
  abbrev pub end_with :
      ℕ
      → Values V
      → Result V
      → Result V
      → Bool
      → Values V
      → RepeatStop × Option RepeatFailure
      → Repeated V
  end_with n inputs r left_as met collected (stop, failure) = record {
    result = left_as;
    iterations = iteration n inputs r met ∷ [];
    retries = r.retry_count;
    retried_on = r.retried_on;
    collected = collected;
    stop = stop;
    failure = failure;
  }

  abbrev pub interrupt : Result V → Result V
  interrupt r = record r { error = some timeout }

  abbrev pub before : ℕ → Values V → Result V → Repeated V → Repeated V
  before n inputs r more = record more {
    iterations = iteration n inputs r false ∷ more.iterations;
    retries = r.retry_count + more.retries;
    retried_on = r.retried_on ++ more.retried_on;
  }

  abbrev pub is_met : Option Bool → Bool
  is_met o = or_else o false

  -- After a request: the loop ends, or the wait is interrupted, or `go` are the rounds that follow.
  abbrev pub on_stop :
      ℕ
      → Values V
      → Result V
      → Values V
      → Bool
      → Option (RepeatStop × Option RepeatFailure)
      → (ℕ → Repeated V)
      → Repeated V
  on_stop n inputs r collected met (some end) go = end_with n inputs r r met collected end
  on_stop n inputs r collected met none go =
      if q.interrupted n
      then end_with n inputs r (interrupt r) met collected (stop_error, none)
      else before n inputs r (go (suc n))

  abbrev pub seen_before : Result V → List (Text × ℕ) → Option ℕ
  seen_before r sent = if is_paging rc then lookup (key_of r) sent else none

  abbrev pub decided :
      ℕ → ℕ → Values V → Result V → List (Text × ℕ) → Option (RepeatStop × Option RepeatFailure)
  decided left n inputs r sent =
      stop_after left n r (evaluate inputs r) (is_paging rc && all_unset (cursors_of r))
        (seen_before r sent)

  abbrev pub round :
      ℕ → ℕ → Values V → Result V → List (Text × ℕ) → Values V → (ℕ → Repeated V) → Repeated V
  round left n inputs r sent collected go =
      if repeatable r
      then on_stop n inputs r (collect_outputs q (outputs_of r) rc.collect collected)
          (is_met (evaluate inputs r)) (decided left n inputs r sent) go
      else end_with n inputs r r false collected (stop_error, none)

  abbrev pub next_sent : ℕ → Result V → List (Text × ℕ) → List (Text × ℕ)
  next_sent n r sent = if is_paging rc then (key_of r, suc n) ∷ sent else sent

  abbrev pub next_inputs : Values V → Values V → Result V → Values V
  next_inputs first inputs r = if is_paging rc then with_cursors first (cursors_of r) else inputs

  -- The rounds from the n-th request on, of which `left` more are allowed; `sent` are the keys of
  -- the cursors sent, each with its request. With none left every round ends the loop.
  unfoldable pub repeat_loop : ℕ → ℕ → Values V → Values V → List (Text × ℕ) → Values V → Repeated V
  repeat_loop zero n first inputs sent collected =
      let r = q.request n inputs in
      round zero n inputs r sent collected
        (λ n'. end_with n inputs r r false collected (stop_max, some max_reached))
  repeat_loop (suc left) n first inputs sent collected =
      let r = q.request n inputs in
      round (suc left) n inputs r sent collected (λ n'.
        repeat_loop left n' first (next_inputs first inputs r) (next_sent n r sent)
          (collect_outputs q (outputs_of r) rc.collect collected))

  abbrev pub first_sent : Text → List (Text × ℕ)
  first_sent [] = []
  first_sent (c ∷ key) = (c ∷ key, 1) ∷ []

  -- The loop of a step whose first request resolves the inputs `first`.
  unfoldable pub run_repeat : Values V → Repeated V
  run_repeat first =
      repeat_loop (max_requests rc - 1) 1 first first
        (if is_paging rc then first_sent (cursor_key q (sent_cursors q first rc.next)) else []) []

  abbrev pub merged : Values V → Option (Values V) → Option (Values V)
  merged collected none = none
  merged collected (some outputs) =
      some (if is_nonempty rc.collect then collected ++ outputs else outputs)

  abbrev pub is_error : RepeatStop → Bool
  is_error stop_error = true
  is_error _ = false

  abbrev pub with_failure : Option RepeatFailure → Option Bool → Option Bool
  with_failure none passed = passed
  with_failure (some failure) passed = some false

  -- The result of the step, with its counts and inputs.
  abbrev pub counted : Values V → Repeated V → Result V
  counted first l = record l.result {
    retry_count = l.retries;
    retried_on = l.retried_on;
    rest = record l.result.rest { inputs = if is_paging rc then first else l.result.rest.inputs };
  }

  abbrev pub checked : Repeated V → Result V → Result V
  checked l r =
      let r' = record r { rest = record r.rest { outputs = merged l.collected r.rest.outputs } } in
      record r' { rest = record r'.rest { validation = with_failure l.failure (q.assertions r') } }

  abbrev pub finished : Values V → Repeated V → Result V
  finished first l =
      if is_error l.stop && not (is_some l.failure)
      then counted first l
      else checked l (counted first l)

  unfoldable pub execute_step_repeated : Values V → Result V
  execute_step_repeated first = finished first (run_repeat first)
