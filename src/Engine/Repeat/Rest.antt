-- ===== src/Engine/Repeat/Rest.antt =====
-- What the requests of a repeated step share, its result has too (engine/repeat.go).
use aat.Base.{
  ℕ, zero, suc, Bool, true, false, not, ◌&&◌, if◌then◌else◌, Option, none, some, is_some, List, [],
  ◌-◌,
}
use aat.Base.Text.{Text}
use aat.Engine.State.{Values}
use aat.Engine.Steps.{Exchange, RepeatConfig, Result}
use aat.Engine.Repeat.{RepeatStop, RepeatFailure, Requests, repeatable, max_requests}
use aat.Engine.Repeat.Loop.{
  Repeated, round, on_stop, decided, repeat_loop, run_repeat, finished, is_error,
  execute_step_repeated,
}

module _ {V : Type 0} (q : Requests V) (rc : RepeatConfig) (Q : Exchange V → Type 0)
    (inputs_kept : (x : Exchange V) (i : Values V) → Q x → Q (record x { inputs = i }))
    (outputs_kept : (x : Exchange V) (o : Option (Values V)) → Q x → Q (record x { outputs = o }))
    (validation_kept : (x : Exchange V) (v : Option Bool) → Q x → Q (record x { validation = v }))
    (all : (n : ℕ) (inputs : Values V) → Q (q.request n inputs).rest) where
  if-rest :
      (b : Bool) (x y : Repeated V)
      → Q x.result.rest
      → Q y.result.rest
      → Q (if b then x else y).result.rest
  if-rest true x y h k = h
  if-rest false x y h k = k

  on_stop-rest :
      (n : ℕ) (inputs : Values V) (r : Result V) (collected : Values V) (met : Bool)
      (o : Option (RepeatStop × Option RepeatFailure)) (go : ℕ → Repeated V)
      → Q r.rest
      → ((n' : ℕ) → Q (go n').result.rest)
      → Q (on_stop q rc n inputs r collected met o go).result.rest
  on_stop-rest n inputs r collected met (some (stop, failure)) go h k = h
  on_stop-rest n inputs r collected met none go h k = if-rest (q.interrupted n) _ _ h (k (suc n))

  round-rest :
      (left n : ℕ) (inputs : Values V) (r : Result V) (sent : List (Text × ℕ))
      (collected : Values V) (go : ℕ → Repeated V)
      → Q r.rest
      → ((n' : ℕ) → Q (go n').result.rest)
      → Q (round q rc left n inputs r sent collected go).result.rest
  round-rest left n inputs r sent collected go h k =
      if-rest (repeatable r) _ _
        (on_stop-rest n inputs r _ _ (decided q rc left n inputs r sent) go h k) h

  repeat_loop-rest :
      (left n : ℕ) (first inputs : Values V) (sent : List (Text × ℕ)) (collected : Values V)
      → Q (repeat_loop q rc left n first inputs sent collected).result.rest
  unfolding repeat_loop
  repeat_loop-rest zero n first inputs sent collected =
      round-rest zero n inputs (q.request n inputs) sent collected _ (all n inputs)
        (λ n'. all n inputs)
  repeat_loop-rest (suc left) n first inputs sent collected =
      round-rest (suc left) n inputs (q.request n inputs) sent collected _ (all n inputs)
        (λ n'. repeat_loop-rest left n' first _ _ _)

  if_finished : (b : Bool) (x y : Result V) → Q x.rest → Q y.rest → Q (if b then x else y).rest
  if_finished true x y h k = h
  if_finished false x y h k = k

  finished-rest :
      (first : Values V) (l : Repeated V) → Q l.result.rest → Q (finished q rc first l).rest
  finished-rest first l h =
      let start = inputs_kept l.result.rest _ h in
      if_finished (is_error q rc l.stop && not (is_some l.failure)) _ _ start
        (validation_kept _ _ (outputs_kept _ _ start))

  run_repeat-rest : (first : Values V) → Q (run_repeat q rc first).result.rest
  unfolding run_repeat
  run_repeat-rest first = repeat_loop-rest (max_requests rc - 1) 1 first first _ []

  pub execute_step_repeated-rest : (first : Values V) → Q (execute_step_repeated q rc first).rest
  unfolding execute_step_repeated
  execute_step_repeated-rest first =
      finished-rest first (run_repeat q rc first) (run_repeat-rest first)
