-- ===== src/Engine/Run/Kept.antt =====
-- The cleanup stack and the outputs through a run's main loop (`Run` of engine/engine.go).
use aat.Base.{
  List, [], ◌∷◌, ◌++◌, Bool, false, not, ◌&&◌, Option, none, some, is_some, ltb, ◌≡◌, refl, ap, ◌∙◌,
  arith, Bool-cases, inl, inr,
}
use aat.Engine.Routing.{lookup}
use aat.Engine.Failure.{ExpectedStatus}
use aat.Engine.KnownIssue.{Log}
use aat.Engine.Steps.{Node, Step, Result}
use aat.Engine.Execute.{Engine, execute_step_with_tracking}
use aat.Engine.Execute.Stamped.{
  IsStamped, execute_step_with_tracking-IsStamped, execute_step_with_tracking-outputs,
}
use aat.Engine.Run.{
  Vars, Turn, going, aborting, missing, start, End, resolve_expectation, mark_expected,
  record_result, run_node, run_found, run_loop, unless_ended, on_turn, with_expectation, error_at,
  conclude, conclude_plain, conclude_expected,
}
use aat.Engine.Run.Owed.{
  IsNamed, Keeps, OnExit, conclude_expected-keeps, conclude_plain-keeps, settle-IsNamed, Keeps-none,
  Keeps-some,
}

module _ {V X E B : Type 0} (e : Engine V X E B) where
  conclude-Keeps :
      (step : Step) (node : Node) (r : Result V) (suppressed : Bool) (log : Log) (v : Vars V)
      → is_some r.error ≡ false
      → lookup step.node e.nodes ≡ some node
      → IsNamed step r
      → Keeps e.nodes v
      → Keeps e.nodes (
          conclude e step node r suppressed (record v { results = v.results ++ r ∷ []; log = log }))
  conclude-Keeps step node r suppressed log v right found (hid, hnode, marked) kept =
      elim (Bool-cases (is_some step.expect_failure)) [
        | inl expecting ↦
            let (stack, state, results) = conclude_expected-keeps e step r suppressed recorded in
            simp expecting (
              Keeps-none e r v (conclude_expected e step r suppressed recorded)
                (ground (arith, marked right, expecting)) results stack (ap (λ s. s.outputs) state)
                kept)
        | inr plain ↦ simp plain (after_plain plain)
      ]
    where
      recorded : Vars V
      recorded = record v { results = v.results ++ r ∷ []; log = log }

      after_plain :
          is_some step.expect_failure ≡ false
          → Keeps e.nodes (conclude_plain e step node r suppressed recorded)
      after_plain plain =
          let (stack, state, results) = conclude_plain-keeps e step node r suppressed recorded in
          elim (Bool-cases (ltb r.status_code 400 && not (is_some r.body_error))) [
            | inl released ↦
                Keeps-some e step node r v (conclude_plain e step node r suppressed recorded)
                  (ground (arith, marked right, plain, right, released)) found hid hnode results
                  (simp released at stack) (simp released at state) kept
            | inr refused ↦
                Keeps-none e r v (conclude_plain e step node r suppressed recorded)
                  (ground (arith, refused)) results (simp refused at stack)
                  (ap (λ s. s.outputs) (simp refused at state)) kept
          ]

  record_result-Keeps :
      (step : Step) (node : Node) (settled : Result V × Bool × Log) (v : Vars V)
      → lookup step.node e.nodes ≡ some node
      → IsNamed step settled.0
      → Keeps e.nodes v
      → OnExit (Keeps e.nodes) (record_result e step node settled v)
  record_result-Keeps step node (r, suppressed, log) v found named kept =
      elim (Bool-cases (is_some r.error)) [
        | inl wrong ↦ elim (Bool-cases (e.done_after step)) [
          | inl over ↦
              simp (wrong, over)
                (Keeps-none e r v recorded (ground (arith, wrong)) refl refl refl kept)
          | inr on ↦
              simp (wrong, on)
                (Keeps-none e r v (error_at e step recorded) (ground (arith, wrong)) refl refl refl
                  kept)
        ]
        | inr right ↦
            simp right (conclude-Keeps step node r suppressed log v right found named kept)
      ]
    where
      recorded : Vars V
      recorded = record v { results = v.results ++ r ∷ []; log = log }

  pub resolve_expectation-IsNamed :
      (step : Step) (expected : Option (List ExpectedStatus)) (r : Result V)
      → step.expect_failure ≡ expected
      → IsStamped step r.rest
      → IsNamed step (resolve_expectation expected r)
  resolve_expectation-IsNamed step expected r h stamped = elim (Bool-cases (is_some r.error)) [
    | inl wrong ↦ simp wrong (stamped.names_step, stamped.names_node, λ right. absurd (cc))
    | inr right ↦ simp right (marked expected h)
  ]
    where
      marked :
          (expected : Option (List ExpectedStatus))
          → step.expect_failure ≡ expected
          → IsNamed step (mark_expected expected r)
      marked none h = (stamped.names_step, stamped.names_node, λ _. simp (stamped.unmarked, h) refl)
      marked (some es) h = (stamped.names_step, stamped.names_node, λ _. simp h refl)

  run_node-Keeps :
      (step : Step) (node : Node) (v : Vars V)
      → lookup step.node e.nodes ≡ some node
      → Keeps e.nodes v
      → OnExit (Keeps e.nodes) (run_node e step node v)
  unfolding run_node
  run_node-Keeps step node v found (stack, outputs) =
      record_result-Keeps step node _
        (record v { state = (execute_step_with_tracking e step node v.state).1 }) found
        (settle-IsNamed e step _ v.log (
          resolve_expectation-IsNamed step step.expect_failure _ refl
            (execute_step_with_tracking-IsStamped e step node v.state)))
        (
          stack,
          λ id.
              ap (lookup id) (execute_step_with_tracking-outputs e step node v.state) ∙ outputs id,
        )

  run_found-Keeps :
      (step : Step) (o : Option Node) (v : Vars V)
      → lookup step.node e.nodes ≡ o
      → Keeps e.nodes v
      → OnExit (Keeps e.nodes) (run_found e step o v)
  run_found-Keeps step none v found kept = kept
  run_found-Keeps step (some node) v found kept =
      run_node-Keeps (with_expectation e step) node v found kept

  unless_ended-Keeps :
      (end : Option End) (step : Step) (v : Vars V)
      → Keeps e.nodes v
      → OnExit (Keeps e.nodes) (unless_ended e end step v)
  unless_ended-Keeps (some _) step v kept = kept
  unless_ended-Keeps none step v kept = elim (Bool-cases (e.done_before step)) [
    | inl over ↦ rw over kept
    | inr on ↦ rw on (run_found-Keeps step (lookup step.node e.nodes) v refl kept)
  ]

pub on_turn-OnExit :
    {V X E B : Type 0} (e : Engine V X E B) (P : Vars V → Type 0) (t : Turn V) (k : Vars V → Turn V)
    → OnExit P t
    → ((v : Vars V) → P v → OnExit P (k v))
    → OnExit P (on_turn e t k)
on_turn-OnExit e P (going v) k h next = next v h
on_turn-OnExit e P (aborting v) k h next = h
on_turn-OnExit e P (missing name v) k h next = h

run_loop-from :
    {V X E B : Type 0} (e : Engine V X E B) (steps : List Step) (v : Vars V)
    → Keeps e.nodes v
    → OnExit (Keeps e.nodes) (run_loop e steps v)
unfolding run_loop
run_loop-from e [] v kept = kept
run_loop-from e (step ∷ steps) v kept =
    on_turn-OnExit e (Keeps e.nodes) (unless_ended e v.end step v) (run_loop e steps)
      (unless_ended-Keeps e v.end step v kept) (run_loop-from e steps)

-- However the main loop is left, also on an interrupt, the cleanup stack holds, in order, the
-- declared cleanup of each step whose result succeeded without an expectation to fail, and no
-- other; the outputs that a step's name reads are those of the last such result.
pub run_loop-Keeps :
    {V X E B : Type 0} (e : Engine V X E B) (steps : List Step)
    → OnExit (Keeps e.nodes) (run_loop e steps start)
run_loop-Keeps e steps = run_loop-from e steps start (refl, λ id. refl)
