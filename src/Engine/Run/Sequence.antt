-- ===== src/Engine/Run/Sequence.antt =====
-- Which steps a run sends, and in which order (`Run` of engine/engine.go).
use aat.Base.{
  List, [], ◌∷◌, ◌++◌, Bool, Option, none, some, is_some, ◌≡◌, refl, sym, ap, ◌∙◌, Bool-cases, inl,
  inr, append_assoc, append-nil,
}
use aat.Graph.Names.{Name}
use aat.Engine.Routing.{lookup}
use aat.Engine.KnownIssue.{Log}
use aat.Engine.Steps.{Node, Step, Result}
use aat.Engine.Cleanup.Order.{step_ids}
use aat.Engine.Execute.{Engine, execute_step_with_tracking}
use aat.Engine.Execute.Stamped.{execute_step_with_tracking-IsStamped}
use aat.Engine.Run.{
  Vars, Turn, going, aborting, missing, start, End, record_result, run_node, run_found, run_loop,
  unless_ended, on_turn, with_expectation, conclude,
}
use aat.Engine.Run.Cleaning.{ids_of}
use aat.Engine.Run.Owed.{
  IsNamed, OnExit, conclude_expected-keeps, conclude_plain-keeps, settle-IsNamed,
}
use aat.Engine.Run.Kept.{resolve_expectation-IsNamed}

-- `xs` are the first elements of `ys`.
abbrev pub IsPrefix : List Name → List Name → Type 0
IsPrefix xs ys = (rest : List Name) × (xs ++ rest ≡ ys)

IsPrefix-append : (xs ys rest all : List Name) → IsPrefix xs ys → ys ++ rest ≡ all → IsPrefix xs all
IsPrefix-append xs ys rest all (more, h) whole =
    (more ++ rest, sym (append_assoc xs more rest) ∙ ap (λ l. l ++ rest) h ∙ whole)

step_ids-append :
    {V : Type 0} (xs ys : List (Result V)) → step_ids (xs ++ ys) ≡ step_ids xs ++ step_ids ys
step_ids-append [] ys = refl
step_ids-append (x ∷ xs) ys = ap (λ l. x.rest.step_id ∷ l) (step_ids-append xs ys)

-- The results so far, and when the loop goes on, the step's after them.
abbrev Sent : {V : Type 0} → Name → List (Result V) → Turn V → Type 0
Sent id before (going v) = step_ids v.results ≡ step_ids before ++ id ∷ []
Sent id before (aborting v) = IsPrefix (step_ids v.results) (step_ids before ++ id ∷ [])
Sent id before (missing name v) = IsPrefix (step_ids v.results) (step_ids before ++ id ∷ [])

module _ {V X E B : Type 0} (e : Engine V X E B) where
  conclude-results :
      (step : Step) (node : Node) (r : Result V) (suppressed : Bool) (v : Vars V)
      → (conclude e step node r suppressed v).results ≡ v.results
  conclude-results step node r suppressed v = elim (Bool-cases (is_some step.expect_failure)) [
    | inl expecting ↦ rw expecting (conclude_expected-keeps e step r suppressed v).2
    | inr plain ↦ rw plain (conclude_plain-keeps e step node r suppressed v).2
  ]

  record_result-Sent :
      (step : Step) (node : Node) (settled : Result V × Bool × Log) (v : Vars V)
      → IsNamed step settled.0
      → Sent step.step_id v.results (record_result e step node settled v)
  record_result-Sent step node (r, suppressed, log) v (hid, _, _) =
      elim (Bool-cases (is_some r.error)) [
        | inl wrong ↦ elim (Bool-cases (e.done_after step)) [
          | inl over ↦ simp (wrong, over) ([], append-nil (step_ids (v.results ++ r ∷ [])) ∙ added)
          | inr on ↦ simp (wrong, on) added
        ]
        | inr right ↦ simp right (
            ap step_ids (
              conclude-results step node r suppressed
                (record v { results = v.results ++ r ∷ []; log = log }))
            ∙ added)
      ]
    where
      added : step_ids (v.results ++ r ∷ []) ≡ step_ids v.results ++ step.step_id ∷ []
      added = step_ids-append v.results (r ∷ []) ∙ ap (λ id. step_ids v.results ++ id ∷ []) hid

  run_node-Sent :
      (step : Step) (node : Node) (v : Vars V)
      → Sent step.step_id v.results (run_node e step node v)
  unfolding run_node
  run_node-Sent step node v =
      record_result-Sent step node _
        (record v { state = (execute_step_with_tracking e step node v.state).1 })
        (settle-IsNamed e step _ v.log (
          resolve_expectation-IsNamed e step step.expect_failure _ refl
            (execute_step_with_tracking-IsStamped e step node v.state)))

  run_found-Sent :
      (step : Step) (o : Option Node) (v : Vars V)
      → Sent step.step_id v.results (run_found e step o v)
  run_found-Sent step none v = (step.step_id ∷ [], refl)
  run_found-Sent step (some node) v = run_node-Sent (with_expectation e step) node v

module _ {V X E B : Type 0} (e : Engine V X E B) (all : List Name) where
  -- The results are of a prefix of the steps `all`; while no step has ended the run, they and
  -- `steps` make up `all`.
  abbrev InOrder : Vars V → Type 0
  InOrder v = IsPrefix (step_ids v.results) all

  abbrev Awaits : List Step → Vars V → Type 0
  Awaits steps v = InOrder v × (v.end ≡ none → step_ids v.results ++ ids_of steps ≡ all)

  after-Sent :
      (step : Step) (steps : List Step) (before : List (Result V)) (t : Turn V)
      (k : Vars V → Turn V)
      → step_ids before ++ step.step_id ∷ ids_of steps ≡ all
      → Sent step.step_id before t
      → ((v : Vars V) → Awaits steps v → OnExit InOrder (k v))
      → OnExit InOrder (on_turn e t k)
  after-Sent step steps before (going v) k whole sent next =
      let now =
        ap (λ l. l ++ ids_of steps) sent
        ∙ append_assoc (step_ids before) (step.step_id ∷ []) (ids_of steps)
        ∙ whole in
      next v ((ids_of steps, now), λ _. now)
  after-Sent step steps before (aborting v) k whole (rest, sent) next =
      IsPrefix-append (step_ids v.results) _ (ids_of steps) all (rest, sent)
        (append_assoc (step_ids before) (step.step_id ∷ []) (ids_of steps) ∙ whole)
  after-Sent step steps before (missing name v) k whole (rest, sent) next =
      IsPrefix-append (step_ids v.results) _ (ids_of steps) all (rest, sent)
        (append_assoc (step_ids before) (step.step_id ∷ []) (ids_of steps) ∙ whole)

  turn-next :
      (end : Option End) (step : Step) (steps : List Step) (v : Vars V) (k : Vars V → Turn V)
      → v.end ≡ end
      → Awaits (step ∷ steps) v
      → ((w : Vars V) → Awaits steps w → OnExit InOrder (k w))
      → OnExit InOrder (on_turn e (unless_ended e end step v) k)
  turn-next (some end) step steps v k ended (prefix, _) next = next v (prefix, λ going. absurd (cc))
  turn-next none step steps v k ended (prefix, whole) next =
      elim (Bool-cases (e.done_before step)) [
        | inl over ↦ rw over prefix
        | inr on ↦ rw on (
            after-Sent step steps v.results _ k (whole ended)
              (run_found-Sent e step (lookup step.node e.nodes) v) next)
      ]

  run_loop-from :
      (steps : List Step) (v : Vars V) → Awaits steps v → OnExit InOrder (run_loop e steps v)
  unfolding run_loop
  run_loop-from [] v (prefix, _) = prefix
  run_loop-from (step ∷ steps) v awaits =
      turn-next v.end step steps v (run_loop e steps) refl awaits (run_loop-from steps)

-- However the main loop is left, also on an interrupt, the step results are one for each of the
-- first steps of the order, in that order.
pub run_loop-IsPrefix :
    {V X E B : Type 0} (e : Engine V X E B) (steps : List Step)
    → OnExit (λ v. IsPrefix (step_ids v.results) (ids_of steps)) (run_loop e steps start)
run_loop-IsPrefix e steps =
    run_loop-from e (ids_of steps) steps start ((ids_of steps, refl), λ _. refl)
