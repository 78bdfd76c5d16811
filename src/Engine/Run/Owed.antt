-- ===== src/Engine/Run/Owed.antt =====
-- What a run's main loop owes to cleanup, and what later steps can read (`Run` of engine/engine.go).
use aat.Base.{
  ℕ, List, [], ◌∷◌, ◌++◌, Bool, true, false, not, ◌&&◌, if◌then◌else◌, Option, none, some, is_some,
  ltb, ◌≡◌, refl, sym, ap, ◌∙◌, arith, Bool-cases, inl, inr, append-nil, append_assoc,
}
use aat.Graph.Names.{Name}
use aat.Engine.Routing.{lookup}
use aat.Engine.State.{Values, RunState, store_outputs, last_stored}
use aat.Engine.KnownIssue.{Log, KnownIssue, active, known_issue_for}
use aat.Engine.Steps.{Node, Step, Result, step_released}
use aat.Engine.Cleanup.{CleanupEntry}
use aat.Engine.Cleanup.Skip.{is_empty}
use aat.Engine.Execute.{Engine}
use aat.Engine.Run.{
  Vars, Turn, going, aborting, missing, settle, settle_known, settle_for, conclude_plain,
  conclude_expected, push_some, store_some,
}

-- The cleanup entry that a step result leaves behind, if it does.
abbrev pub entry_of : {V : Type 0} → Option Node → Result V → List CleanupEntry
entry_of none r = []
entry_of (some node) r =
    if is_empty node.cleanup.node
    then []
    else record { node_name = node.cleanup.node; for_node = node.name; for_step = r.rest.step_id }
      ∷ []

abbrev pub owed : {V : Type 0} → List (Name × Node) → List (Result V) → List CleanupEntry
owed nodes [] = []
owed nodes (r ∷ rs) =
    (if step_released r then entry_of (lookup r.rest.node nodes) r else []) ++ owed nodes rs

abbrev stored_by : {V : Type 0} → Name → Option (Values V) → List (Name × Values V)
stored_by id none = []
stored_by id (some outputs) = (id, outputs) ∷ []

-- The outputs that the step results store.
abbrev pub stores : {V : Type 0} → List (Result V) → List (Name × Values V)
stores [] = []
stores (r ∷ rs) =
    (if step_released r then stored_by r.rest.step_id r.rest.outputs else []) ++ stores rs

owed-append :
    {V : Type 0} (nodes : List (Name × Node)) (rs ss : List (Result V))
    → owed nodes (rs ++ ss) ≡ owed nodes rs ++ owed nodes ss
owed-append nodes [] ss = refl
owed-append nodes (r ∷ rs) ss =
    rw (owed-append nodes rs ss) (sym (append_assoc _ (owed nodes rs) (owed nodes ss)))

stores-append : {V : Type 0} (rs ss : List (Result V)) → stores (rs ++ ss) ≡ stores rs ++ stores ss
stores-append [] ss = refl
stores-append (r ∷ rs) ss = rw (stores-append rs ss) (sym (append_assoc _ (stores rs) (stores ss)))

module _ {V X E B : Type 0} (e : Engine V X E B) where
  pub conclude_expected-keeps :
      (step : Step) (r : Result V) (suppressed : Bool) (v : Vars V)
      → ((conclude_expected e step r suppressed v).stack ≡ v.stack)
        × ((conclude_expected e step r suppressed v).state ≡ v.state)
        × ((conclude_expected e step r suppressed v).results ≡ v.results)
  unfolding conclude_expected
  conclude_expected-keeps step r suppressed v = (ground arith, ground arith, ground arith)

  pub conclude_plain-keeps :
      (step : Step) (node : Node) (r : Result V) (suppressed : Bool) (v : Vars V)
      → let released = ltb r.status_code 400 && not (is_some r.body_error) in
        ((conclude_plain e step node r suppressed v).stack
          ≡ (if released then push_some e step node v.stack else v.stack))
        × ((conclude_plain e step node r suppressed v).state
            ≡ (if released then store_some e step.step_id r.rest.outputs v.state else v.state))
        × ((conclude_plain e step node r suppressed v).results ≡ v.results)
  unfolding conclude_plain
  conclude_plain-keeps step node r suppressed v = (ground arith, ground arith, ground arith)

-- A result that is its step's, with the step's expectation marked when it has no error.
abbrev pub IsNamed : {V : Type 0} → Step → Result V → Type 0
IsNamed step r =
    (r.rest.step_id ≡ step.step_id)
    × (r.rest.node ≡ step.node)
    × (is_some r.error ≡ false → is_some r.rest.expect_failure ≡ is_some step.expect_failure)

settle_known-IsNamed :
    {V : Type 0} (step : Step) (r : Result V) (log : Log) (ki : KnownIssue)
    (in_force has_failed : Bool)
    → IsNamed step r
    → IsNamed step (settle_known step.step_id r log ki in_force has_failed).0
settle_known-IsNamed step r log ki true true h = h
settle_known-IsNamed step r log ki false true h = h
settle_known-IsNamed step r log ki true false h = h
settle_known-IsNamed step r log ki false false h = h

settle_for-IsNamed :
    {V : Type 0} (step : Step) (r : Result V) (log : Log) (today : ℕ) (o : Option KnownIssue)
    (has_failed : Bool)
    → IsNamed step r
    → IsNamed step (settle_for step.step_id today o has_failed r log).0
settle_for-IsNamed step r log today none has_failed h = h
settle_for-IsNamed step r log today (some ki) has_failed h =
    settle_known-IsNamed step r log ki (active ki today) has_failed h

last_stored-append :
    {V : Type 0} (id : Name) (es fs : List (Name × Values V)) (d : Option (Values V))
    → last_stored id (es ++ fs) d ≡ last_stored id fs (last_stored id es d)
last_stored-append id [] fs d = refl
last_stored-append id ((k, out) ∷ es) fs d = last_stored-append id es fs _

-- The stack and the outputs, as the results say them.
abbrev pub Keeps : {V : Type 0} → List (Name × Node) → Vars V → Type 0
Keeps nodes v =
    (v.stack ≡ owed nodes v.results)
    × ((id : Name) → lookup id v.state.outputs ≡ last_stored id (stores v.results) none)

-- However the loop is left.
abbrev pub OnExit : {V : Type 0} → (Vars V → Type 0) → Turn V → Type 0
OnExit P (going v) = P v
OnExit P (aborting v) = P v
OnExit P (missing name v) = P v

module _ {V X E B : Type 0} (e : Engine V X E B) where
  pub settle-IsNamed :
      (step : Step) (r : Result V) (log : Log)
      → IsNamed step r
      → IsNamed step (settle e step r log).0
  unfolding settle
  settle-IsNamed step r log h = elim (Bool-cases (is_some r.error)) [
    | inl wrong ↦ rw wrong h
    | inr right ↦
        rw right (
          settle_for-IsNamed step r log e.today (known_issue_for e.plan_issue step.known_issue) _ h)
  ]

  -- A result that leaves nothing behind.
  pub Keeps-none :
      (r : Result V) (v v' : Vars V)
      → step_released r ≡ false
      → v'.results ≡ v.results ++ r ∷ []
      → v'.stack ≡ v.stack
      → v'.state.outputs ≡ v.state.outputs
      → Keeps e.nodes v
      → Keeps e.nodes v'
  Keeps-none r v v' nothing hr hs ho (stack, outputs) = (
    simp
        (
          hr,
          hs,
          stack,
          owed-append e.nodes v.results (r ∷ []),
          nothing,
          append-nil (owed e.nodes v.results),
        )
        refl,
    λ id.
        simp
          (
            hr,
            ho,
            outputs id,
            stores-append v.results (r ∷ []),
            nothing,
            append-nil (stores v.results),
          )
          refl,
  )

  push_some-entry_of :
      (step : Step) (node : Node) (r : Result V) (stack : List CleanupEntry)
      → r.rest.step_id ≡ step.step_id
      → push_some e step node stack ≡ stack ++ entry_of (some node) r
  push_some-entry_of step node r stack h = elim (Bool-cases (is_empty node.cleanup.node)) [
    | inl unset ↦ simp unset (sym (append-nil stack))
    | inr paired ↦ simp (paired, h) refl
  ]

  store_some-outputs :
      (id k : Name) (o : Option (Values V)) (state : RunState V)
      → lookup id (store_some e k o state).outputs
        ≡ last_stored id (stored_by k o) (lookup id state.outputs)
  unfolding store_outputs
  store_some-outputs id k none state = refl
  store_some-outputs id k (some outputs) state = refl

  pub Keeps-some :
      (step : Step) (node : Node) (r : Result V) (v v' : Vars V)
      → step_released r ≡ true
      → lookup step.node e.nodes ≡ some node
      → r.rest.step_id ≡ step.step_id
      → r.rest.node ≡ step.node
      → v'.results ≡ v.results ++ r ∷ []
      → v'.stack ≡ push_some e step node v.stack
      → v'.state ≡ store_some e step.step_id r.rest.outputs v.state
      → Keeps e.nodes v
      → Keeps e.nodes v'
  Keeps-some step node r v v' released found hid hnode hr hs ho (stack, outputs) = (
    hs
        ∙ push_some-entry_of step node r v.stack hid
        ∙ simp
            (
              hr,
              stack,
              owed-append e.nodes v.results (r ∷ []),
              released,
              hnode,
              found,
              append-nil (entry_of (some node) r),
            )
            refl,
    λ id.
        ap (λ s. lookup id s.outputs) ho
        ∙ store_some-outputs id step.step_id r.rest.outputs v.state
        ∙ simp
            (
              hr,
              outputs id,
              stores-append v.results (r ∷ []),
              released,
              hid,
              last_stored-append id (stores v.results) (stored_by step.step_id r.rest.outputs) none,
              append-nil (stored_by step.step_id r.rest.outputs),
            )
            refl,
  )
