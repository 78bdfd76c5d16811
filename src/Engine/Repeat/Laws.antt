-- ===== src/Engine/Repeat/Laws.antt =====
-- What the loop of a repeated step leaves (engine/repeat.go).
use aat.Base.{
  ℕ, zero, suc, ◌+◌, ◌-◌, ◌≤◌, ◌<◌, List, [], ◌∷◌, true, false, if◌then◌else◌, Option, none, some,
  is_some, length, ◌≡◌, refl, sym, ap, ◌⊎◌, inl, inr, arith, ◌∙◌,
}
use aat.Base.Text.{Text, text_eq→eq}
use aat.Graph.Names.{mem, IsSetOf, not_mem-occ}
use aat.Engine.Routing.{lookup}
use aat.Engine.State.{Values}
use aat.Engine.Steps.{RepeatConfig, Result}
use aat.Engine.Repeat.{
  RepeatStop, stop_error, stop_until, stop_exhausted, stop_loop, stop_max, stop_timeout,
  RepeatFailure, Requests, Iteration, is_paging, max_requests, cursor_key, sent_cursors,
  collect_outputs,
}
use aat.Engine.Repeat.Loop.{
  first_sent, outputs_of, Repeated, before, next_sent, next_inputs, key_of, iteration, repeat_loop,
  run_repeat, execute_step_repeated, finished, seen_before,
}
use aat.Engine.Repeat.Rounds.{IsJustified, AtEnds, round-any}

abbrev sum_retries : {V : Type 0} → List (Iteration V) → ℕ
sum_retries [] = 0
sum_retries (i ∷ is) = i.result.retry_count + sum_retries is

-- The requests are numbered from `n` on.
abbrev pub Numbered : {V : Type 0} → ℕ → List (Iteration V) → Type 0
Numbered n [] = Unit
Numbered n (i ∷ is) = (i.index ≡ n) × Numbered (suc n) is

abbrev pub Counted : {V : Type 0} → ℕ → ℕ → Repeated V → Type 0
Counted limit n l =
    (length l.iterations ≤ limit) × Numbered n l.iterations × (l.retries ≡ sum_retries l.iterations)

abbrev IsUnchecked : {V : Type 0} → Repeated V → Type 0
IsUnchecked l = IsJustified l.stop l.failure × (l.result.rest.validation ≡ none)

module _ {V : Type 0} (q : Requests V) (rc : RepeatConfig) where
  -- The cursors that each response but the last gave.
  abbrev pub followed : List (Iteration V) → List Text
  followed [] = []
  followed (i ∷ []) = []
  followed (i ∷ j ∷ is) = key_of q rc i.result ∷ followed (j ∷ is)

  abbrev AreNew : List (Text × ℕ) → List Text → Type 0
  AreNew sent keys =
      IsSetOf keys × ((v : Text) → mem v keys ≡ true → is_some (lookup v sent) ≡ false)

  repeat_loop-Counted :
      (left n : ℕ) (first inputs : Values V) (sent : List (Text × ℕ)) (collected : Values V)
      → Counted (suc left) n (repeat_loop q rc left n first inputs sent collected)
  unfolding repeat_loop
  repeat_loop-Counted zero n first inputs sent collected =
      round-any q rc (Counted 1 n) zero n inputs sent collected _
        (λ left_as met c stop failure _ _. (omega arith, (refl, tt), omega arith))
        (λ new h. absurd (omega arith))
  repeat_loop-Counted (suc left) n first inputs sent collected =
      round-any q rc (Counted (suc (suc left)) n) (suc left) n inputs sent collected _
        (λ left_as met c stop failure _ _. (omega arith, (refl, tt), omega arith))
        (λ new h.
          let (short, numbered, sum) = repeat_loop-Counted left (suc n) first _ _ _ in
          (omega (arith, short), (refl, numbered), omega (arith, sum)))

  ends-IsUnchecked :
      (left n : ℕ) (inputs : Values V) (sent : List (Text × ℕ))
      → ((n : ℕ) (inputs : Values V) → (q.request n inputs).rest.validation ≡ none)
      → AtEnds q rc IsUnchecked left n inputs sent
  ends-IsUnchecked left n inputs sent unchecked left_as met c stop failure (inl e) justified =
      (justified, ap (λ r. r.rest.validation) e ∙ unchecked n inputs)
  ends-IsUnchecked left n inputs sent unchecked left_as met c stop failure (inr e) justified =
      (justified, ap (λ r. r.rest.validation) e ∙ unchecked n inputs)

  repeat_loop-IsUnchecked :
      (left n : ℕ) (first inputs : Values V) (sent : List (Text × ℕ)) (collected : Values V)
      → ((n : ℕ) (inputs : Values V) → (q.request n inputs).rest.validation ≡ none)
      → IsUnchecked (repeat_loop q rc left n first inputs sent collected)
  unfolding repeat_loop
  repeat_loop-IsUnchecked zero n first inputs sent collected unchecked =
      round-any q rc IsUnchecked zero n inputs sent collected _
        (ends-IsUnchecked zero n inputs sent unchecked) (λ new h. absurd (omega arith))
  repeat_loop-IsUnchecked (suc left) n first inputs sent collected unchecked =
      round-any q rc IsUnchecked (suc left) n inputs sent collected _
        (ends-IsUnchecked (suc left) n inputs sent unchecked)
        (λ new h. repeat_loop-IsUnchecked left (suc n) first _ _ _ unchecked)

  followed-AreNew :
      (sent : List (Text × ℕ)) (n : ℕ) (i : Iteration V) (is : List (Iteration V))
      → is_some (lookup (key_of q rc i.result) sent) ≡ false
      → AreNew ((key_of q rc i.result, n) ∷ sent) (followed is)
      → AreNew sent (followed (i ∷ is))
  followed-AreNew sent n i [] new h = ((λ v. omega arith), λ v m. absurd (cc))
  followed-AreNew sent n i (j ∷ is) new (once, others) = (
    (λ v. ground (arith, once v, others v, not_mem-occ v (followed (j ∷ is)))),
    λ v m. ground (arith, others v, text_eq→eq (key_of q rc i.result) v),
  )

  before-AreNew :
      (n : ℕ) (inputs : Values V) (r : Result V) (sent : List (Text × ℕ)) (more : Repeated V)
      → is_paging rc ≡ true
      → is_some (seen_before q rc r sent) ≡ false
      → AreNew (next_sent q rc n r sent) (followed more.iterations)
      → AreNew sent (followed (before q rc n inputs r more).iterations)
  before-AreNew n inputs r sent more paging new (once, others) =
      followed-AreNew sent (suc n) (iteration q rc n inputs r false) more.iterations
        (rw paging at new)
        (
          once,
          λ v m.
              ap (λ b. is_some (lookup v (if b then (key_of q rc r, suc n) ∷ sent else sent)))
                (sym paging)
              ∙ others v m,
        )

  repeat_loop-AreNew :
      (left n : ℕ) (first inputs : Values V) (sent : List (Text × ℕ)) (collected : Values V)
      → is_paging rc ≡ true
      → AreNew sent (followed (repeat_loop q rc left n first inputs sent collected).iterations)
  unfolding repeat_loop
  repeat_loop-AreNew zero n first inputs sent collected paging =
      round-any q rc (λ l. AreNew sent (followed l.iterations)) zero n inputs sent collected _
        (λ left_as met c stop failure _ _. ((λ v. omega arith), λ v m. absurd (cc)))
        (λ new h. absurd (omega arith))
  repeat_loop-AreNew (suc left) n first inputs sent collected paging =
      round-any q rc (λ l. AreNew sent (followed l.iterations)) (suc left) n inputs sent collected _
        (λ left_as met c stop failure _ _. ((λ v. omega arith), λ v m. absurd (cc)))
        (λ new h. before-AreNew n inputs (q.request n inputs) sent more paging new (
          repeat_loop-AreNew left (suc n) first (next_inputs q rc first inputs (q.request n inputs))
            (next_sent q rc n (q.request n inputs) sent)
            (collect_outputs q (outputs_of (q.request n inputs)) rc.collect collected) paging))
    where
      more : Repeated V
      more =
          repeat_loop q rc left (suc n) first (next_inputs q rc first inputs (q.request n inputs))
            (next_sent q rc n (q.request n inputs) sent)
            (collect_outputs q (outputs_of (q.request n inputs)) rc.collect collected)

-- A repeated step sends at most the requests that `max` allows, numbered from 1 in the order they
-- were sent, and reports as its retries those of all its requests.
pub run_repeat-Counted :
    {V : Type 0} (q : Requests V) (rc : RepeatConfig) (first : Values V)
    → Counted (max_requests rc) 1 (run_repeat q rc first)
unfolding run_repeat
run_repeat-Counted q rc first =
    let (short, numbered, sum) =
      repeat_loop-Counted q rc (max_requests rc - 1) 1 first first _ [] in
    (omega (arith, short, max_requests-positive rc), numbered, sum)
  where
    max_requests-positive : (rc : RepeatConfig) → 0 < max_requests rc
    max_requests-positive rc = ground arith

-- A step that pages never follows the same cursors twice: the cursors of the responses before the
-- last all differ.
pub run_repeat-IsSetOf :
    {V : Type 0} (q : Requests V) (rc : RepeatConfig) (first : Values V)
    → is_paging rc ≡ true
    → IsSetOf (followed q rc (run_repeat q rc first).iterations)
unfolding run_repeat
run_repeat-IsSetOf q rc first paging =
    (repeat_loop-AreNew q rc (max_requests rc - 1) 1 first first _ [] paging).0

-- When no single request is checked by assertions, the checks of a repeated step pass only if its
-- condition held or its pages ran out: not when it reached its limit or its timeout, when its
-- cursors repeated, when its condition could not be evaluated, when a request failed, or when it
-- was interrupted.
pub execute_step_repeated-passes :
    {V : Type 0} (q : Requests V) (rc : RepeatConfig) (first : Values V)
    → ((n : ℕ) (inputs : Values V) → (q.request n inputs).rest.validation ≡ none)
    → (execute_step_repeated q rc first).rest.validation ≡ some true
    → ((run_repeat q rc first).stop ≡ stop_until) ⊎ ((run_repeat q rc first).stop ≡ stop_exhausted)
unfolding execute_step_repeated run_repeat
execute_step_repeated-passes {V} q rc first unchecked passed =
    let (justified, none_yet) =
      repeat_loop-IsUnchecked q rc (max_requests rc - 1) 1 first first _ [] unchecked in
    by_stop l l.stop l.failure refl refl justified none_yet passed
  where
    l : Repeated V
    l =
        repeat_loop q rc (max_requests rc - 1) 1 first first
          (if is_paging rc
            then first_sent q rc (cursor_key q (sent_cursors q first rc.next))
            else [])
          []

    by_stop :
        (l : Repeated V) (stop : RepeatStop) (failure : Option RepeatFailure)
        → l.stop ≡ stop
        → l.failure ≡ failure
        → IsJustified stop failure
        → l.result.rest.validation ≡ none
        → (finished q rc first l).rest.validation ≡ some true
        → (stop ≡ stop_until) ⊎ (stop ≡ stop_exhausted)
    by_stop l stop_until failure hs hf j v p = inl refl
    by_stop l stop_exhausted failure hs hf j v p = inr refl
    by_stop l stop_error none hs hf j v p = absurd (cc)
    by_stop l stop_error (some f) hs hf j v p = absurd (cc)
    by_stop l stop_loop (some f) hs hf j v p = absurd (cc)
    by_stop l stop_max (some f) hs hf j v p = absurd (cc)
    by_stop l stop_timeout (some f) hs hf j v p = absurd (cc)
    by_stop l stop_loop none hs hf j v p = absurd (cc)
    by_stop l stop_max none hs hf j v p = absurd (cc)
    by_stop l stop_timeout none hs hf j v p = absurd (cc)
