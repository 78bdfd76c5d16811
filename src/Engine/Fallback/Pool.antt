-- ===== src/Engine/Fallback/Pool.antt =====
-- The loop over a pool (`resolveWithFallback` of engine/resolve.go).
use aat.Base.{
  ◌+◌, ◌<◌, length, inl, inr, zero, ◌⊎◌, ℕ, suc, List, [], ◌∷◌, ◌++◌, Bool, true, false,
  if◌then◌else◌, Option, none, some, or_else, Outcome, ok, err, ◌≡◌, ◌≢◌, refl, sym, ap, ◌∙◌, arith,
  append_assoc, append-nil, get_elem?, All,
}
use aat.Base.Text.{Text, codes, text_eq}
use aat.Graph.Names.{Name}
use aat.Predicate.Syntax.{Floats}
use aat.Predicate.Value.{Value}
use aat.Predicate.Eval.{Error}
use aat.Engine.State.{Values}
use aat.Engine.Fallback.{
  Calls, StepValue, ValueResolution, Tried, V, Resolved, check_constraint, try_value, judged,
  judged_value, left_of, from_pool, settle_entry, try_pool, pool_order, indexed, passes, rejected,
  fails, pool_exhausted, done,
}

module _ {A : Type 0} where
  -- The entry stands at its index.
  abbrev pub IsAt : List A → ℕ × A → Type 0
  IsAt pool (i, a) = get_elem? pool i ≡ some a

  indexed-IsAt :
      (pool : List A) (i : ℕ) (l : List A)
      → ((k : ℕ) → get_elem? pool (k + i) ≡ get_elem? l k)
      → All (IsAt pool) (indexed i l)
  indexed-IsAt pool i [] h = tt
  indexed-IsAt pool i (x ∷ l) h = (
    ap (get_elem? pool) (omega arith) ∙ h 0,
    indexed-IsAt pool (suc i) l (λ k. ap (get_elem? pool) (omega arith) ∙ h (suc k)),
  )

  -- The shuffle keeps what holds of each entry.
  abbrev pub Shuffles : (List (ℕ × A) → List (ℕ × A)) → Type 1
  Shuffles shuffle = (P : ℕ × A → Type 0) (l : List (ℕ × A)) → All P l → All P (shuffle l)

  if-All :
      (P : ℕ × A → Type 0) (b : Bool) (l l' : List (ℕ × A))
      → All P l
      → All P l'
      → All P (if b then l else l')
  if-All P true l l' h h' = h
  if-All P false l l' h h' = h'

  pub pool_order-IsAt :
      (calls : Calls A) (sv : StepValue A)
      → Shuffles calls.shuffle
      → All (IsAt sv.pool) (pool_order calls sv)
  unfolding pool_order
  pool_order-IsAt calls sv h =
      let here = indexed-IsAt sv.pool 0 sv.pool (λ k. ap (get_elem? sv.pool) (omega arith)) in
      if-All (IsAt sv.pool) (text_eq (or_else sv.pool_strategy []) (codes "sequential")) _ _ here
        (h (IsAt sv.pool) (indexed 0 sv.pool) here)

module _ (fl : Floats) (calls : Calls (Value fl.Float)) where
  -- The run's context is not done in `n` rounds from round `pi` on.
  abbrev pub IsGoing : ℕ → ℕ → Type 0
  IsGoing pi n = (k : ℕ) → k < n → calls.is_done (pi + k) ≡ false

  IsGoing-suc : (pi n : ℕ) → calls.is_done pi ≡ false → IsGoing (suc pi) n → IsGoing pi (suc n)
  IsGoing-suc pi n now h zero lt = ap calls.is_done (omega arith) ∙ now
  IsGoing-suc pi n now h (suc k) lt = ap calls.is_done (omega arith) ∙ h k (omega (arith, lt))

  module _ (constraint : Text) (resolved : Values (V fl calls)) where
    -- The entry does not pass.
    abbrev pub Misses : ℕ × V fl calls → Type 0
    Misses (i, raw) = (v : V fl calls) → try_value fl calls constraint resolved raw ≢ passes v

    abbrev pub leftovers : List (ℕ × V fl calls) → List (V fl calls)
    leftovers [] = []
    leftovers ((i, raw) ∷ entries) =
        left_of fl calls raw (try_value fl calls constraint resolved raw) ∷ leftovers entries

    judged-passes :
        (v w : V fl calls) (o : Outcome Error Bool)
        → judged fl calls w o ≡ passes v
        → (w ≡ v) × (o ≡ ok true)
    judged-passes v w (ok true) h = (cc, refl)
    judged-passes v w (ok false) h = absurd (cc)
    judged-passes v w (err e) h = absurd (cc)

    judged_value-passes :
        (v : V fl calls) (o : Option (V fl calls))
        → judged_value fl calls constraint resolved o ≡ passes v
        → (o ≡ some v) × (check_constraint fl calls constraint v resolved ≡ ok true)
    judged_value-passes v none h = absurd (cc)
    judged_value-passes v (some w) h =
        let (same, holds) = judged-passes v w (check_constraint fl calls constraint w resolved) h in
        (ap some same, ap (λ u. check_constraint fl calls constraint u resolved) (sym same) ∙ holds)

    -- A value passes where its expression has a value that the constraint accepts.
    pub try_value-passes :
        (raw v : V fl calls)
        → try_value fl calls constraint resolved raw ≡ passes v
        → (calls.eval_expr raw ≡ some v)
          × (check_constraint fl calls constraint v resolved ≡ ok true)
    unfolding try_value
    try_value-passes raw v h = judged_value-passes v (calls.eval_expr raw) h

  module _ (name : Name) (sv : StepValue (V fl calls)) (resolved : Values (V fl calls)) where
    -- The first entry of `order` that passes gives the resolution `r`, and the run's context is not
    -- done in the rounds up to it, from round `pi` on.
    abbrev pub IsFirst :
        ℕ → List (ℕ × V fl calls) → List (V fl calls) → ValueResolution (V fl calls) → Type 0
    IsFirst pi order tried r =
        (before : List (ℕ × V fl calls)) × (i : ℕ) × (raw : V fl calls) × (v : V fl calls)
        × (after : List (ℕ × V fl calls)) × (order ≡ before ++ (i, raw) ∷ after)
        × All (Misses sv.constraint resolved) before
        × IsGoing pi (suc (length before))
        × (try_value fl calls sv.constraint resolved raw ≡ passes v)
        × (r
            ≡ from_pool fl calls name sv i raw v (tried ++ leftovers sv.constraint resolved before))

    -- The context is done in the round of an entry, and every entry before it was tried and misses.
    abbrev pub IsStopped : ℕ → List (ℕ × V fl calls) → Type 0
    IsStopped pi order =
        (before : List (ℕ × V fl calls)) × (entry : ℕ × V fl calls) × (after : List
          (ℕ × V fl calls))
        × (order ≡ before ++ entry ∷ after)
        × All (Misses sv.constraint resolved) before
        × IsGoing pi (length before)
        × (calls.is_done (pi + length before) ≡ true)

    abbrev pub Settles : ℕ → List (ℕ × V fl calls) → List (V fl calls) → Resolved fl calls → Type 0
    Settles pi order tried (ok r) = IsFirst pi order tried r
    Settles pi order tried (err e) =
        (e ≡ done) × IsStopped pi order
        ⊎ (e ≡ pool_exhausted)
          × All (Misses sv.constraint resolved) order
          × IsGoing pi (length order)

    skip :
        (pi i : ℕ) (raw : V fl calls) (entries : List (ℕ × V fl calls)) (tried : List (V fl calls))
        → calls.is_done pi ≡ false
        → Misses sv.constraint resolved (i, raw)
        → (o : Resolved fl calls)
        → Settles
            (suc pi)
            entries
            (tried ++ left_of fl calls raw (try_value fl calls sv.constraint resolved raw) ∷ [])
            o
        → Settles pi ((i, raw) ∷ entries) tried o
    skip pi i raw entries tried now miss (ok r)
          (before, j, x, v, after, split, misses, going, hit, is) =
        (
          (i, raw) ∷ before,
          j,
          x,
          v,
          after,
          ap (λ l. (i, raw) ∷ l) split,
          (miss, misses),
          IsGoing-suc pi (suc (length before)) now going,
          hit,
          is ∙ ap (from_pool fl calls name sv j x v) (append_assoc tried _ _),
        )
    skip pi i raw entries tried now miss (err e)
          (inl (h, (before, entry, after, split, misses, going, ends))) =
        inl (
          h,
          (
            (i, raw) ∷ before,
            entry,
            after,
            ap (λ l. (i, raw) ∷ l) split,
            (miss, misses),
            IsGoing-suc pi (length before) now going,
            ap calls.is_done (omega arith) ∙ ends,
          ),
        )
    skip pi i raw entries tried now miss (err e) (inr (h, misses, going)) =
        inr (h, (miss, misses), IsGoing-suc pi (length entries) now going)

    settle_entry-Settles :
        (pi i : ℕ) (raw : V fl calls) (entries : List (ℕ × V fl calls)) (tried : List (V fl calls))
        → calls.is_done pi ≡ false
        → (t : Tried (V fl calls)) → try_value fl calls sv.constraint resolved raw ≡ t
        → (o : Resolved fl calls)
        → Settles
            (suc pi)
            entries
            (tried ++ left_of fl calls raw (try_value fl calls sv.constraint resolved raw) ∷ [])
            o
        → Settles pi ((i, raw) ∷ entries) tried (settle_entry fl calls name sv i raw tried t o)
    settle_entry-Settles pi i raw entries tried now (passes v) h o rest = (
      [],
      i,
      raw,
      v,
      entries,
      refl,
      tt,
      IsGoing-suc pi 0 now (λ k lt. absurd (omega (arith, lt))),
      h,
      ap (from_pool fl calls name sv i raw v) (sym (append-nil tried)),
    )
    settle_entry-Settles pi i raw entries tried now (rejected v) h o rest =
        skip pi i raw entries tried now (λ w k. absurd (cc)) o rest
    settle_entry-Settles pi i raw entries tried now (fails e w) h o rest =
        skip pi i raw entries tried now (λ w k. absurd (cc)) o rest

    unless_done-Settles :
        (pi : ℕ) (entry : ℕ × V fl calls) (entries : List (ℕ × V fl calls))
        (tried : List (V fl calls)) (b : Bool)
        → calls.is_done pi ≡ b
        → (o : Resolved fl calls)
        → (calls.is_done pi ≡ false → Settles pi (entry ∷ entries) tried o)
        → Settles pi (entry ∷ entries) tried (if b then err done else o)
    unless_done-Settles pi entry entries tried true now o h = inl (
      refl,
      (
        [],
        entry,
        entries,
        refl,
        tt,
        (λ k lt. absurd (omega (arith, lt))),
        ap calls.is_done (omega arith) ∙ now,
      ),
    )
    unless_done-Settles pi entry entries tried false now o h = h now

    pub try_pool-Settles :
        (pi : ℕ) (order : List (ℕ × V fl calls)) (tried : List (V fl calls))
        → Settles pi order tried (try_pool fl calls name sv resolved pi order tried)
    unfolding try_pool
    try_pool-Settles pi [] tried = inr (refl, tt, λ k lt. absurd (omega (arith, lt)))
    try_pool-Settles pi ((i, raw) ∷ entries) tried =
        unless_done-Settles pi (i, raw) entries tried (calls.is_done pi) refl _
          (λ now.
            settle_entry-Settles pi i raw entries tried now _ refl _
              (try_pool-Settles (suc pi) entries _))
