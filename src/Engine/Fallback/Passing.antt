-- ===== src/Engine/Fallback/Passing.antt =====
-- The value that a default and a pool give (`resolveWithFallback` of engine/resolve.go).
use aat.Base.{
  ◌∙◌, ap, inl, inr, false, ◌∷◌, ◌⊎◌, ℕ, List, [], true, Option, none, some, ok, err, ◌≡◌, refl,
  sym, All, get_elem?, if◌then◌else◌, subst, ok_injective, All-append_right,
}
use aat.Graph.Names.{Name}
use aat.Predicate.Syntax.{Floats}
use aat.Predicate.Value.{Value}
use aat.Engine.Routing.{is_nil}
use aat.Engine.State.{Values}
use aat.Engine.Fallback.{
  Calls, StepValue, ValueResolution, FallbackError, Tried, V, Resolved, check_constraint, try_value,
  resolution, or_pool, after_default, default_or_pool, resolve_with_fallback, pool_order, passes,
  rejected, fails, no_value, default_rejected,
}
use aat.Engine.Fallback.Pool.{
  IsAt, Shuffles, pool_order-IsAt, Settles, try_pool-Settles, try_value-passes,
}

module _ (fl : Floats) (calls : Calls (Value fl.Float)) where
  module _ (name : Name) (sv : StepValue (V fl calls)) (resolved : Values (V fl calls)) where
    -- No default gives the value: `tried` holds the default's value where it was rejected, and
    -- `unless_pool` is the error without a pool.
    abbrev pub PassedOver : List (V fl calls) → FallbackError → Type 0
    PassedOver tried unless_pool =
        (sv.default ≡ none) × (tried ≡ []) × (unless_pool ≡ no_value)
        ⊎ (raw : V fl calls) × (v : V fl calls) × (sv.default ≡ some raw)
          × (try_value fl calls sv.constraint resolved raw ≡ rejected v)
          × (tried ≡ v ∷ [])
          × (unless_pool ≡ default_rejected)

    -- What is said of a result where no default gives the value, from the entries of the pool.
    abbrev pub IsFromPool : List (V fl calls) → FallbackError → Resolved fl calls → Type 0
    IsFromPool tried unless_pool o =
        (sv.pool ≡ []) × (o ≡ err unless_pool)
        ⊎ (is_nil sv.pool ≡ false)
          × Settles fl calls name sv resolved 0 (pool_order calls sv) tried o

    abbrev pub IsExplained : Resolved fl calls → Type 0
    IsExplained o =
        ((raw : V fl calls) × (v : V fl calls) × (sv.default ≡ some raw)
          × (try_value fl calls sv.constraint resolved raw ≡ passes v)
          × (o ≡ ok (resolution fl calls name sv raw v)))
        ⊎ ((raw : V fl calls) × (e : FallbackError) × (w : Option (V fl calls)) × (sv.default
              ≡ some raw)
            × (try_value fl calls sv.constraint resolved raw ≡ fails e w)
            × (o ≡ err e))
        ⊎ (tried : List (V fl calls)) × (unless_pool : FallbackError) × PassedOver tried unless_pool
          × IsFromPool tried unless_pool o

    if_nil :
        (tried : List (V fl calls)) (e : FallbackError) (pool : List (V fl calls))
        → sv.pool ≡ pool
        → (o : Resolved fl calls)
        → Settles fl calls name sv resolved 0 (pool_order calls sv) tried o
        → IsFromPool tried e (if is_nil pool then err e else o)
    if_nil tried e [] same o h = inl (same, refl)
    if_nil tried e (x ∷ pool) same o h = inr (ap is_nil same, h)

    or_pool-IsExplained :
        (e : FallbackError) (tried : List (V fl calls))
        → PassedOver tried e
        → IsExplained (or_pool fl calls name sv resolved e tried)
    unfolding or_pool
    or_pool-IsExplained e tried over = inr (
        inr (
          tried,
          e,
          over,
          if_nil tried e sv.pool refl _ (try_pool-Settles fl calls name sv resolved 0 _ tried),
        ))

    after_default-IsExplained :
        (raw : V fl calls)
        → sv.default ≡ some raw
        → (t : Tried (V fl calls)) → try_value fl calls sv.constraint resolved raw ≡ t
        → IsExplained (after_default fl calls name sv resolved raw t)
    after_default-IsExplained raw set (passes v) h = inl (raw, v, set, h, refl)
    after_default-IsExplained raw set (rejected v) h =
        or_pool-IsExplained default_rejected (v ∷ []) (inr (raw, v, set, h, refl, refl))
    after_default-IsExplained raw set (fails e w) h = inr (inl (raw, e, w, set, h, refl))

    default_or_pool-IsExplained :
        (d : Option (V fl calls))
        → sv.default ≡ d
        → IsExplained (default_or_pool fl calls name sv resolved d)
    default_or_pool-IsExplained none h = or_pool-IsExplained no_value [] (inl (h, refl, refl))
    default_or_pool-IsExplained (some raw) h = after_default-IsExplained raw h _ refl

    -- A default whose value passes the constraint is the result; a default that cannot be judged is
    -- the error. Otherwise, without a pool, the error says whether there is a default. With a pool,
    -- the first entry that passes, in the order of the pool, is the result, with what was tried
    -- before it, where the run's context is not done up to its round; the error says that the
    -- context is done in the round of an entry, where every entry before it was tried and misses, or
    -- that every entry was tried and misses.
    pub resolve_with_fallback-IsExplained :
        IsExplained (resolve_with_fallback fl calls name sv resolved)
    unfolding resolve_with_fallback
    resolve_with_fallback-IsExplained = default_or_pool-IsExplained sv.default refl

    -- The value's source: the default, or the entry of the pool at the reported index.
    abbrev pub Stands : ValueResolution (V fl calls) → Option ℕ → Type 0
    Stands r none = sv.default ≡ some r.raw_value
    Stands r (some i) = get_elem? sv.pool i ≡ some r.raw_value

    abbrev pub IsPassing : ValueResolution (V fl calls) → Type 0
    IsPassing r =
        (calls.eval_expr r.raw_value ≡ some r.final_value)
        × (check_constraint fl calls sv.constraint r.final_value resolved ≡ ok true)
        × Stands r r.pool_index

    settled-IsPassing :
        (tried : List (V fl calls)) (o : Resolved fl calls)
        → All (IsAt sv.pool) (pool_order calls sv)
        → Settles fl calls name sv resolved 0 (pool_order calls sv) tried o
        → (r : ValueResolution (V fl calls)) → o ≡ ok r
        → IsPassing r
    settled-IsPassing tried (err e) at h r same = absurd (cc)
    settled-IsPassing tried (ok r) at (before, i, raw, v, after, split, misses, going, hit, is) r'
          same =
        let (value, holds) = try_value-passes fl calls sv.constraint resolved raw v hit in
        let (here, _) =
          All-append_right (IsAt sv.pool) before ((i, raw) ∷ after)
            (subst (All (IsAt sv.pool)) split at) in
        subst IsPassing (sym is ∙ ok_injective r r' same) (value, holds, here)

    explained-IsPassing :
        (o : Resolved fl calls)
        → All (IsAt sv.pool) (pool_order calls sv)
        → IsExplained o
        → (r : ValueResolution (V fl calls)) → o ≡ ok r
        → IsPassing r
    explained-IsPassing o at (inl (raw, v, set, h, is)) r same =
        let (value, holds) = try_value-passes fl calls sv.constraint resolved raw v h in
        subst IsPassing (ok_injective (resolution fl calls name sv raw v) r (sym is ∙ same))
          (value, holds, set)
    explained-IsPassing o at (inr (inl (raw, e, w, set, h, is))) r same = absurd (cc)
    explained-IsPassing o at (inr (inr (tried, e, over, inl (none_there, is)))) r same = absurd (cc)
    explained-IsPassing o at (inr (inr (tried, e, over, inr (some_there, h)))) r same =
        settled-IsPassing tried o at h r same

    -- With a shuffle that keeps what holds of each entry of a list, a resolved value is the value
    -- of its raw value's expressions, the constraint accepts it, and the raw value is the default,
    -- or the entry of the pool at the reported index.
    pub resolve_with_fallback-IsPassing :
        Shuffles calls.shuffle
        → (r : ValueResolution (V fl calls))
        → resolve_with_fallback fl calls name sv resolved ≡ ok r
        → IsPassing r
    resolve_with_fallback-IsPassing h =
        explained-IsPassing (resolve_with_fallback fl calls name sv resolved)
          (pool_order-IsAt calls sv h) resolve_with_fallback-IsExplained
