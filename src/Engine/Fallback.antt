-- ===== src/Engine/Fallback.antt =====
-- The default and the pool of an input's value: `resolveWithFallback`, `checkConstraint` and
-- `noteDefaultOrigin` of engine/resolve.go.
pub mod Pool
pub mod Passing
use aat.Base.{
  ℕ, zero, suc, List, [], ◌∷◌, ◌++◌, Bool, true, false, if◌then◌else◌, Option, none, some, or_else,
  Outcome, ok, err, length,
}
use aat.Base.Text.{Text, codes, text_eq}
use aat.Graph.Names.{Name}
use aat.Predicate.Syntax.{Floats}
use aat.Predicate.Value.{Value, Fields, field, end, text}
use aat.Predicate.Eval.{Error, eval_text}
use aat.Engine.Cleanup.Skip.{is_empty}
use aat.Engine.Routing.{is_nil}
use aat.Engine.State.{Values}

pub data FallbackError : Type 0 where
  bad_expression done pool_exhausted default_rejected no_value : FallbackError
  bad_constraint : Error → FallbackError

-- `StepValue`, the fields that the fallback reads. An empty text stands for one that is not set.
pub record StepValue (V : Type 0) : Type 0 where
  pub default : Option V
  pub pool : List V
  pub pool_ref : Text
  pub pool_strategy : Option Text
  pub constraint : Text
  pub origin : Text
  pub layer : Text

-- `ValueResolution`, the fields that the fallback sets; `pool_index` is `none` for -1.
pub record ValueResolution (V : Type 0) : Type 0 where
  pub input_name : Name
  pub source : Text
  pub layer : Text
  pub raw_value : V
  pub final_value : V
  pub expression : Text
  pub constraint : Text
  pub constraint_ok : Bool
  pub pool_index : Option ℕ
  pub pool_size : ℕ
  pub pool_ref : Text
  pub tried : List V

-- What the fallback calls: the expressions of plan/expr.go in the step's context, the shuffle of a
-- list, and whether the run's context is done when the loop over the pool reaches a round.
pub record Calls (V : Type 0) : Type 0 where
  pub contains_expr : V → Bool
  pub eval_expr : V → Option V
  pub shuffle : List (ℕ × V) → List (ℕ × V)
  pub is_done : ℕ → Bool

abbrev pub origin_source : Text → Text → Text
origin_source origin source =
    if text_eq origin (codes "graph")
    then codes "graph_default"
    else if text_eq origin (codes "layer")
    then codes "layer"
    else source

module _ {F : Type 0} where
  -- The predicate's context.
  abbrev pub fields_of : Values (Value F) → Fields F
  fields_of [] = end
  fields_of ((k, v) ∷ m) = field k v (fields_of m)

  -- The text of an expression that is a string.
  abbrev pub written : Value F → Text
  written (text s) = s
  written v = []

module _ {V : Type 0} where
  unfoldable pub note_default_origin : ValueResolution V → StepValue V → ValueResolution V
  note_default_origin res sv = record res {
    layer = if is_empty sv.layer then res.layer else sv.layer;
    source =
        if text_eq res.source (codes "plan_default")
        then origin_source sv.origin res.source
        else res.source;
  }

  abbrev pub indexed : ℕ → List V → List (ℕ × V)
  indexed i [] = []
  indexed i (v ∷ vs) = (i, v) ∷ indexed (suc i) vs

  -- The pool in the order in which it is tried, with the indices of its entries.
  unfoldable pub pool_order : Calls V → StepValue V → List (ℕ × V)
  pool_order calls sv =
      if text_eq (or_else sv.pool_strategy []) (codes "sequential")
      then indexed 0 sv.pool
      else calls.shuffle (indexed 0 sv.pool)

-- What trying a value gives: the value that passes, the value that does not, or an error, with the
-- value where there is one.
pub data Tried (V : Type 0) : Type 0 where
  passes rejected : V → Tried V
  fails : FallbackError → Option V → Tried V

module _ (fl : Floats) (calls : Calls (Value fl.Float)) where
  abbrev pub V : Type 0
  V = Value fl.Float

  unfoldable pub check_constraint : Text → V → Values V → Outcome Error Bool
  check_constraint constraint candidate resolved =
      if is_empty constraint
      then ok true
      else eval_text fl constraint (field (codes "value") candidate (fields_of resolved))

  abbrev pub judged : V → Outcome Error Bool → Tried V
  judged v (ok true) = passes v
  judged v (ok false) = rejected v
  judged v (err e) = fails (bad_constraint e) (some v)

  abbrev pub judged_value : Text → Values V → Option V → Tried V
  judged_value constraint resolved none = fails bad_expression none
  judged_value constraint resolved (some v) = judged v (check_constraint constraint v resolved)

  unfoldable pub try_value : Text → Values V → V → Tried V
  unfolding check_constraint
  try_value constraint resolved raw = judged_value constraint resolved (calls.eval_expr raw)

  abbrev pub Resolved : Type 0
  Resolved = Outcome FallbackError (ValueResolution V)

  abbrev pub resolution : Name → StepValue V → V → V → ValueResolution V
  resolution name sv raw v = record {
    input_name = name;
    source = if calls.contains_expr raw then codes "expression" else codes "plan_default";
    layer = [];
    raw_value = raw;
    final_value = v;
    expression = if calls.contains_expr raw then written raw else [];
    constraint = sv.constraint;
    constraint_ok = true;
    pool_index = none;
    pool_size = length sv.pool;
    pool_ref = [];
    tried = [];
  }

  abbrev pub from_pool : Name → StepValue V → ℕ → V → V → List V → ValueResolution V
  from_pool name sv i raw v tried = record (resolution name sv raw v) {
    source = codes "fallback_pool";
    pool_index = some i;
    pool_ref = sv.pool_ref;
    tried = tried;
  }

  -- What stays in `tried` of an entry that does not pass.
  abbrev pub left_of : V → Tried V → V
  left_of raw (passes v) = v
  left_of raw (rejected v) = v
  left_of raw (fails e none) = raw
  left_of raw (fails e (some v)) = v

  abbrev pub settle_entry : Name → StepValue V → ℕ → V → List V → Tried V → Resolved → Resolved
  settle_entry name sv i raw tried (passes v) rest = ok (from_pool name sv i raw v tried)
  settle_entry name sv i raw tried (rejected v) rest = rest
  settle_entry name sv i raw tried (fails e w) rest = rest

  -- The loop over the pool, from round `pi`. An entry whose expression or constraint fails is
  -- passed over.
  unfoldable pub try_pool : Name → StepValue V → Values V → ℕ → List (ℕ × V) → List V → Resolved
  unfolding try_value
  try_pool name sv resolved pi [] tried = err pool_exhausted
  try_pool name sv resolved pi ((i, raw) ∷ entries) tried =
      let t = try_value sv.constraint resolved raw in
      let rest = try_pool name sv resolved (suc pi) entries (tried ++ left_of raw t ∷ []) in
      if calls.is_done pi then err done else settle_entry name sv i raw tried t rest

  unfoldable pub or_pool : Name → StepValue V → Values V → FallbackError → List V → Resolved
  unfolding try_pool pool_order
  or_pool name sv resolved error tried =
      if is_nil sv.pool
      then err error
      else try_pool name sv resolved zero (pool_order calls sv) tried

  abbrev pub after_default : Name → StepValue V → Values V → V → Tried V → Resolved
  after_default name sv resolved raw (passes v) = ok (resolution name sv raw v)
  after_default name sv resolved raw (rejected v) =
      or_pool name sv resolved default_rejected (v ∷ [])
  after_default name sv resolved raw (fails e w) = err e

  abbrev pub default_or_pool : Name → StepValue V → Values V → Option V → Resolved
  default_or_pool name sv resolved none = or_pool name sv resolved no_value []
  default_or_pool name sv resolved (some raw) =
      after_default name sv resolved raw (try_value sv.constraint resolved raw)

  unfoldable pub resolve_with_fallback : Name → StepValue V → Values V → Resolved
  unfolding try_value or_pool
  resolve_with_fallback name sv resolved = default_or_pool name sv resolved sv.default
