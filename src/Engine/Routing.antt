-- ===== src/Engine/Routing.antt =====
-- `ExecutorRouter` of engine/routing.go: the overrides in the order they were registered, newest
-- last, and the executor, configuration and input values a node gets from them. The executors and
-- how they are built, the values, and `filepath.Match` are parameters.
use aat.Base.{
  ℕ, List, [], ◌∷◌, ◌++◌, reverse, map, Bool, true, false, not, ◌&&◌, ◌||◌, if◌then◌else◌, ◌==◌,
  Option, none, some, any, Outcome, ok, err, ◌>>=◌, is_some,
}
use aat.Base.Text.{Text, codes, text_eq}
use mathlib.Core.Path.{◌≡◌, refl}
pub mod Laws
pub mod Values

abbrev pub Headers : Type 0
Headers = List (Text × Text)

-- `adapter.EnvironmentConfig`.
pub record Config : Type 0 where
  pub base_url : Text
  pub headers : Headers
  pub protected : Headers

-- `adapter.PathRewrite`.
pub record PathRewrite : Type 0 where
  pub strip : Text
  pub prefix : Text

pub record RouteEntry (X : Type 0) : Type 0 where
  pub pattern : Text
  pub is_glob : Bool
  pub executor : X
  pub config : Option Config
  pub path_rewrite : Option PathRewrite

-- Go's nil map and empty map are read alike, as an association list where the first pair of a key
-- is its value.
pub record ValueEntry (V F : Type 0) : Type 0 where
  pub pattern : Text
  pub is_glob : Bool
  pub values : List (Text × V)
  pub expect_failure : Option F

pub record Router (X V F E : Type 0) : Type 0 where
  pub default_exec : X
  pub default_config : Option Config
  pub factory : Option (Text → Outcome E X)
  pub overrides : List (RouteEntry X)
  pub value_overrides : List (ValueEntry V F)

abbrev is_meta : ℕ → Bool
is_meta c = c == b'*' || c == b'?' || c == b'['

unfoldable pub is_glob_pattern : Text → Bool
is_glob_pattern p = any is_meta p

-- `grpc://` and `grpcs://`.
abbrev has_prefix : Text → Text → Bool
has_prefix [] t = true
has_prefix (a ∷ s) [] = false
has_prefix (a ∷ s) (b ∷ t) = a == b && has_prefix s t

unfoldable pub is_grpc_target : Text → Bool
is_grpc_target t = has_prefix (codes "grpc://") t || has_prefix (codes "grpcs://") t

-- `for i := len(xs) - 1; i >= 0; i--` with a return at the first hit, of the reversed list.
abbrev pub find_first {ℓ} : {A : Type ℓ} → (A → Bool) → List A → Option A
find_first p [] = none
find_first p (x ∷ xs) = if p x then some x else find_first p xs

abbrev pub find_last {ℓ} : {A : Type ℓ} → (A → Bool) → List A → Option A
find_last p xs = find_first p (reverse xs)

pub record ResolvedOverride (V F : Type 0) : Type 0 where
  pub pattern : Text
  pub routes : Bool
  pub api_config : Config
  pub path_rewrite : Option PathRewrite
  pub values : List (Text × V)
  pub expect_failure : Option F

abbrev pub is_nil : {A : Type 0} → List A → Bool
is_nil [] = true
is_nil (x ∷ xs) = false

abbrev pub lookup : {V : Type 0} → Text → List (Text × V) → Option V
lookup k [] = none
lookup k ((k', v) ∷ m) = if text_eq k' k then some v else lookup k m

abbrev pub first_of : {A : Type 0} → Option A → Option A → Option A
first_of none o = o
first_of (some a) o = some a

-- What `executorFor` calls of the adapter: `NewHTTPExecutor`, and its own refusal.
pub record Executors (X E : Type 0) : Type 0 where
  pub new_http : Text → X
  pub no_descriptors : Text → E

-- `headers` and `protected` of a route that is inherited; those of nil are none.
abbrev pub retarget : Text → Option Config → Config
retarget target none = record { base_url = target; headers = []; protected = [] }
retarget target (some c) = record c { base_url = target }

abbrev pub Route : Type 0 → Type 0
Route X = X × Option Config × Option PathRewrite

module _ {X : Type 0} where
  abbrev pub exact_entry : Text → RouteEntry X → Bool
  exact_entry name e = not (e.is_glob) && text_eq (e.pattern) name

  abbrev pub entry_route : RouteEntry X → Route X
  entry_route e = (e.executor, e.config, e.path_rewrite)

  abbrev pub pick_route : Option (RouteEntry X) → Option (RouteEntry X) → Route X → Route X
  pick_route (some e) o d = entry_route e
  pick_route none (some e) d = entry_route e
  pick_route none none d = d

  abbrev pub same_pattern : Text → RouteEntry X → Bool
  same_pattern p e = text_eq (e.pattern) p

  abbrev pub pick_inherited :
      Option (RouteEntry X) → Option Config → Option Config × Option PathRewrite
  pick_inherited (some e) d = (e.config, e.path_rewrite)
  pick_inherited none d = (d, none)

module _ {X : Type 0} (glob_match : Text → Text → Bool) where
  abbrev pub glob_entry : Text → RouteEntry X → Bool
  glob_entry name e = e.is_glob && glob_match (e.pattern) name

module _ {V F : Type 0} where
  -- The two loops of `ResolveValueOverride`: `mergeValues` writes the later pairs over the earlier.
  unfoldable pub merge_matching :
      (ValueEntry V F → Bool)
      → List (ValueEntry V F)
      → List (Text × V)
      → Option F
      → List (Text × V) × Option F
  merge_matching p [] vs ef = (vs, ef)
  merge_matching p (e ∷ es) vs ef =
      merge_matching p es (if p e then e.values ++ vs else vs)
        (if p e then first_of (e.expect_failure) ef else ef)

  abbrev pub exact_value : Text → ValueEntry V F → Bool
  exact_value name e = not (e.is_glob) && text_eq (e.pattern) name

module _ {V F : Type 0} (glob_match : Text → Text → Bool) where
  abbrev pub glob_value : Text → ValueEntry V F → Bool
  glob_value name e = e.is_glob && glob_match (e.pattern) name

module _ {X V F E : Type 0} where
  unfoldable pub add_override :
      Router X V F E → Text → X → Option Config → Option PathRewrite → Router X V F E
  add_override r p x cfg rewrite = record r {
    overrides =
        r.overrides
        ++ (record {
          pattern = p;
          is_glob = is_glob_pattern p;
          executor = x;
          config = cfg;
          path_rewrite = rewrite;
        })
          ∷ [];
  }

  unfoldable pub add_value_override :
      Router X V F E → Text → List (Text × V) → Option F → Router X V F E
  add_value_override r p [] none = r
  add_value_override r p vs ef = record r {
    value_overrides =
        r.value_overrides
        ++ (record { pattern = p; is_glob = is_glob_pattern p; values = vs; expect_failure = ef })
          ∷ [];
  }

  unfoldable pub executor_for : Executors X E → Router X V F E → Text → Outcome E X
  executor_for xs r target = elim (r.factory) [
    | some for ↦ for target
    | none ↦
        if is_grpc_target target then err (xs.no_descriptors target) else ok (xs.new_http target)
  ]

  -- `AddResolvedOverride`; an error is the executor's, which the source wraps with the pattern.
  unfoldable pub add_resolved_override :
      Executors X E → Router X V F E → ResolvedOverride V F → Outcome E (Router X V F E)
  add_resolved_override xs r ov =
      (if ov.routes
        then (executor_for xs r (ov.api_config.base_url) >>= λ x.
            ok (add_override r (ov.pattern) x (some (ov.api_config)) (ov.path_rewrite)))
        else ok r)
      >>= λ r'. ok (add_value_override r' (ov.pattern) (ov.values) (ov.expect_failure))

  unfoldable pub has_overrides : Router X V F E → Bool
  has_overrides r = not (is_nil (r.overrides)) || not (is_nil (r.value_overrides))

  unfoldable pub override_patterns : Router X V F E → List Text
  override_patterns r = map (λ e. e.pattern) (r.overrides)

module _ {X V F E : Type 0} (glob_match : Text → Text → Bool) where
  unfoldable pub resolve : Router X V F E → Text → Route X
  resolve r name =
      pick_route (find_last (exact_entry name) (r.overrides))
        (find_last (glob_entry glob_match name) (r.overrides))
        (r.default_exec, r.default_config, none)

  unfoldable pub inherited_route : Router X V F E → Text → Option Config × Option PathRewrite
  inherited_route r p =
      if is_glob_pattern p
      then pick_inherited (find_last (same_pattern p) (r.overrides)) (r.default_config)
      else let (x, cfg, rewrite) = resolve r p in (cfg, rewrite)

  unfoldable pub add_url_override :
      Executors X E → Router X V F E → Text → Text → Outcome E (Router X V F E)
  add_url_override xs r p target = executor_for xs r target >>= λ x. ok (
      add_override r p x (some (retarget target ((inherited_route r p).0)))
        (if is_grpc_target target then none else (inherited_route r p).1))

  unfoldable pub resolve_value_override : Router X V F E → Text → List (Text × V) × Option F
  resolve_value_override r name =
      let (vs, glob_ef) = merge_matching (glob_value glob_match name) (r.value_overrides) [] none in
      let (vs', exact_ef) = merge_matching (exact_value name) (r.value_overrides) vs none in
      (vs', first_of exact_ef glob_ef)
