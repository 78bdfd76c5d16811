-- ===== src/Engine/Routing/Laws.antt =====
-- What registering an override changes, and which override wins (engine/routing.go).
use mathlib.Core.List.{reverse-append}
use aat.Base.{
  List, [], ◌∷◌, ◌++◌, Bool, true, false, not, ◌&&◌, ◌||◌, if◌then◌else◌, Option, none, some, ok,
  ◌>>=◌, is_some, ◌≡◌, refl, sym, ap, ap₂, ◌∙◌, bind-eq-ok,
}
use aat.Base.Text.{Text, text_eq}
use aat.Engine.Routing.{
  Config, PathRewrite, RouteEntry, Router, ResolvedOverride, Executors, Route, find_first,
  find_last, retarget, is_glob_pattern, is_grpc_target, exact_entry, glob_entry, entry_route,
  pick_route, add_override, resolve, add_value_override, executor_for, add_resolved_override,
  inherited_route, add_url_override,
}

find_last-snoc :
    {A : Type 0} (p : A → Bool) (xs : List A) (x : A)
    → find_last p (xs ++ x ∷ []) ≡ (if p x then some x else find_last p xs)
find_last-snoc p xs x = ap (find_first p) (reverse-append xs (x ∷ []))

pick_route-if :
    {X : Type 0} (g t m : Bool) (e : RouteEntry X) (o o' : Option (RouteEntry X)) (d : Route X)
    → pick_route (if not g && t then some e else o) (if g && m then some e else o') d
      ≡ (if not g && t || g && m && not (is_some o) then entry_route e else pick_route o o' d)
pick_route-if true t true e none o' d = refl
pick_route-if true t true e (some a) o' d = refl
pick_route-if true t false e o o' d = refl
pick_route-if false true m e o o' d = refl
pick_route-if false false m e o o' d = refl

if-false : {A : Type 0} {b : Bool} (x y : A) → b ≡ false → (if b then x else y) ≡ y
if-false {b = true} x y h = cc
if-false {b = false} x y h = refl

if-exact :
    {A : Type 0} {g : Bool} (t m n : Bool) (x y : A)
    → g ≡ false
    → (if not g && t || g && m && n then x else y) ≡ (if t then x else y)
if-exact {g = true} t m n x y h = cc
if-exact {g = false} true m n x y h = refl
if-exact {g = false} false m n x y h = refl

module _ {X V F E : Type 0} (glob_match : Text → Text → Bool) where
  resolve-add_value_override :
      (r : Router X V F E) (name p : Text) (vs : List (Text × V)) (ef : Option F)
      → resolve glob_match (add_value_override r p vs ef) name ≡ resolve glob_match r name
  unfolding resolve add_value_override
  resolve-add_value_override r name p [] none = refl
  resolve-add_value_override r name p [] (some f) = refl
  resolve-add_value_override r name p (v ∷ vs) ef = refl

  -- Registering an override changes the route of exactly the nodes it matches: an exact pattern
  -- takes over its own node whatever was registered before, a glob takes over the nodes it matches
  -- that no exact pattern names, and every other node keeps its route.
  pub resolve-add_override :
      (r : Router X V F E) (p name : Text) (x : X) (cfg : Option Config)
      (rewrite : Option PathRewrite)
      → resolve glob_match (add_override r p x cfg rewrite) name ≡ (
          if not (is_glob_pattern p) && text_eq p name
            || is_glob_pattern p
              && glob_match p name
              && not (is_some (find_last (exact_entry name) (r.overrides)))
          then (x, cfg, rewrite)
          else resolve glob_match r name)
  unfolding resolve add_override
  resolve-add_override r p name x cfg rewrite =
      ap₂ (λ o o'. pick_route o o' (r.default_exec, r.default_config, none))
        (find_last-snoc (exact_entry name) (r.overrides) _)
        (find_last-snoc (glob_entry glob_match name) (r.overrides) _)
      ∙ pick_route-if (is_glob_pattern p) (text_eq p name) (glob_match p name)
          (record {
            pattern = p;
            is_glob = is_glob_pattern p;
            executor = x;
            config = cfg;
            path_rewrite = rewrite;
          })
          _ _ _

  -- An override that sets no `baseUrl`, `auth`, `headers` or `pathRewrite` is always accepted, and
  -- leaves every node on the route it had.
  pub add_resolved_override-resolve :
      (xs : Executors X E) (r : Router X V F E) (ov : ResolvedOverride V F) (name : Text)
      → ov.routes ≡ false
      → (r' : Router X V F E) × (add_resolved_override xs r ov ≡ ok r')
        × (resolve glob_match r' name ≡ resolve glob_match r name)
  unfolding add_resolved_override
  add_resolved_override-resolve xs r ov name h = (
    add_value_override r (ov.pattern) (ov.values) (ov.expect_failure),
    ap (λ m. m >>= λ r'. ok (add_value_override r' (ov.pattern) (ov.values) (ov.expect_failure)))
        (if-false _ _ h),
    resolve-add_value_override r name (ov.pattern) (ov.values) (ov.expect_failure),
  )

  inherited_route-exact :
      (r : Router X V F E) (p : Text)
      → is_glob_pattern p ≡ false
      → inherited_route glob_match r p ≡ ((resolve glob_match r p).1, (resolve glob_match r p).2)
  unfolding inherited_route
  inherited_route-exact r p g = if-false _ _ g

  -- When `--override NODE=URL` of an exact pattern succeeds, an executor for the target was built,
  -- the node is routed to it with the headers, the credential and the path rewrite of the route it
  -- had (no rewrite for a gRPC target), and every other node keeps its route.
  pub add_url_override-resolve :
      (xs : Executors X E) (r r' : Router X V F E) (p target name : Text)
      → is_glob_pattern p ≡ false
      → add_url_override glob_match xs r p target ≡ ok r'
      → (x : X) × (executor_for xs r target ≡ ok x)
        × (resolve glob_match r' name ≡ (
            if text_eq p name
            then (
              x,
              some (retarget target ((resolve glob_match r p).1)),
              if is_grpc_target target then none else (resolve glob_match r p).2,
            )
            else resolve glob_match r name))
  unfolding add_url_override
  add_url_override-resolve xs r r' p target name g h =
      let (x, hx, hr) = bind-eq-ok (executor_for xs r target) _ h in
      let same : add_override r p x _ _ ≡ r' = cc in
      (
        x,
        hx,
        ap (λ r. resolve glob_match r name) (sym same)
            ∙ resolve-add_override r p name x _ _
            ∙ if-exact (text_eq p name) _ _ _ _ g
            ∙ ap
                (λ route.
                  if text_eq p name
                  then (
                    x,
                    some (retarget target (route.0)),
                    if is_grpc_target target then none else route.1,
                  )
                  else resolve glob_match r name)
                (inherited_route-exact r p g),
      )
