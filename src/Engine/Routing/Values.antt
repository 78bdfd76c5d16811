-- ===== src/Engine/Routing/Values.antt =====
-- Which registered value and expected failure a node gets (engine/routing.go).
use native.Mathlib.Omega.{arith}
use aat.Base.{
  List, [], ◌∷◌, ◌++◌, Bool, true, false, if◌then◌else◌, Option, none, some, ◌≡◌, refl, ap, ap₂,
  ◌∙◌,
}
use aat.Base.Text.{Text}
use aat.Engine.Routing.{
  ValueEntry, Router, first_of, lookup, merge_matching, exact_value, glob_value,
  resolve_value_override,
}

-- What the last of the entries that gives something gives.
unfoldable pub last_given : {A B : Type 0} → (A → Option B) → List A → Option B
last_given f [] = none
last_given f (x ∷ xs) = first_of (last_given f xs) (f x)

abbrev pub when : {B : Type 0} → Bool → Option B → Option B
when b o = if b then o else none

first_of_assoc :
    {A : Type 0} (a b c : Option A) → first_of a (first_of b c) ≡ first_of (first_of a b) c
first_of_assoc none b c = refl
first_of_assoc (some a) b c = refl

first_of-none : {A : Type 0} (a : Option A) → first_of a none ≡ a
first_of-none none = refl
first_of-none (some a) = refl

lookup-append :
    {V : Type 0} (k : Text) (m n : List (Text × V))
    → lookup k (m ++ n) ≡ first_of (lookup k m) (lookup k n)
lookup-append k [] n = refl
lookup-append k ((k', v) ∷ m) n = ground (arith, lookup-append k m n)

module _ {V : Type 0} where
  lookup-if :
      (k : Text) (b : Bool) (m n : List (Text × V))
      → lookup k (if b then m ++ n else n) ≡ first_of (when b (lookup k m)) (lookup k n)
  lookup-if k true m n = lookup-append k m n
  lookup-if k false m n = refl

module _ {F : Type 0} where
  first_of-if :
      (b : Bool) (o o' : Option F) → (if b then first_of o o' else o') ≡ first_of (when b o) o'
  first_of-if true o o' = refl
  first_of-if false o o' = refl

module _ {V F : Type 0} where
  lookup-merge_matching :
      (k : Text) (p : ValueEntry V F → Bool) (es : List (ValueEntry V F)) (vs : List (Text × V))
      (ef : Option F)
      → lookup k ((merge_matching p es vs ef).0)
        ≡ first_of (last_given (λ e. when (p e) (lookup k (e.values))) es) (lookup k vs)
  unfolding merge_matching last_given
  lookup-merge_matching k p [] vs ef = refl
  lookup-merge_matching k p (e ∷ es) vs ef =
      lookup-merge_matching k p es _ _
      ∙ ap (first_of (last_given (λ e. when (p e) (lookup k (e.values))) es))
          (lookup-if k (p e) (e.values) vs)
      ∙ first_of_assoc (last_given (λ e. when (p e) (lookup k (e.values))) es) _ _

  failure-merge_matching :
      (p : ValueEntry V F → Bool) (es : List (ValueEntry V F)) (vs : List (Text × V))
      (ef : Option F)
      → (merge_matching p es vs ef).1
        ≡ first_of (last_given (λ e. when (p e) (e.expect_failure)) es) ef
  unfolding merge_matching last_given
  failure-merge_matching p [] vs ef = refl
  failure-merge_matching p (e ∷ es) vs ef =
      failure-merge_matching p es _ _
      ∙ ap (first_of (last_given (λ e. when (p e) (e.expect_failure)) es))
          (first_of-if (p e) (e.expect_failure) ef)
      ∙ first_of_assoc (last_given (λ e. when (p e) (e.expect_failure)) es) _ _

module _ {X V F E : Type 0} (glob_match : Text → Text → Bool) where
  -- A key of a node's input values has the value that the last exact override of the node with that
  -- key gives it, otherwise the one of the last matching glob override with that key, and none
  -- otherwise; and the expected failure is chosen by the same order.
  pub resolve_value_override-last :
      (r : Router X V F E) (name k : Text)
      → (lookup k ((resolve_value_override glob_match r name).0)
          ≡ first_of
              (last_given
                (λ e. when (exact_value name e) (lookup k (e.values)))
                (r.value_overrides))
              (last_given
                (λ e. when (glob_value glob_match name e) (lookup k (e.values)))
                (r.value_overrides)))
        × ((resolve_value_override glob_match r name).1
            ≡ first_of
                (last_given (λ e. when (exact_value name e) (e.expect_failure)) (r.value_overrides))
                (last_given
                  (λ e. when (glob_value glob_match name e) (e.expect_failure))
                  (r.value_overrides)))
  unfolding resolve_value_override
  resolve_value_override-last r name k = (
    lookup-merge_matching k (exact_value name) (r.value_overrides) _ _
        ∙ ap (first_of _) (
            lookup-merge_matching k (glob_value glob_match name) (r.value_overrides) [] none
            ∙ first_of-none _),
    ap₂ first_of
        (failure-merge_matching (exact_value name) (r.value_overrides) _ _ ∙ first_of-none _)
        (failure-merge_matching (glob_value glob_match name) (r.value_overrides) [] none
          ∙ first_of-none _),
  )
