-- ===== src/Graph/Permute.antt =====
-- The permutations of layer groups (graph/permute.go).
pub mod Picks
use aat.Base.{
  some_injective, suc, ℕ, ◌+◌, ◌*◌, List, [], ◌∷◌, ◌++◌, map, length, length-append, Bool, true,
  false, if◌then◌else◌, Option, none, some, ◌≡◌, refl, sym, ap, ◌∙◌, subst, ◌⊎◌, inl, inr, ◌↔◌,
  append-nil, append_assoc, arith,
}
use aat.Base.Text.{Text, codes}
use aat.Graph.Names.{Name, sort_strings}

pub record LayerPermutation : Type 0 where
  pub layers : List Name
  pub label : Text

unfoldable pub join : List Text → Text
join [] = []
join (t ∷ []) = t
join (t ∷ u ∷ ts) = t ++ (codes ", " ++ join (u ∷ ts))

-- `buildPermutationLabel`.
unfoldable pub permutation_label : List Name → Text
unfolding join sort_strings
permutation_label [] = codes "(base)"
permutation_label (l ∷ ls) = join (sort_strings (l ∷ ls))

-- An entry of a group: `none` selects nothing of it.
abbrev pub extend : List Name → List (Option Name)
extend group = none ∷ map some group

module _ {E : Type 0} where
  unfoldable pub append_each : List E → List E → List (List E)
  append_each existing [] = []
  append_each existing (e ∷ group) = (existing ++ e ∷ []) ∷ append_each existing group

  -- One round of the expansion.
  unfoldable pub expand : List (List E) → List E → List (List E)
  unfolding append_each
  expand [] group = []
  expand (c ∷ product) group = append_each c group ++ expand product group

  unfoldable pub expand_all : List (List E) → List (List E) → List (List E)
  unfolding expand
  expand_all [] product = product
  expand_all (group ∷ groups) product = expand_all groups (expand product group)

abbrev pub selected : List (Option Name) → List Name
selected [] = []
selected (none ∷ c) = selected c
selected (some l ∷ c) = l ∷ selected c

abbrev pub permutation_of : List (Option Name) → LayerPermutation
permutation_of c = record { layers = selected c; label = permutation_label (selected c) }

-- `sort` is `sort.Slice` by the labels.
unfoldable pub generate_layer_permutations :
    (List LayerPermutation → List LayerPermutation) → List (List Name) → List LayerPermutation
unfolding expand_all permutation_label
generate_layer_permutations sort [] = record { layers = []; label = codes "(base)" } ∷ []
generate_layer_permutations sort (g ∷ gs) =
    sort (map permutation_of (expand_all (map extend (g ∷ gs)) ([] ∷ [])))
