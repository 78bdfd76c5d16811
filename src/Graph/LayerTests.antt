-- ===== src/Graph/LayerTests.antt =====
-- The theorems on layers at a graph of two nodes, and tests.
use aat.Base.{ℕ, List, [], ◌∷◌, none, some, ok, err, ◌≡◌, refl, ◌↔◌}
use aat.Base.Text.{Text, codes}
use aat.Graph.Names.{Name}
use aat.Graph.Layer.{
  InputDefault, Input, Layer, Nodes, Defaults, apply_layers, unknown_inputs, layer_touched_keys,
  merge_input_default,
}
use aat.Graph.Layer.Effective.{layered_all, graph_default, apply_layers-layered}
use aat.Graph.Permute.{LayerPermutation, generate_layer_permutations, permutation_label}
use aat.Graph.Permute.Picks.{In, Picks, generate_layer_permutations-Picks}

abbrev unset : InputDefault ℕ Text
unset = record {
  value = none;
  pool = none;
  pool_ref = [];
  pool_strategy = none;
  constraint = [];
  from = [];
  from_resolved = [];
  select = none;
  layer = [];
}

abbrev literal : ℕ → InputDefault ℕ Text
literal n = record unset { value = some n }

abbrev city : Input ℕ Text
city = record { name = codes "city"; default = some (record unset { from = codes "find.city" }) }

abbrev nodes : Nodes ℕ Text
nodes = (codes "find", city ∷ []) ∷ (codes "book", city ∷ []) ∷ []

abbrev europe : Layer ℕ Text
europe = record {
  name = codes "eu";
  inputs =
      (codes "city", literal 1) ∷ (codes "book.city", literal 2) ∷ (codes "town", literal 3) ∷ [];
}

abbrev available : List (Name × Layer ℕ Text)
available = (codes "eu", europe) ∷ []

apply_layers-layered_example :
    (m : Defaults ℕ Text) × (apply_layers nodes (codes "eu" ∷ []) available ≡ ok m)
    × (m (codes "book.city")
        ≡ layered_all
            (codes "book")
            (codes "city")
            available
            (graph_default (codes "city") (city ∷ [])))
apply_layers-layered_example =
    apply_layers-layered nodes (codes "eu" ∷ []) available available (codes "book") (codes "city")
      (city ∷ []) (refl, refl, (refl, tt), (refl, refl, (refl, tt), tt)) (refl, refl, tt)
      ((refl, (refl, (refl, tt))), tt) refl refl refl

qualified_wins :
    layered_all (codes "book") (codes "city") available (graph_default (codes "city") (city ∷ []))
    ≡ some (record (literal 2) { layer = codes "eu" })
unfolding merge_input_default
qualified_wins = refl

missing_layer : apply_layers nodes (codes "us" ∷ []) available ≡ err (codes "us")
unfolding apply_layers
missing_layer = refl

unknown : unknown_inputs europe nodes ≡ codes "town" ∷ []
unfolding unknown_inputs
unknown = refl

touched :
    layer_touched_keys nodes (codes "eu" ∷ []) available []
    ≡ codes "find.city" ∷ codes "book.city" ∷ []
unfolding layer_touched_keys
touched = refl

abbrev groups : List (List Name)
groups = (codes "european" ∷ codes "asian" ∷ []) ∷ (codes "amex" ∷ []) ∷ []

abbrev mixed : LayerPermutation
mixed = record { layers = codes "european" ∷ codes "amex" ∷ []; label = codes "amex, european" }

generate_layer_permutations-Picks_example :
    In mixed (generate_layer_permutations (λ ps. ps) groups)
    ↔ (Picks groups mixed.layers × (mixed.label ≡ permutation_label mixed.layers))
generate_layer_permutations-Picks_example =
    generate_layer_permutations-Picks (λ ps. ps) groups mixed (λ ps p. (λ h. h, λ h. h))

labelled : permutation_label (codes "european" ∷ codes "amex" ∷ []) ≡ codes "amex, european"
unfolding permutation_label
labelled = refl
