-- ===== src/Graph/Layer/Effective.antt =====
-- The default that the layers leave for an input of a node (`ApplyLayers` of graph/layer.go).
use aat.Base.{
  All, List, [], ◌∷◌, true, false, ◌&&◌, if◌then◌else◌, is_some, Option, none, some, ok, ◌≡◌, refl,
  sym, ap, ◌∙◌, subst, inl, inr, Bool-cases, ap₂, Option-cases, arith,
}
use aat.Base.Text.{Text, text_eq, text_eq→eq, text_eq_refl}
use aat.Graph.Names.{Name}
use aat.Graph.Topo.{update}
use aat.Engine.Routing.{lookup}
use aat.Graph.Layer.{
  first_set, InputDefault, Input, Layer, Nodes, Defaults, cut_dot, has_dot, key_of,
  merge_input_default, layer_default, has_input, seed_inputs, seed_nodes, first_set, put_over,
  bare_entry, bare_inputs, bare_nodes, node_has, apply_qualified, qualified_entries, apply_layer,
  check_layers, apply_all, apply_layers,
}
use aat.Graph.Layer.Keys.{cut_dot-key_of, cut_dot-eq-some, key_of_injective}

-- Each key of a map is there once.
abbrev pub IsUnique : {A : Type 0} → List (Text × A) → Type 0
IsUnique [] = Unit
IsUnique ((k, v) ∷ m) = (lookup k m ≡ none) × IsUnique m

key_ne :
    (node node' input input' : Name)
    → has_dot node ≡ false
    → has_dot node' ≡ false
    → (text_eq node node' && text_eq input input') ≡ false
    → text_eq (key_of node input) (key_of node' input') ≡ false
key_ne node node' input input' h h' apart =
    elim (Bool-cases (text_eq (key_of node input) (key_of node' input'))) [
      | inr other ↦ other
      | inl same ↦
          let (nodes, inputs) =
            key_of_injective node node' input input' h h'
              (text_eq→eq (key_of node input) (key_of node' input') same) in
          let e : text_eq node node' ≡ true =
            subst (λ n. text_eq node n ≡ true) nodes (text_eq_refl node) in
          let f : text_eq input input' ≡ true =
            subst (λ n. text_eq input n ≡ true) inputs (text_eq_refl input) in
          ground (arith, e, f, apart)
    ]

module _ {V S : Type 0} where
  abbrev pub AreInputs : List (Input V S) → Type 0
  AreInputs [] = Unit
  AreInputs (i ∷ is) = (has_input i.name is ≡ false) × AreInputs is

  -- The nodes have distinct names without dots, and distinct inputs each.
  abbrev pub AreNodes : Nodes V S → Type 0
  AreNodes [] = Unit
  AreNodes ((node, inputs) ∷ ns) =
      (has_dot node ≡ false) × (lookup node ns ≡ none) × AreInputs inputs × AreNodes ns

  abbrev pub over :
      Option (InputDefault V S) → Name → Option (InputDefault V S) → Option (InputDefault V S)
  over base layer none = base
  over base layer (some d) = merge_input_default base (some (layer_default d layer))

  -- What one layer makes of the default of an input: its bare entry, then its qualified one.
  abbrev pub layered :
      Name → Name → Layer V S → Name → Option (InputDefault V S) → Option (InputDefault V S)
  layered node input layer name base =
      over (over base name (bare_entry layer input)) name (lookup (key_of node input) layer.inputs)

  abbrev pub layered_all :
      Name → Name → List (Name × Layer V S) → Option (InputDefault V S) → Option (InputDefault V S)
  layered_all node input [] base = base
  layered_all node input ((name, layer) ∷ layers) base =
      layered_all node input layers (layered node input layer name base)

  abbrev pub graph_default : Name → List (Input V S) → Option (InputDefault V S)
  graph_default name [] = none
  graph_default name (i ∷ is) = if text_eq i.name name then i.default else graph_default name is

  put_over_other :
      (key other : Text) (layer : Name) (o : Option (InputDefault V S)) (m : Defaults V S)
      → text_eq key other ≡ false
      → put_over key layer o m other ≡ m other
  put_over_other key other layer none m h = refl
  put_over_other key other layer (some d) m h = simp h

  put_over_self :
      (key : Text) (layer : Name) (o : Option (InputDefault V S)) (m : Defaults V S)
      → put_over key layer o m key ≡ over (m key) layer o
  put_over_self key layer none m = refl
  put_over_self key layer (some d) m = simp (text_eq_refl key)

  module _ (n i : Name) (dotless : has_dot n ≡ false) where
    seed_inputs_at :
        (node : Name) (inputs : List (Input V S)) (m : Defaults V S)
        → has_dot node ≡ false
        → AreInputs inputs
        → seed_inputs node inputs m (key_of n i) ≡ (
            if text_eq node n && has_input i inputs
            then first_set (graph_default i inputs) (m (key_of n i))
            else m (key_of n i))
    unfolding seed_inputs
    seed_inputs_at node [] m h once = ground arith
    seed_inputs_at node (x ∷ xs) m h (first, once) =
        let m' = seeded node x m in
        let rest = seed_inputs_at node xs m' h once in
        elim (Bool-cases (text_eq node n && text_eq x.name i)) [
          | inl here ↦
              let at_node : node ≡ n = text_eq→eq node n (ground (arith, here)) in
              let at_input : x.name ≡ i = text_eq→eq x.name i (ground (arith, here)) in
              let gone : has_input i xs ≡ false =
                subst (λ j. has_input j xs ≡ false) at_input first in
              let same : text_eq (key_of node x.name) (key_of n i) ≡ true =
                subst (λ k. text_eq k (key_of n i) ≡ true) (sym (ap₂ key_of at_node at_input))
                  (text_eq_refl (key_of n i)) in
              ground (arith, rest, seeded_self node x m same, gone, here)
          | inr apart ↦
              ground
                (arith, rest, seeded_other node x m (key_ne node n x.name i h dotless apart), apart)
        ]
      where
        seeded : Name → Input V S → Defaults V S → Defaults V S
        seeded node x m = if is_some x.default then update m (key_of node x.name) x.default else m

        seeded_other :
            (node : Name) (x : Input V S) (m : Defaults V S)
            → text_eq (key_of node x.name) (key_of n i) ≡ false
            → seeded node x m (key_of n i) ≡ m (key_of n i)
        seeded_other node x m other = elim (Bool-cases (is_some x.default)) [
          | inl set ↦ simp (set, other)
          | inr unset ↦ simp unset
        ]

        seeded_self :
            (node : Name) (x : Input V S) (m : Defaults V S)
            → text_eq (key_of node x.name) (key_of n i) ≡ true
            → seeded node x m (key_of n i) ≡ first_set x.default (m (key_of n i))
        seeded_self node x m same = elim (Option-cases x.default) [
          | inl unset ↦ simp unset
          | inr (d, set) ↦ simp (set, same)
        ]

    bare_inputs_at :
        (layer : Layer V S) (name node : Name) (inputs : List (Input V S)) (m : Defaults V S)
        → has_dot node ≡ false
        → AreInputs inputs
        → bare_inputs layer name node inputs m (key_of n i) ≡ (
            if text_eq node n && has_input i inputs
            then over (m (key_of n i)) name (bare_entry layer i)
            else m (key_of n i))
    unfolding bare_inputs
    bare_inputs_at layer name node [] m h once = ground arith
    bare_inputs_at layer name node (x ∷ xs) m h (first, once) =
        elim (Bool-cases (text_eq node n && text_eq x.name i)) [
          | inl here ↦
              let at_node : node ≡ n = text_eq→eq node n (ground (arith, here)) in
              let at_input : x.name ≡ i = text_eq→eq x.name i (ground (arith, here)) in
              let gone : has_input i xs ≡ false =
                subst (λ j. has_input j xs ≡ false) at_input first in
              let rest =
                bare_inputs_at layer name node xs
                  (put_over (key_of node x.name) name (bare_entry layer x.name) m) h once in
              let put : put_over (key_of node x.name) name (bare_entry layer x.name) m (key_of n i)
                  ≡ over (m (key_of n i)) name (bare_entry layer i) =
                subst
                  (λ v.
                    put_over (key_of v x.name) name (bare_entry layer x.name) m (key_of n i)
                    ≡ over (m (key_of n i)) name (bare_entry layer i))
                  (sym at_node)
                  (subst
                    (λ j.
                      put_over (key_of n j) name (bare_entry layer j) m (key_of n i)
                      ≡ over (m (key_of n i)) name (bare_entry layer i))
                    (sym at_input) (put_over_self (key_of n i) name (bare_entry layer i) m)) in
              ground (arith, rest, put, gone, here)
          | inr apart ↦
              let rest =
                bare_inputs_at layer name node xs
                  (put_over (key_of node x.name) name (bare_entry layer x.name) m) h once in
              let kept =
                put_over_other (key_of node x.name) (key_of n i) name (bare_entry layer x.name) m
                  (key_ne node n x.name i h dotless apart) in
              ground (arith, rest, kept, apart)
        ]

    absent : (ns : Nodes V S) → lookup n ns ≡ none → node_has ns n i ≡ false
    absent ns h = simp h

    bare_nodes_at :
        (layer : Layer V S) (name : Name) (nodes : Nodes V S) (m : Defaults V S)
        → AreNodes nodes
        → bare_nodes layer name nodes m (key_of n i) ≡ (
            if node_has nodes n i
            then over (m (key_of n i)) name (bare_entry layer i)
            else m (key_of n i))
    unfolding bare_nodes
    bare_nodes_at layer name [] m valid = refl
    bare_nodes_at layer name ((node, inputs) ∷ ns) m (h, fresh, once, valid) =
        let rest = bare_nodes_at layer name ns (bare_inputs layer name node inputs m) valid in
        let here = bare_inputs_at layer name node inputs m h once in
        elim (Bool-cases (text_eq node n)) [
          | inl same ↦
              let gone =
                absent ns (subst (λ k. lookup k ns ≡ none) (text_eq→eq node n same) fresh) in
              simp same (ground (arith, rest, here, gone, same))
          | inr other ↦ simp other (ground (arith, rest, here, other))
        ]

    abbrev default_in : Option (List (Input V S)) → Option (InputDefault V S)
    default_in none = none
    default_in (some inputs) = graph_default i inputs

    seed_nodes_at :
        (nodes : Nodes V S) (m : Defaults V S)
        → AreNodes nodes
        → seed_nodes nodes m (key_of n i) ≡ (
            if node_has nodes n i
            then first_set (default_in (lookup n nodes)) (m (key_of n i))
            else m (key_of n i))
    unfolding seed_nodes
    seed_nodes_at [] m valid = refl
    seed_nodes_at ((node, inputs) ∷ ns) m (h, fresh, once, valid) =
        let rest = seed_nodes_at ns (seed_inputs node inputs m) valid in
        let here = seed_inputs_at node inputs m h once in
        elim (Bool-cases (text_eq node n)) [
          | inl same ↦
              let gone =
                absent ns (subst (λ k. lookup k ns ≡ none) (text_eq→eq node n same) fresh) in
              simp same (ground (arith, rest, here, gone, same))
          | inr other ↦ simp other (ground (arith, rest, here, other))
        ]

    qualified_entries_at :
        (nodes : Nodes V S) (name : Name) (entries : List (Text × InputDefault V S))
        (m : Defaults V S)
        → IsUnique entries
        → node_has nodes n i ≡ true
        → qualified_entries nodes name entries m (key_of n i)
          ≡ over (m (key_of n i)) name (lookup (key_of n i) entries)
    unfolding qualified_entries
    qualified_entries_at nodes name [] m once has = refl
    qualified_entries_at nodes name ((k, d) ∷ ds) m (fresh, once) has =
        let m' = apply_qualified nodes name (cut_dot k) d m in
        let rest = qualified_entries_at nodes name ds m' once has in
        elim (Bool-cases (text_eq k (key_of n i))) [
          | inl same ↦
              let at_key : k ≡ key_of n i = text_eq→eq k (key_of n i) same in
              let cut : cut_dot k ≡ some (n, i) = ap cut_dot at_key ∙ cut_dot-key_of n i dotless in
              let gone : lookup (key_of n i) ds ≡ none =
                subst (λ j. lookup j ds ≡ none) at_key fresh in
              let put : m' (key_of n i) ≡ over (m (key_of n i)) name (some d) =
                simp (cut, has) (put_over_self (key_of n i) name (some d) m) in
              simp same (rest ∙ ap (over (m' (key_of n i)) name) gone ∙ put)
          | inr other ↦
              let kept : m' (key_of n i) ≡ m (key_of n i) = passed k (cut_dot k) d m refl other in
              simp other (rest ∙ ap (λ o. over o name (lookup (key_of n i) ds)) kept)
        ]
      where
        passed :
            (k : Text) (cut : Option (Text × Text)) (d : InputDefault V S) (m : Defaults V S)
            → cut_dot k ≡ cut
            → text_eq k (key_of n i) ≡ false
            → apply_qualified nodes name cut d m (key_of n i) ≡ m (key_of n i)
        passed k none d m e other = refl
        passed k (some (node, input)) d m e other =
            let (whole, _) = cut_dot-eq-some k node input e in
            let apart : text_eq (key_of node input) (key_of n i) ≡ false =
              subst (λ j. text_eq j (key_of n i) ≡ false) whole other in
            elim (Bool-cases (node_has nodes node input)) [
              | inl there ↦
                  simp there (put_over_other (key_of node input) (key_of n i) name (some d) m apart)
              | inr missing ↦ simp missing
            ]

    apply_layer_at :
        (nodes : Nodes V S) (layer : Layer V S) (name : Name) (m : Defaults V S)
        → AreNodes nodes
        → IsUnique layer.inputs
        → node_has nodes n i ≡ true
        → apply_layer nodes layer name m (key_of n i) ≡ layered n i layer name (m (key_of n i))
    unfolding apply_layer
    apply_layer_at nodes layer name m valid once has =
        qualified_entries_at nodes name layer.inputs (bare_nodes layer name nodes m) once has
        ∙ ap (λ o. over o name (lookup (key_of n i) layer.inputs))
            (bare_nodes_at layer name nodes m valid ∙ simp has)

    apply_all_at :
        (nodes : Nodes V S) (layers : List (Name × Layer V S)) (m : Defaults V S)
        → AreNodes nodes
        → All (λ l. IsUnique l.1.inputs) layers
        → node_has nodes n i ≡ true
        → apply_all nodes layers m (key_of n i) ≡ layered_all n i layers (m (key_of n i))
    unfolding apply_all
    apply_all_at nodes [] m valid once has = refl
    apply_all_at nodes ((name, layer) ∷ layers) m valid (first, once) has =
        apply_all_at nodes layers (apply_layer nodes layer name m) valid once has
        ∙ ap (layered_all n i layers) (apply_layer_at nodes layer name m valid first has)

  -- The layers with the given names.
  abbrev pub Named : List Name → List (Name × Layer V S) → List (Name × Layer V S) → Type 0
  Named [] available [] = Unit
  Named (n ∷ ns) available ((k, layer) ∷ layers) =
      (k ≡ n) × (lookup n available ≡ some layer) × Named ns available layers
  Named _ available _ = ⊥

  check_layers-Named :
      (names : List Name) (available layers : List (Name × Layer V S))
      → Named names available layers
      → check_layers names available ≡ ok layers
  unfolding check_layers
  check_layers-Named [] available [] h = refl
  check_layers-Named [] available (l ∷ layers) h = absurd h
  check_layers-Named (n ∷ ns) available [] h = absurd h
  check_layers-Named (n ∷ ns) available ((k, layer) ∷ layers) (e, found, h) =
      simp (found, check_layers-Named ns available layers h)
        (ap (λ j. ok ((j, layer) ∷ layers)) (sym e))

-- Where nodes, inputs and layers are there, with distinct names and no dot in a node's name,
-- ApplyLayers succeeds, and the effective default of an input is its graph default with the layers
-- put over it in their order: of each layer the bare entry first, then the qualified one.
pub apply_layers-layered :
    {V S : Type 0} (nodes : Nodes V S) (names : List Name)
    (available layers : List (Name × Layer V S)) (n i : Name) (inputs : List (Input V S))
    → AreNodes nodes
    → Named names available layers
    → All (λ l. IsUnique l.1.inputs) layers
    → lookup n nodes ≡ some inputs
    → has_input i inputs ≡ true
    → has_dot n ≡ false
    → (m : Defaults V S) × (apply_layers nodes names available ≡ ok m)
      × (m (key_of n i) ≡ layered_all n i layers (graph_default i inputs))
unfolding apply_layers
apply_layers-layered nodes names available layers n i inputs valid named once found has dotless =
    let there : node_has nodes n i ≡ true = simp found has in
    let seeded = seed_nodes_at n i dotless nodes (λ key. none) valid in
    (
      apply_all nodes layers (seed_nodes nodes (λ key. none)),
      simp (check_layers-Named names available layers named),
      apply_all_at n i dotless nodes layers (seed_nodes nodes (λ key. none)) valid once there
          ∙ ap (layered_all n i layers)
              (ground (arith, seeded, there, found, set_over_none (graph_default i inputs))),
    )
  where
    set_over_none : {A : Type 0} → (o : Option A) → first_set o none ≡ o
    set_over_none none = refl
    set_over_none (some a) = refl
