-- ===== src/Graph/Layer.antt =====
-- Layers of input defaults (graph/layer.go). `V` are the literal values, and `S` the selections, of
-- defaults. The entries of a map are a list that has each key once; where the source ranges over a
-- map, the list's order stands for the order that the runtime picks.
pub mod Keys
pub mod Effective
use aat.Base.{
  ℕ, List, [], ◌∷◌, ◌++◌, Bool, true, false, not, ◌&&◌, ◌||◌, if◌then◌else◌, ◌==◌, any, is_some,
  Option, none, some, Outcome, ok, err, ◌>>=◌,
}
use aat.Base.Text.{Text, text_eq}
use aat.Graph.Names.{Name, mem, add_name, sort_strings}
use aat.Graph.Topo.{update}
use aat.Engine.Routing.{lookup}
use aat.Engine.Cleanup.Skip.{is_empty}

-- An empty text stands for a text that is not set.
pub record InputDefault (V S : Type 0) : Type 0 where
  pub value : Option V
  pub pool : Option (List V)
  pub pool_ref : Text
  pub pool_strategy : Option Text
  pub constraint : Text
  pub from : Text
  pub from_resolved : Text
  pub select : Option S
  pub layer : Text

pub record Input (V S : Type 0) : Type 0 where
  pub name : Name
  pub default : Option (InputDefault V S)

pub record Layer (V S : Type 0) : Type 0 where
  pub name : Name
  pub inputs : List (Text × InputDefault V S)

-- The nodes of the graph with their inputs.
abbrev pub Nodes : Type 0 → Type 0 → Type 0
Nodes V S = List (Name × List (Input V S))

abbrev pub Defaults : Type 0 → Type 0 → Type 0
Defaults V S = Text → Option (InputDefault V S)

abbrev pub cons_before : ℕ → Option (Text × Text) → Option (Text × Text)
cons_before c none = none
cons_before c (some (before, after)) = some (c ∷ before, after)

-- `strings.Cut(key, ".")`, where there is a dot.
unfoldable pub cut_dot : Text → Option (Text × Text)
cut_dot [] = none
cut_dot (c ∷ s) = let later = cons_before c (cut_dot s) in if c == b'.' then some ([], s) else later

abbrev pub has_dot : Text → Bool
has_dot [] = false
has_dot (c ∷ s) = c == b'.' || has_dot s

-- `nodeName + "." + inputName`.
abbrev pub key_of : Name → Name → Text
key_of node input = node ++ b'.' ∷ input

abbrev pub first_set : {A : Type 0} → Option A → Option A → Option A
first_set none base = base
first_set (some a) base = some a

abbrev pub first_text : Text → Text → Text
first_text over base = if is_empty over then base else over

module _ {V S : Type 0} where
  abbrev pub has_value : InputDefault V S → Bool
  has_value d =
      is_some d.value
      || has_pool d.pool
      || not (is_empty d.pool_ref)
      || not (is_empty d.from)
      || not (is_empty d.from_resolved)
    where
      has_pool : Option (List V) → Bool
      has_pool none = false
      has_pool (some []) = false
      has_pool (some (v ∷ vs)) = true

  -- An overlay names a value source.
  abbrev pub names_source : InputDefault V S → Bool
  names_source d =
      is_some d.value
      || is_some d.pool
      || not (is_empty d.pool_ref)
      || not (is_empty d.from)
      || not (is_empty d.from_resolved)

  -- The base without its sources, and without its select unless a `from` replaces them.
  abbrev pub without_sources : InputDefault V S → InputDefault V S → InputDefault V S
  without_sources overlay base = record base {
    value = none;
    pool = none;
    pool_ref = [];
    from = [];
    from_resolved = [];
    select = if is_empty overlay.from then none else base.select;
  }

  abbrev pub overlay_on : InputDefault V S → InputDefault V S → InputDefault V S
  overlay_on overlay base = record {
    value = first_set overlay.value base.value;
    pool = first_set overlay.pool base.pool;
    pool_ref = first_text overlay.pool_ref base.pool_ref;
    pool_strategy = first_set overlay.pool_strategy base.pool_strategy;
    constraint = first_text overlay.constraint base.constraint;
    from = first_text overlay.from base.from;
    from_resolved = first_text overlay.from_resolved base.from_resolved;
    select = first_set overlay.select base.select;
    layer = first_text overlay.layer base.layer;
  }

  -- `MergeInputDefault`.
  unfoldable pub merge_input_default :
      Option (InputDefault V S) → Option (InputDefault V S) → Option (InputDefault V S)
  merge_input_default base none = base
  merge_input_default none (some overlay) = some overlay
  merge_input_default (some base) (some overlay) =
      some
        (overlay_on overlay (if names_source overlay then without_sources overlay base else base))

  -- `layerDefault`.
  abbrev pub layer_default : InputDefault V S → Name → InputDefault V S
  layer_default d layer = record d { layer = layer }

  abbrev pub has_input : Name → List (Input V S) → Bool
  has_input name [] = false
  has_input name (i ∷ is) = text_eq i.name name || has_input name is

  -- The defaults of the graph.
  unfoldable pub seed_inputs : Name → List (Input V S) → Defaults V S → Defaults V S
  seed_inputs node [] m = m
  seed_inputs node (i ∷ is) m =
      seed_inputs node is (if is_some i.default then update m (key_of node i.name) i.default else m)

  unfoldable pub seed_nodes : Nodes V S → Defaults V S → Defaults V S
  unfolding seed_inputs
  seed_nodes [] m = m
  seed_nodes ((node, inputs) ∷ ns) m = seed_nodes ns (seed_inputs node inputs m)

  abbrev pub put_over : Text → Name → Option (InputDefault V S) → Defaults V S → Defaults V S
  put_over key layer none m = m
  put_over key layer (some d) m =
      update m key (merge_input_default (m key) (some (layer_default d layer)))

  -- The bare entries of a layer, by the names of inputs.
  abbrev pub bare_entry : Layer V S → Name → Option (InputDefault V S)
  bare_entry layer input = if has_dot input then none else lookup input layer.inputs

  unfoldable pub bare_inputs :
      Layer V S → Name → Name → List (Input V S) → Defaults V S → Defaults V S
  bare_inputs layer layer_name node [] m = m
  bare_inputs layer layer_name node (i ∷ is) m =
      bare_inputs layer layer_name node is
        (put_over (key_of node i.name) layer_name (bare_entry layer i.name) m)

  unfoldable pub bare_nodes : Layer V S → Name → Nodes V S → Defaults V S → Defaults V S
  unfolding bare_inputs
  bare_nodes layer layer_name [] m = m
  bare_nodes layer layer_name ((node, inputs) ∷ ns) m =
      bare_nodes layer layer_name ns (bare_inputs layer layer_name node inputs m)

  abbrev pub inputs_have : Option (List (Input V S)) → Name → Bool
  inputs_have none input = false
  inputs_have (some inputs) input = has_input input inputs

  abbrev pub node_has : Nodes V S → Name → Name → Bool
  node_has nodes node input = inputs_have (lookup node nodes) input

  -- A qualified entry, which counts when the node and its input are there.
  abbrev pub apply_qualified :
      Nodes V S → Name → Option (Text × Text) → InputDefault V S → Defaults V S → Defaults V S
  apply_qualified nodes layer_name none d m = m
  apply_qualified nodes layer_name (some (node, input)) d m =
      if node_has nodes node input then put_over (key_of node input) layer_name (some d) m else m

  unfoldable pub qualified_entries :
      Nodes V S → Name → List (Text × InputDefault V S) → Defaults V S → Defaults V S
  unfolding cut_dot
  qualified_entries nodes layer_name [] m = m
  qualified_entries nodes layer_name ((key, d) ∷ ds) m =
      qualified_entries nodes layer_name ds (apply_qualified nodes layer_name (cut_dot key) d m)

  unfoldable pub apply_layer : Nodes V S → Layer V S → Name → Defaults V S → Defaults V S
  unfolding bare_nodes qualified_entries
  apply_layer nodes layer layer_name m =
      qualified_entries nodes layer_name layer.inputs (bare_nodes layer layer_name nodes m)

  -- The loop over the names; the error is the name of a layer that is not there.
  abbrev pub with_layer :
      Name
      → Option (Layer V S)
      → Outcome Name (List (Name × Layer V S))
      → Outcome Name (List (Name × Layer V S))
  with_layer n none rest = err n
  with_layer n (some layer) (ok layers) = ok ((n, layer) ∷ layers)
  with_layer n (some layer) (err e) = err e

  unfoldable pub check_layers :
      List Name → List (Name × Layer V S) → Outcome Name (List (Name × Layer V S))
  check_layers [] available = ok []
  check_layers (n ∷ ns) available = with_layer n (lookup n available) (check_layers ns available)

  unfoldable pub apply_all : Nodes V S → List (Name × Layer V S) → Defaults V S → Defaults V S
  unfolding apply_layer
  apply_all nodes [] m = m
  apply_all nodes ((n, layer) ∷ layers) m = apply_all nodes layers (apply_layer nodes layer n m)

  -- `ApplyLayers`.
  unfoldable pub apply_layers :
      Nodes V S → List Name → List (Name × Layer V S) → Outcome Name (Defaults V S)
  unfolding check_layers seed_nodes apply_all
  apply_layers nodes names available = check_layers names available >>= λ layers.
      ok (apply_all nodes layers (seed_nodes nodes (λ key. none)))

  -- `UnknownInputs`.
  abbrev pub some_node_has : Nodes V S → Name → Bool
  some_node_has [] input = false
  some_node_has ((node, inputs) ∷ ns) input = has_input input inputs || some_node_has ns input

  abbrev pub is_known : Nodes V S → Text → Option (Text × Text) → Bool
  is_known nodes key none = some_node_has nodes key
  is_known nodes key (some (node, input)) = node_has nodes node input

  unfoldable pub unknown_keys : Nodes V S → List (Text × InputDefault V S) → List Text
  unfolding cut_dot
  unknown_keys nodes [] = []
  unknown_keys nodes ((key, d) ∷ ds) =
      let rest = unknown_keys nodes ds in
      if is_known nodes key (cut_dot key) then rest else key ∷ rest

  unfoldable pub unknown_inputs : Layer V S → Nodes V S → List Text
  unfolding unknown_keys sort_strings
  unknown_inputs layer nodes = sort_strings (unknown_keys nodes layer.inputs)

  -- `LayerTouchedKeys`, with the keys of the set in the order they are added.
  unfoldable pub touch_inputs : Text → Name → List (Input V S) → List Text → List Text
  touch_inputs key node [] touched = touched
  touch_inputs key node (i ∷ is) touched =
      touch_inputs key node is
        (if text_eq i.name key then add_name (key_of node i.name) touched else touched)

  unfoldable pub touch_nodes : Text → Nodes V S → List Text → List Text
  unfolding touch_inputs add_name
  touch_nodes key [] touched = touched
  touch_nodes key ((node, inputs) ∷ ns) touched =
      touch_nodes key ns (touch_inputs key node inputs touched)

  abbrev pub touch_key : Nodes V S → Text → Option (Text × Text) → List Text → List Text
  touch_key nodes key none touched = touch_nodes key nodes touched
  touch_key nodes key (some (node, input)) touched =
      if node_has nodes node input then add_name key touched else touched

  unfoldable pub touch_entries : Nodes V S → List (Text × InputDefault V S) → List Text → List Text
  unfolding touch_nodes cut_dot
  touch_entries nodes [] touched = touched
  touch_entries nodes ((key, d) ∷ ds) touched =
      touch_entries nodes ds (touch_key nodes key (cut_dot key) touched)

  abbrev pub touch_layer : Nodes V S → Option (Layer V S) → List Text → List Text
  touch_layer nodes none touched = touched
  touch_layer nodes (some layer) touched = touch_entries nodes layer.inputs touched

  unfoldable pub layer_touched_keys :
      Nodes V S → List Name → List (Name × Layer V S) → List Text → List Text
  unfolding touch_entries
  layer_touched_keys nodes [] available touched = touched
  layer_touched_keys nodes (n ∷ ns) available touched =
      layer_touched_keys nodes ns available (touch_layer nodes (lookup n available) touched)
