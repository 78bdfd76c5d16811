-- ===== src/Engine/State.antt =====
-- `RunState` of engine/run_state.go: the outputs and inputs of the steps that ran, by step ID. A map
-- is a list of pairs where the first pair of a key is its value.
use aat.Base.{
  List, [], ◌∷◌, ◌++◌, map, if◌then◌else◌, Option, none, some, is_some, ◌≡◌, refl, sym, ap, ◌∙◌,
  arith,
}
use aat.Base.Text.{Text, text_eq, text_eq→eq, text_eq_refl}
use aat.Graph.Names.{Name, mem, add_name, IsSetOf, occ-append, not_mem-occ}
use aat.Graph.Names.Sets.{mem-append}
use aat.Graph.Chain.{add_names}
use aat.Engine.Routing.{lookup}

abbrev pub Values : Type 0 → Type 0
Values V = List (Text × V)

pub record RunState (V : Type 0) : Type 0 where
  pub outputs : List (Name × Values V)
  pub inputs : List (Name × Values V)
  pub order : List Name

module _ {V : Type 0} where
  abbrev pub new_run_state : RunState V
  new_run_state = record { outputs = []; inputs = []; order = [] }

  unfoldable pub store_outputs : Name → Values V → RunState V → RunState V
  store_outputs id out s = record s {
    outputs = (id, out) ∷ s.outputs;
    order = if is_some (lookup id s.outputs) then s.order else s.order ++ id ∷ [];
  }

  abbrev pub in_values : Text → Option (Values V) → Option V
  in_values name none = none
  in_values name (some out) = lookup name out

  -- `GetOutput`; `none` is its error, and that of `OutputValue`.
  unfoldable pub get_output : RunState V → Name → Text → Option V
  get_output s id name = in_values name (lookup id s.outputs)

  abbrev pub get_all_outputs : RunState V → Name → Option (Values V)
  get_all_outputs s id = lookup id s.outputs

  abbrev pub store_inputs : Name → Values V → RunState V → RunState V
  store_inputs id ins s = record s { inputs = (id, ins) ∷ s.inputs }

  unfoldable pub get_input : RunState V → Name → Text → Option V
  get_input s id name = in_values name (lookup id s.inputs)

  abbrev pub executed_steps : RunState V → List Name
  executed_steps s = s.order

  abbrev pub all_inputs : RunState V → Name → Option (Values V)
  all_inputs s id = lookup id s.inputs

  -- The stores of a run, in the order they were made.
  unfoldable pub store_all : List (Name × Values V) → RunState V → RunState V
  store_all [] s = s
  store_all ((id, out) ∷ es) s = store_all es (store_outputs id out s)

  -- `order` holds each step with outputs once.
  pub record IsOrdered (s : RunState V) : Type 0 where
    pub once : IsSetOf s.order
    pub stored : (id : Name) → mem id s.order ≡ is_some (lookup id s.outputs)

  pub new_run_state-IsOrdered : IsOrdered new_run_state
  new_run_state-IsOrdered = record { once = λ v. omega arith; stored = λ id. refl }

  pub store_outputs-IsOrdered :
      (id : Name) (out : Values V) (s : RunState V)
      → IsOrdered s
      → IsOrdered (store_outputs id out s)
  unfolding store_outputs
  store_outputs-IsOrdered id out s h = record {
    once = λ v. ground (
      arith,
      h.once v,
      h.stored id,
      occ-append v s.order (id ∷ []),
      not_mem-occ id s.order,
      text_eq→eq id v,
    );
    stored = λ v.
        ground
          (arith, h.stored v, mem-append v s.order (id ∷ []), text_eq→eq id v, text_eq_refl id);
  }

  pub store_all-IsOrdered :
      (es : List (Name × Values V)) (s : RunState V) → IsOrdered s → IsOrdered (store_all es s)
  unfolding store_all
  store_all-IsOrdered [] s h = h
  store_all-IsOrdered ((id, out) ∷ es) s h =
      store_all-IsOrdered es (store_outputs id out s) (store_outputs-IsOrdered id out s h)

  -- What the last store of a step gave, or else `d`.
  abbrev pub last_stored : Name → List (Name × Values V) → Option (Values V) → Option (Values V)
  last_stored id [] d = d
  last_stored id ((k, out) ∷ es) d = last_stored id es (if text_eq k id then some out else d)

  lookup-store_all :
      (es : List (Name × Values V)) (s : RunState V) (id : Name)
      → lookup id (store_all es s).outputs ≡ last_stored id es (lookup id s.outputs)
  unfolding store_all store_outputs
  lookup-store_all [] s id = refl
  lookup-store_all ((k, out) ∷ es) s id = lookup-store_all es (store_outputs k out s) id

  order-store_outputs :
      (id : Name) (out : Values V) (s : RunState V)
      → IsOrdered s
      → (store_outputs id out s).order ≡ add_name id s.order
  unfolding store_outputs add_name
  order-store_outputs id out s h =
      ap (λ b. if b then s.order else s.order ++ id ∷ []) (sym (h.stored id))

  order-store_all :
      (es : List (Name × Values V)) (s : RunState V)
      → IsOrdered s
      → (store_all es s).order ≡ add_names (map (λ e. e.0) es) s.order
  unfolding store_all add_names
  order-store_all [] s h = refl
  order-store_all ((id, out) ∷ es) s h =
      order-store_all es (store_outputs id out s) (store_outputs-IsOrdered id out s h)
      ∙ ap (add_names (map (λ e. e.0) es)) (order-store_outputs id out s h)

  -- After any stores, `ExecutedSteps` lists the steps in the order of their first store, each once,
  -- and an output of a step is read from its last store.
  pub store_all-history :
      (es : List (Name × Values V)) (id : Name) (name : Text)
      → (executed_steps (store_all es new_run_state) ≡ add_names (map (λ e. e.0) es) [])
        × IsSetOf (executed_steps (store_all es new_run_state))
        × (get_output (store_all es new_run_state) id name
            ≡ in_values name (last_stored id es none))
  unfolding get_output
  store_all-history es id name = (
    order-store_all es new_run_state new_run_state-IsOrdered,
    (store_all-IsOrdered es new_run_state new_run_state-IsOrdered).once,
    ap (in_values name) (lookup-store_all es new_run_state id),
  )
