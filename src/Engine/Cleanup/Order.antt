-- ===== src/Engine/Cleanup/Order.antt =====
-- The end of a cleanup run, the IDs of its steps, and their order (engine/cleanup.go).
use aat.Base.{
  ℕ, zero, suc, ◌+◌, ◌≤◌, ◌<◌, List, [], ◌∷◌, ◌++◌, reverse, Bool, true, false, ◌≡◌, refl, Option,
  none, some, is_some, length, Bool-cases, inl, inr, arith, sym, ◌∙◌,
}
use mathlib.Core.List.{reverse_aux}
use aat.Base.Text.{text_eq, text_eq→eq}
use aat.Graph.Names.{Name, mem, add_name, occ, one_if, IsSetOf, mem-occ, not_mem-occ, occ-append}
use aat.Graph.Names.Sizes.{length-le_of_occ}
use aat.Engine.Routing.{lookup}
use aat.Engine.Steps.{Node, Result, cleanup_succeeded}
use aat.Engine.Cleanup.{CleanupEntry, CleanupRun, SkipReason, push, next_id}
use aat.Engine.Cleanup.Ids.{next_id-fresh}
use aat.Engine.Cleanup.Chain.{
  CleanupEnv, node_of, next_node, in_chain, with_first, with_all, and_then, child, inputs_for,
  execute_cleanup_entry, recorded_result, following, skip_reason, go_on, unless_skipped,
  run_cleanup_chain, run_entries, run_cleanup_stack,
}

abbrev pub step_ids : {V : Type 0} → List (Result V) → List Name
step_ids [] = []
step_ids (r ∷ rs) = r.rest.step_id ∷ step_ids rs

abbrev nodes_of : {V : Type 0} → List (Result V) → List Name
nodes_of [] = []
nodes_of (r ∷ rs) = r.rest.node ∷ nodes_of rs

abbrev keys : {B : Type 0} → List (Name × B) → List Name
keys [] = []
keys ((k, b) ∷ m) = k ∷ keys m

-- There is a result, and it has a property.
abbrev pub Ends : {A : Type 0} → (A → Type 0) → Option A → Type 0
Ends P none = true ≡ false
Ends P (some a) = P a

-- The IDs in use after the run are those of before and its steps', each once.
abbrev pub Added : {V : Type 0} → CleanupRun → List (Result V) × CleanupRun → Type 0
Added st (rs, st') =
    IsSetOf st'.ids × ((v : Name) → occ v st'.ids ≡ occ v (step_ids rs) + occ v st.ids)

next_id-occ :
    (node : Name) (st : CleanupRun)
    → IsSetOf st.ids
    → (v : Name)
    → occ v (next_id node st).1.ids ≡ one_if (text_eq (next_id node st).0 v) + occ v st.ids
unfolding next_id add_name
next_id-occ node st h v =
    ground (arith, (next_id-fresh node st h).0, occ-append v st.ids ((next_id node st).0 ∷ []))

length-keys : {B : Type 0} → (m : List (Name × B)) → length (keys m) ≡ length m
length-keys [] = refl
length-keys (p ∷ m) = omega (arith, length-keys m)

length-nodes_of : {V : Type 0} → (rs : List (Result V)) → length (nodes_of rs) ≡ length rs
length-nodes_of [] = refl
length-nodes_of (r ∷ rs) = omega (arith, length-nodes_of rs)

lookup-keys :
    {B : Type 0}
    → (k : Name) (m : List (Name × B)) → is_some (lookup k m) ≡ true
    → mem k (keys m) ≡ true
lookup-keys k [] h = h
lookup-keys k ((k', b) ∷ m) h = ground (arith, lookup-keys k m)

in_chain-nodes_of :
    {V : Type 0} → (k : Name) (rs : List (Result V)) → in_chain k rs ≡ mem k (nodes_of rs)
in_chain-nodes_of k [] = refl
in_chain-nodes_of k (r ∷ rs) = ground (arith, in_chain-nodes_of k rs)

-- The nodes of a chain so far: each once, and all of the graph.
abbrev Chained : {V : Type 0} → CleanupEnv V → List Name → Type 0
Chained env names =
    IsSetOf names × ((v : Name) → mem v names ≡ true → mem v (keys env.nodes) ≡ true)

Chained-short :
    {V : Type 0}
    → (env : CleanupEnv V) (names : List Name) → Chained env names
    → length names ≤ length env.nodes
Chained-short env names (once, known) = omega (
  arith,
  length-keys env.nodes,
  length-le_of_occ names (keys env.nodes)
      (λ v. ground (arith, once v, known v, not_mem-occ v names, mem-occ v (keys env.nodes))),
)

next_node-known :
    (allow : Name → Bool) (node : Option Node) (succeeded : Bool) (next : Name)
    → next_node allow node succeeded ≡ some next
    → is_some node ≡ true
next_node-known allow none succeeded next h = absurd (cc)
next_node-known allow (some node) succeeded next h = refl

module _ {V : Type 0} (env : CleanupEnv V) where
  Chained-next :
      (name : Name) (names : List Name)
      → mem name names ≡ false
      → is_some (node_of env name) ≡ true
      → Chained env names
      → Chained env (name ∷ names)
  Chained-next name names new known (once, all) = (
    λ v. ground (arith, once v, not_mem-occ name names new, text_eq→eq name v),
    λ v h. ground (arith, all v, lookup-keys name env.nodes known, text_eq→eq name v),
  )

  with_first-Ends :
      (st st' : CleanupRun) (r : Result V) (o : Option (List (Result V) × CleanupRun))
      → ((v : Name) → occ v st'.ids ≡ one_if (text_eq r.rest.step_id v) + occ v st.ids)
      → Ends (Added st') o
      → Ends (Added st) (with_first r o)
  with_first-Ends st st' r none e h = h
  with_first-Ends st st' r (some (rs, st'')) e (once, all) = (once, λ v. omega (arith, e v, all v))

  with_all-Ends :
      (st st' : CleanupRun) (rs : List (Result V)) (o : Option (List (Result V) × CleanupRun))
      → ((v : Name) → occ v st'.ids ≡ occ v (step_ids rs) + occ v st.ids)
      → Ends (Added st') o
      → Ends (Added st) (with_all rs o)
  with_all-Ends st st' rs none e h = h
  with_all-Ends st st' rs (some (ss, st'')) e (once, all) =
      (once, λ v. omega (arith, e v, all v, step_ids-append v rs ss))
    where
      step_ids-append :
          (v : Name) (xs ys : List (Result V))
          → occ v (step_ids (xs ++ ys)) ≡ occ v (step_ids xs) + occ v (step_ids ys)
      step_ids-append v [] ys = omega arith
      step_ids-append v (x ∷ xs) ys = omega (arith, step_ids-append v xs ys)

  go_on-Ends :
      (o : Option Name) (r : Result V) (ancestors : List (Result V)) (st st' : CleanupRun)
      (k : Name → Option (List (Result V) × CleanupRun))
      → IsSetOf st'.ids
      → ((v : Name) → occ v st'.ids ≡ one_if (text_eq r.rest.step_id v) + occ v st.ids)
      → ((next : Name)
          → o ≡ some next
          → in_chain next (r ∷ ancestors) ≡ false
          → Ends (Added st') (k next))
      → Ends (Added st) (go_on o r ancestors st' k)
  go_on-Ends none r ancestors st st' k once e h = (once, λ v. omega (arith, e v))
  go_on-Ends (some next) r ancestors st st' k once e h =
      elim (Bool-cases (in_chain next (r ∷ ancestors))) [
        | inl cycle ↦
            rw (cycle, Ends)
              (
                (next_id-fresh next st' once).2,
                λ v. omega (arith, e v, next_id-occ next st' once v),
              )
        | inr new ↦ rw (new, Ends) (with_first-Ends st st' r (k next) e (h next refl new))
      ]

  unless_skipped-Ends :
      (o : Option SkipReason) (entry : CleanupEntry) (cleanup_for : Name) (st : CleanupRun)
      (k : CleanupRun → Option (List (Result V) × CleanupRun))
      → IsSetOf st.ids
      → Ends (Added st) (k st)
      → Ends (Added st) (unless_skipped o entry cleanup_for st k)
  unless_skipped-Ends none entry cleanup_for st k once h = h
  unless_skipped-Ends (some reason) entry cleanup_for st k once h = (once, λ v. omega arith)

  run_cleanup_chain-Ends :
      (fuel : ℕ) (entry : CleanupEntry) (cleanup_for : Name) (ancestors : List (Result V))
      (st : CleanupRun)
      → Chained env (nodes_of ancestors)
      → mem entry.node_name (nodes_of ancestors) ≡ false
      → length env.nodes < fuel + length ancestors
      → IsSetOf st.ids
      → Ends (Added st) (run_cleanup_chain env fuel entry cleanup_for ancestors st)
  unfolding run_cleanup_chain
  run_cleanup_chain-Ends zero entry cleanup_for ancestors st chained new enough once =
      absurd
        (omega (arith, Chained-short env (nodes_of ancestors) chained, length-nodes_of ancestors))
  run_cleanup_chain-Ends (suc fuel) entry cleanup_for ancestors st chained new enough once =
      unless_skipped-Ends (skip_reason env entry ancestors) entry cleanup_for st
        (λ st.
          go_on (following env entry ancestors) (recorded_result env entry cleanup_for ancestors st)
            ancestors (next_id entry.node_name st).1
            (λ next.
              run_cleanup_chain env fuel (child entry next) (next_id entry.node_name st).0
                (recorded_result env entry cleanup_for ancestors st ∷ ancestors)
                (next_id entry.node_name st).1))
        once
        (go_on-Ends (following env entry ancestors) result ancestors st
          (next_id entry.node_name st).1
          (λ next.
            run_cleanup_chain env fuel (child entry next) (next_id entry.node_name st).0
              (result ∷ ancestors) (next_id entry.node_name st).1)
          (next_id-fresh entry.node_name st once).2 (next_id-occ entry.node_name st once)
          (λ next known other.
            run_cleanup_chain-Ends fuel (child entry next) (next_id entry.node_name st).0
              (result ∷ ancestors) (next_id entry.node_name st).1
              (Chained-next entry.node_name (nodes_of ancestors) new
                (next_node-known env.allow (node_of env entry.node_name)
                  (cleanup_succeeded (
                    execute_cleanup_entry env entry
                      (inputs_for env (node_of env entry.node_name) entry ancestors)))
                  next known)
                chained)
              (out_of_chain next result other) (omega (arith, enough))
              (next_id-fresh entry.node_name st once).2))
    where
      result : Result V
      result = recorded_result env entry cleanup_for ancestors st

      out_of_chain :
          (next : Name) (r : Result V)
          → in_chain next (r ∷ ancestors) ≡ false
          → mem next (r.rest.node ∷ nodes_of ancestors) ≡ false
      out_of_chain next r h = sym (in_chain-nodes_of next (r ∷ ancestors)) ∙ h

  pub and_then-Ends :
      (st : CleanupRun) (o : Option (List (Result V) × CleanupRun))
      (k : CleanupRun → Option (List (Result V) × CleanupRun))
      → ((st' : CleanupRun) → IsSetOf st'.ids → Ends (Added st') (k st'))
      → Ends (Added st) o
      → Ends (Added st) (and_then o k)
  and_then-Ends st none k next h = h
  and_then-Ends st (some (rs, st')) k next (once, all) =
      with_all-Ends st st' rs (k st') all (next st' once)

  pub run_entries-Ends :
      (fuel : ℕ) (es : List CleanupEntry) (st : CleanupRun)
      → length env.nodes < fuel
      → IsSetOf st.ids
      → Ends (Added st) (run_entries env fuel es st)
  unfolding run_entries
  run_entries-Ends fuel [] st enough once = (once, λ v. omega arith)
  run_entries-Ends fuel (e ∷ es) st enough once =
      and_then-Ends st _ _ (λ st' once'. run_entries-Ends fuel es st' enough once')
        (run_cleanup_chain-Ends fuel e e.for_step [] st ((λ v. omega arith), λ v h. absurd (cc))
          refl (omega arith) once)

-- A cleanup run comes to its end, whatever its requests give and however the graph pairs nodes,
-- when the IDs in use are distinct before; the IDs in use after it are then those of before and
-- those of its step results, and all of them are distinct.
pub run_cleanup_stack-Added :
    {V : Type 0} (env : CleanupEnv V) (stack : List CleanupEntry) (st : CleanupRun)
    → IsSetOf st.ids
    → Ends (Added st) (run_cleanup_stack env stack st)
unfolding run_cleanup_stack
run_cleanup_stack-Added env stack st once =
    run_entries-Ends env (suc (length env.nodes)) (reverse stack) st (omega arith) once

-- The entry pushed last is cleaned up first, with its chain; the others follow as if it had never
-- been pushed, in the state it left, whatever its requests gave.
pub run_cleanup_stack-push :
    {V : Type 0} (env : CleanupEnv V) (entry : CleanupEntry) (stack : List CleanupEntry)
    (st : CleanupRun)
    → run_cleanup_stack env (push entry stack) st
      ≡ and_then
          (run_cleanup_chain env (suc (length env.nodes)) entry entry.for_step [] st)
          (run_cleanup_stack env stack)
unfolding run_cleanup_stack run_entries
run_cleanup_stack-push env entry stack st = rw (reverse_aux-snoc stack [])
  where
    reverse_aux-snoc :
        (es acc : List CleanupEntry)
        → reverse_aux (es ++ entry ∷ []) acc ≡ entry ∷ reverse_aux es acc
    reverse_aux-snoc [] acc = refl
    reverse_aux-snoc (e ∷ es) acc = reverse_aux-snoc es (e ∷ acc)
