-- ===== src/Graph/Chain.antt =====
-- `BackwardChain` of graph/chain.go, in its three phases.
pub mod Select
pub mod Backward
pub mod Fuel
pub mod Kept
pub mod Correct
pub mod Total
pub mod Entries
use aat.Base.{
  ℕ, zero, suc, ◌+◌, List, [], ◌∷◌, ◌++◌, Bool, true, false, ◌&&◌, ◌||◌, not, if◌then◌else◌, ◌==◌,
  any, length, Option, none, some, Outcome, ok, err, ◌>>=◌,
}
use aat.Base.Text.{Text, text_eq}
use aat.Graph.Names.{Name, mem, add_name, remove_name, select, sort_strings}
use aat.Graph.Topo.{Edge, TopoError, chain_topo_sort, update}
use aat.Graph.Model.{Node, Condition, Graph, get_node, satisfiers}

-- `EvalPredicate`, which the caller injects, at its `ConditionContext`: an error or a truth value.
abbrev pub PredicateFunc : Type 0
PredicateFunc = Text → Outcome Text Bool

pub record ChainOptions : Type 0 where
  pub goals : List Name
  pub eval_predicate : Option PredicateFunc

pub record RequiresEdge : Type 0 where
  pub from : Name
  pub to : Name
  pub token : Name

pub data ChainDecision : Type 0 where
  cycle_break : Name → ChainDecision
  satisfier : (chosen token : Name) (alternatives : List Name) → ChainDecision

pub record ChainResult : Type 0 where
  pub nodes : List Name
  pub requires_edges : List RequiresEdge
  pub entry_nodes : List Name
  pub decisions : List ChainDecision
  pub included_conditions : List Condition
  pub excluded_conditions : List Condition

-- `ChainError`, by what its texts report.
pub data ChainError : Type 0 where
  no_goals : ChainError
  unknown_goals : List Name → ChainError
  bad_conditions : List Text → ChainError
  unsorted : TopoError → ChainError
  out_of_fuel : ChainError

-- The goals that the graph does not have.
unfoldable pub unknown : Graph → List Name → List Name
unknown g [] = []
unknown g (goal ∷ goals) =
    let rest = unknown g goals in elim (get_node g goal) [ none ↦ goal ∷ rest | some n ↦ rest ]

unfoldable pub check_goals : Graph → List Name → Outcome ChainError (List Name)
unfolding unknown
check_goals g [] = err no_goals
check_goals g (goal ∷ goals) = elim (unknown g (goal ∷ goals)) [
  | [] ↦ ok (goal ∷ goals)
  | bad ∷ more ↦ err (unknown_goals (bad ∷ more))
]

-- Phase 1.
pub record Conditions : Type 0 where
  pub errs : List Text
  pub included : List Condition
  pub excluded : List Condition
  pub required : List Name

unfoldable pub add_names : List Name → List Name → List Name
unfolding add_name
add_names [] xs = xs
add_names (a ∷ as') xs = add_names as' (add_name a xs)

abbrev pub decide_condition : Option PredicateFunc → Condition → Outcome Text Bool
decide_condition none cond = ok false
decide_condition (some eval) cond = eval cond.when

unfoldable pub eval_condition : Option PredicateFunc → Condition → Conditions → Conditions
unfolding add_names
eval_condition eval cond st = elim (decide_condition eval cond) [
  | err _ ↦ record st { errs = st.errs ++ cond.when ∷ [] }
  | ok true ↦ record st {
    included = st.included ++ cond ∷ [];
    required = add_names cond.require st.required;
  }
  | ok false ↦ record st { excluded = st.excluded ++ cond ∷ [] }
]

unfoldable pub eval_conditions : Option PredicateFunc → List Condition → Conditions → Conditions
unfolding eval_condition
eval_conditions eval [] st = st
eval_conditions eval (cond ∷ conds) st = eval_conditions eval conds (eval_condition eval cond st)

-- Phase 2. A `map[string]map[string]bool`: its keys, and the set at each.
pub record TokenMap : Type 0 where
  pub keys : List Name
  pub entry : Name → List Name

abbrev pub add_entries : Name → List Name → TokenMap → TokenMap
add_entries token names m = record {
  keys = add_name token m.keys;
  entry = update m.entry token (add_names names (m.entry token));
}

pub record Search : Type 0 where
  pub visited : List Name
  pub candidates : TokenMap
  pub requirers : TokenMap
  pub decisions : List ChainDecision

-- The loop over a node's tokens: the search, and what is left of and put behind the queue.
unfoldable pub visit_tokens : Graph → Name → List Name → List Name → Search → List Name × Search
unfolding add_names select add_name
visit_tokens g node [] queue st = (queue, st)
visit_tokens g node (token ∷ tokens) queue st =
    let found = satisfiers g token in
    visit_tokens g node tokens (queue ++ select (λ s. not (mem s st.visited)) found) (record st {
      candidates = add_entries token found st.candidates;
      requirers = add_entries token (node ∷ []) st.requirers;
    })

abbrev pub mark : Name → Search → Search
mark node st = record st { visited = add_name node st.visited }

-- The body of the loop, for a node that is not yet visited.
unfoldable pub visit : Graph → Name → List Name → Search → List Name × Search
unfolding visit_tokens
visit g node queue st = elim (get_node g node) [
  | none ↦ (queue, mark node st)
  | some n ↦
      if n.cycle_breaker
      then (
        queue,
        record st {
          visited = add_name node st.visited;
          decisions = st.decisions ++ cycle_break node ∷ [];
        },
      )
      else visit_tokens g node n.requires queue (mark node st)
]

unfoldable pub search_back : Graph → ℕ → List Name → Search → Outcome ChainError Search
unfolding visit
search_back g fuel [] st = ok st
search_back g zero (node ∷ queue) st = err out_of_fuel
search_back g (suc fuel) (node ∷ queue) st = elim (mem node st.visited) [
  | true ↦ search_back g fuel queue st
  | false ↦ let (queue', st') = visit g node queue st in search_back g fuel queue' st'
]

-- How many names the visit of a node may queue.
unfoldable pub pushes : Graph → List Name → ℕ
pushes g [] = 0
pushes g (token ∷ tokens) = length (satisfiers g token) + pushes g tokens

unfoldable pub all_pushes : Graph → List (Name × Node) → ℕ
unfolding pushes
all_pushes g [] = 0
all_pushes g ((_, n) ∷ ns) = pushes g n.requires + all_pushes g ns
