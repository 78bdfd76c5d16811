-- ===== src/Graph/Chain/Fuel.antt =====
-- The two searches of `BackwardChain` end within their fuel.
use aat.Base.{
  ℕ, zero, suc, ◌+◌, ◌≤◌, List, [], ◌∷◌, ◌++◌, false, not, ◌≡◌, refl, if◌then◌else◌, inl, inr,
  Bool-cases, Option-cases, some, arith, length, length-append, ok,
}
use aat.Base.Text.{text_eq→eq, text_eq_refl}
use aat.Graph.Names.{Name, mem, add_name, select}
use aat.Graph.Names.Sets.{mem-add, length-select}
use aat.Graph.Model.{Node, Graph, find_node, get_node, satisfiers}
use aat.Graph.Chain.{
  RequiresEdge, Search, visit_tokens, visit, mark, search_back, pushes, all_pushes,
}
use aat.Graph.Chain.Select.{upstream, reach_loop, compute_reachable}
use aat.Graph.Chain.Backward.{search_all, no_search}

-- What the visits of the nodes that are not yet visited may still queue.
open_pushes : Graph → List Name → List (Name × Node) → ℕ
open_pushes g visited [] = 0
open_pushes g visited ((k, n) ∷ ns) =
    (if mem k visited then 0 else pushes g n.requires) + open_pushes g visited ns

open_pushes-add :
    (g : Graph) (visited : List Name) (node : Name) (ns : List (Name × Node))
    → open_pushes g (add_name node visited) ns ≤ open_pushes g visited ns
unfolding open_pushes
open_pushes-add g visited node [] = omega arith
open_pushes-add g visited node ((k, n) ∷ ns) =
    ground (arith, mem-add k node visited, open_pushes-add g visited node ns)

open_pushes-visit :
    (g : Graph) (visited : List Name) (node : Name) (n : Node) (ns : List (Name × Node))
    → mem node visited ≡ false
    → find_node node ns ≡ some n
    → open_pushes g (add_name node visited) ns + pushes g n.requires ≤ open_pushes g visited ns
unfolding open_pushes find_node
open_pushes-visit g visited node n [] new found = absurd (cc)
open_pushes-visit g visited node n ((k, m) ∷ ns) new found = ground (
  arith,
  mem-add k node visited,
  text_eq→eq k node,
  open_pushes-add g visited node ns,
  open_pushes-visit g visited node n ns,
  text_eq_refl node,
)

visit_tokens-length :
    (g : Graph) (node : Name) (tokens queue : List Name) (st : Search)
    → length (visit_tokens g node tokens queue st).0 ≤ length queue + pushes g tokens
unfolding visit_tokens pushes
visit_tokens-length g node [] queue st = omega arith
visit_tokens-length g node (token ∷ tokens) queue st =
    let found = satisfiers g token in
    let new = select (λ s. not (mem s st.visited)) found in
    omega (
      arith,
      visit_tokens-length g node tokens (queue ++ new) _,
      length-append queue new,
      length-select (λ s. not (mem s st.visited)) found,
    )

visit_tokens-visited :
    (g : Graph) (node : Name) (tokens queue : List Name) (st : Search)
    → (visit_tokens g node tokens queue st).1.visited ≡ st.visited
unfolding visit_tokens
visit_tokens-visited g node [] queue st = refl
visit_tokens-visited g node (token ∷ tokens) queue st =
    visit_tokens-visited g node tokens
      (queue ++ select (λ s. not (mem s st.visited)) (satisfiers g token)) _

pub visit-visited :
    (g : Graph) (node : Name) (queue : List Name) (st : Search)
    → (visit g node queue st).1.visited ≡ add_name node st.visited
unfolding visit
visit-visited g node queue st = elim (Option-cases (get_node g node)) [
  | inl missing ↦ rw (missing, visit)
  | inr (n, found) ↦
      rw (found, visit)
        (elim (Bool-cases n.cycle_breaker) [
          | inl stops ↦ rw stops
          | inr goes_on ↦ rw goes_on (visit_tokens-visited g node n.requires queue (mark node st))
        ])
]

visit-length :
    (g : Graph) (node : Name) (queue : List Name) (st : Search)
    → mem node st.visited ≡ false
    → length (visit g node queue st).0 + open_pushes g (add_name node st.visited) g.nodes
      ≤ length queue + open_pushes g st.visited g.nodes
unfolding visit
visit-length g node queue st new = elim (Option-cases (get_node g node)) [
  | inl missing ↦ rw (missing, visit) (omega (arith, open_pushes-add g st.visited node g.nodes))
  | inr (n, found) ↦
      rw (found, visit)
        (elim (Bool-cases n.cycle_breaker) [
          | inl stops ↦ rw stops (omega (arith, open_pushes-add g st.visited node g.nodes))
          | inr goes_on ↦ rw goes_on (
              omega (
                arith,
                visit_tokens-length g node n.requires queue (mark node st),
                open_pushes-visit g st.visited node n g.nodes new found,
              ))
        ])
]

search_back-ends :
    (g : Graph) (fuel : ℕ) (queue : List Name) (st : Search)
    → length queue + open_pushes g st.visited g.nodes ≤ fuel
    → (st' : Search) × (search_back g fuel queue st ≡ ok st')
unfolding search_back
search_back-ends g fuel [] st h = (st, refl)
search_back-ends g zero (node ∷ queue) st h = absurd (omega arith)
search_back-ends g (suc fuel) (node ∷ queue) st h = elim (Bool-cases (mem node st.visited)) [
  | inl old ↦ rw (old, search_back) (search_back-ends g fuel queue st (omega arith))
  | inr new ↦
      rw (new, search_back)
        (search_back-ends g fuel (visit g node queue st).0 (visit g node queue st).1 (bound new))
]
  where
    bound :
        mem node st.visited ≡ false
        → length (visit g node queue st).0 + open_pushes g (visit g node queue st).1.visited g.nodes
          ≤ fuel
    bound new = rw (visit-visited g node queue st) (omega (arith, visit-length g node queue st new))

open_pushes-nil : (g : Graph) (ns : List (Name × Node)) → open_pushes g [] ns ≡ all_pushes g ns
unfolding open_pushes all_pushes
open_pushes-nil g [] = refl
open_pushes-nil g ((k, n) ∷ ns) = omega (arith, open_pushes-nil g ns)

-- Phase 2 ends for every graph, cyclic ones too.
pub search_all-ends : (g : Graph) (queue : List Name) → (st : Search) × (search_all g queue ≡ ok st)
unfolding search_all
search_all-ends g queue =
    search_back-ends g (length queue + all_pushes g g.nodes) queue no_search
      (omega (arith, open_pushes-nil g g.nodes))

-- The edges that end in a node that is not yet reached.
open_edges : List Name → List RequiresEdge → ℕ
open_edges reached [] = 0
open_edges reached (e ∷ es) = (if mem e.to reached then 0 else 1) + open_edges reached es

length-add_name : (a : Name) (xs : List Name) → length (add_name a xs) ≤ suc (length xs)
unfolding add_name
length-add_name a xs = ground (arith, length-append xs (a ∷ []))

open_edges-add :
    (reached : List Name) (node : Name) (es : List RequiresEdge)
    → mem node reached ≡ false
    → open_edges (add_name node reached) es + length (upstream es node) ≤ open_edges reached es
unfolding open_edges upstream
open_edges-add reached node [] new = omega arith
open_edges-add reached node (e ∷ es) new = ground (
  arith,
  open_edges-add reached node es new,
  mem-add e.to node reached,
  text_eq→eq e.to node,
  length-add_name e.from (upstream es node),
  text_eq_refl node,
)

reach_loop-ends :
    (es : List RequiresEdge) (fuel : ℕ) (queue reached : List Name)
    → length queue + open_edges reached es ≤ fuel
    → (r : List Name) × (reach_loop es fuel queue reached ≡ ok r)
unfolding reach_loop
reach_loop-ends es fuel [] reached h = (reached, refl)
reach_loop-ends es zero (node ∷ queue) reached h = absurd (omega arith)
reach_loop-ends es (suc fuel) (node ∷ queue) reached h = elim (Bool-cases (mem node reached)) [
  | inl old ↦ rw (old, reach_loop) (reach_loop-ends es fuel queue reached (omega arith))
  | inr new ↦
      let fresh = select (λ u. not (mem u (add_name node reached))) (upstream es node) in
      rw (new, reach_loop)
        (reach_loop-ends es fuel (queue ++ fresh) (add_name node reached) (
          omega (
            arith,
            length-append queue fresh,
            open_edges-add reached node es new,
            length-select (λ u. not (mem u (add_name node reached))) (upstream es node),
          )))
]

open_edges-nil : (es : List RequiresEdge) → open_edges [] es ≡ length es
unfolding open_edges
open_edges-nil [] = refl
open_edges-nil (e ∷ es) = omega (arith, open_edges-nil es)

-- So does the search along the chosen edges.
pub compute_reachable-ends :
    (goals required : List Name) (es : List RequiresEdge)
    → (r : List Name) × (compute_reachable goals required es ≡ ok r)
unfolding compute_reachable
compute_reachable-ends goals required es =
    reach_loop-ends es (length goals + length required + length es) (goals ++ required) []
      (omega (arith, length-append goals required, open_edges-nil es))
