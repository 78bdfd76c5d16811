-- ===== src/Graph/Chain/Kept.antt =====
-- What the phases of `BackwardChain` keep: sets stay sets, and the goals stay in them.
use aat.Base.{
  ℕ, zero, suc, List, [], ◌∷◌, ◌++◌, true, ◌||◌, not, ◌≡◌, if◌then◌else◌, inl, inr, Bool-cases,
  Option-cases, arith, ok,
}
use aat.Base.Text.{text_eq, text_eq→eq}
use aat.Graph.Names.{Name, mem, IsSetOf, add_name, remove_name, select, sort_strings}
use aat.Graph.Names.Sets.{mem-append, mem-add, mem-remove, remove-IsSetOf, add-IsSetOf}
use aat.Graph.Model.{Graph, get_node, satisfiers}
use aat.Graph.Chain.{RequiresEdge, Search, TokenMap, visit_tokens, visit, mark, search_back}
use aat.Graph.Chain.Select.{
  Selection, upstream, reach_loop, compute_reachable, needed_elsewhere, prune_unchosen, choose,
  choose_all,
}
use aat.Graph.Chain.Backward.{search_all, select_all, no_search}
use aat.Graph.Chain.Fuel.{visit-visited}

visit_tokens-queue :
    (g : Graph) (node : Name) (tokens queue : List Name) (st : Search) (v : Name)
    → mem v queue ≡ true
    → mem v (visit_tokens g node tokens queue st).0 ≡ true
unfolding visit_tokens
visit_tokens-queue g node [] queue st v h = h
visit_tokens-queue g node (token ∷ tokens) queue st v h =
    let new = select (λ s. not (mem s st.visited)) (satisfiers g token) in
    visit_tokens-queue g node tokens (queue ++ new) _ v (ground (arith, mem-append v queue new))

visit-queue :
    (g : Graph) (node : Name) (queue : List Name) (st : Search) (v : Name)
    → mem v queue ≡ true
    → mem v (visit g node queue st).0 ≡ true
unfolding visit
visit-queue g node queue st v h = elim (Option-cases (get_node g node)) [
  | inl missing ↦ rw (missing, visit) h
  | inr (n, found) ↦
      rw (found, visit)
        (elim (Bool-cases n.cycle_breaker) [
          | inl stops ↦ rw stops h
          | inr goes_on ↦ rw goes_on (visit_tokens-queue g node n.requires queue (mark node st) v h)
        ])
]

-- Phase 2 visits every name that is queued, and no name twice.
search_back-visits :
    (g : Graph) (fuel : ℕ) (queue : List Name) (st st' : Search) (v : Name)
    → search_back g fuel queue st ≡ ok st'
    → (mem v queue || mem v st.visited) ≡ true
    → mem v st'.visited ≡ true
unfolding search_back
search_back-visits g fuel [] st st' v e h = ground arith
search_back-visits g zero (node ∷ queue) st st' v e h = absurd (cc)
search_back-visits g (suc fuel) (node ∷ queue) st st' v e h =
    elim (Bool-cases (mem node st.visited)) [
      | inl old ↦
          search_back-visits g fuel queue st st' v (rw (old, search_back) at e)
            (ground (arith, text_eq→eq node v))
      | inr new ↦
          search_back-visits g fuel (visit g node queue st).0 (visit g node queue st).1 st' v
            (rw (new, search_back) at e)
            (rw (visit-visited g node queue st)
              (ground (arith, mem-add v node st.visited, visit-queue g node queue st v)))
    ]

search_back-IsSetOf :
    (g : Graph) (fuel : ℕ) (queue : List Name) (st st' : Search)
    → search_back g fuel queue st ≡ ok st'
    → IsSetOf st.visited
    → IsSetOf st'.visited
unfolding search_back
search_back-IsSetOf g fuel [] st st' e h = λ v. ground (arith, h v)
search_back-IsSetOf g zero (node ∷ queue) st st' e h = absurd (cc)
search_back-IsSetOf g (suc fuel) (node ∷ queue) st st' e h =
    elim (Bool-cases (mem node st.visited)) [
      | inl old ↦ search_back-IsSetOf g fuel queue st st' (rw (old, search_back) at e) h
      | inr new ↦
          search_back-IsSetOf g fuel (visit g node queue st).0 (visit g node queue st).1 st'
            (rw (new, search_back) at e)
            (rw (visit-visited g node queue st) (add-IsSetOf node st.visited h))
    ]

module _ (g : Graph) (goals required : List Name) (candidates requirers : TokenMap) where
  prune-keeps :
      (token chosen : Name) (cs included : List Name) (v : Name)
      → (mem v goals || mem v required) ≡ true
      → mem v included ≡ true
      → mem v (prune_unchosen g goals required candidates requirers token chosen cs included) ≡ true
  unfolding prune_unchosen needed_elsewhere
  prune-keeps token chosen [] included v k h = h
  prune-keeps token chosen (c ∷ cs) included v k h =
      let kept = needed_elsewhere g goals required candidates requirers token c in
      prune-keeps token chosen cs
        (if text_eq c chosen || kept then included else remove_name c included) v k
        (ground (arith, mem-remove v c included, text_eq→eq c v))

  prune-IsSetOf :
      (token chosen : Name) (cs included : List Name)
      → IsSetOf included
      → IsSetOf (prune_unchosen g goals required candidates requirers token chosen cs included)
  unfolding prune_unchosen
  prune-IsSetOf token chosen [] included h = h
  prune-IsSetOf token chosen (c ∷ cs) included h =
      let kept = needed_elsewhere g goals required candidates requirers token c in
      prune-IsSetOf token chosen cs
        (if text_eq c chosen || kept then included else remove_name c included)
        (λ v. ground (arith, remove-IsSetOf c included h v, h v))

  choose-keeps :
      (token : Name) (cs : List Name) (st : Selection) (v : Name)
      → (mem v goals || mem v required) ≡ true
      → mem v st.included ≡ true
      → mem v (choose g goals required candidates requirers token cs st).included ≡ true
  unfolding choose
  choose-keeps token [] st v k h = h
  choose-keeps token (c ∷ cs) st v k h = prune-keeps token _ (c ∷ cs) st.included v k h

  choose-IsSetOf :
      (token : Name) (cs : List Name) (st : Selection)
      → IsSetOf st.included
      → IsSetOf (choose g goals required candidates requirers token cs st).included
  unfolding choose
  choose-IsSetOf token [] st h = h
  choose-IsSetOf token (c ∷ cs) st h = prune-IsSetOf token _ (c ∷ cs) st.included h

  choose_all-keeps :
      (tokens : List Name) (st : Selection) (v : Name)
      → (mem v goals || mem v required) ≡ true
      → mem v st.included ≡ true
      → mem v (choose_all g goals required candidates requirers tokens st).included ≡ true
  unfolding choose_all
  choose_all-keeps [] st v k h = h
  choose_all-keeps (token ∷ tokens) st v k h = choose_all-keeps tokens _ v k (
      choose-keeps token (sort_strings (select (λ c. mem c st.included) (candidates.entry token)))
        st v k h)

  choose_all-IsSetOf :
      (tokens : List Name) (st : Selection)
      → IsSetOf st.included
      → IsSetOf (choose_all g goals required candidates requirers tokens st).included
  unfolding choose_all
  choose_all-IsSetOf [] st h = h
  choose_all-IsSetOf (token ∷ tokens) st h = choose_all-IsSetOf tokens _ (
      choose-IsSetOf token (sort_strings (select (λ c. mem c st.included) (candidates.entry token)))
        st h)

reach_loop-reaches :
    (es : List RequiresEdge) (fuel : ℕ) (queue reached r : List Name) (v : Name)
    → reach_loop es fuel queue reached ≡ ok r
    → (mem v queue || mem v reached) ≡ true
    → mem v r ≡ true
unfolding reach_loop
reach_loop-reaches es fuel [] reached r v e h = ground arith
reach_loop-reaches es zero (node ∷ queue) reached r v e h = absurd (cc)
reach_loop-reaches es (suc fuel) (node ∷ queue) reached r v e h =
    elim (Bool-cases (mem node reached)) [
      | inl old ↦
          reach_loop-reaches es fuel queue reached r v (rw (old, reach_loop) at e)
            (ground (arith, text_eq→eq node v))
      | inr new ↦
          let fresh = select (λ u. not (mem u (add_name node reached))) (upstream es node) in
          reach_loop-reaches es fuel (queue ++ fresh) (add_name node reached) r v
            (rw (new, reach_loop) at e)
            (ground (arith, mem-add v node reached, mem-append v queue fresh))
    ]

pub search_all-visits :
    (g : Graph) (queue : List Name) (st : Search) (v : Name)
    → search_all g queue ≡ ok st
    → mem v queue ≡ true
    → mem v st.visited ≡ true
unfolding search_all
search_all-visits g queue st v e h = search_back-visits g _ queue no_search st v e (ground arith)

pub search_all-IsSetOf :
    (g : Graph) (queue : List Name) (st : Search) → search_all g queue ≡ ok st → IsSetOf st.visited
unfolding search_all
search_all-IsSetOf g queue st e = search_back-IsSetOf g _ queue no_search st e (λ v. omega arith)

pub select_all-keeps :
    (g : Graph) (goals required : List Name) (st : Search) (v : Name)
    → (mem v goals || mem v required) ≡ true
    → mem v st.visited ≡ true
    → mem v (select_all g goals required st).included ≡ true
unfolding select_all
select_all-keeps g goals required st v k h =
    choose_all-keeps g goals required st.candidates st.requirers (sort_strings st.candidates.keys) _
      v k h

pub select_all-IsSetOf :
    (g : Graph) (goals required : List Name) (st : Search)
    → IsSetOf st.visited
    → IsSetOf (select_all g goals required st).included
unfolding select_all
select_all-IsSetOf g goals required st h =
    choose_all-IsSetOf g goals required st.candidates st.requirers (sort_strings st.candidates.keys)
      _ h

pub compute_reachable-reaches :
    (goals required : List Name) (es : List RequiresEdge) (r : List Name) (v : Name)
    → compute_reachable goals required es ≡ ok r
    → (mem v goals || mem v required) ≡ true
    → mem v r ≡ true
unfolding compute_reachable
compute_reachable-reaches goals required es r v e h =
    reach_loop-reaches es _ (goals ++ required) [] r v e
      (ground (arith, mem-append v goals required))
