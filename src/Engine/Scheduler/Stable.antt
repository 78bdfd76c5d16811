-- ===== src/Engine/Scheduler/Stable.antt =====
-- The sort keeps a plan that is in order as it is written (engine/scheduler.go).
use aat.Base.{
  ℕ, zero, suc, ◌+◌, ◌≤◌, ◌<◌, List, [], ◌∷◌, ◌++◌, Bool, true, false, ◌≡◌, refl, sym, ap, ◌∙◌, inl,
  inr, Bool-cases, arith, subst, ok, length, if◌then◌else◌, ltb, append_assoc, append-nil,
}
use aat.Base.Text.{text_eq, text_eq→eq, text_eq_refl}
use aat.Graph.Names.{Name, mem, occ, one_if, IsSetOf, mem-occ, not_mem-occ, occ-append}
use aat.Graph.Names.Sizes.{mem_of_occ}
use aat.Graph.Topo.Count.{preds}
use aat.Graph.Topo.Loop.{IsLoop}
use aat.Engine.Scheduler.{index_of, first_ready, schedule}
use aat.Engine.Scheduler.Order.{mem-first_ready, popped, round-IsLoop}

better_least :
    (index : Name → ℕ) (f best r v : Name) (rs : List Name) (b : Bool)
    → ltb (index r) (index best) ≡ b
    → mem v (best ∷ r ∷ rs) ≡ true
    → ((w : Name) → mem w ((if b then r else best) ∷ rs) ≡ true → index f ≤ index w)
    → index f ≤ index v
better_least index f best r v rs true e h least =
    ground (arith, e, h, least v, least r, text_eq_refl r, text_eq→eq best v)
better_least index f best r v rs false e h least =
    ground (arith, e, h, least v, least best, text_eq_refl best, text_eq→eq r v)

first_ready-least :
    (index : Name → ℕ) (best : Name) (rs : List Name) (v : Name)
    → mem v (best ∷ rs) ≡ true
    → index (first_ready index best rs) ≤ index v
unfolding first_ready
first_ready-least index best [] v h =
    subst (λ w. index best ≤ index w) (text_eq→eq best v (ground (arith, h))) (omega arith)
first_ready-least index best (r ∷ rs) v h =
    better_least index (first_ready index best (r ∷ rs)) best r v rs (ltb (index r) (index best))
      refl h (first_ready-least index (if ltb (index r) (index best) then r else best) rs)

index-append :
    (v : Name) (xs ys : List Name)
    → mem v xs ≡ false
    → index_of v (xs ++ ys) ≡ length xs + index_of v ys
index-append v [] ys h = omega arith
index-append v (x ∷ xs) ys h = ground (arith, h, index-append v xs ys)

preds-none :
    (adj : Name → List Name) (done us : List Name) (v : Name)
    → ((u : Name) → mem v (adj u) ≡ true → mem u done ≡ true)
    → preds adj done us v ≡ 0
preds-none adj done [] v h = refl
preds-none adj done (u ∷ us) v h = ground (arith, h u, preds-none adj done us v h)

index-rest :
    (nodes sorted rest : List Name) (v : Name)
    → sorted ++ rest ≡ nodes
    → mem v sorted ≡ false
    → index_of v nodes ≡ length sorted + index_of v rest
index-rest nodes sorted rest v e h = ap (index_of v) (sym e) ∙ index-append v sorted rest h

module _ (nodes : List Name) (adj : Name → List Name) (unique : IsSetOf nodes)
    (sets : (u : Name) → IsSetOf (adj u))
    (targets : (u v : Name) → mem v (adj u) ≡ true → mem v nodes ≡ true)
    (sources : (u v : Name) → mem v (adj u) ≡ true → mem u nodes ≡ true)
    (forward : (u v : Name) → mem v (adj u) ≡ true → index_of u nodes < index_of v nodes) where
  module _ (deg : Name → ℕ) (ready sorted xs : List Name) (x : Name) (e : sorted ++ x ∷ xs ≡ nodes)
      (inv : IsLoop nodes adj unique sets targets sources deg ready sorted) where
    occ-split : (v : Name) → occ v sorted + (one_if (text_eq x v) + occ v xs) ≡ occ v nodes
    occ-split v = sym (occ-append v sorted (x ∷ xs)) ∙ ap (occ v) e

    next_in : mem x nodes ≡ true
    next_in = mem_of_occ x nodes (ground (arith, occ-split x, text_eq_refl x))

    next_new : mem x sorted ≡ false
    next_new = ground (arith, occ-split x, text_eq_refl x, unique x, mem-occ x sorted)

    next_index : index_of x nodes ≡ length sorted
    next_index = ground (arith, index-rest nodes sorted (x ∷ xs) x e next_new, text_eq_refl x)

    next_deg : deg x ≡ 0
    next_deg =
        inv.degrees x
        ∙ preds-none adj sorted nodes x (λ u h. elim (Bool-cases (mem u sorted)) [
          | inl in_it ↦ in_it
          | inr out ↦
              absurd
                (omega (arith, forward u x h, index-rest nodes sorted (x ∷ xs) u e out, next_index))
        ])

    next_ready : mem x ready ≡ true
    next_ready =
        mem_of_occ x ready
          (ground (arith, inv.placed x, next_in, next_deg, next_new, not_mem-occ x sorted))

    ready_first : (v : Name) → mem v ready ≡ true → index_of v nodes ≤ index_of x nodes → v ≡ x
    ready_first v h le =
        let v_new : mem v sorted ≡ false =
          ground (arith, inv.placed v, mem-occ v ready h, mem-occ v sorted) in
        sym (
          text_eq→eq x v
            (ground (arith, le, next_index, index-rest nodes sorted (x ∷ xs) v e v_new)))

  nothing_left :
      (deg : Name → ℕ) (r : Name) (rs : List Name)
      (inv : IsLoop nodes adj unique sets targets sources deg (r ∷ rs) nodes)
      → true ≡ false
  nothing_left deg r rs inv = absurd (ground (arith, inv.placed r, text_eq_refl r, mem-occ r nodes))

  pub schedule-keeps :
      (fuel : ℕ) (deg : Name → ℕ) (ready sorted rest : List Name)
      → sorted ++ rest ≡ nodes
      → length rest ≤ fuel
      → IsLoop nodes adj unique sets targets sources deg ready sorted
      → schedule adj (λ v. index_of v nodes) fuel deg ready sorted ≡ ok nodes
  unfolding schedule
  schedule-keeps fuel deg [] sorted [] e h inv = ap ok (sym (append-nil sorted) ∙ e)
  schedule-keeps fuel deg (r ∷ rs) sorted [] e h inv =
      let placed_twice : true ≡ false = nothing_left deg r rs (
        subst (λ s. IsLoop nodes adj unique sets targets sources deg (r ∷ rs) s)
          (sym (append-nil sorted) ∙ e) inv) in
      absurd (cc)
  schedule-keeps fuel deg [] sorted (x ∷ xs) e h inv =
      let none_ready : false ≡ true = next_ready deg [] sorted xs x e inv in absurd (cc)
  schedule-keeps zero deg (r ∷ rs) sorted (x ∷ xs) e h inv = absurd (omega (arith, h))
  schedule-keeps (suc fuel) deg (r ∷ rs) sorted (x ∷ xs) e h inv =
      schedule-keeps fuel _ _ (sorted ++ first ∷ []) xs
        (append_assoc sorted (first ∷ []) xs ∙ ap (λ y. sorted ++ y ∷ xs) first_is ∙ e)
        (omega (arith, h))
        (round-IsLoop nodes adj unique sets targets sources deg first _ sorted (
          popped nodes adj unique sets targets sources (λ v. index_of v nodes) deg r rs sorted inv))
    where
      first : Name
      first = first_ready (λ v. index_of v nodes) r rs

      first_is : first ≡ x
      first_is =
          ready_first deg (r ∷ rs) sorted xs x e inv first
            (mem-first_ready (λ v. index_of v nodes) r rs)
            (first_ready-least (λ v. index_of v nodes) r rs x
              (next_ready deg (r ∷ rs) sorted xs x e inv))
