-- ===== src/Graph/Topo/Count.antt =====
-- Counting the predecessors of a node that are not yet sorted: what `inDeg` holds.
use aat.Base.{
  ℕ, ◌+◌, List, [], ◌∷◌, ◌++◌, false, ◌&&◌, ◌||◌, not, ◌≡◌, refl, if◌then◌else◌, inl, inr,
  Bool-cases, arith,
}
use aat.Base.Text.{text_eq, text_eq→eq}
use aat.Graph.Names.{Name, mem, add_name, occ, one_if}
use aat.Graph.Topo.{update}

pub text_eq_sym : (a b : Name) → text_eq a b ≡ text_eq b a
text_eq_sym [] [] = refl
text_eq_sym [] (b ∷ t) = refl
text_eq_sym (a ∷ s) [] = refl
text_eq_sym (a ∷ s) (b ∷ t) = ground (arith, text_eq_sym s t)

pub mem-snoc : (a x : Name) (xs : List Name) → mem a (xs ++ x ∷ []) ≡ (mem a xs || text_eq x a)
mem-snoc a x [] = ground arith
mem-snoc a x (y ∷ xs) = ground (arith, mem-snoc a x xs)

abbrev pub preds : (Name → List Name) → List Name → List Name → Name → ℕ
preds adj done [] v = 0
preds adj done (u ∷ us) v = one_if (mem v (adj u) && not (mem u done)) + preds adj done us v

-- Sorting a node takes it from the count of each of its successors.
pub preds-snoc :
    (adj : Name → List Name) (done nodes : List Name) (u v : Name)
    → mem u done ≡ false
    → preds adj (done ++ u ∷ []) nodes v + (if mem v (adj u) then occ u nodes else 0)
      ≡ preds adj done nodes v
preds-snoc adj done [] u v fresh = ground arith
preds-snoc adj done (x ∷ xs) u v fresh =
    ground (arith, mem-snoc x u done, text_eq→eq x u, text_eq_sym x u, preds-snoc adj done xs u v)

pub mem-add_name : (v t : Name) (xs : List Name) → mem v (add_name t xs) ≡ (mem v xs || text_eq t v)
unfolding add_name
mem-add_name v t xs = ground (arith, mem-snoc v t xs, text_eq→eq t v)

pub mem-update :
    (adj : Name → List Name) (f t v x : Name)
    → mem v (update adj f (add_name t (adj f)) x) ≡ (mem v (adj x) || text_eq f x && text_eq t v)
mem-update adj f t v x = elim (Bool-cases (text_eq f x)) [
  | inl same ↦ rw same (ground (arith, mem-add_name v t (adj f), text_eq→eq f x))
  | inr other ↦ rw other (ground arith)
]

-- A new edge adds to the count of its target.
pub preds-add :
    (adj : Name → List Name) (nodes : List Name) (f t v : Name)
    → mem t (adj f) ≡ false
    → preds (update adj f (add_name t (adj f))) [] nodes v
      ≡ preds adj [] nodes v + (if text_eq t v then occ f nodes else 0)
preds-add adj [] f t v new = ground arith
preds-add adj (x ∷ xs) f t v new = ground (
  arith,
  mem-update adj f t v x,
  text_eq→eq f x,
  text_eq→eq t v,
  text_eq_sym x f,
  preds-add adj xs f t v,
)
