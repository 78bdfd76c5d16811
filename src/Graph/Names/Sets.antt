-- ===== src/Graph/Names/Sets.antt =====
-- Membership in sets of names, and that the operations keep each name at most once.
use aat.Base.{◌≤◌, List, [], ◌∷◌, ◌++◌, Bool, ◌&&◌, ◌||◌, not, ◌≡◌, refl, arith, length}
use aat.Base.Text.{text_eq, text_eq→eq, text_eq_refl}
use aat.Graph.Names.{
  Name, mem, add_name, remove_name, select, occ, IsSetOf, not_mem-occ, occ-append, occ-select,
}

pub mem-append : (v : Name) (xs ys : List Name) → mem v (xs ++ ys) ≡ (mem v xs || mem v ys)
mem-append v [] ys = refl
mem-append v (x ∷ xs) ys = ground (arith, mem-append v xs ys)

pub mem-add : (v t : Name) (xs : List Name) → mem v (add_name t xs) ≡ (mem v xs || text_eq t v)
unfolding add_name
mem-add v t xs = ground (arith, mem-append v xs (t ∷ []), text_eq→eq t v)

pub mem-select :
    (v : Name) (p : Name → Bool) (xs : List Name) → mem v (select p xs) ≡ (mem v xs && p v)
unfolding select
mem-select v p [] = refl
mem-select v p (x ∷ xs) = ground (arith, mem-select v p xs, text_eq→eq x v)

pub mem-remove :
    (v a : Name) (xs : List Name) → mem v (remove_name a xs) ≡ (mem v xs && not (text_eq a v))
unfolding remove_name
mem-remove v a [] = refl
mem-remove v a (x ∷ xs) =
    ground
      (arith, mem-remove v a xs, text_eq→eq x a, text_eq→eq x v, text_eq→eq a v, text_eq_refl v)

occ-remove : (v a : Name) (xs : List Name) → occ v (remove_name a xs) ≤ occ v xs
unfolding remove_name
occ-remove v a [] = omega arith
occ-remove v a (x ∷ xs) = ground (arith, occ-remove v a xs)

pub remove-IsSetOf : (a : Name) (xs : List Name) → IsSetOf xs → IsSetOf (remove_name a xs)
remove-IsSetOf a xs h v = omega (arith, occ-remove v a xs, h v)

pub add-IsSetOf : (a : Name) (xs : List Name) → IsSetOf xs → IsSetOf (add_name a xs)
unfolding add_name
add-IsSetOf a xs h v =
    ground (arith, h v, occ-append v xs (a ∷ []), not_mem-occ a xs, text_eq→eq a v)

pub select-IsSetOf : (p : Name → Bool) (xs : List Name) → IsSetOf xs → IsSetOf (select p xs)
select-IsSetOf p xs h v = ground (arith, h v, occ-select v p xs)

pub length-select : (p : Name → Bool) (xs : List Name) → length (select p xs) ≤ length xs
unfolding select
length-select p [] = omega arith
length-select p (x ∷ xs) = ground (arith, length-select p xs)
