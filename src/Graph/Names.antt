-- ===== src/Graph/Names.antt =====
-- Names of nodes, sets of them, and the sorting helpers of graph/chain.go. A Go `map[string]bool`
-- is the list of its keys, each once; where the source ranges over a map, the list's order stands
-- for the order that the runtime picks.
pub mod Sizes
pub mod Sets
use aat.Base.{
  ℕ, suc, ◌+◌, ◌≤◌, ◌<◌, List, [], ◌∷◌, ◌++◌, reverse, Bool, true, false, ◌&&◌, ◌||◌, not, ◌≡◌,
  refl, ◌⊎◌, inl, inr, if◌then◌else◌, Bool-cases, length, arith, length-append, append_assoc,
}
use mathlib.Core.List.{reverse_aux}
use aat.Base.Text.{Text, text_eq, text_lt, text_eq→eq, text_eq_refl, text_compare}

abbrev pub Name : Type 0
Name = Text

abbrev pub mem : Name → List Name → Bool
mem a [] = false
mem a (x ∷ xs) = text_eq x a || mem a xs

-- `m[a] = true`.
unfoldable pub add_name : Name → List Name → List Name
add_name a xs = if mem a xs then xs else xs ++ a ∷ []

-- `delete(m, a)`.
unfoldable pub remove_name : Name → List Name → List Name
remove_name a [] = []
remove_name a (x ∷ xs) = if text_eq x a then remove_name a xs else x ∷ remove_name a xs

-- The keys for which a test holds, in their order.
unfoldable pub select : (Name → Bool) → List Name → List Name
select p [] = []
select p (x ∷ xs) = if p x then x ∷ select p xs else select p xs

-- The inner loop of `sortStrings`: `key` moves left past the greater elements of the sorted part,
-- which is given from its right end.
unfoldable pub shift_in : Name → List Name → List Name
unfolding text_lt
shift_in key [] = key ∷ []
shift_in key (x ∷ left) = if text_lt key x then x ∷ shift_in key left else key ∷ x ∷ left

unfoldable pub sort_loop : List Name → List Name → List Name
unfolding shift_in
sort_loop done [] = reverse done
sort_loop done (key ∷ rest) = sort_loop (shift_in key done) rest

unfoldable pub sort_strings : List Name → List Name
unfolding sort_loop
sort_strings s = sort_loop [] s

unfoldable pub insert_sorted : List Name → Name → List Name
insert_sorted [] val = val ∷ []
insert_sorted (x ∷ xs) val = if text_lt x val then x ∷ insert_sorted xs val else val ∷ x ∷ xs

-- How often a name occurs.
abbrev pub one_if : Bool → ℕ
one_if true = 1
one_if false = 0

abbrev pub occ : Name → List Name → ℕ
occ v [] = 0
occ v (x ∷ xs) = one_if (text_eq x v) + occ v xs

-- Each name at most once.
abbrev pub IsSetOf : List Name → Type 0
IsSetOf xs = (v : Name) → occ v xs ≤ 1

pub occ-append : (v : Name) (xs ys : List Name) → occ v (xs ++ ys) ≡ occ v xs + occ v ys
occ-append v [] ys = omega arith
occ-append v (x ∷ xs) ys = omega (arith, occ-append v xs ys)

pub mem-occ : (v : Name) (xs : List Name) → mem v xs ≡ true → 0 < occ v xs
mem-occ v [] h = absurd (cc)
mem-occ v (x ∷ xs) h = ground (arith, mem-occ v xs)

pub not_mem-occ : (v : Name) (xs : List Name) → mem v xs ≡ false → occ v xs ≡ 0
not_mem-occ v [] h = refl
not_mem-occ v (x ∷ xs) h = ground (arith, not_mem-occ v xs)

-- The sorting helpers move names, and lose or double none.
pub occ-insert_sorted :
    (v : Name) (s : List Name) (val : Name)
    → occ v (insert_sorted s val) ≡ one_if (text_eq val v) + occ v s
unfolding insert_sorted
occ-insert_sorted v [] val = refl
occ-insert_sorted v (x ∷ s) val = elim (Bool-cases (text_lt x val)) [
  | inl less ↦ rw less (omega (arith, occ-insert_sorted v s val))
  | inr other ↦ rw other
]

occ-shift_in :
    (v key : Name) (s : List Name) → occ v (shift_in key s) ≡ one_if (text_eq key v) + occ v s
unfolding shift_in
occ-shift_in v key [] = refl
occ-shift_in v key (x ∷ s) = elim (Bool-cases (text_lt key x)) [
  | inl less ↦ rw less (omega (arith, occ-shift_in v key s))
  | inr other ↦ rw other
]

occ-reverse_aux : (v : Name) (xs ys : List Name) → occ v (reverse_aux xs ys) ≡ occ v xs + occ v ys
occ-reverse_aux v [] ys = omega arith
occ-reverse_aux v (x ∷ xs) ys = omega (arith, occ-reverse_aux v xs (x ∷ ys))

occ-sort_loop : (v : Name) (done s : List Name) → occ v (sort_loop done s) ≡ occ v done + occ v s
unfolding sort_loop
occ-sort_loop v done [] = omega (arith, occ-reverse_aux v done [])
occ-sort_loop v done (key ∷ s) =
    omega (arith, occ-sort_loop v (shift_in key done) s, occ-shift_in v key done)

pub occ-sort_strings : (v : Name) (s : List Name) → occ v (sort_strings s) ≡ occ v s
unfolding sort_strings
occ-sort_strings v s = omega (arith, occ-sort_loop v [] s)

pub occ-select :
    (v : Name) (p : Name → Bool) (xs : List Name)
    → occ v (select p xs) ≡ (if p v then occ v xs else 0)
unfolding select
occ-select v p [] = ground arith
occ-select v p (x ∷ xs) = ground (arith, text_eq→eq x v, occ-select v p xs)

sort_test :
    sort_strings ((3 ∷ []) ∷ (1 ∷ 2 ∷ []) ∷ (1 ∷ []) ∷ []) ≡ (1 ∷ []) ∷ (1 ∷ 2 ∷ []) ∷ (3 ∷ []) ∷ []
unfolding sort_strings text_lt
sort_test = refl
