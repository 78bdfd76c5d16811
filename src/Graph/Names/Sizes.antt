-- ===== src/Graph/Names/Sizes.antt =====
-- Lists of names compared by how often each name occurs.
use aat.Base.{
  ◌+◌, ◌≤◌, ◌<◌, List, [], ◌∷◌, true, ◌≡◌, refl, if◌then◌else◌, inl, inr, Bool-cases, arith, length,
}
use aat.Base.Text.{text_eq, text_eq→eq, text_eq_refl}
use aat.Graph.Names.{Name, mem, occ, one_if, mem-occ, not_mem-occ}

pub mem_of_occ : (v : Name) (xs : List Name) → 0 < occ v xs → mem v xs ≡ true
mem_of_occ v xs h = elim (Bool-cases (mem v xs)) [
  | inl in_it ↦ in_it
  | inr out ↦ absurd (omega (arith, not_mem-occ v xs out))
]

pub mem-eq_of_occ : (v : Name) (xs ys : List Name) → occ v xs ≡ occ v ys → mem v xs ≡ mem v ys
mem-eq_of_occ v xs ys e =
    ground (arith, mem-occ v xs, not_mem-occ v xs, mem-occ v ys, not_mem-occ v ys)

erase_one : Name → List Name → List Name
erase_one a [] = []
erase_one a (x ∷ xs) = if text_eq x a then xs else x ∷ erase_one a xs

occ-erase_one :
    (a v : Name) (xs : List Name)
    → 0 < occ a xs
    → occ v (erase_one a xs) + one_if (text_eq a v) ≡ occ v xs
unfolding erase_one
occ-erase_one a v [] h = elim h [ ]
occ-erase_one a v (x ∷ xs) h = ground (arith, text_eq→eq x a, text_eq_refl a, occ-erase_one a v xs)

length-erase_one :
    (a : Name) (xs : List Name) → 0 < occ a xs → length (erase_one a xs) + 1 ≡ length xs
unfolding erase_one
length-erase_one a [] h = elim h [ ]
length-erase_one a (x ∷ xs) h = ground (arith, length-erase_one a xs)

-- Fewer occurrences of each name make a shorter list.
pub length-le_of_occ :
    (xs ys : List Name) → ((v : Name) → occ v xs ≤ occ v ys) → length xs ≤ length ys
length-le_of_occ [] ys h = omega arith
length-le_of_occ (x ∷ xs) ys h =
    let here : 0 < occ x ys = omega (arith, h x, text_eq-pos x) in
    omega (arith, length-erase_one x ys here, length-le_of_occ xs (erase_one x ys) (rest here))
  where
    text_eq-pos : (a : Name) → one_if (text_eq a a) ≡ 1
    text_eq-pos a = rw (text_eq_refl a)

    rest : 0 < occ x ys → (v : Name) → occ v xs ≤ occ v (erase_one x ys)
    rest here v = omega (arith, h v, occ-erase_one x v ys here)

-- A list that is no shorter has no fewer occurrences either.
pub occ-eq_of_length :
    (xs ys : List Name)
    → ((v : Name) → occ v xs ≤ occ v ys)
    → length xs ≡ length ys
    → (v : Name) → occ v xs ≡ occ v ys
occ-eq_of_length [] [] h e v = refl
occ-eq_of_length [] (y ∷ ys) h e v = absurd (omega arith)
occ-eq_of_length (x ∷ xs) ys h e v =
    let one : one_if (text_eq x x) ≡ 1 = rw (text_eq_refl x) in
    let here : 0 < occ x ys = omega (arith, h x) in
    omega (
      arith,
      occ-erase_one x v ys here,
      occ-eq_of_length xs (erase_one x ys) (λ w. omega (arith, h w, occ-erase_one x w ys here))
          (omega (arith, length-erase_one x ys here)) v,
    )
