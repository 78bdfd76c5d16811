-- ===== src/Base/Decimal.antt =====
-- The decimal text of a number, as `%d` and `strconv.Itoa` write it.
use Prim.Native.Nat.{ℕ, zero, suc, ◌+◌, ◌-◌, ◌*◌, ◌/◌, ◌%◌, ◌≤◌}
use mathlib.Core.Path.{◌≡◌, refl, sym, ap, ◌∙◌}
use mathlib.Core.List.{[], ◌∷◌, ◌++◌}
use mathlib.Core.Logic.{inl, inr}
use native.Mathlib.Omega.{arith}
use aat.Base.Tests.{ltb, if◌then◌else◌, Bool-cases}
use aat.Base.Text.{Text}

-- The fuel bounds the digits.
unfoldable pub decimal_digits : ℕ → ℕ → Text
decimal_digits zero n = (48 + n) ∷ []
decimal_digits (suc fuel) n =
    let rest = decimal_digits fuel (n / 10) in
    if ltb n 10 then (48 + n) ∷ [] else rest ++ (48 + n % 10) ∷ []

unfoldable pub decimal : ℕ → Text
decimal n = decimal_digits n n

abbrev read : ℕ → Text → ℕ
read a [] = a
read a (c ∷ s) = read (a * 10 + (c - 48)) s

read-snoc : (a : ℕ) (s : Text) (c : ℕ) → read a (s ++ c ∷ []) ≡ read a s * 10 + (c - 48)
read-snoc a [] c = refl
read-snoc a (d ∷ s) c = read-snoc (a * 10 + (d - 48)) s c

read-decimal_digits : (fuel n : ℕ) → n ≤ fuel → read 0 (decimal_digits fuel n) ≡ n
unfolding decimal_digits
read-decimal_digits zero n h = omega arith
read-decimal_digits (suc fuel) n h = elim (Bool-cases (ltb n 10)) [
  | inl small ↦ rw small (omega arith)
  | inr big ↦ rw big (
      omega (
        arith,
        read-snoc 0 (decimal_digits fuel (n / 10)) (48 + n % 10),
        read-decimal_digits fuel (n / 10) (ground (arith, big)),
      ))
]

-- Different numbers have different texts.
pub decimal_injective : (m n : ℕ) → decimal m ≡ decimal n → m ≡ n
unfolding decimal
decimal_injective m n h =
    sym (read-decimal_digits m m (omega arith))
    ∙ ap (read 0) h
    ∙ read-decimal_digits n n (omega arith)
