-- ===== src/Engine/Scheduler/Keys.antt =====
-- The keys `from→to` of the sort of steps (engine/scheduler.go).
use aat.Base.{ℕ, List, [], ◌∷◌, Bool, true, false, ◌&&◌, ◌||◌, ◌==◌, ◌≡◌, refl, sym, arith}
use aat.Base.Text.{Text}
use aat.Graph.Names.{Name, mem}
use aat.Engine.Scheduler.{edge_key}

abbrev starts_arrow : Text → Bool
starts_arrow (a ∷ b ∷ c ∷ s) = a == 226 && b == 134 && c == 146
starts_arrow _ = false

-- The text holds the arrow.
abbrev pub holds_arrow : Text → Bool
holds_arrow [] = false
holds_arrow (a ∷ s) = let rest = holds_arrow s in starts_arrow (a ∷ s) || rest

-- An arrow that starts a text of steps without the arrow is the whole of the first step's name.
arrow_first :
    (b c d : Text) → holds_arrow c ≡ false → edge_key [] b ≡ edge_key c d → (c ≡ []) × (b ≡ d)
arrow_first b [] d h e = (refl, cc)
arrow_first b (x ∷ []) d h e = absurd (let k : Path ℕ 134 226 = cc in ground (arith, k))
arrow_first b (x ∷ y ∷ []) d h e = absurd (let k : Path ℕ 146 226 = cc in ground (arith, k))
arrow_first b (x ∷ y ∷ z ∷ c) d h e =
    let first : Path ℕ 226 x = cc in
    let second : Path ℕ 134 y = cc in
    let third : Path ℕ 146 z = cc in absurd (ground (arith, h, first, second, third))

pub edge_key_injective :
    (a b c d : Name)
    → holds_arrow a ≡ false
    → holds_arrow c ≡ false
    → edge_key a b ≡ edge_key c d
    → (a ≡ c) × (b ≡ d)
edge_key_injective [] b c d ha hc e =
    let (empty, same) = arrow_first b c d hc e in (sym empty, same)
edge_key_injective (x ∷ a) b [] d ha hc e =
    let (empty, same) = arrow_first d (x ∷ a) b ha (sym e) in (empty, sym same)
edge_key_injective (x ∷ a) b (y ∷ c) d ha hc e =
    let first : x ≡ y = cc in
    let rest : edge_key a b ≡ edge_key c d = cc in
    let (same, last) = edge_key_injective a b c d (ground (arith, ha)) (ground (arith, hc)) rest in
    (cc, last)

-- No step's ID holds the arrow.
abbrev pub HasNoArrow : List Name → Type 0
HasNoArrow ids = (v : Name) → mem v ids ≡ true → holds_arrow v ≡ false
