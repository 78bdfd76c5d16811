-- ===== src/Engine/PacerTests.antt =====
-- Callers of a pacer (engine/pacer.go).
use aat.Base.{[], ◌∷◌, ◌≡◌, refl}
use aat.Engine.Pacer.{Pacer, reserve, slots, SpacedFrom, NotBefore, slots-SpacedFrom}

abbrev pacer : Pacer
pacer = record { interval = 10; next = 0 }

slots_test : slots (3 ∷ 4 ∷ 40 ∷ 41 ∷ []) pacer ≡ 3 ∷ 13 ∷ 40 ∷ 50 ∷ []
unfolding slots reserve
slots_test = refl

slots-SpacedFrom_example :
    SpacedFrom 10 0 (slots (3 ∷ 4 ∷ 40 ∷ 41 ∷ []) pacer)
    × NotBefore (3 ∷ 4 ∷ 40 ∷ 41 ∷ []) (slots (3 ∷ 4 ∷ 40 ∷ 41 ∷ []) pacer)
slots-SpacedFrom_example = slots-SpacedFrom (3 ∷ 4 ∷ 40 ∷ 41 ∷ []) pacer
