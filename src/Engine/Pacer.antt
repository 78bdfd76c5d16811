-- ===== src/Engine/Pacer.antt =====
-- The pacer of requests: engine/pacer.go. Times are nanoseconds of one clock. The lock makes the
-- callers reserve one after the other, in the order of the list of the times they come at.
use aat.Base.{
  ℕ, zero, suc, ◌+◌, ◌≤◌, List, [], ◌∷◌, Bool, true, false, if◌then◌else◌, ltb, Option, none, some,
  ◌≡◌, arith,
}

pub record Pacer : Type 0 where
  pub interval : ℕ
  pub next : ℕ

-- `NewPacer`; nil is `none`.
abbrev pub new_pacer : ℕ → Option Pacer
new_pacer zero = none
new_pacer (suc d) = some (record { interval = suc d; next = 0 })

-- The slot that a caller reserves, and the pacer after it.
unfoldable pub reserve : ℕ → Pacer → ℕ × Pacer
reserve now p =
    let start = if ltb now p.next then p.next else now in
    (start, record p { next = start + p.interval })

-- `Wait`: when the request may start, or `none` when the context is done before; the slot is taken
-- either way, and a nil pacer starts at once.
abbrev pub started : ℕ → ℕ → Bool → Option ℕ
started now start done = if ltb now start then (if done then none else some start) else some now

abbrev pub wait : ℕ → Bool → Option Pacer → Option ℕ × Option Pacer
wait now done none = (some now, none)
wait now done (some p) = let (start, p') = reserve now p in (started now start done, some p')

-- The slots of callers that come one after the other.
unfoldable pub slots : List ℕ → Pacer → List ℕ
slots [] p = []
slots (now ∷ nows) p = let (start, p') = reserve now p in start ∷ slots nows p'

-- Each slot is an interval after the one before, and the first is not before `from`.
abbrev pub SpacedFrom : ℕ → ℕ → List ℕ → Type 0
SpacedFrom interval from [] = Unit
SpacedFrom interval from (s ∷ ss) = (from ≤ s) × SpacedFrom interval (s + interval) ss

-- No slot is before its caller comes.
abbrev pub NotBefore : List ℕ → List ℕ → Type 0
NotBefore [] ss = Unit
NotBefore (now ∷ nows) [] = true ≡ false
NotBefore (now ∷ nows) (s ∷ ss) = (now ≤ s) × NotBefore nows ss

-- However callers come, each gets a slot that is not before it comes, and the slots are an interval
-- apart, from the pacer's next free time on.
pub slots-SpacedFrom :
    (nows : List ℕ) (p : Pacer)
    → SpacedFrom p.interval p.next (slots nows p) × NotBefore nows (slots nows p)
unfolding slots reserve
slots-SpacedFrom [] p = (tt, tt)
slots-SpacedFrom (now ∷ nows) p =
    let start = if ltb now p.next then p.next else now in
    let (spaced, later) = slots-SpacedFrom nows (record p { next = start + p.interval }) in
    ((ground arith, spaced), (ground arith, later))
