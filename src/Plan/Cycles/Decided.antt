-- ===== src/Plan/Cycles/Decided.antt =====
-- `detectDependsOnCycles` of plan/validate.go decides whether a step depends on itself.
use aat.Base.{
  subst, ◌≢◌, List, [], ◌∷◌, ◌++◌, true, false, ◌||◌, none, some, Option, length, ◌≡◌, refl, sym,
  ap, ◌∙◌, ◌⊎◌, inl, inr, Bool-cases, arith,
}
use aat.Base.Text.{text_eq, text_eq→eq, text_eq_refl}
use aat.Graph.Names.{Name, mem}
use aat.Plan.Reach.{Reaches}
use aat.Plan.Cycles.{
  Color, white, gray, black, is_white, Marks, Visit, dfs, then_run, start_at, run_all,
}
use aat.Plan.Cycles.Marked.{Kept, IsDone}
use aat.Plan.Cycles.Found.{whites-le, Fine, dfs-Fine}

module _ (adj : Name → List Name) where
  -- The first step that is reported depends on itself.
  abbrev pub IsCyclic : List (Name × Name) → Type 0
  IsCyclic cycles =
      (a : Name) × (b : Name) × (rest : List (Name × Name)) × (cycles ≡ (a, b) ∷ rest)
      × Reaches adj a a

  -- Between two searches, while nothing is reported.
  abbrev pub IsCalm : Marks → Type 0
  IsCalm m = (m.cycles ≡ []) × IsDone adj m × ((x : Name) → m.color x ≢ gray)

  abbrev pub Ends : List Name → Marks → Option Marks → Type 0
  Ends ids m none = ⊥
  Ends ids m (some m') =
      (IsCalm m' × Kept m m' × ((x : Name) → mem x ids ≡ true → is_white (m'.color x) ≡ false))
      ⊎ IsCyclic m'.cycles

  -- A search from a white step, and then from the other steps.
  searched :
      (m m' : Marks) (a b : Name)
      → m'.cycles ≡ m.cycles ++ (a, b) ∷ []
      → Reaches adj a a
      → m.cycles ≡ []
      → IsCyclic m'.cycles
  searched m m' a b more p none_yet = (a, b, [], more ∙ ap (λ l. l ++ (a, b) ∷ []) none_yet, p)

  IsCyclic-append :
      (cs : List (Name × Name)) (c : Name × Name) → IsCyclic cs → IsCyclic (cs ++ c ∷ [])
  IsCyclic-append cs c (a, b, rest, is, p) = (a, b, rest ++ c ∷ [], ap (λ l. l ++ c ∷ []) is, p)

  first_visited :
      (id : Name) (ids : List Name) (m m' : Marks) (o : Option Marks)
      → Kept m m'
      → is_white (m'.color id) ≡ false
      → Ends ids m' o
      → Ends (id ∷ ids) m o
  first_visited id ids m m' none kept seen h = h
  first_visited id ids m m' (some m'') kept seen (inr h) = inr h
  first_visited id ids m m' (some m'') kept seen (inl (calm, kept', others)) = inl (
    calm,
    λ x k. kept' x (kept x k),
    λ x e. elim (Bool-cases (text_eq id x)) [
      | inl same ↦ ap (λ y. is_white (m''.color y)) (sym (text_eq→eq id x same)) ∙ kept' id seen
      | inr other ↦ others x (simp other at e)
    ],
  )

  -- Once a cycle is reported, the first report stays.
  abbrev Stays : Option Marks → Type 0
  Stays none = ⊥
  Stays (some m) = IsCyclic m.cycles

  Stays-Ends : (ids : List Name) (m : Marks) (o : Option Marks) → Stays o → Ends ids m o
  Stays-Ends ids m none h = h
  Stays-Ends ids m (some m') h = inr h

  then_run-Stays :
      (node : Name) (m : Marks) (o : Visit) (rest : Marks → Option Marks)
      → ((m' : Marks) → IsCyclic m'.cycles → Stays (rest m'))
      → IsCyclic m.cycles
      → Fine adj node m o
      → Stays (then_run o rest)
  then_run-Stays node m none rest h c o = o
  then_run-Stays node m (some (false, m')) rest h c (kept, clear, is) =
      h m' (subst IsCyclic (sym clear.cycles_same) c)
  then_run-Stays node m (some (true, m')) rest h c (kept, a, b, more, cycle) =
      h m' (subst IsCyclic (sym more) (IsCyclic-append m.cycles (a, b) c))

  then_run-Ends :
      (node : Name) (ids : List Name) (m : Marks) (o : Visit) (rest : Marks → Option Marks)
      → ((m' : Marks) → IsCyclic m'.cycles → Stays (rest m'))
      → ((m' : Marks) → IsCalm m' → Ends ids m' (rest m'))
      → IsCalm m
      → Fine adj node m o
      → Ends (node ∷ ids) m (then_run o rest)
  then_run-Ends node ids m none rest hc h c o = o
  then_run-Ends node ids m (some (false, m')) rest hc h (none_yet, good, no_gray)
        (kept, clear, is) =
      first_visited node ids m m' (rest m') kept (ap is_white is) (
        h m' (
          clear.cycles_same ∙ none_yet,
          clear.done_after good,
          λ x k. no_gray x (clear.gray_before x k),
        ))
  then_run-Ends node ids m (some (true, m')) rest hc h (none_yet, good, no_gray)
        (kept, a, b, more, cycle) =
      Stays-Ends (node ∷ ids) m (rest m')
        (hc m' (searched m m' a b more (cycle (λ x k. absurd (no_gray x k))) none_yet))

  start_at-Stays :
      (node : Name) (m : Marks) (o : Visit) (rest : Marks → Option Marks)
      → ((m' : Marks) → IsCyclic m'.cycles → Stays (rest m'))
      → IsCyclic m.cycles
      → (m.color node ≡ white → Fine adj node m o)
      → (c : Color) → m.color node ≡ c
      → Stays (start_at c o rest m)
  start_at-Stays node m o rest h cyclic fine white is =
      then_run-Stays node m o rest h cyclic (fine is)
  start_at-Stays node m o rest h cyclic fine gray is = h m cyclic
  start_at-Stays node m o rest h cyclic fine black is = h m cyclic

  start_at-Ends :
      (node : Name) (ids : List Name) (m : Marks) (o : Visit) (rest : Marks → Option Marks)
      → ((m' : Marks) → IsCyclic m'.cycles → Stays (rest m'))
      → ((m' : Marks) → IsCalm m' → Ends ids m' (rest m'))
      → IsCalm m
      → (m.color node ≡ white → Fine adj node m o)
      → (c : Color) → m.color node ≡ c
      → Ends (node ∷ ids) m (start_at c o rest m)
  start_at-Ends node ids m o rest hc h calm fine white is =
      then_run-Ends node ids m o rest hc h calm (fine is)
  start_at-Ends node ids m o rest hc h calm fine gray is =
      first_visited node ids m m (rest m) (λ x k. k) (ap is_white is) (h m calm)
  start_at-Ends node ids m o rest hc h calm fine black is =
      first_visited node ids m m (rest m) (λ x k. k) (ap is_white is) (h m calm)

  module _ (names : List Name)
      (covered : (x d : Name) → mem d (adj x) ≡ true → mem d names ≡ true) where
    fine :
        (node : Name) (m : Marks)
        → mem node names ≡ true
        → m.color node ≡ white
        → Fine adj node m (dfs adj (length names) node m)
    fine node m named is =
        dfs-Fine adj names covered (length names) node m is named (whites-le names m)

    abbrev Named : List Name → Type 0
    Named ids = (x : Name) → mem x ids ≡ true → mem x names ≡ true

    head-Named : (id : Name) (ids : List Name) → Named (id ∷ ids) → mem id names ≡ true
    head-Named id ids h = h id (ap (λ b. b || mem id ids) (text_eq_refl id))

    run_all-Stays :
        (ids : List Name)
        → Named ids
        → (m : Marks) → IsCyclic m.cycles
        → Stays (run_all adj (length names) ids m)
    unfolding run_all
    run_all-Stays [] h m c = c
    run_all-Stays (id ∷ ids) h m c =
        start_at-Stays id m _ (λ m'. run_all adj (length names) ids m')
          (run_all-Stays ids (λ x e. h x (ground (arith, e)))) c (fine id m (head-Named id ids h))
          (m.color id) refl

    pub run_all-Ends :
        (ids : List Name)
        → Named ids
        → (m : Marks) → IsCalm m
        → Ends ids m (run_all adj (length names) ids m)
    unfolding run_all
    run_all-Ends [] h m c = inl (c, λ x k. k, λ x e. absurd (cc))
    run_all-Ends (id ∷ ids) h m c =
        start_at-Ends id ids m _ (λ m'. run_all adj (length names) ids m')
          (run_all-Stays ids (λ x e. h x (ground (arith, e))))
          (run_all-Ends ids (λ x e. h x (ground (arith, e)))) c (fine id m (head-Named id ids h))
          (m.color id) refl
