-- ===== src/Plan/Cycles/Found.antt =====
-- What a search from one step finds (`dfs` of plan/validate.go).
use aat.Base.{
  ℕ, zero, suc, List, [], ◌∷◌, ◌++◌, true, false, ◌||◌, if◌then◌else◌, none, some, length, ◌≤◌, ◌<◌,
  ◌≡◌, refl, sym, ap, ◌∙◌, ◌⊎◌, inl, inr, Bool-cases, arith,
}
use aat.Base.Text.{text_eq, text_eq→eq, text_eq_refl}
use aat.Graph.Names.{Name, mem}
use aat.Plan.Reach.{Reaches, Reaches-trans, direct, through}
use aat.Plan.Cycles.{
  Color, white, gray, black, is_white, Marks, mark, Visit, unless_found, by_color, visit, finish,
  dfs,
}
use aat.Plan.Cycles.Marked.{
  Kept, mark-Kept, Clear, Clear-refl, Clear-trans, bracket-Clear, update-cases, update_self,
}

-- The names that are not visited yet.
abbrev pub whites : List Name → Marks → ℕ
whites [] m = 0
whites (x ∷ xs) m = let rest = whites xs m in if is_white (m.color x) then suc rest else rest

pub whites-le : (xs : List Name) (m : Marks) → whites xs m ≤ length xs
whites-le [] m = omega arith
whites-le (x ∷ xs) m = ground (arith, whites-le xs m)

pub whites-Kept : (xs : List Name) (m m' : Marks) → Kept m m' → whites xs m' ≤ whites xs m
whites-Kept [] m m' h = omega arith
whites-Kept (x ∷ xs) m m' h = ground (arith, whites-Kept xs m m' h, h x)

whites-mark :
    (xs : List Name) (node : Name) (m : Marks)
    → mem node xs ≡ true
    → m.color node ≡ white
    → whites xs (mark node gray m) < whites xs m
whites-mark [] node m in_it h = absurd (cc)
whites-mark (x ∷ xs) node m in_it h = elim (Bool-cases (text_eq x node)) [
  | inl same ↦
      let equal = text_eq→eq x node same in
      let was : is_white (m.color x) ≡ true =
        ap (λ y. is_white (m.color y)) equal ∙ ap is_white h in
      let now : is_white ((mark node gray m).color x) ≡ false =
        ap (λ y. is_white ((mark node gray m).color y)) equal
        ∙ ap is_white (update_self m.color node gray) in
      let rest = whites-Kept xs m (mark node gray m) (mark-Kept node gray m refl) in
      simp (was, now) (omega (arith, rest))
  | inr other ↦
      let rest = whites-mark xs node m (simp other at in_it) h in
      ground (arith, rest, mark-Kept node gray m refl x)
]

module _ (adj : Name → List Name) where
  -- What a search from `node` does: it leaves the step black and reports nothing, or it reports one
  -- more pair, whose first step depends on itself where each gray step led to `node`.
  abbrev pub Fine : Name → Marks → Visit → Type 0
  Fine node m none = ⊥
  Fine node m (some (false, m')) = Kept m m' × Clear adj m m' × (m'.color node ≡ black)
  Fine node m (some (true, m')) =
      Kept m m'
      × (a : Name) × (b : Name) × (m'.cycles ≡ m.cycles ++ (a, b) ∷ [])
      × (((x : Name) → m.color x ≡ gray → Reaches adj x node) → Reaches adj a a)

  abbrev Ran : Name → List Name → Marks → Visit → Type 0
  Ran node deps m none = ⊥
  Ran node deps m (some (false, m')) =
      Kept m m' × Clear adj m m' × ((d : Name) → mem d deps ≡ true → m'.color d ≡ black)
  Ran node deps m (some (true, m')) =
      Kept m m'
      × (a : Name) × (b : Name) × (m'.cycles ≡ m.cycles ++ (a, b) ∷ [])
      × (((x : Name) → m.color x ≡ gray → (x ≡ node) ⊎ Reaches adj x node) → Reaches adj a a)

  first_black :
      (dep d : Name) (deps : List Name) (m : Marks)
      → m.color dep ≡ black
      → ((x : Name) → mem x deps ≡ true → m.color x ≡ black)
      → mem d (dep ∷ deps) ≡ true
      → m.color d ≡ black
  first_black dep d deps m h hs e = elim (Bool-cases (text_eq dep d)) [
    | inl same ↦ ap m.color (sym (text_eq→eq dep d same)) ∙ h
    | inr other ↦ hs d (simp other at e)
  ]

  after-Ran :
      (node dep : Name) (deps : List Name) (m m' : Marks)
      → Kept m m'
      → Clear adj m m'
      → m'.color dep ≡ black
      → (o : Visit) → Ran node deps m' o
      → Ran node (dep ∷ deps) m o
  after-Ran node dep deps m m' kept c h none o = elim o [ ]
  after-Ran node dep deps m m' kept c h (some (false, m'')) (kept', c', hs) = (
    λ x k. kept' x (kept x k),
    Clear-trans adj m m' m'' c c',
    λ d e. first_black dep d deps m'' (c'.black_after dep h) hs e,
  )
  after-Ran node dep deps m m' kept c h (some (true, m'')) (kept', a, b, more, cycle) = (
    λ x k. kept' x (kept x k),
    a,
    b,
    more ∙ ap (λ l. l ++ (a, b) ∷ []) c.cycles_same,
    λ grays. cycle (λ x k. grays x (c.gray_before x k)),
  )

  unless_found-Ran :
      (node dep : Name) (deps : List Name) (m : Marks) (rest : Marks → Visit)
      → mem dep (adj node) ≡ true
      → ((m' : Marks) → Kept m m' → Ran node deps m' (rest m'))
      → (o : Visit) → Fine dep m o
      → Ran node (dep ∷ deps) m (unless_found o rest)
  unless_found-Ran node dep deps m rest e h none o = elim o [ ]
  unless_found-Ran node dep deps m rest e h (some (false, m')) (kept, c, is) =
      after-Ran node dep deps m m' kept c is (rest m') (h m' kept)
  unless_found-Ran node dep deps m rest e h (some (true, m')) (kept, a, b, more, cycle) = (
    kept,
    a,
    b,
    more,
    λ grays. cycle (λ x k. elim (grays x k) [
      | inl same ↦ direct (ap (λ y. mem dep (adj y)) same ∙ e)
      | inr p ↦ Reaches-trans adj x node dep p (direct e)
    ]),
  )

  by_color-Ran :
      (node dep : Name) (deps : List Name) (m : Marks) (visited : Visit) (rest : Marks → Visit)
      → mem dep (adj node) ≡ true
      → ((m' : Marks) → Kept m m' → Ran node deps m' (rest m'))
      → (m.color dep ≡ white → Fine dep m visited)
      → (c : Color) → m.color dep ≡ c
      → Ran node (dep ∷ deps) m (by_color c node dep visited rest m)
  by_color-Ran node dep deps m visited rest e h found white is =
      unless_found-Ran node dep deps m rest e h visited (found is)
  by_color-Ran node dep deps m visited rest e h found gray is = (
    λ x k. k,
    node,
    dep,
    refl,
    λ grays. elim (grays dep is) [
      | inl same ↦ direct (ap (λ y. mem y (adj node)) (sym same) ∙ e)
      | inr p ↦ through e p
    ],
  )
  by_color-Ran node dep deps m visited rest e h found black is =
      after-Ran node dep deps m m (λ x k. k) (Clear-refl adj m) is (rest m) (h m (λ x k. k))

  visit-Ran :
      (names : List Name) (fuel : ℕ) (search : Name → Marks → Visit) (node : Name)
      → ((x d : Name) → mem d (adj x) ≡ true → mem d names ≡ true)
      → ((x : Name) (m : Marks)
          → m.color x ≡ white
          → mem x names ≡ true
          → whites names m ≤ fuel
          → Fine x m (search x m))
      → (deps : List Name) (m : Marks) → ((d : Name) → mem d deps ≡ true → mem d (adj node) ≡ true)
      → whites names m ≤ fuel
      → Ran node deps m (visit search node deps m)
  unfolding visit
  visit-Ran names fuel search node covered h [] m within enough =
      (λ x k. k, Clear-refl adj m, λ d e. absurd (cc))
  visit-Ran names fuel search node covered h (dep ∷ deps) m within enough =
      let edge : mem dep (adj node) ≡ true =
        within dep (ap (λ b. b || mem dep deps) (text_eq_refl dep)) in
      by_color-Ran node dep deps m (search dep m) (λ m'. visit search node deps m') edge
        (λ m' kept.
          visit-Ran names fuel search node covered h deps m' (λ d e. within d (ground (arith, e)))
            (omega (arith, enough, whites-Kept names m m' kept)))
        (λ is. h dep m is (covered node dep edge) enough) (m.color dep) refl

  finish-Fine :
      (node : Name) (m : Marks)
      → m.color node ≡ white
      → (o : Visit) → Ran node (adj node) (mark node gray m) o
      → Fine node m (finish node o)
  finish-Fine node m fresh none o = elim o [ ]
  finish-Fine node m fresh (some (false, m')) (kept, c, deps) = (
    λ x k. mark-Kept node black m' refl x (kept x (mark-Kept node gray m refl x k)),
    bracket-Clear adj node m m' fresh c deps,
    update_self m'.color node black,
  )
  finish-Fine node m fresh (some (true, m')) (kept, a, b, more, cycle) = (
    λ x k. kept x (mark-Kept node gray m refl x k),
    a,
    b,
    more,
    λ grays. cycle (λ x k. elim (update-cases m.color node gray x) [
      | inl (same, _) ↦ inl (sym same)
      | inr (_, still) ↦ inr (grays x (sym still ∙ k))
    ]),
  )

  -- With fuel for each name that is not visited, a search ends.
  pub dfs-Fine :
      (names : List Name)
      → ((x d : Name) → mem d (adj x) ≡ true → mem d names ≡ true)
      → (fuel : ℕ) (node : Name) (m : Marks) → m.color node ≡ white
      → mem node names ≡ true
      → whites names m ≤ fuel
      → Fine node m (dfs adj fuel node m)
  unfolding dfs
  dfs-Fine names covered zero node m fresh named enough =
      absurd (omega (arith, enough, whites-mark names node m named fresh))
  dfs-Fine names covered (suc fuel) node m fresh named enough = finish-Fine node m fresh _ (
      visit-Ran names fuel (λ dep m'. dfs adj fuel dep m') node covered
        (λ x m'. dfs-Fine names covered fuel x m') (adj node) (mark node gray m) (λ d e. e)
        (omega (arith, enough, whites-mark names node m named fresh)))
