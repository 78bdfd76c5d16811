-- ===== src/Plan/Cycles/Marked.antt =====
-- What a search that reports no cycle leaves of the marks (plan/validate.go).
use aat.Base.{
  List, true, false, if◌then◌else◌, ◌≡◌, refl, sym, ap, ◌∙◌, ◌⊎◌, inl, inr, Bool-cases, subst,
}
use aat.Base.Text.{text_eq, text_eq→eq, text_eq_refl}
use aat.Graph.Names.{Name, mem}
use aat.Graph.Topo.{update}
use aat.Plan.Reach.{Reaches, direct, through}
use aat.Plan.Cycles.{Color, white, gray, black, is_white, Marks, mark}

pub update-cases :
    (f : Name → Color) (k : Name) (c : Color) (x : Name)
    → (k ≡ x) × (update f k c x ≡ c) ⊎ (text_eq k x ≡ false) × (update f k c x ≡ f x)
update-cases f k c x = elim (Bool-cases (text_eq k x)) [
  | inl same ↦ inl (text_eq→eq k x same, ap (λ b. if b then c else f x) same)
  | inr other ↦ inr (other, ap (λ b. if b then c else f x) other)
]

pub update_self : (f : Name → Color) (k : Name) (c : Color) → update f k c k ≡ c
update_self f k c = ap (λ b. if b then c else f k) (text_eq_refl k)

-- A name that is visited stays visited.
abbrev pub Kept : Marks → Marks → Type 0
Kept m m' = (x : Name) → is_white (m.color x) ≡ false → is_white (m'.color x) ≡ false

pub mark-Kept : (node : Name) (c : Color) (m : Marks) → is_white c ≡ false → Kept m (mark node c m)
mark-Kept node c m h x k = elim (update-cases m.color node c x) [
  | inl (same, is) ↦ ap is_white is ∙ h
  | inr (other, is) ↦ ap is_white is ∙ k
]

module _ (adj : Name → List Name) where
  -- The dependencies of a black step are black, and it does not depend on itself.
  pub record IsDone (m : Marks) : Type 0 where
    pub closed : (x d : Name) → m.color x ≡ black → mem d (adj x) ≡ true → m.color d ≡ black
    pub clean : (x : Name) → m.color x ≡ black → ¬ Reaches adj x x

  pub record Clear (m m' : Marks) : Type 0 where
    pub cycles_same : m'.cycles ≡ m.cycles
    pub gray_before : (x : Name) → m'.color x ≡ gray → m.color x ≡ gray
    pub gray_after : (x : Name) → m.color x ≡ gray → m'.color x ≡ gray
    pub black_after : (x : Name) → m.color x ≡ black → m'.color x ≡ black
    pub done_after : IsDone m → IsDone m'

  pub Clear-refl : (m : Marks) → Clear m m
  Clear-refl m = record {
    cycles_same = refl;
    gray_before = λ x h. h;
    gray_after = λ x h. h;
    black_after = λ x h. h;
    done_after = λ h. h;
  }

  pub Clear-trans : (m m' m'' : Marks) → Clear m m' → Clear m' m'' → Clear m m''
  Clear-trans m m' m'' a b = record {
    cycles_same = b.cycles_same ∙ a.cycles_same;
    gray_before = λ x h. a.gray_before x (b.gray_before x h);
    gray_after = λ x h. b.gray_after x (a.gray_after x h);
    black_after = λ x h. b.black_after x (a.black_after x h);
    done_after = λ h. b.done_after (a.done_after h);
  }

  pub black-Reaches :
      (m : Marks)
      → IsDone m
      → (x y : Name) → Reaches adj x y
      → m.color x ≡ black
      → m.color y ≡ black
  black-Reaches m h x y (direct e) is = h.closed x y is e
  black-Reaches m h x y (through {y = z} e p) is = black-Reaches m h z y p (h.closed x z is e)

  pub mark_gray-IsDone :
      (node : Name) (m : Marks) → m.color node ≡ white → IsDone m → IsDone (mark node gray m)
  mark_gray-IsDone node m fresh h = record {
    closed = λ x d is e. elim (update-cases m.color node gray x) [
      | inl (same, now) ↦ absurd (cc)
      | inr (other, now) ↦ elim (update-cases m.color node gray d) [
        | inl (same, _) ↦
            let was : m.color d ≡ black = h.closed x d (sym now ∙ is) e in
            let first : m.color d ≡ white = ap m.color (sym same) ∙ fresh in absurd (cc)
        | inr (_, still) ↦ still ∙ h.closed x d (sym now ∙ is) e
      ]
    ];
    clean = λ x is. elim (update-cases m.color node gray x) [
      | inl (same, now) ↦ absurd (cc)
      | inr (other, now) ↦ h.clean x (sym now ∙ is)
    ];
  }

  -- A step that still is gray when all its dependencies are black does not depend on itself.
  gray_clean :
      (node : Name) (m : Marks)
      → IsDone m
      → m.color node ≡ gray
      → ((d : Name) → mem d (adj node) ≡ true → m.color d ≡ black)
      → ¬ Reaches adj node node
  gray_clean node m h is deps (direct e) = let end = deps node e in absurd (cc)
  gray_clean node m h is deps (through {y = d} e p) =
      let end = black-Reaches m h d node p (deps d e) in absurd (cc)

  pub mark_black-IsDone :
      (node : Name) (m : Marks)
      → m.color node ≡ gray
      → ((d : Name) → mem d (adj node) ≡ true → m.color d ≡ black)
      → IsDone m
      → IsDone (mark node black m)
  mark_black-IsDone node m is deps h = record {
    closed = λ x d now e. elim (update-cases m.color node black d) [
      | inl (same, here) ↦ here
      | inr (other, here) ↦ elim (update-cases m.color node black x) [
        | inl (same, _) ↦ here ∙ deps d (ap (λ y. mem d (adj y)) same ∙ e)
        | inr (_, still) ↦ here ∙ h.closed x d (sym still ∙ now) e
      ]
    ];
    clean = λ x now. elim (update-cases m.color node black x) [
      | inl (same, _) ↦ subst (λ y. ¬ Reaches adj y y) same (gray_clean node m h is deps)
      | inr (_, still) ↦ h.clean x (sym still ∙ now)
    ];
  }

  -- The marks of a step that is gray while its dependencies are searched, then black.
  pub bracket-Clear :
      (node : Name) (m m' : Marks)
      → m.color node ≡ white
      → Clear (mark node gray m) m'
      → ((d : Name) → mem d (adj node) ≡ true → m'.color d ≡ black)
      → Clear m (mark node black m')
  bracket-Clear node m m' fresh c deps = record {
    cycles_same = c.cycles_same;
    gray_before = λ x now. elim (update-cases m'.color node black x) [
      | inl (same, here) ↦ absurd (cc)
      | inr (other, here) ↦ elim (update-cases m.color node gray x) [
        | inl (same, _) ↦ absurd (let t = text_eq_refl node in cc)
        | inr (_, still) ↦ sym still ∙ c.gray_before x (sym here ∙ now)
      ]
    ];
    gray_after = λ x was. elim (update-cases m'.color node black x) [
      | inl (same, here) ↦ absurd (let first = ap m.color same in cc)
      | inr (other, here) ↦
          here
          ∙ c.gray_after x (elim (update-cases m.color node gray x) [
            | inl (_, now) ↦ now
            | inr (_, still) ↦ still ∙ was
          ])
    ];
    black_after = λ x was. elim (update-cases m'.color node black x) [
      | inl (same, here) ↦ here
      | inr (other, here) ↦
          here
          ∙ c.black_after x (elim (update-cases m.color node gray x) [
            | inl (same, _) ↦ absurd (let first = ap m.color same in cc)
            | inr (_, still) ↦ still ∙ was
          ])
    ];
    done_after = λ h.
        mark_black-IsDone node m' (c.gray_after node (update_self m.color node gray)) deps
          (c.done_after (mark_gray-IsDone node m fresh h));
  }
