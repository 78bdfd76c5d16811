-- ===== src/Graph/Permute/Picks.antt =====
-- Which permutations the expansion of layer groups lists (graph/permute.go).
use aat.Base.{
  some_injective, List, [], ◌∷◌, ◌++◌, map, Option, none, some, ◌≡◌, refl, sym, ap, ◌∙◌, subst, ◌⊎◌,
  inl, inr, ◌↔◌, append-nil, append_assoc, arith,
}
use aat.Graph.Names.{Name}
use aat.Graph.Permute.{
  LayerPermutation, permutation_label, extend, append_each, expand, expand_all, selected,
  permutation_of, generate_layer_permutations,
}

abbrev pub In : {A : Type 0} → A → List A → Type 0
In a [] = ⊥
In a (x ∷ xs) = (x ≡ a) ⊎ In a xs

-- `layers` has at most one name of each group, in the order of the groups.
abbrev pub Picks : List (List Name) → List Name → Type 0
Picks [] layers = layers ≡ []
Picks (group ∷ groups) layers =
    Picks groups layers
    ⊎ (l : Name) × (rest : List Name) × (layers ≡ l ∷ rest) × In l group × Picks groups rest

module _ {A : Type 0} where
  In-append : (a : A) (xs ys : List A) → In a (xs ++ ys) → In a xs ⊎ In a ys
  In-append a [] ys h = inr h
  In-append a (x ∷ xs) ys (inl e) = inl (inl e)
  In-append a (x ∷ xs) ys (inr h) = elim (In-append a xs ys h) [
    | inl k ↦ inl (inr k)
    | inr k ↦ inr k
  ]

  In-append_left : (a : A) (xs ys : List A) → In a xs → In a (xs ++ ys)
  In-append_left a [] ys h = absurd h
  In-append_left a (x ∷ xs) ys (inl e) = inl e
  In-append_left a (x ∷ xs) ys (inr h) = inr (In-append_left a xs ys h)

  In-append_right : (a : A) (xs ys : List A) → In a ys → In a (xs ++ ys)
  In-append_right a [] ys h = h
  In-append_right a (x ∷ xs) ys h = inr (In-append_right a xs ys h)

In-map :
    {A B : Type 0} (f : A → B) (b : B) (xs : List A)
    → In b (map f xs)
    → (a : A) × In a xs × (f a ≡ b)
In-map f b [] h = absurd h
In-map f b (x ∷ xs) (inl e) = (x, inl refl, e)
In-map f b (x ∷ xs) (inr h) = let (a, m, e) = In-map f b xs h in (a, inr m, e)

In-map_of : {A B : Type 0} (f : A → B) (a : A) (xs : List A) → In a xs → In (f a) (map f xs)
In-map_of f a [] h = absurd h
In-map_of f a (x ∷ xs) (inl e) = inl (ap f e)
In-map_of f a (x ∷ xs) (inr h) = inr (In-map_of f a xs h)

module _ {E : Type 0} where
  -- A combination takes one entry of each group.
  abbrev Fits : List (List E) → List E → Type 0
  Fits [] [] = Unit
  Fits (g ∷ gs) (e ∷ es) = In e g × Fits gs es
  Fits _ _ = ⊥

  append_each-In :
      (c existing group : List E)
      → In c (append_each existing group)
      → (e : E) × In e group × (existing ++ e ∷ [] ≡ c)
  unfolding append_each
  append_each-In c existing [] h = absurd h
  append_each-In c existing (e ∷ group) (inl same) = (e, inl refl, same)
  append_each-In c existing (e ∷ group) (inr h) =
      let (f, m, same) = append_each-In c existing group h in (f, inr m, same)

  In-append_each :
      (existing group : List E) (e : E)
      → In e group
      → In (existing ++ e ∷ []) (append_each existing group)
  unfolding append_each
  In-append_each existing [] e h = absurd h
  In-append_each existing (f ∷ group) e (inl same) = inl (ap (λ x. existing ++ x ∷ []) same)
  In-append_each existing (f ∷ group) e (inr h) = inr (In-append_each existing group e h)

  expand-In :
      (c : List E) (product : List (List E)) (group : List E)
      → In c (expand product group)
      → (b : List E) × (e : E) × In b product × In e group × (b ++ e ∷ [] ≡ c)
  unfolding expand
  expand-In c [] group h = absurd h
  expand-In c (b ∷ product) group h =
      elim (In-append c (append_each b group) (expand product group) h) [
        | inl here ↦ let (e, m, same) = append_each-In c b group here in (b, e, inl refl, m, same)
        | inr later ↦
            let (b', e, m, k, same) = expand-In c product group later in (b', e, inr m, k, same)
      ]

  In-expand :
      (b : List E) (e : E) (product : List (List E)) (group : List E)
      → In b product
      → In e group
      → In (b ++ e ∷ []) (expand product group)
  unfolding expand
  In-expand b e [] group h k = absurd h
  In-expand b e (c ∷ product) group (inl same) k =
      In-append_left (b ++ e ∷ []) (append_each c group) (expand product group)
        (subst (λ x. In (x ++ e ∷ []) (append_each c group)) same (In-append_each c group e k))
  In-expand b e (c ∷ product) group (inr h) k =
      In-append_right (b ++ e ∷ []) (append_each c group) (expand product group)
        (In-expand b e product group h k)

  expand_all-Fits :
      (c : List E) (groups product : List (List E))
      → In c (expand_all groups product)
      → (b : List E) × (r : List E) × In b product × Fits groups r × (b ++ r ≡ c)
  unfolding expand_all
  expand_all-Fits c [] product h = (c, [], h, tt, append-nil c)
  expand_all-Fits c (g ∷ gs) product h =
      let (b, r, m, fits, same) = expand_all-Fits c gs (expand product g) h in
      let (b', e, k, in_group, whole) = expand-In b product g m in
      (
        b',
        e ∷ r,
        k,
        (in_group, fits),
        sym (append_assoc b' (e ∷ []) r) ∙ ap (λ x. x ++ r) whole ∙ same,
      )

  Fits-expand_all :
      (b r : List E) (groups product : List (List E))
      → In b product
      → Fits groups r
      → In (b ++ r) (expand_all groups product)
  unfolding expand_all
  Fits-expand_all b [] [] product h fits = subst (λ x. In x product) (sym (append-nil b)) h
  Fits-expand_all b (e ∷ r) [] product h fits = absurd fits
  Fits-expand_all b [] (g ∷ gs) product h fits = absurd fits
  Fits-expand_all b (e ∷ r) (g ∷ gs) product h (m, fits) =
      subst (λ x. In x (expand_all gs (expand product g))) (append_assoc b (e ∷ []) r)
        (Fits-expand_all (b ++ e ∷ []) r gs (expand product g) (In-expand b e product g h m) fits)

Fits-Picks :
    (groups : List (List Name)) (r : List (Option Name))
    → Fits (map extend groups) r
    → Picks groups (selected r)
Fits-Picks [] [] h = refl
Fits-Picks [] (e ∷ r) h = absurd h
Fits-Picks (g ∷ gs) [] h = absurd h
Fits-Picks (g ∷ gs) (none ∷ r) (m, h) = inl (Fits-Picks gs r h)
Fits-Picks (g ∷ gs) (some l ∷ r) (inl e, h) = absurd (cc)
Fits-Picks (g ∷ gs) (some l ∷ r) (inr m, h) =
    let (k, in_group, same) = In-map some (some l) g m in
    inr (
      l,
      selected r,
      refl,
      subst (λ x. In x g) (some_injective k l same) in_group,
      Fits-Picks gs r h,
    )

Picks-Fits :
    (groups : List (List Name)) (layers : List Name)
    → Picks groups layers
    → (r : List (Option Name)) × Fits (map extend groups) r × (selected r ≡ layers)
Picks-Fits [] layers h = ([], tt, sym h)
Picks-Fits (g ∷ gs) layers (inl h) =
    let (r, fits, same) = Picks-Fits gs layers h in (none ∷ r, (inl refl, fits), same)
Picks-Fits (g ∷ gs) layers (inr (l, rest, e, m, h)) =
    let (r, fits, same) = Picks-Fits gs rest h in
    (some l ∷ r, (inr (In-map_of some l g m), fits), ap (λ x. l ∷ x) same ∙ sym e)

abbrev IsPermutation : List (List Name) → LayerPermutation → Type 0
IsPermutation groups p = Picks groups p.layers × (p.label ≡ permutation_label p.layers)

combined : List (List Name) → List LayerPermutation
combined groups = map permutation_of (expand_all (map extend groups) ([] ∷ []))

combined-IsPermutation :
    (groups : List (List Name)) (p : LayerPermutation)
    → In p (combined groups) ↔ IsPermutation groups p
unfolding combined
combined-IsPermutation groups p = (
  λ h.
      let (c, m, made) = In-map permutation_of p (expand_all (map extend groups) ([] ∷ [])) h in
      let (b, r, at_start, fits, whole) = expand_all-Fits c (map extend groups) ([] ∷ []) m in
      subst (IsPermutation groups) made (
        subst (λ x. Picks groups (selected x)) (from_start b r at_start ∙ whole)
            (Fits-Picks groups r fits),
        refl,
      ),
  λ h.
      let (r, fits, same) = Picks-Fits groups p.layers h.0 in
      subst (λ q. In q (map permutation_of (expand_all (map extend groups) ([] ∷ []))))
        (rebuilt r same h.1)
        (In-map_of permutation_of r (expand_all (map extend groups) ([] ∷ []))
          (Fits-expand_all [] r (map extend groups) ([] ∷ []) (inl refl) fits)),
)
  where
    from_start : (b r : List (Option Name)) → In b ([] ∷ []) → r ≡ b ++ r
    from_start b r (inl e) = ap (λ x. x ++ r) e
    from_start b r (inr h) = absurd h

    rebuilt :
        (r : List (Option Name))
        → selected r ≡ p.layers
        → p.label ≡ permutation_label p.layers
        → permutation_of r ≡ p
    rebuilt r same labelled = ground (arith, same, labelled)

-- The permutations are those that pick at most one layer of each group, in the order of the groups,
-- each with its label, where the sort only rearranges them.
pub generate_layer_permutations-Picks :
    (sort : List LayerPermutation → List LayerPermutation) (groups : List (List Name))
    (p : LayerPermutation)
    → ((ps : List LayerPermutation) (p : LayerPermutation) → In p (sort ps) ↔ In p ps)
    → In p (generate_layer_permutations sort groups)
      ↔ (Picks groups p.layers × (p.label ≡ permutation_label p.layers))
unfolding generate_layer_permutations combined
generate_layer_permutations-Picks sort [] p sorts = combined-IsPermutation [] p
generate_layer_permutations-Picks sort (g ∷ gs) p sorts =
    let listed = combined-IsPermutation (g ∷ gs) p in
    let sorted = sorts (combined (g ∷ gs)) p in
    (λ h. listed.0 (sorted.0 h), λ h. sorted.1 (listed.1 h))
