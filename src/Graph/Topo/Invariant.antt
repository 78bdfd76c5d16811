-- ===== src/Graph/Topo/Invariant.antt =====
-- What the loops of `chainTopoSort` keep.
use aat.Base.{
  ℕ, ◌-◌, ◌+◌, List, [], ◌∷◌, true, false, ◌&&◌, ◌≡◌, refl, if◌then◌else◌, ◌==◌, leb, arith,
}
use aat.Base.Text.{text_eq→eq, text_eq_refl}
use aat.Graph.Names.{
  Name, mem, add_name, occ, one_if, IsSetOf, mem-occ, not_mem-occ, insert_sorted, occ-append,
  occ-insert_sorted,
}
use aat.Graph.Topo.{Degrees, update, no_edges, relax}
use aat.Graph.Topo.Count.{preds, preds-add, mem-update}

-- The inner loop lowers the degree of each neighbor by one, and queues those that reach 0.
pub relax-deg :
    (deg : Name → ℕ) (queue ns : List Name) (v : Name)
    → IsSetOf ns
    → (relax deg queue ns).0 v ≡ deg v - one_if (mem v ns)
unfolding relax
relax-deg deg queue [] v h = omega arith
relax-deg deg queue (n ∷ ns) v h = ground (
  arith,
  relax-deg (update deg n (deg n - 1))
      (if update deg n (deg n - 1) n == 0 then insert_sorted queue n else queue) ns v
      (λ w. omega (arith, h w)),
  text_eq→eq n v,
  h v,
  mem-occ v ns,
)

pub relax-occ :
    (deg : Name → ℕ) (queue ns : List Name) (v : Name)
    → IsSetOf ns
    → occ v (relax deg queue ns).1 ≡ occ v queue + one_if (mem v ns && leb (deg v) 1)
unfolding relax
relax-occ deg queue [] v h = omega arith
relax-occ deg queue (n ∷ ns) v h = ground (
  arith,
  relax-occ (update deg n (deg n - 1))
      (if update deg n (deg n - 1) n == 0 then insert_sorted queue n else queue) ns v
      (λ w. omega (arith, h w)),
  text_eq→eq n v,
  text_eq_refl n,
  h v,
  mem-occ v ns,
  occ-insert_sorted v queue n,
)

-- What `addEdge` keeps of the two maps.
pub record IsCounted (nodes : List Name) (d : Degrees) : Type 0 where
  pub counted : (v : Name) → d.in_deg v ≡ preds d.adj [] nodes v
  pub sets : (u : Name) → IsSetOf (d.adj u)
  pub targets : (u v : Name) → mem v (d.adj u) ≡ true → mem v nodes ≡ true
  pub sources : (u v : Name) → mem v (d.adj u) ≡ true → mem u nodes ≡ true

pub no_edges-IsCounted : (nodes : List Name) → IsCounted nodes no_edges
no_edges-IsCounted nodes = record {
  counted = λ v. zero_preds nodes v;
  sets = λ u v. omega arith;
  targets = λ u v h. cc;
  sources = λ u v h. cc;
}
  where
    zero_preds : (us : List Name) (v : Name) → 0 ≡ preds (λ _. []) [] us v
    zero_preds [] v = refl
    zero_preds (x ∷ us) v = omega (arith, zero_preds us v)

module _ (nodes : List Name) (unique : IsSetOf nodes) (f t : Name) (d : Degrees)
    (c : IsCounted nodes d) (from_in : mem f nodes ≡ true) (to_in : mem t nodes ≡ true)
    (new : mem t (d.adj f) ≡ false) where
  abbrev adj' : Name → List Name
  adj' = update d.adj f (add_name t (d.adj f))

  counted' : (v : Name) → update d.in_deg t (d.in_deg t + 1) v ≡ preds adj' [] nodes v
  counted' v = ground (
    arith,
    c.counted v,
    preds-add d.adj nodes f t v new,
    text_eq→eq t v,
    unique f,
    mem-occ f nodes from_in,
  )

  sets' : (u : Name) → IsSetOf (adj' u)
  unfolding add_name
  sets' u v = ground (
    arith,
    c.sets u v,
    c.sets f v,
    occ-append v (d.adj f) (t ∷ []),
    not_mem-occ t (d.adj f) new,
    text_eq→eq t v,
  )

  targets' : (u v : Name) → mem v (adj' u) ≡ true → mem v nodes ≡ true
  targets' u v h = ground (arith, c.targets u v, mem-update d.adj f t v u, text_eq→eq t v)

  sources' : (u v : Name) → mem v (adj' u) ≡ true → mem u nodes ≡ true
  sources' u v h = ground (arith, c.sources u v, mem-update d.adj f t v u, text_eq→eq f u)

  pub new_edge-IsCounted :
      IsCounted nodes (record { adj = adj'; in_deg = update d.in_deg t (d.in_deg t + 1) })
  new_edge-IsCounted = record {
    counted = counted';
    sets = sets';
    targets = targets';
    sources = sources';
  }
