-- ===== src/Deadlock/Ghost.antt =====
-- What the correctness of `DFSCycle` (DeadLockDector.cpp) needs beyond its state: the order in which
-- nodes are finished, and the number of keys that were not visited yet.
use altas_dbpro.Prelude.{
  ℕ, suc, ◌≤◌, ◌<◌, ◌≡◌, inl, inr, true, false, some, List, [], ◌∷◌, arith, if◌then◌else◌, length,
}
use altas_dbpro.Prelude.Ints.{ℤ, int_eq, eqb_ℤ_iff}
use altas_dbpro.Prelude.Sets.{mem, insert, mem-cons, mem-insert}
use altas_dbpro.Prelude.Maps.{find}
use altas_dbpro.Deadlock.{WaitGraph}
use altas_dbpro.Deadlock.Walks.{Edge, Reach, one, more}

-- The latest finished first: each node waits only for nodes that were finished before it.
abbrev pub Topo : WaitGraph → List ℤ → Type 0
Topo g [] = Unit
Topo g (u ∷ us) = ((v : ℤ) → Edge g u v → mem v us ≡ true) × Topo g us

module _ (g : WaitGraph) where
  Topo-Edge : (us : List ℤ) (u v : ℤ) → Topo g us → mem u us ≡ true → Edge g u v → mem v us ≡ true
  Topo-Edge [] u v t m e = absurd (unfold mem in (ground arith))
  Topo-Edge (x ∷ us) u v t m e = elim ((mem-cons u x us).0 m) [
    | inl same ↦ (mem-cons v x us).1 (inr (t.0 v (subst_edge v same e)))
    | inr later ↦ (mem-cons v x us).1 (inr (Topo-Edge us u v t.1 later e))
  ]
    where
      subst_edge : {a b : ℤ} (c : ℤ) → a ≡ b → Edge g b c → Edge g a c
      subst_edge c p e = rw p e

  Topo-Reach : (us : List ℤ) {u v : ℤ} → Topo g us → mem u us ≡ true → Reach g u v → mem v us ≡ true
  Topo-Reach us {u} t m (one {v} e) = Topo-Edge us u v t m e
  Topo-Reach us t m (more {v} {w} r e) = Topo-Edge us v w t (Topo-Reach us t m r) e

  -- No finished node lies on a cycle.
  pub Topo-acyclic : (us : List ℤ) {u : ℤ} → Topo g us → mem u us ≡ true → ¬ Reach g u u
  Topo-acyclic [] t m r = absurd (unfold mem in (ground arith))
  Topo-acyclic (x ∷ us) {u} t m r = elim ((mem-cons u x us).0 m) [
    | inl same ↦ Topo-acyclic us t.1 (below same r) r
    | inr later ↦ Topo-acyclic us t.1 later r
  ]
    where
      below : {w v : ℤ} → x ≡ w → Reach g w v → mem v us ≡ true
      below {w} p (one {v} e) = t.0 v (rw p e)
      below p (more {v} {w} q e) = Topo-Edge us v w t.1 (below p q) e

-- The keys that are not in `visited`.
pub fresh : WaitGraph → List ℤ → ℕ
fresh [] visited = 0
fresh ((k, vs) ∷ g) visited = if mem k visited then fresh g visited else suc (fresh g visited)

abbrev pub Includes : List ℤ → List ℤ → Type 0
Includes ys xs = (v : ℤ) → mem v xs ≡ true → mem v ys ≡ true

pub fresh-le : (g : WaitGraph) (xs ys : List ℤ) → Includes ys xs → fresh g ys ≤ fresh g xs
unfolding fresh
fresh-le [] xs ys h = omega arith
fresh-le ((k, vs) ∷ g) xs ys h = ground (arith, h k, fresh-le g xs ys h)

Includes-insert : (node : ℤ) (xs : List ℤ) → Includes (insert node xs) xs
Includes-insert node xs v h = rw mem-insert (ground arith)

-- A key that is entered for the first time leaves fewer.
pub fresh-insert :
    (g : WaitGraph) (node : ℤ) (xs vs : List ℤ)
    → mem node xs ≡ false
    → find node g ≡ some vs
    → fresh g (insert node xs) < fresh g xs
unfolding fresh find
fresh-insert [] node xs vs h f = absurd (ground arith)
fresh-insert ((k, ws) ∷ g) node xs vs h f = ground (
  arith,
  fresh-insert g node xs vs h,
  fresh-le g xs (insert node xs) (Includes-insert node xs),
  mem-insert k node xs,
  eqb_ℤ_iff k node,
  eqb_ℤ_iff node k,
)

pub fresh-le-length : (g : WaitGraph) (xs : List ℤ) → fresh g xs ≤ length g
unfolding fresh
fresh-le-length [] xs = omega arith
fresh-le-length ((k, vs) ∷ g) xs = ground (arith, fresh-le-length g xs)
