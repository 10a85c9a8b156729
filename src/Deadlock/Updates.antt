-- ===== src/Deadlock/Updates.antt =====
-- `AddEdge`, `RemoveEdge` and `RemoveTxn` (DeadLockDector.cpp), seen as operations on a set of edges.
use altas_dbpro.Prelude.{
  ◌≡◌, refl, ◌≢◌, ◌↔◌, ◌⊎◌, inl, inr, true, false, Option, none, some, List, [], ◌∷◌, arith,
  Bool-cases, Option-cases, ap, if◌then◌else◌, ◌==◌,
}
use altas_dbpro.Prelude.Ints.{ℤ, int_eq, eqb_ℤ_iff}
use altas_dbpro.Prelude.Sets.{mem, insert, erase, mem-insert, mem-erase}
use altas_dbpro.Prelude.Maps.{find, remove, find-put, find-remove, IsMap, remove-IsMap}
use altas_dbpro.Deadlock.{
  WaitGraph, waits_for, or_empty, is_empty, add_edge, remove_edge, erase_target, drop_empty,
  remove_txn,
}
use altas_dbpro.Deadlock.Walks.{Edge}

mem-is_empty : (vs : List ℤ) (v : ℤ) → is_empty vs ≡ true → mem v vs ≡ false
unfolding mem
mem-is_empty [] v h = refl
mem-is_empty (x ∷ vs) v h = absurd (ground arith)

-- `AddEdge(from, to)` adds exactly that edge.
pub add_edge-Edge :
    (g : WaitGraph) (from to u v : ℤ)
    → Edge (add_edge from to g) u v ↔ (Edge g u v ⊎ ((u ≡ from) × (v ≡ to)))
unfolding add_edge
add_edge-Edge g from to u v = ground (
  arith,
  find-put from u (insert to (or_empty (find from g))) g,
  mem-insert v to (or_empty (find from g)),
  eqb_ℤ_iff from u,
  eqb_ℤ_iff to v,
)

-- What is left of a set after `erase`, put back or dropped with its key.
remove_edge-waits_for :
    (g : WaitGraph) (from to u v : ℤ)
    → mem v (waits_for (remove_edge from to g) u)
      ≡ (if from == u then mem v (erase to (waits_for g from)) else mem v (waits_for g u))
unfolding remove_edge waits_for
remove_edge-waits_for g from to u v = elim (Option-cases (find from g)) [
  | inl missing ↦
      rw (missing, remove_edge)
        (unfold mem erase in
          (ground (arith, eqb_ℤ_iff from u, ap (λ o. mem v (or_empty o)) missing)))
  | inr (vs, e) ↦
      rw (e, remove_edge)
        (ground (
          arith,
          e,
          find-remove from u g,
          find-put from u (erase to vs) g,
          mem-is_empty (erase to vs) v,
          mem-is_empty [] v refl,
        ))
]

-- `RemoveEdge(from, to)` removes exactly that edge.
pub remove_edge-Edge :
    (g : WaitGraph) (from to u v : ℤ)
    → Edge (remove_edge from to g) u v ↔ (Edge g u v × ¬ ((u ≡ from) × (v ≡ to)))
remove_edge-Edge g from to u v = ground (
  arith,
  remove_edge-waits_for g from to u v,
  mem-erase v to (waits_for g from),
  eqb_ℤ_iff from u,
  eqb_ℤ_iff to v,
)

abbrev erased : ℤ → Option (List ℤ) → Option (List ℤ)
erased txn none = none
erased txn (some vs) = some (erase txn vs)

find-erase_target :
    (txn u : ℤ) (g : WaitGraph) → find u (erase_target txn g) ≡ erased txn (find u g)
unfolding erase_target find
find-erase_target txn u [] = refl
find-erase_target txn u ((k, vs) ∷ g) = ground (arith, find-erase_target txn u g)

erase_target-IsMap : (txn : ℤ) (g : WaitGraph) → IsMap g → IsMap (erase_target txn g)
unfolding erase_target
erase_target-IsMap txn [] w = tt
erase_target-IsMap txn ((k, vs) ∷ g) w =
    (rw (find-erase_target txn k g, w.0) refl, erase_target-IsMap txn g w.1)

find-drop_empty : (u : ℤ) (g : WaitGraph) → find u g ≡ none → find u (drop_empty g) ≡ none
unfolding drop_empty find
find-drop_empty u [] h = refl
find-drop_empty u ((k, vs) ∷ g) h = ground (arith, find-drop_empty u g)

drop_empty-IsMap : (g : WaitGraph) → IsMap g → IsMap (drop_empty g)
unfolding drop_empty
drop_empty-IsMap [] w = tt
drop_empty-IsMap ((k, vs) ∷ g) w = elim (Bool-cases (is_empty vs)) [
  | inl e ↦ rw e (drop_empty-IsMap g w.1)
  | inr e ↦ rw e (find-drop_empty k g w.0, drop_empty-IsMap g w.1)
]

-- Dropping empty sets changes no edge.
drop_empty-waits_for :
    (u v : ℤ) (g : WaitGraph) → IsMap g → mem v (waits_for (drop_empty g) u) ≡ mem v (waits_for g u)
unfolding drop_empty waits_for
drop_empty-waits_for u v [] w = refl
drop_empty-waits_for u v ((k, vs) ∷ g) w = ground (
  arith,
  drop_empty-waits_for u v g w.1,
  eqb_ℤ_iff k u,
  mem-is_empty vs v,
  mem-is_empty [] v refl,
)

-- On a graph without a repeated key `RemoveTxn(txn)` removes exactly the edges from and to `txn`, and
-- no key is repeated afterwards.
pub remove_txn-Edge :
    (g : WaitGraph) (txn u v : ℤ)
    → IsMap g
    → (Edge (remove_txn txn g) u v ↔ (Edge g u v × (u ≢ txn) × (v ≢ txn)))
      × IsMap (remove_txn txn g)
unfolding remove_txn
remove_txn-Edge g txn u v w =
    let kept = remove-IsMap txn g w in
    let cut = erase_target-IsMap txn (remove txn g) kept in
    (
      rw (drop_empty-waits_for u v (erase_target txn (remove txn g)) cut) (
          unfold waits_for in
          (ground (
            arith,
            find-erase_target txn u (remove txn g),
            find-remove txn u g,
            mem-erase v txn (or_empty (find u g)),
            mem-is_empty [] v refl,
            eqb_ℤ_iff txn u,
            eqb_ℤ_iff txn v,
          ))),
      drop_empty-IsMap (erase_target txn (remove txn g)) cut,
    )
