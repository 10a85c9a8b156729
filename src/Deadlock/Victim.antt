-- ===== src/Deadlock/Victim.antt =====
-- The transaction that `GetVictim` (DeadLockDector.cpp) names.
use altas_dbpro.Prelude.{
  ◌≡◌, refl, ◌⊎◌, inl, inr, Bool, true, false, Option, none, some, List, [], ◌∷◌, ◌++◌, arith,
  Bool-cases, sym, ◌∙◌, subst, if◌then◌else◌,
}
use altas_dbpro.Prelude.Ints.{ℤ, int_eq, ltb_ℤ, ◌≤ℤ◌, not_ltb_ℤ, ltb_ℤ_le, ≤ℤ_refl, ≤ℤ_trans}
use altas_dbpro.Prelude.Sets.{mem, mem-cons, mem-append}
use altas_dbpro.Deadlock.{WaitGraph, detect_cycle, max_txn, pick, get_victim}
use altas_dbpro.Deadlock.Walks.{Reach, Walk, IsCycle, Walk-Reach, Walk-Reach_mid, Reach-trans}
use altas_dbpro.Deadlock.Correct.{IsAcyclic, Verdict, detect_cycle_decides}

-- No transaction of the list is greater.
abbrev pub AllLe : ℤ → List ℤ → Type 0
AllLe t [] = Unit
AllLe t (u ∷ us) = (u ≤ℤ t) × AllLe t us

AllLe-trans : (t t' : ℤ) (us : List ℤ) → t ≤ℤ t' → AllLe t us → AllLe t' us
AllLe-trans t t' [] h a = tt
AllLe-trans t t' (u ∷ us) h a = (≤ℤ_trans u t t' a.0 h, AllLe-trans t t' us h a.1)

greater : ℤ → ℤ → ℤ
greater v t = if ltb_ℤ v t then t else v

greater_lem :
    (v t : ℤ) → (v ≤ℤ greater v t) × (t ≤ℤ greater v t) × ((greater v t ≡ t) ⊎ (greater v t ≡ v))
unfolding greater
greater_lem v t = elim (Bool-cases (ltb_ℤ v t)) [
  | inl lt ↦ rw (lt, greater) (ltb_ℤ_le v t lt, ≤ℤ_refl t, inl refl)
  | inr ge ↦ rw (ge, greater) (≤ℤ_refl v, not_ltb_ℤ v t ge, inr refl)
]

-- The scan ends with an upper bound that it has met.
max_txn_lem :
    (v : ℤ) (us : List ℤ)
    → (v ≤ℤ max_txn v us)
      × AllLe (max_txn v us) us
      × ((max_txn v us ≡ v) ⊎ (mem (max_txn v us) us ≡ true))
unfolding max_txn greater
max_txn_lem v [] = (≤ℤ_refl v, tt, inl refl)
max_txn_lem v (u ∷ us) =
    let (below, all, here) = max_txn_lem (greater v u) us in
    let (left, right, either) = greater_lem v u in
    (
      ≤ℤ_trans v (greater v u) _ left below,
      (≤ℤ_trans u (greater v u) _ right below, all),
      elim here [
        | inr later ↦ inr ((mem-cons _ u us).1 (inr later))
        | inl e ↦ elim either [
          | inl new ↦ inr ((mem-cons _ u us).1 (inl (sym new ∙ sym e)))
          | inr old ↦ inl (e ∙ old)
        ]
      ],
    )

-- Each transaction of a cycle waits for itself.
IsCycle-mem : (g : WaitGraph) (l : List ℤ) (t : ℤ) → IsCycle g l → mem t l ≡ true → Reach g t t
IsCycle-mem g l t (x, mid, e, w) m = elim ((mem-cons t x _).0 (rw e at m)) [
  | inl same ↦ rw (← same) around
  | inr later ↦ elim (Bool-cases (mem t mid)) [
    | inl inside ↦ let (p, q) = Walk-Reach_mid g x x t mid walk inside in Reach-trans g q p
    | inr outside ↦ rw (← last later outside) around
  ]
]
  where
    walk : Walk g (x ∷ (mid ++ x ∷ []))
    walk = subst (Walk g) e w

    around : Reach g x x
    around = Walk-Reach g x x mid walk

    last : mem t (mid ++ x ∷ []) ≡ true → mem t mid ≡ false → x ≡ t
    last later outside = elim ((mem-cons t x []).0 (rw (mem-append, outside) at later)) [
      | inl p ↦ p
      | inr none_left ↦ absurd (unfold mem in (ground arith))
    ]

-- What `GetVictim` answers: nothing on a graph without a cycle, and else the greatest transaction of
-- the cycle that `DetectCycle` reports.
abbrev pub Victim : WaitGraph → Option ℤ → Type 0
Victim g none = (c : List ℤ) × (detect_cycle g ≡ some (false, c)) × IsAcyclic g
Victim g (some t) =
    (c : List ℤ) × (detect_cycle g ≡ some (true, c)) × (mem t c ≡ true) × AllLe t c × Reach g t t

pick-Victim :
    (g : WaitGraph) (found : Bool) (c : List ℤ)
    → detect_cycle g ≡ some (found, c)
    → Verdict g found c
    → Victim g (pick found c)
pick-Victim g false c e (inl (p, _)) = absurd (ground arith)
pick-Victim g false c e (inr (_, acyclic)) = (c, e, acyclic)
pick-Victim g true c e (inr (p, _)) = absurd (ground arith)
pick-Victim g true [] e (inl (_, (x, mid, p, w))) = absurd (ground arith)
pick-Victim g true (t ∷ ts) e (inl (_, cycle)) =
    let (_, all, here) = max_txn_lem t (t ∷ ts) in
    let on : mem (max_txn t (t ∷ ts)) (t ∷ ts) ≡ true = elim here [
      | inl same ↦ (mem-cons _ t ts).1 (inl (sym same))
      | inr m ↦ m
    ] in
    (t ∷ ts, e, on, all, IsCycle-mem g (t ∷ ts) _ cycle on)

-- `GetVictim` returns on every graph. If it names a transaction, that is the greatest one of the
-- cycle that `DetectCycle` reports, and it waits, directly or through others, for itself; if it
-- names none, the graph has no cycle.
pub get_victim_lem : (g : WaitGraph) → (v : Option ℤ) × (get_victim g ≡ some v) × Victim g v
unfolding get_victim
get_victim_lem g =
    let (found, c, e, v) = detect_cycle_decides g in
    (pick found c, rw (e, get_victim) refl, pick-Victim g found c e v)
