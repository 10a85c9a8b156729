-- ===== src/Deadlock/Correct.antt =====
-- The answers of `HasDeadlock` and `DetectCycle` (DeadLockDector.cpp): the loop over the keys.
use altas_dbpro.Prelude.{
  ℕ, ◌<◌, ◌≡◌, refl, ◌∙◌, ap, ◌⊎◌, inl, inr, ◌↔◌, Bool, true, false, some, List, [], ◌∷◌, arith,
  if◌then◌else◌, Bool-cases, Option-cases, subst,
}
use mathlib.Core.Logic.{∥∥₁_elim}
use altas_dbpro.Prelude.Ints.{ℤ, int_eq, eqb_ℤ, eqb_ℤ_iff}
use altas_dbpro.Prelude.Sets.{mem}
use altas_dbpro.Prelude.Maps.{find}
use altas_dbpro.Deadlock.{
  WaitGraph, SearchState, waits_for, dfs_cycle, each_root, search_fuel, unsearched, detect_cycle,
  has_deadlock,
}
use altas_dbpro.Deadlock.Walks.{Edge, Reach, one, more, Walk, IsCycle, Walk-Reach}
use altas_dbpro.Deadlock.Ghost.{fresh, Topo-acyclic, fresh-le, fresh-le-length, Includes}
use altas_dbpro.Deadlock.Search.{Ready, Clean, dfs_cycle-Searches}

abbrev pub IsAcyclic : WaitGraph → Type 0
IsAcyclic g = (u : ℤ) → ¬ Reach g u u

module _ (g : WaitGraph) (fuel : ℕ) where
  -- Between two roots the stack and the path are empty.
  record AtRoot (s : SearchState) (finished : List ℤ) : Type 0 where
    ready : Ready g s finished
    path_empty : s.path ≡ []
    rec_empty : s.rec_stack ≡ []
    budget : fresh g s.visited < fuel

  each_root-skip :
      (k : ℤ) (vs : List ℤ) (rest : WaitGraph) (s : SearchState)
      → mem k s.visited ≡ true
      → each_root g fuel ((k, vs) ∷ rest) s ≡ each_root g fuel rest s
  unfolding each_root
  each_root-skip k vs rest s p = rw (p, each_root) refl

  each_root-call :
      (k : ℤ) (vs : List ℤ) (rest : WaitGraph) (s t : SearchState) (found : Bool)
      → mem k s.visited ≡ false
      → dfs_cycle g fuel k s ≡ some (found, t)
      → each_root g fuel ((k, vs) ∷ rest) s
        ≡ (if found then some (true, t) else each_root g fuel rest t)
  unfolding each_root
  each_root-call k vs rest s t true p q = rw (p, each_root) (rw (q, each_root) refl)
  each_root-call k vs rest s t false p q = rw (p, each_root) (rw (q, each_root) refl)

  -- The keys of `rest` are finished, or a cycle was found.
  abbrev Roots : WaitGraph → List ℤ → Bool × SearchState → Type 0
  Roots rest before (found, t) =
      ((found ≡ true) × IsCycle g t.cycle)
      ⊎ ((found ≡ false)
          × ((finished : List ℤ) × AtRoot t finished
              × Includes finished before
              × ((k : ℤ) (vs : List ℤ) → find k rest ≡ some vs → mem k finished ≡ true)))

  find_root :
      (k j : ℤ) (vs : List ℤ) (rest : WaitGraph) (finished : List ℤ)
      → mem k finished ≡ true
      → ((j : ℤ) (ws : List ℤ) → find j rest ≡ some ws → mem j finished ≡ true)
      → (ws : List ℤ) → find j ((k, vs) ∷ rest) ≡ some ws
      → mem j finished ≡ true
  unfolding find
  find_root k j vs rest finished m all ws e = elim (Bool-cases (eqb_ℤ k j)) [
    | inl same ↦ rw (← (eqb_ℤ_iff k j).0 same) m
    | inr other ↦ all j ws (rw other at e)
  ]

  each_root-Roots :
      (rest : WaitGraph) (s : SearchState) (before : List ℤ)
      → AtRoot s before
      → (found : Bool) × (t : SearchState) × (each_root g fuel rest s ≡ some (found, t))
        × Roots rest before (found, t)
  each_root-Roots [] s before h = (
    false,
    s,
    unfold each_root in refl,
    inr (refl, (before, h, λ v m. m, λ k vs e. absurd (unfold find in (ground arith)))),
  )
  each_root-Roots ((k, vs) ∷ rest) s before h = elim (Bool-cases (mem k s.visited)) [
    | inl seen ↦
        let (found, t, e, post) = each_root-Roots rest s before h in
        (
          found,
          t,
          each_root-skip k vs rest s seen ∙ e,
          elim post [
            | inl c ↦ inl c
            | inr (no_cycle, (finished, at, grows, all)) ↦ inr (
              no_cycle,
              (
                finished,
                at,
                grows,
                λ j ws. find_root k j vs rest finished (grows k (done seen)) all ws,
              ),
            )
          ],
        )
    | inr unseen ↦
        let (found, t, e, post) =
          dfs_cycle-Searches g fuel k s before h.ready unseen (rw h.path_empty tt) h.budget in
        elim post [
          | inl (yes_found, c) ↦ (
            true,
            t,
            rw (each_root-call k vs rest s t found unseen e, yes_found) refl,
            inl (refl, c),
          )
          | inr (not_found, clean) ↦
              let (found', t', e', post') =
                each_root-Roots rest t clean.finished (root_again t clean) in
              (
                found',
                t',
                rw (each_root-call k vs rest s t found unseen e, not_found) e',
                elim post' [
                  | inl c ↦ inl c
                  | inr (no_cycle, (finished, at, grows, all)) ↦ inr (
                    no_cycle,
                    (
                      finished,
                      at,
                      λ v m. grows v (clean.finished_grows v m),
                      λ j ws. find_root k j vs rest finished (grows k clean.mine) all ws,
                    ),
                  )
                ],
              )
        ]
  ]
    where
      done : mem k s.visited ≡ true → mem k before ≡ true
      done seen = elim ((h.ready.split k).0 seen) [
        | inl m ↦ absurd (unfold mem in (ground (arith, ap (mem k) h.rec_empty)))
        | inr m ↦ m
      ]

      root_again : (t : SearchState) (c : Clean g k s t before) → AtRoot t c.finished
      root_again t c = record {
        ready = c.ready;
        path_empty = c.path_same ∙ h.path_empty;
        rec_empty = c.rec_same ∙ h.rec_empty;
        budget = omega (arith, h.budget, fresh-le g _ _ c.seen_grows);
      }

Edge-key : (g : WaitGraph) (u v : ℤ) → Edge g u v → (vs : List ℤ) × (find u g ≡ some vs)
unfolding waits_for mem
Edge-key g u v e = elim (Option-cases (find u g)) [
  | inl missing ↦ absurd (ground arith)
  | inr (vs, f) ↦ (vs, f)
]

Reach-key : (g : WaitGraph) {u v : ℤ} → Reach g u v → (vs : List ℤ) × (find u g ≡ some vs)
Reach-key g {u} (one {v} e) = Edge-key g u v e
Reach-key g (more r e) = Reach-key g r

abbrev pub Verdict : WaitGraph → Bool → List ℤ → Type 0
Verdict g found c = ((found ≡ true) × IsCycle g c) ⊎ ((found ≡ false) × IsAcyclic g)

search_outcome :
    (g : WaitGraph)
    → (found : Bool) × (t : SearchState) × (each_root g (search_fuel g) g unsearched
        ≡ some (found, t))
      × Verdict g found t.cycle
search_outcome g =
    let (found, t, e, post) = each_root-Roots g (search_fuel g) g unsearched [] start in
    (
      found,
      t,
      e,
      elim post [
        | inl c ↦ inl c
        | inr (no_cycle, (finished, at, _, all)) ↦ inr (
          no_cycle,
          λ u r.
              let (vs, f) = Reach-key g r in Topo-acyclic g finished at.ready.topo (all u vs f) r,
        )
      ],
    )
  where
    start : AtRoot g (search_fuel g) unsearched []
    start = record {
      ready = record { split = λ v. unfold mem in (ground arith); topo = tt; on_path = λ v m. m };
      path_empty = refl;
      rec_empty = refl;
      budget = omega (arith, fresh-le-length g []);
    }

-- `DetectCycle` returns on every graph. It answers true with a list of transactions, each waiting
-- for the next, whose last is its first; or it answers false and no transaction waits, directly or
-- through others, for itself.
pub detect_cycle_decides :
    (g : WaitGraph)
    → (found : Bool) × (c : List ℤ) × (detect_cycle g ≡ some (found, c)) × Verdict g found c
unfolding detect_cycle
detect_cycle_decides g =
    let (found, t, e, v) = search_outcome g in (found, t.cycle, rw (e, detect_cycle) refl, v)

abbrev pub HasCycle : WaitGraph → Type 0
HasCycle g = ∥ ((u : ℤ) × Reach g u u) ∥₁

IsCycle-Reach : (g : WaitGraph) (l : List ℤ) (c : IsCycle g l) → Reach g c.0 c.0
IsCycle-Reach g l (x, mid, e, w) = Walk-Reach g x x mid (subst (Walk g) e w)

-- `HasDeadlock` returns on every graph, and it answers true if and only if some transaction waits,
-- directly or through others, for itself.
pub has_deadlock_iff :
    (g : WaitGraph) → (b : Bool) × (has_deadlock g ≡ some b) × ((b ≡ true) ↔ HasCycle g)
unfolding has_deadlock
has_deadlock_iff g =
    let (found, t, e, v) = search_outcome g in
    (
      found,
      rw (e, has_deadlock) refl,
      elim v [
        | inl (yes_found, c) ↦ (λ _. ∣ (c.0, IsCycle-Reach g t.cycle c) ∣₁, λ _. yes_found)
        | inr (not_found, acyclic) ↦ (
          λ h. absurd (ground arith),
          λ c. absurd (∥∥₁_elim c (λ a. absurd a) (λ (u, r). acyclic u r)),
        )
      ],
    )
