-- ===== src/Deadlock/Search.antt =====
-- `DFSCycle` (DeadLockDector.cpp) from any state of the search: it returns within its fuel, and what
-- it returns is a cycle, or the node with all that it reaches is finished.
use altas_dbpro.Prelude.{
  ℕ, zero, suc, ◌<◌, ◌≡◌, refl, sym, ◌∙◌, ap, ◌⊎◌, inl, inr, ◌↔◌, Bool, true, false, Option, some,
  List, [], ◌∷◌, ◌++◌, arith, Bool-cases, Option-cases, subst,
}
use altas_dbpro.Prelude.Ints.{ℤ, int_eq, eqb_ℤ_iff}
use altas_dbpro.Prelude.Sets.{mem, insert, erase, mem-cons, mem-insert, mem-append, erase_absent}
use altas_dbpro.Prelude.Maps.{find}
use altas_dbpro.Deadlock.{
  WaitGraph, SearchState, waits_for, enter, leave, report, each_edge, dfs_cycle, pop_back,
}
use altas_dbpro.Deadlock.Walks.{
  Edge, Walk, IsCycle, Walk-snoc, Walk-suffix, suffix_from-mem, suffix_from-append, pop_back-append,
}
use altas_dbpro.Deadlock.Ghost.{Topo, fresh, Includes, fresh-le, fresh-insert}

module _ (g : WaitGraph) where
  -- `finished` lists the nodes whose search is over, the latest first.
  pub record Ready (s : SearchState) (finished : List ℤ) : Type 0 where
    pub split :
        (v : ℤ) → (mem v s.visited ≡ true) ↔ ((mem v s.rec_stack ≡ true) ⊎ (mem v finished ≡ true))
    pub topo : Topo g finished
    pub on_path : (v : ℤ) → mem v s.rec_stack ≡ true → mem v s.path ≡ true

  -- What `return false` says of the state `t` after a search of `node` from `s`.
  pub record Clean (node : ℤ) (s t : SearchState) (before : List ℤ) : Type 0 where
    pub finished : List ℤ
    pub ready : Ready t finished
    pub mine : mem node finished ≡ true
    pub rec_same : t.rec_stack ≡ s.rec_stack
    pub path_same : t.path ≡ s.path
    pub seen_grows : Includes t.visited s.visited
    pub finished_grows : Includes finished before

  abbrev pub Post : ℤ → SearchState → List ℤ → Bool × SearchState → Type 0
  Post node s before (found, t) =
      ((found ≡ true) × IsCycle g t.cycle) ⊎ ((found ≡ false) × Clean node s t before)

  abbrev pub Searches : (ℤ → SearchState → Option (Bool × SearchState)) → ℕ → Type 0
  Searches call fuel =
      (node : ℤ) (s : SearchState) (before : List ℤ)
      → Ready s before
      → mem node s.visited ≡ false
      → Walk g (s.path ++ node ∷ [])
      → fresh g s.visited < fuel
      → (found : Bool) × (t : SearchState) × (call node s ≡ some (found, t))
        × Post node s before (found, t)

  -- The state inside `node`, whose frame was entered over the path `p` and the stack `r`.
  record Inside (node : ℤ) (p r : List ℤ) (s : SearchState) (finished : List ℤ) : Type 0 where
    ready : Ready s finished
    path_is : s.path ≡ p ++ node ∷ []
    rec_is : s.rec_stack ≡ node ∷ r
    new : mem node r ≡ false
    old_path : (v : ℤ) → mem v r ≡ true → mem v p ≡ true
    walk : Walk g (p ++ node ∷ [])

  -- A back edge closes a cycle.
  report-IsCycle :
      (node next : ℤ) (p r : List ℤ) (s : SearchState) (finished : List ℤ)
      → Inside node p r s finished
      → Edge g node next
      → mem next s.rec_stack ≡ true
      → IsCycle g (leave node (report next s)).cycle
  unfolding report leave
  report-IsCycle node next p r s finished h e m =
      let on = h.ready.on_path next m in
      let (mid, starts) = suffix_from-mem next s.path on in
      (
        next,
        mid,
        ap (λ l. l ++ next ∷ []) starts,
        subst (Walk g) (suffix_from-append next s.path (next ∷ []) on) (
            Walk-suffix g next (s.path ++ next ∷ [])
              (rw h.path_is (Walk-snoc g p node next h.walk e))),
      )

  leave-Clean :
      (node : ℤ) (p r : List ℤ) (s s' : SearchState) (before finished : List ℤ)
      → Inside node p r s finished
      → ((v : ℤ) → Edge g node v → mem v finished ≡ true)
      → s'.path ≡ p
      → s'.rec_stack ≡ r
      → Includes s.visited s'.visited
      → Includes finished before
      → Clean node s' (leave node s) before
  unfolding leave
  leave-Clean node p r s s' before finished h all ep er grows grows' =
      let rec_now : erase node s.rec_stack ≡ r =
        rw h.rec_is (unfold erase in (ground (arith, erase_absent node r, eqb_ℤ_iff node node))) in
      let path_now : pop_back s.path ≡ p = rw h.path_is (pop_back-append p node) in
      record {
        finished = node ∷ finished;
        ready = record {
          split = λ v. rw rec_now (
              ground (
                arith,
                h.ready.split v,
                mem-cons v node finished,
                mem-cons v node r,
                ap (mem v) h.rec_is,
              ));
          topo = (all, h.ready.topo);
          on_path = λ v m. rw path_now (h.old_path v (rw rec_now at m));
        };
        mine = (mem-cons node node finished).1 (inl refl);
        rec_same = rec_now ∙ sym er;
        path_same = path_now ∙ sym ep;
        seen_grows = grows;
        finished_grows = λ v m. (mem-cons v node finished).1 (inr (grows' v m));
      }

module _ (g : WaitGraph) (call : ℤ → SearchState → Option (Bool × SearchState)) where
  each_edge-found :
      (node next : ℤ) (rest : List ℤ) (s t : SearchState)
      → mem next s.visited ≡ false
      → call next s ≡ some (true, t)
      → each_edge call node (next ∷ rest) s ≡ some (true, t)
  unfolding each_edge
  each_edge-found node next rest s t p q = rw (p, each_edge) (rw (q, each_edge) refl)

  each_edge-clean :
      (node next : ℤ) (rest : List ℤ) (s t : SearchState)
      → mem next s.visited ≡ false
      → call next s ≡ some (false, t)
      → each_edge call node (next ∷ rest) s ≡ each_edge call node rest t
  unfolding each_edge
  each_edge-clean node next rest s t p q = rw (p, each_edge) (rw (q, each_edge) refl)

  each_edge-back :
      (node next : ℤ) (rest : List ℤ) (s : SearchState)
      → mem next s.visited ≡ true
      → mem next s.rec_stack ≡ true
      → each_edge call node (next ∷ rest) s ≡ some (true, leave node (report next s))
  unfolding each_edge
  each_edge-back node next rest s p q = rw (p, each_edge) (rw (q, each_edge) refl)

  each_edge-skip :
      (node next : ℤ) (rest : List ℤ) (s : SearchState)
      → mem next s.visited ≡ true
      → mem next s.rec_stack ≡ false
      → each_edge call node (next ∷ rest) s ≡ each_edge call node rest s
  unfolding each_edge
  each_edge-skip node next rest s p q = rw (p, each_edge) (rw (q, each_edge) refl)

  module _ (fuel : ℕ) (ih : Searches g call fuel) (node : ℤ) (p r : List ℤ) where
    -- What holds in the loop over the edges that are left, since `DFSCycle` was called at `s₀`.
    record Going (s₀ : SearchState) (before es : List ℤ) (s : SearchState) (finished : List ℤ)
        : Type 0 where
      inside : Inside g node p r s finished
      edges : (v : ℤ) → mem v es ≡ true → Edge g node v
      rest_done : (v : ℤ) → Edge g node v → (mem v es ≡ true) ⊎ (mem v finished ≡ true)
      budget : (v : ℤ) → mem v es ≡ true → fresh g s.visited < fuel
      path_was : s₀.path ≡ p
      rec_was : s₀.rec_stack ≡ r
      grows : Includes s.visited s₀.visited
      grows' : Includes finished before

    -- The loop goes on past `next`, which is finished now.
    next_edge :
        (next : ℤ) (rest : List ℤ) (s₀ s t : SearchState) (before finished later : List ℤ)
        → Going s₀ before (next ∷ rest) s finished
        → Ready g t later
        → mem next later ≡ true
        → t.rec_stack ≡ s.rec_stack
        → t.path ≡ s.path
        → Includes t.visited s.visited
        → Includes later finished
        → Going s₀ before rest t later
    next_edge next rest s₀ s t before finished later h ready m er ep seen fin = record {
      inside = record {
        ready = ready;
        path_is = ep ∙ h.inside.path_is;
        rec_is = er ∙ h.inside.rec_is;
        new = h.inside.new;
        old_path = h.inside.old_path;
        walk = h.inside.walk;
      };
      edges = λ v m'. h.edges v ((mem-cons v next rest).1 (inr m'));
      rest_done = λ v e. ground (arith, h.rest_done v e, mem-cons v next rest, fin v);
      budget = λ v m'.
          omega (arith, h.budget v ((mem-cons v next rest).1 (inr m')), fresh-le g _ _ seen);
      path_was = h.path_was;
      rec_was = h.rec_was;
      grows = λ v m'. seen v (h.grows v m');
      grows' = λ v m'. fin v (h.grows' v m');
    }

    each_edge-Post :
        (es : List ℤ) (s₀ s : SearchState) (before finished : List ℤ)
        → Going s₀ before es s finished
        → (found : Bool) × (t : SearchState) × (each_edge call node es s ≡ some (found, t))
          × Post g node s₀ before (found, t)
    each_edge-Post [] s₀ s before finished h = (
      false,
      leave node s,
      unfold each_edge in refl,
      inr (
        refl,
        leave-Clean g node p r s s₀ before finished h.inside
            (λ v e. ground (arith, h.rest_done v e, not_in v)) h.path_was h.rec_was h.grows
            h.grows',
      ),
    )
      where
        not_in : (v : ℤ) → mem v [] ≡ false
        not_in v = unfold mem in refl
    each_edge-Post (next ∷ rest) s₀ s before finished h = elim (Bool-cases (mem next s.visited)) [
      | inr unseen ↦
          let (found, t, e, post) =
            ih next s finished h.inside.ready unseen
              (rw h.inside.path_is (Walk-snoc g p node next h.inside.walk (h.edges next here)))
              (h.budget next here) in
          elim post [
            | inl (yes_found, c) ↦ (
              true,
              t,
              each_edge-found node next rest s t unseen (rw yes_found at e),
              inl (refl, c),
            )
            | inr (not_found, clean) ↦
                let (found', t', e', post') = each_edge-Post rest s₀ t before clean.finished (
                  next_edge next rest s₀ s t before finished clean.finished h clean.ready clean.mine
                    clean.rec_same clean.path_same clean.seen_grows clean.finished_grows) in
                (
                  found',
                  t',
                  each_edge-clean node next rest s t unseen (rw not_found at e) ∙ e',
                  post',
                )
          ]
      | inl seen ↦ elim (Bool-cases (mem next s.rec_stack)) [
        | inl back ↦ (
          true,
          leave node (report next s),
          each_edge-back node next rest s seen back,
          inl (refl, report-IsCycle g node next p r s finished h.inside (h.edges next here) back),
        )
        | inr skip ↦
            let (found', t', e', post') = each_edge-Post rest s₀ s before finished (
              next_edge next rest s₀ s s before finished finished h h.inside.ready
                (ground (arith, h.inside.ready.split next)) refl refl (λ v m. m) (λ v m. m)) in
            (found', t', each_edge-skip node next rest s seen skip ∙ e', post')
      ]
    ]
      where
        here : mem next (next ∷ rest) ≡ true
        here = (mem-cons next next rest).1 (inl refl)

module _ (g : WaitGraph) where
  -- A node whose loop makes a call is a key that is new.
  enter_budget :
      (node v : ℤ) (fuel : ℕ) (s : SearchState)
      → mem node s.visited ≡ false
      → fresh g s.visited < suc fuel
      → mem v (waits_for g node) ≡ true
      → fresh g (enter node s).visited < fuel
  unfolding waits_for enter
  enter_budget node v fuel s new b m = elim (Option-cases (find node g)) [
    | inl e ↦ absurd (unfold mem in (ground arith))
    | inr (vs, e) ↦ omega (arith, fresh-insert g node s.visited vs new e)
  ]

  enter-Inside :
      (node : ℤ) (s : SearchState) (before : List ℤ)
      → Ready g s before
      → mem node s.visited ≡ false
      → Walk g (s.path ++ node ∷ [])
      → Inside g node s.path s.rec_stack (enter node s) before
  unfolding enter
  enter-Inside node s before h new w =
      let off : mem node s.rec_stack ≡ false = ground (arith, h.split node) in
      let pushed : insert node s.rec_stack ≡ node ∷ s.rec_stack = unfold insert in (rw off refl) in
      record {
        ready = record {
          split = λ v.
              ground (arith, h.split v, mem-insert v node s.visited, mem-insert v node s.rec_stack);
          topo = h.topo;
          on_path = λ v m.
              unfold mem in
              (ground (
                arith,
                h.on_path v,
                mem-insert v node s.rec_stack,
                mem-append v s.path (node ∷ []),
              ));
        };
        path_is = refl;
        rec_is = pushed;
        new = off;
        old_path = h.on_path;
        walk = w;
      }

  pub dfs_cycle-Searches : (fuel : ℕ) → Searches g (dfs_cycle g fuel) fuel
  unfolding dfs_cycle
  dfs_cycle-Searches zero node s before h new w b = absurd (omega arith)
  dfs_cycle-Searches (suc fuel) node s before h new w b =
      each_edge-Post g (dfs_cycle g fuel) fuel (dfs_cycle-Searches fuel) node s.path s.rec_stack
        (waits_for g node) s (enter node s) before before
        (record {
          inside = enter-Inside node s before h new w;
          edges = λ v m. m;
          rest_done = λ v e. inl e;
          budget = λ v m. enter_budget node v fuel s new b m;
          path_was = refl;
          rec_was = refl;
          grows = λ v m. unfold enter in (ground (arith, mem-insert v node s.visited));
          grows' = λ v m. m;
        })
