-- ===== src/BufferPool/Taking.antt =====
-- The frame that `FetchPage` and `NewPage` of BufferPoolManager.cpp take for a new page.
use altas_dbpro.Prelude.{
  ℕ, ◌+◌, ◌<◌, ◌≡◌, ◌≢◌, refl, ap, sym, ◌∙◌, ◌⊎◌, inl, inr, Bool, true, false, Option, none, some,
  arith, length, nat_eq, nat_eqb_iff, Bool-cases, get_or, get_or-set_ne,
}
use altas_dbpro.Prelude.Ints.{ℤ, int_eq, eqb_ℤ_iff}
use altas_dbpro.Prelude.Maps.{find, remove, find-remove}
use altas_dbpro.Prelude.Run.{Run, done, blocked, ◌>>=◌}
use altas_dbpro.Page.{Page, page_size}
use altas_dbpro.Replacer.Layered.{LayeredClock}
use altas_dbpro.Replacer.Layered.Rounds.{IsWellFormed}
use altas_dbpro.Replacer.Layered.Victim.{Answer, Evicted, Ended, victim-Ended}
use altas_dbpro.Replacer.Layered.Victim
use altas_dbpro.BufferPool.{
  Disk, Pool, page_at, first_free, write_back, drop_victim, after_victim, choose, take_frame,
}
use altas_dbpro.BufferPool.Frames.{Search, free, full, first_free-Search}
use altas_dbpro.BufferPool.Invariant.{is_idle, Inv, Vacant}

module _ {d : Disk} where
  -- Every frame holds a pinned page.
  abbrev pub AllPinned : Pool d → Type 0
  AllPinned s =
      (f : ℕ) → f < s.pool_size → (p : Page) × (page_at s.pages f ≡ some p) × (p.pin_count ≢ 0)

  -- The disk as before, or after one page of the pool was written to it.
  abbrev pub Saved : Pool d → d.State → Type 0
  Saved s disk =
      (disk ≡ s.disk)
      ⊎ ((f : ℕ) × (p : Page) × (page_at s.pages f ≡ some p)
          × (disk ≡ d.write p.page_id p.page_data page_size s.disk))

  -- A frame that is ready for a page whose id is not listed, or no frame and no change.
  pub data Frame (s : Pool d) : Pool d × Option ℕ → Type 0 where
    ready :
        (t : Pool d) (f : ℕ)
        → Vacant t f
        → Saved s t.disk
        → ((id : ℤ) → find id s.page_table ≡ none → find id t.page_table ≡ none)
        → Frame s (t, some f)
    refused : AllPinned s → Frame s (s, none)

  pub free-Vacant :
      (s : Pool d) (f : ℕ) → Inv s → f < s.pool_size → page_at s.pages f ≡ none → Vacant s f
  free-Vacant s f h lt empty = record {
    in_range = lt;
    page_count = h.page_count;
    frame_count = h.frame_count;
    formed = h.formed;
    listed = λ id g e.
        let (lt', (p, at, named)) = h.listed id g e in
        (λ q. absurd (ground (arith, at, empty, ap (page_at s.pages) q)), lt', (p, at, named));
    filed = λ g p n e. h.filed g p e;
    idle = λ g lt' n. h.idle g lt';
  }

  drop_victim-idle :
      (v : ℕ) (p : Page) (s : Pool d)
      → p.pin_count ≡ 0
      → drop_victim d v (some p) s ≡ (
        record s { disk = write_back d p s.disk; page_table = remove p.page_id s.page_table },
        some v,
      )
  unfolding drop_victim
  drop_victim-idle v p s z = rw z refl

  abbrev dropped : Pool d → LayeredClock → Page → Pool d
  dropped s rep p = record s {
    replacer = rep;
    disk = write_back d p s.disk;
    page_table = remove p.page_id s.page_table;
  }

  victim-Vacant :
      (s : Pool d) (rep : LayeredClock) (v : ℕ) (p : Page)
      → Inv s
      → Evicted s.replacer rep v
      → IsWellFormed rep
      → page_at s.pages v ≡ some p
      → Vacant (dropped s rep p) v
  victim-Vacant s rep v p h ev w at = record {
    in_range = omega (arith, ev.in_range, h.frame_count);
    page_count = h.page_count;
    frame_count = ev.frame_now ∙ h.frame_count;
    formed = w;
    listed = λ id g e.
        let old : find id s.page_table ≡ some g =
          ground (arith, find-remove p.page_id id s.page_table, e) in
        let (lt, (q, at', named)) = h.listed id g old in
        (
          λ same.
              let it : p ≡ q = ground (arith, at, at', ap (page_at s.pages) same) in
              absurd (
                ground (
                  arith,
                  find-remove p.page_id id s.page_table,
                  e,
                  eqb_ℤ_iff p.page_id id,
                  ap (λ x. x.page_id) it,
                  named,
                )),
          lt,
          (q, at', named),
        );
    filed = λ g q n at'. ground (
      arith,
      find-remove p.page_id q.page_id s.page_table,
      eqb_ℤ_iff p.page_id q.page_id,
      h.filed g q at',
      h.filed v p at,
      ap (λ i. find i s.page_table),
    );
    idle = λ g lt n.
        ap (λ l. get_or l g false) ev.in_now
        ∙ get_or-set_ne s.replacer.in_replacer v g false false (λ e. n (sym e))
        ∙ h.idle g lt;
  }

  saved :
      (s : Pool d) (v : ℕ) (p : Page) → page_at s.pages v ≡ some p → Saved s (write_back d p s.disk)
  unfolding write_back
  saved s v p at = elim (Bool-cases p.is_dirty) [
    | inl dirty ↦ rw dirty (inr (v, p, at, refl))
    | inr clean ↦ rw clean (inl refl)
  ]

  after-Frame :
      (s : Pool d) (r : LayeredClock × Option ℕ)
      → Inv s
      → ((f : ℕ) → f < length s.pages → (p : Page) × (page_at s.pages f ≡ some p))
      → Answer s.replacer r
      → IsWellFormed r.0
      → Frame s (after_victim d s r)
  after-Frame s (rep, none) h all (same, empty) w = rw same (
      refused λ f lt.
        let (p, at) = all f (omega (arith, h.page_count)) in
        (p, at, ground (arith, h.idle f lt, empty f, ap is_idle at, nat_eqb_iff p.pin_count 0)))
  after-Frame s (rep, some v) h all ev w =
      let (p, at) = all v (omega (arith, ev.in_range, h.frame_count, h.page_count)) in
      let unpinned : p.pin_count ≡ 0 = ground (
        arith,
        h.idle v (omega (arith, ev.in_range, h.frame_count)),
        ev.was_in,
        ap is_idle at,
        nat_eqb_iff p.pin_count 0,
      ) in
      rw (at, drop_victim-idle v p (record s { replacer = rep }) unpinned)
        (ready (dropped s rep p) v (victim-Vacant s rep v p h ev w at) (saved s v p at)
          (λ id e. ground (arith, find-remove p.page_id id s.page_table)))

  -- Some frame is null, or none is.
  abbrev pub HasNull : Pool d → Type 0
  HasNull s = (f : ℕ) × (f < s.pool_size) × (page_at s.pages f ≡ none)

  abbrev pub NoNull : Pool d → Type 0
  NoNull s = (f : ℕ) → f < s.pool_size → (p : Page) × (page_at s.pages f ≡ some p)

  -- How the search for a frame ends. It waits for ever, if no frame is null and the replacer's mutex
  -- may not be locked twice; else it returns with a frame, or with none as every frame is pinned.
  pub data Taken (reentrant : Bool) (s : Pool d) : Run (Pool d × Option ℕ) → Type 0 where
    waits : reentrant ≡ false → NoNull s → Taken reentrant s blocked
    takes :
        (r : Pool d × Option ℕ)
        → (reentrant ≡ true) ⊎ HasNull s
        → Frame s r
        → Taken reentrant s (done r)

  then_after :
      (reentrant : Bool) (s : Pool d) {out : Run (LayeredClock × Option ℕ)}
      → Inv s
      → NoNull s
      → Ended reentrant s.replacer out
      → Taken reentrant s (out >>= λ r. done (after_victim d s r))
  then_after reentrant s h all (Victim.waits strict) = waits strict all
  then_after reentrant s h all (Victim.answers r twice answer w) =
      takes (after_victim d s r) (inl twice)
        (after-Frame s r h (λ f lt. all f (omega (arith, lt, h.page_count))) answer w)

  pub take_frame-Taken :
      (reentrant : Bool) (s : Pool d) → Inv s → Taken reentrant s (take_frame d reentrant s)
  unfolding take_frame
  take_frame-Taken reentrant s h =
      let (o, e, found) = first_free-Search s.pages 0 in chosen o e found
    where
      chosen :
          (o : Option ℕ)
          → first_free s.pages 0 ≡ altas_dbpro.BufferPool.Frames.plus 0 o
          → Search s.pages o
          → Taken reentrant s (take_frame d reentrant s)
      chosen _ e (free f lt empty) =
          let same : f + 0 ≡ f = omega arith in
          let within : f < s.pool_size = omega (arith, lt, h.page_count) in
          rw (e ∙ ap some same, take_frame)
            (takes (s, some f) (inr (f, within, empty))
              (ready s f (free-Vacant s f h within empty) (inl refl) (λ id n. n)))
      chosen _ e (full all) =
          rw (e, take_frame)
            (then_after reentrant s h (λ f lt. all f (omega (arith, lt, h.page_count)))
              (victim-Ended reentrant s.replacer h.formed))
