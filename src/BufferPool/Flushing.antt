-- ===== src/BufferPool/Flushing.antt =====
-- `FlushPage` of BufferPoolManager.cpp.
use altas_dbpro.Prelude.{
  ℕ, ◌<◌, ◌≡◌, refl, ap, inl, inr, Bool, true, false, some, none, set, arith, nat_eqb_iff,
  Bool-cases, Option-cases,
}
use altas_dbpro.Prelude.Ints.{ℤ, int_eq}
use altas_dbpro.Prelude.Maps.{find}
use altas_dbpro.Page.{Page, page_size, set_dirty}
use altas_dbpro.Replacer.Layered.Rounds.{in_at}
use altas_dbpro.BufferPool.{Disk, Pool, page_at, flush_at, flush_page}
use altas_dbpro.BufferPool.Frames.{page_at-set}
use altas_dbpro.BufferPool.Invariant.{is_idle, Inv}
use altas_dbpro.BufferPool.Calls.{change-Inv}

pub set_dirty_lem :
    (p : Page)
    → ((set_dirty false p).page_id ≡ p.page_id)
      × (is_idle (some (set_dirty false p)) ≡ is_idle (some p))
unfolding set_dirty
set_dirty_lem p = (refl, refl)

module _ {d : Disk} where
  -- What `FlushPage(id)` answers: false, with nothing changed, if the page is not in the pool; true
  -- with nothing changed if it is clean; and true with the page written to the disk and clean.
  pub data Flushed (id : ℤ) (s : Pool d) : Pool d × Bool → Type 0 where
    not_resident : find id s.page_table ≡ none → Flushed id s (s, false)
    clean :
        (f : ℕ) (p : Page)
        → find id s.page_table ≡ some f
        → page_at s.pages f ≡ some p
        → p.is_dirty ≡ false
        → Flushed id s (s, true)
    written :
        (t : Pool d) (f : ℕ) (p : Page)
        → find id s.page_table ≡ some f
        → page_at s.pages f ≡ some p
        → p.is_dirty ≡ true
        → t.disk ≡ d.write id p.page_data page_size s.disk
        → page_at t.pages f ≡ some (set_dirty false p)
        → Inv t
        → Flushed id s (t, true)

  flush_at-Flushed :
      (s : Pool d) (id : ℤ) (f : ℕ) (p : Page)
      → Inv s
      → find id s.page_table ≡ some f
      → f < s.pool_size
      → page_at s.pages f ≡ some p
      → Flushed id s (flush_at d id f p s)
  unfolding flush_at set_dirty
  flush_at-Flushed s id f p h e lt at = elim (Bool-cases p.is_dirty) [
    | inr tidy ↦ rw tidy (clean f p e at tidy)
    | inl dirty ↦
        let q = set_dirty false p in
        let disk = d.write id p.page_data page_size s.disk in
        rw dirty (
          written (record s { disk = disk; pages = set s.pages f (some q) }) f p e at dirty refl
            (ground (
              arith,
              page_at-set s.pages f f (some q) (omega (arith, lt, h.page_count)),
              nat_eqb_iff f f,
            ))
            (change-Inv s f p q s.replacer disk h lt at (set_dirty_lem p).0 h.formed refl (λ g lt'.
              ground (
                arith,
                h.idle f lt,
                ap is_idle at,
                (set_dirty_lem p).1,
                nat_eqb_iff f g,
                ap (in_at s.replacer),
              ))))
  ]

  -- On a pool whose frames, page table and replacer agree, `FlushPage(id)` answers false and changes
  -- nothing if the page is not in the pool, and true without a change if the page is clean. Else it
  -- answers true, the disk manager has written the page's bytes under `id`, the page is the same but
  -- clean, and the pool agrees again.
  pub flush_page-Flushed : (s : Pool d) (id : ℤ) → Inv s → Flushed id s (flush_page d id s)
  unfolding flush_page
  flush_page-Flushed s id h = elim (Option-cases (find id s.page_table)) [
    | inl away ↦ rw (away, flush_page) (not_resident away)
    | inr (f, e) ↦
        let (lt, (p, at, _)) = h.listed id f e in
        rw (e, flush_page) (rw at (flush_at-Flushed s id f p h e lt at))
  ]
