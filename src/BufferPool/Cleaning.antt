-- ===== src/BufferPool/Cleaning.antt =====
-- `FlushAllPages` of BufferPoolManager.cpp, which calls `FlushPageInternal` for each entry of the page
-- table. The table is a list here, in the order in which the loop walks through the map.
use altas_dbpro.Prelude.{
  ℕ, ◌<◌, ◌≡◌, refl, ap, sym, ◌∙◌, inl, inr, true, false, Option, none, some, List, [], ◌∷◌, arith,
  if◌then◌else◌, nat_eqb, nat_eqb_iff, Bool-cases, Option-cases, ◌⊎◌,
}
use altas_dbpro.Prelude.Ints.{ℤ, int_eq}
use altas_dbpro.Prelude.Maps.{find, IsMap}
use altas_dbpro.Page.{Page, page_size, set_dirty}
use altas_dbpro.Replacer.Layered.Rounds.{in_at}
use altas_dbpro.BufferPool.{
  Disk, Pool, page_at, on_page, flush_at, flush_page, flush_each, flush_all_pages,
}
use altas_dbpro.BufferPool.Entries.{
  Table, AllEntries, AllEntries-map, AllEntries-both, Listed, entries-Listed, names, find-names,
}
use altas_dbpro.BufferPool.Frames.{page_at-set}
use altas_dbpro.BufferPool.Invariant.{is_idle, Inv}
use altas_dbpro.BufferPool.Calls.{change-Inv}
use altas_dbpro.BufferPool.Flushing.{set_dirty_lem}

abbrev cleaned : Option Page → Option Page
cleaned p = on_page (set_dirty false) p

tidy_page : (p : Page) → p.is_dirty ≡ false → set_dirty false p ≡ p
unfolding set_dirty
tidy_page p e = ap (λ b. record p { is_dirty = b }) (sym e)

cleaned-cleaned : (p : Option Page) → cleaned (cleaned p) ≡ cleaned p
unfolding set_dirty
cleaned-cleaned none = refl
cleaned-cleaned (some p) = refl

module _ (d : Disk) where
  -- The disk once the pages of the entries are written, those that are dirty.
  abbrev saved_at : ℤ → Option Page → d.State → d.State
  saved_at id none disk = disk
  saved_at id (some p) disk = if p.is_dirty then d.write id p.page_data page_size disk else disk

  abbrev pub saved_all : Table → List (Option Page) → d.State → d.State
  saved_all [] pages disk = disk
  saved_all ((id, f) ∷ rest) pages disk = saved_all rest pages (saved_at id (page_at pages f) disk)

  saved_all-same :
      (rest : Table) (pages now : List (Option Page)) (disk : d.State)
      → AllEntries (λ id f. page_at now f ≡ page_at pages f) rest
      → saved_all rest now disk ≡ saved_all rest pages disk
  saved_all-same [] pages now disk a = refl
  saved_all-same ((id, f) ∷ rest) pages now disk a =
      ap (λ o. saved_all rest now (saved_at id o disk)) a.0
      ∙ saved_all-same rest pages now (saved_at id (page_at pages f) disk) a.1

module _ {d : Disk} where
  -- The pool after `FlushPageInternal` of the page `id` in the frame `f`.
  record One (id : ℤ) (f : ℕ) (s t : Pool d) : Type 0 where
    kept : Inv t
    table : t.page_table ≡ s.page_table
    tidy :
        (g : ℕ)
        → page_at t.pages g
          ≡ (if nat_eqb f g then cleaned (page_at s.pages g) else page_at s.pages g)
    disk : t.disk ≡ saved_at d id (page_at s.pages f) s.disk

  flush_at-One :
      (s : Pool d) (id : ℤ) (f : ℕ) (p : Page)
      → Inv s
      → f < s.pool_size
      → page_at s.pages f ≡ some p
      → One id f s (flush_at d id f p s).0
  unfolding flush_at set_dirty
  flush_at-One s id f p h lt at = elim (Bool-cases p.is_dirty) [
    | inr tidy ↦ rw tidy (record {
      kept = h;
      table = refl;
      tidy = λ g. ground (
        arith,
        nat_eqb_iff f g,
        ap (page_at s.pages),
        at,
        ap cleaned at,
        ap some (tidy_page p tidy),
      );
      disk = ground (arith, ap (λ o. saved_at d id o s.disk) at);
    })
    | inl dirty ↦
        let q = set_dirty false p in
        let disk = d.write id p.page_data page_size s.disk in
        rw dirty (record {
          kept =
              change-Inv s f p q s.replacer disk h lt at (set_dirty_lem p).0 h.formed refl (λ g lt'.
                ground (
                  arith,
                  h.idle f lt,
                  ap is_idle at,
                  (set_dirty_lem p).1,
                  nat_eqb_iff f g,
                  ap (in_at s.replacer),
                ));
          table = refl;
          tidy = λ g. ground (
            arith,
            page_at-set s.pages f g (some q) (omega (arith, lt, h.page_count)),
            nat_eqb_iff f g,
            ap (page_at s.pages),
            at,
            ap cleaned at,
          );
          disk = ground (arith, ap (λ o. saved_at d id o s.disk) at);
        })
  ]

  flush_page-One :
      (s : Pool d) (id : ℤ) (f : ℕ)
      → Inv s
      → find id s.page_table ≡ some f
      → One id f s (flush_page d id s).0
  unfolding flush_page
  flush_page-One s id f h e =
      let (lt, (p, at, _)) = h.listed id f e in
      rw (e, flush_page) (rw at (flush_at-One s id f p h lt at))

  -- The pool after the calls for these entries.
  pub record Cleaned (rest : Table) (s t : Pool d) : Type 0 where
    pub kept : Inv t
    pub table : t.page_table ≡ s.page_table
    pub tidy :
        (g : ℕ)
        → page_at t.pages g
          ≡ (if names rest g then cleaned (page_at s.pages g) else page_at s.pages g)
    pub disk : t.disk ≡ saved_all d rest s.pages s.disk

  -- The page of another entry is not touched.
  apart :
      (s t : Pool d) (rest : Table) (id : ℤ) (f : ℕ)
      → Inv s
      → One id f s t
      → Listed s.page_table id f
      → find id rest ≡ none
      → (j : ℤ) (g : ℕ) → Listed rest j g
      → Listed s.page_table j g
      → page_at t.pages g ≡ page_at s.pages g
  apart s t rest id f h one listed new j g here there = elim (Bool-cases (nat_eqb f g)) [
    | inr other ↦ ground (arith, one.tidy g)
    | inl same ↦
        let (_, (p, at, named)) = h.listed id f listed in
        let (_, (q, at', named')) = h.listed j g there in
        let it : p ≡ q = ground (arith, at, at', ap (page_at s.pages) ((nat_eqb_iff f g).0 same)) in
        let ids : id ≡ j = sym named ∙ ap (λ x. x.page_id) it ∙ named' in
        absurd (cc (sym new ∙ ap (λ k. find k rest) ids ∙ here))
  ]

  flush_each-Cleaned :
      (rest : Table) (s : Pool d)
      → Inv s
      → IsMap rest
      → AllEntries (Listed s.page_table) rest
      → Cleaned rest s (flush_each d rest s)
  unfolding flush_each
  flush_each-Cleaned [] s h w a = record { kept = h; table = refl; tidy = λ g. refl; disk = refl }
  flush_each-Cleaned ((id, f) ∷ rest) s h w a =
      let t = (flush_page d id s).0 in
      let one = flush_page-One s id f h a.0 in
      let later =
        AllEntries-map (Listed s.page_table) (Listed t.page_table) rest
          (λ j g e. ap (find j) one.table ∙ e) a.1 in
      let more = flush_each-Cleaned rest t one.kept w.1 later in
      let same =
        AllEntries-both (Listed rest) (Listed s.page_table)
          (λ j g. page_at t.pages g ≡ page_at s.pages g) rest (apart s t rest id f h one a.0 w.0)
          (entries-Listed rest w.1) a.1 in
      record {
        kept = more.kept;
        table = more.table ∙ one.table;
        tidy = λ g. ground (
          arith,
          more.tidy g,
          one.tidy g,
          ap cleaned (one.tidy g),
          cleaned-cleaned (page_at s.pages g),
        );
        disk =
            more.disk
            ∙ ap (saved_all d rest t.pages) one.disk
            ∙ saved_all-same d rest s.pages t.pages (saved_at d id (page_at s.pages f) s.disk) same;
      }

  -- On a pool whose frames, page table and replacer agree, where no page is twice in the table:
  -- `FlushAllPages` leaves every page with its bytes, id and pins but clean, no null frame filled, and
  -- the page table as it was; the pool agrees again, and the disk manager has written each dirty page
  -- under its id, in the order of the table, and no clean one.
  pub flush_all_pages-Clean :
      (s : Pool d)
      → Inv s
      → IsMap s.page_table
      → Inv (flush_all_pages d s)
        × ((flush_all_pages d s).page_table ≡ s.page_table)
        × ((g : ℕ)
            → page_at (flush_all_pages d s).pages g ≡ on_page (set_dirty false) (page_at s.pages g))
        × ((flush_all_pages d s).disk ≡ saved_all d s.page_table s.pages s.disk)
  unfolding flush_all_pages
  flush_all_pages-Clean s h w =
      let all = flush_each-Cleaned s.page_table s h w (entries-Listed s.page_table w) in
      (all.kept, all.table, λ g. all.tidy g ∙ every g (Option-cases (page_at s.pages g)), all.disk)
    where
      every :
          (g : ℕ)
          → (page_at s.pages g ≡ none) ⊎ ((p : Page) × (page_at s.pages g ≡ some p))
          → (if names s.page_table g then cleaned (page_at s.pages g) else page_at s.pages g)
            ≡ cleaned (page_at s.pages g)
      every g (inl empty) = ground (arith, empty, ap cleaned empty)
      every g (inr (p, at)) =
          let named : names s.page_table g ≡ true =
            find-names s.page_table p.page_id g (h.filed g p at) in
          rw named refl
