-- ===== src/BufferPool/Resident.antt =====
-- Pages that are in a frame and in the page table of the pool (BufferPoolManager.cpp), and what the
-- calls do to them.
use altas_dbpro.Prelude.{
  ℕ, ◌<◌, ◌≡◌, ◌≢◌, refl, ap, sym, ◌∙◌, Bool, true, false, Option, none, some, List, arith, length,
  set, length-set, get_or-set_self, subst, nat_eqb, nat_eq, ==_refl,
}
use altas_dbpro.Prelude.Ints.{int_eq}
use altas_dbpro.Prelude.Maps.{find, find-put}
use altas_dbpro.Prelude.Run.{done}
use altas_dbpro.Page.{Page, set_dirty, set_data, zero_bytes, set_page_id, reset}
use altas_dbpro.Page
use altas_dbpro.BufferPool.{
  Disk, Pool, first_free, take_frame, make_page, install, cleared_page, or_new_page, page_at,
  modify, on_page, fetch_page, new_page_in, unpin_page, unpin_at, pin_resident,
}
use altas_dbpro.BufferPool.Frames.{Search, free, full, plus, first_free-Search}
use altas_dbpro.BufferPool.Access.{mark_dirty, set_bytes, bytes_of, release}

module _ (d : Disk) where
  -- A page in the frame `f` that the page table lists.
  pub record Resident (f : ℕ) (p : Page) (s : Pool d) : Type 0 where
    pub in_range : f < length s.pages
    pub there : page_at s.pages f ≡ some p
    pub listed : find p.page_id s.page_table ≡ some f

  pub replaced-Resident :
      (f : ℕ) (p q : Page) (s : Pool d)
      → Resident f p s
      → q.page_id ≡ p.page_id
      → Resident f q (record s { pages = set s.pages f (some q) })
  replaced-Resident f p q s r e = record {
    in_range = rw (length-set s.pages f (some q)) r.in_range;
    there = get_or-set_self s.pages f (some q) none r.in_range;
    listed = rw e r.listed;
  }

  pub modify-Resident :
      (f : ℕ) (g : Page → Page) (p : Page) (s : Pool d)
      → Resident f p s
      → (g p).page_id ≡ p.page_id
      → Resident f (g p) (record s { pages = modify f g s.pages })
  modify-Resident f g p s r e =
      subst (λ o. Resident f (g p) (record s { pages = set s.pages f (on_page g o) })) (sym r.there)
        (replaced-Resident f p (g p) s r e)

  pub unpin_page-Resident :
      (f : ℕ) (p : Page) (s : Pool d)
      → Resident f p s
      → (dirty : Bool) → unpin_page d p.page_id dirty s ≡ unpin_at d f dirty p s
  unfolding unpin_page
  unpin_page-Resident f p s r dirty = rw (r.listed, unpin_page) (rw r.there refl)

  pub release-unpin_at :
      (f : ℕ) (p : Page) (s : Pool d)
      → Resident f p s
      → (dirty : Bool) → release d f dirty s ≡ (unpin_at d f dirty p s).0
  release-unpin_at f p s r dirty =
      ap (λ o. (unpin_page d (or_new_page o).page_id dirty s).0) r.there
      ∙ ap (λ u. u.0) (unpin_page-Resident f p s r dirty)

  pub unpinned-release :
      (f : ℕ) (p : Page) (s : Pool d)
      → Resident f p s
      → release d f true s ≡ (unpin_page d p.page_id true s).0
  unpinned-release f p s r = ap (λ o. (unpin_page d (or_new_page o).page_id true s).0) r.there

  pub release-Resident :
      (f : ℕ) (p : Page) (s : Pool d)
      → Resident f p s
      → p.pin_count ≢ 0
      → Resident f (set_dirty true (Page.unpin p)) (release d f true s)
  unfolding unpin_at Page.unpin set_dirty
  release-Resident f p s r n =
      let e : nat_eqb p.pin_count 0 ≡ false = ground (arith, n) in
      let b = replaced-Resident f p (set_dirty true (Page.unpin p)) s r refl in
      rw (release-unpin_at f p s r true, e)
        (record { in_range = b.in_range; there = b.there; listed = b.listed })

  -- The page that `NewPage` makes in a free frame.
  abbrev pub fresh_page : ℕ → Pool d → Page
  fresh_page f s = set_dirty false (Page.pin (cleared_page d (d.alloc s.disk).0 f s))

  pub make_page-Resident :
      (f : ℕ) (s : Pool d) → f < length s.pages → Resident f (fresh_page f s) (make_page d f s)
  unfolding make_page install
  make_page-Resident f s lt = record {
    in_range = rw (length-set s.pages f (some (fresh_page f s))) lt;
    there = get_or-set_self s.pages f (some (fresh_page f s)) none lt;
    listed =
        find-put (fresh_page f s).page_id (fresh_page f s).page_id f s.page_table
        ∙ rw (==_refl (fresh_page f s).page_id) refl;
  }

  pub free_in_range :
      (pages : List (Option Page)) (f : ℕ) → first_free pages 0 ≡ some f → f < length pages
  free_in_range pages f e = let (o, e', found) = first_free-Search pages 0 in go o e' found
    where
      go : (o : Option ℕ) → first_free pages 0 ≡ plus 0 o → Search pages o → f < length pages
      go _ e' (free g lt empty) = ground (arith, e, e', lt)
      go _ e' (full all) = ground (arith, e, e')

  pub new_page_free :
      (reentrant : Bool) (f : ℕ) (s : Pool d)
      → first_free s.pages 0 ≡ some f
      → new_page_in d reentrant s ≡ done (make_page d f s, some f)
  unfolding new_page_in take_frame
  new_page_free reentrant f s e = rw e refl

  pub fetch_page-Resident :
      (reentrant : Bool) (f : ℕ) (p : Page) (s : Pool d)
      → Resident f p s
      → fetch_page d reentrant p.page_id s ≡ done (pin_resident d f s, some f)
  unfolding fetch_page
  fetch_page-Resident reentrant f p s r = rw (r.listed, fetch_page) refl

  pub pin_resident-bytes :
      (f : ℕ) (p : Page) (s : Pool d)
      → Resident f p s
      → bytes_of d f (pin_resident d f s) ≡ p.page_data
  unfolding pin_resident Page.pin
  pin_resident-bytes f p s r =
      ap (λ o. (or_new_page o).page_data) (modify-Resident f Page.pin p s r refl).there

  pub pin_resident-Resident :
      (f : ℕ) (p : Page) (s : Pool d)
      → Resident f p s
      → Resident f (Page.pin p) (pin_resident d f s)
  unfolding pin_resident Page.pin
  pin_resident-Resident f p s r =
      let now = modify-Resident f Page.pin p s r refl in
      record { in_range = now.in_range; there = now.there; listed = now.listed }

  -- The write of a page's bytes, the mark that it is dirty, and the unpinning by its id.
  pub written-Resident :
      (f : ℕ) (bytes : List ℕ) (p : Page) (s : Pool d)
      → Resident f p s
      → p.pin_count ≢ 0
      → (q : Page) × (q.page_data ≡ bytes)
        × (q.page_id ≡ p.page_id)
        × Resident f q (unpin_page d p.page_id true (mark_dirty d f (set_bytes d f bytes s))).0
  unfolding set_dirty set_data Page.unpin
  written-Resident f bytes p s r n =
      let one = modify-Resident f (set_data bytes) p s r refl in
      let two = modify-Resident f (set_dirty true) (set_data bytes p) _ one refl in
      let q = set_dirty true (set_data bytes p) in
      let end = release-Resident f q _ two n in
      let same = unpinned-release f q _ two in
      (
        set_dirty true (Page.unpin q),
        refl,
        refl,
        subst (Resident f (set_dirty true (Page.unpin q))) same end,
      )
