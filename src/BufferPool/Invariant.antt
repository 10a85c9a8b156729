-- ===== src/BufferPool/Invariant.antt =====
-- The agreement of frames, page table and replacer in BufferPoolManager.cpp.
use altas_dbpro.Prelude.{
  ℕ, ◌<◌, ◌≡◌, ◌≢◌, refl, ap, sym, ◌∙◌, inl, inr, Bool, true, false, Option, none, some, arith,
  if◌then◌else◌, length, length-set, length-replicate, get_or-replicate, replicate, set, ◌==◌,
  nat_eq, nat_eqb, nat_eqb_iff, Bool-cases,
}
use altas_dbpro.Prelude.Ints.{ℤ, pos, int_eq, eqb_ℤ, eqb_ℤ_iff}
use altas_dbpro.Prelude.Maps.{find, find-put}
use altas_dbpro.Page.{Page}
use altas_dbpro.Replacer.Layered.{LayeredClock}
use altas_dbpro.Replacer.Layered
use altas_dbpro.Replacer.Layered.Rounds.{IsWellFormed, in_at}
use altas_dbpro.Replacer.Layered.Updates.{pin-IsWellFormed, in_at-pin}
use altas_dbpro.BufferPool.{Disk, Pool, init, page_at, install}
use altas_dbpro.BufferPool.Frames.{page_at-set}

-- A page that nobody has pinned.
abbrev pub is_idle : Option Page → Bool
is_idle none = false
is_idle (some p) = p.pin_count == 0

no_page : (n f : ℕ) → page_at (replicate n none) f ≡ none
no_page n f = get_or-replicate n f none

module _ {d : Disk} where
  pub record Inv (s : Pool d) : Type 0 where
    pub page_count : length s.pages ≡ s.pool_size
    pub frame_count : s.replacer.frame_count ≡ s.pool_size
    pub formed : IsWellFormed s.replacer
    -- The page table leads to frames that hold the page of that id.
    pub listed :
        (id : ℤ) (f : ℕ)
        → find id s.page_table ≡ some f
        → (f < s.pool_size) × ((p : Page) × (page_at s.pages f ≡ some p) × (p.page_id ≡ id))
    -- Every page is listed at its frame.
    pub filed :
        (f : ℕ) (p : Page) → page_at s.pages f ≡ some p → find p.page_id s.page_table ≡ some f
    -- The replacer offers exactly the frames whose page nobody has pinned.
    pub idle : (f : ℕ) → f < s.pool_size → in_at s.replacer f ≡ is_idle (page_at s.pages f)

  -- The pool while the frame `f` waits for a new page: the invariant but for that frame, which no
  -- entry of the page table names.
  pub record Vacant (s : Pool d) (f : ℕ) : Type 0 where
    pub in_range : f < s.pool_size
    pub page_count : length s.pages ≡ s.pool_size
    pub frame_count : s.replacer.frame_count ≡ s.pool_size
    pub formed : IsWellFormed s.replacer
    pub listed :
        (id : ℤ) (g : ℕ)
        → find id s.page_table ≡ some g
        → (g ≢ f)
          × (g < s.pool_size)
          × ((p : Page) × (page_at s.pages g ≡ some p) × (p.page_id ≡ id))
    pub filed :
        (g : ℕ) (p : Page)
        → g ≢ f
        → page_at s.pages g ≡ some p
        → find p.page_id s.page_table ≡ some g
    pub idle : (g : ℕ) → g < s.pool_size → g ≢ f → in_at s.replacer g ≡ is_idle (page_at s.pages g)

  -- A pinned page whose id is not listed fills the frame.
  pub install-Inv :
      (s : Pool d) (f : ℕ) (page : Page) (disk : d.State)
      → Vacant s f
      → find page.page_id s.page_table ≡ none
      → page.pin_count ≢ 0
      → Inv (install d f page disk s)
  unfolding install
  install-Inv s f page disk v new pinned = record {
    page_count = length-set s.pages f (some page) ∙ v.page_count;
    frame_count = unfold Layered.pin in (ground (arith, v.frame_count));
    formed = pin-IsWellFormed (pos f) s.replacer v.formed;
    listed = λ id g e. elim (Bool-cases (eqb_ℤ page.page_id id)) [
      | inl same ↦
          let here : f ≡ g = ground (arith, find-put page.page_id id f s.page_table, e) in
          (
            omega (arith, here, v.in_range),
            (page, ground (arith, now g, nat_eqb_iff f g), (eqb_ℤ_iff page.page_id id).0 same),
          )
      | inr other ↦
          let old : find id s.page_table ≡ some g =
            ground (arith, find-put page.page_id id f s.page_table, e) in
          let (n, lt, (p, at, named)) = v.listed id g old in
          (lt, (p, ground (arith, now g, nat_eqb_iff f g, n), named))
    ];
    filed = λ g p e. elim (Bool-cases (nat_eqb f g)) [
      | inl same ↦
          let it : page ≡ p = ground (arith, now g, e) in
          rw (← it) (
            ground (
              arith,
              find-put page.page_id page.page_id f s.page_table,
              eqb_ℤ_iff page.page_id page.page_id,
              nat_eqb_iff f g,
            ))
      | inr other ↦
          let old : find p.page_id s.page_table ≡ some g =
            v.filed g p (λ q. ground (arith, nat_eqb_iff f g)) (ground (arith, now g, e)) in
          ground (
            arith,
            find-put page.page_id p.page_id f s.page_table,
            eqb_ℤ_iff page.page_id p.page_id,
            ap (λ i. find i s.page_table),
          )
    ];
    idle = λ g lt. elim (Bool-cases (nat_eqb f g)) [
      | inl same ↦
          unfold eqb_ℤ in
          ground (
            arith,
            in_at-pin (pos f) s.replacer g v.formed (omega (arith, v.frame_count, lt)),
            ap is_idle (now g),
            nat_eqb_iff page.pin_count 0,
          )
      | inr other ↦
          unfold eqb_ℤ in
          ground (
            arith,
            in_at-pin (pos f) s.replacer g v.formed (omega (arith, v.frame_count, lt)),
            ap is_idle (now g),
            v.idle g lt,
            nat_eqb_iff f g,
          )
    ];
  }
    where
      now :
          (g : ℕ)
          → page_at (set s.pages f (some page)) g
            ≡ (if nat_eqb f g then some page else page_at s.pages g)
      now g = page_at-set s.pages f g (some page) (omega (arith, v.in_range, v.page_count))

  -- A new pool with at least one frame agrees.
  pub init-Inv : (n : ℕ) (disk : d.State) → 0 < n → Inv (init d n disk)
  unfolding find
  init-Inv n disk pos_n = record {
    page_count = length-replicate n none;
    frame_count = refl;
    formed = record {
      use_size = length-replicate n false;
      in_size = length-replicate n false;
      hot_size = length-replicate n true;
      hand_in = pos_n;
    };
    listed = λ id f e. absurd (ground arith);
    filed = λ f p e. absurd (ground (arith, no_page n f));
    idle = λ f lt. get_or-replicate n f false ∙ sym (ap is_idle (no_page n f));
  }
