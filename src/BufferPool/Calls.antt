-- ===== src/BufferPool/Calls.antt =====
-- The calls of BufferPoolManager.cpp on a pool whose frames, page table and replacer agree.
use altas_dbpro.Prelude.{
  ℕ, ◌<◌, ◌≡◌, ◌≢◌, refl, ap, sym, ◌∙◌, ◌⊎◌, inl, inr, Bool, true, false, Option, none, some, List,
  arith, if◌then◌else◌, length-set, set, nat_eq, nat_eqb, nat_eqb_iff, Bool-cases, Option-cases,
}
use altas_dbpro.Prelude.Ints.{ℤ, pos, int_eq, eqb_ℤ}
use altas_dbpro.Prelude.Maps.{find}
use altas_dbpro.Prelude.Run.{Run, done, blocked, ◌>>=◌}
use altas_dbpro.Page.{Page, zero_bytes, reset, set_page_id, set_data, set_dirty}
use altas_dbpro.Page
use altas_dbpro.Replacer.Layered.{LayeredClock}
use altas_dbpro.Replacer.Layered
use altas_dbpro.Replacer.Layered.Rounds.{IsWellFormed, in_at}
use altas_dbpro.Replacer.Layered.Updates.{pin-IsWellFormed, in_at-pin}
use altas_dbpro.BufferPool.{
  Disk, Pool, page_at, install, cleared_page, load_page, then_load, pin_resident, fetch_page,
  make_page, then_make, new_page_in,
}
use altas_dbpro.BufferPool.Frames.{page_at-set}
use altas_dbpro.BufferPool.Invariant.{is_idle, Inv, Vacant, install-Inv}
use altas_dbpro.BufferPool.Taking.{
  AllPinned, Saved, Frame, ready, refused, HasNull, NoNull, Taken, waits, takes, take_frame-Taken,
}

pin-counts : (p : Page) → ((Page.pin p).pin_count ≢ 0) × ((Page.pin p).page_id ≡ p.page_id)
unfolding Page.pin
pin-counts p = (λ e. omega (arith, e), refl)

same_bytes : (p : Page) → (Page.pin p).page_data ≡ p.page_data
unfolding Page.pin
same_bytes p = refl

module _ {d : Disk} where
  -- Another page of the same id in a frame, with the replacer told.
  pub change-Inv :
      (s : Pool d) (f : ℕ) (p q : Page) (rep : LayeredClock) (disk : d.State)
      → Inv s
      → f < s.pool_size
      → page_at s.pages f ≡ some p
      → q.page_id ≡ p.page_id
      → IsWellFormed rep
      → rep.frame_count ≡ s.replacer.frame_count
      → ((g : ℕ)
          → g < s.pool_size
          → in_at rep g ≡ (if nat_eqb f g then is_idle (some q) else in_at s.replacer g))
      → Inv (record s { pages = set s.pages f (some q); replacer = rep; disk = disk })
  change-Inv s f p q rep disk h lt at same w count in_now = record {
    page_count = length-set s.pages f (some q) ∙ h.page_count;
    frame_count = count ∙ h.frame_count;
    formed = w;
    listed = λ id g e.
        let (lt', (r, at', named)) = h.listed id g e in
        (
          lt',
          elim (Bool-cases (nat_eqb f g)) [
            | inl here ↦
                let it : p ≡ r =
                  ground (arith, at, at', ap (page_at s.pages) ((nat_eqb_iff f g).0 here)) in
                (q, ground (arith, now g), same ∙ ap (λ x. x.page_id) it ∙ named)
            | inr there ↦ (r, ground (arith, now g), named)
          ],
        );
    filed = λ g r e. elim (Bool-cases (nat_eqb f g)) [
      | inl here ↦
          let it : q ≡ r = ground (arith, now g, e) in
          ap (λ x. find x.page_id s.page_table) (sym it)
          ∙ ap (λ i. find i s.page_table) same
          ∙ h.filed f p at
          ∙ ap some ((nat_eqb_iff f g).0 here)
      | inr there ↦ h.filed g r (ground (arith, now g, e))
    ];
    idle = λ g lt'. ground (arith, in_now g lt', ap is_idle (now g), h.idle g lt');
  }
    where
      now :
          (g : ℕ)
          → page_at (set s.pages f (some q)) g ≡ (if nat_eqb f g then some q else page_at s.pages g)
      now g = page_at-set s.pages f g (some q) (omega (arith, lt, h.page_count))

  pin_resident-Inv :
      (s : Pool d) (f : ℕ) (p : Page)
      → Inv s
      → f < s.pool_size
      → page_at s.pages f ≡ some p
      → Inv (pin_resident d f s) × (page_at (pin_resident d f s).pages f ≡ some (Page.pin p))
  unfolding pin_resident
  pin_resident-Inv s f p h lt at = (
    rw at (
        change-Inv s f p (Page.pin p) (Layered.pin (pos f) s.replacer) s.disk h lt at
          (pin-counts p).1 (pin-IsWellFormed (pos f) s.replacer h.formed)
          (unfold Layered.pin in (ground arith))
          (λ g lt'.
            unfold eqb_ℤ in
            (ground (
              arith,
              in_at-pin (pos f) s.replacer g h.formed (omega (arith, lt', h.frame_count)),
              (pin-counts p).0,
              nat_eqb_iff (Page.pin p).pin_count 0,
            )))),
    rw at (
        ground (
          arith,
          page_at-set s.pages f f (some (Page.pin p)) (omega (arith, lt, h.page_count)),
          nat_eqb_iff f f,
        )),
  )

  -- What `FetchPage(id)` answers: a frame with the page `id`, pinned and listed, in a pool that
  -- agrees again, with bytes that `Holds` says; or nothing, if the page is not in the pool and every
  -- frame is pinned.
  pub data Fetched (id : ℤ) (Holds : List ℕ → Type 0) (s : Pool d)
      : Pool d × Option ℕ → Type 0 where
    fetched :
        (t : Pool d) (f : ℕ) (p : Page)
        → Inv t
        → page_at t.pages f ≡ some p
        → p.page_id ≡ id
        → p.pin_count ≢ 0
        → Holds p.page_data
        → Fetched id Holds s (t, some f)
    unavailable : find id s.page_table ≡ none → AllPinned s → Fetched id Holds s (s, none)

  -- The pinned page that fills a vacant frame.
  install-Fetched :
      (Holds : List ℕ → Type 0) (s t : Pool d) (f : ℕ) (id : ℤ) (page : Page) (disk : d.State)
      → Vacant t f
      → find id t.page_table ≡ none
      → page.page_id ≡ id
      → page.pin_count ≢ 0
      → Holds page.page_data
      → Fetched id Holds s (install d f page disk t, some f)
  install-Fetched Holds s t f id page disk v new named pinned held =
      fetched (install d f page disk t) f page (install-Inv t f page disk v (rw named new) pinned)
        (unfold install in
          (ground (
            arith,
            page_at-set t.pages f f (some page) (omega (arith, v.in_range, v.page_count)),
            nat_eqb_iff f f,
          )))
        named pinned held

  -- The bytes of the page `id`: those it has in the pool, or those that `ReadPage` makes of an empty
  -- page, on the disk as it was or after one page of the pool was written to it.
  abbrev pub Current : ℤ → Pool d → List ℕ → Type 0
  Current id s bytes =
      ((f : ℕ) × (p : Page) × (find id s.page_table ≡ some f)
        × (page_at s.pages f ≡ some p)
        × (bytes ≡ p.page_data))
      ⊎ ((disk : d.State) × (find id s.page_table ≡ none)
          × Saved s disk
          × (bytes ≡ (d.read id zero_bytes disk).0))

  load_page-Fetched :
      (s t : Pool d) (f : ℕ) (id : ℤ)
      → Vacant t f
      → find id t.page_table ≡ none
      → find id s.page_table ≡ none
      → Saved s t.disk
      → Fetched id (Current id s) s (load_page d id f t, some f)
  unfolding load_page cleared_page set_page_id set_data reset Page.pin
  load_page-Fetched s t f id v new missing wrote =
      install-Fetched (Current id s) s t f id _ _ v new refl (λ e. omega (arith, e))
        (inr (t.disk, missing, wrote, refl))

  then_load-Fetched :
      (id : ℤ) (s : Pool d) (r : Pool d × Option ℕ)
      → find id s.page_table ≡ none
      → Frame s r
      → Fetched id (Current id s) s (then_load d id r)
  then_load-Fetched id s _ missing (ready t f v wrote keeps) =
      load_page-Fetched s t f id v (keeps id missing) missing wrote
  then_load-Fetched id s _ missing (refused pinned) = unavailable missing pinned

  -- How `FetchPage(id)` ends: it waits for ever, or it returns.
  pub data Fetches (reentrant : Bool) (id : ℤ) (s : Pool d) : Run (Pool d × Option ℕ) → Type 0 where
    fetch_waits :
        reentrant ≡ false → find id s.page_table ≡ none → NoNull s → Fetches reentrant id s blocked
    fetch_returns :
        (r : Pool d × Option ℕ)
        → ((f : ℕ) × (find id s.page_table ≡ some f)) ⊎ ((reentrant ≡ true) ⊎ HasNull s)
        → Fetched id (Current id s) s r
        → Fetches reentrant id s (done r)

  then_load-Fetches :
      (reentrant : Bool) (id : ℤ) (s : Pool d) {out : Run (Pool d × Option ℕ)}
      → find id s.page_table ≡ none
      → Taken reentrant s out
      → Fetches reentrant id s (out >>= λ r. done (then_load d id r))
  then_load-Fetches reentrant id s missing (waits strict all) = fetch_waits strict missing all
  then_load-Fetches reentrant id s missing (takes r room frame) =
      fetch_returns (then_load d id r) (inr room) (then_load-Fetched id s r missing frame)

  -- On every pool whose frames, page table and replacer agree, whether the replacer's mutex may be
  -- locked twice by its holder or not: `FetchPage(id)` waits for ever if it may not, the page is not
  -- in the pool and no frame is null, and in no other case. Else it returns. It answers a frame that
  -- holds the page `id`, pinned, and the pool agrees again; its bytes are those it had in the pool, or
  -- if it was not there those that `ReadPage` makes of an empty page, on the disk as it was or after
  -- one page of the pool was written to it. Or it answers null and changes nothing, and then the page
  -- is not in the pool and every frame holds a pinned page.
  pub fetch_page-Fetches :
      (reentrant : Bool) (s : Pool d) (id : ℤ)
      → Inv s
      → Fetches reentrant id s (fetch_page d reentrant id s)
  unfolding fetch_page
  fetch_page-Fetches reentrant s id h = elim (Option-cases (find id s.page_table)) [
    | inl missing ↦
        rw (missing, fetch_page)
          (then_load-Fetches reentrant id s missing (take_frame-Taken reentrant s h))
    | inr (f, listed) ↦
        let (lt, (p, at, named)) = h.listed id f listed in
        let (kept, now) = pin_resident-Inv s f p h lt at in
        rw (listed, fetch_page)
          (fetch_returns (pin_resident d f s, some f) (inl (f, listed))
            (fetched (pin_resident d f s) f (Page.pin p) kept now ((pin-counts p).1 ∙ named)
              (pin-counts p).0 (inl (f, p, listed, at, same_bytes p))))
  ]

  -- What `NewPage` answers: a frame with a page of the allocated id, or nothing if every frame is
  -- pinned.
  pub data Made (s : Pool d) : Pool d × Option ℕ → Type 0 where
    made :
        (t u : Pool d) (f : ℕ)
        → Frame s (t, some f)
        → Fetched (d.alloc t.disk).0 (λ bytes. bytes ≡ zero_bytes) s (u, some f)
        → Made s (u, some f)
    no_frame : AllPinned s → Made s (s, none)

  -- The id that the disk manager allocates next is missing from the page table, also if a page of
  -- the pool is written first.
  abbrev pub IsFreshAlloc : Pool d → Type 0
  IsFreshAlloc s = (disk : d.State) → Saved s disk → find (d.alloc disk).0 s.page_table ≡ none

  make_page-Fetched :
      (s t : Pool d) (f : ℕ)
      → Vacant t f
      → find (d.alloc t.disk).0 t.page_table ≡ none
      → Fetched (d.alloc t.disk).0 (λ bytes. bytes ≡ zero_bytes) s (make_page d f t, some f)
  unfolding make_page cleared_page set_page_id set_dirty reset Page.pin
  make_page-Fetched s t f v new =
      install-Fetched (λ bytes. bytes ≡ zero_bytes) s t f (d.alloc t.disk).0 _ _ v new refl
        (λ e. omega (arith, e)) refl

  then_make-Made :
      (s : Pool d) (r : Pool d × Option ℕ) → IsFreshAlloc s → Frame s r → Made s (then_make d r)
  then_make-Made s _ new (ready t f v wrote keeps) =
      made t (make_page d f t) f (ready t f v wrote keeps)
        (make_page-Fetched s t f v (keeps (d.alloc t.disk).0 (new t.disk wrote)))
  then_make-Made s _ new (refused pinned) = no_frame pinned

  -- How `NewPage` ends: it waits for ever, or it returns.
  pub data Makes (reentrant : Bool) (s : Pool d) : Run (Pool d × Option ℕ) → Type 0 where
    make_waits : reentrant ≡ false → NoNull s → Makes reentrant s blocked
    make_returns :
        (r : Pool d × Option ℕ)
        → (reentrant ≡ true) ⊎ HasNull s
        → Made s r
        → Makes reentrant s (done r)

  then_make-Makes :
      (reentrant : Bool) (s : Pool d) {out : Run (Pool d × Option ℕ)}
      → IsFreshAlloc s
      → Taken reentrant s out
      → Makes reentrant s (out >>= λ r. done (then_make d r))
  then_make-Makes reentrant s new (waits strict all) = make_waits strict all
  then_make-Makes reentrant s new (takes r room frame) =
      make_returns (then_make d r) room (then_make-Made s r new frame)

  -- On every pool whose frames, page table and replacer agree, whether the replacer's mutex may be
  -- locked twice by its holder or not, where the disk manager allocates an id that is not in the page
  -- table, also after it wrote a page of the pool: `NewPage` waits for ever if the mutex may not be
  -- locked twice and no frame is null, and in no other case. Else it returns. It answers a frame with
  -- a page of the allocated id, pinned and all zeros, and the pool agrees again; or it answers null, changes nothing
  -- and allocates no id, and then every frame holds a pinned page.
  pub new_page_in-Makes :
      (reentrant : Bool) (s : Pool d)
      → Inv s
      → IsFreshAlloc s
      → Makes reentrant s (new_page_in d reentrant s)
  unfolding new_page_in
  new_page_in-Makes reentrant s h new =
      then_make-Makes reentrant s new (take_frame-Taken reentrant s h)
