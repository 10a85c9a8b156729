-- ===== src/BufferPool/Releasing.antt =====
-- `UnpinPage` and `DeletePage` of BufferPoolManager.cpp.
use altas_dbpro.Prelude.{
  ℕ, ◌+◌, ◌<◌, ◌≡◌, ◌≢◌, refl, ap, ◌∙◌, inl, inr, Bool, true, false, ◌||◌, none, some, arith,
  if◌then◌else◌, length-set, set, ◌==◌, nat_eq, nat_eqb, nat_eqb_iff, ltb, Bool-cases, Option-cases,
}
use altas_dbpro.Prelude.Ints.{ℤ, pos, int_eq, eqb_ℤ, eqb_ℤ_iff}
use altas_dbpro.Prelude.Maps.{find, remove, find-remove}
use altas_dbpro.Page.{Page, set_dirty, is_hot, page_size}
use altas_dbpro.Page
use altas_dbpro.Replacer.Layered.{LayeredClock}
use altas_dbpro.Replacer.Layered
use altas_dbpro.Replacer.Layered.Rounds.{IsWellFormed, in_at}
use altas_dbpro.Replacer.Layered.Updates.{
  pin-IsWellFormed, in_at-pin, unpin-IsWellFormed, in_at-unpin,
}
use altas_dbpro.BufferPool.{Disk, Pool, page_at, unpin_at, unpin_page, delete_at, delete_page}
use altas_dbpro.BufferPool.Frames.{page_at-set}
use altas_dbpro.BufferPool.Invariant.{is_idle, Inv}
use altas_dbpro.BufferPool.Calls.{change-Inv}

-- The page that `UnpinPage` leaves in the frame.
abbrev released_page : Bool → Page → Page
released_page dirty p = if dirty then set_dirty true (Page.unpin p) else Page.unpin p

released_page_lem :
    (dirty : Bool) (p : Page)
    → p.pin_count ≢ 0
    → ((released_page dirty p).pin_count + 1 ≡ p.pin_count)
      × ((released_page dirty p).is_dirty ≡ dirty || p.is_dirty)
      × ((released_page dirty p).page_id ≡ p.page_id)
      × ((released_page dirty p).page_data ≡ p.page_data)
unfolding set_dirty Page.unpin
released_page_lem true p n = (ground arith, refl, refl, refl)
released_page_lem false p n = (ground arith, refl, refl, refl)

-- The replacer after the call.
abbrev told : ℕ → Page → LayeredClock → LayeredClock
told f q rep = if q.pin_count == 0 then Layered.unpin (pos f) (is_hot q.temperature) rep else rep

told_lem :
    (f n : ℕ) (q : Page) (rep : LayeredClock)
    → IsWellFormed rep
    → rep.frame_count ≡ n
    → in_at rep f ≡ false
    → IsWellFormed (told f q rep)
      × ((told f q rep).frame_count ≡ rep.frame_count)
      × ((g : ℕ)
          → g < n
          → in_at (told f q rep) g ≡ (if nat_eqb f g then is_idle (some q) else in_at rep g))
told_lem f n q rep w size out = elim (Bool-cases (q.pin_count == 0)) [
  | inl z ↦ rw z (
    unpin-IsWellFormed (pos f) (is_hot q.temperature) rep w,
    unfold Layered.unpin in (ground arith),
    λ g lt.
        unfold eqb_ℤ in
        (ground (
          arith,
          (in_at-unpin (pos f) (is_hot q.temperature) rep g w (omega (arith, size, lt))).0,
        )),
  )
  | inr z ↦ rw z (w, refl, λ g lt. ground (arith, out, nat_eqb_iff f g, ap (in_at rep)))
]

module _ {d : Disk} where
  -- What `UnpinPage(id, dirty)` answers. False, with nothing changed, if the page is not in the pool
  -- or not pinned; else true, and the page is pinned once less, dirty if it was or if the caller says
  -- so, with the same bytes, and the pool agrees again.
  pub data Unpinned (id : ℤ) (dirty : Bool) (s : Pool d) : Pool d × Bool → Type 0 where
    not_listed : find id s.page_table ≡ none → Unpinned id dirty s (s, false)
    loose :
        (f : ℕ) (p : Page)
        → find id s.page_table ≡ some f
        → page_at s.pages f ≡ some p
        → p.pin_count ≡ 0
        → Unpinned id dirty s (s, false)
    unpinned :
        (t : Pool d) (f : ℕ) (p q : Page)
        → find id s.page_table ≡ some f
        → page_at s.pages f ≡ some p
        → page_at t.pages f ≡ some q
        → q.pin_count + 1 ≡ p.pin_count
        → q.is_dirty ≡ dirty || p.is_dirty
        → q.page_data ≡ p.page_data
        → Inv t
        → Unpinned id dirty s (t, true)

  unpin_at-Unpinned :
      (s : Pool d) (id : ℤ) (dirty : Bool) (f : ℕ) (p : Page)
      → Inv s
      → find id s.page_table ≡ some f
      → f < s.pool_size
      → page_at s.pages f ≡ some p
      → Unpinned id dirty s (unpin_at d f dirty p s)
  unfolding unpin_at
  unpin_at-Unpinned s id dirty f p h e lt at = elim (Bool-cases (p.pin_count == 0)) [
    | inl z ↦ rw z (loose f p e at ((nat_eqb_iff p.pin_count 0).0 z))
    | inr n ↦
        let used : p.pin_count ≢ 0 = λ z. absurd (ground (arith, nat_eqb_iff p.pin_count 0)) in
        let q = released_page dirty p in
        let (count, dirt, same, bytes) = released_page_lem dirty p used in
        let out : in_at s.replacer f ≡ false = ground (arith, h.idle f lt, ap is_idle at) in
        let (w, size, now) = told_lem f s.pool_size q s.replacer h.formed h.frame_count out in
        rw n (
          unpinned (record s { pages = set s.pages f (some q); replacer = told f q s.replacer }) f p
            q e at
            (ground (
              arith,
              page_at-set s.pages f f (some q) (omega (arith, lt, h.page_count)),
              nat_eqb_iff f f,
            ))
            count dirt bytes
            (change-Inv s f p q (told f q s.replacer) s.disk h lt at same w size now))
  ]

  -- On a pool whose frames, page table and replacer agree, `UnpinPage` answers false and changes nothing
  -- if the page is not in the pool or not pinned. Else it answers true, the page is pinned once less, it
  -- is dirty if it was or if the caller says so, its bytes are the same, and the pool agrees again.
  pub unpin_page-Unpinned :
      (s : Pool d) (id : ℤ) (dirty : Bool) → Inv s → Unpinned id dirty s (unpin_page d id dirty s)
  unfolding unpin_page
  unpin_page-Unpinned s id dirty h = elim (Option-cases (find id s.page_table)) [
    | inl missing ↦ rw (missing, unpin_page) (not_listed missing)
    | inr (f, e) ↦
        let (lt, (p, at, _)) = h.listed id f e in
        rw (e, unpin_page) (rw at (unpin_at-Unpinned s id dirty f p h e lt at))
  ]

  -- What `DeletePage(id)` answers. False, with nothing changed, if the page is not in the pool or
  -- pinned; else true, and the page is not listed, its frame is null, and the pool agrees again.
  pub data Deleted (id : ℤ) (s : Pool d) : Pool d × Bool → Type 0 where
    unlisted : find id s.page_table ≡ none → Deleted id s (s, false)
    in_use :
        (f : ℕ) (p : Page)
        → find id s.page_table ≡ some f
        → page_at s.pages f ≡ some p
        → p.pin_count ≢ 0
        → Deleted id s (s, false)
    deleted :
        (t : Pool d) (f : ℕ)
        → find id s.page_table ≡ some f
        → find id t.page_table ≡ none
        → page_at t.pages f ≡ none
        → Inv t
        → Deleted id s (t, true)

  emptied : Pool d → ℤ → ℕ → d.State → Pool d
  emptied s id f disk = record s {
    disk = disk;
    page_table = remove id s.page_table;
    pages = set s.pages f none;
    replacer = Layered.pin (pos f) s.replacer;
  }

  emptied-Inv :
      (s : Pool d) (id : ℤ) (f : ℕ) (p : Page) (disk : d.State)
      → Inv s
      → find id s.page_table ≡ some f
      → f < s.pool_size
      → page_at s.pages f ≡ some p
      → p.page_id ≡ id
      → Inv (emptied s id f disk) × (page_at (emptied s id f disk).pages f ≡ none)
  unfolding emptied
  emptied-Inv s id f p disk h e lt at named = (
    record {
      page_count = length-set s.pages f none ∙ h.page_count;
      frame_count = unfold Layered.pin in (ground (arith, h.frame_count));
      formed = pin-IsWellFormed (pos f) s.replacer h.formed;
      listed = λ j g e'.
          let old : find j s.page_table ≡ some g =
            ground (arith, find-remove id j s.page_table, e') in
          let (lt', (q, at', named')) = h.listed j g old in
          (
            lt',
            (
              q,
              elim (Bool-cases (nat_eqb f g)) [
                | inl here ↦
                    let it : p ≡ q =
                      ground (arith, at, at', ap (page_at s.pages) ((nat_eqb_iff f g).0 here)) in
                    absurd (
                      ground (
                        arith,
                        find-remove id j s.page_table,
                        eqb_ℤ_iff id j,
                        e',
                        named,
                        named',
                        ap (λ x. x.page_id) it,
                      ))
                | inr there ↦ ground (arith, now g)
              ],
              named',
            ),
          );
      filed = λ g q e'. elim (Bool-cases (nat_eqb f g)) [
        | inl here ↦ absurd (ground (arith, now g, e'))
        | inr there ↦ ground (
          arith,
          find-remove id q.page_id s.page_table,
          eqb_ℤ_iff id q.page_id,
          h.filed g q (ground (arith, now g, e')),
          e,
          ap (λ i. find i s.page_table),
          nat_eqb_iff f g,
        )
      ];
      idle = λ g lt'.
          unfold eqb_ℤ in
          (ground (
            arith,
            in_at-pin (pos f) s.replacer g h.formed (omega (arith, lt', h.frame_count)),
            ap is_idle (now g),
            h.idle g lt',
          ));
    },
    ground (arith, now f, nat_eqb_iff f f),
  )
    where
      now :
          (g : ℕ)
          → page_at (set s.pages f none) g ≡ (if nat_eqb f g then none else page_at s.pages g)
      now g = page_at-set s.pages f g none (omega (arith, lt, h.page_count))

  -- On a pool whose frames, page table and replacer agree, `DeletePage` answers false and changes
  -- nothing if the page is not in the pool or pinned. Else it answers true, the page is not listed, its
  -- frame is null, and the pool agrees again.
  pub delete_page-Deleted : (s : Pool d) (id : ℤ) → Inv s → Deleted id s (delete_page d id s)
  unfolding delete_page delete_at emptied
  delete_page-Deleted s id h = elim (Option-cases (find id s.page_table)) [
    | inl absent ↦ rw (absent, delete_page) (unlisted absent)
    | inr (f, e) ↦
        let (lt, (p, at, named)) = h.listed id f e in
        rw (e, delete_page)
          (rw at (elim (Bool-cases (ltb 0 p.pin_count)) [
            | inl used ↦ rw used (in_use f p e at (λ z. absurd (ground arith)))
            | inr free ↦
                let disk = if p.is_dirty then d.write id p.page_data page_size s.disk else s.disk in
                let (kept, gone) = emptied-Inv s id f p disk h e lt at named in
                rw free (
                  deleted (emptied s id f disk) f e
                    (unfold emptied in
                      (ground (arith, find-remove id id s.page_table, eqb_ℤ_iff id id)))
                    gone kept)
          ]))
  ]
