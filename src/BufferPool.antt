-- ===== src/BufferPool.antt =====
-- MiniDB/src/buffer/BufferPoolManager.cpp and its header: the frames, the page table, the replacer.
-- A `Page*` that a call returns is the frame that holds the page, and `nullptr` is `none`. The disk
-- manager is a parameter: its state and the three calls that the pool makes. `reentrant` is that of
-- the replacer, whose `Victim` locks its mutex twice. Each call runs under the pool's latch.
pub mod Frames
pub mod Invariant
pub mod Taking
pub mod Calls
pub mod Releasing
pub mod Flushing
pub mod Entries
pub mod Cleaning
pub mod Access
pub mod Resident
pub mod Tests
use altas_dbpro.Prelude.{
  ℕ, ◌+◌, Bool, true, false, Option, none, some, List, [], ◌∷◌, if◌then◌else◌, ltb, get_or, set,
  replicate, ◌==◌, nat_eq,
}
use altas_dbpro.Prelude.Ints.{ℤ, pos, int_eq}
use altas_dbpro.Prelude.Run.{Run, done, ◌>>=◌}
use altas_dbpro.Prelude.Maps.{find, put, remove}
use altas_dbpro.Page.{Page, new_page, reset, set_page_id, set_dirty, set_data, is_hot, page_size}
use altas_dbpro.Page
use altas_dbpro.Replacer.Layered.{LayeredClock}
use altas_dbpro.Replacer.Layered

-- `ReadPage` fills the page's bytes, `WritePage` takes an id, bytes and their number, and `AllocPage`
-- gives an id.
pub record Disk : Type 1 where
  pub State : Type 0
  pub read : ℤ → List ℕ → State → List ℕ × State
  pub write : ℤ → List ℕ → ℕ → State → State
  pub alloc : State → ℤ × State

module _ (d : Disk) where
  open d use {State, read, write, alloc}

  pub record Pool : Type 0 where
    pub pages : List (Option Page)
    pub page_table : List (ℤ × ℕ)
    pub replacer : LayeredClock
    pub disk : State
    pub pool_size : ℕ

  abbrev pub init : ℕ → State → Pool
  init n s = record {
    pages = replicate n none;
    page_table = [];
    replacer = Layered.init n;
    disk = s;
    pool_size = n;
  }

-- `pages[frame]`.
abbrev pub page_at : List (Option Page) → ℕ → Option Page
page_at pages f = get_or pages f none

-- A call of a method on `pages[frame]`, which is not null where the pool makes one.
abbrev pub on_page : (Page → Page) → Option Page → Option Page
on_page g none = none
on_page g (some p) = some (g p)

abbrev pub modify : ℕ → (Page → Page) → List (Option Page) → List (Option Page)
modify f g pages = set pages f (on_page g (page_at pages f))

-- The loop that looks for a null entry, from the frame `i` on.
unfoldable pub first_free : List (Option Page) → ℕ → Option ℕ
first_free [] i = none
first_free (none ∷ pages) i = some i
first_free (some p ∷ pages) i = first_free pages (i + 1)

abbrev pub or_new_page : Option Page → Page
or_new_page none = new_page
or_new_page (some p) = p

module _ (d : Disk) where
  open d use {State, read, write, alloc}

  -- `if (page->IsDirty()) disk_manager->WritePage(...)`
  unfoldable pub write_back : Page → State → State
  write_back p s = if p.is_dirty then write p.page_id p.page_data page_size s else s

  -- The victim's page, written back if it is dirty and taken out of the page table.
  unfoldable pub drop_victim : ℕ → Option Page → Pool d → Pool d × Option ℕ
  unfolding write_back
  drop_victim v none s = (s, some v)
  drop_victim v (some p) s = if ltb 0 p.pin_count then (s, none) else (
    record s { disk = write_back p s.disk; page_table = remove p.page_id s.page_table },
    some v,
  )

  abbrev pub after_victim : Pool d → LayeredClock × Option ℕ → Pool d × Option ℕ
  after_victim s (rep, none) = (record s { replacer = rep }, none)
  after_victim s (rep, some v) = drop_victim v (page_at s.pages v) (record s { replacer = rep })

  abbrev pub choose : Bool → Pool d → Option ℕ → Run (Pool d × Option ℕ)
  choose reentrant s (some f) = done (s, some f)
  choose reentrant s none = do r ← Layered.victim reentrant s.replacer; done (after_victim s r)

  -- The frame for a new page: a free one, or the replacer's victim.
  unfoldable pub take_frame : Bool → Pool d → Run (Pool d × Option ℕ)
  unfolding first_free drop_victim
  take_frame reentrant s = choose reentrant s (first_free s.pages 0)

  -- The pool with `page` in the frame `f`, listed and pinned in the replacer.
  unfoldable pub install : ℕ → Page → State → Pool d → Pool d
  install f page disk s = record s {
    pages = set s.pages f (some page);
    page_table = put page.page_id f s.page_table;
    replacer = Layered.pin (pos f) s.replacer;
    disk = disk;
  }

  unfoldable pub cleared_page : ℤ → ℕ → Pool d → Page
  cleared_page id f s = set_page_id id (reset (or_new_page (page_at s.pages f)))

  -- `ReadPage` into the cleared page of the frame.
  unfoldable pub load_page : ℤ → ℕ → Pool d → Pool d
  unfolding install cleared_page
  load_page id f s =
      let page = cleared_page id f s in
      let (bytes, disk) = read id page.page_data s.disk in
      install f (Page.pin (set_data bytes page)) disk s

  abbrev pub then_load : ℤ → Pool d × Option ℕ → Pool d × Option ℕ
  then_load id (s, none) = (s, none)
  then_load id (s, some f) = (load_page id f s, some f)

  unfoldable pub pin_resident : ℕ → Pool d → Pool d
  pin_resident f s = record s {
    pages = modify f Page.pin s.pages;
    replacer = Layered.pin (pos f) s.replacer;
  }

  unfoldable pub fetch_page : Bool → ℤ → Pool d → Run (Pool d × Option ℕ)
  unfolding pin_resident take_frame load_page find
  fetch_page reentrant id s = elim (find id s.page_table) [
    | some f ↦ done (pin_resident f s, some f)
    | none ↦ take_frame reentrant s >>= λ r. done (then_load id r)
  ]

  unfoldable pub make_page : ℕ → Pool d → Pool d
  unfolding install cleared_page
  make_page f s =
      let (id, disk) = alloc s.disk in
      install f (set_dirty false (Page.pin (cleared_page id f s))) disk s

  abbrev pub then_make : Pool d × Option ℕ → Pool d × Option ℕ
  then_make (s, none) = (s, none)
  then_make (s, some f) = (make_page f s, some f)

  unfoldable pub new_page_in : Bool → Pool d → Run (Pool d × Option ℕ)
  unfolding take_frame make_page
  new_page_in reentrant s = take_frame reentrant s >>= λ r. done (then_make r)

  -- `UnpinPage` at the page `p` of the frame `f`.
  unfoldable pub unpin_at : ℕ → Bool → Page → Pool d → Pool d × Bool
  unpin_at f dirty p s =
      let q = if dirty then set_dirty true (Page.unpin p) else Page.unpin p in
      let rep =
        if q.pin_count == 0
        then Layered.unpin (pos f) (is_hot q.temperature) s.replacer
        else s.replacer in
      if p.pin_count == 0
      then (s, false)
      else (record s { pages = set s.pages f (some q); replacer = rep }, true)

  abbrev pub at_page : ℕ → Option Page → (Page → Pool d × Bool) → Pool d → Pool d × Bool
  at_page f none k s = (s, false)
  at_page f (some p) k s = k p

  unfoldable pub unpin_page : ℤ → Bool → Pool d → Pool d × Bool
  unfolding unpin_at find
  unpin_page id dirty s = elim (find id s.page_table) [
    | none ↦ (s, false)
    | some f ↦ at_page f (page_at s.pages f) (λ p. unpin_at f dirty p s) s
  ]

  unfoldable pub flush_at : ℤ → ℕ → Page → Pool d → Pool d × Bool
  flush_at id f p s =
      if p.is_dirty
      then (
        record s {
          disk = write id p.page_data page_size s.disk;
          pages = set s.pages f (some (set_dirty false p));
        },
        true,
      )
      else (s, true)

  -- `FlushPage` and `FlushPageInternal`.
  unfoldable pub flush_page : ℤ → Pool d → Pool d × Bool
  unfolding flush_at find
  flush_page id s = elim (find id s.page_table) [
    | none ↦ (s, false)
    | some f ↦ at_page f (page_at s.pages f) (λ p. flush_at id f p s) s
  ]

  unfoldable pub delete_at : ℤ → ℕ → Page → Pool d → Pool d × Bool
  delete_at id f p s = if ltb 0 p.pin_count then (s, false) else (
    record s {
      disk = if p.is_dirty then write id p.page_data page_size s.disk else s.disk;
      page_table = remove id s.page_table;
      pages = set s.pages f none;
      replacer = Layered.pin (pos f) s.replacer;
    },
    true,
  )

  unfoldable pub delete_page : ℤ → Pool d → Pool d × Bool
  unfolding delete_at find
  delete_page id s = elim (find id s.page_table) [
    | none ↦ (s, false)
    | some f ↦ at_page f (page_at s.pages f) (λ p. delete_at id f p s) s
  ]

  -- `for (auto& pair : page_table) FlushPageInternal(pair.first);`
  unfoldable pub flush_each : List (ℤ × ℕ) → Pool d → Pool d
  flush_each [] s = s
  flush_each ((id, f) ∷ rest) s = flush_each rest (flush_page id s).0

  unfoldable pub flush_all_pages : Pool d → Pool d
  unfolding flush_each flush_page
  flush_all_pages s = flush_each s.page_table s

  abbrev pub page_is_hot : Option Page → Bool
  page_is_hot none = false
  page_is_hot (some p) = is_hot p.temperature

  unfoldable pub is_hot_page : ℤ → Pool d → Bool
  unfolding find
  is_hot_page id s = elim (find id s.page_table) [
    | none ↦ false
    | some f ↦ page_is_hot (page_at s.pages f)
  ]
