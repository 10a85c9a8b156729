-- ===== src/BufferPool/Access.antt =====
-- What the callers of BufferPoolManager.cpp do with a page that it returned. The `Page*` is the frame
-- that holds the page: they read and write its bytes, and unpin it by its id.
use altas_dbpro.Prelude.{ℕ, Bool, true, Option, none, some, List}
use altas_dbpro.Prelude.Ints.{ℤ}
use altas_dbpro.Page.{set_dirty, set_data}
use altas_dbpro.BufferPool.{Disk, Pool, page_at, modify, or_new_page, unpin_page}

module _ (d : Disk) where
  -- `GetPageId()`, `GetData()` and the writes through its result, at the page of a frame.
  abbrev pub id_of : ℕ → Pool d → ℤ
  id_of f s = (or_new_page (page_at s.pages f)).page_id

  abbrev pub bytes_of : ℕ → Pool d → List ℕ
  bytes_of f s = (or_new_page (page_at s.pages f)).page_data

  abbrev pub set_bytes : ℕ → List ℕ → Pool d → Pool d
  set_bytes f bytes s = record s { pages = modify f (set_data bytes) s.pages }

  abbrev pub mark_dirty : ℕ → Pool d → Pool d
  mark_dirty f s = record s { pages = modify f (set_dirty true) s.pages }

  -- `UnpinPage(page->GetPageId(), dirty)`
  abbrev pub release : ℕ → Bool → Pool d → Pool d
  release f dirty s = (unpin_page d (id_of f s) dirty s).0

  -- `if (page == nullptr)` on what a call of the pool returned.
  abbrev pub at_frame {ℓ} : {A : Type ℓ} → (Pool d → A) → (ℕ → Pool d → A) → Pool d × Option ℕ → A
  at_frame on_null on_frame (s, none) = on_null s
  at_frame on_null on_frame (s, some f) = on_frame f s
