-- ===== src/BufferPool/Tests.antt =====
-- BufferPoolManager.cpp over a disk that keeps pages in a list.
use altas_dbpro.Prelude.{◌≡◌, ℕ, suc, refl, true, false, Option, none, some, List, [], ◌∷◌, arith}
use altas_dbpro.Prelude.Ints.{ℤ, pos, int_eq}
use altas_dbpro.Prelude.Maps.{find, put, IsMap}
use altas_dbpro.Page.{Page, new_page, set_dirty}
use altas_dbpro.BufferPool.{
  Disk, Pool, init, install, fetch_page, page_at, on_page, flush_all_pages, new_page_in, unpin_page,
  delete_page, flush_page,
}
use altas_dbpro.BufferPool.Invariant.{Inv, init-Inv, install-Inv}
use altas_dbpro.BufferPool.Taking.{free-Vacant}
use altas_dbpro.BufferPool.Flushing.{Flushed, flush_page-Flushed}
use altas_dbpro.BufferPool.Calls.{
  Fetches, Makes, IsFreshAlloc, fetch_page-Fetches, new_page_in-Makes,
}
use altas_dbpro.BufferPool.Cleaning.{saved_all, flush_all_pages-Clean}
use altas_dbpro.BufferPool.Releasing.{Unpinned, Deleted, unpin_page-Unpinned, delete_page-Deleted}

abbrev or_old : List ℕ → Option (List ℕ) → List ℕ
or_old old none = old
or_old old (some bytes) = bytes

-- The written pages and the next id.
abbrev pub disk : Disk
disk = record {
  State = List (ℤ × List ℕ) × ℕ;
  read = λ id bytes s. (or_old bytes (find id s.0), s);
  write = λ id bytes n s. (put id bytes s.0, s.1);
  alloc = λ s. (pos s.1, (s.0, suc s.1));
}

abbrev pub pool : Pool disk
pool = init disk 1 (((pos 7, 1 ∷ 2 ∷ []) ∷ []), 8)

pool-Inv : Inv {d = disk} pool
pool-Inv = init-Inv 1 (((pos 7, 1 ∷ 2 ∷ []) ∷ []), 8) (omega arith)

fetch_page-Fetches_example :
    Fetches {d = disk} false (pos 7) pool (fetch_page disk false (pos 7) pool)
fetch_page-Fetches_example = fetch_page-Fetches {d = disk} false pool (pos 7) pool-Inv

pool-IsFreshAlloc : IsFreshAlloc {d = disk} pool
unfolding find
pool-IsFreshAlloc s wrote = refl

new_page_in-Makes_example : Makes {d = disk} false pool (new_page_in disk false pool)
new_page_in-Makes_example = new_page_in-Makes {d = disk} false pool pool-Inv pool-IsFreshAlloc

abbrev seven : Page
seven = record new_page { page_id = pos 7; pin_count = 1; is_dirty = true }

-- The pool with page 7, pinned once, in its only frame.
abbrev busy : Pool disk
busy = install disk 0 seven ([], 8) pool

busy-Inv : Inv {d = disk} busy
unfolding find
busy-Inv =
    install-Inv {d = disk} pool 0 seven ([], 8)
      (free-Vacant {d = disk} pool 0 pool-Inv (omega arith) refl) refl (λ e. omega (arith, e))

unpin_page-Unpinned_example :
    Unpinned {d = disk} (pos 7) true busy (unpin_page disk (pos 7) true busy)
unpin_page-Unpinned_example = unpin_page-Unpinned {d = disk} busy (pos 7) true busy-Inv

delete_page-Deleted_example : Deleted {d = disk} (pos 7) busy (delete_page disk (pos 7) busy)
delete_page-Deleted_example = delete_page-Deleted {d = disk} busy (pos 7) busy-Inv

flush_page-Flushed_example : Flushed {d = disk} (pos 7) busy (flush_page disk (pos 7) busy)
flush_page-Flushed_example = flush_page-Flushed {d = disk} busy (pos 7) busy-Inv

busy-IsMap : IsMap busy.page_table
unfolding find put install
busy-IsMap = (refl, tt)

flush_all_pages-Clean_example :
    Inv {d = disk} (flush_all_pages disk busy)
    × ((flush_all_pages disk busy).page_table ≡ busy.page_table)
    × ((g : ℕ)
        → page_at (flush_all_pages disk busy).pages g
          ≡ on_page (set_dirty false) (page_at busy.pages g))
    × ((flush_all_pages disk busy).disk ≡ saved_all disk busy.page_table busy.pages busy.disk)
flush_all_pages-Clean_example = flush_all_pages-Clean {d = disk} busy busy-Inv busy-IsMap
