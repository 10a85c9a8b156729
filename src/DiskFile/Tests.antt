-- ===== src/DiskFile/Tests.antt =====
-- DiskManager.cpp on a file of one page, and on a missing one.
use altas_dbpro.Prelude.{◌≡◌, refl, some, List, [], ◌∷◌, replicate}
use altas_dbpro.Prelude.Ints.{pos}
use altas_dbpro.DiskFile.{DiskManager, open_manager, read_page, write_page}
use altas_dbpro.DiskFile.Closed.{Call, writing, allocating, run, read_page-write_page}

abbrev manager : DiskManager
manager = open_manager (some (replicate 4096 7))

abbrev calls : List Call
calls = allocating ∷ writing (pos 1) (replicate 4096 2) 4096 ∷ []

read_page-write_page_example :
    (read_page
      (pos 0)
      (replicate 4096 0)
      (run calls (write_page (pos 0) (replicate 4096 1) 4096 manager))).0
    ≡ replicate 4096 0
read_page-write_page_example =
    read_page-write_page manager (pos 0) (replicate 4096 1) 4096 calls (pos 0) (replicate 4096 0)
      (refl, (refl, tt))
