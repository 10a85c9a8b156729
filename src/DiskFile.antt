-- ===== src/DiskFile.antt =====
-- MiniDB/src/storage/DiskManager.cpp and its header, over a model of `std::fstream`. A file is its
-- bytes, and may be missing. Opening a stream that is open fails, and so does opening a missing file
-- unless it is opened for output only; a failed stream ignores reads, writes and seeks until it is
-- opened again. Page ids are below 2 ^ 19, so that offsets are `int`s.
pub mod Closed
pub mod Tests
use altas_dbpro.Prelude.{
  ℕ, zero, suc, ◌+◌, ◌-◌, ◌*◌, ◌/◌, Bool, true, false, not, ◌||◌, Option, none, some, List, [], ◌∷◌,
  ◌++◌, if◌then◌else◌, length, ltb, leb, replicate,
}
use altas_dbpro.Prelude.Ints.{ℤ, pos, negsuc, ◌+ℤ◌}
use altas_dbpro.Page.{page_size}
use altas_dbpro.Bytes.{copy_in, copy_out}
use altas_dbpro.BufferPool.{Disk}

-- `std::fstream` with the file behind it.
pub record Stream : Type 0 where
  pub file : Option (List ℕ)
  pub is_open : Bool
  pub failed : Bool
  pub position : ℕ

-- `open(path, in | out | binary)` and `open(path, out | binary)`, which empties the file.
abbrev pub open_file : Option (List ℕ) → Stream → Stream
open_file none s = record s { failed = true }
open_file (some bytes) s = record s { is_open = true; failed = false; position = 0 }

unfoldable pub open_both : Stream → Stream
open_both s = if s.is_open then record s { failed = true } else open_file s.file s

unfoldable pub open_out : Stream → Stream
open_out s =
    if s.is_open
    then record s { failed = true }
    else record s { file = some []; is_open = true; failed = false; position = 0 }

unfoldable pub close : Stream → Stream
close s = if s.is_open then record s { is_open = false } else record s { failed = true }

-- `seekg` or `seekp` from the beginning.
unfoldable pub seek : ℤ → Stream → Stream
seek (pos o) s =
    if s.failed
    then s
    else if s.is_open
    then record s { position = o }
    else record s { failed = true }
seek (negsuc o) s = record s { failed = true }

abbrev pub content : Stream → List ℕ
content s = bytes_in s.file
  where
    bytes_in : Option (List ℕ) → List ℕ
    bytes_in none = []
    bytes_in (some bytes) = bytes

-- `read(buffer, n)`: as many bytes as there are, and a failure if there are too few.
unfoldable pub read : ℕ → List ℕ → Stream → List ℕ × Stream
unfolding copy_in copy_out
read n buffer s =
    if s.failed || not s.is_open
    then (buffer, record s { failed = true })
    else (let left = length (content s) - s.position in
        let k = if ltb left n then left else n in
        (
          copy_in 0 (copy_out s.position k (content s)) buffer,
          record s { position = s.position + k; failed = ltb left n },
        ))

-- `write(buffer, n)`: a gap behind the end of the file is filled with zeros.
unfoldable pub write : ℕ → List ℕ → Stream → Stream
unfolding copy_in copy_out
write n buffer s = if s.failed || not s.is_open then record s { failed = true } else record s {
  file = some (
      copy_in s.position (copy_out 0 n buffer)
        (content s ++ replicate (s.position + n - length (content s)) 0));
  position = s.position + n;
}

pub record DiskManager : Type 0 where
  pub stream : Stream
  pub next_page_id : ℕ
  pub file_size : ℤ

-- `seekg(0, std::ios::end)` and `tellg`.
unfoldable pub seek_end : Stream → Stream
seek_end s =
    if s.failed
    then s
    else if s.is_open
    then record s { position = length (content s) }
    else record s { failed = true }

abbrev pub tell : Stream → ℤ
tell s = if s.failed || not s.is_open then negsuc 0 else pos s.position

-- `file_size / PAGE_SIZE`, which is 0 for the -1 of a failed `tellg`.
abbrev pub pages_in : ℤ → ℕ
pages_in (pos n) = n / page_size
pages_in (negsuc n) = 0

-- `OpenManager`: the file is made if it is missing; a stream that is open already fails.
unfoldable pub reopen : DiskManager → DiskManager
unfolding open_both open_out close seek_end
reopen m =
    let first = open_both m.stream in
    let s = seek_end (if first.is_open then first else open_both (close (open_out first))) in
    record { stream = s; next_page_id = pages_in (tell s); file_size = tell s }

abbrev pub unopened : Option (List ℕ) → DiskManager
unopened file = record {
  stream = record { file = file; is_open = false; failed = false; position = 0 };
  next_page_id = 0;
  file_size = pos 0;
}

-- The constructor with a path.
unfoldable pub open_manager : Option (List ℕ) → DiskManager
unfolding reopen
open_manager file = reopen (unopened file)

abbrev pub offset : ℤ → ℤ
offset (pos id) = pos (id * page_size)
offset (negsuc id) = negsuc ((id + 1) * page_size - 1)

unfoldable pub read_page : ℤ → List ℕ → DiskManager → List ℕ × DiskManager
unfolding seek read
read_page id buffer m =
    let (bytes, s) = read page_size buffer (seek (offset id) m.stream) in
    (bytes, record m { stream = s })

unfoldable pub write_page : ℤ → List ℕ → ℕ → DiskManager → DiskManager
unfolding open_both seek write close
write_page id buffer size m =
    let n = if ltb size page_size then size else page_size in
    record m { stream = close (write n buffer (seek (offset id) (open_both m.stream))) }

unfoldable pub alloc_page : DiskManager → ℤ × DiskManager
alloc_page m = (
  pos m.next_page_id,
  record m { next_page_id = m.next_page_id + 1; file_size = m.file_size +ℤ pos page_size },
)

-- The disk manager as the buffer pool calls it.
abbrev pub disk_manager : Disk
disk_manager = record {
  State = DiskManager;
  read = read_page;
  write = write_page;
  alloc = alloc_page;
}
