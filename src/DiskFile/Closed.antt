-- ===== src/DiskFile/Closed.antt =====
-- What a disk manager reads once it has written a page (DiskManager.cpp): `WritePage` closes the
-- stream that `OpenManager` opened, and `ReadPage` does not open it again; `OpenManager` would.
use altas_dbpro.Prelude.{
  ℕ, ◌≡◌, refl, ap, ◌∙◌, inl, inr, Bool, true, false, Bool-cases, arith, Option, none, some, List,
  [], ◌∷◌, if◌then◌else◌, ltb,
}
use altas_dbpro.Prelude.Ints.{ℤ, pos, negsuc}
use altas_dbpro.Page.{page_size}
use altas_dbpro.DiskFile.{
  Stream, DiskManager, open_both, open_out, close, seek_end, seek, read, write, reopen,
  open_manager, offset, read_page, write_page, alloc_page,
}

-- The public calls of the disk manager, and a history of them. `FlushPage` is empty, and
-- `FlushAllPages` only flushes the stream.
pub data Call : Type 0 where
  reading : ℤ → List ℕ → Call
  writing : ℤ → List ℕ → ℕ → Call
  allocating : Call
  opening : Call
  flushing : Call

abbrev pub step : Call → DiskManager → DiskManager
step (reading id buffer) m = (read_page id buffer m).1
step (writing id buffer n) m = write_page id buffer n m
step allocating m = (alloc_page m).1
step opening m = reopen m
step flushing m = m

abbrev pub run : List Call → DiskManager → DiskManager
run [] m = m
run (c ∷ cs) m = run cs (step c m)

abbrev pub is_opening : Call → Bool
is_opening opening = true
is_opening _ = false

-- No call of the history is `OpenManager`.
abbrev pub NoOpening : List Call → Type 0
NoOpening [] = Unit
NoOpening (c ∷ cs) = (is_opening c ≡ false) × NoOpening cs

close_lem : (s : Stream) → (close s).is_open ≡ false
unfolding close
close_lem s = elim (Bool-cases s.is_open) [ inl e ↦ rw e refl | inr e ↦ rw e refl ]

seek-closed : (o : ℤ) (s : Stream) → s.is_open ≡ false → (seek o s).is_open ≡ false
unfolding seek
seek-closed (negsuc o) s e = e
seek-closed (pos o) s e = elim (Bool-cases s.failed) [ inl f ↦ rw f e | inr f ↦ rw (f, e) refl ]

-- A closed stream reads nothing.
read-closed :
    (n : ℕ) (buffer : List ℕ) (s : Stream)
    → s.is_open ≡ false
    → ((read n buffer s).0 ≡ buffer) × ((read n buffer s).1.is_open ≡ false)
unfolding read
read-closed n buffer s e = elim (Bool-cases s.failed) [
  | inl f ↦ (rw f refl, rw f e)
  | inr f ↦ (rw (f, e) refl, rw (f, e) refl)
]

abbrev IsClosed : DiskManager → Type 0
IsClosed m = m.stream.is_open ≡ false

write_page-IsClosed :
    (id : ℤ) (buffer : List ℕ) (n : ℕ) (m : DiskManager) → IsClosed (write_page id buffer n m)
unfolding write_page
write_page-IsClosed id buffer n m = close_lem (
    write (if ltb n page_size then n else page_size) buffer (seek (offset id) (open_both m.stream)))

read_page-IsClosed :
    (id : ℤ) (buffer : List ℕ) (m : DiskManager)
    → IsClosed m
    → ((read_page id buffer m).0 ≡ buffer) × IsClosed (read_page id buffer m).1
unfolding read_page
read_page-IsClosed id buffer m e =
    read-closed page_size buffer (seek (offset id) m.stream) (seek-closed (offset id) m.stream e)

run-IsClosed : (cs : List Call) (m : DiskManager) → NoOpening cs → IsClosed m → IsClosed (run cs m)
unfolding alloc_page
run-IsClosed [] m h e = e
run-IsClosed (reading id buffer ∷ cs) m h e =
    run-IsClosed cs (read_page id buffer m).1 h.1 (read_page-IsClosed id buffer m e).1
run-IsClosed (writing id buffer n ∷ cs) m h e =
    run-IsClosed cs (write_page id buffer n m) h.1 (write_page-IsClosed id buffer n m)
run-IsClosed (allocating ∷ cs) m h e = run-IsClosed cs (alloc_page m).1 h.1 e
run-IsClosed (opening ∷ cs) m h e = absurd (ground (arith, h.0))
run-IsClosed (flushing ∷ cs) m h e = run-IsClosed cs m h.1 e

-- After a first `WritePage`, whatever the state before it and whatever calls other than `OpenManager`
-- follow it, `ReadPage` leaves the bytes in the caller's buffer as they were.
pub read_page-write_page :
    (m : DiskManager) (written : ℤ) (bytes : List ℕ) (n : ℕ) (cs : List Call) (id : ℤ)
    (buffer : List ℕ)
    → NoOpening cs
    → (read_page id buffer (run cs (write_page written bytes n m))).0 ≡ buffer
read_page-write_page m written bytes n cs id buffer h =
    (read_page-IsClosed id buffer (run cs (write_page written bytes n m))
      (run-IsClosed cs (write_page written bytes n m) h (write_page-IsClosed written bytes n m))).0

open_manager_open : (file : Option (List ℕ)) → (open_manager file).stream.is_open ≡ true
unfolding open_manager reopen open_both open_out close seek_end
open_manager_open none = refl
open_manager_open (some bytes) = refl

-- A failed stream keeps its file.
open_both-open : (s : Stream) → s.is_open ≡ true → open_both s ≡ record s { failed = true }
unfolding open_both
open_both-open s e = rw e refl

seek-failed :
    (o : ℤ) (s : Stream) → s.failed ≡ true → ((seek o s).file ≡ s.file) × ((seek o s).failed ≡ true)
unfolding seek
seek-failed (pos o) s f = rw f (refl, refl)
seek-failed (negsuc o) s f = (refl, refl)

write-failed :
    (n : ℕ) (bytes : List ℕ) (s : Stream) → s.failed ≡ true → (write n bytes s).file ≡ s.file
unfolding write
write-failed n bytes s f = rw f refl

close_file : (s : Stream) → (close s).file ≡ s.file
unfolding close
close_file s = elim (Bool-cases s.is_open) [ inl e ↦ rw e refl | inr e ↦ rw e refl ]

-- The first `WritePage` after the constructor, whether the file was there or not, writes nothing.
pub write_page-open_manager :
    (file : Option (List ℕ)) (id : ℤ) (bytes : List ℕ) (n : ℕ)
    → (write_page id bytes n (open_manager file)).stream.file ≡ (open_manager file).stream.file
unfolding write_page
write_page-open_manager file id bytes n =
    let s = (open_manager file).stream in
    let size = if ltb n page_size then n else page_size in
    let again : Stream = record s { failed = true } in
    let (same, bad) = seek-failed (offset id) again refl in
    ap (λ r. (close (write size bytes (seek (offset id) r))).file)
      (open_both-open s (open_manager_open file))
    ∙ close_file (write size bytes (seek (offset id) again))
    ∙ write-failed size bytes (seek (offset id) again) bad
    ∙ same
