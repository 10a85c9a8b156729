-- ===== src/Log/Order.antt =====
-- The log and the waiting records of LogBuffer.cpp: every record is in one of them, in the order of
-- the calls.
use mathlib.Core.List.{append-nil, append_assoc}
use altas_dbpro.Prelude.{
  ℕ, ◌+◌, ◌<◌, ◌≡◌, refl, ap, sym, subst, suc, ◌⊎◌, ◌∙◌, inl, inr, true, Bool-cases, ◌&&◌, some,
  List, [], ◌∷◌, ◌++◌, length, ltb, leb, arith,
}
use altas_dbpro.Sql.{Text}
use altas_dbpro.Layers.{WalManager, write_log}
use altas_dbpro.Log.{LogRecord, LogBuffer, entry, write_each, flush, append_log, append_all, init}

-- The lines of some records.
abbrev pub lines : List LogRecord → Text
lines [] = []
lines (r ∷ rs) = entry r ++ 10 ∷ lines rs

-- A buffer with this text in its open log and these records waiting.
pub record Holds (n : ℕ) (text : Text) (waiting : List LogRecord) (b : LogBuffer) : Type 0 where
  pub size : b.buffer_size ≡ n
  pub log : b.wal ≡ some (record { written = text; is_open = true })
  pub pending : b.records ≡ waiting

write_each-lines :
    (rs : List LogRecord) (text : Text)
    → write_each rs (record { written = text; is_open = true })
      ≡ record { written = text ++ lines rs; is_open = true }
unfolding write_each write_log
write_each-lines [] text = ap (λ s. record { written = s; is_open = true }) (sym (append-nil text))
write_each-lines (r ∷ rs) text =
    write_each-lines rs _
    ∙ ap (λ s. record { written = s; is_open = true })
        (append_assoc (text ++ entry r) (10 ∷ []) (lines rs)
          ∙ append_assoc text (entry r) (10 ∷ lines rs))

lines-append : (rs ss : List LogRecord) → lines (rs ++ ss) ≡ lines rs ++ lines ss
lines-append [] ss = refl
lines-append (r ∷ rs) ss =
    ap (λ s. entry r ++ 10 ∷ s) (lines-append rs ss)
    ∙ sym (append_assoc (entry r) (10 ∷ lines rs) (lines ss))

abbrev pub open_log : Text → WalManager
open_log text = record { written = text; is_open = true }

flushed :
    (n : ℕ) (text : Text) (waiting : List LogRecord) (b : LogBuffer)
    → Holds n text waiting b
    → Holds n (text ++ lines waiting) [] (flush b)
unfolding flush
flushed n text [] b h = record {
  size = rw h.pending h.size;
  log = rw h.pending (h.log ∙ ap (λ s. some (open_log s)) (sym (append-nil text)));
  pending = rw h.pending refl;
}
flushed n text (r ∷ rs) b h = record {
  size = rw (h.pending, h.log) h.size;
  log = rw (h.pending, h.log) (ap some (write_each-lines (r ∷ rs) text));
  pending = rw (h.pending, h.log) refl;
}

-- Fewer records wait than make the buffer full, if a size makes it full.
abbrev pub IsBelow : ℕ → ℕ → Type 0
IsBelow n k = (n ≡ 0) ⊎ (k < n)

length-snoc : (rs : List LogRecord) (r : LogRecord) → length (rs ++ r ∷ []) ≡ length rs + 1
length-snoc [] r = refl
length-snoc (s ∷ rs) r = ap suc (length-snoc rs r) ∙ omega arith

-- What holds after calls: the lines in the log and those of the waiting records are `all`.
record Kept (n : ℕ) (all : Text) (b : LogBuffer) : Type 0 where
  text : Text
  waiting : List LogRecord
  holds : Holds n text waiting b
  whole : text ++ lines waiting ≡ all
  below : IsBelow n (length waiting)

append_log-Kept :
    (n : ℕ) (all : Text) (r : LogRecord) (b : LogBuffer)
    → Kept n all b
    → Kept n (all ++ lines (r ∷ [])) (append_log r b)
unfolding append_log
append_log-Kept n all r b k =
    let longer : LogBuffer = record b { records = b.records ++ r ∷ [] } in
    let h : Holds n k.text (k.waiting ++ r ∷ []) longer = record {
      size = k.holds.size;
      log = k.holds.log;
      pending = ap (λ rs. rs ++ r ∷ []) k.holds.pending;
    } in
    let more : k.text ++ lines (k.waiting ++ r ∷ []) ≡ all ++ lines (r ∷ []) =
      ap (λ s. k.text ++ s) (lines-append k.waiting (r ∷ []))
      ∙ sym (append_assoc k.text (lines k.waiting) (lines (r ∷ [])))
      ∙ ap (λ s. s ++ lines (r ∷ [])) k.whole in
    elim (Bool-cases (leb b.buffer_size (length longer.records) && ltb 0 b.buffer_size)) [
      | inl full ↦ rw full (record {
        text = k.text ++ lines (k.waiting ++ r ∷ []);
        waiting = [];
        holds = flushed n k.text (k.waiting ++ r ∷ []) longer h;
        whole = append-nil _ ∙ more;
        below = ground (arith, full, k.holds.size);
      })
      | inr room ↦ rw room (record {
        text = k.text;
        waiting = k.waiting ++ r ∷ [];
        holds = h;
        whole = more;
        below = ground (arith, room, k.holds.size, h.pending, length-snoc k.waiting r);
      })
    ]

append_all-Kept :
    (n : ℕ) (rs : List LogRecord) (all : Text) (b : LogBuffer)
    → Kept n all b
    → Kept n (all ++ lines rs) (append_all rs b)
unfolding append_all
append_all-Kept n [] all b k = subst (λ s. Kept n s b) (sym (append-nil all)) k
append_all-Kept n (r ∷ rs) all b k =
    subst (λ s. Kept n s (append_all rs (append_log r b)))
      (append_assoc all (lines (r ∷ [])) (lines rs)
        ∙ ap (λ s. all ++ s) (sym (lines-append (r ∷ []) rs)))
      (append_all-Kept n rs _ (append_log r b) (append_log-Kept n all r b k))

-- Records that are appended to an empty buffer over an open log: fewer of them wait than make the
-- buffer full, if a size makes it full; and `Flush` then leaves none waiting, with the lines of all
-- records behind the former text of the log, in the order of the calls.
pub flush-append_all :
    (n : ℕ) (text : Text) (rs : List LogRecord)
    → IsBelow n (length (append_all rs (init n (some (open_log text)))).records)
      × ((flush (append_all rs (init n (some (open_log text))))).records ≡ [])
      × ((flush (append_all rs (init n (some (open_log text))))).wal
          ≡ some (open_log (text ++ lines rs)))
flush-append_all n text rs =
    let start : Kept n text (init n (some (open_log text))) = record {
      text = text;
      waiting = [];
      holds = record { size = refl; log = refl; pending = refl };
      whole = append-nil text;
      below = ground arith;
    } in
    let k = append_all-Kept n rs text _ start in
    let f = flushed n k.text k.waiting (append_all rs (init n (some (open_log text)))) k.holds in
    (rw (k.holds.pending) k.below, f.pending, f.log ∙ ap (λ s. some (open_log s)) k.whole)
