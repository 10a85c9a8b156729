-- ===== src/Index/Iterator/Scanning.antt =====
-- The iterator of index_iterator.h on a leaf, from its first entry on.
use altas_dbpro.Prelude.{
  ℕ, zero, suc, ◌<◌, ◌≡◌, refl, ap, sym, ◌∙◌, inl, inr, true, false, Bool-cases, some, List, arith,
  if◌then◌else◌, ltb, ltb→lt, lt→ltb, ◌-◌,
}
use altas_dbpro.Prelude.Ints.{ℤ, pos, minus, ltb_ℤ, ◌+ℤ◌}
use altas_dbpro.BufferPool.{Disk, Pool}
use altas_dbpro.BufferPool.Access.{bytes_of}
use altas_dbpro.Index.Node.{int_at, size_of, key_at, rid_at, nat_of}
use altas_dbpro.Index.Iterator.{
  at_leaf, next_leaf, advance, next, next_times, get_key, get_rid, entry_index, entry_key,
  entry_rid, in_leaf,
}

pos-suc : (i : ℕ) → pos i +ℤ pos 1 ≡ pos (suc i)
unfolding ◌+ℤ◌ minus
pos-suc i = ground arith

pos-ltb : (i n : ℕ) → ltb_ℤ (pos i) (pos n) ≡ ltb i n
unfolding ltb_ℤ
pos-ltb i n = ground arith

advance_within :
    (bytes : List ℕ) (n : ℕ) (f i : ℕ) (id : ℤ)
    → int_at bytes 1 ≡ pos n
    → suc i < n
    → advance bytes (at_leaf f (pos i) id false) ≡ at_leaf f (pos (suc i)) id false
unfolding advance
advance_within bytes n f i id size lt =
    rw (pos-suc i, size, pos-ltb (suc i) n, lt→ltb (suc i) n lt) refl

advance_past :
    (bytes : List ℕ) (n : ℕ) (f i : ℕ) (id : ℤ)
    → int_at bytes 1 ≡ pos n
    → suc i ≡ n
    → advance bytes (at_leaf f (pos i) id false) ≡ (
        if ltb_ℤ (next_leaf bytes) (pos 0)
        then at_leaf f (pos n) id true
        else at_leaf f (pos 0) (next_leaf bytes) false)
unfolding advance
advance_past bytes n f i id size e =
    let past : ltb (suc i) n ≡ false = ground arith in
    rw (pos-suc i, size, pos-ltb (suc i) n, past, e) refl

module _ (d : Disk) (s : Pool d) (f n : ℕ) (id : ℤ) (size : int_at (bytes_of d f s) 1 ≡ pos n) where
  abbrev bytes : List ℕ
  bytes = bytes_of d f s

  steps_within :
      (k : ℕ) → k < n → next_times d s k (at_leaf f (pos 0) id false) ≡ at_leaf f (pos k) id false
  unfolding next_times next
  steps_within zero lt = refl
  steps_within (suc k) lt =
      ap (next d s) (steps_within k (omega arith)) ∙ advance_within bytes n f k id size lt

  entry_within : (k : ℕ) → k < n → entry_index bytes (pos k) ≡ some k
  unfolding entry_index
  entry_within k lt =
      let low : ltb k 0 ≡ false = ground arith in
      rw (pos-ltb k 0, low, size, pos-ltb k n, lt→ltb k n lt) refl

  -- The iterator at the first entry of a leaf with `n` entries: after `k` steps, `k` less than `n`,
  -- it is at the entry `k`, whose key and record `GetKey` and `GetRID` return. After `n` steps
  -- it is at the end if the link to the next leaf is negative; if not, it is at the entry 0 of
  -- the same leaf, with the next leaf's page id.
  pub next_times-entries :
      (k : ℕ)
      → k < n
      → (next_times d s k (at_leaf f (pos 0) id false) ≡ at_leaf f (pos k) id false)
        × (get_key d s (at_leaf f (pos k) id false) ≡ key_at bytes k)
        × (get_rid d s (at_leaf f (pos k) id false) ≡ rid_at n bytes k)
        × (next_times d s n (at_leaf f (pos 0) id false) ≡ (
            if ltb_ℤ (next_leaf bytes) (pos 0)
            then at_leaf f (pos n) id true
            else at_leaf f (pos 0) (next_leaf bytes) false))
  unfolding size_of next_times next get_key get_rid
  next_times-entries k lt = (
    steps_within k lt,
    ap (λ o. entry_key d s (in_leaf d f o)) (entry_within k lt),
    ap (λ o. entry_rid d s (in_leaf d f o)) (entry_within k lt)
        ∙ ap (λ z. rid_at (nat_of z) bytes k) size,
    let e : suc (n - 1) ≡ n = omega arith in
        let last = ap (next d s) (steps_within (n - 1) (omega arith)) in
        sym (ap (λ k. next_times d s k (at_leaf f (pos 0) id false)) e)
        ∙ last
        ∙ advance_past bytes n f (n - 1) id size e,
  )

  -- Where the link to the next leaf is not negative and the leaf is not empty, the iterator never
  -- reaches the end: after any number of steps it is at an entry of the same leaf.
  pub next_times-endless :
      0 < n
      → ltb_ℤ (next_leaf bytes) (pos 0) ≡ false
      → (k : ℕ)
      → (i : ℕ) × (page_id : ℤ) × (i < n)
        × (next_times d s k (at_leaf f (pos 0) id false) ≡ at_leaf f (pos i) page_id false)
  unfolding next_times next
  next_times-endless positive link zero = (0, id, positive, refl)
  next_times-endless positive link (suc k) =
      let (i, page_id, lt, e) = next_times-endless positive link k in
      elim (Bool-cases (ltb (suc i) n)) [
        | inl more ↦ (
          suc i,
          page_id,
          ltb→lt (suc i) n more,
          ap (next d s) e ∙ advance_within bytes n f i page_id size (ltb→lt (suc i) n more),
        )
        | inr last ↦ (
          0,
          next_leaf bytes,
          positive,
          ap (next d s) e ∙ advance_past bytes n f i page_id size (ground arith) ∙ rw link refl,
        )
      ]
