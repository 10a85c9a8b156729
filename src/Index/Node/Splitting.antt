-- ===== src/Index/Node/Splitting.antt =====
-- `SplitLeafPage` (BPlusTree.cpp): both leaves afterwards.
use altas_dbpro.Prelude.{
  ℕ, ◌+◌, ◌-◌, ◌*◌, ◌/◌, ◌<◌, ◌≤◌, ◌≡◌, ◌≢◌, refl, ap, ◌∙◌, inl, List, [], ◌∷◌, arith, nat_eqb_iff,
}
use altas_dbpro.Prelude.Ints.{ℤ, pos}
use altas_dbpro.Bytes.{IsInt}
use altas_dbpro.Index.Node.{
  int_at, put_int, key_at, rid_at, size_of, nat_of, copy_entries, Split, split_point,
  split_leaf_page,
}
use altas_dbpro.Index.Node.Slots.{
  IsPage, Writes, put_all, int_at-put_all, int_at-put_self, int_at-put_ne, AllFit, int_at-IsInt,
  put_all-IsPage,
}
use altas_dbpro.Index.Node.Copying.{Copied, copy_entries-Copied}

-- Both leaves after a split of `old`, which had `n` keys: `h` of them stay. The records of the old
-- leaf begin where the moved keys stood.
pub record Halves (old : List ℕ) (new_page_id : ℤ) (n h : ℕ) (s : Split) : Type 0 where
  pub old_size : size_of s.old ≡ h
  pub new_size : size_of s.new ≡ n - h
  pub middle : s.middle_key ≡ key_at old h
  pub kept_keys : (i : ℕ) → i < h → key_at s.old i ≡ key_at old i
  pub moved_keys : (i : ℕ) → i < n - h → key_at s.new i ≡ key_at old (h + i)
  pub moved_rids : (i : ℕ) → i < n - h → rid_at (n - h) s.new i ≡ rid_at n old (h + i)
  pub next : int_at s.new (2 + (n - h) + (n - h) * 2) ≡ int_at old (2 + n + n * 2)
  pub link : int_at s.old (2 + n + n * 2) ≡ new_page_id
  pub first_page : (rid_at h s.old 0).page_id ≡ key_at old h

split_point_lem : (n : ℕ) → 2 ≤ n → (split_point n < n) × (n < 2 * split_point n + 1)
split_point_lem n le = (omega (arith, le), omega (arith, le))

module _ (new_page_id : ℤ) (old new : List ℕ) (id : IsInt new_page_id) (from : IsPage old)
    (to : IsPage new) (n h : ℕ) (two : 2 ≤ n) (fits : 2 + n + n * 2 < 1024)
    (half : (h < n) × (n < 2 * h + 1)) where
  abbrev m : ℕ
  m = n - h

  abbrev header : Writes
  header = (1, pos m) ∷ (0, pos 1) ∷ []

  header_fit : AllFit header
  header_fit = (omega arith, omega (arith, fits), (omega arith, omega arith, tt))

  abbrev link_writes : Writes
  link_writes = (2 + n + n * 2, new_page_id) ∷ (1, pos h) ∷ []

  link_fit : AllFit link_writes
  link_fit = (fits, id, (omega arith, omega (arith, fits, half), tt))

  abbrev copied : List ℕ
  copied = copy_entries n h m old 0 m (put_all header new)

  copied-Copied : Copied n h m old (put_all header new) copied 0 m
  copied-Copied =
      copy_entries-Copied n h m old (omega (arith, fits, half)) from m 0 (put_all header new)
        (omega arith) (put_all-IsPage header new header_fit to)

  abbrev halves : Split
  halves = record {
    old = put_all link_writes old;
    new = put_int (2 + m + m * 2) (int_at (put_int 1 (pos h) old) (2 + n + n * 2)) copied;
    middle_key =
        int_at (put_int (2 + m + m * 2) (int_at (put_int 1 (pos h) old) (2 + n + n * 2)) copied) 2;
  }

  link_next : int_at (put_int 1 (pos h) old) (2 + n + n * 2) ≡ int_at old (2 + n + n * 2)
  link_next =
      int_at-put_ne 1 (2 + n + n * 2) (pos h) old (omega arith) (omega arith)
        (omega (arith, fits, half)) from

  new_next : int_at halves.new (2 + m + m * 2) ≡ int_at old (2 + n + n * 2)
  new_next = rw link_next (
      int_at-put_self (2 + m + m * 2) _ copied (omega (arith, fits)) (int_at-IsInt old _ from)
        copied-Copied.page)

  new_else : (j : ℕ) → 2 + m + m * 2 ≢ j → int_at halves.new j ≡ int_at copied j
  new_else j ne = rw link_next (
      int_at-put_ne (2 + m + m * 2) j _ copied (omega (arith, fits)) ne (int_at-IsInt old _ from)
        copied-Copied.page)

  old_else : (j : ℕ) → j ≢ 1 → j ≢ 2 + n + n * 2 → int_at halves.old j ≡ int_at old j
  old_else j a b =
      int_at-put_all link_writes old j link_fit from
      ∙ ground (arith, nat_eqb_iff (2 + n + n * 2) j, nat_eqb_iff 1 j)

  moved_page :
      (i : ℕ) → i < m → int_at halves.new (2 + m + i * 2) ≡ int_at old (2 + n + (h + i) * 2)
  moved_page i lt =
      new_else (2 + m + i * 2) (omega (arith, lt))
      ∙ copied-Copied.pages i (omega arith) (omega (arith, lt))

  moved_slot :
      (i : ℕ) → i < m → int_at halves.new (2 + m + i * 2 + 1) ≡ int_at old (2 + n + (h + i) * 2 + 1)
  moved_slot i lt =
      new_else (2 + m + i * 2 + 1) (omega (arith, lt))
      ∙ copied-Copied.slots i (omega arith) (omega (arith, lt))

  old_one : int_at halves.old 1 ≡ pos h
  old_one =
      int_at-put_all link_writes old 1 link_fit from ∙ ground (arith, nat_eqb_iff (2 + n + n * 2) 1)

  halves-Halves : Halves old new_page_id n h halves
  unfolding size_of
  halves-Halves = record {
    old_size = ap nat_of old_one;
    new_size = ap nat_of (
        new_else 1 (omega arith)
        ∙ copied-Copied.rest 1 (inl (omega arith))
        ∙ int_at-put_all header new 1 header_fit to);
    middle =
        new_else 2 (omega (arith, half))
        ∙ copied-Copied.keys 0 (omega arith) (omega (arith, half))
        ∙ ap (int_at old) (omega arith);
    kept_keys = λ i lt. old_else (2 + i) (omega arith) (omega (arith, lt, half));
    moved_keys = λ i lt.
        new_else (2 + i) (omega (arith, lt))
        ∙ copied-Copied.keys i (omega arith) (omega (arith, lt))
        ∙ ap (int_at old) (omega arith);
    moved_rids = λ i lt. unfold rid_at in (rw (moved_page i lt, moved_slot i lt) refl);
    next = new_next;
    link =
        int_at-put_all link_writes old (2 + n + n * 2) link_fit from
        ∙ ground (arith, nat_eqb_iff (2 + n + n * 2) (2 + n + n * 2));
    first_page =
        unfold rid_at in
        (old_else (2 + h + 0 * 2) (omega arith) (omega (arith, half))
          ∙ ap (int_at old) (omega arith));
  }

-- `SplitLeafPage` of a leaf with `n` keys, at least 2, whose entries fit on the page: the old leaf
-- keeps the first (n + 1) / 2 keys, the new leaf has the keys and the records of the others and
-- the old link to the next leaf, the key between them is the first that has moved, and the link of
-- the old leaf is written behind its former entries. The first record that the shortened old leaf
-- reads has the first moved key as its page id.
pub split_leaf_page-Halves :
    (new_page_id : ℤ) (old new : List ℕ) (n : ℕ)
    → IsInt new_page_id
    → IsPage old
    → IsPage new
    → size_of old ≡ n
    → 2 ≤ n
    → 2 + n + n * 2 < 1024
    → Halves old new_page_id n ((n + 1) / 2) (split_leaf_page new_page_id old new)
unfolding split_leaf_page
split_leaf_page-Halves new_page_id old new n id from to size two fits =
    rw size (
      halves-Halves new_page_id old new id from to n ((n + 1) / 2) two fits (split_point_lem n two))
