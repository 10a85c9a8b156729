-- ===== src/Index/Iterator.antt =====
-- index_iterator.h, and `Begin` and `End` of BPlusTree.cpp. The page that the iterator points to is
-- a frame of the pool, whose bytes the calls read as they then are. All iterators are of one tree,
-- so the pointer to it is whether there is one.
pub mod Scanning
use altas_dbpro.Prelude.{
  ℕ, zero, suc, ◌+◌, ◌*◌, Bool, true, false, not, Option, none, some, List, if◌then◌else◌, ◌==◌,
  nat_eq, ◌&&◌,
}
use altas_dbpro.Prelude.Ints.{ℤ, pos, negsuc, int_eq, ltb_ℤ, ◌+ℤ◌}
use altas_dbpro.Prelude.Run.{Run, done, ◌>>=◌}
use altas_dbpro.Rid.{Rid, no_rid}
use altas_dbpro.BufferPool.{Disk, Pool}
use altas_dbpro.BufferPool.Access.{id_of, bytes_of, set_bytes, mark_dirty, release, at_frame}
use altas_dbpro.Index.Node.{int_at, size_of, key_at, rid_at, nat_of}
use altas_dbpro.Index.Tree.{Tree, find_leaf_page}

pub record Iterator : Type 0 where
  pub has_tree : Bool
  pub leaf : Option ℕ
  pub key_index : ℤ
  pub page_id : ℤ
  pub is_end : Bool

-- `IndexIterator()`, which `End` returns.
abbrev pub end : Iterator
end = record {
  has_tree = false;
  leaf = none;
  key_index = negsuc 0;
  page_id = negsuc 0;
  is_end = true;
}

abbrev pub at_leaf : ℕ → ℤ → ℤ → Bool → Iterator
at_leaf f key_index page_id is_end = record {
  has_tree = true;
  leaf = some f;
  key_index = key_index;
  page_id = page_id;
  is_end = is_end;
}

unfoldable pub iterator_eqb : Iterator → Iterator → Bool
iterator_eqb a b =
    same a.has_tree b.has_tree
    && (a.page_id == b.page_id && (a.key_index == b.key_index && same a.is_end b.is_end))
  where
    same : Bool → Bool → Bool
    same a b = if a then b else not b

abbrev pub set_end : Bool → Iterator → Iterator
set_end is_end it = record it { is_end = is_end }

abbrev pub set_current_page : Option ℕ → ℤ → Iterator → Iterator
set_current_page leaf page_id it = record it { leaf = leaf; page_id = page_id }

-- The `int` behind the records of a leaf.
abbrev pub next_leaf : List ℕ → ℤ
next_leaf bytes = int_at bytes (2 + size_of bytes + size_of bytes * 2)

-- `operator++` at a leaf with these bytes: the page pointer stays what it is.
unfoldable pub advance : List ℕ → Iterator → Iterator
unfolding int_at size_of ltb_ℤ ◌+ℤ◌
advance bytes it =
    let moved = record it { key_index = it.key_index +ℤ pos 1 } in
    if ltb_ℤ moved.key_index (int_at bytes 1)
    then moved
    else if ltb_ℤ (next_leaf bytes) (pos 0)
    then record moved { is_end = true }
    else record moved { page_id = next_leaf bytes; key_index = pos 0 }

-- The entry of `GetKey` and `GetRID`, where there is one.
unfoldable pub entry_index : List ℕ → ℤ → Option ℕ
unfolding int_at ltb_ℤ
entry_index bytes i =
    if ltb_ℤ i (pos 0) then none else if ltb_ℤ i (int_at bytes 1) then some (nat_of i) else none

module _ (d : Disk) where
  unfoldable pub next : Pool d → Iterator → Iterator
  unfolding advance
  next s it =
      if it.is_end then it else elim it.leaf [ none ↦ it | some f ↦ advance (bytes_of d f s) it ]

  -- The entry as its leaf and index.
  abbrev pub in_leaf : ℕ → Option ℕ → Option (ℕ × ℕ)
  in_leaf f none = none
  in_leaf f (some i) = some (f, i)

  abbrev pub leaf_entry : Pool d → ℤ → Option ℕ → Option (ℕ × ℕ)
  leaf_entry s key_index none = none
  leaf_entry s key_index (some f) = in_leaf f (entry_index (bytes_of d f s) key_index)

  abbrev pub current_entry : Pool d → Iterator → Option (ℕ × ℕ)
  current_entry s it = if it.is_end then none else leaf_entry s it.key_index it.leaf

  abbrev pub entry_key : Pool d → Option (ℕ × ℕ) → ℤ
  entry_key s none = pos 0
  entry_key s (some (f, i)) = key_at (bytes_of d f s) i

  abbrev pub entry_rid : Pool d → Option (ℕ × ℕ) → Rid
  entry_rid s none = no_rid
  entry_rid s (some (f, i)) = rid_at (size_of (bytes_of d f s)) (bytes_of d f s) i

  unfoldable pub get_key : Pool d → Iterator → ℤ
  unfolding entry_index int_at
  get_key s it = entry_key s (current_entry s it)

  unfoldable pub get_rid : Pool d → Iterator → Rid
  unfolding entry_index rid_at size_of
  get_rid s it = entry_rid s (current_entry s it)

  -- `Begin`: an iterator at a leaf keeps the leaf's page pinned.
  unfoldable pub begin : Bool → Tree d → Run (Tree d × Iterator)
  unfolding find_leaf_page size_of
  begin reentrant t =
      if t.root_page_id == negsuc 0
      then done (t, end)
      else (find_leaf_page d reentrant (pos 0) true t.root_page_id t.pool
          >>= at_frame d (λ s. done (record t { pool = s }, end))
              (λ f s.
                if size_of (bytes_of d f s) == 0
                then done (record t { pool = release d f false s }, end)
                else done (record t { pool = s }, at_leaf f (pos 0) (id_of d f s) false)))

  -- `operator++`, `k` times.
  unfoldable pub next_times : Pool d → ℕ → Iterator → Iterator
  unfolding next
  next_times s zero it = it
  next_times s (suc k) it = next s (next_times s k it)
