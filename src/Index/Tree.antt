-- ===== src/Index/Tree.antt =====
-- BPlusTree.cpp over the buffer pool: the search for a leaf, lookup, insertion and removal. A
-- `Page*` is the frame that holds the page. The loop of `FindLeafPage` runs on fuel, one unit for
-- each level: nothing gives the tree a third level, since `InsertIntoParent` only makes a root.
pub mod Roundtrip
use altas_dbpro.Prelude.{
  ℕ, zero, suc, ◌+◌, ◌-◌, Bool, true, false, not, Option, none, some, List, [], ◌∷◌, ◌++◌,
  if◌then◌else◌, ltb, ◌==◌, nat_eq,
}
use altas_dbpro.Prelude.Ints.{ℤ, pos, negsuc, int_eq, ltb_ℤ}
use altas_dbpro.Prelude.Run.{Run, done, out_of_fuel, ◌>>=◌}
use altas_dbpro.Rid.{Rid}
use altas_dbpro.BufferPool.{Disk, Pool, fetch_page, new_page_in, unpin_page, delete_page}
use altas_dbpro.BufferPool.Access.{id_of, bytes_of, set_bytes, mark_dirty, release, at_frame}
use altas_dbpro.Index.Node.{
  int_at, put_int, key_at, size_of, is_leaf, binary_search, collect_back, collect_forward,
  insert_into_leaf, split_leaf_page, remove_entry,
}

abbrev pub child_index : Bool → ℤ → List ℕ → Run ℕ
child_index left_most key bytes = if left_most then done 0 else binary_search key bytes

abbrev pub height : ℕ
height = 3

abbrev pub matches : ℤ → List ℕ → ℕ → List Rid
matches key bytes at =
    collect_back key (size_of bytes) bytes at []
    ++ collect_forward key (size_of bytes) bytes at (size_of bytes - at)

abbrev pub is_empty : List Rid → Bool
is_empty [] = true
is_empty (r ∷ rs) = false

-- The writes into the page of the first leaf, and into a new root over two nodes.
unfoldable pub first_leaf : ℤ → Rid → List ℕ → List ℕ
unfolding put_int
first_leaf key value bytes = put_int 5 (negsuc 0) (
    put_int 4 value.slot_num
      (put_int 3 value.page_id (put_int 2 key (put_int 1 (pos 1) (put_int 0 (pos 1) bytes)))))

unfoldable pub inner_root : ℤ → ℤ → ℤ → List ℕ → List ℕ
unfolding put_int
inner_root key left right bytes =
    put_int 4 right (put_int 3 left (put_int 2 key (put_int 1 (pos 1) (put_int 0 (pos 0) bytes))))

abbrev pub is_present : ℤ → List ℕ → ℕ → Bool
is_present key bytes at = if at == 0 then false else int_at bytes (2 + at - 1) == key

module _ (d : Disk) where
  pub record Tree : Type 1 where
    pub pool : Pool d
    pub root_page_id : ℤ
    pub leaf_start_page_id : ℤ
    pub leaf_max_size : ℤ
    pub internal_max_size : ℤ

  abbrev pub init : Pool d → ℤ → ℤ → Tree
  init s leaf_max internal_max = record {
    pool = s;
    root_page_id = negsuc 0;
    leaf_start_page_id = negsuc 0;
    leaf_max_size = leaf_max;
    internal_max_size = internal_max;
  }

  -- The loop of `FindLeafPage`.
  unfoldable pub descend : ℕ → Bool → ℤ → Bool → ℤ → Pool d → Run (Pool d × Option ℕ)
  unfolding fetch_page unpin_page is_leaf binary_search
  descend zero reentrant key left_most id s = out_of_fuel
  descend (suc fuel) reentrant key left_most id s =
      fetch_page d reentrant id s
      >>= at_frame d (λ t. done (t, none))
          (λ f t.
            if is_leaf (bytes_of d f t)
            then done (t, some f)
            else (child_index left_most key (bytes_of d f t) >>= λ child.
                descend fuel reentrant key left_most
                  (int_at (bytes_of d f t) (2 + size_of (bytes_of d f t) + 1 + child))
                  (unpin_page d id false t).0))

  unfoldable pub find_leaf_page : Bool → ℤ → Bool → ℤ → Pool d → Run (Pool d × Option ℕ)
  unfolding descend
  find_leaf_page reentrant key left_most root s =
      if root == negsuc 0 then done (s, none) else descend height reentrant key left_most root s

  -- `GetValue` with the vector that `result` points to, and what is in it afterwards.
  unfoldable pub get_value : Bool → ℤ → List Rid → Tree → Run (Tree × List Rid × Bool)
  unfolding find_leaf_page binary_search collect_back collect_forward unpin_page size_of
  get_value reentrant key result t =
      if t.root_page_id == negsuc 0
      then done (t, result, false)
      else (find_leaf_page reentrant key false t.root_page_id t.pool
          >>= at_frame d (λ s. done (record t { pool = s }, result, false))
              (λ f s. binary_search key (bytes_of d f s) >>= λ at.
                let found = matches key (bytes_of d f s) at in
                done (record t { pool = release d f false s }, found, not (is_empty found))))

  -- The new page becomes the root: `bytes` are written, it is marked dirty and unpinned.
  abbrev pub publish : ℕ → List ℕ → Pool d → Pool d
  publish f bytes s = release d f true (mark_dirty d f (set_bytes d f bytes s))

  abbrev pub plant : ℤ → Rid → Tree → Pool d × Option ℕ → Tree × Bool
  plant key value t (s, none) = (record t { pool = s }, false)
  plant key value t (s, some f) = (
    record t {
      pool = publish f (first_leaf key value (bytes_of d f s)) s;
      root_page_id = id_of d f s;
      leaf_start_page_id = id_of d f s;
    },
    true,
  )

  abbrev pub grow : ℕ → ℤ → ℕ → Tree → Pool d × Option ℕ → Tree
  grow old key new t (s, none) = record t { pool = s }
  grow old key new t (s, some f) = record t {
    pool = publish f (inner_root key (id_of d old s) (id_of d new s) (bytes_of d f s)) s;
    root_page_id = id_of d f s;
  }

  unfoldable pub insert_into_parent : Bool → ℕ → ℤ → ℕ → Tree → Run Tree
  unfolding new_page_in inner_root
  insert_into_parent reentrant old key new t =
      if id_of d old t.pool == t.root_page_id
      then (new_page_in d reentrant t.pool >>= λ r. done (grow old key new t r))
      else done t

  -- `Insert` at a leaf that is not full.
  unfoldable pub add_entry : ℕ → ℤ → Rid → Tree → Run (Tree × Bool)
  unfolding insert_into_leaf unpin_page
  add_entry f key value t = do
    after ← insert_into_leaf key value (bytes_of d f t.pool)
    done (record t { pool = release d f true (set_bytes d f after t.pool) }, true)

  -- `Insert` at a full leaf with the new page in the frame `g`.
  unfoldable pub split_leaf : Bool → ℕ → ℕ → ℤ → Rid → Tree → Run (Tree × Bool)
  unfolding split_leaf_page insert_into_leaf insert_into_parent unpin_page
  split_leaf reentrant f g key value t =
      let s = t.pool in
      let parts = split_leaf_page (id_of d g s) (bytes_of d f s) (bytes_of d g s) in
      let s₁ = set_bytes d g parts.new (set_bytes d f parts.old s) in
      let target = if ltb_ℤ key parts.middle_key then f else g in
      insert_into_leaf key value (bytes_of d target s₁) >>= λ after.
      insert_into_parent reentrant f parts.middle_key g
        (record t { pool = set_bytes d target after s₁ })
      >>= λ u. done (record u { pool = release d g true (release d f true u.pool) }, true)

  unfoldable pub insert_at : Bool → ℕ → ℤ → Rid → Tree → Run (Tree × Bool)
  unfolding add_entry split_leaf new_page_in unpin_page int_at
  insert_at reentrant f key value t =
      if ltb_ℤ (int_at (bytes_of d f t.pool) 1) t.leaf_max_size
      then add_entry f key value t
      else (new_page_in d reentrant t.pool
          >>= at_frame d (λ s. done (record t { pool = release d f false s }, false))
              (λ g s. split_leaf reentrant f g key value (record t { pool = s })))

  unfoldable pub insert : Bool → ℤ → Rid → Tree → Run (Tree × Bool)
  unfolding find_leaf_page insert_at new_page_in first_leaf
  insert reentrant key value t =
      if t.root_page_id == negsuc 0
      then (new_page_in d reentrant t.pool >>= λ r. done (plant key value t r))
      else (find_leaf_page reentrant key false t.root_page_id t.pool
          >>= at_frame d (λ s. done (record t { pool = s }, false))
              (λ f s. insert_at reentrant f key value (record t { pool = s })))

  -- `AdjustRoot` for the page of the frame `f`, which the caller has pinned.
  unfoldable pub adjust_root : ℕ → Tree → Tree
  unfolding delete_page is_leaf size_of
  adjust_root f t =
      let bytes = bytes_of d f t.pool in
      let deleted = (delete_page d t.root_page_id t.pool).0 in
      if not (size_of bytes == 0)
      then t
      else if is_leaf bytes
      then record t { pool = deleted; root_page_id = negsuc 0; leaf_start_page_id = negsuc 0 }
      else record t { pool = deleted; root_page_id = int_at bytes (2 + size_of bytes + 1) }

  -- A node that is not the root is left as it is, also when it has too few keys.
  unfoldable pub coalesce_or_redistribute : ℕ → Tree → Tree
  unfolding adjust_root
  coalesce_or_redistribute f t = if id_of d f t.pool == t.root_page_id then adjust_root f t else t

  -- `Remove` at the leaf, with the index that the search gave.
  unfoldable pub remove_at : ℕ → ℤ → ℕ → Tree → Tree × Bool
  unfolding remove_entry coalesce_or_redistribute unpin_page
  remove_at f key at t =
      let bytes = bytes_of d f t.pool in
      let u =
        coalesce_or_redistribute f (record t {
          pool = mark_dirty d f (set_bytes d f (remove_entry (at - 1) bytes) t.pool);
        }) in
      if is_present key bytes at
      then (record u { pool = release d f true u.pool }, true)
      else (record t { pool = release d f false t.pool }, false)

  unfoldable pub remove : Bool → ℤ → Tree → Run (Tree × Bool)
  unfolding find_leaf_page binary_search remove_at
  remove reentrant key t =
      if t.root_page_id == negsuc 0
      then done (t, false)
      else (find_leaf_page reentrant key false t.root_page_id t.pool
          >>= at_frame d (λ s. done (record t { pool = s }, false))
              (λ f s. binary_search key (bytes_of d f s) >>= λ at.
                done (remove_at f key at (record t { pool = s }))))

  abbrev pub get_root_page_id : Tree → ℤ
  get_root_page_id t = t.root_page_id
