-- ===== src/Storage/Btree/Tree/Ops.antt =====
-- The state of src/storage/btree.c, and the calls of the cache, the pager and the transaction that
-- its operations consist of.
-- The tree's cache is its transaction's, and its pager the cache's. A pointer to the bytes of a page
-- is the index of the cache entry. A return value -1 is `none`, with what has changed until then.
use amidb.Base.{ℕ, Bool, some, List, if◌then◌else◌}
use amidb.Base.Effect.{Op, ◌>>=◌, ◌>>◌, return, succeeded}
use amidb.Os.File.{Dos}
use amidb.Storage.PageIo.{pager_io}
use amidb.Storage.Pager.Defs.{pager_allocate_page, pager_free_page, pager_write_page, pager_sync}
use amidb.Storage.Cache.Defs.{
  Cache, entry_at, change, at_found, find_entry, cache_get_page, cache_mark_dirty, cache_unpin,
}
use amidb.Storage.Btree.Node.{Node, serialize_node, deserialize_node}
use amidb.Txn.Manager.Defs.{Txn, txn_add_dirty_page}

-- `joined` is whether a transaction is set.
pub record Tree (dos : Dos) (granted : Bool) : Type 0 where
  pub txn : Txn dos granted
  pub joined : Bool
  pub root_page : ℕ
  pub num_entries : ℕ

module _ {dos : Dos} {granted : Bool} where
  -- The tree with another cache, or with another pager.
  abbrev pub with_cache : Tree dos granted → Cache (pager_io dos granted) → Tree dos granted
  with_cache t cache = record t { txn = record (t.txn) { cache = cache } }

  unfoldable pub get_page : ℕ → Op (Tree dos granted) ℕ
  get_page page t =
      let (cache, entry) = cache_get_page (pager_io dos granted) page t.txn.cache in
      (with_cache t cache, entry)

  unfoldable pub unpin_page : ℕ → Op (Tree dos granted) (Unit {0})
  unpin_page page t =
      (with_cache t (cache_unpin (pager_io dos granted) page t.txn.cache).0, some tt)

  -- `deserialize_node` from the bytes of an entry.
  unfoldable pub load_node : ℕ → Op (Tree dos granted) Node
  load_node i t = (t, some (deserialize_node (entry_at (pager_io dos granted) t.txn.cache i).bytes))

  -- `serialize_node` into the bytes of an entry.
  unfoldable pub store_node : ℕ → Node → Op (Tree dos granted) (Unit {0})
  store_node i node t = (
    with_cache t (
        change (pager_io dos granted) i (λ e. record e { bytes = serialize_node node e.bytes })
          t.txn.cache),
    some tt,
  )

  -- The entry of the page, if it is found, belongs to the transaction.
  unfoldable pub join_page : ℕ → Tree dos granted → Tree dos granted
  join_page page t =
      let added = (txn_add_dirty_page dos granted page t.txn).0 in
      with_cache (record t { txn = added })
        (at_found (pager_io dos granted) (find_entry page added.cache.entries)
          (λ e. record e { txn_id = added.txn_id }) added.cache).0

  unfoldable pub btree_mark_page_dirty : ℕ → Op (Tree dos granted) (Unit {0})
  unfolding join_page
  btree_mark_page_dirty page t =
      let marked = with_cache t (cache_mark_dirty (pager_io dos granted) page t.txn.cache).0 in
      ((if t.joined then join_page page marked else marked), some tt)

  -- A page and its node, pinned until the page is put back or dropped.
  unfoldable pub get_node : ℕ → Op (Tree dos granted) (ℕ × Node)
  unfolding get_page load_node
  get_node page = do i ← get_page page; node ← load_node i; return (i, node)

  -- A node for reading only.
  unfoldable pub read_node : ℕ → Op (Tree dos granted) Node
  unfolding get_node unpin_page
  read_node page = do (i, node) ← get_node page; unpin_page page; return node

  unfoldable pub put_node : ℕ → ℕ → Node → Op (Tree dos granted) (Unit {0})
  unfolding store_node btree_mark_page_dirty unpin_page
  put_node i page node = do store_node i node; btree_mark_page_dirty page; unpin_page page

  -- The calls of the pager; the results of `pager_free_page` and of `pager_sync` are ignored.
  unfoldable pub allocate_page : Op (Tree dos granted) ℕ
  allocate_page t =
      let (pager, page) = pager_allocate_page dos granted t.txn.cache.pager in
      (with_cache t (record (t.txn.cache) { pager = pager }), page)

  unfoldable pub free_page : ℕ → Op (Tree dos granted) (Unit {0})
  free_page page t = (
    with_cache t
        (record (t.txn.cache) { pager = (pager_free_page dos granted page t.txn.cache.pager).0 }),
    some tt,
  )

  unfoldable pub write_page : ℕ → List ℕ → Op (Tree dos granted) (Unit {0})
  write_page page bytes t =
      let (pager, written) = pager_write_page dos granted page bytes t.txn.cache.pager in
      (with_cache t (record (t.txn.cache) { pager = pager }), succeeded written)

  unfoldable pub sync_pages : Op (Tree dos granted) (Unit {0})
  sync_pages t = (
    with_cache t (record (t.txn.cache) { pager = (pager_sync dos t.txn.cache.pager).0 }),
    some tt,
  )
