-- ===== src/Storage/Btree/Tree/Resident.antt =====
-- Trees whose pages are all in the cache.
use amidb.Base.{ℕ, ◌≡◌, refl, ap, ◌∙◌, Bool, Option, some}
use amidb.Os.File.{Dos}
use amidb.Storage.PageIo.{pager_io}
use amidb.Storage.Cache.Defs.{entry_at, find_entry, cache_get_page}
use amidb.Storage.Cache.Hits.{
  SamePages, SamePages-trans, SamePages-bytes, find_entry-SamePages, cache_get_page_hit,
  cache_unpin-SamePages,
}
use amidb.Storage.Btree.Node.{Node, deserialize_node}
use amidb.Storage.Btree.Tree.Ops.{Tree, get_page, unpin_page, load_node, get_node, read_node}

module _ {dos : Dos} {granted : Bool} where
  -- The entry with the page's bytes, and the node in them.
  pub record Holds (t : Tree dos granted) (page : ℕ) (node : Node) : Type 0 where
    pub entry : ℕ
    pub found : find_entry page t.txn.cache.entries ≡ some entry
    pub read : deserialize_node (entry_at (pager_io dos granted) t.txn.cache entry).bytes ≡ node

  -- The root and the pages are the same.
  pub record SameTree (a b : Tree dos granted) : Type 0 where
    pub root : b.root_page ≡ a.root_page
    pub cached : SamePages (pager_io dos granted) a.txn.cache b.txn.cache

  pub SameTree-trans : {a b c : Tree dos granted} → SameTree a b → SameTree b c → SameTree a c
  SameTree-trans p q = record {
    root = q.root ∙ p.root;
    cached = SamePages-trans (pager_io dos granted) p.cached q.cached;
  }

  pub Holds-SameTree :
      (a b : Tree dos granted) (page : ℕ) (node : Node)
      → SameTree a b
      → Holds a page node
      → Holds b page node
  Holds-SameTree a b page node same h = record {
    entry = h.entry;
    found =
        find_entry-SamePages (pager_io dos granted) a.txn.cache b.txn.cache same.cached page
        ∙ h.found;
    read =
        ap deserialize_node
          (SamePages-bytes (pager_io dos granted) a.txn.cache b.txn.cache same.cached h.entry)
        ∙ h.read;
  }

  -- The page is read, and nothing else happens.
  pub record ReadNode (t : Tree dos granted) (node : Node) (r : Tree dos granted × Option Node)
      : Type 0 where
    pub given : r.1 ≡ some node
    pub same : SameTree t r.0

  pub read_node-ReadNode :
      (t : Tree dos granted) (page : ℕ) (node : Node)
      → Holds t page node
      → ReadNode t node (read_node page t)
  unfolding read_node get_node get_page load_node unpin_page
  read_node-ReadNode t page node h =
      let io = pager_io dos granted in
      let hit = cache_get_page_hit io page h.entry t.txn.cache h.found in
      let c = (cache_get_page io page t.txn.cache).0 in
      let bytes = SamePages-bytes io t.txn.cache c hit.1 h.entry in
      let unpinned = cache_unpin-SamePages io page c in
      rw hit.0 record {
        given = ap some (ap deserialize_node bytes ∙ h.read);
        same = record { root = refl; cached = SamePages-trans io hit.1 unpinned };
      }
