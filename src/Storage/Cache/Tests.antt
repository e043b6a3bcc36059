-- ===== src/Storage/Cache/Tests.antt =====
-- The cache at concrete inputs.
use amidb.Base.{ℕ, ◌<◌, ◌≡◌, ◌≢◌, inr, refl, true, false, some, [], ◌∷◌, arith, replicate}
use amidb.Os.File.Disk.{disk}
use amidb.Storage.PageIo.{pager_io}
use amidb.Storage.Pager.Defs.{init_file_header}
use amidb.Storage.Cache.Defs.{Cache, clean, dirty, blank, entry_at, cache_get_page, cache_flush}
use amidb.Storage.Cache.Flush.{stale, cache_flush-Swept}
use amidb.Storage.Cache.Guarded.{contents, cache_get_page-contents}

-- Two entries, of which the second belongs to a transaction.
abbrev two_pages : Cache (pager_io disk true)
two_pages = record {
  pager = record {
    file = record { content = replicate 32768 0; at = 0 };
    header = record init_file_header { page_count = 4 };
    bitmap = replicate 512 0;
    read_only = false;
  };
  capacity = 2;
  count = 2;
  entries =
      record blank { page_num = 1; state = clean; lru_next = some 1 }
      ∷ record blank { page_num = 2; state = dirty; txn_id = 5; lru_prev = some 0 }
      ∷ [];
  lru_head = some 0;
  lru_tail = some 1;
}

cache_get_page-contents_example :
    contents (entry_at (pager_io disk true) (cache_get_page (pager_io disk true) 3 two_pages).0 1)
    ≡ contents (entry_at (pager_io disk true) two_pages 1)
cache_get_page-contents_example =
    cache_get_page-contents (pager_io disk true) 3 1 two_pages refl (inr (omega arith))

cache_flush-Swept_example :
    ((j : ℕ)
      → (entry_at (pager_io disk true) two_pages j).txn_id ≢ 0
      → entry_at (pager_io disk true) (cache_flush (pager_io disk true) two_pages).0 j
        ≡ entry_at (pager_io disk true) two_pages j)
    × ((j : ℕ)
        → (entry_at (pager_io disk true) (cache_flush (pager_io disk true) two_pages).0 j).bytes
          ≡ (entry_at (pager_io disk true) two_pages j).bytes)
    × ((cache_flush (pager_io disk true) two_pages).1 ≡ true
        → (j : ℕ) → j < 2
        → stale (entry_at (pager_io disk true) (cache_flush (pager_io disk true) two_pages).0 j)
          ≡ false)
cache_flush-Swept_example = cache_flush-Swept (pager_io disk true) two_pages refl
