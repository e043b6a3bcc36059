-- ===== src/Txn/Manager/Tests.antt =====
-- Transactions at concrete inputs.
use amidb.Base.{
  ℕ, ◌+◌, ◌%◌, ◌^◌, ◌≤◌, ◌<◌, ◌≡◌, refl, true, false, none, List, [], ◌∷◌, arith, replicate,
  length-replicate, All,
}
use amidb.Os.File.Disk.{disk}
use amidb.Storage.PageIo.{pager_io}
use amidb.Storage.Pager.Defs.{init_file_header}
use amidb.Storage.Cache.Defs.{Entry, Cache, dirty, blank, find_entry}
use amidb.Txn.Wal.Defs.{ok, error, busy, full, wal_buffer_size, wal_create}
use amidb.Txn.Manager.Defs.{
  is_active, is_idle, txn_begin, Txn, idle, active, txn_create, txn_commit,
}
use amidb.Txn.Manager.Lifecycle.{Over, txn_commit-Over, txn_begin-Begun}
use amidb.Txn.Manager.Limits.{IsDirtyIn, txn_commit_full}

abbrev dirty_entry : ℕ → Entry
dirty_entry page = record blank { page_num = page; state = dirty; pin_count = 1; txn_id = 1 }

-- A cache of eight dirty pages.
abbrev cache_of_eight : Cache (pager_io disk true)
cache_of_eight = record {
  pager = record {
    file = record { content = []; at = 0 };
    header = init_file_header;
    bitmap = replicate 512 0;
    read_only = false;
  };
  capacity = 8;
  count = 8;
  entries =
      dirty_entry 35
      ∷ dirty_entry 36
      ∷ dirty_entry 37
      ∷ dirty_entry 38
      ∷ dirty_entry 39
      ∷ dirty_entry 40
      ∷ dirty_entry 41
      ∷ dirty_entry 42
      ∷ [];
  lru_head = none;
  lru_tail = none;
}

abbrev eight : List ℕ
eight = 35 ∷ 36 ∷ 37 ∷ 38 ∷ 39 ∷ 40 ∷ 41 ∷ 42 ∷ []

abbrev busy_txn : Txn disk true
busy_txn = record (txn_create disk true wal_create cache_of_eight) {
  state = active;
  txn_id = 1;
  dirty_pages = eight;
  pinned_pages = eight;
}

-- The page at each index, found there.
dirty_eight : All (IsDirtyIn disk true cache_of_eight) eight
unfolding find_entry blank
dirty_eight =
    let whole = length-replicate {A = ℕ} 4096 0 in
    (
      record { index = 0; found = refl; changed = refl; whole = whole },
      (
        record { index = 1; found = refl; changed = refl; whole = whole },
        (
          record { index = 2; found = refl; changed = refl; whole = whole },
          (
            record { index = 3; found = refl; changed = refl; whole = whole },
            (
              record { index = 4; found = refl; changed = refl; whole = whole },
              (
                record { index = 5; found = refl; changed = refl; whole = whole },
                (
                  record { index = 6; found = refl; changed = refl; whole = whole },
                  (record { index = 7; found = refl; changed = refl; whole = whole }, tt),
                ),
              ),
            ),
          ),
        ),
      ),
    )

txn_commit_full_example :
    ((txn_commit disk true busy_txn).1 ≡ full)
    × ((txn_commit disk true busy_txn).0.state ≡ idle)
    × ((txn_commit disk true busy_txn).0.dirty_pages ≡ [])
    × ((txn_commit disk true busy_txn).0.pinned_pages ≡ [])
unfolding wal_create txn_create
txn_commit_full_example =
    txn_commit_full disk true busy_txn refl dirty_eight (omega arith) (omega arith)

txn_commit-Over_example :
    (is_active busy_txn.state ≡ false → txn_commit disk true busy_txn ≡ (busy_txn, error))
    × (is_active busy_txn.state ≡ true → Over disk true (txn_commit disk true busy_txn))
txn_commit-Over_example = txn_commit-Over disk true busy_txn

-- A transaction that has not begun.
abbrev new_txn : Txn disk true
new_txn = txn_create disk true wal_create cache_of_eight

txn_begin-Begun_example :
    (is_idle new_txn.state ≡ false → txn_begin disk true new_txn ≡ (new_txn, busy))
    × (is_idle new_txn.state ≡ true
        → new_txn.wal.buffer_used + 24 ≤ wal_buffer_size
        → ((txn_begin disk true new_txn).1 ≡ ok)
          × ((txn_begin disk true new_txn).0.state ≡ active)
          × ((txn_begin disk true new_txn).0.txn_id ≡ (new_txn.wal.current_txn_id + 1) % 2 ^ 64)
          × ((txn_begin disk true new_txn).0.dirty_pages ≡ [])
          × ((txn_begin disk true new_txn).0.wal.buffer_used ≡ new_txn.wal.buffer_used + 24))
    × (is_idle new_txn.state ≡ true
        → wal_buffer_size < new_txn.wal.buffer_used + 24
        → ((txn_begin disk true new_txn).1 ≡ full) × ((txn_begin disk true new_txn).0.state ≡ idle))
unfolding wal_create txn_create
txn_begin-Begun_example = txn_begin-Begun disk true new_txn (omega arith)
