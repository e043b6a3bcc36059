-- ===== src/Txn/Manager/Defs.antt =====
-- src/txn/txn.h and the operations of src/txn/txn.c.
-- The log's pager is the cache's, so it stands in the cache. The arrays of dirty and pinned pages
-- are the lists of their used parts.
use amidb.Base.{
  ℕ, ◌+◌, ◌%◌, ◌^◌, Bool, true, false, Option, none, some, List, [], ◌∷◌, ◌++◌, if◌then◌else◌, leb,
  ◌==◌, length,
}
use amidb.Os.File.{Dos}
use amidb.Storage.PageIo.{pager_io}
use amidb.Storage.Pager.Defs.{pager_read_page, pager_write_page, pager_sync}
use amidb.Storage.Cache.Defs.{
  invalid, clean, is_dirty, Entry, Cache, entry_at, change, find_entry, unpin_pages,
}
use amidb.Txn.Wal.Defs.{
  Code, ok, error, busy, full, is_ok, Wal, wal_page, stored32, wal_write_record, wal_flush,
  wal_reset_buffer,
}

pub data TxnState : Type 0 where
  idle active committing committed aborting : TxnState

abbrev pub is_active : TxnState → Bool
is_active idle = false
is_active active = true
is_active committing = false
is_active committed = false
is_active aborting = false

abbrev pub is_idle : TxnState → Bool
is_idle idle = true
is_idle active = false
is_idle committing = false
is_idle committed = false
is_idle aborting = false

-- Whether a page is in an array.
abbrev pub is_listed : ℕ → List ℕ → Bool
is_listed page [] = false
is_listed page (p ∷ ps) = let rest = is_listed page ps in if p == page then true else rest

module _ (dos : Dos) (granted : Bool) where
  pub record Txn : Type 0 where
    pub wal : Wal
    pub cache : Cache (pager_io dos granted)
    pub state : TxnState
    pub txn_id : ℕ
    pub dirty_pages : List ℕ
    pub pinned_pages : List ℕ
    pub pages_logged : ℕ
    pub commit_count : ℕ
    pub abort_count : ℕ

  -- The allocation is taken to succeed.
  unfoldable pub txn_create : Wal → Cache (pager_io dos granted) → Txn
  txn_create wal cache = record {
    wal = wal;
    cache = cache;
    state = idle;
    txn_id = 0;
    dirty_pages = [];
    pinned_pages = [];
    pages_logged = 0;
    commit_count = 0;
    abort_count = 0;
  }

  -- The reload of a dirty page, where it is cached.
  abbrev pub restored : Option (List ℕ) → Entry → Entry
  restored none e = record e { state = invalid; txn_id = 0 }
  restored (some page) e = record e { bytes = page; state = clean; txn_id = 0 }

  unfoldable pub restore_found :
      ℕ → Option ℕ → Cache (pager_io dos granted) → Cache (pager_io dos granted)
  restore_found page none cache = cache
  restore_found page (some i) cache =
      let (pager, read) = pager_read_page dos page cache.pager in
      change (pager_io dos granted) i (restored read) (record cache { pager = pager })

  unfoldable pub restore_pages :
      List ℕ → Cache (pager_io dos granted) → Cache (pager_io dos granted)
  restore_pages [] cache = cache
  restore_pages (page ∷ pages) cache =
      restore_pages pages (restore_found page (find_entry page cache.entries) cache)

  unfoldable pub txn_abort : Txn → Txn
  txn_abort txn = record txn {
    wal = record (txn.wal) { buffer_used = txn.wal.txn_start_offset };
    cache =
        unpin_pages (pager_io dos granted) txn.pinned_pages
          (restore_pages txn.dirty_pages txn.cache);
    state = idle;
    dirty_pages = [];
    pinned_pages = [];
    abort_count = (txn.abort_count + 1) % 2 ^ 32;
  }

  -- The transaction is freed; what is left is the log and the cache.
  unfoldable pub txn_destroy : Txn → Wal × Cache (pager_io dos granted)
  txn_destroy txn =
      let left = if is_active txn.state then txn_abort txn else txn in (left.wal, left.cache)

  -- A record of the log, and its code.
  abbrev pub write_txn_record : ℕ → List ℕ → Txn → Txn × Code
  write_txn_record type payload txn =
      let (wal, code) = wal_write_record type payload txn.wal in (record txn { wal = wal }, code)

  -- A failure to write the BEGIN record goes back to the idle state.
  unfoldable pub txn_begin : Txn → Txn × Code
  txn_begin txn =
      let id = (txn.wal.current_txn_id + 1) % 2 ^ 64 in
      let (begun, code) = write_txn_record 1 [] (record txn {
        wal = record (txn.wal) { current_txn_id = id };
        state = active;
        txn_id = id;
        dirty_pages = [];
        pinned_pages = [];
      }) in
      if is_idle txn.state
      then (if is_ok code then (begun, ok) else (record begun { state = idle }, code))
      else (txn, busy)

  -- The PAGE record of a dirty page, where it is cached and dirty.
  unfoldable pub log_found : ℕ → Option ℕ → Txn → Txn × Code
  log_found page none txn = (txn, ok)
  log_found page (some i) txn =
      let e = entry_at (pager_io dos granted) txn.cache i in
      let (logged, code) = write_txn_record wal_page (stored32 page ++ e.bytes) txn in
      if is_dirty e.state
      then (if is_ok code
          then (record logged { pages_logged = (txn.pages_logged + 1) % 2 ^ 32 }, ok)
          else (logged, code))
      else (txn, ok)

  -- What follows a step that returned AMIDB_OK, and after a failure what the caller of it does.
  abbrev pub on_ok : Txn × Code → (Txn → Txn × Code) → Txn × Code
  on_ok (txn, code) next = let rest = next txn in if is_ok code then rest else (txn, code)

  abbrev pub or_abort : Txn × Code → (Txn → Txn × Code) → Txn × Code
  or_abort (txn, code) next =
      let rest = next txn in if is_ok code then rest else (txn_abort txn, code)

  unfoldable pub log_pages : List ℕ → Txn → Txn × Code
  log_pages [] txn = (txn, ok)
  log_pages (page ∷ pages) txn =
      on_ok (log_found page (find_entry page txn.cache.entries) txn) (λ t. log_pages pages t)

  -- The write of a dirty page to the database; a failure leaves the entry as it is.
  unfoldable pub store_found :
      ℕ → Option ℕ → Cache (pager_io dos granted) → Cache (pager_io dos granted)
  store_found page none cache = cache
  store_found page (some i) cache =
      let (pager, done) =
        pager_write_page dos granted page (entry_at (pager_io dos granted) cache i).bytes
          cache.pager in
      let written = record cache { pager = pager } in
      if done
      then change (pager_io dos granted) i (λ e. record e { state = clean; txn_id = 0 }) written
      else written

  unfoldable pub store_pages : List ℕ → Cache (pager_io dos granted) → Cache (pager_io dos granted)
  store_pages [] cache = cache
  store_pages (page ∷ pages) cache =
      store_pages pages (store_found page (find_entry page cache.entries) cache)

  -- The steps behind the durability point. The result of the sync is ignored.
  unfoldable pub checkpoint : Txn → Txn
  checkpoint txn =
      let stored = store_pages txn.dirty_pages txn.cache in
      let synced = record stored { pager = (pager_sync dos stored.pager).0 } in
      record txn {
        wal = wal_reset_buffer txn.wal;
        cache = unpin_pages (pager_io dos granted) txn.pinned_pages synced;
        state = idle;
        dirty_pages = [];
        pinned_pages = [];
        commit_count = (txn.commit_count + 1) % 2 ^ 32;
      }

  unfoldable pub flush_commit : Txn → Txn × Code
  flush_commit txn =
      let (wal, pager, code) = wal_flush dos txn.wal txn.cache.pager in
      let flushed = record txn { wal = wal; cache = record (txn.cache) { pager = pager } } in
      if is_ok code then (checkpoint flushed, ok) else (record flushed { state = idle }, code)

  unfoldable pub txn_commit : Txn → Txn × Code
  txn_commit txn =
      let result =
        or_abort (log_pages txn.dirty_pages (record txn { state = committing }))
          (λ t. or_abort (write_txn_record 2 [] t) flush_commit) in
      if is_active txn.state then result else (txn, error)

  -- The pinned list takes the page once the dirty list has it.
  unfoldable pub add_pinned : ℕ → Txn → Txn × Code
  add_pinned page txn =
      if is_listed page txn.pinned_pages
      then (txn, ok)
      else (if leb 64 (length txn.pinned_pages)
          then (txn, full)
          else (record txn { pinned_pages = txn.pinned_pages ++ (page ∷ []) }, ok))

  unfoldable pub txn_add_dirty_page : ℕ → Txn → Txn × Code
  txn_add_dirty_page page txn =
      if is_listed page txn.dirty_pages
      then (txn, ok)
      else (if leb 64 (length txn.dirty_pages)
          then (txn, full)
          else add_pinned page (record txn { dirty_pages = txn.dirty_pages ++ (page ∷ []) }))

  unfoldable pub txn_is_page_dirty : ℕ → Txn → Bool
  txn_is_page_dirty page txn = is_listed page txn.dirty_pages
