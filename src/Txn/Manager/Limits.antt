-- ===== src/Txn/Manager/Limits.antt =====
-- The limit that the buffer of src/txn/wal.c sets to `txn_commit` of src/txn/txn.c.
use amidb.Base.{
  ℕ, ◌+◌, ◌*◌, ◌%◌, ◌^◌, ◌≤◌, ◌<◌, ◌≡◌, ◌⊎◌, refl, Bool, true, some, List, [], ◌∷◌, ◌++◌, arith,
  ltb, ltb→lt, length, All, Bool-cases, inl, inr,
}
use amidb.Os.File.{Dos}
use amidb.Storage.PageIo.{pager_io}
use amidb.Storage.Cache.Defs.{Cache, is_dirty, entry_at, find_entry}
use amidb.Txn.Wal.Defs.{
  ok, full, Wal, wal_buffer_size, wal_page, stored32, append_record, wal_write_record,
}
use amidb.Txn.Manager.Defs.{
  Txn, idle, active, committing, log_found, log_pages, txn_abort, txn_commit,
}

-- A record either is written, and the used part grows by its size, or it does not fit.
pub wal_write_record-ends :
    (type : ℕ) (payload : List ℕ) (wal : Wal)
    → length payload < 2 ^ 16
    → wal.buffer_used ≤ wal_buffer_size
    → ((wal_write_record type payload wal ≡ (wal, full))
        × (wal_buffer_size < wal.buffer_used + 24 + length payload))
      ⊎ (((wal_write_record type payload wal).1 ≡ ok)
          × ((wal_write_record type payload wal).0.buffer_used
              ≡ wal.buffer_used + 24 + length payload)
          × (wal.buffer_used + 24 + length payload ≤ wal_buffer_size))
unfolding wal_write_record append_record
wal_write_record-ends type payload wal short bound =
    let total = (wal.buffer_used + (24 + length payload) % 2 ^ 32) % 2 ^ 32 in
    elim (Bool-cases (ltb wal_buffer_size total)) [
      | inl over ↦ let long = ltb→lt wal_buffer_size total over in rw over (inl (refl, omega arith))
      | inr room ↦
          let fits : total ≤ wal_buffer_size = ground arith in
          rw room (inr (refl, omega arith, omega arith))
    ]

module _ (dos : Dos) (granted : Bool) where
  -- The page is cached, dirty and of 4096 bytes.
  pub record IsDirtyIn (cache : Cache (pager_io dos granted)) (page : ℕ) : Type 0 where
    pub index : ℕ
    pub found : find_entry page cache.entries ≡ some index
    pub changed : is_dirty (entry_at (pager_io dos granted) cache index).state ≡ true
    pub whole : length (entry_at (pager_io dos granted) cache index).bytes ≡ 4096

  -- A dirty page takes 4124 bytes of the buffer, or does not fit.
  log_found-dirty :
      (page : ℕ) (txn : Txn dos granted) (index : ℕ)
      → is_dirty (entry_at (pager_io dos granted) txn.cache index).state ≡ true
      → length (entry_at (pager_io dos granted) txn.cache index).bytes ≡ 4096
      → txn.wal.buffer_used ≤ wal_buffer_size
      → (((log_found dos granted page (some index) txn).1 ≡ full)
          × (wal_buffer_size < txn.wal.buffer_used + 4124))
        ⊎ (((log_found dos granted page (some index) txn).1 ≡ ok)
            × ((log_found dos granted page (some index) txn).0.cache ≡ txn.cache)
            × ((log_found dos granted page (some index) txn).0.wal.buffer_used
                ≡ txn.wal.buffer_used + 4124)
            × (txn.wal.buffer_used + 4124 ≤ wal_buffer_size))
  unfolding log_found
  log_found-dirty page txn index changed whole bound =
      let bytes = (entry_at (pager_io dos granted) txn.cache index).bytes in
      let size : length (stored32 page ++ bytes) ≡ 4100 = omega (arith, whole) in
      elim (wal_write_record-ends wal_page (stored32 page ++ bytes) txn.wal (omega arith) bound) [
        | inl (e, over) ↦ rw (changed, e) (inl (refl, omega arith))
        | inr (e, used, fits) ↦ rw (changed, e) (inr (refl, refl, omega arith, omega arith))
      ]

  -- More dirty pages than the buffer has room for are not all logged.
  log_pages-full :
      (pages : List ℕ) (txn : Txn dos granted)
      → All (IsDirtyIn txn.cache) pages
      → txn.wal.buffer_used ≤ wal_buffer_size
      → wal_buffer_size < txn.wal.buffer_used + length pages * 4124
      → (log_pages dos granted pages txn).1 ≡ full
  unfolding log_pages
  log_pages-full [] txn h bound long = absurd (omega arith)
  log_pages-full (page ∷ pages) txn (h, hs) bound long =
      let next = log_found dos granted page (some h.index) txn in
      elim (log_found-dirty page txn h.index h.changed h.whole bound) [
        | inl (e, over) ↦ rw (h.found, e) refl
        | inr (e, same, used, fits) ↦
            rw (h.found, e) (log_pages-full pages next.0 (rw same hs) (omega arith) (omega arith))
      ]

  -- On a log whose use fits its buffer, an active transaction with at least eight dirty pages, each
  -- of them dirty in the cache and of 4096 bytes, is not committed, though 64 pages can be dirty:
  -- their records need more than the buffer, however little of it is used. `txn_commit` returns
  -- AMIDB_FULL, and the transaction is idle and has no dirty and no pinned page.
  pub txn_commit_full :
      (txn : Txn dos granted)
      → txn.state ≡ active
      → All (IsDirtyIn txn.cache) txn.dirty_pages
      → txn.wal.buffer_used ≤ wal_buffer_size
      → 8 ≤ length txn.dirty_pages
      → ((txn_commit dos granted txn).1 ≡ full)
        × ((txn_commit dos granted txn).0.state ≡ idle)
        × ((txn_commit dos granted txn).0.dirty_pages ≡ [])
        × ((txn_commit dos granted txn).0.pinned_pages ≡ [])
  unfolding txn_commit txn_abort
  txn_commit_full txn is_now dirty bound many =
      let e =
        log_pages-full txn.dirty_pages (record txn { state = committing }) dirty bound
          (omega arith) in
      rw (is_now, e) (refl, refl, refl, refl)
