-- ===== src/Txn/Wal/Recover/Replay.antt =====
-- `wal_recover` of src/txn/wal.c against the replay of an abstract log.
use mathlib.Core.List.{append_assoc}
use amidb.Base.{
  ℕ, ◌+◌, ◌≤◌, ◌<◌, ◌≡◌, refl, sym, ap, ◌∙◌, Bool, true, false, Option, none, some, List, [], ◌++◌,
  arith, length, take, drop, splice, slice, All, Bool-cases, inl, inr, take-append-drop, take-take,
  length-take,
}
use amidb.Os.File.{Dos, beginning, file_read, file_seek, file_sync}
use amidb.Os.File.Laws.{DosLaws, file_read-file_seek}
use amidb.Storage.Pager.Defs.{Pager, pager_sync}
use amidb.Txn.Wal.Defs.{Code, ok, error, ioerr, wal_reset_buffer, Wal, wal_region_size}
use amidb.Txn.Wal.Records.{drop-splice}
use amidb.Txn.Wal.Recover.{
  finish_recovery, finish_pass, second_pass, replay_log, recover_bytes, recover_region, wal_recover,
}
use amidb.Txn.Wal.Recover.Committed.{
  commit_ids, committed_pages, commits, write_pages, replay-write_pages,
}
use amidb.Txn.Wal.Recover.Headers.{LogRecord, log_bytes, IsLoggable}
use amidb.Txn.Wal.Recover.Passes.{scan_commits-commits, replay_pages-replay}

-- A read of the region into the block gives the file's bytes there, and behind them what the
-- block held.
splice_region :
    (memory bytes : List ℕ)
    → length bytes ≤ length memory
    → splice memory 0 bytes ≡ bytes ++ drop (length bytes) (splice memory 0 bytes)
splice_region memory bytes h = drop-splice memory 0 bytes (omega arith)

module _ (dos : Dos) (laws : DosLaws dos) where
  open laws use {contents}

  -- The log's region of a file holds the records of a log, and the log's head stands behind them.
  pub record HoldsLog (rs : List LogRecord) (wal : Wal) (pager : Pager dos) : Type 0 where
    pub loggable : All IsLoggable rs
    pub head : wal.wal_head ≡ length (log_bytes rs)
    pub bound : wal.wal_head ≤ wal_region_size
    pub inside : 0x3000 ≤ length (contents pager.file)
    pub stored : slice 0x3000 wal.wal_head (contents pager.file) ≡ log_bytes rs

  -- The log's bytes at the start of the buffer that the region was read into.
  region_holds :
      (rs : List LogRecord) (wal : Wal) (pager : Pager dos) (memory : List ℕ)
      → HoldsLog rs wal pager
      → wal_region_size ≤ length memory
      → (rest : List ℕ) × (splice memory 0 (slice 0x3000 wal_region_size (contents pager.file))
          ≡ log_bytes rs ++ rest)
  region_holds rs wal pager memory h room =
      let region = drop 0x3000 (contents pager.file) in
      let bytes = take wal_region_size region in
      let short : length bytes ≤ length memory =
        omega (arith, length-take wal_region_size region, room) in
      let tail = drop (length bytes) (splice memory 0 bytes) in
      let head = wal.wal_head in
      (
        drop head bytes ++ tail,
        splice_region memory bytes short
            ∙ ap (λ t. t ++ tail)
                (sym (take-append-drop head bytes)
                  ∙ ap (λ t. t ++ drop head bytes)
                      (take-take head wal_region_size region h.bound ∙ h.stored))
            ∙ append_assoc (log_bytes rs) (drop head bytes) tail,
      )

  -- The pager as the read of the region leaves it.
  pub after_read : Pager dos → Pager dos
  after_read pager = record pager {
    file = (file_read dos (file_seek dos pager.file 0x3000 beginning).0 wal_region_size).0;
  }

  abbrev after_seek : Pager dos → Pager dos
  after_seek pager = record pager { file = (file_seek dos pager.file 0x3000 beginning).0 }

  -- The pages of the first 256 transactions with a COMMIT record are written.
  abbrev rewrite : Bool → List LogRecord → Pager dos → Pager dos × Bool
  rewrite granted rs pager =
      write_pages dos granted (committed_pages (take 256 (commit_ids rs)) rs) (after_read pager)

  -- What `wal_recover` gives. Where the Seek or the Read of the region fails, an error, and nothing
  -- is written. Else the pages of the first 256 transactions with a COMMIT record, and no other, are
  -- written in the order of the log: up to the first write that fails, and then the log is kept; or
  -- all of them, and then the log is empty, its head at the start.
  pub record IsRecovered (granted : Bool) (rs : List LogRecord) (wal : Wal) (pager : Pager dos)
      (result : Option (Wal × Pager dos × Code)) : Type 0 where
    pub not_sought :
        (file_seek dos pager.file 0x3000 beginning).1 ≡ false
        → result ≡ some (wal, after_seek pager, ioerr)
    pub not_read :
        (file_seek dos pager.file 0x3000 beginning).1 ≡ true
        → (file_read dos (file_seek dos pager.file 0x3000 beginning).0 wal_region_size).1 ≡ none
        → result ≡ some (wal, after_read pager, ioerr)
    pub not_written :
        (bytes : List ℕ)
        → (file_seek dos pager.file 0x3000 beginning).1 ≡ true
        → (file_read dos (file_seek dos pager.file 0x3000 beginning).0 wal_region_size).1
          ≡ some bytes
        → (rewrite granted rs pager).1 ≡ false
        → result ≡ some (wal, (rewrite granted rs pager).0, error)
    pub replayed :
        (bytes : List ℕ)
        → (file_seek dos pager.file 0x3000 beginning).1 ≡ true
        → (file_read dos (file_seek dos pager.file 0x3000 beginning).0 wal_region_size).1
          ≡ some bytes
        → (rewrite granted rs pager).1 ≡ true
        → result
          ≡ some (
            record wal { buffer_used = 0; wal_head = 0; wal_tail = 0 },
            (rewrite granted rs pager).0,
            ok,
          )

  finish_recovery-true :
      (granted : Bool) (wal : Wal) (pager : Pager dos)
      → finish_recovery dos granted wal (pager, true)
        ≡ (record wal { buffer_used = 0; wal_head = 0; wal_tail = 0 }, pager, ok)
  unfolding finish_recovery pager_sync wal_reset_buffer file_sync
  finish_recovery-true granted wal pager = elim (Bool-cases pager.read_only) [
    | inl fixed ↦ rw fixed refl
    | inr open' ↦ rw open' refl
  ]

  -- With the region read, the passes replay the log.
  wal_recover-finish_recovery :
      (granted : Bool) (fuel : ℕ) (memory : List ℕ) (rs : List LogRecord) (wal : Wal)
      (pager : Pager dos) (bytes : List ℕ)
      → HoldsLog rs wal pager
      → wal_region_size ≤ length memory
      → length rs < fuel
      → (file_seek dos pager.file 0x3000 beginning).1 ≡ true
      → (file_read dos (file_seek dos pager.file 0x3000 beginning).0 wal_region_size).1 ≡ some bytes
      → wal_recover dos granted fuel true memory wal pager
        ≡ some (finish_recovery dos granted wal (rewrite granted rs pager))
  unfolding wal_recover recover_region recover_bytes replay_log second_pass finish_pass after_read
  wal_recover-finish_recovery granted fuel memory rs wal pager bytes h room enough sought got =
      let f = (file_seek dos pager.file 0x3000 beginning).0 in
      let region = slice 0x3000 wal_region_size (contents pager.file) in
      let read =
        got
        ∙ ap some
            (file_read-file_seek dos laws pager.file 0x3000 wal_region_size bytes sought got) in
      let after = after_read pager in
      let (rest, holds) = region_holds rs wal pager memory h room in
      let block = splice memory 0 region in
      let total : 0 + length (log_bytes rs) ≡ wal.wal_head = omega (arith, h.head) in
      let first =
        scan_commits-commits rs fuel block rest wal.wal_head 0 [] h.loggable holds total h.bound
          enough in
      let second =
        replay_pages-replay dos granted rs fuel block rest wal.wal_head 0 (commits rs []) after
          h.loggable holds total h.bound enough in
      ap (λ b. recover_region dos granted fuel memory wal pager (f, b)) sought
      ∙ ap
          (λ r.
            recover_bytes dos granted fuel memory wal pager
              ((file_read dos f wal_region_size).0, r))
          read
      ∙ ap (second_pass dos granted fuel block wal after) first
      ∙ ap (finish_pass dos granted wal) second
      ∙ ap (λ r. some (finish_recovery dos granted wal r)) (replay-write_pages dos granted rs after)

  -- Where dos.library behaves as documented and memory for the region is granted, `wal_recover` on a
  -- file whose region holds a log returns an error and writes nothing if the Seek or the Read of the
  -- region fails. Else it writes the pages of the first 256 transactions with a COMMIT record, and no
  -- other, in the order of the log. At the first write that fails it returns an error and keeps the
  -- log; if none does, it returns 0 with an empty log. One round more than there are records is
  -- enough for both passes.
  pub wal_recover-replay :
      (granted : Bool) (fuel : ℕ) (memory : List ℕ) (rs : List LogRecord) (wal : Wal)
      (pager : Pager dos)
      → HoldsLog rs wal pager
      → wal_region_size ≤ length memory
      → length rs < fuel
      → IsRecovered granted rs wal pager (wal_recover dos granted fuel true memory wal pager)
  wal_recover-replay granted fuel memory rs wal pager h room enough =
      let f = (file_seek dos pager.file 0x3000 beginning).0 in
      let written = (rewrite granted rs pager).0 in
      record {
        not_sought = λ sought.
            unfold wal_recover recover_region in
            ap (λ b. recover_region dos granted fuel memory wal pager (f, b)) sought;
        not_read = λ sought got.
            unfold wal_recover recover_region recover_bytes after_read in
            ap (λ b. recover_region dos granted fuel memory wal pager (f, b)) sought
            ∙ ap
                (λ r.
                  recover_bytes dos granted fuel memory wal pager
                    ((file_read dos f wal_region_size).0, r))
                got;
        not_written = λ bytes sought got lost.
            wal_recover-finish_recovery granted fuel memory rs wal pager bytes h room enough sought
              got
            ∙ (unfold finish_recovery in
                ap (λ b. some (finish_recovery dos granted wal (written, b))) lost);
        replayed = λ bytes sought got done.
            wal_recover-finish_recovery granted fuel memory rs wal pager bytes h room enough sought
              got
            ∙ ap (λ b. some (finish_recovery dos granted wal (written, b))) done
            ∙ ap some (finish_recovery-true granted wal written);
      }
