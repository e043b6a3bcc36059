-- ===== src/Txn/Wal/Recover.antt =====
-- `wal_recover` of src/txn/wal.c: the two passes over the log's region.
-- `memory` is what the block of the region's size, and the memory behind it, held before the read.
-- A pass that makes more rounds than the fuel gives `none`.
pub mod Headers
pub mod Committed
mod Passes
pub mod Replay
pub mod Stuck
mod Tests
use amidb.Base.{
  ℕ, zero, suc, ◌+◌, ◌*◌, ◌%◌, ◌^◌, Bool, true, false, ◌&&◌, Option, none, some, List, [], ◌∷◌,
  ◌++◌, if◌then◌else◌, ltb, leb, ◌==◌, length, take, drop, get_or, splice,
}
use amidb.Os.File.{Dos, beginning, file_read, file_seek}
use amidb.Storage.Pager.Defs.{Pager, pager_write_page, pager_sync}
use amidb.Txn.Wal.Defs.{
  Code, ok, error, ioerr, nomem, Wal, wal_page, wal_region_size, load32, wal_verify_checksum,
  wal_reset_buffer,
}

abbrev pub wal_magic : ℕ
wal_magic = 0x57414C52

abbrev pub wal_commit : ℕ
wal_commit = 2

-- The fields that the passes read of a header copied from the buffer.
pub record RecordHeader : Type 0 where
  pub magic : ℕ
  pub record_type : ℕ
  pub record_size : ℕ
  pub txn_id : ℕ

unfoldable pub load_header : List ℕ → RecordHeader
load_header bytes = record {
  magic = load32 bytes;
  record_type = get_or bytes 4 0 * 2 ^ 8 + get_or bytes 5 0;
  record_size = load32 (drop 8 bytes);
  txn_id = load32 (drop 12 bytes) * 2 ^ 32 + load32 (drop 16 bytes);
}

-- The condition of both loops.
unfoldable pub in_log : ℕ → ℕ → Bool
in_log head offset = ltb offset head && leb ((offset + 24) % 2 ^ 32) wal_region_size

-- At most 256 transactions are kept.
abbrev pub note_commit : ℕ → ℕ → List ℕ → List ℕ
note_commit type txn_id found =
    if type == wal_commit && ltb (length found) 256 then found ++ (txn_id ∷ []) else found

unfoldable pub scan_commits : ℕ → List ℕ → ℕ → ℕ → List ℕ → Option (List ℕ)
scan_commits zero memory head offset found = none
scan_commits (suc fuel) memory head offset found =
    let hdr = load_header (drop offset memory) in
    let rest =
      scan_commits fuel memory head ((offset + hdr.record_size) % 2 ^ 32)
        (note_commit hdr.record_type hdr.txn_id found) in
    if in_log head offset
    then (if hdr.magic == wal_magic
        then (if wal_verify_checksum (drop offset memory) hdr.record_size then rest else some found)
        else some found)
    else some found

unfoldable pub is_committed : ℕ → List ℕ → Bool
is_committed txn_id [] = false
is_committed txn_id (c ∷ cs) =
    let rest = is_committed txn_id cs in if c == txn_id then true else rest

module _ (dos : Dos) (granted : Bool) where
  -- The write of a page of a committed transaction; any other record is passed over.
  unfoldable pub replay_record : ℕ → ℕ → ℕ → List ℕ → List ℕ → Pager dos → Pager dos × Bool
  replay_record type txn_id page_num page_data committed pager =
      if is_committed txn_id committed && type == wal_page
      then pager_write_page dos granted page_num page_data pager
      else (pager, true)

  unfoldable pub replay_pages : ℕ → List ℕ → ℕ → ℕ → List ℕ → Pager dos → Option (Pager dos × Bool)
  replay_pages zero memory head offset committed pager = none
  replay_pages (suc fuel) memory head offset committed pager =
      let bytes = drop offset memory in
      let hdr = load_header bytes in
      let (pager', done) =
        replay_record hdr.record_type hdr.txn_id (load32 (drop 24 bytes))
          (take 4096 (drop 28 bytes)) committed pager in
      let rest =
        replay_pages fuel memory head ((offset + hdr.record_size) % 2 ^ 32) committed pager' in
      if in_log head offset
      then (if hdr.magic == wal_magic
          then (if done then rest else some (pager', false))
          else some (pager, true))
      else some (pager, true)

  -- After the second pass: the sync, and the log is empty.
  unfoldable pub finish_recovery : Wal → Pager dos × Bool → Wal × Pager dos × Code
  finish_recovery wal (pager, false) = (wal, pager, error)
  finish_recovery wal (pager, true) =
      let (synced, done) = pager_sync dos pager in
      if done then (wal_reset_buffer wal, synced, ok) else (wal, synced, error)

  unfoldable pub finish_pass : Wal → Option (Pager dos × Bool) → Option (Wal × Pager dos × Code)
  finish_pass wal none = none
  finish_pass wal (some result) = some (finish_recovery wal result)

  unfoldable pub second_pass :
      ℕ → List ℕ → Wal → Pager dos → Option (List ℕ) → Option (Wal × Pager dos × Code)
  second_pass fuel memory wal pager none = none
  second_pass fuel memory wal pager (some committed) =
      finish_pass wal (replay_pages fuel memory wal.wal_head 0 committed pager)

  unfoldable pub replay_log : ℕ → List ℕ → Wal → Pager dos → Option (Wal × Pager dos × Code)
  replay_log fuel memory wal pager =
      second_pass fuel memory wal pager (scan_commits fuel memory wal.wal_head 0 [])

  unfoldable pub recover_bytes :
      ℕ → List ℕ → Wal → Pager dos → dos.Handle × Option (List ℕ) → Option (Wal × Pager dos × Code)
  recover_bytes fuel memory wal pager (file, none) = some (wal, record pager { file = file }, ioerr)
  recover_bytes fuel memory wal pager (file, some bytes) =
      replay_log fuel (splice memory 0 bytes) wal (record pager { file = file })

  unfoldable pub recover_region :
      ℕ → List ℕ → Wal → Pager dos → dos.Handle × Bool → Option (Wal × Pager dos × Code)
  recover_region fuel memory wal pager (file, false) =
      some (wal, record pager { file = file }, ioerr)
  recover_region fuel memory wal pager (file, true) =
      recover_bytes fuel memory wal pager (file_read dos file wal_region_size)

  -- `region` is the answer to the request for the region's buffer, and `granted` the answer to
  -- those of one page.
  unfoldable pub wal_recover : ℕ → Bool → List ℕ → Wal → Pager dos → Option (Wal × Pager dos × Code)
  wal_recover fuel region memory wal pager =
      if region
      then recover_region fuel memory wal pager (file_seek dos pager.file 0x3000 beginning)
      else some (wal, pager, nomem)
