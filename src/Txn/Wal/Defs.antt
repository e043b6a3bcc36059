-- ===== src/Txn/Wal/Defs.antt =====
-- src/txn/wal.h and the operations of src/txn/wal.c on the log and its buffer.
-- The log's pager is shared with the page cache, so it is passed along. A record header is copied
-- as the structure lies in memory: on the 68000 that is 24 bytes, big-endian and without padding.
use amidb.Base.{
  ℕ, ◌+◌, ◌-◌, ◌%◌, ◌/◌, ◌*◌, ◌^◌, Bool, true, false, List, [], ◌∷◌, ◌++◌, if◌then◌else◌, ltb, ◌==◌,
  length, take, drop, replicate, get_or, splice,
}
use amidb.Os.File.{Dos, beginning, file_write, file_seek, file_sync}
use amidb.Util.Crc32.{crc32_update}
use amidb.Storage.Pager.Defs.{Pager}

-- The codes of src/api/error.h that the log and the transactions return.
pub data Code : Type 0 where
  ok error busy full ioerr nomem : Code

abbrev pub is_ok : Code → Bool
is_ok ok = true
is_ok error = false
is_ok busy = false
is_ok full = false
is_ok ioerr = false
is_ok nomem = false

-- `checkpoint_count` and `wal_tail` are never read.
pub record Wal : Type 0 where
  pub buffer : List ℕ
  pub buffer_used : ℕ
  pub current_txn_id : ℕ
  pub txn_start_offset : ℕ
  pub wal_head : ℕ
  pub wal_tail : ℕ
  pub total_records : ℕ

abbrev pub wal_buffer_size : ℕ
wal_buffer_size = 32768

abbrev pub wal_region_size : ℕ
wal_region_size = 131072

abbrev pub wal_page : ℕ
wal_page = 0x10

-- The allocation is taken to succeed.
unfoldable pub wal_create : Wal
wal_create = record {
  buffer = replicate wal_buffer_size 0;
  buffer_used = 0;
  current_txn_id = 0;
  txn_start_offset = 0;
  wal_head = 0;
  wal_tail = 0;
  total_records = 0;
}

-- A 16-bit and a 32-bit number in memory.
abbrev pub stored16 : ℕ → List ℕ
stored16 v = (v / 2 ^ 8 % 256) ∷ (v % 256) ∷ []

abbrev pub stored32 : ℕ → List ℕ
stored32 v = (v / 2 ^ 24 % 256) ∷ (v / 2 ^ 16 % 256) ∷ (v / 2 ^ 8 % 256) ∷ (v % 256) ∷ []

unfoldable pub load32 : List ℕ → ℕ
load32 p = get_or p 0 0 * 2 ^ 24 + get_or p 1 0 * 2 ^ 16 + get_or p 2 0 * 2 ^ 8 + get_or p 3 0

-- The 20 bytes of a header before its checksum: magic, type, flags, size and transaction.
unfoldable pub header_bytes : ℕ → ℕ → ℕ → List ℕ
header_bytes type size txn_id =
    stored32 0x57414C52
    ++ stored16 type
    ++ stored16 0
    ++ stored32 size
    ++ stored32 (txn_id / 2 ^ 32)
    ++ stored32 txn_id

-- The checksum goes on over the payload, if there is one.
abbrev pub hash_payload : ℕ → List ℕ → ℕ
hash_payload crc [] = crc
hash_payload crc (b ∷ bs) = crc32_update crc (b ∷ bs)

-- A record as it is appended to the buffer.
unfoldable pub record_bytes : ℕ → ℕ → List ℕ → List ℕ
record_bytes type txn_id payload =
    let header = header_bytes type ((24 + length payload) % 2 ^ 32) txn_id in
    header ++ stored32 (hash_payload (crc32_update 0 header) payload) ++ payload

-- The part after the check of the space.
unfoldable pub append_record : ℕ → ℕ → List ℕ → Wal → Wal
append_record record_size type payload wal = record wal {
  buffer = splice wal.buffer wal.buffer_used (record_bytes type wal.current_txn_id payload);
  buffer_used = (wal.buffer_used + record_size) % 2 ^ 32;
  total_records = (wal.total_records + 1) % 2 ^ 32;
}

-- Callers give no payload with the size 0, so the payload and its size are one list.
unfoldable pub wal_write_record : ℕ → List ℕ → Wal → Wal × Code
wal_write_record type payload wal =
    let record_size = (24 + length payload) % 2 ^ 32 in
    if ltb wal_buffer_size ((wal.buffer_used + record_size) % 2 ^ 32)
    then (wal, full)
    else (append_record record_size type payload wal, ok)

-- `record_data` is the memory from the record on.
unfoldable pub wal_verify_checksum : List ℕ → ℕ → Bool
unfolding load32
wal_verify_checksum record_data record_size =
    let payload_size = (load32 (drop 8 record_data) + 2 ^ 32 - 24) % 2 ^ 32 in
    let crc = crc32_update 0 (take 20 record_data) in
    if ltb record_size 24
    then false
    else hash_payload crc (take payload_size (drop 24 record_data)) == load32 (drop 20 record_data)

module _ (dos : Dos) where
  -- The write and the sync, after a seek that succeeded or failed.
  unfoldable pub write_log : Wal → Pager dos → dos.Handle × Bool → Wal × Pager dos × Code
  write_log wal pager (file, false) = (wal, record pager { file = file }, ioerr)
  write_log wal pager (file, true) =
      let (file', written) = file_write dos file (take wal.buffer_used wal.buffer) in
      let (synced_file, synced) = file_sync dos file' in
      if written
      then (if synced
          then (
            record wal { wal_head = (wal.wal_head + wal.buffer_used) % 2 ^ 32 },
            record pager { file = synced_file },
            ok,
          )
          else (wal, record pager { file = synced_file }, ioerr))
      else (wal, record pager { file = file' }, ioerr)

  unfoldable pub wal_flush : Wal → Pager dos → Wal × Pager dos × Code
  unfolding write_log
  wal_flush wal pager =
      if wal.buffer_used == 0
      then (wal, pager, ok)
      else (if ltb wal_region_size ((wal.wal_head + wal.buffer_used) % 2 ^ 32)
          then (wal, pager, full)
          else write_log wal pager (file_seek dos pager.file (0x3000 + wal.wal_head) beginning))

unfoldable pub wal_reset_buffer : Wal → Wal
wal_reset_buffer wal = record wal { buffer_used = 0; wal_head = 0; wal_tail = 0 }
