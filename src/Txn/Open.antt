-- ===== src/Txn/Open.antt =====
-- `pager_open` and `pager_close` of src/storage/pager.c. The first recovers the log, so they stand
-- behind it.
-- The handle that `file_open` returns is an argument, and so are `granted`, the answer to the requests
-- for memory but that of the log's region, and `region`, the answer to that one. A NULL is `none`.
-- The debug output is left out.
pub mod Laws
mod Tests
use amidb.Base.{
  ℕ, zero, suc, ◌+◌, ◌-◌, ◌*◌, ◌/◌, ◌%◌, Bool, true, false, not, ◌&&◌, ◌||◌, Option, none, some,
  List, if◌then◌else◌, ltb, ◌==◌, length, take, drop, replicate, splice,
}
use amidb.Os.File.{Dos, beginning, end, file_read, file_write, file_seek, file_sync, file_size}
use amidb.Util.Endian.{get_u32}
use amidb.Storage.Pager.Bitmap.{bitmap_set}
use amidb.Storage.Pager.Defs.{
  Header, Pager, page_size, magic_number, init_file_header, serialize_header, deserialize_header,
  pager_write_header,
}
use amidb.Txn.Wal.Defs.{Code, is_ok, Wal, wal_create}
use amidb.Txn.Wal.Recover.{wal_recover}

-- DB_FLAG_DIRTY is the lowest bit.
abbrev pub is_flagged : Header → Bool
is_flagged header = header.flags % 2 == 1

abbrev pub clear_flag : Header → Header
clear_flag header = record header { flags = header.flags - header.flags % 2 }

abbrev pub set_flag : Header → Header
set_flag header = record header { flags = header.flags - header.flags % 2 + 1 }

-- The header and the bitmap, in a page buffer as it is.
unfoldable pub put_header : Header → List ℕ → List ℕ → List ℕ
put_header header bitmap page_buf = splice (splice page_buf 0 (serialize_header header)) 64 bitmap

module _ (dos : Dos) where
  -- Whether the first 64 bytes are no header.
  abbrev lacks_magic : Option (List ℕ) → Bool
  lacks_magic none = true
  lacks_magic (some bytes) = not (length bytes == 64 && get_u32 bytes == magic_number)

  -- Whether the file is taken for a new one, and the file back at its start.
  unfoldable pub detect_new : dos.Handle → dos.Handle × Bool
  detect_new file =
      let (file', bytes) = file_read dos file 64 in
      ((file_seek dos file' 0 beginning).0, lacks_magic bytes)

  -- The pager of an existing file, and the page buffer.
  unfoldable pub read_header : Bool → dos.Handle × Option (List ℕ) → Option (Pager dos × List ℕ)
  read_header read_only (file, none) = none
  read_header read_only (file, some page_buf) =
      let header = deserialize_header page_buf in
      if not (length page_buf == page_size) || not (header.magic == magic_number)
      then none
      else some (
        record {
          file = file;
          header = header;
          bitmap = take 512 (drop 64 page_buf);
          read_only = read_only;
        },
        page_buf,
      )

  unfoldable pub load_file : Bool → dos.Handle → Option (Pager dos × List ℕ)
  unfolding read_header
  load_file read_only file = read_header read_only (file_read dos file page_size)

  unfoldable pub create_file : Bool → dos.Handle → Option (Pager dos × List ℕ)
  unfolding put_header
  create_file read_only file =
      let bitmap = bitmap_set (replicate 512 0) 0 in
      let page_buf = put_header init_file_header bitmap (replicate page_size 0) in
      let (written, done) = file_write dos file page_buf in
      if done
      then some (
        record {
          file = (file_sync dos written).0;
          header = init_file_header;
          bitmap = bitmap;
          read_only = read_only;
        },
        page_buf,
      )
      else none

  -- The loop that adds pages of zeros; `next` is one more than `current_size`, and so 0 for -1.
  -- From there on 36 rounds reach the end of the log's region.
  unfoldable pub extend_file : ℕ → ℕ → dos.Handle → dos.Handle
  extend_file zero next file = file
  extend_file (suc rounds) next file =
      let (written, done) = file_write dos file (replicate page_size 0) in
      let rest = extend_file rounds (next + page_size) written in
      if ltb next (35 * page_size + 1) then (if done then rest else written) else file

  abbrev next_size : Option ℕ → ℕ
  next_size none = 0
  next_size (some size) = size + 1

  -- The pager and the buffer once the file is long enough, as `file_size` has it.
  unfoldable pub reserve_log : Pager dos × List ℕ → Pager dos × List ℕ
  unfolding extend_file
  reserve_log (pager, page_buf) =
      let (file, size) = file_size dos pager.file in
      let extended = extend_file 36 (next_size size) (file_seek dos file 0 end).0 in
      if pager.read_only
      then (pager, page_buf)
      else if ltb (next_size size) (35 * page_size + 1)
      then (record pager { file = (file_sync dos extended).0 }, replicate page_size 0)
      else (record pager { file = file }, page_buf)

  -- The header page with another header; the results of the calls are ignored.
  unfoldable pub store_header : Header → Pager dos × List ℕ → Pager dos × List ℕ
  unfolding put_header
  store_header header (pager, page_buf) =
      let bytes = put_header header pager.bitmap page_buf in
      let file = (file_write dos (file_seek dos pager.file 0 beginning).0 bytes).0 in
      (record pager { file = (file_sync dos file).0; header = header }, bytes)

  -- After the recovery, if it succeeded.
  unfoldable pub after_recovery : List ℕ → Wal × Pager dos × Code → Option (Pager dos × List ℕ)
  unfolding store_header
  after_recovery page_buf (wal, pager, code) =
      if is_ok code
      then some (
          store_header (record (clear_flag pager.header) { wal_head = 0; wal_tail = 0 })
            (pager, page_buf))
      else none

  abbrev finished : List ℕ → Option (Wal × Pager dos × Code) → Option (Option (Pager dos × List ℕ))
  finished page_buf none = none
  finished page_buf (some result) = some (after_recovery page_buf result)

  -- The recovery of a file that was not closed; the outer `none` is out of fuel.
  unfoldable pub recover_file :
      ℕ → Bool → Bool → List ℕ → Pager dos × List ℕ → Option (Option (Pager dos × List ℕ))
  unfolding after_recovery
  recover_file fuel granted region memory (pager, page_buf) =
      let wal = record wal_create {
        wal_head = pager.header.wal_head;
        wal_tail = pager.header.wal_tail;
      } in
      let recovered = finished page_buf (wal_recover dos granted fuel region memory wal pager) in
      if not pager.read_only && is_flagged pager.header
      then recovered
      else some (some (pager, page_buf))

  abbrev opened : Option (Option (Pager dos × List ℕ)) → Option (Option (Pager dos))
  opened none = none
  opened (some none) = some none
  opened (some (some (pager, page_buf))) = some (some pager)

  -- What follows the header of a new or of an existing file.
  unfoldable pub finish_open :
      ℕ → Bool → Bool → List ℕ → Bool → Option (Pager dos × List ℕ) → Option (Option (Pager dos))
  unfolding recover_file reserve_log
  finish_open fuel granted region memory is_new none = some none
  finish_open fuel granted region memory is_new (some state) =
      let (pager, page_buf) = reserve_log state in
      if is_new
      then some (some (store_header (set_flag pager.header) (pager, page_buf)).0)
      else opened (recover_file fuel granted region memory (pager, page_buf))

  unfoldable pub pager_open :
      ℕ → Bool → Bool → List ℕ → Bool → Option dos.Handle → Option (Option (Pager dos))
  unfolding finish_open load_file create_file detect_new
  pager_open fuel granted region memory read_only none = some none
  pager_open fuel granted region memory read_only (some file) =
      let (start, is_new) = if read_only then (file, false) else detect_new file in
      let state = if is_new then create_file read_only start else load_file read_only start in
      if granted then finish_open fuel granted region memory is_new state else some none

  -- The file as it is closed.
  unfoldable pub pager_close : Bool → Pager dos → dos.Handle
  pager_close granted pager =
      let cleared = record pager { header = clear_flag pager.header } in
      let written = (pager_write_header dos granted cleared).0 in
      if not pager.read_only && pager.header.wal_head == 0
      then (file_sync dos written.file).0
      else pager.file
