-- ===== src/Storage/Pager/Defs.antt =====
-- src/storage/pager.h and the operations of src/storage/pager.c on an open pager.
-- A return value 0 is `true`. `granted` is the answer of the one `mem_alloc` in a call.
use amidb.Base.{
  ℕ, zero, suc, ◌+◌, ◌-◌, ◌*◌, ◌%◌, ◌^◌, Bool, true, false, not, ◌||◌, Option, none, some, List,
  ◌++◌, if◌then◌else◌, leb, ◌==◌, length, take, drop, replicate, splice,
}
use amidb.Os.File.{Dos, beginning, file_read, file_write, file_seek, file_sync}
use amidb.Util.Endian.{put_u32, get_u32}
use amidb.Util.Crc32.{crc32_compute}
use amidb.Storage.Pager.Bitmap.{bitmap_set, bitmap_clear, bitmap_test}

abbrev pub page_size : ℕ
page_size = 4096

abbrev pub max_pages : ℕ
max_pages = 4096

abbrev pub magic_number : ℕ
magic_number = 0x416D6944

-- `reserved` is always zero.
pub record Header : Type 0 where
  pub magic : ℕ
  pub version : ℕ
  pub page_size : ℕ
  pub page_count : ℕ
  pub first_free_page : ℕ
  pub root_page : ℕ
  pub wal_offset : ℕ
  pub flags : ℕ
  pub wal_head : ℕ
  pub wal_tail : ℕ
  pub catalog_root : ℕ

-- The log and the transaction of the C structure are not used by these operations.
pub record Pager (dos : Dos) : Type 0 where
  pub file : dos.Handle
  pub header : Header
  pub bitmap : List ℕ
  pub read_only : Bool

unfoldable pub init_file_header : Header
init_file_header = record {
  magic = magic_number;
  version = 1;
  page_size = page_size;
  page_count = 1;
  first_free_page = 0;
  root_page = 0;
  wal_offset = 0;
  flags = 0;
  wal_head = 0;
  wal_tail = 0;
  catalog_root = 0;
}

-- The 64 bytes at the start of page 0.
unfoldable pub serialize_header : Header → List ℕ
serialize_header h =
    put_u32 h.magic
    ++ (put_u32 h.version
        ++ (put_u32 h.page_size
            ++ (put_u32 h.page_count
                ++ (put_u32 h.first_free_page
                    ++ (put_u32 h.root_page
                        ++ (put_u32 h.wal_offset
                            ++ (put_u32 h.flags
                                ++ (put_u32 h.wal_head
                                    ++ (put_u32 h.wal_tail
                                        ++ (put_u32 h.catalog_root ++ replicate 20 0))))))))))

unfoldable pub deserialize_header : List ℕ → Header
deserialize_header buf = record {
  magic = get_u32 buf;
  version = get_u32 (drop 4 buf);
  page_size = get_u32 (drop 8 buf);
  page_count = get_u32 (drop 12 buf);
  first_free_page = get_u32 (drop 16 buf);
  root_page = get_u32 (drop 20 buf);
  wal_offset = get_u32 (drop 24 buf);
  flags = get_u32 (drop 28 buf);
  wal_head = get_u32 (drop 32 buf);
  wal_tail = get_u32 (drop 36 buf);
  catalog_root = get_u32 (drop 40 buf);
}

-- Page 0: the header, and the bitmap from byte 64 on.
unfoldable pub header_page : Header → List ℕ → List ℕ
unfolding serialize_header
header_page header bitmap =
    splice (splice (replicate page_size 0) 0 (serialize_header header)) 64 bitmap

-- A page as it is written: its number, and the checksum of the bytes from 12 on.
unfoldable pub stamp_page : ℕ → List ℕ → List ℕ
stamp_page page_num bytes =
    let numbered = splice bytes 0 (put_u32 page_num) in
    splice numbered 8 (put_u32 (crc32_compute (take (page_size - 12) (drop 12 numbered))))

-- The first page from `i` on whose bit is clear, among `left` pages.
unfoldable pub find_clear : List ℕ → ℕ → ℕ → Option ℕ
find_clear bitmap zero i = none
find_clear bitmap (suc left) i =
    let rest = find_clear bitmap left (i + 1) in if not (bitmap_test bitmap i) then some i else rest

-- The checks on the bytes read: their number, the page number and the checksum.
unfoldable pub check_page : ℕ → Option (List ℕ) → Option (List ℕ)
check_page page_num none = none
check_page page_num (some bytes) =
    if not (length bytes == page_size)
    then none
    else if not (get_u32 bytes == page_num)
    then none
    else if not (get_u32 (drop 8 bytes) == crc32_compute (take (page_size - 12) (drop 12 bytes)))
    then none
    else some bytes

module _ (dos : Dos) where
  -- `file_seek`, whose result is ignored, and `file_write`.
  unfoldable pub write_at : ℕ → List ℕ → Pager dos → Pager dos × Bool
  write_at offset bytes pager =
      let (file', done) = file_write dos (file_seek dos pager.file offset beginning).0 bytes in
      (record pager { file = file' }, done)

  unfoldable pub pager_write_header : Bool → Pager dos → Pager dos × Bool
  unfolding write_at header_page
  pager_write_header granted pager =
      if pager.read_only || not granted
      then (pager, false)
      else write_at 0 (header_page pager.header pager.bitmap) pager

  -- The page `i` is marked in the bitmap and in the page count.
  unfoldable pub mark_page : ℕ → Pager dos → Pager dos
  mark_page i pager = record pager {
    bitmap = bitmap_set pager.bitmap i;
    header =
        (if leb pager.header.page_count i
          then record (pager.header) { page_count = i + 1 }
          else pager.header);
  }

  -- A fresh page of type FREE. The result of the write is ignored.
  unfoldable pub init_page : ℕ → Pager dos × Bool → Pager dos × Option ℕ
  unfolding write_at stamp_page
  init_page i (pager, false) = (pager, none)
  init_page i (pager, true) =
      ((write_at (i * page_size) (stamp_page i (replicate page_size 0)) pager).0, some i)

  unfoldable pub allocate_at : Bool → Option ℕ → Pager dos → Pager dos × Option ℕ
  unfolding mark_page init_page header_page write_at
  allocate_at granted none pager = (pager, none)
  allocate_at granted (some i) pager =
      let marked = mark_page i pager in
      if granted
      then init_page i (write_at 0 (header_page marked.header marked.bitmap) marked)
      else (marked, none)

  unfoldable pub pager_allocate_page : Bool → Pager dos → Pager dos × Option ℕ
  unfolding allocate_at find_clear
  pager_allocate_page granted pager =
      if pager.read_only
      then (pager, none)
      else allocate_at granted (find_clear pager.bitmap (max_pages - 1) 1) pager

  unfoldable pub pager_free_page : Bool → ℕ → Pager dos → Pager dos × Bool
  unfolding write_at header_page
  pager_free_page granted page_num pager =
      if pager.read_only || page_num == 0 || leb max_pages page_num
      then (pager, false)
      else if not (bitmap_test pager.bitmap page_num)
      then (pager, false)
      else let freed = record pager { bitmap = bitmap_clear pager.bitmap page_num } in
        if granted then write_at 0 (header_page freed.header freed.bitmap) freed else (freed, false)

  -- `none` is -1.
  unfoldable pub pager_read_page : ℕ → Pager dos → Pager dos × Option (List ℕ)
  unfolding check_page
  pager_read_page page_num pager =
      if leb pager.header.page_count page_num
      then (pager, none)
      else let offset = page_num * page_size % 2 ^ 32 in
        let (file', bytes) =
          file_read dos (file_seek dos pager.file offset beginning).0 page_size in
        (record pager { file = file' }, check_page page_num bytes)

  unfoldable pub pager_write_page : Bool → ℕ → List ℕ → Pager dos → Pager dos × Bool
  unfolding write_at stamp_page
  pager_write_page granted page_num bytes pager =
      if pager.read_only || leb max_pages page_num || not granted
      then (pager, false)
      else write_at (page_num * page_size) (stamp_page page_num bytes) pager

  unfoldable pub pager_sync : Pager dos → Pager dos × Bool
  pager_sync pager =
      if pager.read_only
      then (pager, true)
      else (let (file', done) = file_sync dos pager.file in (record pager { file = file' }, done))

  pub pager_get_page_count : Pager dos → ℕ
  pager_get_page_count pager = pager.header.page_count

  pub pager_get_catalog_root : Pager dos → ℕ
  pager_get_catalog_root pager = pager.header.catalog_root

  pub pager_set_catalog_root : Bool → ℕ → Pager dos → Pager dos
  unfolding pager_write_header
  pager_set_catalog_root granted root pager =
      (pager_write_header granted
        (record pager { header = record (pager.header) { catalog_root = root } })).0
