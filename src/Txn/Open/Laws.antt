-- ===== src/Txn/Open/Laws.antt =====
-- A file of src/storage/pager.c that is closed and opened again.
use amidb.Base.{
  ℕ, ◌≡◌, refl, sym, ap, ◌∙◌, Bool, true, false, not, ◌||◌, some, List, ◌++◌, arith, if◌then◌else◌,
  ==_iff, length, take, drop, replicate, length-replicate, take-append-drop, splice, slice,
  length-splice, slice-splice_self, slice-splice_before, overwrite, slice-overwrite_self,
}
use amidb.Os.File.{Dos, beginning, file_read, file_write, file_seek, file_sync}
use amidb.Os.File.Laws.{DosLaws, file_write-file_seek}
use amidb.Util.Endian.{put_u32}
use amidb.Storage.Pager.Defs.{
  Header, Pager, page_size, magic_number, serialize_header, deserialize_header, header_page,
  write_at, pager_write_header,
}
use amidb.Storage.Pager.Pages.{Fits, deserialize_header-serialize_header}
use amidb.Txn.Open.{
  clear_flag, load_file, read_header, reserve_log, recover_file, finish_open, pager_open,
  pager_close,
}

length-serialize_header : (h : Header) → length (serialize_header h) ≡ 64
unfolding serialize_header put_u32
length-serialize_header h = omega (arith, length-replicate {A = ℕ} 20 0)

module _ (header : Header) (bitmap : List ℕ) (sized : length bitmap ≡ 512) where
  abbrev page : List ℕ
  page = header_page header bitmap

  abbrev zeros : List ℕ
  zeros = replicate page_size 0

  length-page : length page ≡ 4096
  unfolding header_page
  length-page =
      length-splice (splice zeros 0 (serialize_header header)) 64 bitmap
      ∙ length-splice zeros 0 (serialize_header header)
      ∙ length-replicate {A = ℕ} 4096 0

  header_part : take 64 page ≡ serialize_header header
  unfolding header_page
  header_part =
      let s = serialize_header header in
      let n = length-serialize_header header in
      slice-splice_before (splice zeros 0 s) 64 bitmap 0 64 (omega arith)
      ∙ ap (λ k. take k (splice zeros 0 s)) (sym n)
      ∙ slice-splice_self zeros 0 s (omega (arith, n, length-replicate {A = ℕ} 4096 0))

  bitmap_part : take 512 (drop 64 page) ≡ bitmap
  unfolding header_page
  bitmap_part =
      let under = splice zeros 0 (serialize_header header) in
      let n = length-splice zeros 0 (serialize_header header) ∙ length-replicate {A = ℕ} 4096 0 in
      ap (λ k. take k (drop 64 page)) (sym sized)
      ∙ slice-splice_self under 64 bitmap (omega (arith, n, sized))

  deserialize_header-page : Fits header → deserialize_header page ≡ header
  deserialize_header-page fits =
      ap deserialize_header
        (sym (take-append-drop 64 page) ∙ ap (λ s. s ++ drop 64 page) header_part)
      ∙ deserialize_header-serialize_header header (drop 64 page) fits

module _ (dos : Dos) (laws : DosLaws dos) where
  open laws use {contents, position, read_bytes}

  -- A file of at least one page that begins with the header page.
  load_file-page :
      (file : dos.Handle) (header : Header) (bitmap : List ℕ)
      → length bitmap ≡ 512
      → Fits header
      → header.magic ≡ magic_number
      → position file ≡ 0
      → slice 0 4096 (contents file) ≡ header_page header bitmap
      → (given : List ℕ) → (file_read dos file page_size).1 ≡ some given
      → load_file dos true file
        ≡ some (
          record {
            file = (file_read dos file page_size).0;
            header = header;
            bitmap = bitmap;
            read_only = true;
          },
          header_page header bitmap,
        )
  unfolding load_file read_header file_read
  load_file-page file header bitmap sized fits magic start bytes given got =
      let read : (dos.read file 4096).1 ≡ some (header_page header bitmap) =
        got
        ∙ ap some (
            read_bytes file 4096 given got
            ∙ ap (λ n. slice n 4096 (contents file)) start
            ∙ bytes) in
      let whole =
        (==_iff (length (header_page header bitmap)) page_size).1
          (length-page header bitmap sized) in
      let good = (==_iff header.magic magic_number).1 magic in
      let pair : dos.read file 4096 ≡ ((dos.read file 4096).0, some (header_page header bitmap)) =
        ap (λ r. ((dos.read file 4096).0, r)) read in
      ap (read_header dos true) pair
      ∙ rw
          (
            whole,
            deserialize_header-page header bitmap sized fits,
            good,
            bitmap_part header bitmap sized,
          )
          refl

  clear_flag-Fits : (header : Header) → Fits header → Fits (clear_flag header)
  clear_flag-Fits header fits = record {
    magic = fits.magic;
    version = fits.version;
    page_size = fits.page_size;
    page_count = fits.page_count;
    first_free_page = fits.first_free_page;
    root_page = fits.root_page;
    wal_offset = fits.wal_offset;
    flags = omega (arith, fits.flags);
    wal_head = fits.wal_head;
    wal_tail = fits.wal_tail;
    catalog_root = fits.catalog_root;
  }

  -- What the last write of `pager_close` leaves in the file.
  closed_page :
      (pager : Pager dos)
      → pager.read_only ≡ false
      → pager.header.wal_head ≡ 0
      → length pager.bitmap ≡ 512
      → (pager_write_header dos true (record pager { header = clear_flag pager.header })).1 ≡ true
      → (file_seek dos pager.file 0 beginning).1 ≡ true
      → slice 0 4096 (contents (pager_close dos true pager))
        ≡ header_page (clear_flag pager.header) pager.bitmap
  unfolding pager_close pager_write_header write_at file_sync
  closed_page pager mode head sized done sought =
      let header = clear_flag pager.header in
      let bytes = header_page header pager.bitmap in
      let empty = (==_iff pager.header.wal_head 0).1 head in
      let f = (file_seek dos pager.file 0 beginning).0 in
      let succeeded : (file_write dos f bytes).1 ≡ true =
        ap
          (λ b.
            (if b || not true
              then (record pager { header = header }, false)
              else write_at dos 0 bytes (record pager { header = header })).1)
          (sym mode)
        ∙ done in
      let written =
        file_write-file_seek dos laws pager.file 0 bytes (omega arith) sought succeeded in
      rw (mode, empty)
        (ap (slice 0 4096) written
          ∙ ap (λ n. slice 0 n (overwrite (contents pager.file) 0 bytes))
              (sym (length-page header pager.bitmap sized))
          ∙ slice-overwrite_self (contents pager.file) 0 bytes (omega arith))

  -- A pager in write mode with an empty log is closed, the memory granted and the header written with
  -- success, the Seek before it included. Where dos.library behaves as documented, opening a file with
  -- the contents that were left, at its start, for reading gives a pager with the same bitmap and the
  -- same header but for the dirty flag, which is clear, if the Read of the header page does not fail.
  pub pager_open-pager_close :
      (fuel : ℕ) (region : Bool) (memory : List ℕ) (pager : Pager dos) (file : dos.Handle)
      → pager.read_only ≡ false
      → pager.header.wal_head ≡ 0
      → pager.header.magic ≡ magic_number
      → length pager.bitmap ≡ 512
      → Fits pager.header
      → (pager_write_header dos true (record pager { header = clear_flag pager.header })).1 ≡ true
      → (file_seek dos pager.file 0 beginning).1 ≡ true
      → position file ≡ 0
      → (given : List ℕ) → (file_read dos file page_size).1 ≡ some given
      → contents file ≡ contents (pager_close dos true pager)
      → pager_open dos fuel true region memory true (some file)
        ≡ some (
            some (record {
              file = (file_read dos file page_size).0;
              header = clear_flag pager.header;
              bitmap = pager.bitmap;
              read_only = true;
            }))
  unfolding pager_open finish_open reserve_log recover_file
  pager_open-pager_close fuel region memory pager file mode head magic sized fits done sought start
        given got same =
      let bytes = ap (slice 0 4096) same ∙ closed_page pager mode head sized done sought in
      ap (finish_open dos fuel true region memory false) (
        load_file-page file (clear_flag pager.header) pager.bitmap sized
          (clear_flag-Fits pager.header fits) magic start bytes given got)
