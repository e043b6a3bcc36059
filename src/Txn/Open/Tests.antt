-- ===== src/Txn/Open/Tests.antt =====
-- Opening and closing on the disk of Os/File/Disk.antt.
use amidb.Base.{
  ℕ, ◌≡◌, refl, true, false, some, [], ◌∷◌, arith, ==_iff, length, replicate, length-replicate,
}
use amidb.Os.File.{file_read, file_write}
use amidb.Os.File.Disk.{Disk, disk, disk_laws, disk-file_seek, disk-file_read}
use amidb.Storage.Pager.Defs.{
  Pager, page_size, init_file_header, header_page, write_at, pager_write_header,
}
use amidb.Txn.Open.{clear_flag, pager_open, pager_close}
use amidb.Txn.Open.Laws.{pager_open-pager_close}

-- A database that is marked as open.
abbrev in_use : Pager disk
in_use = record {
  file = record { content = replicate 4096 0; at = 0 };
  header = record init_file_header { flags = 1; page_count = 36 };
  bitmap = 3 ∷ replicate 511 0;
  read_only = false;
}

abbrev reopened : Disk
reopened = record { content = (pager_close disk true in_use).content; at = 0 }

written :
    (pager_write_header disk true (record in_use { header = clear_flag in_use.header })).1 ≡ true
unfolding pager_write_header write_at file_write init_file_header
written =
    let n = length (header_page (clear_flag in_use.header) in_use.bitmap) in (==_iff n n).1 refl

pager_open-pager_close_example :
    pager_open disk 0 true true [] true (some reopened)
    ≡ some (
        some (record {
          file = (file_read disk reopened page_size).0;
          header = clear_flag in_use.header;
          bitmap = in_use.bitmap;
          read_only = true;
        }))
unfolding init_file_header disk_laws
pager_open-pager_close_example =
    pager_open-pager_close disk disk_laws 0 true [] in_use reopened refl refl refl
      (omega (arith, length-replicate {A = ℕ} 511 0))
      record {
        magic = omega arith;
        version = omega arith;
        page_size = omega arith;
        page_count = omega arith;
        first_free_page = omega arith;
        root_page = omega arith;
        wal_offset = omega arith;
        flags = omega arith;
        wal_head = omega arith;
        wal_tail = omega arith;
        catalog_root = omega arith;
      }
      written (disk-file_seek in_use.file 0 (omega arith)) refl _ (disk-file_read reopened 4096)
      refl
