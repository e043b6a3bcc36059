-- ===== src/Storage/Pager/Tests.antt =====
-- The pager at concrete inputs, on the disk of Os/File/Disk.antt.
use amidb.Base.{
  ℕ, ◌+◌, ◌*◌, ◌/◌, ◌≤◌, ◌<◌, ◌≡◌, ◌≢◌, ◌⊎◌, refl, true, false, not, ◌&&◌, Option, none, some, List,
  ◌∷◌, arith, ◌==◌, ap, length, replicate, length-replicate, All-replicate, splice, overwrite,
}
use amidb.Os.File.{beginning, file_write, file_seek}
use amidb.Os.File.Disk.{disk, disk_laws, seek_disk, disk-file_seek, disk-file_read}
use amidb.Util.Endian.{IsByte, put_u32}
use amidb.Storage.Pager.Bitmap.{bitmap_test, bitmap_set}
use amidb.Storage.Pager.Defs.{
  Pager, init_file_header, stamp_page, pager_allocate_page, pager_free_page, pager_read_page,
  pager_write_page, max_pages, page_size,
}
use amidb.Storage.Pager.Alloc.{
  IsValid, Allocated, wal_region_start, pager_allocate_page-Allocated, pager_free_page-Freed,
  pager_allocate_page_in_wal,
}
use amidb.Storage.Pager.Pages.{
  IsReadable, pager_write_page-length, pager_read_page-pager_write_page,
}

-- All but the checksums.
program : Unit {0}
unfolding pager_allocate_page pager_free_page pager_write_page init_file_header bitmap_test
    bitmap_set file_write file_seek seek_disk splice put_u32 overwrite
program = tt

-- A file of eight pages, with the bitmap's first byte given.
abbrev with_bits : ℕ → Pager disk
with_bits bits = record {
  file = record { content = replicate 32768 0; at = 0 };
  header = record init_file_header { page_count = 4 };
  bitmap = bits ∷ replicate 511 0;
  read_only = false;
}

with_bits-IsValid : (bits : ℕ) → bits < 256 → IsValid (with_bits bits)
with_bits-IsValid bits h = record {
  sized = ap_suc;
  bytes = (h, All-replicate IsByte 511 0 (omega arith));
  bounded = omega arith;
}
  where
    ap_suc : length (bits ∷ replicate 511 0) ≡ 512
    ap_suc = omega (arith, length-replicate {0} 511)

pager_allocate_page-Allocated_example :
    ((after : Pager disk) (i : ℕ)
      → pager_allocate_page disk true (with_bits 3) ≡ (after, some i)
      → Allocated (with_bits 3) after i)
    × (false ≡ true → pager_allocate_page disk true (with_bits 3) ≡ (with_bits 3, none))
    × (((j : ℕ) → 0 < j → j < max_pages → bitmap_test (with_bits 3).bitmap j ≡ true)
        → pager_allocate_page disk true (with_bits 3) ≡ (with_bits 3, none))
pager_allocate_page-Allocated_example =
    pager_allocate_page-Allocated disk true (with_bits 3) (with_bits-IsValid 3 (omega arith))

abbrev third : Pager disk × Option ℕ
third = pager_allocate_page disk true (with_bits 7)

allocate_third : third.1 ≡ some 3
unfolding program
allocate_third = refl

pager_allocate_page_in_wal_example : third.1 ≡ some (wal_region_start / page_size)
unfolding bitmap_test
pager_allocate_page_in_wal_example =
    pager_allocate_page_in_wal disk (with_bits 7) (λ e. cc allocate_third) refl refl refl

pager_free_page-Freed_example :
    ((false ≡ true)
        ⊎ (◌≡◌ {A = ℕ} 2 0)
        ⊎ (max_pages ≤ 2)
        ⊎ (bitmap_test (with_bits 7).bitmap 2 ≡ false)
      → pager_free_page disk true 2 (with_bits 7) ≡ (with_bits 7, false))
    × ((after : Pager disk)
        → pager_free_page disk true 2 (with_bits 7) ≡ (after, true)
        → IsValid after
          × (bitmap_test (with_bits 7).bitmap 2 ≡ true)
          × ((j : ℕ)
              → bitmap_test after.bitmap j ≡ (not (2 == j) && bitmap_test (with_bits 7).bitmap j)))
pager_free_page-Freed_example =
    pager_free_page-Freed disk true 2 (with_bits 7) (with_bits-IsValid 7 (omega arith))

abbrev zeros : List ℕ
zeros = replicate 4096 0

written : (pager_write_page disk true 2 zeros (with_bits 7)).1 ≡ true
unfolding program
written = refl

abbrev rewritten : Pager disk
rewritten = (pager_write_page disk true 2 zeros (with_bits 7)).0

inside : 2 * page_size ≤ length (with_bits 7).file.content
inside = omega (arith, length-replicate {0} 32768)

sought : (file_seek disk (with_bits 7).file (2 * page_size) beginning).1 ≡ true
sought = disk-file_seek (with_bits 7).file (2 * page_size) inside

rewritten-IsReadable : IsReadable disk disk_laws 2 rewritten
unfolding disk_laws
rewritten-IsReadable = record {
  sought = disk-file_seek rewritten.file (2 * page_size) (
      omega (
        arith,
        inside,
        pager_write_page-length disk disk_laws true 2 zeros (with_bits 7) rewritten
            (ap (λ b. (rewritten, b)) written) inside sought,
      ));
  bytes = _;
  read = disk-file_read (file_seek disk rewritten.file (2 * page_size) beginning).0 page_size;
}

pager_read_page-pager_write_page_example :
    ((pager_read_page disk 2 (pager_write_page disk true 2 zeros (with_bits 7)).0).1
      ≡ some (stamp_page 2 zeros))
    × ((q : ℕ)
        → q ≢ 2
        → q < 4
        → IsReadable disk disk_laws q (with_bits 7)
        → IsReadable disk disk_laws q (pager_write_page disk true 2 zeros (with_bits 7)).0
        → (q + 1) * page_size ≤ length (with_bits 7).file.content
        → (pager_read_page disk q (pager_write_page disk true 2 zeros (with_bits 7)).0).1
          ≡ (pager_read_page disk q (with_bits 7)).1)
unfolding disk_laws
pager_read_page-pager_write_page_example =
    pager_read_page-pager_write_page disk disk_laws true 2 zeros (with_bits 7) rewritten
      (ap (λ b. (rewritten, b)) written) (omega arith) (omega arith) inside
      (All-replicate IsByte 4096 0 (omega arith)) (length-replicate {A = ℕ} 4096 0) sought
      rewritten-IsReadable
