-- ===== src/Txn/Wal/Flush.antt =====
-- `wal_flush` of src/txn/wal.c on a file.
use amidb.Base.{
  ℕ, ◌+◌, ◌%◌, ◌^◌, ◌≤◌, ◌<◌, ◌≡◌, ◌≢◌, refl, Bool, true, false, arith, ltb, ◌==◌, length, take,
  overwrite, Bool-cases, inl, inr,
}
use amidb.Os.File.{Dos, beginning, file_write, file_seek, file_sync}
use amidb.Os.File.Laws.{DosLaws, file_write-file_seek}
use amidb.Storage.Pager.Defs.{Pager}
use amidb.Txn.Wal.Defs.{Code, ok, full, Wal, wal_region_size, write_log, wal_flush}

abbrev pub code : {dos : Dos} → Wal × Pager dos × Code → Code
code (wal, pager, c) = c

module _ (dos : Dos) (laws : DosLaws dos) where
  open laws use {contents}

  -- The outcomes of a flush of a buffer in use.
  pub record Flushed (wal : Wal) (pager : Pager dos) (r : Wal × Pager dos × Code) : Type 0 where
    pub done :
        code r ≡ ok
        → (r.0 ≡ record wal { wal_head = (wal.wal_head + wal.buffer_used) % 2 ^ 32 })
          × (contents r.1.file
              ≡ overwrite
                  (contents pager.file)
                  (0x3000 + wal.wal_head)
                  (take wal.buffer_used wal.buffer))
    pub failed : code r ≢ ok → r.0 ≡ wal
    pub same_header : r.1.header ≡ pager.header

  write_log-Flushed :
      (wal : Wal) (pager : Pager dos) (sought : Bool)
      → (file_seek dos pager.file (0x3000 + wal.wal_head) beginning).1 ≡ sought
      → 0x3000 + wal.wal_head ≤ length (contents pager.file)
      → Flushed wal pager (
          write_log dos wal pager
            ((file_seek dos pager.file (0x3000 + wal.wal_head) beginning).0, sought))
  unfolding write_log file_sync
  write_log-Flushed wal pager false at h = record {
    done = λ e. cc;
    failed = λ _. refl;
    same_header = refl;
  }
  write_log-Flushed wal pager true at h =
      let file = (file_seek dos pager.file (0x3000 + wal.wal_head) beginning).0 in
      let bytes = take wal.buffer_used wal.buffer in
      elim (Bool-cases (file_write dos file bytes).1) [
        | inl written ↦ rw written record {
          done = λ e. (
            refl,
            file_write-file_seek dos laws pager.file (0x3000 + wal.wal_head) bytes h at written,
          );
          failed = λ ne. absurd (ne refl);
          same_header = refl;
        }
        | inr lost ↦ rw lost record { done = λ e. cc; failed = λ _. refl; same_header = refl }
      ]

  -- A flush of a buffer in use whose place in the log begins within the file, with a head and a used
  -- part that add up to less than 2^32, under the documented behaviour of dos.library. If it
  -- succeeds, the file holds the used part of the buffer at 0x3000 plus the head and is otherwise as
  -- before, and the head has moved on by that part. If it fails, the log is as before. The pager's
  -- header is kept, and a part that would end behind the log's region gives AMIDB_FULL and changes
  -- nothing.
  pub wal_flush-Flushed :
      (wal : Wal) (pager : Pager dos)
      → wal.buffer_used ≢ 0
      → wal.wal_head + wal.buffer_used < 2 ^ 32
      → 0x3000 + wal.wal_head ≤ length (contents pager.file)
      → Flushed wal pager (wal_flush dos wal pager)
        × (wal_region_size < wal.wal_head + wal.buffer_used
            → wal_flush dos wal pager ≡ (wal, pager, full))
  unfolding wal_flush
  wal_flush-Flushed wal pager used small h =
      let in_use : (wal.buffer_used == 0) ≡ false = ground arith in
      let total = (wal.wal_head + wal.buffer_used) % 2 ^ 32 in
      let unchanged : Flushed wal pager (wal, pager, full) = record {
        done = λ e. cc;
        failed = λ _. refl;
        same_header = refl;
      } in
      elim (Bool-cases (ltb wal_region_size total)) [
        | inl over ↦ rw (in_use, over) (unchanged, λ _. refl)
        | inr room ↦
            rw (in_use, room)
              (
                write_log-Flushed wal pager
                    (file_seek dos pager.file (0x3000 + wal.wal_head) beginning).1 refl h,
                λ long. absurd (no_room total room (omega arith)),
              )
      ]
    where
      no_room : (total : ℕ) → ltb wal_region_size total ≡ false → wal_region_size < total → ⊥
      no_room total room long = ground arith
