-- ===== src/Txn/Wal/Tests.antt =====
-- The log at concrete inputs.
use amidb.Base.{
  take, ℕ, ◌+◌, ◌≤◌, ◌<◌, ◌≡◌, refl, true, false, List, [], ◌∷◌, arith, replicate, length-replicate,
  length, All-replicate, ◌==◌, ==_iff, leb, le→leb, ltb, ◌%◌, ◌^◌,
}
use amidb.Os.File.{file_write, file_seek, file_sync}
use amidb.Os.File.Disk.{disk, disk_laws, seek_disk}
use amidb.Util.Endian.{IsByte}
use amidb.Storage.Pager.Defs.{Pager, init_file_header}
use amidb.Txn.Wal.Defs.{
  Code, ok, full, Wal, wal_buffer_size, wal_region_size, wal_create, wal_write_record, wal_flush,
  write_log, append_record,
}
use amidb.Txn.Wal.Records.{IsValid, Written, wal_write_record-Written}
use amidb.Txn.Wal.Flush.{code, Flushed, wal_flush-Flushed}
use amidb.Txn.Wal.Recover.{wal_recover}
use amidb.Txn.Wal.Recover.Headers.{LogRecord, log_bytes, IsLoggable}
use amidb.Txn.Wal.Recover.Replay.{IsRecovered}
use amidb.Txn.Wal.Durable.{Logged, wal_write_record-Logged, wal_recover-wal_flush}

wal_create-IsValid : IsValid wal_create
unfolding wal_create
wal_create-IsValid = record { sized = length-replicate {A = ℕ} 32768 0; bounded = omega arith }

wal_write_record-Written_example :
    (wal_create.buffer_used + 24 + 2 ≤ wal_buffer_size
      → ((wal_write_record 16 (7 ∷ 9 ∷ []) wal_create).1 ≡ ok)
        × Written 16 (7 ∷ 9 ∷ []) wal_create (wal_write_record 16 (7 ∷ 9 ∷ []) wal_create).0)
    × (wal_buffer_size < wal_create.buffer_used + 24 + 2
        → wal_write_record 16 (7 ∷ 9 ∷ []) wal_create ≡ (wal_create, full))
wal_write_record-Written_example =
    wal_write_record-Written 16 (7 ∷ 9 ∷ []) wal_create wal_create-IsValid (omega arith)
      (omega arith)

-- A log with 24 bytes in use, and a file that holds the log's region.
abbrev in_use : Wal
in_use = record wal_create { buffer_used = 24 }

abbrev log_file : Pager disk
log_file = record {
  file = record { content = replicate 143360 0; at = 0 };
  header = init_file_header;
  bitmap = replicate 512 0;
  read_only = false;
}

wal_flush-Flushed_example :
    Flushed disk disk_laws in_use log_file (wal_flush disk in_use log_file)
    × (wal_region_size < in_use.wal_head + in_use.buffer_used
        → wal_flush disk in_use log_file ≡ (in_use, log_file, full))
unfolding wal_create disk_laws
wal_flush-Flushed_example =
    wal_flush-Flushed disk disk_laws in_use log_file (omega arith) (omega arith) (omega arith)

nothing-Logged : Logged [] wal_create
unfolding wal_create log_bytes
nothing-Logged = record { valid = wal_create-IsValid; loggable = tt; used = refl; stored = refl }

-- A COMMIT record of transaction 0.
abbrev commit_record : LogRecord
commit_record = record { record_type = 2; txn_id = 0; payload = [] }

commit_record-IsLoggable : IsLoggable commit_record
commit_record-IsLoggable = record {
  type_fits = omega arith;
  id_fits = omega arith;
  bytes = tt;
  short = omega arith;
  whole = λ e. absurd (omega arith);
}

abbrev with_commit : Wal
with_commit = (wal_write_record 2 [] wal_create).0

wal_write_record-Logged_example :
    ((wal_write_record 2 [] wal_create).1 ≡ ok) × Logged (commit_record ∷ []) with_commit
unfolding wal_create
wal_write_record-Logged_example =
    wal_write_record-Logged 2 [] [] wal_create nothing-Logged commit_record-IsLoggable (omega arith)

-- Page 2 in a PAGE record of that transaction.
abbrev page_two : List ℕ
page_two = 2 ∷ 0 ∷ 0 ∷ 0 ∷ replicate 4096 7

abbrev page_record : LogRecord
page_record = record { record_type = 16; txn_id = 0; payload = page_two }

length-page_two : length page_two ≡ 4100
length-page_two = omega (arith, length-replicate {A = ℕ} 4096 7)

page_record-IsLoggable : IsLoggable page_record
page_record-IsLoggable = record {
  type_fits = omega arith;
  id_fits = omega arith;
  bytes = (
    omega arith,
    (omega arith, (omega arith, (omega arith, All-replicate IsByte 4096 7 (omega arith)))),
  );
  short = omega (arith, length-page_two);
  whole = λ e. length-page_two;
}

abbrev two_records : List LogRecord
two_records = page_record ∷ commit_record ∷ []

abbrev with_page : Wal
with_page = (wal_write_record 16 page_two wal_create).0

with_page-Logged : Logged (page_record ∷ []) with_page
unfolding wal_create
with_page-Logged =
    (wal_write_record-Logged 16 page_two [] wal_create nothing-Logged page_record-IsLoggable
      (omega (arith, length-page_two))).1

abbrev with_both : Wal
with_both = (wal_write_record 2 [] with_page).0

with_both-Logged : Logged two_records with_both
unfolding wal_create wal_write_record append_record
with_both-Logged =
    (wal_write_record-Logged 2 [] (page_record ∷ []) with_page with_page-Logged
      commit_record-IsLoggable (omega arith)).1

-- The block that the region is read into.
abbrev block : List ℕ
block = replicate 131072 0

abbrev flushed : Wal × Pager disk × Code
flushed = wal_flush disk with_both log_file

-- The disk takes every flush at the start of the region.
flush_ok :
    (wal : Wal)
    → wal.buffer_used ≡ 4148
    → wal.wal_head ≡ 0
    → code (wal_flush disk wal log_file) ≡ ok
unfolding wal_flush write_log file_write file_seek file_sync seek_disk
flush_ok wal used head =
    let n = length (take wal.buffer_used wal.buffer) in
    let whole : (n == n) ≡ true = (==_iff n n).1 refl in
    let size = length-replicate {A = ℕ} 143360 0 in
    let inside : leb (0x3000 + wal.wal_head) (length log_file.file.content) ≡ true =
      le→leb _ _ (omega (arith, head, size)) in
    let room : ltb wal_region_size ((wal.wal_head + wal.buffer_used) % 2 ^ 32) ≡ false =
      rw (head, used) refl in
    let filled : (wal.buffer_used == 0) ≡ false = rw used refl in
    rw (filled, room, inside, whole) refl

flushed_ok : code flushed ≡ ok
unfolding wal_create wal_write_record append_record
flushed_ok = flush_ok with_both refl refl

wal_recover-wal_flush_example :
    IsRecovered disk disk_laws true two_records flushed.0 flushed.1
      (wal_recover disk true 3 true block flushed.0 flushed.1)
unfolding wal_create disk_laws wal_write_record append_record
wal_recover-wal_flush_example =
    wal_recover-wal_flush disk disk_laws true 3 block two_records with_both log_file
      with_both-Logged refl (omega arith) (omega (arith, length-replicate {A = ℕ} 143360 0))
      flushed_ok (omega (arith, length-replicate {A = ℕ} 131072 0)) (omega arith)
