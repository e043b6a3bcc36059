-- ===== src/Txn/Wal/Recover/Tests.antt =====
-- Recovery at concrete inputs.
use amidb.Base.{
  ℕ, ◌≡◌, refl, sym, ap, ◌∙◌, true, false, none, List, [], ◌∷◌, ◌++◌, arith, take, drop, replicate,
  length-replicate, length-append, drop-append,
}
use amidb.Os.File.Disk.{disk, disk_laws}
use amidb.Storage.Pager.Defs.{Pager, init_file_header}
use amidb.Txn.Wal.Defs.{Wal, wal_create, record_bytes, header_bytes, load32}
use amidb.Txn.Wal.Recover.{load_header, wal_recover, replay_log}
use amidb.Txn.Wal.Recover.Headers.{LogRecord, log_bytes, IsLoggable}
use amidb.Txn.Wal.Recover.Replay.{HoldsLog, IsRecovered, wal_recover-replay}
use amidb.Txn.Wal.Recover.Stuck.{replay_log_stuck}

-- A COMMIT record of transaction 1.
abbrev committed : LogRecord
committed = record { record_type = 2; txn_id = 1; payload = [] }

committed-IsLoggable : IsLoggable committed
committed-IsLoggable = record {
  type_fits = omega arith;
  id_fits = omega arith;
  bytes = tt;
  short = omega arith;
  whole = λ e. absurd (omega arith);
}

abbrev one_commit : List LogRecord
one_commit = committed ∷ []

abbrev log_head : Wal
log_head = record wal_create { wal_head = 24 }

-- A file with that record at the start of the region.
abbrev crashed : Pager disk
crashed = record {
  file = record { content = replicate 12288 0 ++ log_bytes one_commit; at = 0 };
  header = init_file_header;
  bitmap = replicate 512 0;
  read_only = false;
}

crashed-HoldsLog : HoldsLog disk disk_laws one_commit log_head crashed
unfolding disk_laws log_bytes record_bytes header_bytes
crashed-HoldsLog =
    let zeros = length-replicate {A = ℕ} 12288 0 in
    record {
      loggable = (committed-IsLoggable, tt);
      head = refl;
      bound = omega arith;
      inside = omega (arith, length-append (replicate 12288 0) (log_bytes one_commit), zeros);
      stored =
          ap (λ n. take 24 (drop n (replicate 12288 0 ++ log_bytes one_commit))) (sym zeros)
          ∙ ap (take 24) (drop-append (replicate 12288 0) (log_bytes one_commit))
          ∙ refl;
    }

abbrev block : List ℕ
block = replicate 131072 0

wal_recover-replay_example :
    IsRecovered disk disk_laws true one_commit log_head crashed
      (wal_recover disk true 2 true block log_head crashed)
wal_recover-replay_example =
    wal_recover-replay disk disk_laws true 2 block one_commit log_head crashed crashed-HoldsLog
      (omega (arith, length-replicate {A = ℕ} 131072 0)) (omega arith)

-- A header with the magic number and zeros behind it.
abbrev zero_size : List ℕ
zero_size = 0x57 ∷ 0x41 ∷ 0x4C ∷ 0x52 ∷ 0 ∷ 0 ∷ 0 ∷ 0 ∷ 0 ∷ 0 ∷ 0 ∷ 0 ∷ []

replay_log_stuck_example : replay_log disk true 1000 zero_size log_head crashed ≡ none
unfolding load_header load32
replay_log_stuck_example =
    replay_log_stuck disk true 1000 zero_size log_head crashed (omega arith) refl refl
