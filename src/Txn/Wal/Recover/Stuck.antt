-- ===== src/Txn/Wal/Recover/Stuck.antt =====
-- A record of size 0 in the log's region, in the second pass of `wal_recover` of src/txn/wal.c.
use amidb.Base.{ℕ, zero, suc, ◌<◌, ◌≡◌, refl, ap, ◌∙◌, Bool, true, none, some, List, [], arith}
use amidb.Os.File.{Dos}
use amidb.Storage.Pager.Defs.{Pager}
use amidb.Txn.Wal.Defs.{Wal, wal_verify_checksum}
use amidb.Txn.Wal.Recover.{
  wal_magic, load_header, in_log, scan_commits, replay_record, replay_pages, finish_pass,
  second_pass, replay_log, is_committed,
}

first_in_log : (head : ℕ) → 0 < head → in_log head 0 ≡ true
unfolding in_log
first_in_log head h = ground arith

-- The first pass stops there: such a record fails the check.
scan_commits_empty :
    (fuel : ℕ) (memory : List ℕ) (head : ℕ)
    → 0 < head
    → (load_header memory).magic ≡ wal_magic
    → (load_header memory).record_size ≡ 0
    → scan_commits (suc fuel) memory head 0 [] ≡ some []
unfolding scan_commits wal_verify_checksum
scan_commits_empty fuel memory head h magic size = rw (first_in_log head h, magic, size) refl

module _ (dos : Dos) (granted : Bool) where
  replay_pages_stuck :
      (fuel : ℕ) (memory : List ℕ) (head : ℕ) (pager : Pager dos)
      → 0 < head
      → (load_header memory).magic ≡ wal_magic
      → (load_header memory).record_size ≡ 0
      → replay_pages dos granted fuel memory head 0 [] pager ≡ none
  unfolding replay_pages replay_record is_committed
  replay_pages_stuck zero memory head pager h magic size = refl
  replay_pages_stuck (suc fuel) memory head pager h magic size =
      rw (first_in_log head h, magic, size) (replay_pages_stuck fuel memory head pager h magic size)

  -- Where the log is not empty and the first record in the region has the right magic number and
  -- the size 0, recovery does not end: no number of rounds is enough for its two passes. The first
  -- pass stops at the record, since its checksum is not accepted; the second does not check it, and
  -- stays at the same offset.
  pub replay_log_stuck :
      (fuel : ℕ) (memory : List ℕ) (wal : Wal) (pager : Pager dos)
      → 0 < wal.wal_head
      → (load_header memory).magic ≡ wal_magic
      → (load_header memory).record_size ≡ 0
      → replay_log dos granted fuel memory wal pager ≡ none
  unfolding replay_log second_pass finish_pass scan_commits
  replay_log_stuck zero memory wal pager h magic size = refl
  replay_log_stuck (suc fuel) memory wal pager h magic size =
      ap (second_pass dos granted (suc fuel) memory wal pager)
        (scan_commits_empty fuel memory wal.wal_head h magic size)
      ∙ ap (finish_pass dos granted wal)
          (replay_pages_stuck (suc fuel) memory wal.wal_head pager h magic size)
