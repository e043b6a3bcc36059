-- ===== src/Txn/Wal/Recover/Passes.antt =====
-- The two passes of `wal_recover` of src/txn/wal.c over the records of a log.
use mathlib.Core.List.{append_assoc}
use amidb.Base.{
  ℕ, zero, suc, ◌+◌, ◌%◌, ◌^◌, ◌≤◌, ◌<◌, ◌≡◌, refl, sym, ap, ◌∙◌, Bool, false, some, List, [], ◌∷◌,
  ◌++◌, arith, ◌==◌, ==_iff, length, take, drop, All, Bool-cases, inl, inr, length-append,
  take-append,
}
use amidb.Os.File.{Dos}
use amidb.Storage.Pager.Defs.{Pager}
use amidb.Txn.Wal.Defs.{header_bytes, record_bytes, wal_page, wal_region_size, load32}
use amidb.Txn.Wal.Recover.{in_log, note_commit, scan_commits, replay_record, replay_pages}
use amidb.Txn.Wal.Recover.Committed.{commits, replay}
use amidb.Txn.Wal.Recover.Headers.{LogRecord, bytes_of, log_bytes, IsLoggable, bytes_of-AtRecord}

-- Past the last record the loop ends.
in_log_end : (head : ℕ) → in_log head head ≡ false
unfolding in_log
in_log_end head = ground arith

pub scan_commits-commits :
    (rs : List LogRecord) (fuel : ℕ) (memory rest : List ℕ) (head offset : ℕ) (found : List ℕ)
    → All IsLoggable rs
    → drop offset memory ≡ log_bytes rs ++ rest
    → offset + length (log_bytes rs) ≡ head
    → head ≤ wal_region_size
    → length rs < fuel
    → scan_commits fuel memory head offset found ≡ some (commits rs found)
unfolding scan_commits commits log_bytes
scan_commits-commits rs zero memory rest head offset found h at e bound enough =
    absurd (omega arith)
scan_commits-commits [] (suc fuel) memory rest head offset found h at e bound enough =
    let same : offset ≡ head = omega arith in rw (same, in_log_end head) refl
scan_commits-commits (r ∷ rs) (suc fuel) memory rest head offset found (h, hs) at e bound enough =
    let grown = length-append (bytes_of r) (log_bytes rs) in
    let here =
      bytes_of-AtRecord memory head offset r (log_bytes rs ++ rest) h
        (at ∙ append_assoc (bytes_of r) (log_bytes rs) rest) (omega arith) bound in
    let next = here.advanced in
    rw (here.going, here.header, here.passes)
      (scan_commits-commits rs fuel memory rest head ((offset + (24 + length r.payload)) % 2 ^ 32)
        (note_commit r.record_type r.txn_id found) hs here.next (omega arith) bound (omega arith))

take-4096 : (bytes rest : List ℕ) → length bytes ≡ 4096 → take 4096 (bytes ++ rest) ≡ bytes
take-4096 bytes rest e = ap (λ n. take n (bytes ++ rest)) (sym e) ∙ take-append bytes rest

drop-24 :
    (type txn_id : ℕ) (payload rest : List ℕ)
    → drop 24 (record_bytes type txn_id payload ++ rest) ≡ payload ++ rest
unfolding record_bytes header_bytes
drop-24 type txn_id payload rest = refl

drop-28 :
    (type txn_id : ℕ) (payload rest : List ℕ)
    → drop 28 (record_bytes type txn_id payload ++ rest) ≡ drop 4 (payload ++ rest)
unfolding record_bytes header_bytes
drop-28 type txn_id payload rest = refl

-- A page number and a page, whatever follows them.
page_payload :
    (payload rest : List ℕ)
    → length payload ≡ 4100
    → (load32 (payload ++ rest) ≡ load32 payload)
      × (take 4096 (drop 4 (payload ++ rest)) ≡ drop 4 payload)
unfolding load32
page_payload [] rest e = absurd (omega arith)
page_payload (a ∷ []) rest e = absurd (omega arith)
page_payload (a ∷ b ∷ []) rest e = absurd (omega arith)
page_payload (a ∷ b ∷ c ∷ []) rest e = absurd (omega arith)
page_payload (a ∷ b ∷ c ∷ d ∷ page) rest e = (refl, take-4096 page rest (omega arith))

module _ (dos : Dos) (granted : Bool) where
  -- The second pass finds the number and the bytes of a page in its payload.
  replay_record-payload :
      (r : LogRecord) (rest committed : List ℕ) (pager : Pager dos)
      → IsLoggable r
      → replay_record dos granted r.record_type r.txn_id
          (load32 (drop 24 (bytes_of r ++ rest)))
          (take 4096 (drop 28 (bytes_of r ++ rest)))
          committed
          pager
        ≡ replay_record dos granted r.record_type r.txn_id
            (load32 r.payload)
            (drop 4 r.payload)
            committed
            pager
  unfolding replay_record
  replay_record-payload r rest committed pager h =
      let number = ap load32 (drop-24 r.record_type r.txn_id r.payload rest) in
      let page = ap (take 4096) (drop-28 r.record_type r.txn_id r.payload rest) in
      rw (number, page)
        (elim (Bool-cases (r.record_type == wal_page)) [
          | inl is_page ↦
              let (same_number, same_page) =
                page_payload r.payload rest (h.whole ((==_iff r.record_type wal_page).0 is_page)) in
              rw (same_number, same_page) refl
          | inr other ↦ ground (arith)
        ])

  pub replay_pages-replay :
      (rs : List LogRecord) (fuel : ℕ) (memory rest : List ℕ) (head offset : ℕ) (committed : List ℕ)
      (pager : Pager dos)
      → All IsLoggable rs
      → drop offset memory ≡ log_bytes rs ++ rest
      → offset + length (log_bytes rs) ≡ head
      → head ≤ wal_region_size
      → length rs < fuel
      → replay_pages dos granted fuel memory head offset committed pager
        ≡ some (replay dos granted rs committed pager)
  unfolding replay_pages replay log_bytes
  replay_pages-replay rs zero memory rest head offset committed pager h at e bound enough =
      absurd (omega arith)
  replay_pages-replay [] (suc fuel) memory rest head offset committed pager h at e bound enough =
      let same : offset ≡ head = omega arith in rw (same, in_log_end head) refl
  replay_pages-replay (r ∷ rs) (suc fuel) memory rest head offset committed pager (h, hs) at e bound
        enough =
      let grown = length-append (bytes_of r) (log_bytes rs) in
      let at' = at ∙ append_assoc (bytes_of r) (log_bytes rs) rest in
      let here =
        bytes_of-AtRecord memory head offset r (log_bytes rs ++ rest) h at' (omega arith) bound in
      let next = here.advanced in
      let result =
        replay_record dos granted r.record_type r.txn_id (load32 r.payload) (drop 4 r.payload)
          committed pager in
      let same = replay_record-payload r (log_bytes rs ++ rest) committed pager h in
      let later =
        replay_pages-replay rs fuel memory rest head ((offset + (24 + length r.payload)) % 2 ^ 32)
          committed result.0 hs here.next (omega arith) bound (omega arith) in
      elim (Bool-cases result.1) [
        | inl done ↦ rw (here.going, here.header, at', same, done) later
        | inr failed ↦ rw (here.going, here.header, at', same, failed) refl
      ]
