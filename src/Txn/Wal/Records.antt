-- ===== src/Txn/Wal/Records.antt =====
-- The records that `wal_write_record` of src/txn/wal.c appends and `wal_verify_checksum` checks.
use amidb.Base.{
  ℕ, ◌+◌, ◌-◌, ◌%◌, ◌^◌, ◌≤◌, ◌<◌, ◌≡◌, refl, sym, ap, ◌∙◌, true, List, [], ◌∷◌, ◌++◌, arith,
  ltb-false, lt→ltb, ==_iff, length, take, drop, splice, slice, All, length-splice,
  slice-splice_self, slice-splice_before, take-append, take-append-drop,
}
use amidb.Util.Endian.{IsByte}
use amidb.Util.Crc32.{crc32_update}
use amidb.Util.Crc32.Bitwise.{crc32_update-lt}
use amidb.Txn.Wal.Defs.{
  ok, full, Wal, wal_buffer_size, stored32, load32, header_bytes, hash_payload, record_bytes,
  append_record, wal_write_record, wal_verify_checksum,
}

pub load32-stored32 : (v : ℕ) (rest : List ℕ) → v < 2 ^ 32 → load32 (stored32 v ++ rest) ≡ v
unfolding load32
load32-stored32 v rest h = omega arith

header_bytes-IsByte : (type size txn_id : ℕ) → All IsByte (header_bytes type size txn_id)
unfolding header_bytes
header_bytes-IsByte type size txn_id = ground arith

hash_payload-lt :
    (crc : ℕ) (payload : List ℕ)
    → crc < 2 ^ 32
    → All IsByte payload
    → hash_payload crc payload < 2 ^ 32
hash_payload-lt crc [] h hs = h
hash_payload-lt crc (b ∷ bs) h hs = crc32_update-lt crc (b ∷ bs) h hs

pub length-record_bytes :
    (type txn_id : ℕ) (payload : List ℕ)
    → length (record_bytes type txn_id payload) ≡ 24 + length payload
unfolding record_bytes header_bytes
length-record_bytes type txn_id payload = omega arith

-- The check in terms of the fields that it reads.
verify-fields :
    (bytes header payload : List ℕ) (n size : ℕ)
    → load32 (drop 8 bytes) ≡ 24 + n
    → 24 + n < 2 ^ 32
    → take 20 bytes ≡ header
    → take n (drop 24 bytes) ≡ payload
    → load32 (drop 20 bytes) ≡ hash_payload (crc32_update 0 header) payload
    → 24 ≤ size
    → wal_verify_checksum bytes size ≡ true
unfolding wal_verify_checksum
verify-fields bytes header payload n size sized fits head body stored long =
    let payload_size : (load32 (drop 8 bytes) + 2 ^ 32 - 24) % 2 ^ 32 ≡ n = omega arith in
    let short = ltb-false size 24 long in
    rw (payload_size, head, body, short) ((==_iff _ _).1 (sym stored))

-- A record in memory passes the check of its checksum, whatever follows it.
pub wal_verify_checksum-record_bytes :
    (type txn_id : ℕ) (payload rest : List ℕ)
    → All IsByte payload
    → 24 + length payload < 2 ^ 32
    → wal_verify_checksum (record_bytes type txn_id payload ++ rest) (24 + length payload) ≡ true
unfolding record_bytes header_bytes
wal_verify_checksum-record_bytes type txn_id payload rest bytes fits =
    let n = length payload in
    let size = (24 + n) % 2 ^ 32 in
    let header = header_bytes type size txn_id in
    let crc = hash_payload (crc32_update 0 header) payload in
    let crc_lt =
      hash_payload-lt _ payload
        (crc32_update-lt 0 header (omega arith) (header_bytes-IsByte type size txn_id)) bytes in
    verify-fields (record_bytes type txn_id payload ++ rest) header payload n (24 + n)
      (load32-stored32 size _ (omega arith) ∙ omega arith) fits refl (take-append payload rest)
      (load32-stored32 crc (payload ++ rest) crc_lt) (omega arith)

-- The buffer has its fixed size, and what is used of it fits.
pub record IsValid (wal : Wal) : Type 0 where
  pub sized : length wal.buffer ≡ wal_buffer_size
  pub bounded : wal.buffer_used ≤ wal_buffer_size

-- A record stands at the end of what was used before.
pub record Written (type : ℕ) (payload : List ℕ) (before after : Wal) : Type 0 where
  pub valid : IsValid after
  pub used : after.buffer_used ≡ before.buffer_used + 24 + length payload
  pub placed :
      slice before.buffer_used (24 + length payload) after.buffer
      ≡ record_bytes type before.current_txn_id payload
  pub verified :
      wal_verify_checksum (drop before.buffer_used after.buffer) (24 + length payload) ≡ true
  pub kept :
      (at len : ℕ)
      → at + len ≤ before.buffer_used
      → slice at len after.buffer ≡ slice at len before.buffer

pub drop-splice :
    (bs : List ℕ) (off : ℕ) (xs : List ℕ)
    → off + length xs ≤ length bs
    → drop off (splice bs off xs) ≡ xs ++ drop (length xs) (drop off (splice bs off xs))
drop-splice bs off xs h =
    sym (take-append-drop (length xs) (drop off (splice bs off xs)))
    ∙ ap (λ t. t ++ drop (length xs) (drop off (splice bs off xs))) (slice-splice_self bs off xs h)

append_record-Written :
    (type : ℕ) (payload : List ℕ) (wal : Wal)
    → IsValid wal
    → All IsByte payload
    → wal.buffer_used + 24 + length payload ≤ wal_buffer_size
    → Written type payload wal (append_record ((24 + length payload) % 2 ^ 32) type payload wal)
unfolding append_record
append_record-Written type payload wal valid bytes fits =
    let new = record_bytes type wal.current_txn_id payload in
    let long = length-record_bytes type wal.current_txn_id payload in
    let room : wal.buffer_used + length new ≤ length wal.buffer =
      rw (long, valid.sized) (omega arith) in
    record {
      valid = record {
        sized = length-splice wal.buffer wal.buffer_used new ∙ valid.sized;
        bounded = omega arith;
      };
      used = omega arith;
      placed =
          ap (λ n. slice wal.buffer_used n (splice wal.buffer wal.buffer_used new)) (sym long)
          ∙ slice-splice_self wal.buffer wal.buffer_used new room;
      verified =
          rw (drop-splice wal.buffer wal.buffer_used new room) (
            wal_verify_checksum-record_bytes type wal.current_txn_id payload _ bytes (omega arith));
      kept = λ at len h. slice-splice_before wal.buffer wal.buffer_used new at len h;
    }

-- On a valid log and a payload of bytes of less than 2^31, `wal_write_record` has two outcomes. If
-- the record of 24 bytes and the payload fits behind what is used, the call succeeds, and the
-- record stands there, passes `wal_verify_checksum`, and leaves the bytes before it. Else the call
-- gives AMIDB_FULL and changes nothing.
pub wal_write_record-Written :
    (type : ℕ) (payload : List ℕ) (wal : Wal)
    → IsValid wal
    → All IsByte payload
    → length payload < 2 ^ 31
    → (wal.buffer_used + 24 + length payload ≤ wal_buffer_size
        → ((wal_write_record type payload wal).1 ≡ ok)
          × Written type payload wal (wal_write_record type payload wal).0)
      × (wal_buffer_size < wal.buffer_used + 24 + length payload
          → wal_write_record type payload wal ≡ (wal, full))
unfolding wal_write_record
wal_write_record-Written type payload wal valid bytes short =
    let bound = valid.bounded in
    let total = (wal.buffer_used + (24 + length payload) % 2 ^ 32) % 2 ^ 32 in
    (
      λ fits.
          let room = ltb-false wal_buffer_size total (omega arith) in
          rw room (refl, append_record-Written type payload wal valid bytes fits),
      λ over. let none_left = lt→ltb wal_buffer_size total (omega arith) in rw none_left refl,
    )
