-- ===== src/Txn/Wal/Recover/Headers.antt =====
-- The records of src/txn/wal.c one after the other in memory, as the two passes read them.
use amidb.Base.{
  ℕ, ◌+◌, ◌*◌, ◌%◌, ◌/◌, ◌^◌, ◌≤◌, ◌<◌, ◌≡◌, ap, ◌∙◌, true, List, [], ◌∷◌, ◌++◌, arith, length,
  drop, All, drop-append, drop-drop, lt→ltb, le→leb,
}
use amidb.Util.Endian.{IsByte}
use amidb.Txn.Wal.Defs.{
  wal_region_size, wal_page, stored32, load32, header_bytes, record_bytes, wal_verify_checksum,
}
use amidb.Txn.Wal.Records.{load32-stored32, length-record_bytes, wal_verify_checksum-record_bytes}
use amidb.Txn.Wal.Recover.{load_header, wal_magic, in_log}

-- A record of the log, apart from its bytes.
pub record LogRecord : Type 0 where
  pub record_type : ℕ
  pub txn_id : ℕ
  pub payload : List ℕ

abbrev pub bytes_of : LogRecord → List ℕ
bytes_of r = record_bytes r.record_type r.txn_id r.payload

unfoldable pub log_bytes : List LogRecord → List ℕ
log_bytes [] = []
log_bytes (r ∷ rs) = bytes_of r ++ log_bytes rs

-- The fields fit their widths, and a PAGE record has a page number and a page.
pub record IsLoggable (r : LogRecord) : Type 0 where
  pub type_fits : r.record_type < 2 ^ 16
  pub id_fits : r.txn_id < 2 ^ 64
  pub bytes : All IsByte r.payload
  pub short : length r.payload < 2 ^ 16
  pub whole : r.record_type ≡ wal_page → length r.payload ≡ 4100

load32-low : (v : ℕ) (rest : List ℕ) → load32 (stored32 v ++ rest) ≡ v % 2 ^ 32
unfolding load32
load32-low v rest = omega arith

load_header-record_bytes :
    (type txn_id : ℕ) (payload rest : List ℕ)
    → type < 2 ^ 16
    → txn_id < 2 ^ 64
    → length payload < 2 ^ 16
    → load_header (record_bytes type txn_id payload ++ rest) ≡ record {
      magic = wal_magic;
      record_type = type;
      record_size = 24 + length payload;
      txn_id = txn_id;
    }
unfolding load_header record_bytes header_bytes
load_header-record_bytes type txn_id payload rest t i s =
    let size : load32 (drop 8 (record_bytes type txn_id payload ++ rest)) ≡ 24 + length payload =
      load32-stored32 ((24 + length payload) % 2 ^ 32) _ (omega arith) ∙ omega arith in
    let high = load32-low (txn_id / 2 ^ 32) _ in
    let low = load32-low txn_id _ in
    let id : load32 (drop 12 (record_bytes type txn_id payload ++ rest)) * 2 ^ 32
          + load32 (drop 16 (record_bytes type txn_id payload ++ rest))
        ≡ txn_id =
      ap (λ n. n * 2 ^ 32 + load32 (drop 16 (record_bytes type txn_id payload ++ rest))) high
      ∙ ap (λ n. (txn_id / 2 ^ 32) % 2 ^ 32 * 2 ^ 32 + n) low
      ∙ omega arith in
    let magic =
      load32-stored32 wal_magic (drop 4 (record_bytes type txn_id payload ++ rest)) (omega arith) in
    let kind : type / 2 ^ 8 % 256 * 2 ^ 8 + type % 256 ≡ type = omega arith in
    λ j. record { magic = magic j; record_type = kind j; record_size = size j; txn_id = id j }

-- What both passes do at the start of a record: the loop goes on, the header is read back, the
-- checksum passes, and the next offset is that of the rest.
pub record AtRecord (memory : List ℕ) (head offset : ℕ) (r : LogRecord) (rest : List ℕ)
    : Type 0 where
  pub going : in_log head offset ≡ true
  pub header : load_header (drop offset memory) ≡ record {
    magic = wal_magic;
    record_type = r.record_type;
    record_size = 24 + length r.payload;
    txn_id = r.txn_id;
  }
  pub passes : wal_verify_checksum (drop offset memory) (24 + length r.payload) ≡ true
  pub next : drop ((offset + (24 + length r.payload)) % 2 ^ 32) memory ≡ rest
  pub advanced : (offset + (24 + length r.payload)) % 2 ^ 32 ≡ offset + length (bytes_of r)

pub bytes_of-AtRecord :
    (memory : List ℕ) (head offset : ℕ) (r : LogRecord) (rest : List ℕ)
    → IsLoggable r
    → drop offset memory ≡ bytes_of r ++ rest
    → offset + length (bytes_of r) ≤ head
    → head ≤ wal_region_size
    → AtRecord memory head offset r rest
unfolding in_log
bytes_of-AtRecord memory head offset r rest h at inside bound =
    let size = length-record_bytes r.record_type r.txn_id r.payload in
    let small = h.short in
    let step : (offset + (24 + length r.payload)) % 2 ^ 32 ≡ offset + length (bytes_of r) =
      omega arith in
    record {
      going = ground (
        arith,
        lt→ltb offset head (omega arith),
        le→leb ((offset + 24) % 2 ^ 32) wal_region_size (omega arith),
      );
      header = rw at (
          load_header-record_bytes r.record_type r.txn_id r.payload rest h.type_fits h.id_fits
            h.short);
      passes = rw at (
          wal_verify_checksum-record_bytes r.record_type r.txn_id r.payload rest h.bytes
            (omega arith));
      next =
          ap (λ n. drop n memory) step
          ∙ drop-drop offset (length (bytes_of r)) memory
          ∙ ap (drop (length (bytes_of r))) at
          ∙ drop-append (bytes_of r) rest;
      advanced = step;
    }
