-- ===== src/Txn/Wal/Durable.antt =====
-- A log written with `wal_write_record`, flushed and recovered, of src/txn/wal.c.
use mathlib.Core.List.{append_assoc, append-nil}
use amidb.Base.{
  ℕ, ◌+◌, ◌≤◌, ◌<◌, ◌≡◌, ◌≢◌, refl, sym, ap, ◌∙◌, Bool, true, List, [], ◌∷◌, ◌++◌, arith, length,
  take, slice, overwrite, All, All-append, length-append, length-overwrite, slice-overwrite_self,
  take-add,
}
use amidb.Os.File.{Dos}
use amidb.Os.File.Laws.{DosLaws}
use amidb.Storage.Pager.Defs.{Pager}
use amidb.Txn.Wal.Defs.{ok, Wal, wal_buffer_size, wal_region_size, wal_write_record, wal_flush}
use amidb.Txn.Wal.Records.{IsValid, Written, wal_write_record-Written, length-record_bytes}
use amidb.Txn.Wal.Flush.{code, wal_flush-Flushed}
use amidb.Txn.Wal.Recover.{wal_recover}
use amidb.Txn.Wal.Recover.Headers.{LogRecord, bytes_of, log_bytes, IsLoggable}
use amidb.Txn.Wal.Recover.Replay.{HoldsLog, IsRecovered, wal_recover-replay}

log_bytes-append : (rs qs : List LogRecord) → log_bytes (rs ++ qs) ≡ log_bytes rs ++ log_bytes qs
unfolding log_bytes
log_bytes-append [] qs = refl
log_bytes-append (r ∷ rs) qs =
    ap (λ t. bytes_of r ++ t) (log_bytes-append rs qs)
    ∙ sym (append_assoc (bytes_of r) (log_bytes rs) (log_bytes qs))

-- The used part of the buffer is the records of a log.
pub record Logged (rs : List LogRecord) (wal : Wal) : Type 0 where
  pub valid : IsValid wal
  pub loggable : All IsLoggable rs
  pub used : wal.buffer_used ≡ length (log_bytes rs)
  pub stored : take wal.buffer_used wal.buffer ≡ log_bytes rs

abbrev pub next_record : ℕ → List ℕ → Wal → LogRecord
next_record type payload wal = record {
  record_type = type;
  txn_id = wal.current_txn_id;
  payload = payload;
}

Written-Logged :
    (type : ℕ) (payload : List ℕ) (rs : List LogRecord) (wal after : Wal)
    → Logged rs wal
    → IsLoggable (next_record type payload wal)
    → Written type payload wal after
    → Logged (rs ++ (next_record type payload wal ∷ [])) after
unfolding log_bytes
Written-Logged type payload rs wal after h new w =
    let r = next_record type payload wal in
    let grown =
      log_bytes-append rs (r ∷ []) ∙ ap (λ t. log_bytes rs ++ t) (append-nil (bytes_of r)) in
    let size = length-record_bytes type wal.current_txn_id payload in
    let total : after.buffer_used ≡ wal.buffer_used + (24 + length payload) =
      omega (arith, w.used) in
    record {
      valid = w.valid;
      loggable = All-append IsLoggable rs (r ∷ []) h.loggable (new, tt);
      used =
          omega (
            arith,
            w.used,
            h.used,
            size,
            ap length grown,
            length-append (log_bytes rs) (bytes_of r),
          );
      stored =
          ap (λ n. take n after.buffer) total
          ∙ take-add wal.buffer_used (24 + length payload) after.buffer
          ∙ ap (λ t. t ++ slice wal.buffer_used (24 + length payload) after.buffer)
              (w.kept 0 wal.buffer_used (omega arith) ∙ h.stored)
          ∙ ap (λ t. log_bytes rs ++ t) w.placed
          ∙ sym grown;
    }

-- On a buffer that holds the records of a log, a record of the running transaction that fits is
-- written behind them, and the buffer holds the log with it.
pub wal_write_record-Logged :
    (type : ℕ) (payload : List ℕ) (rs : List LogRecord) (wal : Wal)
    → Logged rs wal
    → IsLoggable (next_record type payload wal)
    → wal.buffer_used + 24 + length payload ≤ wal_buffer_size
    → ((wal_write_record type payload wal).1 ≡ ok)
      × Logged (rs ++ (next_record type payload wal ∷ [])) (wal_write_record type payload wal).0
wal_write_record-Logged type payload rs wal h new fits =
    let (done, w) =
      (wal_write_record-Written type payload wal h.valid new.bytes (omega (arith, new.short))).0
        fits in
    (done, Written-Logged type payload rs wal _ h new w)

module _ (dos : Dos) (laws : DosLaws dos) where
  open laws use {contents}

  wal_flush-HoldsLog :
      (rs : List LogRecord) (wal : Wal) (pager : Pager dos)
      → Logged rs wal
      → wal.wal_head ≡ 0
      → wal.buffer_used ≢ 0
      → 0x3000 ≤ length (contents pager.file)
      → code (wal_flush dos wal pager) ≡ ok
      → HoldsLog dos laws rs (wal_flush dos wal pager).0 (wal_flush dos wal pager).1
  wal_flush-HoldsLog rs wal pager h start in_use inside e =
      let bound = h.valid.bounded in
      let r = wal_flush dos wal pager in
      let flushed = (wal_flush-Flushed dos laws wal pager in_use (omega arith) (omega arith)).0 in
      let (wal_after, written) = flushed.done e in
      let head : r.0.wal_head ≡ length (log_bytes rs) =
        ap (λ w. w.wal_head) wal_after ∙ omega (arith, h.used) in
      let at : 0x3000 + wal.wal_head ≡ 0x3000 = omega arith in
      let file : contents r.1.file ≡ overwrite (contents pager.file) 0x3000 (log_bytes rs) =
        written
        ∙ ap (λ n. overwrite (contents pager.file) n (take wal.buffer_used wal.buffer)) at
        ∙ ap (overwrite (contents pager.file) 0x3000) h.stored in
      let long = length-overwrite (contents pager.file) 0x3000 (log_bytes rs) inside in
      record {
        loggable = h.loggable;
        head = head;
        bound = omega (arith, head, h.used);
        inside = omega (arith, ap length file, long);
        stored =
            ap (λ n. slice 0x3000 n (contents r.1.file)) head
            ∙ ap (slice 0x3000 (length (log_bytes rs))) file
            ∙ slice-overwrite_self (contents pager.file) 0x3000 (log_bytes rs) inside;
      }

  -- What is flushed is recovered. Let the buffer of a log with head 0 hold the records of a log, and
  -- `wal_flush` succeed on a file that reaches to the log's region, where dos.library behaves as
  -- documented. With the log as the flush leaves it, memory for the region and one round more than
  -- there are records, `wal_recover` returns an error and writes nothing if the Seek or the Read of the
  -- region fails. Else it writes the pages of the first 256 transactions with a COMMIT record, and no
  -- other, in the order of the log; it returns an error and keeps the log at a write that fails, and
  -- if none does it returns 0 with an empty log.
  pub wal_recover-wal_flush :
      (granted : Bool) (fuel : ℕ) (memory : List ℕ) (rs : List LogRecord) (wal : Wal)
      (pager : Pager dos)
      → Logged rs wal
      → wal.wal_head ≡ 0
      → wal.buffer_used ≢ 0
      → 0x3000 ≤ length (contents pager.file)
      → code (wal_flush dos wal pager) ≡ ok
      → wal_region_size ≤ length memory
      → length rs < fuel
      → IsRecovered dos laws granted rs (wal_flush dos wal pager).0 (wal_flush dos wal pager).1 (
          wal_recover dos granted fuel true memory
            (wal_flush dos wal pager).0
            (wal_flush dos wal pager).1)
  wal_recover-wal_flush granted fuel memory rs wal pager h start in_use inside e room enough =
      wal_recover-replay dos laws granted fuel memory rs _ _
        (wal_flush-HoldsLog rs wal pager h start in_use inside e) room enough
