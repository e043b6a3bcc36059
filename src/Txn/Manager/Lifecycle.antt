-- ===== src/Txn/Manager/Lifecycle.antt =====
-- The states that `txn_begin` and `txn_commit` of src/txn/txn.c go through.
use mathlib.Core.Bool.{false≢true}
use amidb.Base.{
  ◌+◌, ◌%◌, ◌^◌, ◌≤◌, ◌<◌, ◌≡◌, refl, sym, ap, ◌∙◌, Bool, true, false, [], arith, Bool-cases, inl,
  inr,
}
use amidb.Os.File.{Dos}
use amidb.Txn.Wal.Defs.{
  Code, ok, error, busy, full, ioerr, nomem, is_ok, wal_buffer_size, wal_flush, wal_reset_buffer,
}
use amidb.Txn.Manager.Defs.{
  Txn, idle, active, committing, is_active, is_idle, log_pages, or_abort, txn_abort, txn_commit,
  txn_begin, write_txn_record, flush_commit, checkpoint,
}
use amidb.Txn.Manager.Limits.{wal_write_record-ends}

module _ (dos : Dos) (granted : Bool) where
  -- A transaction that is over; after a success it has no pages, and the log is empty.
  pub record Over (r : Txn dos granted × Code) : Type 0 where
    pub ended : r.0.state ≡ idle
    pub success :
        r.1 ≡ ok
        → (r.0.dirty_pages ≡ [])
          × (r.0.pinned_pages ≡ [])
          × (r.0.wal.buffer_used ≡ 0)
          × (r.0.wal.wal_head ≡ 0)

  Over-or_abort :
      (r : Txn dos granted × Code) (next : Txn dos granted → Txn dos granted × Code)
      → ((t : Txn dos granted) → Over (next t))
      → Over (or_abort dos granted r next)
  unfolding txn_abort
  Over-or_abort (t, ok) next h = h t
  Over-or_abort (t, error) next h = record { ended = refl; success = λ e. cc }
  Over-or_abort (t, busy) next h = record { ended = refl; success = λ e. cc }
  Over-or_abort (t, full) next h = record { ended = refl; success = λ e. cc }
  Over-or_abort (t, ioerr) next h = record { ended = refl; success = λ e. cc }
  Over-or_abort (t, nomem) next h = record { ended = refl; success = λ e. cc }

  flush_commit-Over : (t : Txn dos granted) → Over (flush_commit dos granted t)
  unfolding flush_commit checkpoint wal_reset_buffer
  flush_commit-Over t =
      let code = (wal_flush dos t.wal t.cache.pager).2 in
      elim (Bool-cases (is_ok code)) [
        | inl done ↦ rw done record { ended = refl; success = λ _. (refl, refl, refl, refl) }
        | inr lost ↦
            rw lost
              record { ended = refl; success = λ e. absurd (false≢true (sym lost ∙ ap is_ok e)) }
      ]

  -- `txn_commit` outside an active transaction gives AMIDB_ERROR and changes nothing. In one it ends
  -- in the idle state whatever fails, and if it returns AMIDB_OK, the transaction has no dirty and no
  -- pinned page left and the log is empty.
  pub txn_commit-Over :
      (txn : Txn dos granted)
      → (is_active txn.state ≡ false → txn_commit dos granted txn ≡ (txn, error))
        × (is_active txn.state ≡ true → Over (txn_commit dos granted txn))
  unfolding txn_commit
  txn_commit-Over txn = (
    λ e. rw e refl,
    λ e. rw e (
        Over-or_abort (log_pages dos granted txn.dirty_pages (record txn { state = committing })) _
          (λ t. Over-or_abort (write_txn_record dos granted 2 [] t) _ flush_commit-Over)),
  )

  -- On a log whose use fits its buffer, `txn_begin` has three outcomes. Outside the idle state it
  -- gives AMIDB_BUSY and changes nothing. In it, if a record of 24 bytes fits, it succeeds: the
  -- transaction is active, with the next number and no dirty page, and 24 bytes more of the buffer
  -- are in use. If none fits, it gives AMIDB_FULL and the transaction is idle.
  pub txn_begin-Begun :
      (txn : Txn dos granted)
      → txn.wal.buffer_used ≤ wal_buffer_size
      → (is_idle txn.state ≡ false → txn_begin dos granted txn ≡ (txn, busy))
        × (is_idle txn.state ≡ true
            → txn.wal.buffer_used + 24 ≤ wal_buffer_size
            → ((txn_begin dos granted txn).1 ≡ ok)
              × ((txn_begin dos granted txn).0.state ≡ active)
              × ((txn_begin dos granted txn).0.txn_id ≡ (txn.wal.current_txn_id + 1) % 2 ^ 64)
              × ((txn_begin dos granted txn).0.dirty_pages ≡ [])
              × ((txn_begin dos granted txn).0.wal.buffer_used ≡ txn.wal.buffer_used + 24))
        × (is_idle txn.state ≡ true
            → wal_buffer_size < txn.wal.buffer_used + 24
            → ((txn_begin dos granted txn).1 ≡ full) × ((txn_begin dos granted txn).0.state ≡ idle))
  unfolding txn_begin
  txn_begin-Begun txn bound =
      let id = (txn.wal.current_txn_id + 1) % 2 ^ 64 in
      let ends =
        wal_write_record-ends 1 [] (record (txn.wal) { current_txn_id = id }) (omega arith) bound in
      (
        λ e. rw e refl,
        λ e room. elim ends [
          | inl (_, over) ↦ absurd (omega arith)
          | inr (written, used, _) ↦ rw (e, written) (refl, refl, refl, refl, omega arith)
        ],
        λ e over. elim ends [
          | inl (unfit, _) ↦ rw (e, unfit) (refl, refl)
          | inr (_, _, fits) ↦ absurd (omega arith)
        ],
      )
