-- ===== src/Txn/Wal/Recover/Committed.antt =====
-- What a recovery by src/txn/wal.c is to write, told from the records alone.
use mathlib.Core.List.{append_assoc, append-nil}
use amidb.Base.{
  ℕ, zero, suc, ◌≤◌, ◌<◌, ◌≡◌, refl, sym, ap, ◌∙◌, Bool, true, false, ◌&&◌, ◌||◌, List, [], ◌∷◌,
  ◌++◌, arith, if◌then◌else◌, ltb, ◌==◌, length, take, drop, length-append, take-append, Bool-cases,
  inl, inr,
}
use amidb.Os.File.{Dos}
use amidb.Storage.Pager.Defs.{Pager, pager_write_page}
use amidb.Txn.Wal.Defs.{wal_page, load32}
use amidb.Txn.Wal.Recover.{wal_commit, note_commit, is_committed, replay_record}
use amidb.Txn.Wal.Recover.Headers.{LogRecord}

-- The transactions with a COMMIT record, in the order of the log.
pub commit_ids : List LogRecord → List ℕ
commit_ids [] = []
commit_ids (r ∷ rs) =
    if r.record_type == wal_commit then r.txn_id ∷ commit_ids rs else commit_ids rs

pub has_id : ℕ → List ℕ → Bool
has_id id [] = false
has_id id (x ∷ xs) = x == id || has_id id xs

-- The numbers and the contents of the pages that transactions among `ids` logged.
pub committed_pages : List ℕ → List LogRecord → List (ℕ × List ℕ)
committed_pages ids [] = []
committed_pages ids (r ∷ rs) =
    if r.record_type == wal_page && has_id r.txn_id ids
    then (load32 r.payload, drop 4 r.payload) ∷ committed_pages ids rs
    else committed_pages ids rs

-- The loop of the first pass on the records.
unfoldable pub commits : List LogRecord → List ℕ → List ℕ
commits [] found = found
commits (r ∷ rs) found = commits rs (note_commit r.record_type r.txn_id found)

module _ (dos : Dos) (granted : Bool) where
  -- The writes in order, up to the first that fails.
  pub write_pages : List (ℕ × List ℕ) → Pager dos → Pager dos × Bool
  write_pages [] pager = (pager, true)
  write_pages ((number, bytes) ∷ pages) pager =
      let (pager', done) = pager_write_page dos granted number bytes pager in
      let rest = write_pages pages pager' in if done then rest else (pager', false)

  -- The loop of the second pass on the records.
  unfoldable pub replay : List LogRecord → List ℕ → Pager dos → Pager dos × Bool
  replay [] committed pager = (pager, true)
  replay (r ∷ rs) committed pager =
      let (pager', done) =
        replay_record dos granted r.record_type r.txn_id (load32 r.payload) (drop 4 r.payload)
          committed pager in
      let rest = replay rs committed pager' in if done then rest else (pager', false)

take-all : (xs : List ℕ) (n : ℕ) → length xs ≤ n → take n xs ≡ xs
take-all [] zero h = refl
take-all [] (suc n) h = refl
take-all (x ∷ xs) zero h = absurd (omega arith)
take-all (x ∷ xs) (suc n) h = ap (◌∷◌ x) (take-all xs n (omega arith))

take-full : (xs ys : List ℕ) (n : ℕ) → length xs ≡ n → take n (xs ++ ys) ≡ xs
take-full xs ys n e = rw (← e) (take-append xs ys)

commits-commit_ids :
    (rs : List LogRecord) (found : List ℕ)
    → length found ≤ 256
    → commits rs found ≡ take 256 (found ++ commit_ids rs)
unfolding commits commit_ids
commits-commit_ids [] found h = rw append-nil (sym (take-all found 256 h))
commits-commit_ids (r ∷ rs) found h = elim (Bool-cases (r.record_type == wal_commit)) [
  | inr other ↦ rw other (commits-commit_ids rs found h)
  | inl commit ↦ elim (Bool-cases (ltb (length found) 256)) [
    | inl few ↦
        rw (commit, few)
          (commits-commit_ids rs (found ++ (r.txn_id ∷ []))
              (omega (arith, length-append found (r.txn_id ∷ []), ltb-less (length found) 256 few))
            ∙ ap (take 256) (append_assoc found (r.txn_id ∷ []) (commit_ids rs)))
    | inr many ↦
        let full : length found ≡ 256 = ground arith in
        rw (commit, many)
          (commits-commit_ids rs found h
            ∙ take-full found (commit_ids rs) 256 full
            ∙ sym (take-full found (r.txn_id ∷ commit_ids rs) 256 full))
  ]
]
  where
    ltb-less : (a b : ℕ) → ltb a b ≡ true → a < b
    ltb-less a b h = ground arith

is_committed-has_id : (id : ℕ) (ids : List ℕ) → is_committed id ids ≡ has_id id ids
unfolding is_committed has_id
is_committed-has_id id [] = refl
is_committed-has_id id (x ∷ xs) = rw (is_committed-has_id id xs) (ground arith)

module _ (dos : Dos) (granted : Bool) where
  replay-committed_pages :
      (rs : List LogRecord) (ids : List ℕ) (pager : Pager dos)
      → replay dos granted rs ids pager ≡ write_pages dos granted (committed_pages ids rs) pager
  unfolding replay write_pages committed_pages replay_record
  replay-committed_pages [] ids pager = refl
  replay-committed_pages (r ∷ rs) ids pager =
      let same = is_committed-has_id r.txn_id ids in
      elim (Bool-cases (has_id r.txn_id ids)) [
        | inr other ↦ elim (Bool-cases (r.record_type == wal_page)) [
          | inl page ↦ rw (same, other, page) (replay-committed_pages rs ids pager)
          | inr kept ↦ rw (same, other, kept) (replay-committed_pages rs ids pager)
        ]
        | inl committed ↦ elim (Bool-cases (r.record_type == wal_page)) [
          | inl page ↦
              let r' = pager_write_page dos granted (load32 r.payload) (drop 4 r.payload) pager in
              rw (same, committed, page, replay-committed_pages rs ids r'.0) refl
          | inr kept ↦ rw (same, committed, kept) (replay-committed_pages rs ids pager)
        ]
      ]

  -- The records' own loops write the pages of the first 256 transactions with a COMMIT record.
  pub replay-write_pages :
      (rs : List LogRecord) (pager : Pager dos)
      → replay dos granted rs (commits rs []) pager
        ≡ write_pages dos granted (committed_pages (take 256 (commit_ids rs)) rs) pager
  replay-write_pages rs pager =
      ap (λ ids. replay dos granted rs ids pager) (commits-commit_ids rs [] (omega arith))
      ∙ replay-committed_pages rs (take 256 (commit_ids rs)) pager
