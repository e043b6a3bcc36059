-- ===== src/Storage/Row/Outcomes.antt =====
-- What `row_deserialize` of src/storage/row.c does on any bytes, and where it goes wrong.
use mathlib.Core.Path.{subst}
use native.Mathlib.Nat.{zero-add}
use amidb.Base.{
  ℕ, zero, suc, ◌+◌, ◌^◌, ◌≤◌, ◌<◌, ◌≡◌, ◌≢◌, inl, inr, refl, sym, ap, ◌∙◌, Bool, true, false, some,
  List, [], ◌∷◌, ◌++◌, arith, if◌then◌else◌, ltb, leb, ◌==◌, length, drop, get_or, Bool-cases,
}
use amidb.Util.Endian.{put_u16, get_u16, put_u32, get_u32, get_u32-put_u32}
use amidb.Storage.Row.Defs.{
  Value, null, integer, text, blob, Row, Result, ok, error, fault, u32, row_init, row_clear,
  columns, write_columns, row_serialize, store_value, row_set_text, row_set_blob, copy, strlen,
  ◌>>=◌, next_column, read_column, read_typed, read_bytes, Read, done, failed, stray, read_columns,
  row_deserialize,
}
use amidb.Storage.Row.Valid.{IsValid, row_init-IsValid, store_value-IsValid, row_serialize-eq-some}

-- What holds of the value of a success.
data Ensures {ℓ} {A : Type ℓ} (P : A → Type 0) : Result A → Type ℓ where
  on_ok : {a : A} → P a → Ensures P (ok a)
  on_error : Ensures P error
  on_fault : Ensures P fault

Ensures->>= {ℓ κ} :
    {A : Type ℓ} {B : Type κ} {P : A → Type 0} {Q : B → Type 0} {m : Result A} (f : A → Result B)
    → Ensures P m
    → ((a : A) → P a → Ensures Q (f a))
    → Ensures Q (m >>= f)
Ensures->>= f (on_ok {a} p) h = h a p
Ensures->>= f on_error h = on_error
Ensures->>= f on_fault h = on_fault

Ensures-if {ℓ} :
    {A : Type ℓ} {P : A → Type 0} (b : Bool) {x y : Result A}
    → (b ≡ true → Ensures P x)
    → (b ≡ false → Ensures P y)
    → Ensures P (if b then x else y)
Ensures-if true h k = h refl
Ensures-if false h k = k refl

Ensures-trivial {ℓ} : {A : Type ℓ} (m : Result A) → Ensures (λ _. Unit {0}) m
Ensures-trivial (ok a) = on_ok tt
Ensures-trivial error = on_error
Ensures-trivial fault = on_fault

Ensures-elim {ℓ} :
    {A : Type ℓ} {P : A → Type 0} {m : Result A} {a : A} → Ensures P m → m ≡ ok a → P a
Ensures-elim {P} (on_ok p) e = subst P (cc) p
Ensures-elim on_error e = cc
Ensures-elim on_fault e = cc

module _ (mem_alloc : ℕ → Bool) (i : ℕ) (row : Row) (buffer : List ℕ) (buffer_size : ℕ) where
  abbrev Stores : Row → Type 0
  Stores row' = (v : Value) × (row' ≡ store_value row i v)

  -- The row after a round that read column `i`, and the offset.
  abbrev Reads : Row × ℕ → Type 0
  Reads (row', offset) = Stores row' × (offset ≤ buffer_size)

  row_set_text-Stores : (src : List ℕ) (n : ℕ) → Ensures Stores (row_set_text mem_alloc row i src n)
  unfolding row_set_text
  row_set_text-Stores src n =
      Ensures-if (leb 32 i) (λ _. on_error)
        λ _. Ensures->>= _ (Ensures-trivial (if n == 0 then strlen src else ok n)) λ len _.
          Ensures->>= _ (Ensures-trivial (copy mem_alloc len src)) λ bs _. on_ok (text bs, refl)

  row_set_blob-Stores :
      (src : List ℕ) (n : ℕ) → Ensures Stores (row_set_blob mem_alloc row i (some src) n)
  unfolding row_set_blob
  row_set_blob-Stores src n =
      Ensures-if (leb 32 i) (λ _. on_error)
        λ _. Ensures->>= _ (Ensures-trivial (copy mem_alloc n src)) λ bs _. on_ok (blob bs, refl)

  read_bytes-Reads :
      (is_text : Bool) (offset n : ℕ)
      → Ensures Reads (read_bytes is_text mem_alloc i offset n row buffer buffer_size)
  unfolding read_bytes
  read_bytes-Reads is_text offset n =
      Ensures-if (ltb buffer_size (u32 (offset + n))) (λ _. on_error)
        λ fits.
          Ensures->>= _
            (Ensures-if is_text (λ _. row_set_text-Stores (drop offset buffer) n)
              (λ _. row_set_blob-Stores (drop offset buffer) n))
            λ row' stored. on_ok (stored, ground (arith, fits))

  read_typed-Reads :
      (type offset : ℕ)
      → offset ≤ buffer_size
      → Ensures Reads (read_typed type mem_alloc i offset row buffer buffer_size)
  unfolding read_typed
  read_typed-Reads type offset le =
      Ensures-if (type == 0)
        (λ _.
          Ensures->>= _ (Ensures-if (leb 32 i) (λ _. on_error) (λ _. on_ok (null, refl)))
            λ row' stored. on_ok (stored, le))
        λ _.
          Ensures-if (leb type 3)
            (λ _.
              Ensures-if (ltb buffer_size (u32 (offset + 4))) (λ _. on_error)
                λ fits.
                  Ensures-if (type == 1)
                    (λ _.
                      Ensures->>= _
                        (Ensures-if (leb 32 i) (λ _. on_error) (λ _. on_ok (integer _, refl)))
                        λ row' stored. on_ok (stored, ground (arith, fits)))
                    (λ _. read_bytes-Reads (type == 2) (u32 (offset + 4)) _))
            (λ _. on_error)

  read_column-Reads :
      (offset : ℕ)
      → buffer_size < 2 ^ 32
      → Ensures Reads (read_column mem_alloc i offset row buffer buffer_size)
  unfolding read_column
  read_column-Reads offset small =
      Ensures-if (leb buffer_size offset) (λ _. on_error)
        λ lt. read_typed-Reads (get_or buffer offset 0) (u32 (offset + 1)) (ground (arith, lt))

-- How a call ends: with a row that holds `n` columns, or with an empty one.
abbrev pub Ends : ℕ → ℕ → Read → Type 0
Ends n buffer_size (done row offset) = IsValid row × (row.column_count ≡ n) × (offset ≤ buffer_size)
Ends n buffer_size (failed row) = row ≡ row_init
Ends n buffer_size stray = Unit

store_count :
    (row : Row) (v : Value)
    → (store_value row row.column_count v).column_count ≡ row.column_count + 1
unfolding store_value
store_count row v = ground arith

next_column-Ends :
    {P : Row × ℕ → Type 0} {r : Result (Row × ℕ)} (row : Row) (rest : Row → ℕ → Read)
    (n buffer_size : ℕ)
    → Ensures P r
    → ((row' : Row) (offset' : ℕ) → P (row', offset') → Ends n buffer_size (rest row' offset'))
    → Ends n buffer_size (next_column r row rest)
unfolding next_column row_clear
next_column-Ends row rest n size (on_ok {a = (row', offset')} p) h = h row' offset' p
next_column-Ends row rest n size on_error h = refl
next_column-Ends row rest n size on_fault h = tt

read_columns-Ends :
    (mem_alloc : ℕ → ℕ → Bool) (buffer : List ℕ) (buffer_size : ℕ)
    → buffer_size < 2 ^ 32
    → (left offset : ℕ) (row : Row) → IsValid row
    → row.column_count + left ≤ 32
    → offset ≤ buffer_size
    → Ends
        (row.column_count + left)
        buffer_size
        (read_columns mem_alloc left row.column_count offset row buffer buffer_size)
unfolding read_columns
read_columns-Ends mem_alloc buffer size small zero offset row h le fits = (h, omega arith, fits)
read_columns-Ends mem_alloc buffer size small (suc left) offset row h le fits =
    next_column-Ends row _ (row.column_count + suc left) size
      (read_column-Reads (mem_alloc row.column_count) row.column_count row buffer size offset small)
      λ row' offset' ((v, stored), fits').
        let valid : IsValid row' =
          rw stored (store_value-IsValid row row.column_count v h (omega arith)) in
        let counted : row'.column_count ≡ row.column_count + 1 = rw stored (store_count row v) in
        let rest =
          read_columns-Ends mem_alloc buffer size small left offset' row' valid (omega arith)
            fits' in
        subst
          (λ n.
            Ends n size
              (read_columns mem_alloc left (row.column_count + 1) offset' row' buffer size))
          (omega arith)
          (subst
            (λ c. Ends (c + left) size (read_columns mem_alloc left c offset' row' buffer size))
            counted rest)

-- On any bytes, with a buffer of at least 2 and less than 2^32 bytes, `row_deserialize` ends in one
-- of three ways: with a valid row of as many columns as the first two bytes say, and a return value
-- whose bit pattern is at most the buffer's size; with -1 and an empty row; or with a read outside
-- the memory. A smaller buffer gives -1 and leaves the row as it was.
pub row_deserialize-Ends :
    (mem_alloc : ℕ → ℕ → Bool) (row : Row) (buffer : List ℕ) (buffer_size : ℕ)
    → buffer_size < 2 ^ 32
    → (buffer_size < 2 → row_deserialize mem_alloc row buffer buffer_size ≡ failed row)
      × (2 ≤ buffer_size
          → Ends (get_u16 buffer) buffer_size (row_deserialize mem_alloc row buffer buffer_size))
row_deserialize-Ends mem_alloc row buffer size small = (
  (λ lt. unfold row_deserialize in ground (arith, lt)),
  λ le. elim (Bool-cases (ltb 32 (get_u16 buffer))) [
    | inl many ↦
        let e : failed row_init ≡ row_deserialize mem_alloc row buffer size =
          unfold row_deserialize in ground (arith, le, many) in
        subst (Ends (get_u16 buffer) size) e refl
    | inr few ↦
        let read = read_columns mem_alloc (get_u16 buffer) 0 2 row_init buffer size in
        let e : read ≡ row_deserialize mem_alloc row buffer size =
          unfold row_deserialize in ground (arith, le, few) in
        let empty : row_init.column_count ≡ 0 = unfold row_init in refl in
        let from_zero =
          subst
            (λ c.
              Ends (c + get_u16 buffer) size
                (read_columns mem_alloc (get_u16 buffer) c 2 row_init buffer size))
            empty
            (read_columns-Ends mem_alloc buffer size small (get_u16 buffer) 2 row_init
              row_init-IsValid (ground (arith, few, empty)) le) in
        subst (Ends (get_u16 buffer) size) e
          (subst (λ n. Ends n size read) (zero-add (get_u16 buffer)) from_zero)
  ],
)

empty_text_misread :
    (mem_alloc : ℕ → ℕ → Bool) (old row : Row) (x offset : ℕ) (rest : List ℕ)
    → columns row ≡ text [] ∷ []
    → x ≢ 0
    → row_deserialize mem_alloc old (1 ∷ 0 ∷ 2 ∷ 0 ∷ 0 ∷ 0 ∷ 0 ∷ x ∷ rest) 7 ≢ done row offset
unfolding row_deserialize get_u16 get_u32 row_init
empty_text_misread mem_alloc old row x offset rest one ne eq = ground arith

-- A valid row whose only column is an empty TEXT does not survive: if the byte in memory behind what
-- `row_serialize` wrote for it is not NUL, `row_deserialize` does not return that row, whatever it
-- returns.
pub row_deserialize-empty_text :
    (mem_alloc : ℕ → ℕ → Bool) (old row : Row) (x room offset : ℕ) (bytes rest : List ℕ)
    → IsValid row
    → columns row ≡ text [] ∷ []
    → row_serialize row room ≡ some bytes
    → x ≢ 0
    → row_deserialize mem_alloc old (bytes ++ (x ∷ rest)) (length bytes) ≢ done row offset
row_deserialize-empty_text mem_alloc old row x room offset bytes rest h one e ne eq =
    let written : bytes ≡ 1 ∷ 0 ∷ 2 ∷ 0 ∷ 0 ∷ 0 ∷ 0 ∷ [] =
      row_serialize-eq-some row room bytes h e
      ∙ ap (λ vs. put_u16 (length vs) ++ write_columns vs) one
      ∙ (unfold put_u16 put_u32 write_columns in refl) in
    empty_text_misread mem_alloc old row x offset rest one ne
      (ap (λ bs. row_deserialize mem_alloc old (bs ++ (x ∷ rest)) (length bs)) (sym written) ∙ eq)

-- A length field that makes `offset + size` wrap passes the test against the buffer's size: with
-- memory granted, a BLOB column with such a field makes the copy read outside the memory.
pub row_deserialize-wrapped_size :
    (mem_alloc : ℕ → ℕ → Bool) (old : Row) (n : ℕ) (rest : List ℕ)
    → ((i k : ℕ) → mem_alloc i k ≡ true)
    → n < 2 ^ 32
    → 2 ^ 32 ≤ 7 + n
    → length rest < n
    → row_deserialize mem_alloc old (1 ∷ 0 ∷ 3 ∷ (put_u32 n ++ rest)) (7 + length rest) ≡ stray
unfolding row_deserialize get_u16
row_deserialize-wrapped_size mem_alloc old n rest g lt wraps short =
    let size : get_u32 (put_u32 n ++ rest) ≡ n = get_u32-put_u32 n rest lt in
    let behind : drop 4 (put_u32 n ++ rest) ≡ rest = unfold put_u32 in refl in
    ground (arith, size, behind, g 0 n)
