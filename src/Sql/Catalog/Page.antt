-- ===== src/Sql/Catalog/Page.antt =====
-- The page of a schema: its size, its bytes, and the part that the pager's stamp leaves alone.
use amidb.Base.{
  ℕ, zero, suc, ◌+◌, ◌*◌, ◌<◌, ◌≤◌, ◌≡◌, refl, ◌∙◌, ap, Bool, true, false, List, [], ◌∷◌, ◌++◌,
  length, drop, splice, replicate, All, All-append, All-replicate, length-append, length-replicate,
  arith,
}
use amidb.Util.Endian.{IsByte, put_u32}
use amidb.Storage.Pager.Defs.{stamp_page}
use amidb.Sql.Parser.Ast.{SqlColumnDef}
use amidb.Sql.Catalog.Schema.{
  TableSchema, pad, put_host, flag, write_column_def, write_column_defs, key_bytes,
  serialize_schema,
}
use amidb.Sql.Catalog.RoundTrip.{IsColumn, IsSchema}

length-pad : (n : ℕ) (s : List ℕ) → length (pad n s) ≡ n
unfolding pad
length-pad zero s = refl
length-pad (suc n) [] = ap suc (length-pad n [])
length-pad (suc n) (c ∷ cs) = ap suc (length-pad n cs)

length-put_host : (big : Bool) (n : ℕ) → length (put_host big n) ≡ 4
unfolding put_host put_u32
length-put_host true n = refl
length-put_host false n = refl

length-key_bytes : (big : Bool) (schema : TableSchema) → length (key_bytes big schema) ≡ 4
unfolding key_bytes put_host put_u32
length-key_bytes true schema = refl
length-key_bytes false schema = refl

length-write_column_defs :
    (n : ℕ) (cols : List SqlColumnDef) → length cols ≡ n → length (write_column_defs cols) ≡ 68 * n
unfolding write_column_defs write_column_def
length-write_column_defs zero [] e = refl
length-write_column_defs zero (col ∷ cols) e = absurd (omega arith)
length-write_column_defs (suc n) [] e = absurd (omega arith)
length-write_column_defs (suc n) (col ∷ cols) e =
    let ih = length-write_column_defs n cols (omega arith) in
    simp (length-append, length-pad, ih) (omega arith)

pub length-serialize_schema :
    (big : Bool) (schema : TableSchema)
    → IsSchema schema
    → length (serialize_schema big schema) ≡ 4096
unfolding serialize_schema IsSchema
length-serialize_schema big schema (name, n, c, k, p, b1, b2, b3, b4) =
    simp
      (
        length-append,
        length-pad,
        length-put_host,
        length-write_column_defs 32 schema.columns n,
        length-key_bytes,
        length-replicate,
      )
      (omega arith)

pad-IsByte : (n : ℕ) (s : List ℕ) → All (λ c. (0 < c) × c < 256) s → All IsByte (pad n s)
unfolding pad
pad-IsByte zero s a = tt
pad-IsByte (suc n) [] a = (omega arith, pad-IsByte n [] tt)
pad-IsByte (suc n) (c ∷ cs) ((low, high), a) = (high, pad-IsByte n cs a)

put_host-IsByte : (big : Bool) (n : ℕ) → All IsByte (put_host big n)
unfolding put_host put_u32
put_host-IsByte true n = omega arith
put_host-IsByte false n = omega arith

key_bytes-IsByte :
    (big : Bool) (schema : TableSchema)
    → schema.primary_key_index < 256
    → schema.padding < 256
    → All IsByte (key_bytes big schema)
unfolding key_bytes put_host put_u32
key_bytes-IsByte true schema k p = (k, (p, (omega arith, (omega arith, tt))))
key_bytes-IsByte false schema k p = (k, (p, (omega arith, (omega arith, tt))))

flag-IsByte : (b : Bool) → flag b < 256
flag-IsByte true = omega arith
flag-IsByte false = omega arith

write_column_defs-IsByte :
    (cols : List SqlColumnDef) → All IsColumn cols → All IsByte (write_column_defs cols)
unfolding write_column_defs write_column_def
write_column_defs-IsByte [] a = tt
write_column_defs-IsByte (col ∷ cols) (((l, name), t), a) =
    All-append IsByte _ _
      (All-append IsByte _ _ (pad-IsByte 64 col.name name)
        (t, (flag-IsByte col.is_primary_key, (flag-IsByte col.not_null, (omega arith, tt)))))
      (write_column_defs-IsByte cols a)

pub serialize_schema-IsByte :
    (big : Bool) (schema : TableSchema) → IsSchema schema → All IsByte (serialize_schema big schema)
unfolding serialize_schema IsSchema
serialize_schema-IsByte big schema ((l, name), n, c, k, p, b1, b2, b3, b4) =
    let join = λ (xs ys : List ℕ). All-append IsByte xs ys in
    let numbers =
      put_host big schema.btree_root
      ++ (put_host big schema.next_rowid ++ (put_host big schema.row_count ++ replicate 1824 0)) in
    let behind : All IsByte (key_bytes big schema ++ numbers) =
      join (key_bytes big schema) numbers (key_bytes-IsByte big schema k p) (
        join _ _ (put_host-IsByte big _) (
          join _ _ (put_host-IsByte big _)
            (join _ _ (put_host-IsByte big _) (All-replicate IsByte 1824 0 (omega arith))))) in
    let columns = write_column_defs schema.columns ++ (key_bytes big schema ++ numbers) in
    let counted = put_host big schema.column_count ++ columns in
    join (replicate 12 0) (pad 64 schema.name ++ counted) (All-replicate IsByte 12 0 (omega arith))
      (join (pad 64 schema.name) counted (pad-IsByte 64 schema.name name) (
        join (put_host big schema.column_count) columns (put_host-IsByte big _) (
          join (write_column_defs schema.columns) (key_bytes big schema ++ numbers)
            (write_column_defs-IsByte schema.columns c) behind)))

drop-splice_before :
    (k : ℕ) (bs : List ℕ) (off : ℕ) (xs : List ℕ)
    → off + length xs ≤ k
    → drop k (splice bs off xs) ≡ drop k bs
unfolding splice
drop-splice_before k [] off xs h = refl
drop-splice_before zero (b ∷ bs) zero [] h = refl
drop-splice_before zero (b ∷ bs) zero (x ∷ xs) h = absurd (omega arith)
drop-splice_before zero (b ∷ bs) (suc off) xs h = absurd (omega arith)
drop-splice_before (suc k) (b ∷ bs) zero [] h = refl
drop-splice_before (suc k) (b ∷ bs) zero (x ∷ xs) h = drop-splice_before k bs zero xs (omega arith)
drop-splice_before (suc k) (b ∷ bs) (suc off) xs h = drop-splice_before k bs off xs (omega arith)

-- The stamp lies in the first 12 bytes.
pub drop-stamp_page : (n : ℕ) (bs : List ℕ) → drop 12 (stamp_page n bs) ≡ drop 12 bs
unfolding stamp_page put_u32
drop-stamp_page n bs =
    drop-splice_before 12 _ 8 _ (omega arith) ∙ drop-splice_before 12 bs 0 _ (omega arith)
