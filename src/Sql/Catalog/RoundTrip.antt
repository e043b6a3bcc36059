-- ===== src/Sql/Catalog/RoundTrip.antt =====
-- A schema is read back from its page as it was written.
use mathlib.Core.List.{append_assoc, append-nil}
use amidb.Base.{
  ℕ, zero, suc, ◌+◌, ◌*◌, ◌^◌, ◌<◌, ◌≤◌, ◌≡◌, refl, sym, ◌∙◌, ap, Bool, true, false, not, List, [],
  ◌∷◌, ◌++◌, ◌==◌, length, drop, splice, drop-drop, All, arith,
}
use amidb.Util.Endian.{put_u32, get_u32}
use amidb.Sql.Parser.Ast.{SqlColumnDef}
use amidb.Sql.Catalog.Schema.{
  TableSchema, pad, read_text, put_host, get_host, flag, write_column_def, write_column_defs,
  key_bytes, key_and_root, serialize_schema, read_column_def, read_column_defs, deserialize_schema,
}

-- A text that fits into the array with a zero behind it.
abbrev pub IsName : List ℕ → Type 0
IsName s = (length s ≤ 63) × All (λ c. (0 < c) × c < 256) s

read_text-pad :
    (n k : ℕ) (s rest : List ℕ)
    → length s ≤ n
    → n < k
    → All (λ c. (0 < c) × c < 256) s
    → read_text n (pad k s ++ rest) ≡ s
unfolding read_text pad
read_text-pad zero k [] rest h h' a = refl
read_text-pad zero k (c ∷ cs) rest h h' a = absurd (omega arith)
read_text-pad (suc n) zero s rest h h' a = absurd (omega arith)
read_text-pad (suc n) (suc k) [] rest h h' a = refl
read_text-pad (suc n) (suc k) (c ∷ cs) rest h h' (p, a) =
    let ih = read_text-pad n k cs rest (omega arith) (omega arith) a in
    let e : (c == 0) ≡ false = ground arith in rw (e, ih) refl

drop-pad : (k : ℕ) (s rest : List ℕ) → drop k (pad k s ++ rest) ≡ rest
unfolding pad
drop-pad zero s rest = refl
drop-pad (suc k) [] rest = drop-pad k [] rest
drop-pad (suc k) (c ∷ cs) rest = drop-pad k cs rest

get_host-put_host :
    (big : Bool) (n : ℕ) (rest : List ℕ) → n < 2 ^ 32 → get_host big (put_host big n ++ rest) ≡ n
unfolding get_host put_host get_u32 put_u32
get_host-put_host true n rest h = omega arith
get_host-put_host false n rest h = omega arith

drop-put_host : (big : Bool) (n : ℕ) (rest : List ℕ) → drop 4 (put_host big n ++ rest) ≡ rest
unfolding put_host put_u32
drop-put_host true n rest = refl
drop-put_host false n rest = refl

abbrev pub IsColumn : SqlColumnDef → Type 0
IsColumn col = IsName col.name × col.type < 256

flag-read : (b : Bool) → not (flag b == 0) ≡ b
flag-read true = refl
flag-read false = refl

read_column_def-write_column_def :
    (col : SqlColumnDef) (rest : List ℕ)
    → IsColumn col
    → read_column_def (write_column_def col ++ rest) ≡ col
unfolding read_column_def write_column_def
read_column_def-write_column_def col rest ((h, a), t) =
    simp (append_assoc, read_text-pad 63 64 col.name _ h (omega arith) a, drop-pad, flag-read) refl

drop-pad_more : (k m : ℕ) (s rest : List ℕ) → drop (k + m) (pad k s ++ rest) ≡ drop m rest
drop-pad_more k m s rest = drop-drop k m (pad k s ++ rest) ∙ ap (drop m) (drop-pad k s rest)

drop-write_column_def :
    (col : SqlColumnDef) (rest : List ℕ) → drop 68 (write_column_def col ++ rest) ≡ rest
unfolding write_column_def
drop-write_column_def col rest = rw append_assoc (drop-pad_more 64 4 col.name _)

-- Behind the columns, where there are `n`.
drop-write_column_defs :
    (n : ℕ) (cols : List SqlColumnDef) (rest : List ℕ)
    → length cols ≡ n
    → drop (68 * n) (write_column_defs cols ++ rest) ≡ rest
unfolding write_column_defs
drop-write_column_defs zero [] rest e = refl
drop-write_column_defs zero (col ∷ cols) rest e = absurd (omega arith)
drop-write_column_defs (suc n) [] rest e = absurd (omega arith)
drop-write_column_defs (suc n) (col ∷ cols) rest e =
    let more : 68 * suc n ≡ 68 + 68 * n = omega arith in
    let ih = drop-write_column_defs n cols rest (omega arith) in
    let bs = write_column_def col ++ (write_column_defs cols ++ rest) in
    let here : drop 68 bs ≡ write_column_defs cols ++ rest = drop-write_column_def col _ in
    rw (more, append_assoc _ _ rest) (drop-drop 68 (68 * n) bs ∙ (ap (drop (68 * n)) here ∙ ih))

both : {A : Type 0} {x y : A} {xs ys : List A} → x ≡ y → xs ≡ ys → x ∷ xs ≡ y ∷ ys
both e e' = cc

read_column_defs-write_column_defs :
    (n : ℕ) (cols : List SqlColumnDef) (rest : List ℕ)
    → length cols ≡ n
    → All IsColumn cols
    → read_column_defs n (write_column_defs cols ++ rest) ≡ cols
unfolding read_column_defs write_column_defs
read_column_defs-write_column_defs zero [] rest e a = refl
read_column_defs-write_column_defs zero (col ∷ cols) rest e a = absurd (omega arith)
read_column_defs-write_column_defs (suc n) [] rest e a = absurd (omega arith)
read_column_defs-write_column_defs (suc n) (col ∷ cols) rest e (h, a) =
    let ih = read_column_defs-write_column_defs n cols rest (omega arith) a in
    let behind = write_column_defs cols ++ rest in
    rw (append_assoc _ _ rest) (
      both (read_column_def-write_column_def col behind h)
        (ap (read_column_defs n) (drop-write_column_def col behind) ∙ ih))

-- What fits into the structure: texts of bytes with a zero behind them, 32 columns, and numbers of 32
-- bits.
unfoldable pub IsSchema : TableSchema → Type 0
IsSchema schema =
    IsName schema.name
    × (length schema.columns ≡ 32)
    × All IsColumn schema.columns
    × (schema.primary_key_index < 256)
    × (schema.padding < 256)
    × (schema.column_count < 2 ^ 32)
    × (schema.btree_root < 2 ^ 32)
    × (schema.next_rowid < 2 ^ 32)
    × schema.row_count < 2 ^ 32

drop-key_bytes :
    (big : Bool) (schema : TableSchema) (rest : List ℕ)
    → drop 4 (key_bytes big schema ++ rest) ≡ rest
unfolding key_bytes put_host put_u32
drop-key_bytes true schema rest = refl
drop-key_bytes false schema rest = refl

key_and_root-key_bytes :
    (big : Bool) (schema : TableSchema) (xs ys : List ℕ)
    → key_and_root (key_bytes big schema ++ xs) (put_host big schema.btree_root ++ ys)
      ≡ schema.primary_key_index ∷ schema.padding ∷ put_host big schema.btree_root
unfolding key_and_root key_bytes put_host put_u32 splice
key_and_root-key_bytes true schema xs ys = refl
key_and_root-key_bytes false schema xs ys = refl

get_host-put_host_self : (big : Bool) (n : ℕ) → n < 2 ^ 32 → get_host big (put_host big n) ≡ n
get_host-put_host_self big n h =
    ap (get_host big) (sym (append-nil (put_host big n))) ∙ get_host-put_host big n [] h

-- A schema whose texts fit with a zero behind them, with 32 columns, a byte of padding and
-- numbers of 32 bits is read back as it was written, in either byte order, from every page that
-- agrees with what was written behind the first 12 bytes.
pub deserialize_schema-serialize_schema :
    (big : Bool) (schema : TableSchema) (page : List ℕ)
    → IsSchema schema
    → drop 12 page ≡ drop 12 (serialize_schema big schema)
    → deserialize_schema big page ≡ schema
unfolding deserialize_schema serialize_schema IsSchema
deserialize_schema-serialize_schema big schema page ((l, a), n, c, k, p, b1, b2, b3, b4) h =
    simp
      (
        h,
        read_text-pad 63 64 schema.name _ l (omega arith) a,
        drop-pad 64 schema.name,
        get_host-put_host big _ _ b1,
        get_host-put_host_self big _ b2,
        get_host-put_host big _ _ b3,
        get_host-put_host big _ _ b4,
        drop-put_host big,
        drop-write_column_defs 32 schema.columns _ n,
        read_column_defs-write_column_defs 32 schema.columns _ n c,
        drop-key_bytes big schema,
        key_and_root-key_bytes big schema,
      )
      refl
