-- ===== src/Sql/Catalog/Schema.antt =====
-- The schema of a table and its page, of src/sql/catalog.h and src/sql/catalog.c.
-- A name is a text in an array of 64 characters that is filled up with zeros. The structure is laid
-- out as on the 68000, with numbers of 32 bits at even places: one byte, `padding`, stands between
-- `primary_key_index` and `btree_root`. Since `primary_key_index` is copied as if it had four bytes,
-- each such copy takes in the first half of `btree_root`. The numbers' bytes are in the order of the
-- machine, `big` on the 68000. `primary_key_index` is a byte, and -1 is 255.
use amidb.Base.{
  ℕ, zero, suc, Bool, true, false, not, List, [], ◌∷◌, ◌++◌, if◌then◌else◌, ◌==◌, take, drop,
  replicate, get_or, splice,
}
use amidb.Util.Endian.{put_u32, get_u32}
use amidb.Sql.Parser.Ast.{SqlColumnDef}

pub record TableSchema : Type 0 where
  pub name : List ℕ
  pub column_count : ℕ
  pub columns : List SqlColumnDef
  pub primary_key_index : ℕ
  pub padding : ℕ
  pub btree_root : ℕ
  pub next_rowid : ℕ
  pub row_count : ℕ

-- `n` characters: the text, and zeros behind it.
unfoldable pub pad : ℕ → List ℕ → List ℕ
pad zero s = []
pad (suc n) [] = 0 ∷ pad n []
pad (suc n) (c ∷ cs) = c ∷ pad n cs

-- The text at the head of a buffer, of at most `n` characters.
unfoldable pub read_text : ℕ → List ℕ → List ℕ
read_text zero bs = []
read_text (suc n) [] = []
read_text (suc n) (b ∷ bs) = let rest = read_text n bs in if b == 0 then [] else b ∷ rest

-- A number of 32 bits in memory.
unfoldable pub put_host : Bool → ℕ → List ℕ
unfolding put_u32
put_host big n =
    if big
    then get_or (put_u32 n) 3 0
      ∷ get_or (put_u32 n) 2 0
      ∷ get_or (put_u32 n) 1 0
      ∷ get_or (put_u32 n) 0 0
      ∷ []
    else put_u32 n

unfoldable pub get_host : Bool → List ℕ → ℕ
unfolding get_u32
get_host big bs =
    if big
    then get_u32 (get_or bs 3 0 ∷ get_or bs 2 0 ∷ get_or bs 1 0 ∷ get_or bs 0 0 ∷ [])
    else get_u32 bs

abbrev pub flag : Bool → ℕ
flag true = 1
flag false = 0

-- The 68 bytes of a column.
unfoldable pub write_column_def : SqlColumnDef → List ℕ
unfolding pad
write_column_def col =
    pad 64 col.name ++ (col.type ∷ flag col.is_primary_key ∷ flag col.not_null ∷ 0 ∷ [])

unfoldable pub write_column_defs : List SqlColumnDef → List ℕ
unfolding write_column_def
write_column_defs [] = []
write_column_defs (col ∷ cols) = write_column_def col ++ write_column_defs cols

-- Four bytes from `primary_key_index` on.
unfoldable pub key_bytes : Bool → TableSchema → List ℕ
unfolding put_host
key_bytes big schema =
    schema.primary_key_index ∷ schema.padding ∷ take 2 (put_host big schema.btree_root)

unfoldable pub serialize_schema : Bool → TableSchema → List ℕ
unfolding pad put_host write_column_defs key_bytes
serialize_schema big schema =
    replicate 12 0
    ++ (pad 64 schema.name
        ++ (put_host big schema.column_count
            ++ (write_column_defs schema.columns
                ++ (key_bytes big schema
                    ++ (put_host big schema.btree_root
                        ++ (put_host big schema.next_rowid
                            ++ (put_host big schema.row_count ++ replicate 1824 0)))))))

unfoldable pub read_column_def : List ℕ → SqlColumnDef
unfolding read_text
read_column_def bs = record {
  name = read_text 63 bs;
  type = get_or (drop 64 bs) 0 0;
  is_primary_key = not (get_or (drop 64 bs) 1 0 == 0);
  not_null = not (get_or (drop 64 bs) 2 0 == 0);
}

unfoldable pub read_column_defs : ℕ → List ℕ → List SqlColumnDef
unfolding read_column_def
read_column_defs zero bs = []
read_column_defs (suc n) bs = read_column_def bs ∷ read_column_defs n (drop 68 bs)

-- The six bytes from `primary_key_index` to the end of `btree_root`, cleared at first, after the copy
-- to the one and then the copy to the other, which goes over the end of the first.
unfoldable pub key_and_root : List ℕ → List ℕ → List ℕ
key_and_root at_key at_root = splice (splice (replicate 6 0) 0 (take 4 at_key)) 2 (take 4 at_root)

unfoldable pub deserialize_schema : Bool → List ℕ → TableSchema
unfolding read_text get_host read_column_defs key_and_root
deserialize_schema big buffer =
    let at_name = drop 12 buffer in
    let at_count = drop 64 at_name in
    let at_columns = drop 4 at_count in
    let at_key = drop 2176 at_columns in
    let at_root = drop 4 at_key in
    let at_rowid = drop 4 at_root in
    let at_rows = drop 4 at_rowid in
    let restored = key_and_root at_key at_root in
    record {
      name = read_text 63 at_name;
      column_count = get_host big at_count;
      columns = read_column_defs 32 at_columns;
      primary_key_index = get_or restored 0 0;
      padding = get_or restored 1 0;
      btree_root = get_host big (drop 2 restored);
      next_rowid = get_host big at_rowid;
      row_count = get_host big at_rows;
    }
