-- ===== src/Sql/Catalog/Ops.antt =====
-- The operations of src/sql/catalog.c, on the tree of the catalog and the pager below it.
-- `levels` bounds the ways through the trees, as in the tree's own operations, and `big` is the byte
-- order of the machine. The log file is not modelled.
use amidb.Base.{
  ℕ, zero, suc, ◌+◌, ◌-◌, ◌%◌, ◌^◌, Bool, false, Option, none, some, List, [], ◌∷◌, ◌++◌, ◌⊎◌, inl,
  inr, if◌then◌else◌, ◌==◌, length, take, replicate,
}
use amidb.Base.Effect.{Op, ◌>>=◌, ◌>>◌, return, fail, optionally}
use amidb.Os.File.{Dos}
use amidb.Util.Crc32.{crc32_compute}
use amidb.Storage.Pager.Defs.{pager_read_page, pager_get_catalog_root, pager_set_catalog_root}
use amidb.Storage.Btree.Tree.Ops.{Tree, with_cache, allocate_page, write_page}
use amidb.Storage.Btree.Tree.Search.{btree_search}
use amidb.Storage.Btree.Tree.Insert.{btree_create, btree_open, btree_insert}
use amidb.Storage.Btree.Tree.Delete.{btree_delete}
use amidb.Storage.Btree.Tree.Cursor.{
  Cursor, btree_cursor_first, btree_cursor_valid, btree_cursor_get, btree_cursor_next,
}
use amidb.Txn.Manager.Defs.{Txn}
use amidb.Sql.Parser.Ast.{SqlColumnDef, SqlCreateTable}
use amidb.Sql.Catalog.Schema.{TableSchema, serialize_schema, deserialize_schema}

-- A positive number, as a bit pattern.
unfoldable pub catalog_hash_name : List ℕ → ℕ
unfolding crc32_compute
catalog_hash_name table_name = crc32_compute table_name % 2 ^ 31

pub record Catalog (dos : Dos) (granted : Bool) : Type 0 where
  pub tree : Tree dos granted
  pub catalog_root : ℕ

abbrev pub empty_column : SqlColumnDef
empty_column = record { name = []; type = 0; is_primary_key = false; not_null = false }

-- The index of the first PRIMARY KEY from column `i` on, or -1.
unfoldable pub primary_key_from : ℕ → List SqlColumnDef → ℕ
primary_key_from i [] = 255
primary_key_from i (col ∷ cols) =
    let rest = primary_key_from (i + 1) cols in if col.is_primary_key then i else rest

unfoldable pub new_schema : SqlCreateTable → ℕ → TableSchema
unfolding primary_key_from
new_schema stmt btree_root = record {
  name = take 63 stmt.table_name;
  column_count = stmt.column_count;
  columns = stmt.columns ++ replicate (32 - length stmt.columns) empty_column;
  primary_key_index = primary_key_from 0 stmt.columns;
  padding = 0;
  btree_root = btree_root;
  next_rowid = 1;
  row_count = 0;
}

-- What the list of tables takes of an entry and of its page.
abbrev value_of_entry : Option (ℕ × ℕ) → ℕ
value_of_entry none = 0
value_of_entry (some (key, value)) = value

unfoldable name_of : Bool → Option (List ℕ) → List (List ℕ)
unfolding deserialize_schema
name_of big none = []
name_of big (some buffer) = take 63 (deserialize_schema big buffer).name ∷ []

module _ {dos : Dos} {granted : Bool} where
  -- A step of the catalog's tree.
  abbrev pub on_tree : {A : Type 0} → Op (Tree dos granted) A → Op (Catalog dos granted) A
  on_tree m cat = let (tree, result) = m cat.tree in (record cat { tree = tree }, result)

  unfoldable pub read_page : ℕ → Op (Tree dos granted) (List ℕ)
  read_page page t =
      let (pager, bytes) = pager_read_page dos page t.txn.cache.pager in
      (with_cache t (record (t.txn.cache) { pager = pager }), bytes)

  -- A tree of its own for a table; what it does to the pages stays.
  unfoldable pub create_tree : Op (Tree dos granted) ℕ
  unfolding btree_create
  create_tree t = let (tree, root) = btree_create t.txn in (record t { txn = tree.txn }, root)

  -- The root is known to the catalog and to the header of the file.
  unfoldable pub start_catalog : Tree dos granted × Option ℕ → Txn dos granted ⊎ Catalog dos granted
  start_catalog (t, none) = inl t.txn
  start_catalog (t, some root) = inr record {
    tree = with_cache t (record (t.txn.cache) {
      pager = pager_set_catalog_root dos granted root t.txn.cache.pager;
    });
    catalog_root = root;
  }

  unfoldable pub open_catalog :
      Txn dos granted → ℕ → Option (Tree dos granted) → Txn dos granted ⊎ Catalog dos granted
  open_catalog txn root none = inl txn
  open_catalog txn root (some t) = inr record { tree = t; catalog_root = root }

  -- The catalog, or what is left of the transaction's state where the call returns -1.
  unfoldable pub catalog_init : Txn dos granted → Txn dos granted ⊎ Catalog dos granted
  unfolding start_catalog open_catalog btree_create btree_open
  catalog_init txn =
      let root = pager_get_catalog_root dos txn.cache.pager in
      if root == 0
      then start_catalog (btree_create txn)
      else open_catalog txn root (btree_open txn root)

  abbrev pub absent : {A : Type 0} → Option A → Op (Catalog dos granted) (Unit {0})
  absent none = return tt
  absent (some a) = fail

  unfoldable pub catalog_create_table :
      Bool → ℕ → SqlCreateTable → Op (Catalog dos granted) (Unit {0})
  unfolding catalog_hash_name new_schema create_tree serialize_schema btree_search allocate_page
      write_page btree_insert
  catalog_create_table big levels stmt = do
    existing ← optionally (on_tree (btree_search levels (catalog_hash_name stmt.table_name)))
    absent existing
    btree_root ← on_tree create_tree
    schema_page ← on_tree allocate_page
    on_tree (write_page schema_page (serialize_schema big (new_schema stmt btree_root)))
    on_tree (btree_insert levels (catalog_hash_name stmt.table_name) schema_page)

  unfoldable pub catalog_get_table : Bool → ℕ → List ℕ → Op (Catalog dos granted) TableSchema
  unfolding catalog_hash_name read_page deserialize_schema btree_search
  catalog_get_table big levels table_name = do
    schema_page ← on_tree (btree_search levels (catalog_hash_name table_name))
    buffer ← on_tree (read_page schema_page)
    return (deserialize_schema big buffer)

  unfoldable pub catalog_drop_table : ℕ → List ℕ → Op (Catalog dos granted) (Unit {0})
  unfolding catalog_hash_name btree_search btree_delete
  catalog_drop_table levels table_name = do
    schema_page ← on_tree (btree_search levels (catalog_hash_name table_name))
    on_tree (btree_delete levels (catalog_hash_name table_name))

  unfoldable pub catalog_update_table : Bool → ℕ → TableSchema → Op (Catalog dos granted) (Unit {0})
  unfolding catalog_hash_name serialize_schema btree_search write_page
  catalog_update_table big levels schema = do
    schema_page ← on_tree (btree_search levels (catalog_hash_name schema.name))
    on_tree (write_page schema_page (serialize_schema big schema))

  -- The names behind the cursor, at most `max_tables`, in at most `rounds` rounds. A schema whose page
  -- cannot be read is left out.
  unfoldable pub list_from : Bool → ℕ → ℕ → Cursor → Op (Catalog dos granted) (List (List ℕ))
  unfolding read_page name_of btree_cursor_get btree_cursor_next btree_cursor_valid
  list_from big zero max_tables cursor = return []
  list_from big (suc rounds) max_tables cursor =
      let entry = btree_cursor_get cursor in
      let go_on = (do
        buffer ← optionally (on_tree (read_page (value_of_entry entry)))
        (moved, more) ← on_tree (btree_cursor_next cursor)
        let left = max_tables - length (name_of big buffer)
        let rest = list_from big rounds left moved
        names ← if more then rest else return []
        return (name_of big buffer ++ names)) in
      if max_tables == 0 then return [] else if btree_cursor_valid cursor then go_on else return []

  unfoldable pub list_started :
      Bool → ℕ → ℕ → Option Cursor → Op (Catalog dos granted) (List (List ℕ))
  unfolding list_from
  list_started big rounds max_tables none = return []
  list_started big rounds max_tables (some cursor) = list_from big rounds max_tables cursor

  unfoldable pub catalog_list_tables : Bool → ℕ → ℕ → ℕ → Op (Catalog dos granted) (List (List ℕ))
  unfolding list_started btree_cursor_first
  catalog_list_tables big levels rounds max_tables = do
    started ← optionally (on_tree (btree_cursor_first levels))
    list_started big rounds max_tables started
