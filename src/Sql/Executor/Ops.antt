-- ===== src/Sql/Executor/Ops.antt =====
-- The statements CREATE TABLE, DROP TABLE and INSERT, of src/sql/executor.c.
-- The executor's pager and cache are its catalog's; its transaction is not used, and the rows that a
-- SELECT keeps are left out. What `row_clear` and `btree_close` free is not modelled, nor are the
-- bytes that a row of more than 4084 bytes writes behind its page.
use amidb.Base.{
  ℕ, ◌+◌, ◌%◌, ◌^◌, Bool, true, false, Option, none, some, List, ◌⊎◌, inl, inr, if◌then◌else◌, ltb,
  ◌==◌, take, splice,
}
use amidb.Base.Effect.{
  Op, ◌>>=◌, ◌>>◌, return, optionally, otherwise, attempt, gets, modifies, and_then,
}
use amidb.Os.File.{Dos}
use amidb.Storage.PageIo.{pager_io}
use amidb.Storage.Cache.Defs.{change, cache_mark_dirty}
use amidb.Storage.Row.Defs.{Row, row_init, row_serialize}
use amidb.Storage.Btree.Tree.Ops.{Tree, with_cache, get_page, unpin_page, allocate_page}
use amidb.Storage.Btree.Tree.Search.{btree_search}
use amidb.Storage.Btree.Tree.Insert.{btree_open, btree_insert}
use amidb.Sql.Parser.Ast.{SqlCreateTable, SqlDropTable, SqlInsert}
use amidb.Sql.Catalog.Schema.{TableSchema}
use amidb.Sql.Catalog.Ops.{
  Catalog, on_tree, catalog_create_table, catalog_drop_table, catalog_get_table,
  catalog_update_table,
}
use amidb.Sql.Executor.Values.{
  Message, no_error, empty_table_name, table_exists, no_such_table, count_mismatch, not_serialized,
  no_page, no_cached_page, no_tree, duplicate_key, not_inserted, not_updated, is_empty, check_table,
  set_values, primary_key,
}

pub record Executor (dos : Dos) (granted : Bool) : Type 0 where
  pub catalog : Catalog dos granted
  pub error_msg : Message
  pub has_error : Bool

module _ {dos : Dos} {granted : Bool} where
  unfoldable pub executor_init : Catalog dos granted → Executor dos granted
  executor_init catalog = record { catalog = catalog; error_msg = no_error; has_error = false }

  unfoldable pub executor_get_error : Executor dos granted → Message
  executor_get_error exec = exec.error_msg

  abbrev pub with_error : Message → Executor dos granted → Executor dos granted
  with_error m exec = record exec { error_msg = m; has_error = true }

  -- The message is set, and the call returns -1.
  abbrev pub stop : {A : Type 0} → Message → Op (Executor dos granted) A
  stop m exec = (with_error m exec, none)

  abbrev pub or_stop :
      {A : Type 0} → Op (Executor dos granted) A → Message → Op (Executor dos granted) A
  or_stop op m = otherwise op (modifies (with_error m))

  abbrev pub told : {A : Type 0} → Message ⊎ A → Op (Executor dos granted) A
  told (inl m) = stop m
  told (inr a) = return a

  abbrev pub present : {A : Type 0} → Message → Option A → Op (Executor dos granted) A
  present m none = stop m
  present m (some a) = return a

  -- A step of the catalog, and a step on the pages below it.
  abbrev pub on_catalog : {A : Type 0} → Op (Catalog dos granted) A → Op (Executor dos granted) A
  on_catalog m exec =
      let (catalog, result) = m exec.catalog in (record exec { catalog = catalog }, result)

  abbrev pub on_pages : {A : Type 0} → Op (Tree dos granted) A → Op (Executor dos granted) A
  on_pages m = on_catalog (on_tree m)

  unfoldable pub create_checked :
      Bool → ℕ → SqlCreateTable → Option Message → Op (Executor dos granted) (Unit {0})
  unfolding catalog_create_table
  create_checked big levels create_stmt (some m) = stop m
  create_checked big levels create_stmt none =
      or_stop (on_catalog (catalog_create_table big levels create_stmt))
        (table_exists create_stmt.table_name)

  unfoldable pub executor_create_table :
      Bool → ℕ → SqlCreateTable → Op (Executor dos granted) (Unit {0})
  unfolding check_table create_checked
  executor_create_table big levels create_stmt =
      create_checked big levels create_stmt (check_table create_stmt)

  unfoldable pub executor_drop_table : ℕ → SqlDropTable → Op (Executor dos granted) (Unit {0})
  unfolding is_empty catalog_drop_table
  executor_drop_table levels drop_stmt =
      if is_empty drop_stmt.table_name
      then stop empty_table_name
      else or_stop (on_catalog (catalog_drop_table levels drop_stmt.table_name))
          (no_such_table drop_stmt.table_name)

  -- The row's bytes go behind the 12 bytes of the page's header.
  unfoldable pub store_row : ℕ → ℕ → List ℕ → Tree dos granted → Tree dos granted
  store_row i page bytes t =
      let stored =
        change (pager_io dos granted) i (λ e. record e { bytes = splice e.bytes 12 bytes })
          t.txn.cache in
      with_cache t (cache_mark_dirty (pager_io dos granted) page stored).0

  unfoldable pub write_row : List ℕ → Op (Executor dos granted) ℕ
  unfolding store_row allocate_page get_page unpin_page
  write_row bytes = do
    row_page ← or_stop (on_pages allocate_page) no_page
    i ← or_stop (on_pages (get_page row_page)) no_cached_page
    on_pages (modifies (store_row i row_page bytes))
    on_pages (unpin_page row_page)
    return row_page

  unfoldable pub new_root : Bool → Op (Tree dos granted) (Message ⊎ ℕ)
  new_root true = gets λ t. inr t.root_page
  new_root false = return (inl not_inserted)

  unfoldable pub insert_new : ℕ → ℕ → ℕ → Option ℕ → Op (Tree dos granted) (Message ⊎ ℕ)
  unfolding new_root btree_insert
  insert_new levels key row_page (some existing_page) = return (inl (duplicate_key key))
  insert_new levels key row_page none = do
    done ← attempt (btree_insert levels key row_page)
    new_root done

  -- On the table's tree; the result is the root after the insertion.
  unfoldable pub insert_key : ℕ → ℕ → ℕ → Op (Tree dos granted) (Message ⊎ ℕ)
  unfolding insert_new btree_search
  insert_key levels key row_page = do
    existing ← optionally (btree_search levels key)
    insert_new levels key row_page existing

  -- The table's tree shares the cache of the catalog's tree.
  unfoldable pub on_table :
      Option (Tree dos granted) → Op (Tree dos granted) (Message ⊎ ℕ) → Op (Executor dos granted) ℕ
  on_table none m exec = stop no_tree exec
  on_table (some table_tree) m exec =
      let (t, result) = m table_tree in
      let tree = record (exec.catalog.tree) { txn = t.txn } in
      and_then (record exec { catalog = record (exec.catalog) { tree = tree } }, result) told

  unfoldable pub index_row : ℕ → ℕ → ℕ → ℕ → Op (Executor dos granted) ℕ
  unfolding on_table insert_key btree_open
  index_row levels btree_root key row_page exec =
      on_table (btree_open exec.catalog.tree.txn btree_root) (insert_key levels key row_page) exec

  -- For an explicit PRIMARY KEY the result of the update is ignored.
  unfoldable pub count_row : Bool → ℕ → TableSchema → ℕ → Op (Executor dos granted) (Unit {0})
  unfolding catalog_update_table
  count_row big levels schema btree_root =
      let counted = record schema {
        btree_root = btree_root;
        row_count = (schema.row_count + 1) % 2 ^ 32;
      } in
      let numbered = record counted { next_rowid = (schema.next_rowid + 1) % 2 ^ 32 } in
      if ltb schema.primary_key_index 128
      then (do
        ignored ← optionally (on_catalog (catalog_update_table big levels counted))
        return tt)
      else or_stop (on_catalog (catalog_update_table big levels numbered)) not_updated

  unfoldable pub insert_built : Bool → ℕ → TableSchema → Row → Op (Executor dos granted) (Unit {0})
  unfolding primary_key row_serialize write_row index_row count_row
  insert_built big levels schema row = do
    key ← told (primary_key schema row)
    bytes ← present not_serialized (row_serialize row 4096)
    row_page ← write_row bytes
    btree_root ← index_row levels schema.btree_root key row_page
    count_row big levels schema btree_root

  unfoldable pub insert_row :
      Bool → ℕ → (ℕ → ℕ → Bool) → SqlInsert → TableSchema → Op (Executor dos granted) (Unit {0})
  unfolding set_values insert_built
  insert_row big levels mem_alloc insert_stmt schema = do
    row ← told (
        set_values mem_alloc 0 (take insert_stmt.value_count insert_stmt.values) schema.columns
          row_init)
    insert_built big levels schema row

  unfoldable pub executor_insert :
      Bool → ℕ → (ℕ → ℕ → Bool) → SqlInsert → Op (Executor dos granted) (Unit {0})
  unfolding insert_row catalog_get_table
  executor_insert big levels mem_alloc insert_stmt = do
    schema ←
        or_stop (on_catalog (catalog_get_table big levels insert_stmt.table_name))
          (no_such_table insert_stmt.table_name)
    if insert_stmt.value_count == schema.column_count
        then insert_row big levels mem_alloc insert_stmt schema
        else stop (count_mismatch schema.column_count insert_stmt.value_count)
