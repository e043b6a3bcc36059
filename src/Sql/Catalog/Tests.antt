-- ===== src/Sql/Catalog/Tests.antt =====
-- A catalog with one table, whose tree is one cached leaf.
use amidb.Base.{
  ℕ, ◌^◌, ◌<◌, ◌≤◌, ◌*◌, length, ◌≡◌, refl, ap, ◌∙◌, true, false, Option, none, some, [], ◌∷◌,
  arith, replicate, length-replicate, All-replicate, splice, overwrite,
}
use amidb.Os.File.{beginning, file_write, file_seek}
use amidb.Os.File.Disk.{disk, disk_laws, seek_disk, disk-file_seek, disk-file_read}
use amidb.Util.Endian.{put_u32}
use amidb.Base.Effect.{succeeded}
use amidb.Storage.PageIo.{pager_io}
use amidb.Storage.Pager.Pages.{IsReadable, pager_write_page-length}
use amidb.Storage.Pager.Defs.{page_size, init_file_header, pager_write_page}
use amidb.Storage.Cache.Defs.{Cache, clean, blank, find_entry}
use amidb.Storage.Btree.Node.{Node, serialize_node, leaf_lookup, find_key_in_node, search_keys}
use amidb.Storage.Btree.Node.Codec.{IsStorable, deserialize_node-serialize_node}
use amidb.Storage.Btree.Tree.Ops.{write_page}
use amidb.Storage.Btree.Tree.Resident.{Holds}
use amidb.Storage.Btree.Tree.Model.{leaf}
use amidb.Txn.Wal.Defs.{wal_create}
use amidb.Txn.Manager.Defs.{txn_create}
use amidb.Sql.Parser.State.{codes}
use amidb.Sql.Catalog.Schema.{
  pad, put_host, write_column_defs, write_column_def, TableSchema, serialize_schema,
  deserialize_schema,
}
use amidb.Sql.Catalog.RoundTrip.{IsColumn, IsSchema, deserialize_schema-serialize_schema}
use amidb.Sql.Catalog.Ops.{
  Catalog, catalog_hash_name, empty_column, catalog_get_table, catalog_update_table,
}
use amidb.Sql.Catalog.Update.{
  Knows, catalog_update_table-Updated, search-eq, catalog_get_table-catalog_update_table,
}

abbrev leaf_node : Node
leaf_node = record {
  node_type = 2;
  num_keys = 1;
  parent = 0;
  next_leaf = 0;
  keys = 90856104 ∷ replicate 63 0;
  children = replicate 65 0;
  values = 2 ∷ replicate 63 0;
}

abbrev one_page : Cache (pager_io disk true)
one_page = record {
  pager = record {
    file = record { content = replicate 32768 0; at = 0 };
    header = record init_file_header { page_count = 4 };
    bitmap = 7 ∷ replicate 511 0;
    read_only = false;
  };
  capacity = 1;
  count = 1;
  entries =
      record blank {
        page_num = 1;
        state = clean;
        bytes = serialize_node leaf_node (replicate 4096 0);
      }
      ∷ [];
  lru_head = none;
  lru_tail = none;
}

abbrev one_table : Catalog disk true
one_table = record {
  tree = record {
    txn = txn_create disk true wal_create one_page;
    joined = false;
    root_page = 1;
    num_entries = 1;
  };
  catalog_root = 1;
}

hash_t : catalog_hash_name (codes "t") ≡ 90856104
unfolding catalog_hash_name
hash_t = refl

leaf_node-IsStorable : IsStorable leaf_node
leaf_node-IsStorable = record {
  type_fits = omega arith;
  num_keys_fits = omega arith;
  parent_fits = omega arith;
  next_leaf_fits = omega arith;
  keys_sized = omega (arith, length-replicate {A = ℕ} 63 0);
  children_sized = length-replicate {A = ℕ} 65 0;
  values_sized = omega (arith, length-replicate {A = ℕ} 63 0);
  keys_fit = (omega arith, All-replicate (λ n. n < 2 ^ 32) 63 0 (omega arith));
  children_fit = All-replicate (λ n. n < 2 ^ 32) 65 0 (omega arith);
  values_fit = (omega arith, All-replicate (λ n. n < 2 ^ 32) 63 0 (omega arith));
}

leaf-Holds : Holds one_table.tree 1 leaf_node
unfolding find_entry txn_create blank
leaf-Holds = record {
  entry = 0;
  found = refl;
  read =
      (deserialize_node-serialize_node leaf_node (replicate 4096 0) leaf_node-IsStorable
        (length-replicate {A = ℕ} 4096 0)).0;
}

one_table-Knows : Knows one_table (leaf 1 leaf_node) 1 (codes "t") 2
unfolding leaf_lookup find_key_in_node search_keys
one_table-Knows = record {
  root = refl;
  within = tt;
  ordered = (
    λ i j lt inside. absurd (omega arith),
    λ j lt. let zeroth : j ≡ 0 = omega arith in rw zeroth (omega arith, omega arith),
  );
  stored = (leaf-Holds, refl);
  entry = rw hash_t (0, omega arith, refl, refl);
}

-- INTEGER key and a text, with one row less than it has now.
abbrev schema_t : TableSchema
schema_t = record {
  name = codes "t";
  column_count = 2;
  columns =
      record { name = codes "id"; type = 1; is_primary_key = true; not_null = false }
      ∷ record { name = codes "note"; type = 2; is_primary_key = false; not_null = false }
      ∷ replicate 30 empty_column;
  primary_key_index = 0;
  padding = 0;
  btree_root = 3;
  next_rowid = 1;
  row_count = 7;
}

schema_t-IsSchema : IsSchema schema_t
unfolding IsSchema
schema_t-IsSchema = (
  omega arith,
  refl,
  (omega arith, (omega arith, All-replicate IsColumn 30 empty_column (omega arith))),
  omega arith,
  omega arith,
  omega arith,
  omega arith,
  omega arith,
  omega arith,
)

deserialize_schema-serialize_schema_example :
    deserialize_schema true (splice (serialize_schema true schema_t) 0 (1 ∷ 2 ∷ [])) ≡ schema_t
unfolding splice serialize_schema
deserialize_schema-serialize_schema_example =
    deserialize_schema-serialize_schema true schema_t
      (splice (serialize_schema true schema_t) 0 (1 ∷ 2 ∷ [])) schema_t-IsSchema refl

abbrev updated : Catalog disk true × Option (Unit {0})
updated = catalog_update_table true 1 schema_t one_table

page_written :
    (pager_write_page disk true 2 (serialize_schema true schema_t) one_page.pager).1 ≡ true
unfolding pager_write_page serialize_schema pad put_host write_column_defs write_column_def put_u32
    splice overwrite file_write file_seek seek_disk init_file_header
page_written = refl

update_succeeds : updated.1 ≡ some tt
unfolding catalog_update_table write_page txn_create
update_succeeds =
    let (t, found, same) = search-eq one_table (leaf 1 leaf_node) 1 2 (codes "t") one_table-Knows in
    let bytes = serialize_schema true schema_t in
    rw found (
      ap (λ p. succeeded (pager_write_page disk true 2 bytes p).1) same.cached.pagers
      ∙ ap succeeded page_written)

inside : 2 * page_size ≤ length one_page.pager.file.content
inside = omega (arith, length-replicate {0} 32768)

sought : (file_seek disk one_page.pager.file (2 * page_size) beginning).1 ≡ true
sought = disk-file_seek one_page.pager.file (2 * page_size) inside

updated-IsReadable : IsReadable disk disk_laws 2 updated.0.tree.txn.cache.pager
unfolding disk_laws txn_create
updated-IsReadable =
    let pager = updated.0.tree.txn.cache.pager in
    let u =
      catalog_update_table-Updated true one_table updated.0 (leaf 1 leaf_node) 1 2 schema_t
        one_table-Knows (ap (λ o. (updated.0, o)) update_succeeds) in
    let longer =
      pager_write_page-length disk disk_laws true 2 (serialize_schema true schema_t) one_page.pager
        pager u.written inside sought in
    record {
      sought = disk-file_seek pager.file (2 * page_size) (omega (arith, inside, longer));
      bytes = _;
      read = disk-file_read (file_seek disk pager.file (2 * page_size) beginning).0 page_size;
    }

catalog_get_table-catalog_update_table_example :
    (catalog_get_table true 1 (codes "t") updated.0).1 ≡ some schema_t
unfolding disk_laws txn_create init_file_header
catalog_get_table-catalog_update_table_example =
    catalog_get_table-catalog_update_table disk disk_laws true true one_table updated.0
      (leaf 1 leaf_node) 1 2 schema_t one_table-Knows (ap (λ o. (updated.0, o)) update_succeeds)
      schema_t-IsSchema (omega arith) (omega arith) inside sought updated-IsReadable
