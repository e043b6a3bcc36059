-- ===== src/Sql/Executor/Tests.antt =====
-- Statements on a table of a number and a text.
use amidb.Base.{◌≡◌, ◌∷◌, [], ◌⊎◌, inr, refl, true, false, none, arith, replicate}
use amidb.Os.File.Disk.{disk}
use amidb.Storage.Pager.Defs.{init_file_header}
use amidb.Storage.Row.Defs.{Row, row_init}
use amidb.Txn.Wal.Defs.{wal_create}
use amidb.Txn.Manager.Defs.{txn_create}
use amidb.Sql.Parser.Ast.{SqlCreateTable, SqlInsert, empty_value}
use amidb.Sql.Parser.State.{codes}
use amidb.Sql.Catalog.Schema.{TableSchema}
use amidb.Sql.Catalog.Ops.{empty_column, catalog_create_table}
use amidb.Sql.Executor.Values.{Message, table_exists, set_values}
use amidb.Sql.Executor.Ops.{
  Executor, executor_init, with_error, or_stop, on_catalog, insert_row, executor_create_table,
}
use amidb.Sql.Executor.Typed.{IsTyped, IsMistyped, given, insert_row-Fits}
use amidb.Sql.Executor.Refusals.{IsTable, executor_create_table-IsTable}

abbrev an_executor : Executor disk true
an_executor = executor_init record {
  tree = record {
    txn = txn_create disk true wal_create record {
      pager = record {
        file = record { content = replicate 32768 0; at = 0 };
        header = record init_file_header { page_count = 4 };
        bitmap = 7 ∷ replicate 511 0;
        read_only = false;
      };
      capacity = 1;
      count = 0;
      entries = [];
      lru_head = none;
      lru_tail = none;
    };
    joined = false;
    root_page = 1;
    num_entries = 0;
  };
  catalog_root = 1;
}

abbrev numbered_notes : TableSchema
numbered_notes = record {
  name = codes "t";
  column_count = 2;
  columns =
      record { name = codes "id"; type = 1; is_primary_key = true; not_null = false }
      ∷ record { name = codes "note"; type = 2; is_primary_key = false; not_null = false }
      ∷ replicate 30 empty_column;
  primary_key_index = 0;
  padding = 0;
  btree_root = 3;
  next_rowid = 1;
  row_count = 7;
}

-- VALUES (7, 'ok')
abbrev seven_ok : SqlInsert
seven_ok = record {
  table_name = codes "t";
  value_count = 2;
  values =
      record empty_value { type = 1; int_value = 7 }
      ∷ record empty_value { type = 2; text_value = codes "ok" }
      ∷ [];
}

insert_row-Fits_example :
    ((row : Row) × (set_values (λ c n. true) 0 (given seven_ok) numbered_notes.columns row_init
        ≡ inr row)
      × IsTyped (given seven_ok) numbered_notes.columns row)
    ⊎ (IsMistyped (given seven_ok) numbered_notes.columns
        × ((m : Message) × (insert_row true 1 (λ c n. true) seven_ok numbered_notes an_executor
              ≡ (with_error m an_executor, none))))
insert_row-Fits_example =
    insert_row-Fits disk true true 1 (λ c n. true) seven_ok numbered_notes an_executor (λ c n. refl)
      (tt, ((omega arith, (omega arith, tt)), tt)) (omega arith)

-- (id INTEGER PRIMARY KEY, note TEXT)
abbrev create_notes : SqlCreateTable
create_notes = record {
  table_name = codes "t";
  column_count = 2;
  columns =
      record { name = codes "id"; type = 1; is_primary_key = true; not_null = false }
      ∷ record { name = codes "note"; type = 2; is_primary_key = false; not_null = false }
      ∷ [];
}

executor_create_table-IsTable_example :
    (IsTable create_notes
      × (executor_create_table true 1 create_notes an_executor
          ≡ or_stop
              (on_catalog (catalog_create_table true 1 create_notes))
              (table_exists (codes "t"))
              an_executor))
    ⊎ ((¬ IsTable create_notes)
        × ((m : Message) × (executor_create_table true 1 create_notes an_executor
              ≡ (with_error m an_executor, none))))
executor_create_table-IsTable_example =
    executor_create_table-IsTable disk true true 1 create_notes an_executor
