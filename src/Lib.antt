-- ===== src/Lib.antt =====
-- AmiDB, a small SQL database for the Amiga, in C: the storage layer, the transactions,
-- and SQL up to the statements that create tables, drop them and insert rows.
--
-- The program's parts and how they interact. The executor runs the statements of the parser on the
-- catalog and the B+ tree. Those take pages from the page cache (src/storage/cache.c), which reads
-- and writes them through the pager (src/storage/pager.c) on one file (src/os/file_amiga.c). A
-- transaction (src/txn/txn.c) marks pages of the cache as its own, and its commit writes them to the
-- write-ahead log (src/txn/wal.c), in a region of the same file, before it writes them to their
-- places. Rows (src/storage/row.c) are what the B+ tree's pages carry. Modelled are the layers from
-- the file up to the transactions and the B+ tree, the rows, the lexer, the parser, the catalog, and
-- the executor's CREATE TABLE, DROP TABLE and INSERT.
--
-- Where each part stands:
--   Base          lists, tests on numbers, exclusive or, and `memcpy` into buffers
--   Util.Endian   src/util/endian.h; put_u16 ... get_u64 carry the names of the source
--   Util.Crc32    src/util/crc32.c; the table is a list, `crc32_update` and `crc32_compute`
--   Util.Hash     src/util/hash.c
--   Os.File       src/os/file_amiga.c over a record of the calls of dos.library
--   Storage.Row   src/storage/row.h and row.c; `*row` is passed and returned
--   Storage.Pager src/storage/pager.h and pager.c, the operations on an open pager
--   Storage.PageIo   what the layers above use of the pager, as an interface
--   Storage.Cache    src/storage/cache.h and cache.c over that interface; a pointer to an entry is
--                    its index in the array
--   Storage.Btree    src/storage/btree.h and btree.c: Node has the nodes, their bytes, the search in a
--                    node and what insertion and deletion do to it; Moves has the splits, the loans and
--                    the merges; Tree has the operations on pages, in steps of the monad Base.Effect
--   Txn.Wal       src/txn/wal.h and wal.c: the buffer, its records, the flush and the recovery
--   Txn.Open      pager_open and pager_close of src/storage/pager.c, behind the recovery they call
--   Txn.Manager   src/txn/txn.h and txn.c over the cache, the log and the pager
--   Sql.Lexer     src/sql/lexer.h and lexer.c; the characters from the position on are a list
--   Sql.Parser    src/sql/parser.h (Ast) and parser.c (State, Statements, Select), in steps of the
--                 monad Base.Effect; Grammar is an independent description of the statements, by
--                 syntax trees, their words, and what they mean; Reads and the Complete files run the
--                 parser over words, Takes and the Sound files show what it took
--   Sql.Catalog   src/sql/catalog.h and catalog.c: Schema has a schema's page, from the structure as
--                 the 68000 lays it out; Ops has the operations over the tree and the pager
--   Sql.Executor  src/sql/executor.h and executor.c; an error message is what it is printed from
--
-- How state is modelled. A structure is a record, an operation a function from the state before to
-- the state after with its return value. Bytes are numbers below 256 and a buffer is the list of its
-- bytes; unsigned integers wrap at their width, which is written out. A null pointer test on an
-- argument that the callers never pass as NULL has no counterpart.
--
-- Parameters. dos.library is the record `Dos`; what is documented of it is `DosLaws`, by which each
-- call may fail, and which holds of the disk in Os.File.Disk. That a call succeeds is a condition
-- of its own where it is needed, as in `IsReadable` for the reads of a page. Whether memory is granted is an argument of the operations that
-- allocate; where a structure itself is allocated, the allocation is taken to succeed.
--
-- Bounds and fuel. The search for a victim in the cache follows the list of entries for at most one
-- step more than the cache has entries; a list without a cycle is no longer than that. Each pass of the
-- recovery has fuel for one round more than the log has records, and the search in a node for one more
-- than it has keys; a pass or a search without fuel has no result. The operations of the tree that go down or up it take the number of levels.
-- A loop of the lexer takes the characters that are left. The parser's loops count up to 32, and its
-- argument is what is left of that. The list of the tables takes a number of rounds.
--
-- Not modelled: the executor's SELECT, which prints its rows, its UPDATE and DELETE, which the parser
-- never yields, the shell, and the memory statistics.
pub mod Base
pub mod Util
pub mod Os
pub mod Storage
pub mod Txn
pub mod Sql
