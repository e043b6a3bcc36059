-- ===== src/Storage/PageIo.antt =====
-- What the page cache, the log and the transactions use of src/storage/pager.c, as an interface,
-- and the pager as its implementation.
use amidb.Base.{ℕ, Bool, Option, List}
use amidb.Os.File.{Dos}
use amidb.Storage.Pager.Defs.{Pager, pager_read_page, pager_write_page, pager_sync}

pub record PageIo : Type 1 where
  pub State : Type 0
  pub read_page : ℕ → State → State × Option (List ℕ)
  pub write_page : ℕ → List ℕ → State → State × Bool
  pub sync : State → State × Bool

-- `granted` is the answer of `mem_alloc` to the requests of one page.
abbrev pub pager_io : Dos → Bool → PageIo
pager_io dos granted = record {
  State = Pager dos;
  read_page = pager_read_page dos;
  write_page = pager_write_page dos granted;
  sync = pager_sync dos;
}
