-- ===== src/Os/File.antt =====
-- src/os/file_amiga.c: files over the calls of dos.library, which the program does not implement.
-- A handle stands for the open file with its position, so each call returns the handle anew.
pub mod Laws
pub mod Disk
mod Tests
use amidb.Base.{
  ℕ, ◌+◌, ◌-◌, ◌≤◌, ◌≡◌, Bool, true, false, Option, none, some, List, ◌++◌, length, take, drop,
  ◌==◌, if◌then◌else◌,
}

-- The third argument of `Seek`.
pub data Origin : Type 0 where
  beginning current end : Origin

-- `read` gives the bytes and `write` their number, `seek` the position before; `none` is a negative
-- result.
pub record Dos : Type 1 where
  pub Handle : Type 0
  pub read : Handle → ℕ → Handle × Option (List ℕ)
  pub write : Handle → List ℕ → Handle × Option ℕ
  pub seek : Handle → ℕ → Origin → Handle × Option ℕ

module _ (dos : Dos) where
  unfoldable pub file_read : dos.Handle → ℕ → dos.Handle × Option (List ℕ)
  file_read file n = dos.read file n

  -- `some n` if all n bytes were written, else -1.
  unfoldable pub file_write : dos.Handle → List ℕ → dos.Handle × Bool
  file_write file bytes =
      let (file', result) = dos.write file bytes in
      (file', elim result [ none ↦ false | some n ↦ n == length bytes ])

  unfoldable pub file_seek : dos.Handle → ℕ → Origin → dos.Handle × Bool
  file_seek file offset whence =
      let (file', result) = dos.seek file offset whence in
      (file', elim result [ none ↦ false | some _ ↦ true ])

  unfoldable pub file_tell : dos.Handle → dos.Handle × Option ℕ
  file_tell file = dos.seek file 0 current

  -- There is no flush on this system: the call succeeds and does nothing.
  unfoldable pub file_sync : dos.Handle → dos.Handle × Bool
  file_sync file = (file, true)

  -- What the second `Seek` returns is taken for the size, and the position is restored.
  unfoldable pub size_at_end : Option ℕ → ℕ → dos.Handle → dos.Handle × Option ℕ
  size_at_end none pos file = (file, none)
  size_at_end (some size) pos file = ((dos.seek file pos beginning).0, some size)

  unfoldable pub size_from : Option ℕ → dos.Handle → dos.Handle × Option ℕ
  unfolding size_at_end
  size_from none file = (file, none)
  size_from (some pos) file = let (file', size) = dos.seek file 0 end in size_at_end size pos file'

  unfoldable pub file_size : dos.Handle → dos.Handle × Option ℕ
  unfolding size_from
  file_size file = let (file', pos) = dos.seek file 0 current in size_from pos file'
