-- ===== src/Os/File/Disk.antt =====
-- A disk that takes every write, on which the assumptions about dos.library hold.
use native.Mathlib.Nat.{add-zero}
use amidb.Base.{
  ℕ, ◌+◌, ◌≤◌, ◌≡◌, refl, true, Option, none, some, List, length, slice, overwrite, if◌then◌else◌,
  leb, le→leb, arith,
}
use amidb.Os.File.{Dos, Origin, beginning, current, end, file_read, file_seek}
use amidb.Os.File.Laws.{DosLaws}

pub record Disk : Type 0 where
  pub content : List ℕ
  pub at : ℕ

-- A seek behind the end fails and leaves the position.
unfoldable pub seek_disk : Disk → ℕ → Origin → Disk × Option ℕ
seek_disk d n beginning =
    if leb n (length d.content) then (record d { at = n }, some d.at) else (d, none)
seek_disk d n current = (record d { at = d.at + n }, some d.at)
seek_disk d n end = (record d { at = length d.content + n }, some d.at)

abbrev pub disk : Dos
disk = record {
  Handle = Disk;
  read = λ d n. (record d { at = d.at + n }, some (slice d.at n d.content));
  write = λ d bytes. (
    record { content = overwrite d.content d.at bytes; at = d.at + length bytes },
    some (length bytes),
  );
  seek = seek_disk;
}

pub seek_disk-content : (d : Disk) (n : ℕ) (o : Origin) → (seek_disk d n o).0.content ≡ d.content
unfolding seek_disk
seek_disk-content d n beginning = ground arith
seek_disk-content d n current = refl
seek_disk-content d n end = refl

pub seek_disk-old : (d : Disk) (n p : ℕ) (o : Origin) → (seek_disk d n o).1 ≡ some p → p ≡ d.at
unfolding seek_disk
seek_disk-old d n p beginning e = ground (arith, e)
seek_disk-old d n p current e = cc
seek_disk-old d n p end e = cc

pub seek_disk-beginning :
    (d : Disk) (n p : ℕ) → (seek_disk d n beginning).1 ≡ some p → (seek_disk d n beginning).0.at ≡ n
unfolding seek_disk
seek_disk-beginning d n p e = ground (arith, e)

unfoldable pub disk_laws : DosLaws disk
unfolding seek_disk
disk_laws = record {
  contents = λ d. d.content;
  position = λ d. d.at;
  seek-contents = seek_disk-content;
  seek_old = seek_disk-old;
  seek-beginning = seek_disk-beginning;
  seek-current = λ f p e. add-zero _;
  read-contents = λ f n. refl;
  read_bytes = λ f n bytes e. cc;
  write_bytes = λ f bytes e h. refl;
}

-- On this disk a seek into the file and every read succeed.
pub disk-file_seek :
    (d : Disk) (n : ℕ) → n ≤ length d.content → (file_seek disk d n beginning).1 ≡ true
unfolding file_seek seek_disk
disk-file_seek d n h = ground (arith, le→leb n _ h)

pub disk-file_read : (d : Disk) (n : ℕ) → (file_read disk d n).1 ≡ some (slice d.at n d.content)
unfolding file_read
disk-file_read d n = refl
