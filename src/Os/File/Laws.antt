-- ===== src/Os/File/Laws.antt =====
-- What dos.library documents of its calls, and what follows for src/os/file_amiga.c.
use amidb.Base.{
  ℕ, ◌≤◌, ◌≡◌, refl, ap, ◌∙◌, true, false, Option, none, some, List, arith, length, slice,
  overwrite,
}
use amidb.Os.File.{
  Dos, Origin, beginning, current, end, file_read, file_write, file_seek, size_at_end, size_from,
  file_size,
}

-- A file has contents and a position. Every call may fail with a negative result. Where `Seek`
-- succeeds, it returns the position before the call; where a read succeeds, it has the bytes up to
-- the end; and a write that reports all of its bytes has put them at the position.
pub record DosLaws (dos : Dos) : Type 0 where
  pub contents : dos.Handle → List ℕ
  pub position : dos.Handle → ℕ
  pub seek-contents :
      (f : dos.Handle) (n : ℕ) (o : Origin) → contents (dos.seek f n o).0 ≡ contents f
  pub seek_old :
      (f : dos.Handle) (n p : ℕ) (o : Origin) → (dos.seek f n o).1 ≡ some p → p ≡ position f
  pub seek-beginning :
      (f : dos.Handle) (n p : ℕ)
      → (dos.seek f n beginning).1 ≡ some p
      → position (dos.seek f n beginning).0 ≡ n
  pub seek-current :
      (f : dos.Handle) (p : ℕ)
      → (dos.seek f 0 current).1 ≡ some p
      → position (dos.seek f 0 current).0 ≡ position f
  pub read-contents : (f : dos.Handle) (n : ℕ) → contents (dos.read f n).0 ≡ contents f
  pub read_bytes :
      (f : dos.Handle) (n : ℕ) (bytes : List ℕ)
      → (dos.read f n).1 ≡ some bytes
      → bytes ≡ slice (position f) n (contents f)
  pub write_bytes :
      (f : dos.Handle) (bytes : List ℕ)
      → (dos.write f bytes).1 ≡ some (length bytes)
      → position f ≤ length (contents f)
      → contents (dos.write f bytes).0 ≡ overwrite (contents f) (position f) bytes

module _ (dos : Dos) (laws : DosLaws dos) where
  open laws use {contents, position, seek-contents, seek_old, seek-beginning, seek-current}
  open laws use {read_bytes, write_bytes}

  -- The position after `file_seek` has returned 0.
  file_seek-position :
      (file : dos.Handle) (offset : ℕ)
      → (file_seek dos file offset beginning).1 ≡ true
      → position (file_seek dos file offset beginning).0 ≡ offset
  unfolding file_seek
  file_seek-position file offset e = go (dos.seek file offset beginning).1 refl e
    where
      go :
          (r : Option ℕ)
          → (dos.seek file offset beginning).1 ≡ r
          → elim r [ none ↦ false | some _ ↦ true ] ≡ true
          → position (dos.seek file offset beginning).0 ≡ offset
      go none h e = cc
      go (some p) h e = seek-beginning file offset p h

  size_at_end-contents :
      (file : dos.Handle) (pos : ℕ) (r : Option ℕ)
      → ((size_at_end dos r pos file).1 ≡ r)
        × (contents (size_at_end dos r pos file).0 ≡ contents file)
  unfolding size_at_end
  size_at_end-contents file pos none = (refl, refl)
  size_at_end-contents file pos (some size) = (refl, seek-contents file pos beginning)

  size_from-contents :
      (file : dos.Handle) (r : Option ℕ) → contents (size_from dos r file).0 ≡ contents file
  unfolding size_from
  size_from-contents file none = refl
  size_from-contents file (some pos) =
      let ended = dos.seek file 0 end in
      (size_at_end-contents ended.0 pos ended.1).1 ∙ seek-contents file 0 end

  -- `file_size` returns -1 if its first or its second `Seek` fails. Else it returns the position at
  -- which the file stands, and not its size, since the second `Seek` returns the position before
  -- it. The contents stay as they were.
  pub file_size-position :
      (file : dos.Handle)
      → ((dos.seek file 0 current).1 ≡ none → (file_size dos file).1 ≡ none)
        × ((p : ℕ)
            → (dos.seek file 0 current).1 ≡ some p
            → (dos.seek (dos.seek file 0 current).0 0 end).1 ≡ none
            → (file_size dos file).1 ≡ none)
        × ((p n : ℕ)
            → (dos.seek file 0 current).1 ≡ some p
            → (dos.seek (dos.seek file 0 current).0 0 end).1 ≡ some n
            → (file_size dos file).1 ≡ some (position file))
        × (contents (file_size dos file).0 ≡ contents file)
  unfolding file_size size_from
  file_size-position file =
      let told = dos.seek file 0 current in
      let ended = dos.seek told.0 0 end in
      let from = λ (r : Option ℕ). (size_from dos r told.0).1 in
      (
        λ lost. ap from lost,
        λ p at lost. ap from at ∙ (size_at_end-contents ended.0 p ended.1).0 ∙ lost,
        λ p n at given.
            ap from at
            ∙ (size_at_end-contents ended.0 p ended.1).0
            ∙ given
            ∙ ap some (seek_old told.0 0 n end given ∙ seek-current file p at),
        size_from-contents told.0 told.1 ∙ seek-contents file 0 current,
      )

  -- A successful write through `file_write`, after a successful seek into the file.
  pub file_write-file_seek :
      (file : dos.Handle) (offset : ℕ) (bytes : List ℕ)
      → offset ≤ length (contents file)
      → (file_seek dos file offset beginning).1 ≡ true
      → (file_write dos (file_seek dos file offset beginning).0 bytes).1 ≡ true
      → contents (file_write dos (file_seek dos file offset beginning).0 bytes).0
        ≡ overwrite (contents file) offset bytes
  file_write-file_seek file offset bytes h sought e =
      let f = (file_seek dos file offset beginning).0 in
      let at = file_seek-position file offset sought in
      let same : contents f ≡ contents file =
        unfold file_seek in seek-contents file offset beginning in
      let written : (dos.write f bytes).1 ≡ some (length bytes) =
        unfold file_write in ground (arith, e) in
      unfold file_write in write_bytes f bytes written (rw (at, same) h) ∙ rw (at, same)

  -- A successful read through `file_read`, after a successful seek into the file.
  pub file_read-file_seek :
      (file : dos.Handle) (offset n : ℕ) (bytes : List ℕ)
      → (file_seek dos file offset beginning).1 ≡ true
      → (file_read dos (file_seek dos file offset beginning).0 n).1 ≡ some bytes
      → bytes ≡ slice offset n (contents file)
  file_read-file_seek file offset n bytes sought e =
      let f = (file_seek dos file offset beginning).0 in
      let at = file_seek-position file offset sought in
      let same : contents f ≡ contents file =
        unfold file_seek in seek-contents file offset beginning in
      let given : (dos.read f n).1 ≡ some bytes = unfold file_read in e in
      read_bytes f n bytes given ∙ rw (at, same) refl
