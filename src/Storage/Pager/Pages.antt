-- ===== src/Storage/Pager/Pages.antt =====
-- Pages and the header on disk, of src/storage/pager.c.
use mathlib.Core.Bool.{false≢true}
use native.Mathlib.Decide.{dec_lt}
use amidb.Base.{
  ==_iff, leb-false, ℕ, ◌+◌, ◌*◌, ◌/◌, ◌%◌, ◌^◌, ◌≤◌, ◌<◌, ◌≡◌, ◌≢◌, refl, sym, ap, ◌∙◌, Bool, true,
  false, not, ◌||◌, none, some, List, [], ◌∷◌, ◌++◌, arith, if◌then◌else◌, leb, ◌==◌, length, All,
  take, drop, splice, slice, overwrite, length-splice, slice-splice_self, slice-splice_before,
  slice-splice_after, slice-overwrite_self, slice-overwrite_before, slice-overwrite_after,
  length-overwrite, All-take, All-drop, All-splice,
}
use amidb.Os.File.{Dos, beginning, file_read, file_write, file_seek}
use amidb.Os.File.Laws.{DosLaws, file_write-file_seek, file_read-file_seek}
use amidb.Util.Endian.{IsByte, put_u32, get_u32}
use amidb.Util.Crc32.{crc32_compute}
use amidb.Util.Crc32.Bitwise.{crc32_update-lt}
use amidb.Storage.Pager.Defs.{
  Header, Pager, page_size, max_pages, serialize_header, deserialize_header, stamp_page, check_page,
  write_at, pager_read_page, pager_write_page,
}

-- Every field of the header fits 32 bits.
pub record Fits (h : Header) : Type 0 where
  pub magic : h.magic < 2 ^ 32
  pub version : h.version < 2 ^ 32
  pub page_size : h.page_size < 2 ^ 32
  pub page_count : h.page_count < 2 ^ 32
  pub first_free_page : h.first_free_page < 2 ^ 32
  pub root_page : h.root_page < 2 ^ 32
  pub wal_offset : h.wal_offset < 2 ^ 32
  pub flags : h.flags < 2 ^ 32
  pub wal_head : h.wal_head < 2 ^ 32
  pub wal_tail : h.wal_tail < 2 ^ 32
  pub catalog_root : h.catalog_root < 2 ^ 32

word :
    (v : ℕ)
    → v < 2 ^ 32
    → v % 256 + v / 2 ^ 8 % 256 * 2 ^ 8 + v / 2 ^ 16 % 256 * 2 ^ 16 + v / 2 ^ 24 % 256 * 2 ^ 24 ≡ v
word v h = omega arith

-- A header whose fields fit 32 bits is read back from its 64 bytes as it was written, whatever
-- follows them.
pub deserialize_header-serialize_header :
    (h : Header) (rest : List ℕ) → Fits h → deserialize_header (serialize_header h ++ rest) ≡ h
unfolding deserialize_header serialize_header put_u32 get_u32
deserialize_header-serialize_header h rest fits = λ i. record {
  magic = word h.magic fits.magic i;
  version = word h.version fits.version i;
  page_size = word h.page_size fits.page_size i;
  page_count = word h.page_count fits.page_count i;
  first_free_page = word h.first_free_page fits.first_free_page i;
  root_page = word h.root_page fits.root_page i;
  wal_offset = word h.wal_offset fits.wal_offset i;
  flags = word h.flags fits.flags i;
  wal_head = word h.wal_head fits.wal_head i;
  wal_tail = word h.wal_tail fits.wal_tail i;
  catalog_root = word h.catalog_root fits.catalog_root i;
}

get_u32-take : (bs : List ℕ) → get_u32 (take 4 bs) ≡ get_u32 bs
unfolding get_u32
get_u32-take [] = refl
get_u32-take (a ∷ []) = refl
get_u32-take (a ∷ b ∷ []) = refl
get_u32-take (a ∷ b ∷ c ∷ []) = refl
get_u32-take (a ∷ b ∷ c ∷ d ∷ rest) = refl

put_u32-IsByte : (v : ℕ) → All IsByte (put_u32 v)
unfolding put_u32
put_u32-IsByte v = omega arith

get_u32-put_u32_self : (v : ℕ) → v < 2 ^ 32 → get_u32 (put_u32 v) ≡ v
unfolding get_u32 put_u32
get_u32-put_u32_self v h = word v h

length-put_u32 : (v : ℕ) → length (put_u32 v) ≡ 4
unfolding put_u32
length-put_u32 v = refl

pub length-stamp_page : (n : ℕ) (bs : List ℕ) → length (stamp_page n bs) ≡ length bs
unfolding stamp_page
length-stamp_page n bs = length-splice _ 8 _ ∙ length-splice bs 0 (put_u32 n)

three_checks :
    (a b c : Bool) (page : List ℕ)
    → a ≡ true
    → b ≡ true
    → c ≡ true
    → (if not a then none else if not b then none else if not c then none else some page)
      ≡ some page
three_checks a b c page p q r = ground arith

check_page-eq-some :
    (n : ℕ) (page : List ℕ)
    → length page ≡ page_size
    → get_u32 page ≡ n
    → get_u32 (drop 8 page) ≡ crc32_compute (slice 12 4084 page)
    → check_page n (some page) ≡ some page
unfolding check_page
check_page-eq-some n page full number sum =
    let checksum = crc32_compute (slice 12 4084 page) in
    three_checks (length page == page_size) (get_u32 page == n) (get_u32 (drop 8 page) == checksum)
      page ((==_iff _ _).1 full) ((==_iff _ _).1 number) ((==_iff _ _).1 sum)

module _ (n : ℕ) (bs : List ℕ) (fits : n < 2 ^ 32) (bytes : All IsByte bs)
    (full : length bs ≡ page_size) where
  abbrev numbered : List ℕ
  numbered = splice bs 0 (put_u32 n)

  abbrev checksum : ℕ
  checksum = crc32_compute (slice 12 4084 numbered)

  checksum-lt : checksum < 2 ^ 32
  unfolding crc32_compute
  checksum-lt = crc32_update-lt 0 _ (omega arith) (
      All-take IsByte 4084 (drop 12 numbered)
        (All-drop IsByte 12 numbered (All-splice IsByte bs 0 (put_u32 n) bytes (put_u32-IsByte n))))

  -- The number, the checksum and the checked bytes of a stamped page.
  stamp_page_fields :
      (get_u32 (stamp_page n bs) ≡ n)
      × (get_u32 (drop 8 (stamp_page n bs)) ≡ checksum)
      × (slice 12 4084 (stamp_page n bs) ≡ slice 12 4084 numbered)
  unfolding stamp_page put_u32
  stamp_page_fields =
      let page = splice numbered 8 (put_u32 checksum) in
      let first : slice 0 4 page ≡ put_u32 n =
        slice-splice_before numbered 8 (put_u32 checksum) 0 4 (omega arith)
        ∙ slice-splice_self bs 0 (put_u32 n) (omega (arith, length-put_u32 n)) in
      let second : slice 8 4 page ≡ put_u32 checksum =
        slice-splice_self numbered 8 (put_u32 checksum)
          (omega (arith, length-put_u32 checksum, length-splice bs 0 (put_u32 n))) in
      (
        sym (get_u32-take page) ∙ ap get_u32 first ∙ get_u32-put_u32_self n fits,
        sym (get_u32-take (drop 8 page))
            ∙ ap get_u32 second
            ∙ get_u32-put_u32_self checksum checksum-lt,
        slice-splice_after numbered 8 (put_u32 checksum) 12 4084
            (omega (arith, length-put_u32 checksum)),
      )

  check_page-stamp_page : check_page n (some (stamp_page n bs)) ≡ some (stamp_page n bs)
  check_page-stamp_page =
      let (number, sum, rest) = stamp_page_fields in
      check_page-eq-some n (stamp_page n bs) (length-stamp_page n bs ∙ full) number
        (sum ∙ ap crc32_compute (sym rest))

module _ (dos : Dos) (laws : DosLaws dos) where
  open laws use {contents}

  -- The Seek and the Read of `pager_read_page` do not fail.
  pub record IsReadable (q : ℕ) (pager : Pager dos) : Type 0 where
    pub sought : (file_seek dos pager.file (q * page_size) beginning).1 ≡ true
    pub bytes : List ℕ
    pub read :
        (file_read dos (file_seek dos pager.file (q * page_size) beginning).0 page_size).1
        ≡ some bytes

  pager_read_page-contents :
      (q : ℕ) (pager : Pager dos)
      → IsReadable q pager
      → pager.header.page_count ≤ max_pages
      → q < pager.header.page_count
      → (pager_read_page dos q pager).1
        ≡ check_page q (some (slice (q * page_size) page_size (contents pager.file)))
  unfolding pager_read_page
  pager_read_page-contents q pager readable counts counted =
      let offset : q * page_size % 2 ^ 32 ≡ q * page_size = omega arith in
      let bytes =
        (file_read dos (file_seek dos pager.file (q * page_size % 2 ^ 32) beginning).0
          page_size).1 in
      let counting : leb pager.header.page_count q ≡ false = leb-false _ _ counted in
      rw counting (
        ap (check_page q) (
          ap (λ o. (file_read dos (file_seek dos pager.file o beginning).0 page_size).1) offset
          ∙ readable.read
          ∙ ap some (
              file_read-file_seek dos laws pager.file (q * page_size) page_size readable.bytes
                readable.sought readable.read)))

  -- A write that succeeds was not refused.
  refused :
      (b : Bool) (pager : Pager dos) {after : Pager dos} {r : Pager dos × Bool}
      → (if b then (pager, false) else r) ≡ (after, true)
      → (r.0 ≡ after) × (r.1 ≡ true)
  refused true pager e = absurd (false≢true (ap (λ t. t.1) e))
  refused false pager e = (ap (λ t. t.0) e, ap (λ t. t.1) e)

  pager_write_page-eq-true :
      (granted : Bool) (n : ℕ) (bs : List ℕ) (pager after : Pager dos)
      → pager_write_page dos granted n bs pager ≡ (after, true)
      → n * page_size ≤ length (contents pager.file)
      → (file_seek dos pager.file (n * page_size) beginning).1 ≡ true
      → (contents after.file ≡ overwrite (contents pager.file) (n * page_size) (stamp_page n bs))
        × (after.header ≡ pager.header)
  unfolding pager_write_page write_at
  pager_write_page-eq-true granted n bs pager after e within sought =
      let page = stamp_page n bs in
      let result = file_write dos (file_seek dos pager.file (n * page_size) beginning).0 page in
      let (same, done) =
        refused (pager.read_only || leb max_pages n || not granted) pager
          {r = (record pager { file = result.0 }, result.1)} e in
      (
        ap (λ p. contents p.file) (sym same)
            ∙ file_write-file_seek dos laws pager.file (n * page_size) page within sought done,
        ap (λ p. p.header) (sym same),
      )

  -- A successful write does not shorten the file.
  pub pager_write_page-length :
      (granted : Bool) (n : ℕ) (bs : List ℕ) (pager after : Pager dos)
      → pager_write_page dos granted n bs pager ≡ (after, true)
      → n * page_size ≤ length (contents pager.file)
      → (file_seek dos pager.file (n * page_size) beginning).1 ≡ true
      → length (contents pager.file) ≤ length (contents after.file)
  pager_write_page-length granted n bs pager after e within sought =
      let (written, header) = pager_write_page-eq-true granted n bs pager after e within sought in
      omega (
        arith,
        ap length written,
        length-overwrite (contents pager.file) (n * page_size) (stamp_page n bs) within,
      )

  -- A page written with success, the Seek before the write included, is read back with its number and
  -- checksum in place, if the page is counted and begins within the file; and every other counted page
  -- that ends within the file reads as it did before. The Seek and the Read of each of these reads
  -- are to succeed, before the write and after it; dos.library behaves as documented.
  pub pager_read_page-pager_write_page :
      (granted : Bool) (n : ℕ) (bs : List ℕ) (pager after : Pager dos)
      → pager_write_page dos granted n bs pager ≡ (after, true)
      → pager.header.page_count ≤ max_pages
      → n < pager.header.page_count
      → n * page_size ≤ length (contents pager.file)
      → All IsByte bs
      → length bs ≡ page_size
      → (file_seek dos pager.file (n * page_size) beginning).1 ≡ true
      → IsReadable n after
      → ((pager_read_page dos n after).1 ≡ some (stamp_page n bs))
        × ((q : ℕ)
            → q ≢ n
            → q < pager.header.page_count
            → IsReadable q pager
            → IsReadable q after
            → (q + 1) * page_size ≤ length (contents pager.file)
            → (pager_read_page dos q after).1 ≡ (pager_read_page dos q pager).1)
  pager_read_page-pager_write_page granted n bs pager after e counts counted within bytes full
        sought readable =
      let old = contents pager.file in
      let page = stamp_page n bs in
      let size : length page ≡ page_size = length-stamp_page n bs ∙ full in
      let (written, header) = pager_write_page-eq-true granted n bs pager after e within sought in
      let count : after.header.page_count ≡ pager.header.page_count =
        ap (λ h. h.page_count) header in
      (
        pager_read_page-contents n after readable (omega arith) (omega arith)
            ∙ ap (λ c. check_page n (some c))
                (ap (slice (n * page_size) page_size) written
                  ∙ ap (λ k. slice (n * page_size) k (overwrite old (n * page_size) page))
                      (sym size)
                  ∙ slice-overwrite_self old (n * page_size) page within)
            ∙ check_page-stamp_page n bs (omega arith) bytes full,
        λ q ne counted' before behind inside.
            pager_read_page-contents q after behind (omega arith) (omega arith)
            ∙ ap (λ c. check_page q (some c))
                (ap (slice (q * page_size) page_size) written ∙ elim (dec_lt q n) [
                  | yes lt ↦
                      slice-overwrite_before old (n * page_size) page (q * page_size) page_size
                        within (omega arith)
                  | no ge ↦
                      slice-overwrite_after old (n * page_size) page (q * page_size) page_size
                        within (omega arith)
                ])
            ∙ sym (pager_read_page-contents q pager before counts counted'),
      )
