-- ===== src/Storage/Pager/Alloc.antt =====
-- Allocation and release of pages, of src/storage/pager.c.
use amidb.Base.{
  ℕ, zero, suc, ◌+◌, ◌-◌, ◌/◌, ◌≤◌, ◌<◌, ◌≡◌, ◌≢◌, refl, ap, ◌∙◌, Bool, true, false, not, ◌&&◌,
  ◌||◌, Option, none, some, List, arith, ◌==◌, length, All, Bool-cases, Option-cases, inl, inr, ◌⊎◌,
  length-set,
}
use amidb.Os.File.{Dos}
use amidb.Util.Endian.{IsByte}
use amidb.Storage.Pager.Bitmap.{
  bitmap_set, bitmap_clear, bitmap_test, bitmap_set-IsByte, bitmap_clear-IsByte,
  bitmap_test-bitmap_set, bitmap_test-bitmap_clear,
}
use amidb.Storage.Pager.Defs.{
  Pager, find_clear, mark_page, init_page, allocate_at, write_at, pager_allocate_page,
  pager_free_page, header_page, max_pages, page_size,
}

-- `WAL_REGION_START` of src/txn/wal.h.
abbrev pub wal_region_start : ℕ
wal_region_start = 0x3000

-- The pages before a clear bit are taken, and the bit lies in the range searched.
find_clear-eq-some :
    (bitmap : List ℕ) (left i : ℕ) {k : ℕ}
    → find_clear bitmap left i ≡ some k
    → (i ≤ k)
      × (k < i + left)
      × (bitmap_test bitmap k ≡ false)
      × ((j : ℕ) → i ≤ j → j < k → bitmap_test bitmap j ≡ true)
unfolding find_clear
find_clear-eq-some bitmap zero i e = cc
find_clear-eq-some bitmap (suc left) i {k} e = elim (Bool-cases (bitmap_test bitmap i)) [
  | inl taken ↦
      let (lo, hi, clear, below) = find_clear-eq-some bitmap left (i + 1) {k = k} (ground arith) in
      (
        omega arith,
        omega arith,
        clear,
        λ j le lt. elim (Bool-cases (i == j)) [
          | inl same ↦ ground arith
          | inr other ↦ below j (ground arith) lt
        ],
      )
  | inr clear ↦
      let same : i ≡ k = ground arith in
      (omega arith, omega arith, ground arith, λ j le lt. absurd (omega arith))
]

find_clear-eq-none :
    (bitmap : List ℕ) (left i : ℕ)
    → find_clear bitmap left i ≡ none
    → (j : ℕ) → i ≤ j
    → j < i + left
    → bitmap_test bitmap j ≡ true
unfolding find_clear
find_clear-eq-none bitmap zero i e j le lt = absurd (omega arith)
find_clear-eq-none bitmap (suc left) i e j le lt = elim (Bool-cases (bitmap_test bitmap i)) [
  | inl taken ↦ elim (Bool-cases (i == j)) [
    | inl same ↦ ground arith
    | inr other ↦
        find_clear-eq-none bitmap left (i + 1) (ground arith) j (ground arith) (omega arith)
  ]
  | inr clear ↦ ground arith
]

-- The bitmap has 512 bytes, one bit for each of the pages a file can hold.
pub record IsValid {dos : Dos} (pager : Pager dos) : Type 0 where
  pub sized : length pager.bitmap ≡ 512
  pub bytes : All IsByte pager.bitmap
  pub bounded : pager.header.page_count ≤ max_pages

-- `i` was the lowest free page above 0, and is now taken and counted; no other bit has changed.
pub record Allocated {dos : Dos} (before after : Pager dos) (i : ℕ) : Type 0 where
  pub valid : IsValid after
  pub fresh : bitmap_test before.bitmap i ≡ false
  pub in_range : (0 < i) × (i < max_pages)
  pub lowest : (j : ℕ) → 0 < j → j < i → bitmap_test before.bitmap j ≡ true
  pub marked : (j : ℕ) → bitmap_test after.bitmap j ≡ (i == j || bitmap_test before.bitmap j)
  pub counted : i < after.header.page_count

length-bitmap_set : (bitmap : List ℕ) (i : ℕ) → length (bitmap_set bitmap i) ≡ length bitmap
unfolding bitmap_set
length-bitmap_set bitmap i = length-set bitmap (i / 8) _

length-bitmap_clear : (bitmap : List ℕ) (i : ℕ) → length (bitmap_clear bitmap i) ≡ length bitmap
unfolding bitmap_clear
length-bitmap_clear bitmap i = length-set bitmap (i / 8) _

module _ (dos : Dos) where
  -- A write changes the file alone.
  write_at_keeps :
      (offset : ℕ) (bytes : List ℕ) (pager : Pager dos)
      → ((write_at dos offset bytes pager).0.bitmap ≡ pager.bitmap)
        × ((write_at dos offset bytes pager).0.header ≡ pager.header)
        × ((write_at dos offset bytes pager).0.read_only ≡ pager.read_only)
  unfolding write_at
  write_at_keeps offset bytes pager = (refl, refl, refl)

  mark_page-Allocated :
      (pager : Pager dos) {i : ℕ}
      → IsValid pager
      → find_clear pager.bitmap (max_pages - 1) 1 ≡ some i
      → Allocated pager (mark_page dos i pager) i
  unfolding mark_page
  mark_page-Allocated pager {i} h e =
      let (lo, hi, clear, below) = find_clear-eq-some pager.bitmap 4095 1 e in
      record {
        valid = record {
          sized = omega (arith, length-bitmap_set pager.bitmap i, h.sized);
          bytes = bitmap_set-IsByte pager.bitmap i h.bytes;
          bounded = ground arith;
        };
        fresh = clear;
        in_range = omega arith;
        lowest = λ j pos lt. below j pos lt;
        marked = λ j. bitmap_test-bitmap_set pager.bitmap i h.bytes j (omega (arith, h.sized));
        counted = ground arith;
      }

  same_IsValid :
      (a b : Pager dos) → a.bitmap ≡ b.bitmap → a.header ≡ b.header → IsValid a → IsValid b
  same_IsValid a b p q h = record {
    sized = rw (← p) h.sized;
    bytes = rw (← p) h.bytes;
    bounded = rw (← q) h.bounded;
  }

  same_Allocated :
      (before a b : Pager dos) (i : ℕ)
      → a.bitmap ≡ b.bitmap
      → a.header ≡ b.header
      → Allocated before a i
      → Allocated before b i
  same_Allocated before a b i p q h = record {
    valid = same_IsValid a b p q h.valid;
    fresh = h.fresh;
    in_range = h.in_range;
    lowest = h.lowest;
    marked = λ j. rw (← p) (h.marked j);
    counted = rw (← q) h.counted;
  }

  init_page-eq-some :
      (i : ℕ) (r : Pager dos × Bool) {after : Pager dos} {k : ℕ}
      → init_page dos i r ≡ (after, some k)
      → (i ≡ k) × (r.0.bitmap ≡ after.bitmap) × (r.0.header ≡ after.header)
  unfolding init_page write_at
  init_page-eq-some i (pager, false) e = cc
  init_page-eq-some i (pager, true) e = (cc, cc, cc)

  allocate_at-eq-some :
      (granted : Bool) (found : Option ℕ) (pager : Pager dos) {after : Pager dos} {k : ℕ}
      → allocate_at dos granted found pager ≡ (after, some k)
      → (found ≡ some k)
        × ((mark_page dos k pager).bitmap ≡ after.bitmap)
        × ((mark_page dos k pager).header ≡ after.header)
  unfolding allocate_at
  allocate_at-eq-some granted none pager e = cc
  allocate_at-eq-some false (some i) pager e = cc
  allocate_at-eq-some true (some i) pager e =
      let m = mark_page dos i pager in
      let (same, p, q) = init_page-eq-some i (write_at dos 0 (header_page m.header m.bitmap) m) e in
      let (p', q', _) = write_at_keeps 0 (header_page m.header m.bitmap) m in (ap some same, cc, cc)

  -- On a valid pager, a page that `pager_allocate_page` returns was the lowest free page above 0;
  -- it is now taken and counted, every other page is taken or free as before, and the pager is
  -- valid. A pager that is read-only, or whose pages are all taken, gives -1 and stays as it was.
  pub pager_allocate_page-Allocated :
      (granted : Bool) (pager : Pager dos)
      → IsValid pager
      → ((after : Pager dos) (i : ℕ)
          → pager_allocate_page dos granted pager ≡ (after, some i)
          → Allocated pager after i)
        × (pager.read_only ≡ true → pager_allocate_page dos granted pager ≡ (pager, none))
        × (((j : ℕ) → 0 < j → j < max_pages → bitmap_test pager.bitmap j ≡ true)
            → pager_allocate_page dos granted pager ≡ (pager, none))
  unfolding pager_allocate_page
  pager_allocate_page-Allocated granted pager h = (
    (λ after i e.
        let e' : allocate_at dos granted (find_clear pager.bitmap 4095 1) pager ≡ (after, some i) =
          ground arith in
        let (found, p, q) = allocate_at-eq-some granted (find_clear pager.bitmap 4095 1) pager e' in
        same_Allocated pager (mark_page dos i pager) after i p q
          (mark_page-Allocated pager h found)),
    (λ e. ground arith),
    λ full. elim (Option-cases (find_clear pager.bitmap 4095 1)) [
      | inl nothing ↦ ground (arith, nothing)
      | inr (i, found) ↦
          let (lo, hi, clear, _) = find_clear-eq-some pager.bitmap 4095 1 found in
          absurd (ground (arith, clear, full i (omega arith) (omega arith)))
    ],
  )

  -- `pager_free_page` refuses a read-only pager, page 0, a page from 4096 on and a page that is
  -- free, and changes nothing; when it returns 0 on a valid pager, the page was taken, is free now,
  -- every other page is as before, and the pager is valid.
  pub pager_free_page-Freed :
      (granted : Bool) (page_num : ℕ) (pager : Pager dos)
      → IsValid pager
      → ((pager.read_only ≡ true)
            ⊎ (page_num ≡ 0)
            ⊎ (max_pages ≤ page_num)
            ⊎ (bitmap_test pager.bitmap page_num ≡ false)
          → pager_free_page dos granted page_num pager ≡ (pager, false))
        × ((after : Pager dos)
            → pager_free_page dos granted page_num pager ≡ (after, true)
            → IsValid after
              × (bitmap_test pager.bitmap page_num ≡ true)
              × ((j : ℕ)
                  → bitmap_test after.bitmap j
                    ≡ (not (page_num == j) && bitmap_test pager.bitmap j)))
  unfolding pager_free_page write_at
  pager_free_page-Freed granted page_num pager h = (
    (λ bad. ground (arith, bad)),
    λ after e.
        let bits = bitmap_clear pager.bitmap page_num in
        let cleared : bits ≡ after.bitmap = ground (arith, e) in
        let header : pager.header ≡ after.header = ground (arith, e) in
        let taken : bitmap_test pager.bitmap page_num ≡ true = ground (arith, e) in
        let small : page_num < max_pages = ground (arith, e) in
        (
          record {
            sized = rw (← cleared) (length-bitmap_clear pager.bitmap page_num ∙ h.sized);
            bytes = rw (← cleared) (bitmap_clear-IsByte pager.bitmap page_num h.bytes);
            bounded = rw (← header) h.bounded;
          },
          taken,
          λ j.
              rw (← cleared)
                (bitmap_test-bitmap_clear pager.bitmap page_num h.bytes j (omega (arith, h.sized))),
        ),
  )

  allocates_third :
      (pager after : Pager dos) (i : ℕ)
      → pager_allocate_page dos true pager ≡ (after, some i)
      → bitmap_test pager.bitmap 1 ≡ true
      → bitmap_test pager.bitmap 2 ≡ true
      → bitmap_test pager.bitmap 3 ≡ false
      → i ≡ 3
  unfolding pager_allocate_page
  allocates_third pager after i e one two three =
      let e' : allocate_at dos true (find_clear pager.bitmap 4095 1) pager ≡ (after, some i) =
        ground arith in
      let (found, _, _) = allocate_at-eq-some true (find_clear pager.bitmap 4095 1) pager e' in
      let (lo, hi, clear, below) = find_clear-eq-some pager.bitmap 4095 1 found in
      let not_one : i ≢ 1 = λ same. cc (ap (bitmap_test pager.bitmap) same) in
      let not_two : i ≢ 2 = λ same. cc (ap (bitmap_test pager.bitmap) same) in
      let not_above : ¬ (3 < i) = λ lt. cc (below 3 (omega arith) lt) in omega arith

  -- The log lies in the file from `WAL_REGION_START` on, and nothing keeps its pages from being
  -- given out: on a pager of which pages 1 and 2 are taken and page 3 is not, with memory, a page
  -- that `pager_allocate_page` returns is the first page of the log.
  pub pager_allocate_page_in_wal :
      (pager : Pager dos)
      → (pager_allocate_page dos true pager).1 ≢ none
      → bitmap_test pager.bitmap 1 ≡ true
      → bitmap_test pager.bitmap 2 ≡ true
      → bitmap_test pager.bitmap 3 ≡ false
      → (pager_allocate_page dos true pager).1 ≡ some (wal_region_start / page_size)
  pager_allocate_page_in_wal pager some_page one two three =
      let result = pager_allocate_page dos true pager in
      elim (Option-cases result.1) [
        | inl e ↦ absurd (some_page e)
        | inr (i, e) ↦
            e ∙ ap some (allocates_third pager result.0 i (λ k. (result.0, e k)) one two three)
      ]
