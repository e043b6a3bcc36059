-- ===== src/Storage/Cache/Guarded.antt =====
-- Pages that are pinned or belong to a transaction, across `cache_get_page` of src/storage/cache.c.
use amidb.Base.{
  ℕ, zero, suc, ◌+◌, ◌-◌, ◌≤◌, ◌<◌, ◌≡◌, ◌≢◌, ◌⊎◌, refl, ap, ◌∙◌, Bool, true, false, Option, none,
  some, List, [], ◌∷◌, arith, if◌then◌else◌, length, get_or, get_or-modify_ne, get_or-modify_keeps,
  Bool-cases, inl, inr,
}
use amidb.Storage.PageIo.{PageIo}
use amidb.Storage.Cache.Defs.{
  EntryState, is_invalid, Entry, Cache, blank, entry_at, find_index, find_entry, find_free_entry,
  pin, remove_from_lru, move_to_lru_head, write_back, evict_entry, evictable, evict_from,
  evict_lru_page, free_entry, install_page, load_page, get_found, cache_get_page,
}
use amidb.Storage.Cache.Links.{
  slot, remove_from_lru-SameSlots, add_to_lru_head-SameSlots, move_to_lru_head-SameSlots,
}

-- An entry without its pins and links.
unfoldable pub contents : Entry → ℕ × EntryState × ℕ × List ℕ
contents e = (e.page_num, e.state, e.txn_id, e.bytes)

contents-slot : (a b : Entry) → slot a ≡ slot b → contents a ≡ contents b
unfolding contents
contents-slot a b e = ap (λ s. (s.page_num, s.state, s.txn_id, s.bytes)) e

find_index-eq-some :
    (p : Entry → Bool) (i : ℕ) (es : List Entry) {k : ℕ}
    → find_index p i es ≡ some k
    → (i ≤ k) × (k < i + length es) × (p (get_or es (k - i) blank) ≡ true)
unfolding find_index
find_index-eq-some p i [] e = cc
find_index-eq-some p i (x ∷ es) {k} e = elim (Bool-cases (p x)) [
  | inl here ↦
      let same : i ≡ k = ground arith in
      let zeroth : k - i ≡ 0 = omega arith in (omega arith, omega arith, rw (zeroth) here)
  | inr there ↦
      let (lo, hi, found) = find_index-eq-some p (i + 1) es {k = k} (ground arith) in
      let next : k - i ≡ suc (k - (i + 1)) = omega arith in
      (omega arith, omega arith, rw next found)
]

-- The index that a search returns is in range, and the entry there passes the test.
pub find_index_lem :
    (p : Entry → Bool) (es : List Entry) (k : ℕ)
    → find_index p 0 es ≡ some k
    → (k < length es) × (p (get_or es k blank) ≡ true)
find_index_lem p es k e =
    let (lo, hi, found) = find_index-eq-some p 0 es {k = k} e in
    let same : k - 0 ≡ k = omega arith in (omega arith, rw (← same) found)

module _ (io : PageIo) where
  write_back_keeps :
      (v : ℕ) (c : Cache io)
      → ((write_back io v c).entries ≡ c.entries) × ((write_back io v c).count ≡ c.count)
  unfolding write_back
  write_back_keeps v c = ground arith

  -- An eviction changes the slot of the victim alone.
  slot-evict_entry :
      (v j : ℕ) (c : Cache io)
      → v ≢ j
      → slot (entry_at io (evict_entry io v c) j) ≡ slot (entry_at io c j)
  unfolding evict_entry
  slot-evict_entry v j c ne =
      let c₁ = write_back io v c in
      let c₂ = remove_from_lru io v c₁ in
      ap slot (get_or-modify_ne c₂.entries v j _ blank ne)
      ∙ (remove_from_lru-SameSlots io v c₁).slots j
      ∙ ap (λ es. slot (get_or es j blank)) (write_back_keeps v c).0

  -- The search for a victim gives an entry that may be evicted, and every entry that may not keeps
  -- its slot.
  pub record Spares (c : Cache io) (r : Cache io × Option ℕ) : Type 0 where
    pub keeps :
        (j : ℕ)
        → evictable io (entry_at io c j) ≡ false
        → slot (entry_at io r.0 j) ≡ slot (entry_at io c j)
    pub victim : (i : ℕ) → r.1 ≡ some i → evictable io (entry_at io c i) ≡ true

  Spares-none : (c : Cache io) → Spares c (c, none)
  Spares-none c = record { keeps = λ j h. refl; victim = λ i e. cc }

  Spares-if :
      (c : Cache io) (v : ℕ) (rest : Cache io × Option ℕ) (b : Bool)
      → evictable io (entry_at io c v) ≡ b
      → Spares c rest
      → Spares c (if b then (evict_entry io v c, some v) else rest)
  Spares-if c v rest false e h = h
  Spares-if c v rest true e h = record {
    keeps = λ j spared. slot-evict_entry v j c (λ same. cc);
    victim = λ i found. let same : v ≡ i = cc in rw (← same) e;
  }

  evict_from-Spares :
      (fuel : ℕ) (victim : Option ℕ) (c : Cache io) → Spares c (evict_from io fuel victim c)
  unfolding evict_from
  evict_from-Spares zero victim c = Spares-none c
  evict_from-Spares (suc fuel) none c = Spares-none c
  evict_from-Spares (suc fuel) (some v) c =
      Spares-if c v _ (evictable io (entry_at io c v)) refl (evict_from-Spares fuel _ c)

  install_page-contents :
      (page_num i j : ℕ) (r : io.State × Option (List ℕ)) (c : Cache io)
      → i ≢ j
      → contents (entry_at io (install_page io page_num i r c).0 j) ≡ contents (entry_at io c j)
  unfolding install_page
  install_page-contents page_num i j (pager, none) c ne = refl
  install_page-contents page_num i j (pager, some bytes) c ne = contents-slot _ _ (
      (add_to_lru_head-SameSlots io i _).slots j
      ∙ ap slot (get_or-modify_ne c.entries i j _ blank ne))

  load_page-contents :
      (page_num j : ℕ) (r : Cache io × Option ℕ)
      → ((i : ℕ) → r.1 ≡ some i → i ≢ j)
      → contents (entry_at io (load_page io page_num r).0 j) ≡ contents (entry_at io r.0 j)
  unfolding load_page
  load_page-contents page_num j (c, none) h = refl
  load_page-contents page_num j (c, some i) h = install_page-contents page_num i j _ c (h i refl)

  miss-contents :
      (page_num j : ℕ) (free : Option ℕ) (c : Cache io)
      → find_free_entry c.entries ≡ free
      → is_invalid (entry_at io c j).state ≡ false
      → evictable io (entry_at io c j) ≡ false
      → contents (entry_at io (load_page io page_num (free_entry io free c)).0 j)
        ≡ contents (entry_at io c j)
  unfolding free_entry find_free_entry evict_lru_page
  miss-contents page_num j (some i) c e valid guarded =
      let (_, is_free) = find_index_lem (λ e. is_invalid e.state) c.entries i e in
      load_page-contents page_num j (c, some i) (λ k same eq. cc)
  miss-contents page_num j none c e valid guarded =
      let r = evict_from io (suc (length c.entries)) c.lru_tail c in
      let spares = evict_from-Spares (suc (length c.entries)) c.lru_tail c in
      load_page-contents page_num j r (λ i found same. let evicted = spares.victim i found in cc)
      ∙ contents-slot _ _ (spares.keeps j guarded)

  found-contents :
      (page_num j : ℕ) (found : Option ℕ) (c : Cache io)
      → is_invalid (entry_at io c j).state ≡ false
      → evictable io (entry_at io c j) ≡ false
      → contents (entry_at io (get_found io page_num found c).0 j) ≡ contents (entry_at io c j)
  unfolding get_found contents
  found-contents page_num j (some i) c valid guarded =
      get_or-modify_keeps contents (move_to_lru_head io i c).entries i j pin blank (λ e. refl)
      ∙ contents-slot (entry_at io (move_to_lru_head io i c) j) (entry_at io c j)
          ((move_to_lru_head-SameSlots io i c).slots j)
  found-contents page_num j none c valid guarded =
      miss-contents page_num j (find_free_entry c.entries) c refl valid guarded

  guarded-evictable : (e : Entry) → (e.pin_count ≢ 0) ⊎ (e.txn_id ≢ 0) → evictable io e ≡ false
  guarded-evictable e (inl pinned) = ground arith
  guarded-evictable e (inr owned) = ground arith

  -- A call of `cache_get_page`, whether it hits, fills a free entry, evicts another page or fails,
  -- keeps the page number, the state, the transaction and the bytes of every valid entry that is
  -- pinned or belongs to a transaction.
  pub cache_get_page-contents :
      (page_num j : ℕ) (c : Cache io)
      → is_invalid (entry_at io c j).state ≡ false
      → ((entry_at io c j).pin_count ≢ 0) ⊎ ((entry_at io c j).txn_id ≢ 0)
      → contents (entry_at io (cache_get_page io page_num c).0 j) ≡ contents (entry_at io c j)
  unfolding cache_get_page
  cache_get_page-contents page_num j c valid guarded =
      found-contents page_num j (find_entry page_num c.entries) c valid
        (guarded-evictable (entry_at io c j) guarded)
