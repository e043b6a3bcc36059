-- ===== src/Storage/Cache/Defs.antt =====
-- src/storage/cache.h and the operations of src/storage/cache.c.
-- A pointer to an entry is its index in `entries`; the pointer to a page's bytes that a caller gets
-- is such an index too. `pin_count` is a byte and wraps. A return value 0 is `true`.
use amidb.Base.{
  ℕ, zero, suc, ◌+◌, ◌-◌, ◌%◌, Bool, true, false, not, ◌&&◌, Option, none, some, List, [], ◌∷◌,
  ◌++◌, if◌then◌else◌, ltb, ◌==◌, length, replicate, get_or, modify,
}
use amidb.Storage.PageIo.{PageIo}

pub data EntryState : Type 0 where
  invalid clean dirty : EntryState

pub record Entry : Type 0 where
  pub page_num : ℕ
  pub state : EntryState
  pub pin_count : ℕ
  pub txn_id : ℕ
  pub bytes : List ℕ
  pub lru_prev : Option ℕ
  pub lru_next : Option ℕ

pub record Cache (io : PageIo) : Type 0 where
  pub pager : io.State
  pub capacity : ℕ
  pub count : ℕ
  pub entries : List Entry
  pub lru_head : Option ℕ
  pub lru_tail : Option ℕ

abbrev pub is_invalid : EntryState → Bool
is_invalid invalid = true
is_invalid clean = false
is_invalid dirty = false

abbrev pub is_dirty : EntryState → Bool
is_dirty invalid = false
is_dirty clean = false
is_dirty dirty = true

-- An entry after `mem_alloc` with AMIDB_MEM_CLEAR.
unfoldable pub blank : Entry
blank = record {
  page_num = 0;
  state = invalid;
  pin_count = 0;
  txn_id = 0;
  bytes = replicate 4096 0;
  lru_prev = none;
  lru_next = none;
}

abbrev pub holds : ℕ → Entry → Bool
holds page_num e = not (is_invalid e.state) && e.page_num == page_num

-- The first index from `i` on that passes a test.
unfoldable pub find_index : (Entry → Bool) → ℕ → List Entry → Option ℕ
find_index p i [] = none
find_index p i (e ∷ es) = let rest = find_index p (i + 1) es in if p e then some i else rest

unfoldable pub find_entry : ℕ → List Entry → Option ℕ
unfolding find_index
find_entry page_num entries = find_index (holds page_num) 0 entries

unfoldable pub find_free_entry : List Entry → Option ℕ
unfolding find_index
find_free_entry entries = find_index (λ e. is_invalid e.state) 0 entries

abbrev pub pin : Entry → Entry
pin e = record e { pin_count = (e.pin_count + 1) % 256 }

-- A pin list, if one was given, takes the page if it has room.
abbrev pub listed : ℕ → Option (List ℕ) → Option (List ℕ)
listed page_num none = none
listed page_num (some pages) =
    some (if ltb (length pages) 16 then pages ++ (page_num ∷ []) else pages)

module _ (io : PageIo) where
  abbrev pub entry_at : Cache io → ℕ → Entry
  entry_at cache i = get_or cache.entries i blank

  abbrev pub change : ℕ → (Entry → Entry) → Cache io → Cache io
  change i f cache = record cache { entries = modify cache.entries i f }

  -- The allocations are taken to succeed.
  unfoldable pub cache_create : ℕ → io.State → Cache io
  cache_create capacity pager =
      let n = if capacity == 0 then 64 else capacity in
      record {
        pager = pager;
        capacity = n;
        count = 0;
        entries = replicate n blank;
        lru_head = none;
        lru_tail = none;
      }

  -- `entry->lru_prev->lru_next = next`, or the head.
  unfoldable pub link_next : Option ℕ → Option ℕ → Cache io → Cache io
  link_next none next cache = record cache { lru_head = next }
  link_next (some p) next cache = change p (λ e. record e { lru_next = next }) cache

  -- `entry->lru_next->lru_prev = prev`, or the tail.
  unfoldable pub link_prev : Option ℕ → Option ℕ → Cache io → Cache io
  link_prev none prev cache = record cache { lru_tail = prev }
  link_prev (some n) prev cache = change n (λ e. record e { lru_prev = prev }) cache

  unfoldable pub remove_from_lru : ℕ → Cache io → Cache io
  unfolding link_next link_prev
  remove_from_lru i cache =
      let c₁ = link_next (entry_at cache i).lru_prev (entry_at cache i).lru_next cache in
      let c₂ = link_prev (entry_at c₁ i).lru_next (entry_at c₁ i).lru_prev c₁ in
      change i (λ e. record e { lru_prev = none; lru_next = none }) c₂

  -- `cache->lru_head->lru_prev = entry`, if there is a head.
  unfoldable pub link_head : Option ℕ → ℕ → Cache io → Cache io
  link_head none i cache = cache
  link_head (some h) i cache = change h (λ e. record e { lru_prev = some i }) cache

  abbrev pub or_else : Option ℕ → ℕ → Option ℕ
  or_else none i = some i
  or_else (some t) i = some t

  unfoldable pub add_to_lru_head : ℕ → Cache io → Cache io
  unfolding link_head
  add_to_lru_head i cache =
      let c₁ = change i (λ e. record e { lru_prev = none; lru_next = cache.lru_head }) cache in
      let c₂ = link_head c₁.lru_head i c₁ in
      record c₂ { lru_head = some i; lru_tail = or_else c₂.lru_tail i }

  abbrev pub is_index : Option ℕ → ℕ → Bool
  is_index none i = false
  is_index (some j) i = j == i

  unfoldable pub move_to_lru_head : ℕ → Cache io → Cache io
  unfolding remove_from_lru add_to_lru_head
  move_to_lru_head i cache =
      if is_index cache.lru_head i then cache else add_to_lru_head i (remove_from_lru i cache)

  -- The write of a dirty victim; its result is ignored.
  unfoldable pub write_back : ℕ → Cache io → Cache io
  write_back v cache =
      if is_dirty (entry_at cache v).state
      then record cache {
        pager = (io.write_page (entry_at cache v).page_num (entry_at cache v).bytes cache.pager).0;
      }
      else cache

  unfoldable pub evict_entry : ℕ → Cache io → Cache io
  unfolding write_back remove_from_lru
  evict_entry v cache =
      let c =
        change v (λ e. record e { state = invalid; page_num = 0 })
          (remove_from_lru v (write_back v cache)) in
      record c { count = c.count - 1 }

  abbrev pub evictable : Entry → Bool
  evictable e = e.pin_count == 0 && e.txn_id == 0

  -- The loop of `evict_lru_page` from `victim` on.
  unfoldable pub evict_from : ℕ → Option ℕ → Cache io → Cache io × Option ℕ
  unfolding evict_entry
  evict_from zero victim cache = (cache, none)
  evict_from (suc fuel) none cache = (cache, none)
  evict_from (suc fuel) (some v) cache =
      let rest = evict_from fuel (entry_at cache v).lru_prev cache in
      if evictable (entry_at cache v) then (evict_entry v cache, some v) else rest

  -- A list without a cycle has at most as many entries as the cache.
  unfoldable pub evict_lru_page : Cache io → Cache io × Option ℕ
  unfolding evict_from
  evict_lru_page cache = evict_from (suc (length cache.entries)) cache.lru_tail cache

  -- The entry that a miss fills, evicted if none is free.
  unfoldable pub free_entry : Option ℕ → Cache io → Cache io × Option ℕ
  unfolding evict_lru_page
  free_entry (some i) cache = (cache, some i)
  free_entry none cache = evict_lru_page cache

  -- After `pager_read_page` into the entry. What a failed read leaves in the bytes of the entry, which
  -- is invalid, is never read, and is not kept here.
  unfoldable pub install_page : ℕ → ℕ → io.State × Option (List ℕ) → Cache io → Cache io × Option ℕ
  unfolding add_to_lru_head
  install_page page_num i (pager, none) cache = (record cache { pager = pager }, none)
  install_page page_num i (pager, some bytes) cache =
      let c =
        change i
          (λ e. record e { page_num = page_num; state = clean; pin_count = 1; bytes = bytes })
          (record cache { pager = pager }) in
      let c' = add_to_lru_head i c in (record c' { count = c'.count + 1 }, some i)

  unfoldable pub load_page : ℕ → Cache io × Option ℕ → Cache io × Option ℕ
  unfolding install_page
  load_page page_num (cache, none) = (cache, none)
  load_page page_num (cache, some i) =
      install_page page_num i (io.read_page page_num cache.pager) cache

  unfoldable pub get_found : ℕ → Option ℕ → Cache io → Cache io × Option ℕ
  unfolding move_to_lru_head load_page free_entry
  get_found page_num (some i) cache = (change i pin (move_to_lru_head i cache), some i)
  get_found page_num none cache =
      load_page page_num (free_entry (find_free_entry cache.entries) cache)

  -- The index of the entry whose bytes `*data` points to, or -1.
  unfoldable pub cache_get_page : ℕ → Cache io → Cache io × Option ℕ
  unfolding get_found
  cache_get_page page_num cache = get_found page_num (find_entry page_num cache.entries) cache

  -- A change of the entry that holds a page, or -1.
  abbrev pub at_found : Option ℕ → (Entry → Entry) → Cache io → Cache io × Bool
  at_found none f cache = (cache, false)
  at_found (some i) f cache = (change i f cache, true)

  unfoldable pub cache_mark_dirty : ℕ → Cache io → Cache io × Bool
  cache_mark_dirty page_num cache =
      at_found (find_entry page_num cache.entries) (λ e. record e { state = dirty }) cache

  -- The pin list is given as the pages on it, at most 16.
  unfoldable pub cache_pin : ℕ → Option (List ℕ) → Cache io → Cache io × Option (List ℕ) × Bool
  cache_pin page_num pins cache =
      let (c, done) = at_found (find_entry page_num cache.entries) pin cache in
      (c, (if done then listed page_num pins else pins), done)

  abbrev pub unpin : Entry → Entry
  unpin e = if ltb 0 e.pin_count then record e { pin_count = e.pin_count - 1 } else e

  unfoldable pub cache_unpin : ℕ → Cache io → Cache io × Bool
  cache_unpin page_num cache = at_found (find_entry page_num cache.entries) unpin cache

  unfoldable pub unpin_pages : List ℕ → Cache io → Cache io
  unfolding cache_unpin
  unpin_pages [] cache = cache
  unpin_pages (page ∷ pages) cache = unpin_pages pages (cache_unpin page cache).0

  -- The list of pins, if one was given, is emptied.
  abbrev pub cache_unpin_all : Option (List ℕ) → Cache io → Cache io × Option (List ℕ)
  cache_unpin_all none cache = (cache, none)
  cache_unpin_all (some pages) cache = (unpin_pages pages cache, some [])

  -- One round of `cache_flush` at an entry that is dirty and of no transaction.
  unfoldable pub flush_entry : ℕ → Cache io → Cache io × Bool
  flush_entry i cache =
      let e = entry_at cache i in
      if is_dirty e.state && e.txn_id == 0
      then (let (pager, written) = io.write_page e.page_num e.bytes cache.pager in
          let c = record cache { pager = pager } in
          if written then (change i (λ e. record e { state = clean }) c, true) else (c, false))
      else (cache, true)

  -- What follows a step that returned 0; after a failure the function returns.
  abbrev pub on_success : Cache io × Bool → (Cache io → Cache io × Bool) → Cache io × Bool
  on_success (cache, true) next = next cache
  on_success (cache, false) next = (cache, false)

  -- `left` rounds from `i` on.
  unfoldable pub flush_from : ℕ → ℕ → Cache io → Cache io × Bool
  unfolding flush_entry
  flush_from zero i cache = (cache, true)
  flush_from (suc left) i cache = on_success (flush_entry i cache) (λ c. flush_from left (i + 1) c)

  -- The result of `pager_sync` is ignored.
  unfoldable pub cache_flush : Cache io → Cache io × Bool
  unfolding flush_from
  cache_flush cache =
      on_success (flush_from cache.capacity 0 cache)
        (λ c. (record c { pager = (io.sync c.pager).0 }, true))

  -- What is left when the cache is freed: the pager.
  unfoldable pub cache_destroy : Cache io → io.State
  unfolding cache_flush
  cache_destroy cache = (cache_flush cache).0.pager

  abbrev pub count_entries : (Entry → Bool) → List Entry → ℕ
  count_entries p [] = 0
  count_entries p (e ∷ es) = (if p e then 1 else 0) + count_entries p es

  -- The cached, dirty and pinned pages.
  pub cache_get_stats : Cache io → ℕ × ℕ × ℕ
  cache_get_stats cache = (
    cache.count,
    count_entries (λ e. is_dirty e.state) cache.entries,
    count_entries (λ e. not (is_invalid e.state) && ltb 0 e.pin_count) cache.entries,
  )
