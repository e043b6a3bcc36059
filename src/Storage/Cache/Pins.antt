-- ===== src/Storage/Cache/Pins.antt =====
-- `cache_pin` and `cache_unpin` of src/storage/cache.c, one after the other.
use amidb.Base.{
  ℕ, zero, suc, ◌+◌, ◌-◌, ◌%◌, ◌<◌, ◌≡◌, refl, ap, Bool, true, none, some, List, [], ◌∷◌, arith,
  lt→ltb, get_or, modify,
}
use amidb.Storage.PageIo.{PageIo}
use amidb.Storage.Cache.Defs.{
  Entry, Cache, blank, holds, find_index, find_entry, pin, unpin, entry_at, cache_pin, cache_unpin,
}

-- A search does not see a change that its test does not see.
find_index-modify :
    (p : Entry → Bool) (i k : ℕ) (es : List Entry) (f : Entry → Entry)
    → ((e : Entry) → p (f e) ≡ p e)
    → find_index p i (modify es k f) ≡ find_index p i es
unfolding find_index
find_index-modify p i k [] f h = refl
find_index-modify p i zero (e ∷ es) f h = rw (h e) refl
find_index-modify p i (suc k) (e ∷ es) f h = rw (find_index-modify p (i + 1) k es f h) refl

modify-modify :
    (k : ℕ) (es : List Entry) (f g : Entry → Entry)
    → g (f (get_or es k blank)) ≡ get_or es k blank
    → modify (modify es k f) k g ≡ es
modify-modify k [] f g h = refl
modify-modify zero (e ∷ es) f g h = ap (λ t. t ∷ es) h
modify-modify (suc k) (e ∷ es) f g h = ap (◌∷◌ e) (modify-modify k es f g h)

module _ (io : PageIo) where
  unpin-pin : (e : Entry) → e.pin_count < 255 → unpin io (pin e) ≡ e
  unpin-pin e h =
      let pinned = lt→ltb 0 ((e.pin_count + 1) % 256) (omega arith) in
      let less : (e.pin_count + 1) % 256 - 1 ≡ e.pin_count = omega arith in
      rw pinned (ap (λ n. record e { pin_count = n }) less)

  -- A page that is cached and pinned fewer than 255 times: `cache_unpin` after `cache_pin` leaves
  -- the cache as it was, and both succeed.
  pub cache_unpin-cache_pin :
      (page_num i : ℕ) (c : Cache io)
      → find_entry page_num c.entries ≡ some i
      → (entry_at io c i).pin_count < 255
      → ((cache_pin io page_num none c).2 ≡ true)
        × (cache_unpin io page_num (cache_pin io page_num none c).0 ≡ (c, true))
  unfolding cache_pin cache_unpin find_entry
  cache_unpin-cache_pin page_num i c found few =
      let same = find_index-modify (holds page_num) 0 i c.entries pin (λ e. refl) in
      let back = modify-modify i c.entries pin (unpin io) (unpin-pin (entry_at io c i) few) in
      rw (found, same, found) (refl, ap (λ es. (record c { entries = es }, true)) back)
