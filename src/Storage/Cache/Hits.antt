-- ===== src/Storage/Cache/Hits.antt =====
-- Calls of src/storage/cache.c for a page that is cached.
use amidb.Base.{
  ℕ, suc, ◌+◌, ◌≡◌, refl, ap, ◌∙◌, Bool, not, ◌&&◌, Option, none, some, List, [], ◌∷◌, arith, ◌==◌,
  length, length-modify, get_or, get_or-modify_keeps,
}
use amidb.Storage.PageIo.{PageIo}
use amidb.Storage.Cache.Defs.{
  is_invalid, Entry, Cache, blank, holds, find_index, find_entry, pin, unpin, entry_at, change,
  at_found, move_to_lru_head, get_found, cache_get_page, cache_unpin,
}
use amidb.Storage.Cache.Links.{move_to_lru_head-SameSlots}
use amidb.Storage.Cache.Guarded.{contents}

find_index-cong :
    (p : Entry → Bool) (i : ℕ) (es fs : List Entry)
    → length fs ≡ length es
    → ((j : ℕ) → p (get_or fs j blank) ≡ p (get_or es j blank))
    → find_index p i fs ≡ find_index p i es
unfolding find_index
find_index-cong p i [] [] n h = refl
find_index-cong p i [] (f ∷ fs) n h = absurd (omega arith)
find_index-cong p i (e ∷ es) [] n h = absurd (omega arith)
find_index-cong p i (e ∷ es) (f ∷ fs) n h =
    rw (h 0, find_index-cong p (i + 1) es fs (omega arith) (λ j. h (suc j))) refl

module _ (io : PageIo) where
  -- The entries differ at most in their pins and links, and the pager is the same.
  pub record SamePages (a b : Cache io) : Type 0 where
    pub pages : (j : ℕ) → contents (entry_at io b j) ≡ contents (entry_at io a j)
    pub sized : length b.entries ≡ length a.entries
    pub pagers : b.pager ≡ a.pager

  pub SamePages-trans : {a b c : Cache io} → SamePages a b → SamePages b c → SamePages a c
  SamePages-trans p q = record {
    pages = λ j. q.pages j ∙ p.pages j;
    sized = q.sized ∙ p.sized;
    pagers = q.pagers ∙ p.pagers;
  }

  pub SamePages-bytes :
      (a b : Cache io) → SamePages a b → (j : ℕ) → (entry_at io b j).bytes ≡ (entry_at io a j).bytes
  unfolding contents
  SamePages-bytes a b same j = ap (λ c. c.3) (same.pages j)

  pub find_entry-SamePages :
      (a b : Cache io)
      → SamePages a b
      → (page : ℕ) → find_entry page b.entries ≡ find_entry page a.entries
  unfolding contents find_entry
  find_entry-SamePages a b same page =
      find_index-cong (holds page) 0 a.entries b.entries same.sized
        (λ j. ap (λ c. not (is_invalid c.1) && c.0 == page) (same.pages j))

  SamePages-change :
      (i : ℕ) (f : Entry → Entry) (c : Cache io)
      → ((e : Entry) → contents (f e) ≡ contents e)
      → SamePages c (change io i f c)
  SamePages-change i f c h = record {
    pages = λ j. get_or-modify_keeps contents c.entries i j f blank h;
    sized = length-modify c.entries i f;
    pagers = refl;
  }

  -- A call of `cache_get_page` for a cached page gives its entry, and no entry changes but for its
  -- pins and links.
  pub cache_get_page_hit :
      (page i : ℕ) (c : Cache io)
      → find_entry page c.entries ≡ some i
      → ((cache_get_page io page c).1 ≡ some i) × SamePages c (cache_get_page io page c).0
  unfolding cache_get_page get_found contents
  cache_get_page_hit page i c found =
      let moved = move_to_lru_head-SameSlots io i c in
      rw found (
        refl,
        SamePages-trans
            record {
              pages = λ j. ap (λ s. (s.page_num, s.state, s.txn_id, s.bytes)) (moved.slots j);
              sized = moved.sized;
              pagers = moved.pagers;
            }
            (SamePages-change i pin (move_to_lru_head io i c) (λ e. refl)),
      )

  contents-unpin : (e : Entry) → contents (unpin io e) ≡ contents e
  unfolding contents
  contents-unpin e = ground arith

  pub at_found-SamePages :
      (found : Option ℕ) (f : Entry → Entry) (c : Cache io)
      → ((e : Entry) → contents (f e) ≡ contents e)
      → SamePages c (at_found io found f c).0
  at_found-SamePages none f c h = record { pages = λ j. refl; sized = refl; pagers = refl }
  at_found-SamePages (some i) f c h = SamePages-change i f c h

  pub cache_unpin-SamePages : (page : ℕ) (c : Cache io) → SamePages c (cache_unpin io page c).0
  unfolding cache_unpin
  cache_unpin-SamePages page c =
      at_found-SamePages (find_entry page c.entries) (unpin io) c contents-unpin
