-- ===== src/Storage/Cache/Links.antt =====
-- What the operations on the list of src/storage/cache.c leave alone: everything but the links.
use amidb.Base.{
  ℕ, ◌≡◌, refl, ◌∙◌, Bool, true, false, Option, none, some, List, if◌then◌else◌, length,
  length-modify, get_or-modify_keeps,
}
use amidb.Storage.PageIo.{PageIo}
use amidb.Storage.Cache.Defs.{
  EntryState, Entry, Cache, blank, entry_at, change, link_next, link_prev, link_head,
  remove_from_lru, add_to_lru_head, move_to_lru_head, is_index,
}

-- An entry without its links.
pub record Slot : Type 0 where
  pub page_num : ℕ
  pub state : EntryState
  pub pin_count : ℕ
  pub txn_id : ℕ
  pub bytes : List ℕ

abbrev pub slot : Entry → Slot
slot e = record {
  page_num = e.page_num;
  state = e.state;
  pin_count = e.pin_count;
  txn_id = e.txn_id;
  bytes = e.bytes;
}

module _ (io : PageIo) where
  -- Two states of the cache that differ in the links alone.
  pub record SameSlots (a b : Cache io) : Type 0 where
    pub slots : (j : ℕ) → slot (entry_at io b j) ≡ slot (entry_at io a j)
    pub sized : length b.entries ≡ length a.entries
    pub pagers : b.pager ≡ a.pager
    pub counts : b.count ≡ a.count
    pub capacities : b.capacity ≡ a.capacity

  SameSlots-change :
      (i : ℕ) (f : Entry → Entry) (c : Cache io)
      → ((e : Entry) → slot (f e) ≡ slot e)
      → SameSlots c (change io i f c)
  SameSlots-change i f c h = record {
    slots = λ j. get_or-modify_keeps slot c.entries i j f blank h;
    sized = length-modify c.entries i f;
    pagers = refl;
    counts = refl;
    capacities = refl;
  }

  pub SameSlots-refl : (c : Cache io) → SameSlots c c
  SameSlots-refl c = record {
    slots = λ j. refl;
    sized = refl;
    pagers = refl;
    counts = refl;
    capacities = refl;
  }

  pub SameSlots-trans : {a b c : Cache io} → SameSlots a b → SameSlots b c → SameSlots a c
  SameSlots-trans p q = record {
    slots = λ j. q.slots j ∙ p.slots j;
    sized = q.sized ∙ p.sized;
    pagers = q.pagers ∙ p.pagers;
    counts = q.counts ∙ p.counts;
    capacities = q.capacities ∙ p.capacities;
  }

  link_next-SameSlots : (p next : Option ℕ) (c : Cache io) → SameSlots c (link_next io p next c)
  unfolding link_next
  link_next-SameSlots none next c = record {
    slots = λ j. refl;
    sized = refl;
    pagers = refl;
    counts = refl;
    capacities = refl;
  }
  link_next-SameSlots (some p) next c = SameSlots-change p _ c (λ e. refl)

  link_prev-SameSlots : (n prev : Option ℕ) (c : Cache io) → SameSlots c (link_prev io n prev c)
  unfolding link_prev
  link_prev-SameSlots none prev c = record {
    slots = λ j. refl;
    sized = refl;
    pagers = refl;
    counts = refl;
    capacities = refl;
  }
  link_prev-SameSlots (some n) prev c = SameSlots-change n _ c (λ e. refl)

  pub remove_from_lru-SameSlots : (i : ℕ) (c : Cache io) → SameSlots c (remove_from_lru io i c)
  unfolding remove_from_lru
  remove_from_lru-SameSlots i c =
      let c₁ = link_next io (entry_at io c i).lru_prev (entry_at io c i).lru_next c in
      SameSlots-trans (link_next-SameSlots _ _ c)
        (SameSlots-trans (link_prev-SameSlots _ _ c₁) (SameSlots-change i _ _ (λ e. refl)))

  link_head-SameSlots : (h : Option ℕ) (i : ℕ) (c : Cache io) → SameSlots c (link_head io h i c)
  unfolding link_head
  link_head-SameSlots none i c = SameSlots-refl c
  link_head-SameSlots (some h) i c = SameSlots-change h _ c (λ e. refl)

  pub add_to_lru_head-SameSlots : (i : ℕ) (c : Cache io) → SameSlots c (add_to_lru_head io i c)
  unfolding add_to_lru_head
  add_to_lru_head-SameSlots i c =
      let linked =
        SameSlots-trans
          (SameSlots-change i (λ e. record e { lru_prev = none; lru_next = c.lru_head }) c
            (λ e. refl))
          (link_head-SameSlots c.lru_head i _) in
      record {
        slots = linked.slots;
        sized = linked.sized;
        pagers = linked.pagers;
        counts = linked.counts;
        capacities = linked.capacities;
      }

  SameSlots-if :
      (b : Bool) (c a d : Cache io)
      → SameSlots c a
      → SameSlots c d
      → SameSlots c (if b then a else d)
  SameSlots-if true c a d p q = p
  SameSlots-if false c a d p q = q

  pub move_to_lru_head-SameSlots : (i : ℕ) (c : Cache io) → SameSlots c (move_to_lru_head io i c)
  unfolding move_to_lru_head
  move_to_lru_head-SameSlots i c =
      SameSlots-if (is_index io c.lru_head i) c c (add_to_lru_head io i (remove_from_lru io i c))
        (SameSlots-refl c)
        (SameSlots-trans (remove_from_lru-SameSlots i c) (add_to_lru_head-SameSlots i _))
