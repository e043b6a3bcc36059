-- ===== src/Storage/Cache/Flush.antt =====
-- `cache_flush` of src/storage/cache.c, entry by entry.
use mathlib.Core.Path.{subst}
use native.Mathlib.Decide.{dec_lt}
use amidb.Base.{
  ℕ, zero, suc, ◌+◌, ◌≤◌, ◌<◌, ◌≡◌, ◌≢◌, refl, sym, ap, ◌∙◌, Bool, true, false, ◌&&◌, arith, ◌==◌,
  length, length-modify, get_or-modify_self, get_or-modify_ne, get_or-modify_keeps, Bool-cases, inl,
  inr,
}
use amidb.Storage.PageIo.{PageIo}
use amidb.Storage.Cache.Defs.{
  clean, is_dirty, Entry, Cache, blank, entry_at, change, flush_entry, on_success, flush_from,
  cache_flush,
}

-- An entry that `cache_flush` writes: dirty, and of no transaction.
pub stale : Entry → Bool
stale e = is_dirty e.state && e.txn_id == 0

owned-stale : (e : Entry) → stale e ≡ true → e.txn_id ≡ 0
unfolding stale
owned-stale e h = ground arith

module _ (io : PageIo) where
  -- What the rounds from an index up to another leave.
  pub record Swept (from to : ℕ) (c : Cache io) (r : Cache io × Bool) : Type 0 where
    pub before : (j : ℕ) → j < from → entry_at io r.0 j ≡ entry_at io c j
    pub owned : (j : ℕ) → (entry_at io c j).txn_id ≢ 0 → entry_at io r.0 j ≡ entry_at io c j
    pub same_bytes : (j : ℕ) → (entry_at io r.0 j).bytes ≡ (entry_at io c j).bytes
    pub cleaned :
        r.1 ≡ true
        → (j : ℕ) → from ≤ j
        → j < to
        → j < length c.entries
        → stale (entry_at io r.0 j) ≡ false
    pub sized : length r.0.entries ≡ length c.entries

  cleaned_entry :
      (i : ℕ) (c : Cache io) (pager : io.State)
      → stale (entry_at io c i) ≡ true
      → Swept i
          (i + 1)
          c
          (change io i (λ e. record e { state = clean }) (record c { pager = pager }), true)
  unfolding stale
  cleaned_entry i c pager h = record {
    before = λ j lt. get_or-modify_ne c.entries i j _ blank (λ e. omega arith);
    owned = λ j own.
        get_or-modify_ne c.entries i j _ blank
          (λ e. own (ap (λ k. (entry_at io c k).txn_id) (sym e) ∙ owned-stale (entry_at io c i) h));
    same_bytes = λ j. get_or-modify_keeps (λ e. e.bytes) c.entries i j _ blank (λ e. refl);
    cleaned = λ _ j lo hi inside.
        let here : i ≡ j = omega arith in
        rw
          (
            ← here,
            get_or-modify_self c.entries i (λ e. record e { state = clean }) blank (omega arith),
          )
          refl;
    sized = length-modify c.entries i _;
  }

  unswept_entry :
      (i : ℕ) (c : Cache io) (pager : io.State) (b : Bool)
      → (b ≡ true → stale (entry_at io c i) ≡ false)
      → Swept i (i + 1) c (record c { pager = pager }, b)
  unswept_entry i c pager b h = record {
    before = λ j lt. refl;
    owned = λ j own. refl;
    same_bytes = λ j. refl;
    cleaned = λ e j lo hi inside. let here : i ≡ j = omega arith in rw (← here) (h e);
    sized = refl;
  }

  flush_entry-Swept : (i : ℕ) (c : Cache io) → Swept i (i + 1) c (flush_entry io i c)
  unfolding flush_entry stale
  flush_entry-Swept i c =
      let e = entry_at io c i in
      let result = io.write_page e.page_num e.bytes c.pager in
      elim (Bool-cases (stale e)) [
        | inl dirty ↦ elim (Bool-cases result.1) [
          | inl written ↦ rw (dirty, written) (cleaned_entry i c result.0 dirty)
          | inr lost ↦ rw (dirty, lost) (unswept_entry i c result.0 false (λ e. cc))
        ]
        | inr kept ↦ rw kept (unswept_entry i c c.pager true (λ _. kept))
      ]

  Swept-on_success :
      (from to : ℕ) (c : Cache io) (r : Cache io × Bool) (next : Cache io → Cache io × Bool)
      → from < to
      → Swept from (from + 1) c r
      → ((c' : Cache io) → Swept (from + 1) to c' (next c'))
      → Swept from to c (on_success io r next)
  Swept-on_success from to c (c', false) next le h k = record {
    before = h.before;
    owned = h.owned;
    same_bytes = h.same_bytes;
    cleaned = λ e. cc;
    sized = h.sized;
  }
  Swept-on_success from to c (c', true) next le h k = record {
    before = λ j lt. (k c').before j (omega arith) ∙ h.before j lt;
    owned = λ j own.
        let same = h.owned j own in
        (k c').owned j (λ e. own (ap (λ t. t.txn_id) (sym same) ∙ e)) ∙ same;
    same_bytes = λ j. (k c').same_bytes j ∙ h.same_bytes j;
    cleaned = λ e j lo hi inside. elim (dec_lt from j) [
      | yes lt ↦ (k c').cleaned e j (omega arith) hi (rw (h.sized) inside)
      | no ge ↦ ap stale ((k c').before j (omega arith)) ∙ h.cleaned refl j lo (omega arith) inside
    ];
    sized = (k c').sized ∙ h.sized;
  }

  flush_from-Swept : (left i : ℕ) (c : Cache io) → Swept i (i + left) c (flush_from io left i c)
  unfolding flush_from
  flush_from-Swept zero i c = record {
    before = λ j lt. refl;
    owned = λ j own. refl;
    same_bytes = λ j. refl;
    cleaned = λ e j lo hi. absurd (omega arith);
    sized = refl;
  }
  flush_from-Swept (suc left) i c =
      Swept-on_success i (i + suc left) c (flush_entry io i c) _ (omega arith)
        (flush_entry-Swept i c)
        (λ c'.
          let next : i + 1 + left ≡ i + suc left = omega arith in
          subst (λ to. Swept (i + 1) to c' (flush_from io left (i + 1) c')) next
            (flush_from-Swept left (i + 1) c'))

  Swept-synced :
      (to : ℕ) (c : Cache io) (r : Cache io × Bool)
      → Swept 0 to c r
      → Swept 0 to c (on_success io r (λ c. (record c { pager = (io.sync c.pager).0 }, true)))
  Swept-synced to c (c', true) h = record {
    before = h.before;
    owned = h.owned;
    same_bytes = h.same_bytes;
    cleaned = h.cleaned;
    sized = h.sized;
  }
  Swept-synced to c (c', false) h = h

  -- `cache_flush` on a cache of as many entries as its capacity. Whether it succeeds or not, the
  -- entries of a transaction are as before, and so are the bytes of every entry. If it returns 0, no
  -- entry that is not of a transaction is dirty any more.
  pub cache_flush-Swept :
      (c : Cache io)
      → length c.entries ≡ c.capacity
      → ((j : ℕ)
          → (entry_at io c j).txn_id ≢ 0
          → entry_at io (cache_flush io c).0 j ≡ entry_at io c j)
        × ((j : ℕ) → (entry_at io (cache_flush io c).0 j).bytes ≡ (entry_at io c j).bytes)
        × ((cache_flush io c).1 ≡ true
            → (j : ℕ) → j < c.capacity
            → stale (entry_at io (cache_flush io c).0 j) ≡ false)
  unfolding cache_flush
  cache_flush-Swept c sized =
      let swept =
        Swept-synced (0 + c.capacity) c (flush_from io c.capacity 0 c)
          (flush_from-Swept c.capacity 0 c) in
      (
        swept.owned,
        swept.same_bytes,
        λ e j lt. swept.cleaned e j (omega arith) (omega arith) (omega arith),
      )
