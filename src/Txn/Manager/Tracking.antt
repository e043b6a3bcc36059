-- ===== src/Txn/Manager/Tracking.antt =====
-- The pages that `txn_add_dirty_page` of src/txn/txn.c tracks.
use mathlib.Core.Bool.{false≢true}
use amidb.Base.{
  ℕ, ◌≤◌, ◌<◌, ◌≡◌, ◌≢◌, ◌⊎◌, inl, inr, refl, sym, ap, ◌∙◌, Bool, true, false, ◌||◌, List, [], ◌∷◌,
  ◌++◌, arith, leb, leb-false, le→leb, ◌==◌, length, length-append, Bool-cases,
}
use amidb.Os.File.{Dos}
use amidb.Txn.Wal.Defs.{ok, full}
use amidb.Txn.Manager.Defs.{Txn, is_listed, add_pinned, txn_add_dirty_page, txn_is_page_dirty}

is_listed-append :
    (q p : ℕ) (ps : List ℕ) → is_listed q (ps ++ (p ∷ [])) ≡ (is_listed q ps || p == q)
is_listed-append q p [] = ground arith
is_listed-append q p (r ∷ rs) = ground (arith, is_listed-append q p rs)

module _ (dos : Dos) (granted : Bool) where
  -- The pinned pages are the dirty ones, and at most 64.
  pub record IsTracked (txn : Txn dos granted) : Type 0 where
    pub same : txn.pinned_pages ≡ txn.dirty_pages
    pub bounded : length txn.dirty_pages ≤ 64

  -- A page was added to the ones of `before`.
  pub record Added (page : ℕ) (before after : Txn dos granted) : Type 0 where
    pub tracked : IsTracked after
    pub dirty : txn_is_page_dirty dos granted page after ≡ true
    pub others :
        (q : ℕ)
        → q ≢ page
        → txn_is_page_dirty dos granted q after ≡ txn_is_page_dirty dos granted q before

  Added-both :
      (page : ℕ) (txn : Txn dos granted)
      → IsTracked txn
      → length txn.dirty_pages < 64
      → Added page txn record txn {
        dirty_pages = txn.dirty_pages ++ (page ∷ []);
        pinned_pages = txn.pinned_pages ++ (page ∷ []);
      }
  unfolding txn_is_page_dirty
  Added-both page txn tracked room = record {
    tracked = record {
      same = ap (λ ps. ps ++ (page ∷ [])) tracked.same;
      bounded = omega (arith, length-append txn.dirty_pages (page ∷ []));
    };
    dirty = rw (is_listed-append page page txn.dirty_pages) (ground arith);
    others = λ q ne. rw (is_listed-append q page txn.dirty_pages) (ground arith);
  }

  Added-already :
      (page : ℕ) (txn : Txn dos granted)
      → IsTracked txn
      → txn_is_page_dirty dos granted page txn ≡ true
      → Added page txn txn
  Added-already page txn tracked here = record {
    tracked = tracked;
    dirty = here;
    others = λ q ne. refl;
  }

  -- Where the pinned pages are the dirty ones and at most 64, `txn_add_dirty_page` has two outcomes.
  -- If the page is dirty already or fewer than 64 are, it succeeds: the page is dirty, no other
  -- page's answer changes, and the two lists still agree and are bounded. If 64 others are dirty, it
  -- gives AMIDB_FULL and changes nothing.
  pub txn_add_dirty_page-Added :
      (page : ℕ) (txn : Txn dos granted)
      → IsTracked txn
      → ((txn_is_page_dirty dos granted page txn ≡ true) ⊎ (length txn.dirty_pages < 64)
          → ((txn_add_dirty_page dos granted page txn).1 ≡ ok)
            × Added page txn (txn_add_dirty_page dos granted page txn).0)
        × (txn_is_page_dirty dos granted page txn ≡ false
            → length txn.dirty_pages ≡ 64
            → txn_add_dirty_page dos granted page txn ≡ (txn, full))
  unfolding txn_add_dirty_page txn_is_page_dirty add_pinned
  txn_add_dirty_page-Added page txn tracked = elim (Bool-cases (is_listed page txn.dirty_pages)) [
    | inl here ↦
        rw here
          ((λ _. (refl, Added-already page txn tracked here)), λ e. absurd (false≢true (sym e)))
    | inr new ↦
        let unpinned : is_listed page txn.pinned_pages ≡ false =
          ap (is_listed page) tracked.same ∙ new in
        rw new (
          λ which.
              let room : length txn.dirty_pages < 64 = elim which [
                | inl e ↦ absurd (false≢true e)
                | inr lt ↦ lt
              ] in
              let below = leb-false 64 (length txn.dirty_pages) room in
              let below' : leb 64 (length txn.pinned_pages) ≡ false =
                ap (λ ps. leb 64 (length ps)) tracked.same ∙ below in
              rw (below, unpinned, below') (refl, Added-both page txn tracked room),
          λ _ e.
              let at_limit = le→leb 64 (length txn.dirty_pages) (omega arith) in rw at_limit refl,
        )
  ]
