-- ===== src/Base/Splice.antt =====
-- `memcpy` into a buffer at an offset, and reads of a part of a buffer.
use Prim.Native.Nat.{ℕ, zero, suc, ◌+◌, ◌≤◌}
use mathlib.Core.Path.{◌≡◌, refl, ap, ◌∙◌}
use mathlib.Core.List.{List, [], ◌∷◌}
use native.Mathlib.Omega.{arith}
use amidb.Base.Lists.{length, take, drop, All}

module _ {ℓ} {A : Type ℓ} where
  -- The bytes from `off` on are replaced by `xs`; what falls behind the buffer is lost.
  unfoldable pub splice : List A → ℕ → List A → List A
  splice [] off xs = []
  splice (b ∷ bs) (suc off) xs = b ∷ splice bs off xs
  splice (b ∷ bs) zero [] = b ∷ bs
  splice (b ∷ bs) zero (x ∷ xs) = x ∷ splice bs zero xs

  -- `len` bytes from `off` on.
  abbrev pub slice : ℕ → ℕ → List A → List A
  slice off len bs = take len (drop off bs)

  pub length-splice : (bs : List A) (off : ℕ) (xs : List A) → length (splice bs off xs) ≡ length bs
  unfolding splice
  length-splice [] off xs = refl
  length-splice (b ∷ bs) (suc off) xs = ap suc (length-splice bs off xs)
  length-splice (b ∷ bs) zero [] = refl
  length-splice (b ∷ bs) zero (x ∷ xs) = ap suc (length-splice bs zero xs)

  -- What was written is read back, where it fits.
  pub slice-splice_self :
      (bs : List A) (off : ℕ) (xs : List A)
      → off + length xs ≤ length bs
      → slice off (length xs) (splice bs off xs) ≡ xs
  unfolding splice
  slice-splice_self [] zero [] h = refl
  slice-splice_self [] zero (x ∷ xs) h = absurd (omega arith)
  slice-splice_self [] (suc off) xs h = absurd (omega arith)
  slice-splice_self (b ∷ bs) (suc off) xs h = slice-splice_self bs off xs (omega arith)
  slice-splice_self (b ∷ bs) zero [] h = refl
  slice-splice_self (b ∷ bs) zero (x ∷ xs) h =
      ap (◌∷◌ x) (slice-splice_self bs zero xs (omega arith))

  -- A write leaves the bytes before it as they were.
  pub slice-splice_before :
      (bs : List A) (off : ℕ) (xs : List A) (at len : ℕ)
      → at + len ≤ off
      → slice at len (splice bs off xs) ≡ slice at len bs
  unfolding splice
  slice-splice_before [] off xs at len h = refl
  slice-splice_before (b ∷ bs) off xs at zero h = refl
  slice-splice_before (b ∷ bs) zero xs at (suc len) h = absurd (omega arith)
  slice-splice_before (b ∷ bs) (suc off) xs zero (suc len) h =
      ap (◌∷◌ b) (slice-splice_before bs off xs zero len (omega arith))
  slice-splice_before (b ∷ bs) (suc off) xs (suc at) (suc len) h =
      slice-splice_before bs off xs at (suc len) (omega arith)

  -- A write leaves the bytes behind it as they were.
  pub slice-splice_after :
      (bs : List A) (off : ℕ) (xs : List A) (at len : ℕ)
      → off + length xs ≤ at
      → slice at len (splice bs off xs) ≡ slice at len bs
  unfolding splice
  slice-splice_after [] off xs at len h = refl
  slice-splice_after (b ∷ bs) (suc off) xs zero len h = absurd (omega arith)
  slice-splice_after (b ∷ bs) (suc off) xs (suc at) len h =
      slice-splice_after bs off xs at len (omega arith)
  slice-splice_after (b ∷ bs) zero [] at len h = refl
  slice-splice_after (b ∷ bs) zero (x ∷ xs) zero len h = absurd (omega arith)
  slice-splice_after (b ∷ bs) zero (x ∷ xs) (suc at) len h =
      slice-splice_after bs zero xs at len (omega arith)

module _ {ℓ} {A : Type ℓ} where
  -- A write into a file, which grows if the write ends behind its end.
  unfoldable pub overwrite : List A → ℕ → List A → List A
  overwrite (b ∷ bs) (suc off) xs = b ∷ overwrite bs off xs
  overwrite [] (suc off) xs = xs
  overwrite bs zero [] = bs
  overwrite [] zero (x ∷ xs) = x ∷ overwrite [] zero xs
  overwrite (b ∷ bs) zero (x ∷ xs) = x ∷ overwrite bs zero xs

  drop-nil : (n : ℕ) → ◌≡◌ {A = List A} (drop n []) []
  drop-nil zero = refl
  drop-nil (suc n) = refl

  pub slice-overwrite_self :
      (bs : List A) (off : ℕ) (xs : List A)
      → off ≤ length bs
      → slice off (length xs) (overwrite bs off xs) ≡ xs
  unfolding overwrite
  slice-overwrite_self (b ∷ bs) (suc off) xs h = slice-overwrite_self bs off xs (omega arith)
  slice-overwrite_self [] (suc off) xs h = absurd (omega arith)
  slice-overwrite_self [] zero [] h = refl
  slice-overwrite_self (b ∷ bs) zero [] h = refl
  slice-overwrite_self [] zero (x ∷ xs) h =
      ap (◌∷◌ x) (slice-overwrite_self [] zero xs (omega arith))
  slice-overwrite_self (b ∷ bs) zero (x ∷ xs) h =
      ap (◌∷◌ x) (slice-overwrite_self bs zero xs (omega arith))

  pub slice-overwrite_before :
      (bs : List A) (off : ℕ) (xs : List A) (at len : ℕ)
      → off ≤ length bs
      → at + len ≤ off
      → slice at len (overwrite bs off xs) ≡ slice at len bs
  unfolding overwrite
  slice-overwrite_before bs off xs at zero le h = refl
  slice-overwrite_before bs zero xs at (suc len) le h = absurd (omega arith)
  slice-overwrite_before [] (suc off) xs at (suc len) le h = absurd (omega arith)
  slice-overwrite_before (b ∷ bs) (suc off) xs zero (suc len) le h =
      ap (◌∷◌ b) (slice-overwrite_before bs off xs zero len (omega arith) (omega arith))
  slice-overwrite_before (b ∷ bs) (suc off) xs (suc at) (suc len) le h =
      slice-overwrite_before bs off xs at (suc len) (omega arith) (omega arith)

  pub slice-overwrite_after :
      (bs : List A) (off : ℕ) (xs : List A) (at len : ℕ)
      → off ≤ length bs
      → off + length xs ≤ at
      → slice at len (overwrite bs off xs) ≡ slice at len bs
  unfolding overwrite
  slice-overwrite_after (b ∷ bs) (suc off) xs zero len le h = absurd (omega arith)
  slice-overwrite_after (b ∷ bs) (suc off) xs (suc at) len le h =
      slice-overwrite_after bs off xs at len (omega arith) (omega arith)
  slice-overwrite_after [] (suc off) xs at len le h = absurd (omega arith)
  slice-overwrite_after [] zero [] at len le h = refl
  slice-overwrite_after (b ∷ bs) zero [] at len le h = refl
  slice-overwrite_after [] zero (x ∷ xs) zero len le h = absurd (omega arith)
  slice-overwrite_after [] zero (x ∷ xs) (suc at) len le h =
      slice-overwrite_after [] zero xs at len (omega arith) (omega arith)
      ∙ ap (take len) (drop-nil at)
  slice-overwrite_after (b ∷ bs) zero (x ∷ xs) zero len le h = absurd (omega arith)
  slice-overwrite_after (b ∷ bs) zero (x ∷ xs) (suc at) len le h =
      slice-overwrite_after bs zero xs at len (omega arith) (omega arith)

  pub length-overwrite :
      (bs : List A) (off : ℕ) (xs : List A)
      → off ≤ length bs
      → (length bs ≤ length (overwrite bs off xs))
        × (off + length xs ≤ length (overwrite bs off xs))
  unfolding overwrite
  length-overwrite (b ∷ bs) (suc off) xs h = omega (arith, length-overwrite bs off xs (omega arith))
  length-overwrite [] (suc off) xs h = absurd (omega arith)
  length-overwrite [] zero [] h = omega arith
  length-overwrite (b ∷ bs) zero [] h = omega arith
  length-overwrite [] zero (x ∷ xs) h = omega (arith, length-overwrite [] zero xs (omega arith))
  length-overwrite (b ∷ bs) zero (x ∷ xs) h =
      omega (arith, length-overwrite bs zero xs (omega arith))

pub All-splice {ℓ κ} :
    {A : Type ℓ} (P : A → Type κ) (bs : List A) (off : ℕ) (xs : List A)
    → All P bs
    → All P xs
    → All P (splice bs off xs)
unfolding splice
All-splice P [] off xs h k = tt
All-splice P (b ∷ bs) (suc off) xs (h, hs) k = (h, All-splice P bs off xs hs k)
All-splice P (b ∷ bs) zero [] h k = h
All-splice P (b ∷ bs) zero (x ∷ xs) (h, hs) (k, ks) = (k, All-splice P bs zero xs hs ks)
