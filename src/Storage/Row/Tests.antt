-- ===== src/Storage/Row/Tests.antt =====
-- Rows at concrete inputs: the theorems of this part applied, and runs of the code.
use amidb.Base.{
  ℕ, ◌+◌, ◌≤◌, ◌<◌, ◌≡◌, ◌≢◌, refl, Bool, true, none, some, List, [], ◌∷◌, ◌++◌, arith, length,
}
use amidb.Util.Endian.{put_u16, get_u16, put_u32, get_u32}
use amidb.Storage.Row.Defs.{
  integer, text, Row, row_init, store_value, columns, row_serialize, row_get_serialized_size, done,
  failed, stray, row_deserialize,
}
use amidb.Storage.Row.RoundTrip.{total}
use amidb.Storage.Row.Valid.{
  IsValid, row_init-IsValid, store_value-IsValid, row_deserialize-row_serialize,
  row_serialize_exact,
}
use amidb.Storage.Row.Outcomes.{
  Ends, row_deserialize-Ends, row_deserialize-empty_text, row_deserialize-wrapped_size,
}

program : Unit {0}
unfolding row_init store_value row_serialize row_deserialize put_u16 get_u16 put_u32 get_u32
program = tt

abbrev granted : ℕ → ℕ → Bool
granted i n = true

-- (7, 'Hi')
abbrev sample : Row
sample = store_value (store_value row_init 0 (integer 7)) 1 (text (72 ∷ 105 ∷ []))

abbrev sample_bytes : List ℕ
sample_bytes = 2 ∷ 0 ∷ 1 ∷ 7 ∷ 0 ∷ 0 ∷ 0 ∷ 2 ∷ 2 ∷ 0 ∷ 0 ∷ 0 ∷ 72 ∷ 105 ∷ []

sample-IsValid : IsValid sample
sample-IsValid =
    store_value-IsValid _ 1 _ (store_value-IsValid row_init 0 _ row_init-IsValid (omega arith))
      (omega arith)

serialize-sample : row_serialize sample 64 ≡ some sample_bytes
unfolding program
serialize-sample = refl

row_deserialize-row_serialize_example :
    row_deserialize granted row_init (sample_bytes ++ (9 ∷ [])) 15 ≡ done sample 14
unfolding program
row_deserialize-row_serialize_example =
    row_deserialize-row_serialize granted sample row_init 64 15 sample_bytes (9 ∷ []) (λ i n. refl)
      sample-IsValid (omega arith) serialize-sample (omega arith) (omega arith)

row_serialize_exact_example :
    (row_get_serialized_size sample ≡ 2 + total (columns sample))
    × (13 < row_get_serialized_size sample → row_serialize sample 13 ≡ none)
    × (row_get_serialized_size sample ≤ 13
        → (bytes : List ℕ) × (row_serialize sample 13 ≡ some bytes)
          × (length bytes ≡ row_get_serialized_size sample))
unfolding program
row_serialize_exact_example = row_serialize_exact sample 13 sample-IsValid (omega arith)

row_deserialize-Ends_example :
    (15 < 2 → row_deserialize granted sample (sample_bytes ++ (9 ∷ [])) 15 ≡ failed sample)
    × (2 ≤ 15
        → Ends
            (get_u16 (sample_bytes ++ (9 ∷ [])))
            15
            (row_deserialize granted sample (sample_bytes ++ (9 ∷ [])) 15))
row_deserialize-Ends_example =
    row_deserialize-Ends granted sample (sample_bytes ++ (9 ∷ [])) 15 (omega arith)

abbrev empty_text : Row
empty_text = store_value row_init 0 (text [])

row_deserialize-empty_text_example :
    row_deserialize granted row_init (1 ∷ 0 ∷ 2 ∷ 0 ∷ 0 ∷ 0 ∷ 0 ∷ 88 ∷ 0 ∷ []) 7 ≢ done empty_text 7
unfolding program
row_deserialize-empty_text_example =
    row_deserialize-empty_text granted row_init empty_text 88 7 7 (1 ∷ 0 ∷ 2 ∷ 0 ∷ 0 ∷ 0 ∷ 0 ∷ [])
      (0 ∷ []) (store_value-IsValid row_init 0 _ row_init-IsValid (omega arith)) refl refl
      (omega arith)

-- What it reads instead.
empty_text_reads :
    row_deserialize granted row_init (1 ∷ 0 ∷ 2 ∷ 0 ∷ 0 ∷ 0 ∷ 0 ∷ 88 ∷ 0 ∷ []) 7
    ≡ done (store_value row_init 0 (text (88 ∷ []))) 7
unfolding program
empty_text_reads = refl

row_deserialize-wrapped_size_example :
    row_deserialize granted row_init (1 ∷ 0 ∷ 3 ∷ (put_u32 4294967295 ++ (5 ∷ []))) 8 ≡ stray
row_deserialize-wrapped_size_example =
    row_deserialize-wrapped_size granted row_init 4294967295 (5 ∷ []) (λ i n. refl) (omega arith)
      (omega arith) (omega arith)
