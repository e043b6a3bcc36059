-- ===== src/Sql/Executor/Typed.antt =====
-- The rows that INSERT builds in src/sql/executor.c, against the types of the table's columns.
use amidb.Base.{
  ℕ, zero, suc, ◌+◌, ◌<◌, ◌≤◌, ◌≡◌, refl, ap, ◌∙◌, Bool, true, some, List, [], ◌∷◌, ◌++◌, ◌⊎◌, inl,
  inr, if◌then◌else◌, arith, length, get_or, All, take, none, ◌==◌,
}
use amidb.Base.Effect.{and_then}
use amidb.Os.File.{Dos}
use native.Mathlib.Nat.{zero-add}
use native.Mathlib.Decide.{ℕ_discrete}
use amidb.Storage.Row.Defs.{
  Value, null, integer, text, Row, ok, store_value, row_set_int, row_set_text, row_set_null,
  row_get_value, row_init,
}
use amidb.Storage.Row.Valid.{IsValid, row_init-IsValid}
use amidb.Storage.Row.Setters.{Stored, store_value-Stored, NoNul, strlen-append, copy-append}
use amidb.Sql.Parser.Ast.{SqlInsert, SqlValue, SqlColumnDef, empty_value}
use amidb.Sql.Catalog.Schema.{TableSchema}
use amidb.Sql.Catalog.Ops.{empty_column}
use amidb.Sql.Executor.Values.{
  expected_integer, expected_text, unsupported_value, Message, set_value, set_values, set_or_keep,
  next_value,
}
use amidb.Sql.Executor.Ops.{Executor, with_error, told, insert_built, insert_row}

-- NULL goes into every column, an integer and a text into a column of their own type.
abbrev pub Fits : SqlValue → SqlColumnDef → Type 0
Fits val col =
    ((val.type ≡ 1) × (col.type ≡ 1)) ⊎ (((val.type ≡ 2) × (col.type ≡ 2)) ⊎ (val.type ≡ 4))

-- The row's value for a value of the statement.
abbrev pub value_as : SqlValue → Value
value_as val =
    if val.type == 1
    then integer val.int_value
    else if val.type == 2
    then text val.text_value
    else null

module _ (mem_alloc : ℕ → Bool) (i : ℕ) (val : SqlValue) (col : SqlColumnDef) (row : Row) where
  Stores : Type 0
  Stores =
      Fits val col × (set_value mem_alloc i val col row ≡ inr (store_value row i (value_as val)))

  Refuses : Type 0
  Refuses = (¬ Fits val col) × ((m : Message) × (set_value mem_alloc i val col row ≡ inl m))

  text-step :
      ((n : ℕ) → mem_alloc n ≡ true)
      → NoNul val.text_value
      → i < 32
      → row_set_text mem_alloc row i (val.text_value ++ (0 ∷ [])) 0
        ≡ ok (store_value row i (text val.text_value))
  unfolding row_set_text
  text-step g clean lt = ground (
    arith,
    lt,
    strlen-append val.text_value [] clean,
    copy-append mem_alloc val.text_value (0 ∷ []) g,
  )

  set_value-step : ((n : ℕ) → mem_alloc n ≡ true) → NoNul val.text_value → i < 32 → Stores ⊎ Refuses
  unfolding Stores Refuses set_value row_set_int row_set_null set_or_keep
  set_value-step g clean lt = elim (ℕ_discrete val.type 1) [
    | yes one ↦ elim (ℕ_discrete col.type 1) [
      | yes same ↦ inl (inl (one, same), ground (arith, one, same, lt))
      | no other ↦ inr (
        λ fits. ground (arith, one, other, fits),
        (expected_integer col.name, ground (arith, one, other)),
      )
    ]
    | no not_one ↦ elim (ℕ_discrete val.type 2) [
      | yes two ↦ elim (ℕ_discrete col.type 2) [
        | yes same ↦
            inl (inr (inl (two, same)), ground (arith, two, same, lt, text-step g clean lt))
        | no other ↦ inr (
          λ fits. ground (arith, two, other, fits),
          (expected_text col.name, ground (arith, two, other)),
        )
      ]
      | no not_two ↦ elim (ℕ_discrete val.type 4) [
        | yes four ↦ inl (inr (inr four), ground (arith, four, lt))
        | no not_four ↦ inr (
          λ fits. ground (arith, fits, not_one, not_two, not_four),
          (unsupported_value col.name, ground (arith, not_one, not_two, not_four)),
        )
      ]
    ]
  ]

-- From column `i` on every value is at its column, with the type that the column has.
record Built (vals : List SqlValue) (cols : List SqlColumnDef) (i : ℕ) (row row' : Row)
    : Type 0 where
  count : row'.column_count ≡ i + length vals
  typed :
      (j : ℕ)
      → j < length vals
      → Fits (get_or vals j empty_value) (get_or cols (i + j) empty_column)
        × (row_get_value row' (i + j) ≡ some (value_as (get_or vals j empty_value)))
  kept : (j : ℕ) → j < i → row_get_value row' j ≡ row_get_value row j

Built-cons :
    (val : SqlValue) (vals : List SqlValue) (cols : List SqlColumnDef) (i : ℕ) (row next row' : Row)
    → row.column_count ≡ i
    → Fits val (get_or cols i empty_column)
    → Stored row i (value_as val) next
    → Built vals cols (i + 1) next row'
    → Built (val ∷ vals) cols i row row'
Built-cons val vals cols i row next row' c fits stored b = record {
  count = omega (arith, b.count);
  typed = at;
  kept = λ j lt.
      b.kept j (omega (arith, lt)) ∙ stored.kept j (omega (arith, lt)) (omega (arith, lt, c));
}
  where
    at :
        (j : ℕ)
        → j < suc (length vals)
        → Fits (get_or (val ∷ vals) j empty_value) (get_or cols (i + j) empty_column)
          × (row_get_value row' (i + j) ≡ some (value_as (get_or (val ∷ vals) j empty_value)))
    at zero lt =
        let same : i + 0 ≡ i = omega arith in rw same (fits, b.kept i (omega arith) ∙ stored.stored)
    at (suc j) lt =
        let shifted : i + suc j ≡ (i + 1) + j = omega arith in
        rw shifted (b.typed j (omega (arith, lt)))

-- A value does not fit.
Misfit : List SqlValue → List SqlColumnDef → ℕ → Type 0
Misfit vals cols i =
    (j : ℕ) × (j < length vals)
    × (¬ Fits (get_or vals j empty_value) (get_or cols (i + j) empty_column))

FromColumn : (ℕ → ℕ → Bool) → List SqlValue → List SqlColumnDef → ℕ → Row → Type 0
FromColumn mem_alloc vals cols i row =
    ((row' : Row) × (set_values mem_alloc i vals cols row ≡ inr row') × Built vals cols i row row')
    ⊎ ((m : Message) × (set_values mem_alloc i vals cols row ≡ inl m) × Misfit vals cols i)

Misfit-cons :
    (val : SqlValue) (vals : List SqlValue) (cols : List SqlColumnDef) (i : ℕ)
    → Misfit vals cols (i + 1)
    → Misfit (val ∷ vals) cols i
unfolding Misfit
Misfit-cons val vals cols i (j, lt, bad) =
    let shifted : i + suc j ≡ (i + 1) + j = omega arith in
    (suc j, omega (arith, lt), rw shifted bad)

Misfit-here :
    (val : SqlValue) (vals : List SqlValue) (cols : List SqlColumnDef) (i : ℕ)
    → (¬ Fits val (get_or cols i empty_column))
    → Misfit (val ∷ vals) cols i
unfolding Misfit
Misfit-here val vals cols i bad =
    let same : i + 0 ≡ i = omega arith in (0, omega arith, rw same bad)

set_values-from :
    (mem_alloc : ℕ → ℕ → Bool) (i : ℕ) (vals : List SqlValue) (cols : List SqlColumnDef) (row : Row)
    → ((c n : ℕ) → mem_alloc c n ≡ true)
    → All (λ val. NoNul val.text_value) vals
    → i + length vals ≤ 32
    → IsValid row
    → row.column_count ≡ i
    → FromColumn mem_alloc vals cols i row
unfolding FromColumn Stores Refuses set_values next_value
set_values-from mem_alloc i [] cols row g clean fit v c = inl (
  row,
  refl,
  record {
    count = omega (arith, c);
    typed = λ j lt. absurd (omega (arith, lt));
    kept = λ j lt. refl;
  },
)
set_values-from mem_alloc i (val ∷ vals) cols row g (clean, cleans) fit v c =
    elim (set_value-step (mem_alloc i) i val (get_or cols i empty_column) row (g i) clean
      (omega arith)) [
        | inl stores ↦
            let next = store_value row i (value_as val) in
            let stored = store_value-Stored row i (value_as val) v (omega arith) in
            elim (set_values-from mem_alloc (i + 1) vals cols next g cleans (omega arith)
              stored.valid (unfold store_value in ground (arith, c))) [
                | inl built ↦ inl (
                  built.0,
                  ap (λ r. next_value r (set_values mem_alloc (i + 1) vals cols)) stores.1
                      ∙ built.1,
                  Built-cons val vals cols i row next built.0 c stores.0 stored built.2,
                )
                | inr misfit ↦ inr (
                  misfit.0,
                  ap (λ r. next_value r (set_values mem_alloc (i + 1) vals cols)) stores.1
                      ∙ misfit.1,
                  Misfit-cons val vals cols i misfit.2,
                )
              ]
        | inr refuses ↦ inr (
          refuses.1.0,
          ap (λ r. next_value r (set_values mem_alloc (i + 1) vals cols)) refuses.1.1,
          Misfit-here val vals cols i refuses.0,
        )
      ]

row_init-count : row_init.column_count ≡ 0
unfolding row_init
row_init-count = refl

-- The values of the statement.
abbrev pub given : SqlInsert → List SqlValue
given insert_stmt = take insert_stmt.value_count insert_stmt.values

-- The row has one column for each value, of a type that fits, and each reads back.
abbrev pub IsTyped : List SqlValue → List SqlColumnDef → Row → Type 0
IsTyped vals cols row =
    (row.column_count ≡ length vals)
    × ((j : ℕ)
        → j < length vals
        → Fits (get_or vals j empty_value) (get_or cols j empty_column)
          × (row_get_value row j ≡ some (value_as (get_or vals j empty_value))))

-- Some value does not fit its column.
abbrev pub IsMistyped : List SqlValue → List SqlColumnDef → Type 0
IsMistyped vals cols =
    (j : ℕ) × (j < length vals) × (¬ Fits (get_or vals j empty_value) (get_or cols j empty_column))

-- With memory granted, an INSERT of at most 32 values whose texts hold no NUL either builds a row with
-- one column for each value, where every value, an integer for a column of type INTEGER, a text for
-- one of type TEXT, or NULL, is read back from its column, or has a value that is none of these; then
-- it stops with an error message and has changed nothing else.
pub insert_row-Fits :
    (dos : Dos) (granted big : Bool) (levels : ℕ) (mem_alloc : ℕ → ℕ → Bool)
    (insert_stmt : SqlInsert) (schema : TableSchema) (exec : Executor dos granted)
    → ((c n : ℕ) → mem_alloc c n ≡ true)
    → All (λ val. NoNul val.text_value) (given insert_stmt)
    → length (given insert_stmt) ≤ 32
    → ((row : Row) × (set_values mem_alloc 0 (given insert_stmt) schema.columns row_init ≡ inr row)
        × IsTyped (given insert_stmt) schema.columns row)
      ⊎ (IsMistyped (given insert_stmt) schema.columns
          × ((m : Message) × (insert_row big levels mem_alloc insert_stmt schema exec
                ≡ (with_error m exec, none))))
unfolding FromColumn Misfit
insert_row-Fits dos granted big levels mem_alloc insert_stmt schema exec g clean fit =
    elim (set_values-from mem_alloc 0 (given insert_stmt) schema.columns row_init g clean
      (omega (arith, fit)) row_init-IsValid row_init-count) [
        | inl built ↦ inl (
          built.0,
          built.1,
          (built.2.count ∙ omega arith, λ j lt. simp zero-add at (built.2.typed j lt)),
        )
        | inr (m, stops, (j, lt, bad)) ↦ inr (
          (j, lt, simp zero-add at bad),
          (
            m,
            unfold insert_row in
                ap (λ r. and_then (told r exec) (insert_built big levels schema)) stops,
          ),
        )
      ]
