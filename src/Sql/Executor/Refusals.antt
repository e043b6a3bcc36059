-- ===== src/Sql/Executor/Refusals.antt =====
-- Which tables CREATE TABLE makes in src/sql/executor.c.
use amidb.Base.{
  ℕ, suc, ◌+◌, ◌<◌, ◌≤◌, ◌≡◌, ◌≢◌, refl, ap, ◌∙◌, Bool, true, false, none, some, List, [], ◌∷◌, ◌⊎◌,
  inl, inr, if◌then◌else◌, arith, get_or, All, take,
}
use native.Mathlib.Nat.{zero-add}
use native.Mathlib.Decide.{ℕ_discrete, dec_lt}
use amidb.Os.File.{Dos}
use amidb.Sql.Parser.Ast.{SqlColumnDef, SqlCreateTable}
use amidb.Sql.Catalog.Ops.{catalog_create_table}
use amidb.Sql.Executor.Values.{
  Message, empty_table_name, no_columns, too_many_columns, empty_column_name, invalid_type,
  many_keys, key_column_type, table_exists, is_empty, check_column, or_rest, check_columns,
  check_key_type, check_keys, check_table,
}
use amidb.Sql.Executor.Ops.{
  Executor, with_error, or_stop, on_catalog, create_checked, executor_create_table,
}

-- The first character is not the end of the text.
abbrev pub Named : List ℕ → Type 0
Named name = get_or name 0 0 ≢ 0

-- A name, and one of the types INTEGER, TEXT and BLOB.
abbrev pub IsColumn : SqlColumnDef → Type 0
IsColumn col = Named col.name × ((0 < col.type) × (col.type < 4))

-- A PRIMARY KEY is an INTEGER.
abbrev pub HasKeyType : SqlColumnDef → Type 0
HasKeyType col = col.is_primary_key ≡ true → col.type ≡ 1

abbrev pub key_count : List SqlColumnDef → ℕ
key_count [] = 0
key_count (col ∷ cols) = let rest = key_count cols in if col.is_primary_key then suc rest else rest

check_column-IsColumn :
    (col : SqlColumnDef)
    → (IsColumn col × (check_column col ≡ none))
      ⊎ ((¬ IsColumn col) × ((m : Message) × (check_column col ≡ some m)))
unfolding check_column is_empty
check_column-IsColumn col = elim (ℕ_discrete (get_or col.name 0 0) 0) [
  | yes empty ↦ inr (λ h. h.0 empty, (empty_column_name, ground (arith, empty)))
  | no named ↦ elim (dec_lt 0 col.type) [
    | yes above ↦ elim (dec_lt col.type 4) [
      | yes below ↦ inl ((named, (above, below)), ground (arith, named, above, below))
      | no beyond ↦ inr (λ h. beyond h.1.1, (invalid_type, ground (arith, named, beyond)))
    ]
    | no below ↦ inr (λ h. below h.1.0, (invalid_type, ground (arith, named, below)))
  ]
]

-- The loop over `cols` has found `n` keys before.
abbrev Checked : List SqlColumnDef → ℕ → Message ⊎ ℕ → Type 0
Checked cols n result =
    (All IsColumn cols × (result ≡ inr n))
    ⊎ ((¬ All IsColumn cols) × ((m : Message) × (result ≡ inl m)))

Checked-key :
    (cols : List SqlColumnDef) (n k : ℕ) (found : Bool) (one more : Message ⊎ ℕ)
    → Checked cols ((n + 1) + k) one
    → Checked cols (n + k) more
    → Checked cols (n + (if found then suc k else k)) (if found then one else more)
Checked-key cols n k true one more (inl (h, e)) m = inl (h, e ∙ ap inr (omega arith))
Checked-key cols n k true one more (inr bad) m = inr bad
Checked-key cols n k false one more o m = m

Checked-cons :
    (col : SqlColumnDef) (cols : List SqlColumnDef) (n : ℕ) (rest : Message ⊎ ℕ)
    → Checked cols n rest
    → Checked (col ∷ cols) n (or_rest (check_column col) rest)
unfolding or_rest
Checked-cons col cols n rest h = elim (check_column-IsColumn col) [
  | inl good ↦ rw good.1 (elim h [
    | inl (all, e) ↦ inl ((good.0, all), e)
    | inr (bad, stops) ↦ inr (λ all. bad all.1, stops)
  ])
  | inr (bad, (m, e)) ↦ inr (λ all. bad all.0, (m, rw e refl))
]

check_columns-All :
    (n : ℕ) (cols : List SqlColumnDef) → Checked cols (n + key_count cols) (check_columns n cols)
unfolding check_columns
check_columns-All n [] = inl (tt, ap inr (omega arith))
check_columns-All n (col ∷ cols) = Checked-cons col cols _ _ (
    Checked-key cols n (key_count cols) col.is_primary_key _ _ (check_columns-All (n + 1) cols)
      (check_columns-All n cols))

no_keys-HasKeyType : (cols : List SqlColumnDef) → key_count cols ≡ 0 → All HasKeyType cols
no_keys-HasKeyType [] h = tt
no_keys-HasKeyType (col ∷ cols) h = go (no_keys-HasKeyType cols) col.is_primary_key refl
  where
    go :
        (key_count cols ≡ 0 → All HasKeyType cols)
        → (b : Bool) → col.is_primary_key ≡ b
        → All HasKeyType (col ∷ cols)
    go rest true e = absurd (ground (arith, h, e))
    go rest false e = (λ key. cc, rest (ground (arith, h, e)))

-- With one PRIMARY KEY.
abbrev KeyChecked : List SqlColumnDef → Type 0
KeyChecked cols =
    (All HasKeyType cols × (check_key_type cols ≡ none))
    ⊎ ((¬ All HasKeyType cols) × ((m : Message) × (check_key_type cols ≡ some m)))

check_key_type-All : (cols : List SqlColumnDef) → key_count cols ≡ 1 → KeyChecked cols
unfolding check_key_type
check_key_type-All [] h = absurd (omega (arith, h))
check_key_type-All (col ∷ cols) h = go (check_key_type-All cols) col.is_primary_key refl
  where
    go :
        (key_count cols ≡ 1 → KeyChecked cols)
        → (b : Bool) → col.is_primary_key ≡ b
        → KeyChecked (col ∷ cols)
    go rest false e = elim (rest (ground (arith, h, e))) [
      | inl good ↦ inl (((λ key. cc), good.0), rw e good.1)
      | inr (bad, (m, stops)) ↦ inr (λ all. bad all.1, (m, rw e stops))
    ]
    go rest true e = elim (ℕ_discrete col.type 1) [
      | yes integer ↦ inl (
        ((λ key. integer), no_keys-HasKeyType cols (ground (arith, h, e))),
        ground (arith, e, integer),
      )
      | no other ↦ inr (λ all. other (all.0 e), (key_column_type, ground (arith, e, other)))
    ]

-- A table that can be created.
pub record IsTable (stmt : SqlCreateTable) : Type 0 where
  pub named : Named stmt.table_name
  pub some_columns : 0 < stmt.column_count
  pub few_columns : stmt.column_count ≤ 32
  pub columns : All IsColumn (take stmt.column_count stmt.columns)
  pub one_key : key_count (take stmt.column_count stmt.columns) ≤ 1
  pub key_type : All HasKeyType (take stmt.column_count stmt.columns)

abbrev KeysChecked : List SqlColumnDef → Message ⊎ ℕ → Type 0
KeysChecked cols result =
    (All IsColumn cols
      × ((key_count cols ≤ 1) × All HasKeyType cols)
      × (check_keys cols result ≡ none))
    ⊎ ((¬ (All IsColumn cols × ((key_count cols ≤ 1) × All HasKeyType cols)))
        × ((m : Message) × (check_keys cols result ≡ some m)))

keys-from :
    (cols : List SqlColumnDef) (result : Message ⊎ ℕ)
    → Checked cols (key_count cols) result
    → KeysChecked cols result
unfolding check_keys
keys-from cols result (inr (bad, (m, e))) = inr (λ h. bad h.0, (m, rw e refl))
keys-from cols result (inl (all, e)) = rw e (elim (dec_lt 1 (key_count cols)) [
  | yes many ↦ inr (λ h. omega (arith, many, h.1.0), (many_keys, ground (arith, many)))
  | no few ↦ elim (ℕ_discrete (key_count cols) 1) [
    | no other ↦ inl (
      all,
      (omega (arith, few), no_keys-HasKeyType cols (omega (arith, few, other))),
      ground (arith, few, other),
    )
    | yes one ↦ elim (check_key_type-All cols one) [
      | inl good ↦ inl (all, (omega (arith, one), good.0), ground (arith, one, good.1))
      | inr (bad, (m, stops)) ↦ inr (λ h. bad h.1.1, (m, ground (arith, one, stops)))
    ]
  ]
])

check_table-IsTable :
    (stmt : SqlCreateTable)
    → (IsTable stmt × (check_table stmt ≡ none))
      ⊎ ((¬ IsTable stmt) × ((m : Message) × (check_table stmt ≡ some m)))
unfolding check_table is_empty
check_table-IsTable stmt =
    let cols = take stmt.column_count stmt.columns in
    elim (ℕ_discrete (get_or stmt.table_name 0 0) 0) [
      | yes empty ↦ inr (λ h. h.named empty, (empty_table_name, ground (arith, empty)))
      | no named ↦ elim (ℕ_discrete stmt.column_count 0) [
        | yes zeroth ↦ inr (
          λ h. omega (arith, zeroth, h.some_columns),
          (no_columns, ground (arith, named, zeroth)),
        )
        | no any ↦ elim (dec_lt 32 stmt.column_count) [
          | yes many ↦ inr (
            λ h. omega (arith, many, h.few_columns),
            (too_many_columns, ground (arith, named, any, many)),
          )
          | no few ↦
              elim (keys-from cols (check_columns 0 cols)
                (simp zero-add at (check_columns-All 0 cols))) [
                  | inl (all, (few_keys, typed), passes) ↦ inl (
                    record {
                      named = named;
                      some_columns = omega (arith, any);
                      few_columns = omega (arith, few);
                      columns = all;
                      one_key = few_keys;
                      key_type = typed;
                    },
                    ground (arith, named, any, few, passes),
                  )
                  | inr (bad, (m, stops)) ↦ inr (
                    λ h. bad (h.columns, (h.one_key, h.key_type)),
                    (m, ground (arith, named, any, few, stops)),
                  )
                ]
        ]
      ]
    ]

-- CREATE TABLE runs the catalog's operation, and reports an existing table when that fails, if the
-- table has a name, from 1 to 32 columns, each with a name and a type, and at most one PRIMARY KEY,
-- which is an INTEGER; for every other statement it stops with an error message and has changed nothing
-- else.
pub executor_create_table-IsTable :
    (dos : Dos) (granted big : Bool) (levels : ℕ) (stmt : SqlCreateTable)
    (exec : Executor dos granted)
    → (IsTable stmt
        × (executor_create_table big levels stmt exec
            ≡ or_stop
                (on_catalog (catalog_create_table big levels stmt))
                (table_exists stmt.table_name)
                exec))
      ⊎ ((¬ IsTable stmt)
          × ((m : Message) × (executor_create_table big levels stmt exec
                ≡ (with_error m exec, none))))
executor_create_table-IsTable dos granted big levels stmt exec = elim (check_table-IsTable stmt) [
  | inl (good, passes) ↦ inl (
    good,
    unfold executor_create_table create_checked in
        ap (λ r. create_checked big levels stmt r exec) passes,
  )
  | inr (bad, (m, stops)) ↦ inr (
    bad,
    (
      m,
      unfold executor_create_table create_checked in
          ap (λ r. create_checked big levels stmt r exec) stops,
    ),
  )
]
