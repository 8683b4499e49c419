-- ===== src/Platform/Cascade/Steps.antt =====
-- Actions that only take rows away, and what they take away for good.
use sarra.Common.{
  ℕ, String, ◌≡◌, refl, Bool, true, false, not, List, [], ◌∷◌, arith, str_eq, eq_iff, any, filter,
  Bool-cases, inl, inr,
}
use sarra.Common.Dict.{Dict}
use sarra.Value.{Value}
use sarra.Platform.Codec.{Row}
use sarra.Platform.Table.{
  Result, ok, err, Db, Catalog, set_table, has_uuid, column, is_nil, bind, sql_eq, equals_all,
  usable, delete, delete_where,
}
use sarra.Platform.Table.Laws.{filter_other, set_table_same}
use sarra.Platform.Cascade.{Action, continue, ◌▷◌, return, execute, for_each, purge}

-- No row of `table` passes the test.
abbrev pub Absent : String → (Row → Bool) → Db → Type 0
Absent table p db = any p (db table) ≡ false

-- An action takes the tables from one state to another that stands in relation `r` to it.
abbrev pub Takes {ℓ} : (Db → Db → Type 0) → {A : Type ℓ} → Action A → Type 0
Takes r m = (db : Db) → r db (m db).1

-- Whatever had no row before has none afterwards.
abbrev pub Shrinks : Db → Db → Type 0
Shrinks d e = (table : String) (p : Row → Bool) → Absent table p d → Absent table p e

-- The rows of `table` that pass the test are as they were.
abbrev pub Keeps : String → (Row → Bool) → Db → Db → Type 0
Keeps table p d e = filter p (e table) ≡ filter p (d table)

any-filter :
    (p q : Row → Bool) (rows : List Row) → any p rows ≡ false → any p (filter q rows) ≡ false
any-filter p q [] h = refl
any-filter p q (row ∷ rows) h = ground (arith, any-filter p q rows)

pub any-filter_self :
    (p q : Row → Bool) (rows : List Row)
    → ((row : Row) → q row ≡ p row)
    → any p (filter (λ row. not (q row)) rows) ≡ false
any-filter_self p q [] h = refl
any-filter_self p q (row ∷ rows) h = ground (arith, any-filter_self p q rows h, h row)

module _ (r : Db → Db → Type 0) (stay : (d : Db) → r d d)
    (trans : (d e f : Db) → r d e → r e f → r d f) where
  return-Takes {ℓ} : {A : Type ℓ} (a : A) → Takes r (return a)
  return-Takes a db = stay db

  continue_takes {ℓ κ} :
      {A : Type ℓ} {B : Type κ} (x : Result A × Db) (f : A → Action B)
      → ((a : A) → Takes r (f a))
      → r x.1 (continue x f).1
  continue_takes (ok a, db) f s = s a db
  continue_takes (err e, db) f s = stay db

  pub then-Takes {ℓ κ} :
      {A : Type ℓ} {B : Type κ} (m : Action A) (f : A → Action B)
      → Takes r m
      → ((a : A) → Takes r (f a))
      → Takes r (m ▷ f)
  then-Takes m f s t db = trans db (m db).1 ((m ▷ f) db).1 (s db) (continue_takes (m db) f t)

  pub for_each-Takes {ℓ κ} :
      {A : Type ℓ} {B : Type κ} (xs : List A) (f : A → Action B)
      → ((a : A) → Takes r (f a))
      → Takes r (for_each xs f)
  unfolding for_each
  for_each-Takes [] f s db = stay db
  for_each-Takes (x ∷ xs) f s db =
      then-Takes (f x) (λ _. for_each xs f) (s x) (λ _. for_each-Takes xs f s) db

-- A row that a condition `key = ?` selects.
abbrev pub refers : String → Value → Row → Bool
refers key v row = sql_eq (column row key) (bind v)

filtered :
    (table : String) (keep : Row → Bool) (db : Db) (t : String) (p : Row → Bool)
    → Absent t p db
    → Absent t p (set_table db table (filter keep (db table)))
filtered table keep db t p h = ground (arith, eq_iff table t, any-filter p keep (db table))

refers_one :
    (key : String) (v : Value) (row : Row) → equals_all ((key, v) ∷ []) row ≡ refers key v row
unfolding equals_all
refers_one key v row = ground arith

kept_rows :
    (table : String) (keep : Row → Bool) (db : Db) (t : String) (p : Row → Bool)
    → (t ≡ table → filter p (filter keep (db table)) ≡ filter p (db table))
    → Keeps t p db (set_table db table (filter keep (db table)))
kept_rows table keep db t p h = elim (Bool-cases (str_eq table t)) [
  | inl e ↦ let same : t ≡ table = ground (arith, eq_iff table t, e) in rw e (rw same (h same))
  | inr e ↦ rw e refl
]

module _ (cat : Catalog) where
  pub delete-Shrinks : (table uuid : String) → Takes Shrinks (execute (delete cat table uuid))
  unfolding delete
  delete-Shrinks table uuid db t p h = elim (Bool-cases (cat.known table)) [
    | inl e ↦ rw e (filtered table (λ row. not (has_uuid uuid row)) db t p h)
    | inr e ↦ rw e h
  ]

  pub delete_where-Shrinks :
      (table : String) (where_ : Dict Value)
      → Takes Shrinks (execute (delete_where cat table where_))
  unfolding delete_where
  delete_where-Shrinks table [] db t p h = elim (Bool-cases (cat.known table)) [
    | inl e ↦ rw e h
    | inr e ↦ rw e h
  ]
  delete_where-Shrinks table (c ∷ where_) db t p h = elim (Bool-cases (cat.known table)) [
    | inl e ↦ elim (Bool-cases (is_nil (usable cat table (c ∷ where_)))) [
      | inl e2 ↦ rw (e, e2) h
      | inr e2 ↦
          rw (e, e2)
            (filtered table (λ row. not (equals_all (usable cat table (c ∷ where_)) row)) db t p h)
    ]
    | inr e ↦ rw e h
  ]

  -- A purge by a column that the table has succeeds, and no row that refers to the value is left.
  pub purge_lem :
      (table key : String) (v : Value)
      → cat.known table ≡ true
      → cat.columns table key ≡ true
      → (db : Db)
      → (n : ℕ) × ((purge cat table key v db).0 ≡ ok n)
        × Absent table (refers key v) (purge cat table key v db).1
  unfolding delete_where usable
  purge_lem table key v k c db =
      rw (k, c)
        (
          _,
          refl,
          rw
              (set_table_same db table
                (filter (λ row. not (equals_all ((key, v) ∷ []) row)) (db table)))
              (any-filter_self (refers key v) (equals_all ((key, v) ∷ [])) (db table)
                (refers_one key v)),
        )

  -- What a purge keeps: every other table, and the rows that do not refer to the value.
  pub purge-Keeps :
      (table key : String) (v : Value) (t : String) (p : Row → Bool)
      → ((row : Row) → t ≡ table → p row ≡ true → refers key v row ≡ false)
      → Takes (Keeps t p) (purge cat table key v)
  unfolding delete_where usable
  purge-Keeps table key v t p h db = elim (Bool-cases (cat.known table)) [
    | inl e ↦ elim (Bool-cases (cat.columns table key)) [
      | inl e2 ↦
          rw (e, e2)
            (kept_rows table (λ row. not (equals_all ((key, v) ∷ []) row)) db t p
              (λ same.
                filter_other (equals_all ((key, v) ∷ [])) p
                  (λ row yes. rw (refers_one key v row) (h row same yes)) (db table)))
      | inr e2 ↦ rw (e, e2) refl
    ]
    | inr e ↦ rw e refl
  ]
