-- ===== src/Platform/Table.antt =====
-- The generic operations of syte/platform/store.py on one table at a time: insert, get, find,
-- update, delete, delete_where, count. SQLite is modelled as far as these use it: a table is the
-- list of its rows in the order of insertion, a condition `key = ?` never holds of NULL, and an
-- INSERT or UPDATE whose outcome breaks a constraint of the table (a primary key, UNIQUE, NOT NULL)
-- raises and changes nothing. What the schema says is a parameter (`Catalog`). An ORDER BY is a
-- function on lists of rows. The conversions of type affinity are left out, and a condition with a list
-- or a dictionary, which sqlite3 refuses to bind, matches nothing.
pub mod Laws
pub mod Bulk
pub mod Changes
pub mod Insert
use sarra.Common.{
  ℕ, ◌-◌, String, ◌≡◌, ◌≢◌, Bool, true, false, not, Option, none, some, List, [], ◌∷◌, ◌++◌, map,
  length, take, drop, filter, any, all, ltb, str_eq, ◌==◌, ◌&&◌, ◌||◌, if◌then◌else◌,
}
use mathlib.Core.Option
use sarra.Common.Dict
use sarra.Common.Dict.{Dict}
use sarra.Value.{Value, null, bool, int, str, json, to_text}
use sarra.Platform.Codec.{Row, Json, encode, decode_row}

pub data Error : Type 0 where
  unknown_table no_columns no_condition integrity : Error

pub data Result {ℓ} (A : Type ℓ) : Type ℓ where
  ok : A → Result A
  err : Error → Result A

infixl 5 ◌>>=◌
abbrev pub ◌>>=◌ {ℓ κ} : {A : Type ℓ} {B : Type κ} → Result A → (A → Result B) → Result B
ok a >>= f = f a
err e >>= f = err e

-- The tables after an operation; one that raises leaves them as they were.
abbrev pub after {ℓ} : {A : Type ℓ} {D : Type 0} → Result (A × D) → D → D
after (ok (_, d)) d0 = d
after (err _) d0 = d0

-- All tables, by name.
abbrev pub Db : Type 0
Db = String → List Row

abbrev pub set_table : Db → String → List Row → Db
set_table db table rows t = if str_eq table t then rows else db t

-- What the schema and the environment give: the tables with a `uuid`, the columns of each
-- (`PRAGMA table_info`), the row of default values, and the constraints.
pub record Catalog : Type 0 where
  pub codec : Json
  pub known : String → Bool
  pub columns : String → String → Bool
  pub defaults : String → Row
  pub satisfied : String → List Row → Bool

abbrev pub text_is : Option Value → String → Bool
text_is none t = false
text_is (some v) t = elim v [ str s ↦ str_eq s t | _ ↦ false ]

-- `WHERE uuid = ?`
abbrev pub has_uuid : String → Row → Bool
has_uuid uuid row = text_is (Dict.get row "uuid") uuid

-- `1 if value is True else 0 if value is False else value`
unfoldable pub bind : Value → Value
bind (bool true) = int 1
bind (bool false) = int 0
bind v = v

-- SQL's `=`; NULL is equal to nothing.
unfoldable pub sql_eq : Value → Value → Bool
sql_eq (int a) (int b) = a == b
sql_eq (str a) (str b) = str_eq a b
sql_eq _ _ = false

abbrev pub column : Row → String → Value
column row key = elim (Dict.get row key) [ none ↦ null | some v ↦ v ]

abbrev is_null : Value → Bool
is_null null = true
is_null _ = false

-- A condition of `find`: a value, or a list of which one must match.
pub data Condition : Type 0 where
  is : Value → Condition
  one_of : List Value → Condition

unfoldable pub holds : Condition → Value → Bool
unfolding bind sql_eq
holds (is null) v = is_null v
holds (is w) v = sql_eq v (bind w)
holds (one_of ws) v = any (λ w. sql_eq v (bind w)) ws

abbrev pub is_empty_list : Condition → Bool
is_empty_list (one_of []) = true
is_empty_list _ = false

abbrev pub is_nil {ℓ} : {A : Type ℓ} → List A → Bool
is_nil [] = true
is_nil (_ ∷ _) = false

abbrev pub is_none {ℓ} : {A : Type ℓ} → Option A → Bool
is_none none = true
is_none (some _) = false

unfoldable pub first : List Row → Option Row
first [] = none
first (row ∷ rows) = some row

-- `LIMIT ?`, where the source gives one
unfoldable pub limited : Option ℕ → List Row → List Row
limited none rows = rows
limited (some n) rows = take n rows

-- `"key" = ?` of every condition; NULL is written as any other value here, and matches nothing.
unfoldable pub equals_all : Dict Value → Row → Bool
equals_all where_ row = all (λ (p : String × Value). sql_eq (column row p.0) (bind p.1)) where_

unfoldable pub overlay : Row → Row → Row
overlay row [] = row
overlay row ((k, v) ∷ fields) = Dict.put (overlay row fields) k v

unfoldable pub write : String → Row → Row → Row
write uuid fields row = if has_uuid uuid row then overlay row fields else row

module _ (cat : Catalog) where
  -- The conditions on columns that the table has.
  unfoldable pub usable {ℓ} : {A : Type ℓ} → String → Dict A → Dict A
  usable {A} table where_ = filter (λ (p : String × A). cat.columns table p.0) where_

  unfoldable pub matches : Dict Condition → Row → Bool
  matches where_ row = all (λ (p : String × Condition). holds p.1 (column row p.0)) where_

  unfoldable pub read : String → Bool → Row → Row
  read table include_secrets row = decode_row cat.codec table include_secrets row

  unfoldable pub get : String → String → Bool → Db → Result (Option Row)
  get table uuid include_secrets db =
      if cat.known table
      then ok (
          if str_eq uuid ""
          then none
          else Option.map (read table include_secrets) (first (filter (has_uuid uuid) (db table))))
      else err unknown_table

  -- `sorted` is the ORDER BY.
  unfoldable pub find :
      String → Dict Condition → Bool → (List Row → List Row) → Option ℕ → Db → Result (List Row)
  find table where_ include_secrets sorted limit db =
      if cat.known table
      then ok (
          if any (λ (p : String × Condition). is_empty_list p.1) (usable table where_)
          then []
          else map (read table include_secrets)
              (limited limit (sorted (filter (matches (usable table where_)) (db table)))))
      else err unknown_table

  -- `cursor.rowcount > 0`, and the tables after it
  unfoldable pub delete : String → String → Db → Result (Bool × Db)
  delete table uuid db =
      if cat.known table
      then ok (
        any (has_uuid uuid) (db table),
        set_table db table (filter (λ row. not (has_uuid uuid row)) (db table)),
      )
      else err unknown_table

  unfoldable pub delete_where : String → Dict Value → Db → Result (ℕ × Db)
  delete_where table where_ db =
      if not (cat.known table)
      then err unknown_table
      else if is_nil where_
      then err no_condition
      else if is_nil (usable table where_)
      then err no_columns
      else ok (
        length (filter (equals_all (usable table where_)) (db table)),
        set_table db table (filter (λ row. not (equals_all (usable table where_) row)) (db table)),
      )

  unfoldable pub count : String → Dict Value → Db → Result ℕ
  count table where_ db =
      if cat.known table
      then ok (length (filter (equals_all (usable table where_)) (db table)))
      else err unknown_table

  -- `payload.setdefault(key, now)` for a column of the table
  unfoldable pub stamp_missing : String → String → Value → Row → Row
  stamp_missing table key now payload =
      if cat.columns table key then Dict.set_default payload key now else payload

  -- `fresh` is `new_uuid()`, `now` is `utcnow()`.
  unfoldable pub payload_of : String → String → String → Row → Row
  payload_of table fresh now data_ =
      stamp_missing table "updated_at" (str now)
        (stamp_missing table "created_at" (str now) (Dict.set_default data_ "uuid" (str fresh)))

  unfoldable pub insert_payload : String → Row → Db → Result (Row × Db)
  insert_payload table payload db =
      let fields = encode cat.codec table (usable table payload) in
      let rows = db table ++ (overlay (cat.defaults table) fields ∷ []) in
      if is_nil fields
      then err no_columns
      else if not (cat.satisfied table rows)
      then err integrity
      else get table (to_text (column payload "uuid")) true (set_table db table rows) >>= λ found.
          ok (elim found [ none ↦ payload | some row ↦ row ], set_table db table rows)

  unfoldable pub insert : String → String → String → Row → Db → Result (Row × Db)
  insert table fresh now data_ db =
      if cat.known table
      then insert_payload table (payload_of table fresh now data_) db
      else err unknown_table

  -- What an update writes: its known columns, but for `uuid` and `created_at`.
  unfoldable pub updated_fields : String → Row → Row
  updated_fields table updates = encode cat.codec table (
      filter
        (λ (p : String × Value).
          cat.columns table p.0 && not (str_eq p.0 "uuid" || str_eq p.0 "created_at"))
        updates)

  unfoldable pub stamp : String → String → Row → Row
  stamp table now fields =
      if cat.columns table "updated_at" then Dict.put fields "updated_at" (str now) else fields

  -- The UPDATE statement and the read after it
  unfoldable pub update_rows : String → String → Row → Db → Result (Option Row × Db)
  update_rows table uuid fields db =
      let rows = map (write uuid fields) (db table) in
      if not (cat.satisfied table rows)
      then err integrity
      else get table uuid true (set_table db table rows) >>= λ found.
          ok (found, set_table db table rows)

  unfoldable pub update : String → String → String → Row → Db → Result (Option Row × Db)
  update table uuid now updates db = get table uuid true db >>= λ existing.
      (if is_none existing
        then ok (none, db)
        else if is_nil (updated_fields table updates)
        then ok (existing, db)
        else update_rows table uuid (stamp table now (updated_fields table updates)) db)
