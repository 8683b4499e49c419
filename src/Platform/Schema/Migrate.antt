-- ===== src/Platform/Schema/Migrate.antt =====
-- Running `_migrate` of syte/platform/store.py, once and again.
use sarra.Common.{
  String, ◌≡◌, refl, Bool, true, false, List, [], ◌∷◌, ◌++◌, arith, All, eq_iff, ◌||◌,
}
use sarra.Platform.Table.{is_nil}
use sarra.Platform.Schema.Column.{SqlColumn}
use sarra.Platform.Schema.{Tables, has_column, migrate_one, migrate}

-- There is nothing left to do for a column.
abbrev pub settled : (String → SqlColumn → Bool) → Tables → String × SqlColumn → Bool
settled fails tables (table, c) =
    is_nil (tables table) || has_column c.name (tables table) || fails table c

pub has_column-append :
    (name : String) (cs ds : List SqlColumn)
    → has_column name (cs ++ ds) ≡ (has_column name cs || has_column name ds)
unfolding has_column
has_column-append name [] ds = refl
has_column-append name (c ∷ cs) ds = ground (arith, has_column-append name cs ds)

is_nil-append : (cs : List SqlColumn) (c : SqlColumn) → is_nil (cs ++ (c ∷ [])) ≡ false
is_nil-append [] c = refl
is_nil-append (_ ∷ _) c = refl

has_column_self : (c : SqlColumn) → has_column c.name (c ∷ []) ≡ true
unfolding has_column
has_column_self c = ground (arith, eq_iff c.name c.name)

module _ (fails : String → SqlColumn → Bool) where
  one_settled :
      (m : String × SqlColumn) (tables : Tables)
      → settled fails tables m ≡ true
      → migrate_one fails m tables ≡ tables
  unfolding migrate_one
  one_settled (table, c) tables h = ground arith

  settles :
      (m : String × SqlColumn) (tables : Tables)
      → settled fails (migrate_one fails m tables) m ≡ true
  unfolding migrate_one
  settles (table, c) tables = ground (
    arith,
    eq_iff table table,
    has_column-append c.name (tables table) (c ∷ []),
    has_column_self c,
  )

  stays_settled :
      (m n : String × SqlColumn) (tables : Tables)
      → settled fails tables m ≡ true
      → settled fails (migrate_one fails n tables) m ≡ true
  unfolding migrate_one
  stays_settled (table, c) (other, d) tables h =
      ground (arith, eq_iff other table, has_column-append c.name (tables table) (d ∷ []))

  migrate_stays :
      (m : String × SqlColumn) (ms : List (String × SqlColumn)) (tables : Tables)
      → settled fails tables m ≡ true
      → settled fails (migrate fails ms tables) m ≡ true
  unfolding migrate
  migrate_stays m [] tables h = h
  migrate_stays m (n ∷ ms) tables h =
      migrate_stays m ms (migrate_one fails n tables) (stays_settled m n tables h)

  migrate_settles :
      (ms : List (String × SqlColumn)) (tables : Tables)
      → All (λ m. settled fails (migrate fails ms tables) m ≡ true) ms
  unfolding migrate
  migrate_settles [] tables = tt
  migrate_settles (m ∷ ms) tables = (
    migrate_stays m ms (migrate_one fails m tables) (settles m tables),
    migrate_settles ms (migrate_one fails m tables),
  )

  migrate-settled :
      (ms : List (String × SqlColumn)) (tables : Tables)
      → All (λ m. settled fails tables m ≡ true) ms
      → migrate fails ms tables ≡ tables
  unfolding migrate
  migrate-settled [] tables h = refl
  migrate-settled (m ∷ ms) tables (h, hs) =
      rw (one_settled m tables h) (migrate-settled ms tables hs)

  one_keeps :
      (m : String × SqlColumn) (tables : Tables) (table name : String)
      → has_column name (tables table) ≡ true
      → has_column name (migrate_one fails m tables table) ≡ true
  unfolding migrate_one
  one_keeps (other, d) tables table name h =
      ground (arith, has_column-append name (tables table) (d ∷ []))

  migrate_has :
      (ms : List (String × SqlColumn)) (tables : Tables) (table name : String)
      → has_column name (tables table) ≡ true
      → has_column name (migrate fails ms tables table) ≡ true
  unfolding migrate
  migrate_has [] tables table name h = h
  migrate_has (m ∷ ms) tables table name h =
      migrate_has ms (migrate_one fails m tables) table name (one_keeps m tables table name h)

-- Migrating is safe at every start: whatever the tables are and whichever columns cannot be added,
-- every column that is asked for is there afterwards, or cannot be added, or its table does not
-- exist; no column that was there is lost; and migrating once more changes nothing.
pub migrate_lem :
    (fails : String → SqlColumn → Bool) (ms : List (String × SqlColumn)) (tables : Tables)
    → All (λ m. settled fails (migrate fails ms tables) m ≡ true) ms
      × ((table name : String)
          → has_column name (tables table) ≡ true
          → has_column name (migrate fails ms tables table) ≡ true)
      × (migrate fails ms (migrate fails ms tables) ≡ migrate fails ms tables)
migrate_lem fails ms tables = (
  migrate_settles fails ms tables,
  migrate_has fails ms tables,
  migrate-settled fails ms (migrate fails ms tables) (migrate_settles fails ms tables),
)
