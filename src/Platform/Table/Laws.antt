-- ===== src/Platform/Table/Laws.antt =====
-- Deleting a row by its uuid: `delete` and `get`.
use sarra.Common.{
  ◌+◌, String, ◌≡◌, ◌≢◌, refl, Bool, true, false, not, Option, none, some, List, [], ◌∷◌, arith,
  eq_iff, eq_refl, any, filter, length,
}
use sarra.Common.Dict
use sarra.Common.Dict.{Dict}
use sarra.Value.{Value, null, bool, int, str, json}
use sarra.Platform.Codec.{Row}
use sarra.Platform.Table.{
  Result, ok, Db, Catalog, set_table, after, has_uuid, text_is, first, get, delete,
}

module _ {ℓ} {A : Type ℓ} (p : A → Bool) where
  pub filter_absent : (xs : List A) → filter p (filter (λ x. not (p x)) xs) ≡ []
  filter_absent [] = refl
  filter_absent (x ∷ xs) = ground (arith, filter_absent xs)

  pub filter_other :
      (q : A → Bool)
      → ((x : A) → q x ≡ true → p x ≡ false)
      → (xs : List A) → filter q (filter (λ x. not (p x)) xs) ≡ filter q xs
  filter_other q h [] = refl
  filter_other q h (x ∷ xs) = ground (arith, filter_other q h xs, h x)

  pub length_split :
      (xs : List A) → length (filter (λ x. not (p x)) xs) + length (filter p xs) ≡ length xs
  length_split [] = omega arith
  length_split (x ∷ xs) = ground (arith, length_split xs)

abbrev pub is_some {ℓ} : {A : Type ℓ} → Option A → Bool
is_some none = false
is_some (some _) = true

any-first : (p : Row → Bool) (xs : List Row) → any p xs ≡ is_some (first (filter p xs))
unfolding first
any-first p [] = refl
any-first p (x ∷ xs) = ground (arith, any-first p xs)

pub text_is_one :
    (v : Option Value) (s t : String) → s ≢ t → text_is v s ≡ true → text_is v t ≡ false
text_is_one none s t h e = refl
text_is_one (some null) s t h e = refl
text_is_one (some (bool _)) s t h e = refl
text_is_one (some (int _)) s t h e = refl
text_is_one (some (json _)) s t h e = refl
text_is_one (some (str r)) s t h e = ground (arith, eq_iff r s, eq_iff r t)

pub set_table_same :
    (db : Db) (table : String) (rows : List Row) → set_table db table rows table ≡ rows
set_table_same db table rows = rw (eq_refl table) refl

pub set_table_other :
    (db : Db) (table : String) (rows : List Row) (t : String)
    → t ≢ table
    → set_table db table rows t ≡ db t
set_table_other db table rows t h = ground (arith, eq_iff table t)

-- What `get` finds.
abbrev pub found_in : Result (Option Row) → Bool
found_in (ok (some _)) = true
found_in _ = false

module _ (cat : Catalog) (table : String) where
  pub get_rows :
      (uuid : String) (secrets : Bool) (db db2 : Db)
      → filter (has_uuid uuid) (db2 table) ≡ filter (has_uuid uuid) (db table)
      → get cat table uuid secrets db2 ≡ get cat table uuid secrets db
  unfolding get
  get_rows uuid secrets db db2 e = rw e refl

  get_absent :
      cat.known table ≡ true
      → (uuid : String) (secrets : Bool) (db : Db) → filter (has_uuid uuid) (db table) ≡ []
      → get cat table uuid secrets db ≡ ok none
  unfolding get first
  get_absent k uuid secrets db e = rw (k, e) (ground (arith))

  delete_after :
      cat.known table ≡ true
      → (uuid : String) (db : Db)
      → delete cat table uuid db
        ≡ ok (
          any (has_uuid uuid) (db table),
          set_table db table (filter (λ row. not (has_uuid uuid row)) (db table)),
        )
  unfolding delete
  delete_after k uuid db = rw k refl

-- Deleting a row of a known table by a uuid that is not empty always succeeds, and tells whether
-- `get` had found the row. After it `get` finds no such row, every other uuid reads as before, and
-- so does every other table.
pub delete-get :
    (cat : Catalog) (table uuid : String) (db : Db)
    → cat.known table ≡ true
    → uuid ≢ ""
    → (delete cat table uuid db
        ≡ ok (found_in (get cat table uuid true db), after (delete cat table uuid db) db))
      × (get cat table uuid true (after (delete cat table uuid db) db) ≡ ok none)
      × ((other : String) (secrets : Bool)
          → other ≢ uuid
          → get cat table other secrets (after (delete cat table uuid db) db)
            ≡ get cat table other secrets db)
      × ((t : String) → t ≢ table → after (delete cat table uuid db) db t ≡ db t)
delete-get cat table uuid db k full = rw (delete_after cat table k uuid db) (
  unfold get in ground (arith, any-first (has_uuid uuid) (db table), eq_iff uuid ""),
  get_absent cat table k uuid true
      (set_table db table (filter (λ row. not (has_uuid uuid row)) (db table)))
      (rw (set_table_same db table (filter (λ row. not (has_uuid uuid row)) (db table)))
        (filter_absent (has_uuid uuid) (db table))),
  (λ other secrets h.
      get_rows cat table other secrets db
        (set_table db table (filter (λ row. not (has_uuid uuid row)) (db table)))
        (rw (set_table_same db table (filter (λ row. not (has_uuid uuid row)) (db table))) (
          filter_other (has_uuid uuid) (has_uuid other)
            (λ row. text_is_one (Dict.get row "uuid") other uuid h) (db table)))),
  λ t h. set_table_other db table (filter (λ row. not (has_uuid uuid row)) (db table)) t h,
)
