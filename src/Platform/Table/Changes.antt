-- ===== src/Platform/Table/Changes.antt =====
-- The rows that `update` writes.
use sarra.Common.{
  String, ◌≡◌, ◌≢◌, refl, ap, Bool, true, false, not, Option, none, some, List, [], ◌∷◌, arith,
  str_eq, eq_iff, map, filter, ◌&&◌, ◌||◌, if◌then◌else◌, Bool-cases, inl, inr, ◌⊎◌,
}
use sarra.Common.Dict
use sarra.Common.Dict.{Dict}
use sarra.Value.{Value, str}
use sarra.Platform.Codec.{Row, Json, encode}
use sarra.Platform.Table.{
  Result, ok, err, ◌>>=◌, Db, Catalog, set_table, after, has_uuid, text_is, is_nil, is_none, get,
  update, update_rows, updated_fields, stamp, write, overlay,
}
use sarra.Platform.Table.Laws.{set_table_same, set_table_other}

pub no_key-filter :
    (q : String → Bool) (k : String)
    → q k ≡ false
    → (d : Row) → Dict.get (filter (λ (p : String × Value). q p.0) d) k ≡ none
unfolding Dict.get
no_key-filter q k h [] = refl
no_key-filter q k h ((j, v) ∷ d) = ground (arith, no_key-filter q k h d, eq_iff j k)

no_key-encode :
    (j : Json) (table : String) (k : String) (d : Row)
    → Dict.get d k ≡ none
    → Dict.get (encode j table d) k ≡ none
unfolding Dict.get encode
no_key-encode j table k [] h = refl
no_key-encode j table k ((i, v) ∷ d) h = ground (arith, no_key-encode j table k d, eq_iff i k)

-- The column that an update writes is the one of its fields, and the others keep their value.
pub get-overlay :
    (row fields : Row) (k : String)
    → Dict.get (overlay row fields) k
      ≡ elim (Dict.get fields k) [ none ↦ Dict.get row k | some v ↦ some v ]
unfolding overlay Dict.get
get-overlay row [] k = refl
get-overlay row ((j, v) ∷ fields) k =
    ground (arith, Dict.get-put (overlay row fields) j v k, get-overlay row fields k, eq_iff j k)

module _ (cat : Catalog) (table : String) where
  stamp_keeps :
      (now k : String) (fields : Row)
      → str_eq "updated_at" k ≡ false
      → Dict.get fields k ≡ none
      → Dict.get (stamp cat table now fields) k ≡ none
  unfolding stamp
  stamp_keeps now k fields h e = ground (arith, Dict.get-put fields "updated_at" (str now) k)

  unwritten :
      (k : String) (updates : Row)
      → (str_eq k "uuid" || str_eq k "created_at") ≡ true
      → Dict.get (updated_fields cat table updates) k ≡ none
  unfolding updated_fields
  unwritten k updates h =
      no_key-encode cat.codec table k
        (filter
          (λ (p : String × Value).
            cat.columns table p.0 && not (str_eq p.0 "uuid" || str_eq p.0 "created_at"))
          updates)
        (no_key-filter
          (λ key. cat.columns table key && not (str_eq key "uuid" || str_eq key "created_at")) k
          (ground arith) updates)

  -- Neither a uuid nor a time of creation is written.
  write_keeps :
      (uuid now k : String) (updates : Row)
      → (str_eq k "uuid" || str_eq k "created_at") ≡ true
      → str_eq "updated_at" k ≡ false
      → (row : Row)
      → Dict.get (write uuid (stamp cat table now (updated_fields cat table updates)) row) k
        ≡ Dict.get row k
  unfolding write
  write_keeps uuid now k updates h h2 row =
      let fields = stamp cat table now (updated_fields cat table updates) in
      ground (
        arith,
        get-overlay row fields k,
        stamp_keeps now k (updated_fields cat table updates),
        unwritten k updates,
      )

write_other :
    (uuid : String) (fields row : Row) → has_uuid uuid row ≡ false → write uuid fields row ≡ row
unfolding write
write_other uuid fields row e = rw e refl

-- An operation that leaves the tables as they were, or changes them to `e`.
module _ (d e : Db) where
  after_bind :
      (r : Result (Option Row)) (f : Option Row → Result (Option Row × Db))
      → ((a : Option Row) → (after (f a) d ≡ d) ⊎ (after (f a) d ≡ e))
      → (after (r >>= f) d ≡ d) ⊎ (after (r >>= f) d ≡ e)
  after_bind (ok a) f h = h a
  after_bind (err _) f h = inl refl

  after_if :
      (b : Bool) (x y : Result (Option Row × Db))
      → (after x d ≡ d) ⊎ (after x d ≡ e)
      → (after y d ≡ d) ⊎ (after y d ≡ e)
      → (after (if b then x else y) d ≡ d) ⊎ (after (if b then x else y) d ≡ e)
  after_if true x y hx hy = hx
  after_if false x y hx hy = hy

-- The rows of a table, by their uuid and their time of creation.
abbrev pub identity : Row → Option Value × Option Value
identity row = (Dict.get row "uuid", Dict.get row "created_at")

module _ (cat : Catalog) (table uuid now : String) (updates : Row) where
  abbrev written : Row → Row
  written = write uuid (stamp cat table now (updated_fields cat table updates))

  identity-written : (rows : List Row) → map identity (map written rows) ≡ map identity rows
  identity-written [] = refl
  identity-written (row ∷ rows) =
      rw
        (
          write_keeps cat table uuid now "uuid" updates refl refl row,
          write_keeps cat table uuid now "created_at" updates refl refl row,
          identity-written rows,
        )
        refl

  others-written :
      (rows : List Row)
      → filter (λ row. not (has_uuid uuid row)) (map written rows)
        ≡ filter (λ row. not (has_uuid uuid row)) rows
  others-written [] = refl
  others-written (row ∷ rows) = elim (Bool-cases (has_uuid uuid row)) [
    | inl e ↦
        rw
          (
            ap (λ v. text_is v uuid) (write_keeps cat table uuid now "uuid" updates refl refl row),
            e,
            others-written rows,
          )
          refl
    | inr e ↦
        rw
          (
            ap (λ v. text_is v uuid) (write_keeps cat table uuid now "uuid" updates refl refl row),
            e,
            others-written rows,
            write_other uuid (stamp cat table now (updated_fields cat table updates)) row e,
          )
          refl
  ]

  -- What an update leaves the tables as: they were so, or its fields are written.
  update_cases :
      (db : Db)
      → (after (update cat table uuid now updates db) db ≡ db)
        ⊎ (after (update cat table uuid now updates db) db
            ≡ set_table db table (map written (db table)))
  unfolding update update_rows get
  update_cases db =
      let rows = map written (db table) in
      let e = set_table db table rows in
      after_bind db e (get cat table uuid true db) _ (λ existing.
        after_if db e (is_none existing) _ _ (inl refl) (
          after_if db e (is_nil (updated_fields cat table updates)) _ _ (inl refl) (
            after_if db e (not (cat.satisfied table rows)) _ _ (inl refl)
              (after_bind db e (get cat table uuid true e) _ (λ _. inr refl)))))

-- An update, whatever becomes of it, leaves every row of the table its uuid and its time of
-- creation, and leaves the rows with another uuid and the other tables as they were.
pub update_keeps :
    (cat : Catalog) (table uuid now : String) (updates : Row) (db : Db)
    → (map identity (after (update cat table uuid now updates db) db table)
        ≡ map identity (db table))
      × (filter
            (λ row. not (has_uuid uuid row))
            (after (update cat table uuid now updates db) db table)
          ≡ filter (λ row. not (has_uuid uuid row)) (db table))
      × ((t : String) → t ≢ table → after (update cat table uuid now updates db) db t ≡ db t)
update_keeps cat table uuid now updates db = elim (update_cases cat table uuid now updates db) [
  | inl e ↦ rw e (refl, refl, λ t h. refl)
  | inr e ↦
      rw (e, set_table_same db table (map (written cat table uuid now updates) (db table)))
        (
          identity-written cat table uuid now updates (db table),
          others-written cat table uuid now updates (db table),
          λ t h. set_table_other db table (map (written cat table uuid now updates) (db table)) t h,
        )
]
