-- ===== src/Platform/Table/Insert.antt =====
-- Inserting a row and reading it: `insert` and `get`.
use sarra.Common.{
  String, ◌≡◌, ◌≢◌, refl, ap, Bool, true, false, none, some, List, [], ◌∷◌, ◌++◌, arith, str_eq,
  eq_iff, eq_refl, any, filter, Bool-cases, inl, inr, filter-append,
}
use sarra.Common.Dict
use sarra.Common.Dict.{Dict}
use sarra.Value.{Value, str, to_text}
use sarra.Platform.Codec.{Row, Json, is_json, encode, encode_value, encode_plain}
use sarra.Platform.Table.{
  ok, Db, Catalog, set_table, after, has_uuid, text_is, is_nil, column, first, get, read, usable,
  overlay, stamp_missing, payload_of, insert_payload, insert,
}
use sarra.Platform.Table.Laws.{get_rows, set_table_same, set_table_other}
use sarra.Platform.Table.Changes.{get-overlay}

rewrap :
    (j : Json) (table i key : String) (w : Value)
    → i ≡ key
    → encode_value j table i w ≡ encode_value j table key w
rewrap j table i key w e = ap (λ k. encode_value j table k w) e

get-encode :
    (j : Json) (table key : String) (d : Row) (v : Value)
    → Dict.get d key ≡ some v
    → Dict.get (encode j table d) key ≡ some (encode_value j table key v)
unfolding Dict.get encode
get-encode j table key [] v h = ground arith
get-encode j table key ((i, w) ∷ d) v h = elim (Bool-cases (str_eq i key)) [
  | inl e ↦ rw e (ground (arith, eq_iff i key, e, rewrap j table i key w))
  | inr e ↦ ground (arith, e, get-encode j table key d v)
]

has_some : (d : Row) (key : String) (v : Value) → Dict.get d key ≡ some v → is_nil d ≡ false
unfolding Dict.get
has_some [] key v h = ground arith
has_some (_ ∷ _) key v h = refl

append-nil : (rows : List Row) → rows ++ [] ≡ rows
append-nil [] = refl
append-nil (row ∷ rows) = ground (arith, append-nil rows)

none_has :
    (uuid : String) (rows : List Row)
    → any (has_uuid uuid) rows ≡ false
    → filter (has_uuid uuid) rows ≡ []
none_has uuid [] h = refl
none_has uuid (row ∷ rows) h = ground (arith, none_has uuid rows)

module _ (cat : Catalog) (table : String) where
  get-usable :
      (d : Row) (key : String)
      → cat.columns table key ≡ true
      → Dict.get (usable cat table d) key ≡ Dict.get d key
  unfolding usable Dict.get
  get-usable [] key h = refl
  get-usable ((i, w) ∷ d) key h = ground (arith, get-usable d key h, eq_iff i key)

  stamp_missing_keeps :
      (key : String) (now v : Value) (d : Row)
      → str_eq key "uuid" ≡ false
      → Dict.get d "uuid" ≡ some v
      → Dict.get (stamp_missing cat table key now d) "uuid" ≡ some v
  unfolding stamp_missing
  stamp_missing_keeps key now v d h e = ground (arith, Dict.get-set_default d key now "uuid")

  payload_uuid :
      (fresh now : String) (data_ : Row)
      → Dict.get data_ "uuid" ≡ none
      → Dict.get (payload_of cat table fresh now data_) "uuid" ≡ some (str fresh)
  unfolding payload_of
  payload_uuid fresh now data_ h =
      let d = Dict.set_default data_ "uuid" (str fresh) in
      let e : Dict.get d "uuid" ≡ some (str fresh) =
        ground (arith, Dict.get-set_default data_ "uuid" (str fresh) "uuid") in
      stamp_missing_keeps "updated_at" (str now) (str fresh)
        (stamp_missing cat table "created_at" (str now) d) refl
        (stamp_missing_keeps "created_at" (str now) (str fresh) d refl e)

  -- The row that an insert stores.
  abbrev pub stored : Row → Row
  stored payload = overlay (cat.defaults table) (encode cat.codec table (usable cat table payload))

  module _ (fresh : String) (payload : Row) (has : Dict.get payload "uuid" ≡ some (str fresh))
      (col : cat.columns table "uuid" ≡ true) (plain : is_json table "uuid" ≡ false) where
    stored_uuid : Dict.get (stored payload) "uuid" ≡ some (str fresh)
    unfolding encode_value encode_plain
    stored_uuid =
        rw
          (
            get-overlay (cat.defaults table) (encode cat.codec table (usable cat table payload))
                "uuid",
            get-encode cat.codec table "uuid" (usable cat table payload) (str fresh)
                (rw (get-usable payload "uuid" col) has),
            plain,
          )
          refl

    some_fields : is_nil (encode cat.codec table (usable cat table payload)) ≡ false
    some_fields =
        has_some (encode cat.codec table (usable cat table payload)) "uuid"
          (encode_value cat.codec table "uuid" (str fresh))
          (get-encode cat.codec table "uuid" (usable cat table payload) (str fresh)
            (rw (get-usable payload "uuid" col) has))

    -- Of the rows with the new one at the end, it is the only one with this uuid.
    only_stored :
        (rows : List Row)
        → any (has_uuid fresh) rows ≡ false
        → filter (has_uuid fresh) (rows ++ (stored payload ∷ [])) ≡ stored payload ∷ []
    only_stored rows h =
        rw (filter-append (has_uuid fresh) rows (stored payload ∷ []), none_has fresh rows h)
          (rw (ap (λ v. text_is v fresh) stored_uuid, eq_refl fresh) refl)

    only_others :
        (rows : List Row) (other : String)
        → other ≢ fresh
        → filter (has_uuid other) (rows ++ (stored payload ∷ [])) ≡ filter (has_uuid other) rows
    only_others rows other h =
        rw
          (
            filter-append (has_uuid other) rows (stored payload ∷ []),
            ap (λ v. text_is v other) stored_uuid,
          )
          (ground (arith, eq_iff fresh other, append-nil (filter (has_uuid other) rows)))

    stored-read :
        (db : Db)
        → cat.known table ≡ true
        → fresh ≢ ""
        → any (has_uuid fresh) (db table) ≡ false
        → get cat table fresh true (set_table db table (db table ++ (stored payload ∷ [])))
          ≡ ok (some (read cat table true (stored payload)))
    unfolding get first
    stored-read db k full h =
        rw
          (k, set_table_same db table (db table ++ (stored payload ∷ [])), only_stored (db table) h)
          (ground (arith, eq_iff fresh ""))

    name_of : to_text (column payload "uuid") ≡ fresh
    unfolding to_text
    name_of = rw (column, has) refl

    insert_after :
        (db : Db)
        → cat.known table ≡ true
        → fresh ≢ ""
        → any (has_uuid fresh) (db table) ≡ false
        → cat.satisfied table (db table ++ (stored payload ∷ [])) ≡ true
        → insert_payload cat table payload db
          ≡ ok (
            read cat table true (stored payload),
            set_table db table (db table ++ (stored payload ∷ [])),
          )
    unfolding insert_payload
    insert_after db k full h c = rw (some_fields, c, name_of, stored-read db k full h) refl

insert_known :
    (cat : Catalog) (table fresh now : String) (data_ : Row) (db : Db)
    → cat.known table ≡ true
    → insert cat table fresh now data_ db
      ≡ insert_payload cat table (payload_of cat table fresh now data_) db
unfolding insert
insert_known cat table fresh now data_ db k = rw k refl

-- In a known table with a column `uuid` that holds no JSON: a row that is inserted without a uuid of
-- its own gets the fresh one, if no row of the table has it and the row breaks no constraint: the
-- insert succeeds and returns what `get` then reads for that uuid, and every other uuid and every
-- other table reads as before.
pub insert-get :
    (cat : Catalog) (table fresh now : String) (data_ : Row) (db : Db)
    → cat.known table ≡ true
    → cat.columns table "uuid" ≡ true
    → is_json table "uuid" ≡ false
    → Dict.get data_ "uuid" ≡ none
    → fresh ≢ ""
    → any (has_uuid fresh) (db table) ≡ false
    → cat.satisfied table
        (db table ++ (stored cat table (payload_of cat table fresh now data_) ∷ []))
      ≡ true
    → (row : Row) × (insert cat table fresh now data_ db
        ≡ ok (row, after (insert cat table fresh now data_ db) db))
      × (get cat table fresh true (after (insert cat table fresh now data_ db) db) ≡ ok (some row))
      × ((other : String) (secrets : Bool)
          → other ≢ fresh
          → get cat table other secrets (after (insert cat table fresh now data_ db) db)
            ≡ get cat table other secrets db)
      × ((t : String) → t ≢ table → after (insert cat table fresh now data_ db) db t ≡ db t)
insert-get cat table fresh now data_ db k col plain free full new fits =
    let payload = payload_of cat table fresh now data_ in
    let has = payload_uuid cat table fresh now data_ free in
    let rows = db table ++ (stored cat table payload ∷ []) in
    rw
      (
        insert_known cat table fresh now data_ db k,
        insert_after cat table fresh payload has col plain db k full new fits,
      )
      (
        read cat table true (stored cat table payload),
        refl,
        stored-read cat table fresh payload has col plain db k full new,
        (λ other secrets h. get_rows cat table other secrets db (set_table db table rows) (
            rw (set_table_same db table rows)
              (only_others cat table fresh payload has col plain (db table) other h))),
        λ t h. set_table_other db table rows t h,
      )
