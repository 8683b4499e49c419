-- ===== src/Platform/Table/Bulk.antt =====
-- The rows that `delete_where` and `count` select.
use sarra.Common.{ℕ, ◌+◌, String, ◌≡◌, ◌≢◌, refl, true, false, not, [], ◌∷◌, arith, filter, length}
use sarra.Common.Dict.{Dict}
use sarra.Value.{Value}
use sarra.Platform.Table.{
  ok, Db, Catalog, set_table, after, is_nil, delete_where, count, usable, equals_all,
}
use sarra.Platform.Table.Laws.{filter_absent, length_split, set_table_same, set_table_other}

module _ (cat : Catalog) (table : String) where
  delete_where_after :
      cat.known table ≡ true
      → (where_ : Dict Value) (db : Db) → is_nil (usable cat table where_) ≡ false
      → delete_where cat table where_ db
        ≡ ok (
          length (filter (equals_all (usable cat table where_)) (db table)),
          set_table db table
              (filter (λ row. not (equals_all (usable cat table where_) row)) (db table)),
        )
  unfolding delete_where usable
  delete_where_after k [] db e = ground arith
  delete_where_after k (c ∷ where_) db e = rw (k, e) refl

  count_after :
      cat.known table ≡ true
      → (where_ : Dict Value) (db : Db)
      → count cat table where_ db
        ≡ ok (length (filter (equals_all (usable cat table where_)) (db table)))
  unfolding count
  count_after k where_ db = rw k refl

-- A bulk delete from a known table with a condition on a known column deletes the rows that `count`
-- counts: it returns their number, none is left, the table is shorter by as many rows, and the other
-- tables are as they were.
pub delete_where-count :
    (cat : Catalog) (table : String) (where_ : Dict Value) (db : Db)
    → cat.known table ≡ true
    → is_nil (usable cat table where_) ≡ false
    → (n : ℕ) × (delete_where cat table where_ db
        ≡ ok (n, after (delete_where cat table where_ db) db))
      × (count cat table where_ db ≡ ok n)
      × (count cat table where_ (after (delete_where cat table where_ db) db) ≡ ok 0)
      × (length (after (delete_where cat table where_ db) db table) + n ≡ length (db table))
      × ((t : String) → t ≢ table → after (delete_where cat table where_ db) db t ≡ db t)
delete_where-count cat table where_ db k e =
    let p = equals_all (usable cat table where_) in
    let kept = filter (λ row. not (p row)) (db table) in
    rw (delete_where_after cat table k where_ db e) (
      length (filter p (db table)),
      refl,
      count_after cat table k where_ db,
      rw
          (
            count_after cat table k where_ (set_table db table kept),
            set_table_same db table kept,
            filter_absent p (db table),
          )
          refl,
      rw (set_table_same db table kept) (length_split p (db table)),
      λ t h. set_table_other db table kept t h,
    )
