-- ===== src/Platform/Cascade/Empty.antt =====
-- `delete_environment_cascade` and `delete_project_cascade`, with and without resources.
use sarra.Common.{
  ℕ, String, ◌≡◌, ◌≢◌, refl, Bool, true, false, none, some, List, [], ◌∷◌, arith, All, ◌⊎◌, inl,
  inr, ◌==◌, ==_iff, Bool-cases, ◌+◌, filter, length, length-map, refl, ap, ◌∙◌,
}
use sarra.Value.{Value, str}
use sarra.Platform.Codec.{Row}
use sarra.Platform.Table.{
  ok, Db, Catalog, has_uuid, column, find, delete_where, usable, is, matches, holds, limited, read,
}
use sarra.Platform.Cascade.{
  still_holds, environment_holds, environment_total, purge_shared, delete_environment_cascade,
  check_environments, delete_project_cascade,
}
use sarra.Platform.Cascade.Steps.{Absent, refers}
use sarra.Platform.Cascade.Success.{delete_ensures}

-- The tables of the resources that an environment holds.
pub record HasResources (cat : Catalog) : Type 0 where
  pub applications : cat.known "platform_applications" ≡ true
  pub databases : cat.known "platform_databases" ≡ true
  pub services : cat.known "platform_services" ≡ true

-- Each of these tables has the column that names the environment.
pub record ByEnvironment (cat : Catalog) : Type 0 where
  pub applications : cat.columns "platform_applications" "environment_uuid" ≡ true
  pub databases : cat.columns "platform_databases" "environment_uuid" ≡ true
  pub services : cat.columns "platform_services" "environment_uuid" ≡ true

module _ (cat : Catalog) (order : List Row → List Row) where
  total_known :
      HasResources cat
      → (v : Value) (db : Db) → (n : ℕ) × (environment_total cat order v db ≡ (ok n, db))
  unfolding environment_total find
  total_known s v db = rw (s.applications, s.databases, s.services) (_, refl)

  -- The check of a list of environments finds them all empty, or refuses.
  check_cases :
      HasResources cat
      → (environments : List Row) (db : Db)
      → (All
            (λ environment. environment_total cat order (column environment "uuid") db ≡ (ok 0, db))
            environments
          × (check_environments cat order environments db ≡ (ok none, db)))
        ⊎ ((message : String) × (check_environments cat order environments db
              ≡ (ok (some message), db)))
  unfolding check_environments
  check_cases s [] db = inl (tt, refl)
  check_cases s (environment ∷ environments) db =
      let (n, e) = total_known s (column environment "uuid") db in
      elim (Bool-cases (n == 0)) [
        | inl z ↦
            let e0 : n ≡ 0 = ground (arith, ==_iff n 0, z) in
            elim (check_cases s environments db) [
              | inl (h, k) ↦ inl ((rw (← e0) e, h), rw (e, z) k)
              | inr (m, k) ↦ inr (m, rw (e, z) k)
            ]
        | inr z ↦ inr (environment_holds (column environment "name") n, rw (e, z) refl)
      ]

-- Where the schema has the tables of resources and of environments: deleting a project whose
-- environments all hold no resource may go ahead; if one of them holds any, the deletion is refused
-- with a message before it has changed any table.
pub delete_project_cascade-refused :
    (cat : Catalog) (order : List Row → List Row) (uuid : String) (environments : List Row)
    (db : Db)
    → HasResources cat
    → find cat "platform_environments" (("project_uuid", is (str uuid)) ∷ []) false order none db
      ≡ ok environments
    → All
        (λ environment. environment_total cat order (column environment "uuid") db ≡ (ok 0, db))
        environments
      ⊎ ((message : String) × (delete_project_cascade cat order uuid db
            ≡ (ok (false, message), db)))
unfolding delete_project_cascade
delete_project_cascade-refused cat order uuid environments db s e =
    elim (check_cases cat order s environments db) [
      | inl (h, k) ↦ inl h
      | inr (m, k) ↦ inr (m, rw (e, k) refl)
    ]

shared_known :
    (cat : Catalog) (scope : String) (v : Value)
    → cat.known "platform_shared_env_vars" ≡ true
    → cat.columns "platform_shared_env_vars" "scope" ≡ true
    → cat.columns "platform_shared_env_vars" "scope_uuid" ≡ true
    → (db : Db) → (m : ℕ) × (d : Db) × (purge_shared cat scope v db ≡ (ok m, d))
unfolding purge_shared delete_where usable
shared_known cat scope v k c c2 db = rw (k, c, c2) (_, _, refl)

-- The rows of a table that stand in an environment.
abbrev pub standing_in : String → String → Db → List Row
standing_in uuid table db = filter (refers "environment_uuid" (str uuid)) (db table)

module _ (cat : Catalog) (order : List Row → List Row) (uuid : String) (db : Db)
    (sorts : (rows : List Row) → length (order rows) ≡ length rows) where
  matches-refers :
      (rows : List Row)
      → filter (matches cat (("environment_uuid", is (str uuid)) ∷ [])) rows
        ≡ filter (refers "environment_uuid" (str uuid)) rows
  unfolding matches holds
  matches-refers [] = refl
  matches-refers (row ∷ rows) = ground (arith, matches-refers rows)

  -- A listing of the table by the environment has as many rows as stand in it.
  find_standing :
      (table : String)
      → cat.known table ≡ true
      → cat.columns table "environment_uuid" ≡ true
      → (rows : List Row) × (find cat table
            (("environment_uuid", is (str uuid)) ∷ [])
            false
            order
            none
            db
          ≡ ok rows)
        × (length rows ≡ length (standing_in uuid table db))
  unfolding find usable limited
  find_standing table k c =
      rw (k, c)
        (
          _,
          refl,
          length-map (read cat table false)
                (order (filter (matches cat (("environment_uuid", is (str uuid)) ∷ [])) (db table)))
              ∙ sorts (filter (matches cat (("environment_uuid", is (str uuid)) ∷ [])) (db table))
              ∙ ap (length {A = Row}) (matches-refers (db table)),
        )

  abbrev pub holding : ℕ
  holding =
      length (standing_in uuid "platform_applications" db)
      + length (standing_in uuid "platform_databases" db)
      + length (standing_in uuid "platform_services" db)

  total_standing :
      HasResources cat
      → ByEnvironment cat
      → environment_total cat order (str uuid) db ≡ (ok holding, db)
  unfolding environment_total
  total_standing s b =
      let (apps, e, p) = find_standing "platform_applications" s.applications b.applications in
      let (dbs, e2, q) = find_standing "platform_databases" s.databases b.databases in
      let (svcs, e3, r) = find_standing "platform_services" s.services b.services in
      rw (e, e2, e3, p, q, r) refl

  -- Where the schema has the tables and columns that this names, and an ORDER BY keeps the number of
  -- rows: let n be the number of applications, databases and services whose `environment_uuid` is the
  -- environment's. If n is not 0, the deletion of the environment is refused with a message that names
  -- n, and changes nothing. If n is 0, the environment is deleted, and its row is gone afterwards.
  pub delete_environment_cascade_lem :
      HasResources cat
      → ByEnvironment cat
      → cat.known "platform_environments" ≡ true
      → cat.known "platform_shared_env_vars" ≡ true
      → cat.columns "platform_shared_env_vars" "scope" ≡ true
      → cat.columns "platform_shared_env_vars" "scope_uuid" ≡ true
      → (n : ℕ) × (n
          ≡ length (filter (refers "environment_uuid" (str uuid)) (db "platform_applications"))
            + length (filter (refers "environment_uuid" (str uuid)) (db "platform_databases"))
            + length (filter (refers "environment_uuid" (str uuid)) (db "platform_services")))
        × (n ≢ 0 → delete_environment_cascade cat order uuid db ≡ (ok (false, still_holds n), db))
        × (n ≡ 0
            → (found : Bool) × (d : Db) × (delete_environment_cascade cat order uuid db
                ≡ (ok (found, "Environment deleted."), d))
              × Absent "platform_environments" (has_uuid uuid) d)
  unfolding delete_environment_cascade
  delete_environment_cascade_lem s b known shared scope scope_uuid =
      let e = total_standing s b in
      (
        holding,
        refl,
        (λ h.
            let z : (holding == 0) ≡ false = ground (arith, ==_iff holding 0, h) in rw (e, z) refl),
        λ h.
            let z : (holding == 0) ≡ true = ground (arith, ==_iff holding 0, h) in
            let (m, d, e2) = shared_known cat "environment" (str uuid) shared scope scope_uuid db in
            let (found, d2, e3, gone) = delete_ensures cat "platform_environments" uuid known d in
            (found, d2, rw (e, z, e2, e3) refl, gone),
      )
