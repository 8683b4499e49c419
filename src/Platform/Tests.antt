-- ===== src/Platform/Tests.antt =====
-- The store on concrete tables.
mod Cascades
mod Deployments
use sarra.Common.{
  ℕ, ◌+◌, String, ◌≡◌, ◌≢◌, ◌⊎◌, refl, Bool, true, false, none, some, List, [], ◌∷◌, arith, All,
  map, filter, length, eq_iff,
}
use sarra.Common.Dict
use sarra.Common.Dict.{Dict}
use sarra.Value.{Value, bool, int, str, json}
use sarra.Platform.Codec.{
  Row, Json, encode_value, decode_value, decode_into, decode_entry, is_json, is_bool, is_secret,
  listed,
}
use sarra.Platform.Table.{
  ok, err, no_condition, no_columns, Db, Catalog, set_table, after, has_uuid, column, is, get, find,
  delete, delete_where, count, update, insert, usable, matches, holds, sql_eq, bind, limited, read,
  first,
}
use sarra.Platform.Table.Laws.{delete-get}
use sarra.Platform.Table.Bulk.{delete_where-count}
use sarra.Platform.Table.Changes.{update_keeps, identity}
use sarra.Platform.Table.Insert.{insert-get}
use sarra.Platform.Schema.{
  catalog, is_uuid_table, migrate, migrate_one, created_tables, has_column, migrations,
}
use sarra.Platform.Schema.Migrate.{migrate_lem, settled}
use sarra.Platform.Schema.Cover.{catalog-HasSchema}
use sarra.Platform.Cascade.{
  application, resource_tables, environment_total, delete_resource_cascade,
  delete_environment_cascade, delete_project_cascade, still_holds,
}
use sarra.Platform.Deployments.{find_one, pick, append_deployment_logs, log_line, log_of}
use sarra.Platform.EnvVars.{env_var_key, upsert_env_var}
use sarra.Platform.EnvVars.Upsert.{upsert_env_var-existing}
use sarra.Platform.Deployments.Rollback.{Distinct}
use Prim.Native.String
use sarra.Platform.Cascade.Steps.{Absent}
use sarra.Platform.Cascade.Gone.{HasSchema, Gone, OwnGone}
use sarra.Platform.Cascade.Empty.{
  HasResources, delete_project_cascade-refused, delete_environment_cascade_lem,
}

abbrev texts : Json
texts = record { dumps = λ _. "[]"; loads = λ _. some (json "[]") }

abbrev cat : Catalog
cat = catalog texts (λ _ _. true)

abbrev team : String → String → Row
team uuid name = ("uuid", str uuid) ∷ ("name", str name) ∷ ("created_at", str "2024") ∷ []

abbrev teams : Db
teams = set_table (λ _. []) "platform_teams" (team "t1" "Core" ∷ team "t2" "Ops" ∷ [])

abbrev key : String → Row
key secret = ("uuid", str "k1") ∷ ("private_key", str secret) ∷ []

delete-get_example :
    get cat "platform_teams" "t1" true (after (delete cat "platform_teams" "t1" teams) teams)
    ≡ ok none
unfolding catalog is_uuid_table
delete-get_example =
    (delete-get cat "platform_teams" "t1" teams refl (ground (arith, eq_iff "t1" ""))).1

delete_where-count_example :
    (n : ℕ) × (delete_where cat "platform_teams" (("name", str "Ops") ∷ []) teams
      ≡ ok (n, after (delete_where cat "platform_teams" (("name", str "Ops") ∷ []) teams) teams))
    × (count cat "platform_teams" (("name", str "Ops") ∷ []) teams ≡ ok n)
    × (count cat "platform_teams"
          (("name", str "Ops") ∷ [])
          (after (delete_where cat "platform_teams" (("name", str "Ops") ∷ []) teams) teams)
        ≡ ok 0)
    × (length (
            after
              (delete_where cat "platform_teams" (("name", str "Ops") ∷ []) teams)
              teams
              "platform_teams")
          + n
        ≡ length (teams "platform_teams"))
    × ((t : String)
        → t ≢ "platform_teams"
        → after (delete_where cat "platform_teams" (("name", str "Ops") ∷ []) teams) teams t
          ≡ teams t)
unfolding catalog is_uuid_table usable migrate migrate_one created_tables has_column Dict.get
delete_where-count_example =
    delete_where-count cat "platform_teams" (("name", str "Ops") ∷ []) teams refl refl

update_keeps_example :
    map identity (
      after
        (update cat "platform_teams" "t1" "2025"
          (("uuid", str "t9") ∷ ("name", str "New") ∷ [])
          teams)
        teams
        "platform_teams")
    ≡ map identity (teams "platform_teams")
update_keeps_example =
    (update_keeps cat "platform_teams" "t1" "2025" (("uuid", str "t9") ∷ ("name", str "New") ∷ [])
      teams).0

insert-get_example :
    (row : Row) × (insert cat "platform_teams" "t3" "2025" (("name", str "QA") ∷ []) teams
      ≡ ok (
        row,
        after (insert cat "platform_teams" "t3" "2025" (("name", str "QA") ∷ []) teams) teams,
      ))
    × (get cat "platform_teams" "t3" true
          (after (insert cat "platform_teams" "t3" "2025" (("name", str "QA") ∷ []) teams) teams)
        ≡ ok (some row))
    × ((other : String) (secrets : Bool)
        → other ≢ "t3"
        → get cat "platform_teams" other secrets
            (after (insert cat "platform_teams" "t3" "2025" (("name", str "QA") ∷ []) teams) teams)
          ≡ get cat "platform_teams" other secrets teams)
    × ((t : String)
        → t ≢ "platform_teams"
        → after (insert cat "platform_teams" "t3" "2025" (("name", str "QA") ∷ []) teams) teams t
          ≡ teams t)
unfolding catalog is_uuid_table migrate migrate_one created_tables has_column Dict.get is_json
    listed
insert-get_example =
    insert-get cat "platform_teams" "t3" "2025" (("name", str "QA") ∷ []) teams refl refl refl refl
      (ground (arith, eq_iff "t3" "")) refl refl

migrate_lem_example :
    All
      (λ m. settled (λ _ _. false) (migrate (λ _ _. false) migrations created_tables) m ≡ true)
      migrations
    × ((table name : String)
        → has_column name (created_tables table) ≡ true
        → has_column name (migrate (λ _ _. false) migrations created_tables table) ≡ true)
    × (migrate (λ _ _. false) migrations (migrate (λ _ _. false) migrations created_tables)
        ≡ migrate (λ _ _. false) migrations created_tables)
migrate_lem_example = migrate_lem (λ _ _. false) migrations created_tables
