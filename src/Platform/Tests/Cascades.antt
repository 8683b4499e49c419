-- ===== src/Platform/Tests/Cascades.antt =====
-- Removals on concrete tables.
use sarra.Common.{ℕ, String, ◌≡◌, ◌≢◌, ◌⊎◌, refl, Bool, false, [], ◌∷◌, All, ◌+◌, length, filter}
use sarra.Common.Dict
use sarra.Common.Dict.{Dict}
use sarra.Value.{str}
use sarra.Platform.Codec.{
  Row, decode_row, decode_value, decode_into, decode_entry, is_json, is_bool, is_secret, listed,
}
use sarra.Platform.Table.{
  ok, Db, set_table, has_uuid, column, get, find, usable, matches, holds, sql_eq, bind, limited,
  read,
}
use sarra.Platform.Schema.{catalog, is_uuid_table, migrate, migrate_one, created_tables, has_column}
use sarra.Platform.Cascade.{
  environment_total, delete_environment_cascade, delete_project_cascade, still_holds,
}
use sarra.Platform.Cascade.Steps.{Absent, refers}
use sarra.Platform.Cascade.Gone.{Gone}
use sarra.Platform.Cascade.Empty.{
  HasResources, ByEnvironment, delete_project_cascade-refused, delete_environment_cascade_lem,
}
use sarra.Platform.Tests.{cat, teams}

-- An application with a variable, a task and a run of the task
abbrev deployed : Db
deployed =
    set_table
      (set_table
        (set_table
          (set_table teams "platform_task_executions"
            ((("uuid", str "e1") ∷ ("task_uuid", str "s1") ∷ []) ∷ []))
          "platform_scheduled_tasks" ((("uuid", str "s1") ∷ ("resource_uuid", str "a1") ∷ []) ∷ []))
        "platform_env_vars" ((("uuid", str "v1") ∷ ("resource_uuid", str "a1") ∷ []) ∷ []))
      "platform_applications" ((("uuid", str "a1") ∷ ("environment_uuid", str "n1") ∷ []) ∷ [])

-- A database with a backup and a run of the backup
abbrev backed_up : Db
backed_up =
    set_table
      (set_table
        (set_table teams "platform_backup_executions"
          ((("uuid", str "x1") ∷ ("backup_uuid", str "b1") ∷ []) ∷ []))
        "platform_backups" ((("uuid", str "b1") ∷ ("database_uuid", str "d1") ∷ []) ∷ []))
      "platform_databases" ((("uuid", str "d1") ∷ ("environment_uuid", str "n1") ∷ []) ∷ [])

has_resources : HasResources cat
unfolding catalog is_uuid_table
has_resources = record { applications = refl; databases = refl; services = refl }

by_environment : ByEnvironment cat
unfolding catalog is_uuid_table migrate migrate_one created_tables has_column Dict.get
by_environment = record { applications = refl; databases = refl; services = refl }

delete_environment_cascade_lem_example :
    (n : ℕ) × (n
      ≡ length (filter (refers "environment_uuid" (str "n1")) (deployed "platform_applications"))
        + length (filter (refers "environment_uuid" (str "n1")) (deployed "platform_databases"))
        + length (filter (refers "environment_uuid" (str "n1")) (deployed "platform_services")))
    × (n ≢ 0
        → delete_environment_cascade cat (λ rows. rows) "n1" deployed
          ≡ (ok (false, still_holds n), deployed))
    × (n ≡ 0
        → (found : Bool) × (d : Db) × (delete_environment_cascade cat (λ rows. rows) "n1" deployed
            ≡ (ok (found, "Environment deleted."), d))
          × Absent "platform_environments" (has_uuid "n1") d)
unfolding catalog is_uuid_table migrate migrate_one created_tables has_column Dict.get
delete_environment_cascade_lem_example =
    delete_environment_cascade_lem cat (λ rows. rows) "n1" deployed (λ rows. refl) has_resources
      by_environment refl refl refl refl

abbrev environment : Row
environment = ("uuid", str "n1") ∷ ("project_uuid", str "p1") ∷ ("name", str "prod") ∷ []

abbrev with_project : Db
with_project = set_table deployed "platform_environments" (environment ∷ [])

delete_project_cascade-refused_example :
    All
      (λ e.
        environment_total cat (λ rows. rows) (column e "uuid") with_project ≡ (ok 0, with_project))
      (environment ∷ [])
    ⊎ ((message : String) × (delete_project_cascade cat (λ rows. rows) "p1" with_project
          ≡ (ok (false, message), with_project)))
unfolding catalog is_uuid_table migrate migrate_one created_tables has_column find usable matches
    holds sql_eq bind limited read decode_row decode_into decode_entry decode_value is_json is_bool
    is_secret listed Dict.get Dict.put
delete_project_cascade-refused_example =
    delete_project_cascade-refused cat (λ rows. rows) "p1" (environment ∷ []) with_project
      has_resources refl
