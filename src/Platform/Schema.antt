-- ===== src/Platform/Schema.antt =====
-- The schema of the store: `SCHEMA`, `MIGRATIONS`, `_UUID_TABLES` and `_migrate` of
-- syte/platform/store.py. A table is known by its columns, as `PRAGMA table_info` gives them.
pub mod Column
pub mod Teams
pub mod Resources
pub mod Operations
pub mod Records
pub mod Providers
pub mod Migrate
pub mod Cover
use sarra.Common.{
  String, Bool, true, false, not, Option, none, some, List, [], ◌∷◌, ◌++◌, any, filter, map, str_eq,
  ◌&&◌, ◌||◌, if◌then◌else◌,
}
use sarra.Common.Dict
use sarra.Common.Dict.{Dict}
use sarra.Value.{Value, null, int, str}
use sarra.Platform.Codec.{Row, Json}
use sarra.Platform.Table.{Catalog, is_nil}
use sarra.Platform.Schema.Column.{SqlColumn, col, text, integer, real, nullable}
use sarra.Platform.Schema.Teams.{
  teams_columns, team_members_columns, private_keys_columns, servers_columns,
  fleet_policies_columns, destinations_columns, projects_columns, environments_columns,
}
use sarra.Platform.Schema.Resources.{
  applications_columns, databases_columns, services_columns, service_containers_columns,
}
use sarra.Platform.Schema.Operations.{
  env_vars_columns, shared_env_vars_columns, deployments_columns, previews_columns, volumes_columns,
  scheduled_tasks_columns, task_executions_columns, s3_storages_columns, backups_columns,
}
use sarra.Platform.Schema.Records.{
  backup_executions_columns, notification_channels_columns, git_sources_columns, tags_columns,
  resource_tags_columns, ssl_certificates_columns, server_metrics_columns, webhook_events_columns,
  registry_configs_columns, dns_providers_columns, identity_providers_columns,
}
use sarra.Platform.Schema.Providers.{operator_profiles_columns, license_records_columns}

-- What the tables of `SCHEMA` are created with
abbrev created : Dict (List SqlColumn)
created =
    ("platform_teams", teams_columns)
    ∷ ("platform_team_members", team_members_columns)
    ∷ ("platform_private_keys", private_keys_columns)
    ∷ ("platform_servers", servers_columns)
    ∷ ("platform_fleet_policies", fleet_policies_columns)
    ∷ ("platform_destinations", destinations_columns)
    ∷ ("platform_projects", projects_columns)
    ∷ ("platform_environments", environments_columns)
    ∷ ("platform_applications", applications_columns)
    ∷ ("platform_databases", databases_columns)
    ∷ ("platform_services", services_columns)
    ∷ ("platform_service_containers", service_containers_columns)
    ∷ ("platform_env_vars", env_vars_columns)
    ∷ ("platform_shared_env_vars", shared_env_vars_columns)
    ∷ ("platform_deployments", deployments_columns)
    ∷ ("platform_previews", previews_columns)
    ∷ ("platform_volumes", volumes_columns)
    ∷ ("platform_scheduled_tasks", scheduled_tasks_columns)
    ∷ ("platform_task_executions", task_executions_columns)
    ∷ ("platform_s3_storages", s3_storages_columns)
    ∷ ("platform_backups", backups_columns)
    ∷ ("platform_backup_executions", backup_executions_columns)
    ∷ ("platform_notification_channels", notification_channels_columns)
    ∷ ("platform_git_sources", git_sources_columns)
    ∷ ("platform_tags", tags_columns)
    ∷ ("platform_resource_tags", resource_tags_columns)
    ∷ ("platform_ssl_certificates", ssl_certificates_columns)
    ∷ ("platform_server_metrics", server_metrics_columns)
    ∷ ("platform_webhook_events", webhook_events_columns)
    ∷ ("platform_registry_configs", registry_configs_columns)
    ∷ ("platform_dns_providers", dns_providers_columns)
    ∷ ("platform_identity_providers", identity_providers_columns)
    ∷ ("platform_operator_profiles", operator_profiles_columns)
    ∷ ("platform_license_records", license_records_columns)
    ∷ []

abbrev pub migrations : List (String × SqlColumn)
migrations =
    ("platform_applications", col "rolling_update_enabled" integer nullable (int 0))
    ∷ ("platform_applications", col "limits_pids" integer nullable null)
    ∷ ("platform_applications", col "git_source_uuid" text nullable null)
    ∷ (
      "platform_applications",
      col "preview_url_template" text nullable (str "pr-{{pr_id}}-{{app}}.{{domain}}"),
    )
    ∷ ("platform_databases", col "ssl_mode" text nullable (str "prefer"))
    ∷ ("platform_servers", col "docker_version" text nullable (str ""))
    ∷ ("platform_servers", col "last_seen_at" text nullable null)
    ∷ ("platform_servers", col "server_type" text nullable (str "vps"))
    ∷ ("platform_servers", col "role_websites" integer nullable (int 1))
    ∷ ("platform_servers", col "role_router" integer nullable (int 0))
    ∷ ("platform_servers", col "role_workers" integer nullable (int 0))
    ∷ ("platform_servers", col "load_balancing_enabled" integer nullable (int 0))
    ∷ ("platform_servers", col "load_balancing_weight" integer nullable (int 100))
    ∷ ("platform_servers", col "enrollment_token" text nullable (str ""))
    ∷ ("platform_servers", col "helper_script_version" text nullable (str "1"))
    ∷ ("platform_servers", col "country" text nullable (str ""))
    ∷ ("platform_server_metrics", col "ping_ms" real nullable (int 0))
    ∷ ("platform_deployments", col "requested_by" text nullable (str ""))
    ∷ ("platform_deployments", col "plan" text nullable (str "{}"))
    ∷ []

-- The columns of every table; a table that does not exist has none.
abbrev pub Tables : Type 0
Tables = String → List SqlColumn

unfoldable pub created_tables : Tables
unfolding Dict.get
created_tables table = elim (Dict.get created table) [ none ↦ [] | some columns ↦ columns ]

unfoldable pub has_column : String → List SqlColumn → Bool
has_column name = any (λ c. str_eq c.name name)

abbrev add_column : String → SqlColumn → Tables → Tables
add_column table c tables t = if str_eq table t then tables t ++ (c ∷ []) else tables t

-- `fails` tells of which columns the ALTER TABLE raises, which is logged and passed over.
module _ (fails : String → SqlColumn → Bool) where
  unfoldable pub migrate_one : String × SqlColumn → Tables → Tables
  unfolding has_column
  migrate_one (table, c) tables =
      if is_nil (tables table)
      then tables
      else if has_column c.name (tables table)
      then tables
      else if fails table c
      then tables
      else add_column table c tables

  unfoldable pub migrate : List (String × SqlColumn) → Tables → Tables
  migrate [] tables = tables
  migrate (m ∷ ms) tables = migrate ms (migrate_one m tables)

-- `_UUID_TABLES`
unfoldable pub is_uuid_table : String → Bool
is_uuid_table table =
    any (λ (p : String × List SqlColumn). str_eq p.0 table) created
    && not (str_eq table "platform_server_metrics")

-- What the operations on the tables are given once the tables are created and migrated.
unfoldable pub catalog : Json → (String → List Row → Bool) → Catalog
unfolding is_uuid_table migrate migrate_one created_tables has_column
catalog j satisfied = record {
  codec = j;
  known = is_uuid_table;
  columns = λ table key. has_column key (migrate (λ _ _. false) migrations created_tables table);
  defaults = λ table.
      map (λ (c : SqlColumn). (c.name, c.fallback))
        (migrate (λ _ _. false) migrations created_tables table);
  satisfied = satisfied;
}
