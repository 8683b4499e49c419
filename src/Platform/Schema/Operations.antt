-- ===== src/Platform/Schema/Operations.antt =====
-- The tables of `SCHEMA` in syte/platform/store.py: env_vars, shared_env_vars, deployments,
-- previews, volumes, scheduled_tasks, task_executions, s3_storages, backups.
use sarra.Common.{List, [], ◌∷◌}
use sarra.Value.{null, int, str}
use sarra.Platform.Schema.Column.{SqlColumn, col, text, integer, nullable, required, primary}

abbrev pub env_vars_columns : List SqlColumn
env_vars_columns =
    col "uuid" text primary null
    ∷ col "resource_uuid" text required null
    ∷ col "resource_type" text required null
    ∷ col "key" text required null
    ∷ col "value" text nullable (str "")
    ∷ col "is_build_time" integer nullable (int 0)
    ∷ col "is_runtime" integer nullable (int 1)
    ∷ col "is_literal" integer nullable (int 0)
    ∷ col "is_multiline" integer nullable (int 0)
    ∷ col "is_secret" integer nullable (int 0)
    ∷ col "is_shown_once" integer nullable (int 0)
    ∷ col "is_preview" integer nullable (int 0)
    ∷ col "created_at" text required null
    ∷ col "updated_at" text required null
    ∷ []

abbrev pub shared_env_vars_columns : List SqlColumn
shared_env_vars_columns =
    col "uuid" text primary null
    ∷ col "scope" text required null
    ∷ col "scope_uuid" text required null
    ∷ col "key" text required null
    ∷ col "value" text nullable (str "")
    ∷ col "is_secret" integer nullable (int 0)
    ∷ col "created_at" text required null
    ∷ col "updated_at" text required null
    ∷ []

abbrev pub deployments_columns : List SqlColumn
deployments_columns =
    col "uuid" text primary null
    ∷ col "resource_uuid" text required null
    ∷ col "resource_type" text nullable (str "application")
    ∷ col "resource_name" text nullable (str "")
    ∷ col "server_uuid" text nullable (str "")
    ∷ col "server_name" text nullable (str "")
    ∷ col "status" text nullable (str "queued")
    ∷ col "trigger" text nullable (str "manual")
    ∷ col "pull_request_id" integer nullable (int 0)
    ∷ col "commit" text nullable (str "")
    ∷ col "commit_message" text nullable (str "")
    ∷ col "build_pack" text nullable (str "")
    ∷ col "image_tag" text nullable (str "")
    ∷ col "rollback_image_tag" text nullable (str "")
    ∷ col "config_hash" text nullable (str "")
    ∷ col "force_rebuild" integer nullable (int 0)
    ∷ col "restart_only" integer nullable (int 0)
    ∷ col "rollback" integer nullable (int 0)
    ∷ col "is_webhook" integer nullable (int 0)
    ∷ col "is_api" integer nullable (int 0)
    ∷ col "requested_by" text nullable (str "")
    ∷ col "plan" text nullable (str "{}")
    ∷ col "logs" text nullable (str "")
    ∷ col "error" text nullable (str "")
    ∷ col "started_at" text nullable null
    ∷ col "finished_at" text nullable null
    ∷ col "created_at" text required null
    ∷ col "updated_at" text required null
    ∷ []

abbrev pub previews_columns : List SqlColumn
previews_columns =
    col "uuid" text primary null
    ∷ col "application_uuid" text required null
    ∷ col "pull_request_id" integer required null
    ∷ col "pull_request_title" text nullable (str "")
    ∷ col "pull_request_html_url" text nullable (str "")
    ∷ col "branch" text nullable (str "")
    ∷ col "fqdn" text nullable (str "")
    ∷ col "docker_compose_domains" text nullable (str "{}")
    ∷ col "status" text nullable (str "stopped")
    ∷ col "created_at" text required null
    ∷ col "updated_at" text required null
    ∷ []

abbrev pub volumes_columns : List SqlColumn
volumes_columns =
    col "uuid" text primary null
    ∷ col "resource_uuid" text required null
    ∷ col "resource_type" text required null
    ∷ col "kind" text nullable (str "volume")
    ∷ col "name" text required null
    ∷ col "mount_path" text required null
    ∷ col "host_path" text nullable (str "")
    ∷ col "content" text nullable (str "")
    ∷ col "is_directory" integer nullable (int 0)
    ∷ col "created_at" text required null
    ∷ col "updated_at" text required null
    ∷ []

abbrev pub scheduled_tasks_columns : List SqlColumn
scheduled_tasks_columns =
    col "uuid" text primary null
    ∷ col "resource_uuid" text required null
    ∷ col "resource_type" text required null
    ∷ col "name" text required null
    ∷ col "command" text required null
    ∷ col "container" text nullable (str "")
    ∷ col "frequency" text required null
    ∷ col "timeout" integer nullable (int 600)
    ∷ col "enabled" integer nullable (int 1)
    ∷ col "last_run_at" text nullable null
    ∷ col "next_run_at" text nullable null
    ∷ col "created_at" text required null
    ∷ col "updated_at" text required null
    ∷ []

abbrev pub task_executions_columns : List SqlColumn
task_executions_columns =
    col "uuid" text primary null
    ∷ col "task_uuid" text required null
    ∷ col "status" text nullable (str "running")
    ∷ col "message" text nullable (str "")
    ∷ col "exit_code" integer nullable null
    ∷ col "started_at" text nullable null
    ∷ col "finished_at" text nullable null
    ∷ col "created_at" text required null
    ∷ []

abbrev pub s3_storages_columns : List SqlColumn
s3_storages_columns =
    col "uuid" text primary null
    ∷ col "team_uuid" text required null
    ∷ col "name" text required null
    ∷ col "description" text nullable (str "")
    ∷ col "endpoint" text required null
    ∷ col "bucket" text required null
    ∷ col "region" text nullable (str "us-east-1")
    ∷ col "access_key" text required null
    ∷ col "secret_key" text required null
    ∷ col "use_path_style" integer nullable (int 1)
    ∷ col "is_usable" integer nullable (int 1)
    ∷ col "created_at" text required null
    ∷ col "updated_at" text required null
    ∷ []

abbrev pub backups_columns : List SqlColumn
backups_columns =
    col "uuid" text primary null
    ∷ col "database_uuid" text required null
    ∷ col "enabled" integer nullable (int 1)
    ∷ col "frequency" text nullable (str "0 0 * * *")
    ∷ col "save_locally" integer nullable (int 1)
    ∷ col "databases_to_backup" text nullable (str "")
    ∷ col "dump_all" integer nullable (int 0)
    ∷ col "retention_amount_locally" integer nullable (int 7)
    ∷ col "retention_days_locally" integer nullable (int 0)
    ∷ col "retention_amount_s3" integer nullable (int 0)
    ∷ col "retention_days_s3" integer nullable (int 0)
    ∷ col "s3_storage_uuid" text nullable null
    ∷ col "last_run_at" text nullable null
    ∷ col "next_run_at" text nullable null
    ∷ col "created_at" text required null
    ∷ col "updated_at" text required null
    ∷ []
