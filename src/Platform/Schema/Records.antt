-- ===== src/Platform/Schema/Records.antt =====
-- The tables of `SCHEMA` in syte/platform/store.py: backup_executions, notification_channels,
-- git_sources, tags, resource_tags, ssl_certificates, server_metrics, webhook_events,
-- registry_configs, dns_providers, identity_providers.
use sarra.Common.{List, [], ◌∷◌}
use sarra.Value.{null, int, str}
use sarra.Platform.Schema.Column.{SqlColumn, col, text, integer, real, nullable, required, primary}

abbrev pub backup_executions_columns : List SqlColumn
backup_executions_columns =
    col "uuid" text primary null
    ∷ col "backup_uuid" text required null
    ∷ col "status" text nullable (str "running")
    ∷ col "message" text nullable (str "")
    ∷ col "filename" text nullable (str "")
    ∷ col "size" integer nullable (int 0)
    ∷ col "s3_key" text nullable (str "")
    ∷ col "upload_status" text nullable (str "")
    ∷ col "started_at" text nullable null
    ∷ col "finished_at" text nullable null
    ∷ col "created_at" text required null
    ∷ []

abbrev pub notification_channels_columns : List SqlColumn
notification_channels_columns =
    col "uuid" text primary null
    ∷ col "team_uuid" text required null
    ∷ col "kind" text required null
    ∷ col "name" text nullable (str "")
    ∷ col "enabled" integer nullable (int 1)
    ∷ col "config" text nullable (str "{}")
    ∷ col "events" text nullable (str "[]")
    ∷ col "last_error" text nullable (str "")
    ∷ col "created_at" text required null
    ∷ col "updated_at" text required null
    ∷ []

abbrev pub git_sources_columns : List SqlColumn
git_sources_columns =
    col "uuid" text primary null
    ∷ col "team_uuid" text required null
    ∷ col "kind" text required null
    ∷ col "name" text required null
    ∷ col "api_url" text nullable (str "")
    ∷ col "html_url" text nullable (str "")
    ∷ col "organization" text nullable (str "")
    ∷ col "app_id" text nullable (str "")
    ∷ col "installation_id" text nullable (str "")
    ∷ col "client_id" text nullable (str "")
    ∷ col "client_secret" text nullable (str "")
    ∷ col "access_token" text nullable (str "")
    ∷ col "webhook_secret" text nullable (str "")
    ∷ col "private_key_uuid" text nullable null
    ∷ col "is_system_wide" integer nullable (int 0)
    ∷ col "created_at" text required null
    ∷ col "updated_at" text required null
    ∷ []

abbrev pub tags_columns : List SqlColumn
tags_columns =
    col "uuid" text primary null
    ∷ col "team_uuid" text required null
    ∷ col "name" text required null
    ∷ col "color" text nullable (str "#6366f1")
    ∷ col "created_at" text required null
    ∷ col "updated_at" text required null
    ∷ []

abbrev pub resource_tags_columns : List SqlColumn
resource_tags_columns =
    col "uuid" text primary null
    ∷ col "tag_uuid" text required null
    ∷ col "resource_uuid" text required null
    ∷ col "resource_type" text required null
    ∷ col "created_at" text required null
    ∷ []

abbrev pub ssl_certificates_columns : List SqlColumn
ssl_certificates_columns =
    col "uuid" text primary null
    ∷ col "resource_uuid" text nullable (str "")
    ∷ col "resource_type" text nullable (str "")
    ∷ col "server_uuid" text nullable (str "")
    ∷ col "common_name" text required null
    ∷ col "subject_alternative_names" text nullable (str "")
    ∷ col "certificate" text nullable (str "")
    ∷ col "private_key" text nullable (str "")
    ∷ col "is_ca" integer nullable (int 0)
    ∷ col "valid_until" text nullable null
    ∷ col "created_at" text required null
    ∷ col "updated_at" text required null
    ∷ []

abbrev pub server_metrics_columns : List SqlColumn
server_metrics_columns =
    col "id" integer primary null
    ∷ col "server_uuid" text required null
    ∷ col "cpu_percent" real nullable (int 0)
    ∷ col "memory_percent" real nullable (int 0)
    ∷ col "memory_used_mb" real nullable (int 0)
    ∷ col "memory_total_mb" real nullable (int 0)
    ∷ col "disk_percent" real nullable (int 0)
    ∷ col "disk_used_gb" real nullable (int 0)
    ∷ col "disk_total_gb" real nullable (int 0)
    ∷ col "container_count" integer nullable (int 0)
    ∷ col "ping_ms" real nullable (int 0)
    ∷ col "recorded_at" text required null
    ∷ []

abbrev pub webhook_events_columns : List SqlColumn
webhook_events_columns =
    col "uuid" text primary null
    ∷ col "source" text required null
    ∷ col "event" text nullable (str "")
    ∷ col "repository" text nullable (str "")
    ∷ col "branch" text nullable (str "")
    ∷ col "commit" text nullable (str "")
    ∷ col "pull_request_id" integer nullable (int 0)
    ∷ col "matched_resources" text nullable (str "[]")
    ∷ col "accepted" integer nullable (int 0)
    ∷ col "message" text nullable (str "")
    ∷ col "created_at" text required null
    ∷ []

abbrev pub registry_configs_columns : List SqlColumn
registry_configs_columns =
    col "uuid" text primary null
    ∷ col "team_uuid" text required null
    ∷ col "name" text required null
    ∷ col "url" text required null
    ∷ col "username" text nullable (str "")
    ∷ col "password" text nullable (str "")
    ∷ col "status" text nullable (str "configured")
    ∷ col "created_at" text required null
    ∷ col "updated_at" text required null
    ∷ []

abbrev pub dns_providers_columns : List SqlColumn
dns_providers_columns =
    col "uuid" text primary null
    ∷ col "team_uuid" text required null
    ∷ col "name" text required null
    ∷ col "provider" text required null
    ∷ col "zone" text nullable (str "")
    ∷ col "credentials" text nullable (str "{}")
    ∷ col "status" text nullable (str "configured")
    ∷ col "created_at" text required null
    ∷ col "updated_at" text required null
    ∷ []

abbrev pub identity_providers_columns : List SqlColumn
identity_providers_columns =
    col "uuid" text primary null
    ∷ col "team_uuid" text required null
    ∷ col "provider" text required null
    ∷ col "issuer" text nullable (str "")
    ∷ col "client_id" text nullable (str "")
    ∷ col "client_secret" text nullable (str "")
    ∷ col "status" text nullable (str "configured")
    ∷ col "created_at" text required null
    ∷ col "updated_at" text required null
    ∷ []
