-- ===== src/Platform/Schema/Teams.antt =====
-- The tables of `SCHEMA` in syte/platform/store.py: teams, team_members, private_keys, servers,
-- fleet_policies, destinations, projects, environments.
use sarra.Common.{List, [], ◌∷◌}
use sarra.Value.{null, int, str}
use sarra.Platform.Schema.Column.{SqlColumn, col, text, integer, nullable, required, primary}

abbrev pub teams_columns : List SqlColumn
teams_columns =
    col "uuid" text primary null
    ∷ col "name" text required null
    ∷ col "description" text nullable (str "")
    ∷ col "personal_team" integer nullable (int 1)
    ∷ col "created_at" text required null
    ∷ col "updated_at" text required null
    ∷ []

abbrev pub team_members_columns : List SqlColumn
team_members_columns =
    col "uuid" text primary null
    ∷ col "team_uuid" text required null
    ∷ col "email" text required null
    ∷ col "name" text nullable (str "")
    ∷ col "role" text nullable (str "member")
    ∷ col "created_at" text required null
    ∷ col "updated_at" text required null
    ∷ []

abbrev pub private_keys_columns : List SqlColumn
private_keys_columns =
    col "uuid" text primary null
    ∷ col "team_uuid" text required null
    ∷ col "name" text required null
    ∷ col "description" text nullable (str "")
    ∷ col "private_key" text required null
    ∷ col "public_key" text nullable (str "")
    ∷ col "fingerprint" text nullable (str "")
    ∷ col "is_git_related" integer nullable (int 0)
    ∷ col "created_at" text required null
    ∷ col "updated_at" text required null
    ∷ []

abbrev pub servers_columns : List SqlColumn
servers_columns =
    col "uuid" text primary null
    ∷ col "team_uuid" text required null
    ∷ col "name" text required null
    ∷ col "description" text nullable (str "")
    ∷ col "ip" text required (str "127.0.0.1")
    ∷ col "country" text nullable (str "")
    ∷ col "user" text required (str "root")
    ∷ col "port" integer required (int 22)
    ∷ col "private_key_uuid" text nullable null
    ∷ col "is_local" integer nullable (int 0)
    ∷ col "proxy_type" text nullable (str "CADDY")
    ∷ col "proxy_status" text nullable (str "exited")
    ∷ col "status" text nullable (str "unknown")
    ∷ col "is_reachable" integer nullable (int 0)
    ∷ col "is_usable" integer nullable (int 0)
    ∷ col "is_build_server" integer nullable (int 0)
    ∷ col "is_swarm_manager" integer nullable (int 0)
    ∷ col "is_swarm_worker" integer nullable (int 0)
    ∷ col "is_terminal_enabled" integer nullable (int 1)
    ∷ col "is_metrics_enabled" integer nullable (int 1)
    ∷ col "is_sentinel_enabled" integer nullable (int 0)
    ∷ col "wildcard_domain" text nullable (str "")
    ∷ col "concurrent_builds" integer nullable (int 2)
    ∷ col "deployment_queue_limit" integer nullable (int 20)
    ∷ col "dynamic_timeout" integer nullable (int 3600)
    ∷ col "connection_timeout" integer nullable (int 30)
    ∷ col "docker_version" text nullable (str "")
    ∷ col "docker_cleanup_frequency" text nullable (str "0 0 * * *")
    ∷ col "docker_cleanup_threshold" integer nullable (int 80)
    ∷ col "delete_unused_volumes" integer nullable (int 0)
    ∷ col "delete_unused_networks" integer nullable (int 0)
    ∷ col "unreachable_count" integer nullable (int 0)
    ∷ col "unreachable_notification_sent" integer nullable (int 0)
    ∷ col "high_disk_usage_notification_sent" integer nullable (int 0)
    ∷ col "validation_logs" text nullable (str "")
    ∷ col "sentinel_token" text nullable (str "")
    ∷ col "last_seen_at" text nullable null
    ∷ col "created_at" text required null
    ∷ col "updated_at" text required null
    ∷ []

abbrev pub fleet_policies_columns : List SqlColumn
fleet_policies_columns =
    col "uuid" text primary null
    ∷ col "team_uuid" text required null
    ∷ col "load_balancing_enabled" integer nullable (int 0)
    ∷ col "strategy" text nullable (str "least-load")
    ∷ col "router_server_uuid" text nullable (str "")
    ∷ col "health_check_path" text nullable (str "/health")
    ∷ col "created_at" text required null
    ∷ col "updated_at" text required null
    ∷ []

abbrev pub destinations_columns : List SqlColumn
destinations_columns =
    col "uuid" text primary null
    ∷ col "server_uuid" text required null
    ∷ col "name" text required null
    ∷ col "network" text required null
    ∷ col "kind" text nullable (str "standalone")
    ∷ col "is_default" integer nullable (int 0)
    ∷ col "created_at" text required null
    ∷ col "updated_at" text required null
    ∷ []

abbrev pub projects_columns : List SqlColumn
projects_columns =
    col "uuid" text primary null
    ∷ col "team_uuid" text required null
    ∷ col "name" text required null
    ∷ col "description" text nullable (str "")
    ∷ col "created_at" text required null
    ∷ col "updated_at" text required null
    ∷ []

abbrev pub environments_columns : List SqlColumn
environments_columns =
    col "uuid" text primary null
    ∷ col "project_uuid" text required null
    ∷ col "name" text required null
    ∷ col "description" text nullable (str "")
    ∷ col "created_at" text required null
    ∷ col "updated_at" text required null
    ∷ []
