-- ===== src/Platform/Codec.antt =====
-- Rows and their encoding: `_encode` and `decode_row` of syte/platform/store.py. A column keeps a value
-- as it is bound: the conversions of SQLite's type affinity are left out.
pub mod Laws
use sarra.Common.{
  String, Bool, true, false, not, Option, none, some, List, [], ◌∷◌, any, str_eq, ◌&&◌, ◌||◌,
  if◌then◌else◌,
}
use Prim.Native.String
use sarra.Common.Dict
use sarra.Common.Dict.{Dict}
use sarra.Common.Strings.{strip}
use sarra.Value.{Value, null, bool, int, str, json, truthy}

abbrev pub Row : Type 0
Row = Dict Value

abbrev json_columns : Dict (List String)
json_columns =
    ("platform_applications", "docker_compose_domains" ∷ [])
    ∷ ("platform_deployments", "plan" ∷ [])
    ∷ ("platform_notification_channels", "config" ∷ "events" ∷ [])
    ∷ ("platform_previews", "docker_compose_domains" ∷ [])
    ∷ ("platform_webhook_events", "matched_resources" ∷ [])
    ∷ []

abbrev bool_columns : Dict (List String)
bool_columns =
    (
      "platform_applications",
      "auto_deploy" ∷ "preview_deployments_enabled" ∷ "health_check_enabled"
          ∷ "is_http_basic_auth_enabled" ∷ "is_force_https_enabled" ∷ "is_gzip_enabled"
          ∷ "is_strip_prefix_enabled" ∷ "connect_to_docker_network" ∷ "rolling_update_enabled" ∷ [],
    )
    ∷ ("platform_databases", "is_public" ∷ "enable_ssl" ∷ [])
    ∷ ("platform_services", "connect_to_docker_network" ∷ [])
    ∷ ("platform_service_containers", "exclude_from_status" ∷ "is_public" ∷ [])
    ∷ (
      "platform_env_vars",
      "is_build_time" ∷ "is_runtime" ∷ "is_literal" ∷ "is_multiline" ∷ "is_secret" ∷ "is_shown_once"
          ∷ "is_preview" ∷ [],
    )
    ∷ ("platform_shared_env_vars", "is_secret" ∷ [])
    ∷ (
      "platform_servers",
      "is_local" ∷ "is_reachable" ∷ "is_usable" ∷ "is_build_server" ∷ "is_swarm_manager"
          ∷ "is_swarm_worker" ∷ "is_terminal_enabled" ∷ "is_metrics_enabled" ∷ "is_sentinel_enabled"
          ∷ "delete_unused_volumes" ∷ "delete_unused_networks" ∷ "unreachable_notification_sent"
          ∷ "high_disk_usage_notification_sent" ∷ "role_websites" ∷ "role_router" ∷ "role_workers"
          ∷ "load_balancing_enabled" ∷ [],
    )
    ∷ ("platform_fleet_policies", "load_balancing_enabled" ∷ [])
    ∷ (
      "platform_deployments",
      "force_rebuild" ∷ "restart_only" ∷ "rollback" ∷ "is_webhook" ∷ "is_api" ∷ [],
    )
    ∷ ("platform_scheduled_tasks", "enabled" ∷ [])
    ∷ ("platform_backups", "enabled" ∷ "save_locally" ∷ "dump_all" ∷ [])
    ∷ ("platform_volumes", "is_directory" ∷ [])
    ∷ ("platform_destinations", "is_default" ∷ [])
    ∷ ("platform_teams", "personal_team" ∷ [])
    ∷ ("platform_private_keys", "is_git_related" ∷ [])
    ∷ ("platform_s3_storages", "use_path_style" ∷ "is_usable" ∷ [])
    ∷ ("platform_notification_channels", "enabled" ∷ [])
    ∷ ("platform_git_sources", "is_system_wide" ∷ [])
    ∷ ("platform_ssl_certificates", "is_ca" ∷ [])
    ∷ ("platform_webhook_events", "accepted" ∷ [])
    ∷ []

abbrev secret_columns : Dict (List String)
secret_columns =
    ("platform_private_keys", "private_key" ∷ [])
    ∷ ("platform_databases", "password" ∷ "root_password" ∷ [])
    ∷ ("platform_applications", "docker_registry_password" ∷ "http_basic_auth_password" ∷ [])
    ∷ ("platform_s3_storages", "secret_key" ∷ [])
    ∷ ("platform_git_sources", "client_secret" ∷ "access_token" ∷ "webhook_secret" ∷ [])
    ∷ ("platform_ssl_certificates", "private_key" ∷ [])
    ∷ ("platform_servers", "enrollment_token" ∷ [])
    ∷ []

-- `columns.get(table, frozenset())`, asked for one column
unfoldable pub listed : Dict (List String) → String → String → Bool
listed columns table key = elim (Dict.get columns table) [
  | none ↦ false
  | some keys ↦ any (λ k. str_eq k key) keys
]

unfoldable pub is_json : String → String → Bool
is_json = listed json_columns

unfoldable pub is_bool : String → String → Bool
is_bool = listed bool_columns

unfoldable pub is_secret : String → String → Bool
is_secret = listed secret_columns

-- `json.dumps` and `json.loads`, with `none` for a text that is not JSON.
pub record Json : Type 0 where
  pub dumps : Value → String
  pub loads : String → Option Value

abbrev pub empty_object : Value
empty_object = json "{}"

module _ (j : Json) (table : String) where
  -- What SQLite stores for a value that is not in a JSON column.
  unfoldable pub encode_plain : Value → Value
  encode_plain (bool true) = int 1
  encode_plain (bool false) = int 0
  encode_plain (json t) = str (j.dumps (json t))
  encode_plain v = v

  unfoldable pub encode_json : Value → Value
  encode_json (str t) = str t
  encode_json null = str (j.dumps empty_object)
  encode_json v = str (j.dumps v)

  unfoldable pub encode_value : String → Value → Value
  encode_value key v = if is_json table key then encode_json v else encode_plain v

  unfoldable pub encode : Row → Row
  encode [] = []
  encode ((key, v) ∷ fields) = (key, encode_value key v) ∷ encode fields

  unfoldable pub loads_or_empty : String → Value
  loads_or_empty t = elim (j.loads t) [ none ↦ empty_object | some v ↦ v ]

  unfoldable pub decode_json : Value → Value
  decode_json (str t) =
      if not (str_eq (strip t) "")
      then loads_or_empty t
      else if str_eq t ""
      then empty_object
      else str t
  decode_json null = empty_object
  decode_json v = v

  unfoldable pub decode_value : String → Value → Value
  decode_value key v =
      if is_json table key then decode_json v else if is_bool table key then bool (truthy v) else v

  -- The column of the result and its value: of a secret, only whether it is set.
  unfoldable pub decode_entry : Bool → String → Value → String × Value
  decode_entry include_secrets key v =
      if is_secret table key && not include_secrets
      then (String.◌++◌ key "_set", bool (truthy v))
      else (key, decode_value key v)

  unfoldable pub decode_into : Bool → Row → Row → Row
  decode_into include_secrets out [] = out
  decode_into include_secrets out ((key, v) ∷ row) =
      let (k, w) = decode_entry include_secrets key v in
      decode_into include_secrets (Dict.put out k w) row

  unfoldable pub decode_row : Bool → Row → Row
  unfolding decode_into
  decode_row include_secrets row = decode_into include_secrets [] row
