-- ===== src/Platform/Schema/Resources.antt =====
-- The tables of `SCHEMA` in syte/platform/store.py: applications, databases, services,
-- service_containers.
use sarra.Common.{List, [], ◌∷◌}
use sarra.Value.{null, int, str}
use sarra.Platform.Schema.Column.{SqlColumn, col, text, integer, nullable, required, primary}

abbrev pub applications_columns : List SqlColumn
applications_columns =
    col "uuid" text primary null
    ∷ col "environment_uuid" text required null
    ∷ col "server_uuid" text required null
    ∷ col "destination_uuid" text nullable null
    ∷ col "name" text required null
    ∷ col "description" text nullable (str "")
    ∷ col "fqdn" text nullable (str "")
    ∷ col "build_pack" text nullable (str "nixpacks")
    ∷ col "static_image" text nullable (str "nginx:alpine")
    ∷ col "git_repository" text nullable (str "")
    ∷ col "git_branch" text nullable (str "main")
    ∷ col "git_commit_sha" text nullable (str "")
    ∷ col "git_full_url" text nullable (str "")
    ∷ col "git_provider" text nullable (str "github")
    ∷ col "git_auth_method" text nullable (str "public")
    ∷ col "git_source_uuid" text nullable null
    ∷ col "private_key_uuid" text nullable null
    ∷ col "watch_paths" text nullable (str "")
    ∷ col "auto_deploy" integer nullable (int 1)
    ∷ col "preview_deployments_enabled" integer nullable (int 0)
    ∷ col "preview_url_template" text nullable (str "pr-{{pr_id}}-{{app}}.{{domain}}")
    ∷ col "docker_registry_image_name" text nullable (str "")
    ∷ col "docker_registry_image_tag" text nullable (str "")
    ∷ col "docker_registry_username" text nullable (str "")
    ∷ col "docker_registry_password" text nullable (str "")
    ∷ col "install_command" text nullable (str "")
    ∷ col "build_command" text nullable (str "")
    ∷ col "start_command" text nullable (str "")
    ∷ col "base_directory" text nullable (str "/")
    ∷ col "publish_directory" text nullable (str "")
    ∷ col "dockerfile" text nullable (str "")
    ∷ col "dockerfile_location" text nullable (str "/Dockerfile")
    ∷ col "dockerfile_target_build" text nullable (str "")
    ∷ col "docker_compose_location" text nullable (str "/docker-compose.yaml")
    ∷ col "docker_compose" text nullable (str "")
    ∷ col "docker_compose_raw" text nullable (str "")
    ∷ col "docker_compose_domains" text nullable (str "{}")
    ∷ col "custom_docker_run_options" text nullable (str "")
    ∷ col "custom_labels" text nullable (str "")
    ∷ col "custom_network_aliases" text nullable (str "")
    ∷ col "ports_exposes" text nullable (str "3000")
    ∷ col "ports_mappings" text nullable (str "")
    ∷ col "pre_deployment_command" text nullable (str "")
    ∷ col "pre_deployment_command_container" text nullable (str "")
    ∷ col "post_deployment_command" text nullable (str "")
    ∷ col "post_deployment_command_container" text nullable (str "")
    ∷ col "health_check_enabled" integer nullable (int 1)
    ∷ col "health_check_path" text nullable (str "/")
    ∷ col "health_check_port" integer nullable null
    ∷ col "health_check_host" text nullable (str "127.0.0.1")
    ∷ col "health_check_method" text nullable (str "GET")
    ∷ col "health_check_scheme" text nullable (str "http")
    ∷ col "health_check_return_code" integer nullable (int 200)
    ∷ col "health_check_response_text" text nullable (str "")
    ∷ col "health_check_interval" integer nullable (int 30)
    ∷ col "health_check_timeout" integer nullable (int 30)
    ∷ col "health_check_retries" integer nullable (int 3)
    ∷ col "health_check_start_period" integer nullable (int 30)
    ∷ col "health_check_command" text nullable (str "")
    ∷ col "limits_memory" text nullable (str "")
    ∷ col "limits_memory_swap" text nullable (str "")
    ∷ col "limits_memory_swappiness" integer nullable null
    ∷ col "limits_memory_reservation" text nullable (str "")
    ∷ col "limits_cpus" text nullable (str "")
    ∷ col "limits_cpuset" text nullable (str "")
    ∷ col "limits_cpu_shares" integer nullable null
    ∷ col "limits_pids" integer nullable null
    ∷ col "redirect" text nullable (str "both")
    ∷ col "is_http_basic_auth_enabled" integer nullable (int 0)
    ∷ col "http_basic_auth_username" text nullable (str "")
    ∷ col "http_basic_auth_password" text nullable (str "")
    ∷ col "is_force_https_enabled" integer nullable (int 1)
    ∷ col "is_gzip_enabled" integer nullable (int 1)
    ∷ col "is_strip_prefix_enabled" integer nullable (int 0)
    ∷ col "connect_to_docker_network" integer nullable (int 1)
    ∷ col "rolling_update_enabled" integer nullable (int 0)
    ∷ col "max_restart_count" integer nullable (int 10)
    ∷ col "manual_webhook_secret_github" text nullable (str "")
    ∷ col "manual_webhook_secret_gitlab" text nullable (str "")
    ∷ col "manual_webhook_secret_gitea" text nullable (str "")
    ∷ col "manual_webhook_secret_bitbucket" text nullable (str "")
    ∷ col "status" text nullable (str "stopped")
    ∷ col "config_hash" text nullable (str "")
    ∷ col "current_image_tag" text nullable (str "")
    ∷ col "previous_image_tag" text nullable (str "")
    ∷ col "last_deployment_uuid" text nullable (str "")
    ∷ col "last_deployed_at" text nullable null
    ∷ col "created_at" text required null
    ∷ col "updated_at" text required null
    ∷ []

abbrev pub databases_columns : List SqlColumn
databases_columns =
    col "uuid" text primary null
    ∷ col "environment_uuid" text required null
    ∷ col "server_uuid" text required null
    ∷ col "destination_uuid" text nullable null
    ∷ col "database_type" text required null
    ∷ col "name" text required null
    ∷ col "description" text nullable (str "")
    ∷ col "image" text required null
    ∷ col "version" text nullable (str "")
    ∷ col "username" text nullable (str "")
    ∷ col "password" text nullable (str "")
    ∷ col "root_password" text nullable (str "")
    ∷ col "database_name" text nullable (str "")
    ∷ col "init_script" text nullable (str "")
    ∷ col "custom_conf" text nullable (str "")
    ∷ col "custom_docker_run_options" text nullable (str "")
    ∷ col "internal_port" integer required null
    ∷ col "public_port" integer nullable null
    ∷ col "is_public" integer nullable (int 0)
    ∷ col "limits_memory" text nullable (str "")
    ∷ col "limits_memory_swap" text nullable (str "")
    ∷ col "limits_memory_swappiness" integer nullable null
    ∷ col "limits_memory_reservation" text nullable (str "")
    ∷ col "limits_cpus" text nullable (str "")
    ∷ col "limits_cpuset" text nullable (str "")
    ∷ col "limits_cpu_shares" integer nullable null
    ∷ col "limits_pids" integer nullable null
    ∷ col "enable_ssl" integer nullable (int 0)
    ∷ col "ssl_mode" text nullable (str "prefer")
    ∷ col "status" text nullable (str "stopped")
    ∷ col "config_hash" text nullable (str "")
    ∷ col "last_started_at" text nullable null
    ∷ col "created_at" text required null
    ∷ col "updated_at" text required null
    ∷ []

abbrev pub services_columns : List SqlColumn
services_columns =
    col "uuid" text primary null
    ∷ col "environment_uuid" text required null
    ∷ col "server_uuid" text required null
    ∷ col "destination_uuid" text nullable null
    ∷ col "name" text required null
    ∷ col "description" text nullable (str "")
    ∷ col "template_key" text nullable (str "")
    ∷ col "service_type" text nullable (str "custom")
    ∷ col "docker_compose_raw" text nullable (str "")
    ∷ col "docker_compose" text nullable (str "")
    ∷ col "connect_to_docker_network" integer nullable (int 1)
    ∷ col "status" text nullable (str "stopped")
    ∷ col "config_hash" text nullable (str "")
    ∷ col "last_deployed_at" text nullable null
    ∷ col "created_at" text required null
    ∷ col "updated_at" text required null
    ∷ []

abbrev pub service_containers_columns : List SqlColumn
service_containers_columns =
    col "uuid" text primary null
    ∷ col "service_uuid" text required null
    ∷ col "name" text required null
    ∷ col "kind" text nullable (str "application")
    ∷ col "image" text nullable (str "")
    ∷ col "fqdn" text nullable (str "")
    ∷ col "exclude_from_status" integer nullable (int 0)
    ∷ col "is_public" integer nullable (int 0)
    ∷ col "public_port" integer nullable null
    ∷ col "status" text nullable (str "stopped")
    ∷ col "created_at" text required null
    ∷ col "updated_at" text required null
    ∷ []
