-- ===== src/Platform/Codec/Laws.antt =====
-- Reading rows: the credentials among their columns.
use sarra.Common.{String, ◌≡◌, Bool, true, false, [], ◌∷◌, str_eq, any, List, ◌&&◌}
use sarra.Common.Dict
use sarra.Value.{Value, truthy}
use sarra.Platform.Codec.{Row}

-- Columns that hold a credential, by their tables, told from what they are for. It is no list of all
-- that the schema has: `platform_identity_providers.client_secret`,
-- `platform_registry_configs.password`, `platform_dns_providers.credentials`,
-- `platform_servers.sentinel_token` and the columns `manual_webhook_secret_*` of
-- `platform_applications` are not in it, and the default read path returns them.
abbrev pub credentials : List (String × String)
credentials =
    ("platform_private_keys", "private_key")
    ∷ ("platform_ssl_certificates", "private_key")
    ∷ ("platform_databases", "password")
    ∷ ("platform_databases", "root_password")
    ∷ ("platform_applications", "docker_registry_password")
    ∷ ("platform_applications", "http_basic_auth_password")
    ∷ ("platform_s3_storages", "secret_key")
    ∷ ("platform_git_sources", "client_secret")
    ∷ ("platform_git_sources", "access_token")
    ∷ ("platform_git_sources", "webhook_secret")
    ∷ ("platform_servers", "enrollment_token")
    ∷ []

abbrev pub is_credential : String → String → Bool
is_credential table key =
    any (λ (c : String × String). str_eq c.0 table && str_eq c.1 key) credentials

-- Two rows with the same columns that differ at most in what their credentials are.
abbrev pub AlikeButCredentials : String → Row → Row → Type 0
AlikeButCredentials table [] [] = Unit
AlikeButCredentials table ((k, v) ∷ r) ((l, w) ∷ s) =
    (k ≡ l)
    × (is_credential table k ≡ true → truthy v ≡ truthy w)
    × (is_credential table k ≡ false → v ≡ w)
    × AlikeButCredentials table r s
AlikeButCredentials table _ _ = ⊥
