-- ===== src/Platform/Tests/Deployments.antt =====
-- Deployments and variables on concrete tables.
use sarra.Common.{String, ◌≡◌, ◌≢◌, refl, false, some, [], ◌∷◌, map}
use sarra.Common.Dict
use sarra.Common.Dict.{Dict}
use sarra.Value.{Value, bool, int, str, truthy}
use sarra.Platform.Codec.{
  Row, decode_row, decode_value, decode_into, decode_entry, is_json, is_bool, is_secret, listed,
}
use sarra.Platform.Table.{
  ok, Db, set_table, after, find, usable, matches, holds, sql_eq, bind, limited, read, first,
}
use sarra.Platform.Table.Changes.{identity}
use sarra.Platform.Schema.{catalog, is_uuid_table, migrate, migrate_one, created_tables, has_column}
use sarra.Platform.Cascade.{application}
use sarra.Platform.Deployments.{find_one}
use sarra.Platform.EnvVars.{env_var_key, upsert_env_var}
use sarra.Platform.EnvVars.Upsert.{upsert_env_var-existing}
use Prim.Native.String
use sarra.Platform.Tests.{cat}

abbrev release : String → Row
release tag = ("image_tag", str tag) ∷ []

abbrev building : Db
building =
    set_table (λ _. []) "platform_deployments" ((("uuid", str "d1") ∷ ("logs", str "a") ∷ []) ∷ [])

abbrev variable : Value → Row
variable preview =
    ("uuid", str "v1")
    ∷ ("resource_uuid", str "a1")
    ∷ ("key", str "K")
    ∷ ("value", str "x")
    ∷ ("is_preview", preview)
    ∷ []

abbrev variables : Db
variables = set_table (λ _. []) "platform_env_vars" (variable (int 0) ∷ [])

variable_found :
    find_one cat "platform_env_vars" (env_var_key "a1" "K" []) (λ rows. rows) variables
    ≡ ok (some (variable (bool false)))
unfolding find_one catalog is_uuid_table migrate migrate_one created_tables has_column find usable
    matches holds sql_eq bind limited read first decode_row decode_into decode_entry decode_value
    is_json is_bool is_secret listed Dict.get Dict.put truthy
variable_found = refl

upsert_env_var-existing_example :
    (map identity (
        after
          (upsert_env_var cat (λ rows. rows) "v2" "2025" "a1" application "K" "y" [] variables)
          variables
          "platform_env_vars")
      ≡ map identity (variables "platform_env_vars"))
    × ((t : String)
        → t ≢ "platform_env_vars"
        → after
            (upsert_env_var cat (λ rows. rows) "v2" "2025" "a1" application "K" "y" [] variables)
            variables
            t
          ≡ variables t)
upsert_env_var-existing_example =
    upsert_env_var-existing cat (λ rows. rows) "v2" "2025" "a1" application "K" "y" []
      (variable (bool false)) variables variable_found
