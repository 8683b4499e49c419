-- ===== src/Platform/EnvVars.antt =====
-- The variables of a resource: `upsert_env_var` and `bulk_upsert_env_vars` of
-- syte/platform/store.py. The n-th call of `new_uuid` and the time at it are arguments. A keyword
-- argument that repeats one of the positional ones, which Python refuses, does not occur.
pub mod Upsert
use sarra.Common.{
  ℕ, suc, String, Bool, true, false, not, Option, none, some, List, [], ◌∷◌, filter, str_eq, ◌||◌,
  if◌then◌else◌,
}
use sarra.Common.Dict.{Dict}
use sarra.Common.Strings.{strip}
use sarra.Value.{Value, bool, str, to_text, truthy, text_or_empty}
use sarra.Platform.Codec.{Row}
use sarra.Platform.Table.{
  Result, ok, ◌>>=◌, Db, Catalog, Condition, is, column, overlay, insert, update,
}
use sarra.Platform.Deployments.{find_one}
use sarra.Platform.Cascade.{
  Action, ◌▷◌, return, execute, ResourceType, application, database, service,
}

abbrev resource_type_value : ResourceType → String
resource_type_value application = "application"
resource_type_value database = "database"
resource_type_value service = "service"

abbrev pub env_var_key : String → String → Row → Dict Condition
env_var_key resource_uuid key flags =
    ("resource_uuid", is (str resource_uuid))
    ∷ ("key", is (str key))
    ∷ ("is_preview", is (bool (truthy (column flags "is_preview"))))
    ∷ []

unfoldable pub env_var_payload : String → ResourceType → String → String → Row → Row
env_var_payload resource_uuid kind key value flags =
    overlay
      (("resource_uuid", str resource_uuid)
        ∷ ("resource_type", str (resource_type_value kind))
        ∷ ("key", str key)
        ∷ ("value", str value)
        ∷ [])
      flags

-- What an update returns, or the row as it was; the tables after it.
unfoldable pub or_existing : Row → Option Row × Db → Result (Row × Db)
or_existing existing (none, db) = ok (existing, db)
or_existing existing (some row, db) = ok (row, db)

module _ (cat : Catalog) (order : List Row → List Row) where
  -- The write that follows the search for a variable
  unfoldable pub put_env_var : String → String → Row → Option Row → Db → Result (Row × Db)
  put_env_var fresh now payload none db = insert cat "platform_env_vars" fresh now payload db
  put_env_var fresh now payload (some existing) db =
      update cat "platform_env_vars" (to_text (column existing "uuid")) now payload db
      >>= or_existing existing

  unfoldable pub upsert_env_var :
      String → String → String → ResourceType → String → String → Row → Db → Result (Row × Db)
  upsert_env_var fresh now resource_uuid kind key value flags db =
      find_one cat "platform_env_vars" (env_var_key resource_uuid key flags) order db
      >>= λ existing.
          put_env_var fresh now (env_var_payload resource_uuid kind key value flags) existing db

  unfoldable pub bulk_upsert_env_vars :
      (ℕ → String) → (ℕ → String) → String → ResourceType → ℕ → List Row → Action (List Row)
  bulk_upsert_env_vars fresh now resource_uuid kind n [] = return []
  bulk_upsert_env_vars fresh now resource_uuid kind n (item ∷ items) =
      let key = strip (text_or_empty item "key") in
      let flags =
        filter (λ (p : String × Value). not (str_eq p.0 "key" || str_eq p.0 "value")) item in
      if str_eq key ""
      then bulk_upsert_env_vars fresh now resource_uuid kind n items
      else (execute (
            upsert_env_var (fresh n) (now n) resource_uuid kind key (text_or_empty item "value")
              flags)
          ▷ λ row.
              (bulk_upsert_env_vars fresh now resource_uuid kind (suc n) items ▷ λ rows.
              return (row ∷ rows)))
