-- ===== src/Platform/EnvVars/Upsert.antt =====
-- `upsert_env_var` for a variable that is there.
use sarra.Common.{String, ◌≡◌, ◌≢◌, refl, Option, none, some, List, map}
use sarra.Platform.Codec.{Row}
use sarra.Platform.Table.{Result, ok, err, ◌>>=◌, Db, Catalog, after, column, update}
use sarra.Platform.Table.Changes.{update_keeps, identity}
use sarra.Value.{to_text}
use sarra.Platform.Cascade.{ResourceType}
use sarra.Platform.Deployments.{find_one}
use sarra.Platform.EnvVars.{env_var_key, env_var_payload, or_existing, put_env_var, upsert_env_var}

after_existing :
    (existing : Row) (r : Result (Option Row × Db)) (db : Db)
    → after (r >>= or_existing existing) db ≡ after r db
unfolding or_existing
after_existing existing (ok (none, d)) db = refl
after_existing existing (ok (some row, d)) db = refl
after_existing existing (err e) db = refl

put_existing :
    (cat : Catalog) (order : List Row → List Row) (fresh now : String) (payload existing : Row)
    (db : Db)
    → after (put_env_var cat order fresh now payload (some existing) db) db
      ≡ after (update cat "platform_env_vars" (to_text (column existing "uuid")) now payload db) db
unfolding put_env_var
put_existing cat order fresh now payload existing db =
    after_existing existing
      (update cat "platform_env_vars" (to_text (column existing "uuid")) now payload db) db

-- If the resource has a variable of this key, preview or not, an upsert of it, whatever becomes of
-- it, adds no row to the variables and removes none: they keep their uuids and times of creation,
-- in order. The other tables are as they were.
pub upsert_env_var-existing :
    (cat : Catalog) (order : List Row → List Row) (fresh now resource_uuid : String)
    (kind : ResourceType) (key value : String) (flags existing : Row) (db : Db)
    → find_one cat "platform_env_vars" (env_var_key resource_uuid key flags) order db
      ≡ ok (some existing)
    → (map identity (
          after
            (upsert_env_var cat order fresh now resource_uuid kind key value flags db)
            db
            "platform_env_vars")
        ≡ map identity (db "platform_env_vars"))
      × ((t : String)
          → t ≢ "platform_env_vars"
          → after (upsert_env_var cat order fresh now resource_uuid kind key value flags db) db t
            ≡ db t)
unfolding upsert_env_var
upsert_env_var-existing cat order fresh now resource_uuid kind key value flags existing db e =
    let payload = env_var_payload resource_uuid kind key value flags in
    let (same, _, others) =
      update_keeps cat "platform_env_vars" (to_text (column existing "uuid")) now payload db in
    rw (e, put_existing cat order fresh now payload existing db) (same, others)
