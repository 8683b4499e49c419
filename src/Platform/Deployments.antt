-- ===== src/Platform/Deployments.antt =====
-- The queue of deployments: the accessors of syte/platform/store.py from `active_deployments` to
-- `rollback_candidates`, `find_one` and `env_vars_for`, and `DeploymentStatus` of
-- syte/platform/types.py. `oldest`, `newest_first` and `by_key` are the ORDER BYs. The history is
-- read from its start, without an OFFSET.
pub mod Rollback
pub mod Logs
use Prim.Native.String
use mathlib.Core.Option
use sarra.Common.{
  ℕ, zero, suc, ◌*◌, ◌-◌, String, Bool, true, false, not, Option, none, some, List, [], ◌∷◌, length,
  map, any, leb, str_eq, ◌||◌, if◌then◌else◌,
}
use sarra.Common.Dict
use sarra.Common.Dict.{Dict}
use sarra.Common.Text.{ends_with, codes}
use sarra.Value.{Value, null, bool, int, str, to_text, text_or_empty}
use sarra.Platform.Codec.{Row}
use sarra.Platform.Table.{
  Result, ok, err, ◌>>=◌, Db, Catalog, Condition, is, one_of, set_table, has_uuid, column, overlay,
  first, find, insert, update,
}

pub data DeploymentStatus : Type 0 where
  queued in_progress finished failed cancelled_by_user : DeploymentStatus

abbrev pub status_value : DeploymentStatus → String
status_value queued = "queued"
status_value in_progress = "in_progress"
status_value finished = "finished"
status_value failed = "failed"
status_value cancelled_by_user = "cancelled-by-user"

unfoldable pub is_terminal : DeploymentStatus → Bool
is_terminal finished = true
is_terminal failed = true
is_terminal cancelled_by_user = true
is_terminal _ = false

unfoldable pub is_active : DeploymentStatus → Bool
is_active s = not (is_terminal s)

abbrev pub with_status : DeploymentStatus → Value
with_status s = str (status_value s)

-- str(row.get("image_tag") or "")
unfoldable pub image_tag : Row → String
image_tag row = text_or_empty row "image_tag"

abbrev pub is_taken : String → List String → Bool
is_taken tag seen = str_eq tag "" || any (λ s. str_eq s tag) seen

-- The loop of `rollback_candidates`; `left` is how many may still be offered.
unfoldable pub pick : ℕ → List String → List Row → List Row
pick left seen [] = []
pick left seen (row ∷ rows) =
    let tag = image_tag row in
    if is_taken tag seen
    then pick left seen rows
    else row ∷ (if leb left 1 then [] else pick (left - 1) (tag ∷ seen) rows)

abbrev pub finished_of : String → Dict Condition
finished_of resource_uuid =
    ("resource_uuid", is (str resource_uuid))
    ∷ ("status", is (with_status finished))
    ∷ ("pull_request_id", is (int 0))
    ∷ []

-- `COALESCE(logs, '')`
abbrev pub log_text : Option Value → String
log_text none = ""
log_text (some null) = ""
log_text (some v) = to_text v

abbrev pub log_of : Row → String
log_of row = log_text (Dict.get row "logs")

-- `logs = COALESCE(logs, '') || ?, updated_at = ?`
unfoldable pub with_logs : String → String → Row → Row
with_logs line now row =
    Dict.put (Dict.put row "logs" (str (String.◌++◌ (log_of row) line))) "updated_at" (str now)

unfoldable pub log_line : String → String
log_line text = if ends_with (codes text) (codes "\n") then text else String.◌++◌ text "\n"

unfoldable pub append_deployment_logs : String → String → String → Db → Db
append_deployment_logs uuid text now db =
    if str_eq text ""
    then db
    else set_table db "platform_deployments" (
        map (λ row. if has_uuid uuid row then with_logs (log_line text) now row else row)
          (db "platform_deployments"))

module _ (cat : Catalog) where
  unfoldable pub find_one :
      String → Dict Condition → (List Row → List Row) → Db → Result (Option Row)
  find_one table where_ sorted db =
      find cat table where_ false sorted (some 1) db >>= λ rows. ok (first rows)

  unfoldable pub active_deployments : Option String → (List Row → List Row) → Db → Result (List Row)
  active_deployments server_uuid oldest =
      find cat "platform_deployments"
        (("status", one_of (with_status queued ∷ with_status in_progress ∷ [])) ∷ elim server_uuid [
          | none ↦ []
          | some uuid ↦ if str_eq uuid "" then [] else ("server_uuid", is (str uuid)) ∷ []
        ])
        false oldest none

  unfoldable pub running_deployment_count : String → (List Row → List Row) → Db → Result ℕ
  running_deployment_count server_uuid sorted db =
      find cat "platform_deployments"
        (("server_uuid", is (str server_uuid)) ∷ ("status", is (with_status in_progress)) ∷ [])
        false sorted none db
      >>= λ rows. ok (length rows)

  unfoldable pub last_successful_deployment :
      String → (List Row → List Row) → Db → Result (Option Row)
  last_successful_deployment resource_uuid newest_first db =
      find cat "platform_deployments" (finished_of resource_uuid) false newest_first (some 1) db
      >>= λ rows. ok (first rows)

  unfoldable pub rollback_candidates : String → ℕ → (List Row → List Row) → Db → Result (List Row)
  rollback_candidates resource_uuid limit newest_first db =
      find cat "platform_deployments" (finished_of resource_uuid) false newest_first
        (some (limit * 2)) db
      >>= λ rows. ok (pick limit [] rows)

  unfoldable pub env_vars_for : String → Bool → (List Row → List Row) → Db → Result (List Row)
  env_vars_for resource_uuid is_preview by_key =
      find cat "platform_env_vars"
        (("resource_uuid", is (str resource_uuid)) ∷ ("is_preview", is (bool is_preview)) ∷ [])
        false by_key none

  unfoldable pub deployment_history :
      String → ℕ → Option ℕ → (List Row → List Row) → Db → Result (List Row)
  deployment_history resource_uuid limit pull_request_id newest_first =
      find cat "platform_deployments"
        (("resource_uuid", is (str resource_uuid))
          ∷ elim pull_request_id [ none ↦ [] | some n ↦ ("pull_request_id", is (int n)) ∷ [] ])
        false newest_first (some limit)
