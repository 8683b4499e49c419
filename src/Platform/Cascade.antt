-- ===== src/Platform/Cascade.antt =====
-- Removing a resource, an environment or a project with what hangs off it: `delete_resource_cascade`,
-- `delete_environment_cascade`, `delete_project_cascade` of syte/platform/store.py. Each statement is
-- committed by itself, so an action that raises keeps the tables as the statements before left them.
pub mod Steps
pub mod Success
pub mod Gone
pub mod Backups
pub mod Orphans
pub mod Empty
use sarra.Common.{
  ℕ, ◌+◌, String, Bool, true, false, not, Option, none, some, List, [], ◌∷◌, length, ◌==◌,
  if◌then◌else◌,
}
use Prim.Native.String
use sarra.Common.Dict.{Dict}
use sarra.Value.{Value, str, show, to_text}
use sarra.Platform.Codec.{Row}
use sarra.Platform.Table.{
  Result, ok, err, Db, Catalog, Condition, is, column, is_none, get, find, delete, delete_where,
}

-- What an action returns or raises, and the tables after it.
abbrev pub Action {ℓ} : Type ℓ → Type ℓ
Action A = Db → Result A × Db

abbrev pub continue {ℓ κ} :
    {A : Type ℓ} {B : Type κ} → Result A × Db → (A → Action B) → Result B × Db
continue (ok a, db) f = f a db
continue (err e, db) f = (err e, db)

infixl 5 ◌▷◌
abbrev pub ◌▷◌ {ℓ κ} : {A : Type ℓ} {B : Type κ} → Action A → (A → Action B) → Action B
(m ▷ f) db = continue (m db) f

abbrev pub return {ℓ} : {A : Type ℓ} → A → Action A
return a db = (ok a, db)

-- A statement on one table, which changes nothing when it raises
abbrev pub kept {ℓ} : {A : Type ℓ} → Db → Result (A × Db) → Result A × Db
kept db (ok (a, db2)) = (ok a, db2)
kept db (err e) = (err e, db)

abbrev pub execute {ℓ} : {A : Type ℓ} → (Db → Result (A × Db)) → Action A
execute f db = kept db (f db)

abbrev pub query {ℓ} : {A : Type ℓ} → (Db → Result A) → Action A
query f db = (f db, db)

-- `try: … except Exception: logger.exception(…)`
abbrev pub attempt {ℓ} : {A : Type ℓ} → Action A → Action Bool
attempt m db = (ok true, (m db).1)

unfoldable pub for_each {ℓ κ} : {A : Type ℓ} {B : Type κ} → List A → (A → Action B) → Action Bool
for_each [] f = return true
for_each (x ∷ xs) f = f x ▷ λ _. for_each xs f

pub data ResourceType : Type 0 where
  application database service : ResourceType

-- `ResourceType.table`
abbrev pub table_of : ResourceType → String
table_of application = "platform_applications"
table_of database = "platform_databases"
table_of service = "platform_services"

abbrev pub resource_tables : List String
resource_tables =
    "platform_env_vars" ∷ "platform_volumes" ∷ "platform_scheduled_tasks" ∷ "platform_resource_tags"
    ∷ []

abbrev pub still_holds : ℕ → String
still_holds total =
    String.◌++◌ "Environment still holds "
      (String.◌++◌ (show total) " resource(s). Delete or move them first.")

abbrev pub environment_holds : Value → ℕ → String
environment_holds name total =
    String.◌++◌ (String.◌++◌ (String.◌++◌ "Environment '" (to_text name)) "' still holds ")
      (String.◌++◌ (show total) " resource(s). Delete them before deleting the project.")

module _ (cat : Catalog) where
  abbrev pub purge : String → String → Value → Action ℕ
  purge table key value = execute (delete_where cat table ((key, value) ∷ []))

  unfoldable pub purge_shared : String → Value → Action ℕ
  purge_shared scope uuid = execute (
      delete_where cat "platform_shared_env_vars"
        (("scope", str scope) ∷ ("scope_uuid", uuid) ∷ []))

-- `order` is the default ORDER BY of a query.
module _ (cat : Catalog) (order : List Row → List Row) where
  abbrev pub rows_where : String → String → Value → Action (List Row)
  rows_where table key value = query (find cat table ((key, is value) ∷ []) false order none)

  abbrev pub purge_runs : String → String → List Row → Action Bool
  purge_runs table key rows = for_each rows (λ row. purge cat table key (column row "uuid"))

  abbrev pub purge_backup_runs : String → Action Bool
  purge_backup_runs uuid =
      rows_where "platform_backups" "database_uuid" (str uuid)
      ▷ purge_runs "platform_backup_executions" "backup_uuid"

  unfoldable pub own_children : ResourceType → String → Action Bool
  own_children application uuid =
      purge cat "platform_previews" "application_uuid" (str uuid) ▷ λ _. return true
  own_children database uuid =
      purge_backup_runs uuid
      ▷ (λ _. purge cat "platform_backups" "database_uuid" (str uuid))
      ▷ (λ _. return true)
  own_children service uuid =
      purge cat "platform_service_containers" "service_uuid" (str uuid) ▷ λ _. return true

  abbrev pub purge_task_runs : String → Action Bool
  purge_task_runs uuid =
      rows_where "platform_scheduled_tasks" "resource_uuid" (str uuid)
      ▷ purge_runs "platform_task_executions" "task_uuid"

  abbrev pub purge_owned : String → Action Bool
  purge_owned uuid =
      for_each resource_tables (λ table. attempt (purge cat table "resource_uuid" (str uuid)))

  -- Everything that goes before the resource itself
  unfoldable pub children : ResourceType → String → Action Bool
  children kind uuid =
      purge_task_runs uuid
      ▷ (λ _. purge_owned uuid)
      ▷ (λ _. purge cat "platform_deployments" "resource_uuid" (str uuid))
      ▷ (λ _. own_children kind uuid)

  unfoldable pub delete_resource_cascade : ResourceType → String → Action Bool
  delete_resource_cascade kind uuid = query (get cat (table_of kind) uuid false) ▷ λ row.
      (if is_none row
        then return false
        else (children kind uuid ▷ λ _. execute (delete cat (table_of kind) uuid)))

  -- `sum(len(items) for items in list_environment_resources(uuid).values())`
  unfoldable pub environment_total : Value → Action ℕ
  environment_total uuid =
      rows_where "platform_applications" "environment_uuid" uuid ▷ λ applications.
      (rows_where "platform_databases" "environment_uuid" uuid ▷ λ databases.
      (rows_where "platform_services" "environment_uuid" uuid ▷ λ services.
      return (length applications + length databases + length services)))

  unfoldable pub delete_environment_cascade : String → Action (Bool × String)
  delete_environment_cascade uuid = environment_total (str uuid) ▷ λ total.
      (if not (total == 0)
        then return (false, still_holds total)
        else (purge_shared cat "environment" (str uuid)
            ▷ (λ _. execute (delete cat "platform_environments" uuid))
            ▷ (λ found. return (found, "Environment deleted."))))

  -- The refusal of the first environment that holds resources
  unfoldable pub check_environments : List Row → Action (Option String)
  check_environments [] = return none
  check_environments (environment ∷ environments) =
      environment_total (column environment "uuid") ▷ λ total.
      (if not (total == 0)
        then return (some (environment_holds (column environment "name") total))
        else check_environments environments)

  unfoldable pub delete_all : String → List Row → Action (Bool × String)
  delete_all uuid environments =
      for_each environments
        (λ environment. delete_environment_cascade (to_text (column environment "uuid")))
      ▷ (λ _. purge_shared cat "project" (str uuid))
      ▷ (λ _. execute (delete cat "platform_projects" uuid))
      ▷ (λ found. return (found, "Project deleted."))

  unfoldable pub delete_project_cascade : String → Action (Bool × String)
  delete_project_cascade uuid =
      rows_where "platform_environments" "project_uuid" (str uuid) ▷ λ environments.
      (check_environments environments ▷ λ refusal. elim refusal [
        | some message ↦ return (false, message)
        | none ↦ delete_all uuid environments
      ])
