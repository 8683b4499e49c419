-- ===== src/Platform/Cascade/Backups.antt =====
-- The backups of a database, which `delete_resource_cascade` lists after it has emptied other tables.
use sarra.Common.{
  ℕ, String, ◌≡◌, refl, false, none, List, [], ◌∷◌, All, str_eq, Bool-cases, inl, inr, ◌∙◌, ap,
}
use sarra.Value.{Value, str}
use sarra.Platform.Codec.{Row}
use sarra.Platform.Table.{Result, ok, Db, Catalog, column, find, is, is_nil, usable, delete_where}
use sarra.Platform.Cascade.{
  Action, ◌▷◌, for_each, attempt, resource_tables, rows_where, purge, purge_runs, purge_task_runs,
  purge_owned,
}
use sarra.Platform.Cascade.Steps.{Takes, then-Takes, for_each-Takes}

-- The tables after an action have the same backups as those before it.
abbrev pub SameBackups : Db → Db → Type 0
SameBackups d e = e "platform_backups" ≡ d "platform_backups"

then_same {ℓ κ} :
    {A : Type ℓ} {B : Type κ} (m : Action A) (f : A → Action B)
    → Takes SameBackups m
    → ((a : A) → Takes SameBackups (f a))
    → Takes SameBackups (m ▷ f)
then_same m f = then-Takes SameBackups (λ d. refl) (λ d e f p q. q ∙ p) m f

each_same {ℓ κ} :
    {A : Type ℓ} {B : Type κ} (xs : List A) (f : A → Action B)
    → All (λ x. Takes SameBackups (f x)) xs
    → Takes SameBackups (for_each xs f)
unfolding for_each
each_same [] f h db = refl
each_same (x ∷ xs) f (h, hs) db = then_same (f x) (λ _. for_each xs f) h (λ _. each_same xs f hs) db

module _ (cat : Catalog) (order : List Row → List Row) where
  purge_same :
      (table key : String) (v : Value)
      → str_eq table "platform_backups" ≡ false
      → Takes SameBackups (purge cat table key v)
  unfolding delete_where
  purge_same table key v other db = elim (Bool-cases (cat.known table)) [
    | inl e ↦ elim (Bool-cases (is_nil (usable cat table ((key, v) ∷ [])))) [
      | inl e2 ↦ rw (e, e2) refl
      | inr e2 ↦ rw (e, e2, other) refl
    ]
    | inr e ↦ rw e refl
  ]

  runs_same :
      (rows : List Row)
      → Takes SameBackups (purge_runs cat order "platform_task_executions" "task_uuid" rows)
  runs_same rows =
      for_each-Takes SameBackups (λ d. refl) (λ d e f p q. q ∙ p) rows
        (λ row. purge cat "platform_task_executions" "task_uuid" (column row "uuid"))
        (λ row. purge_same "platform_task_executions" "task_uuid" (column row "uuid") refl)

  owned_same : (uuid : String) → Takes SameBackups (purge_owned cat order uuid)
  owned_same uuid =
      let v = str uuid in
      each_same resource_tables (λ table. attempt (purge cat table "resource_uuid" v))
        (
          purge_same "platform_env_vars" "resource_uuid" v refl,
          (
            purge_same "platform_volumes" "resource_uuid" v refl,
            (
              purge_same "platform_scheduled_tasks" "resource_uuid" v refl,
              (purge_same "platform_resource_tags" "resource_uuid" v refl, tt),
            ),
          ),
        )

  -- What the cascade does before it comes to what the resource's kind owns.
  abbrev pub shared_children : String → Action ℕ
  shared_children uuid =
      purge_task_runs cat order uuid
      ▷ (λ _. purge_owned cat order uuid)
      ▷ (λ _. purge cat "platform_deployments" "resource_uuid" (str uuid))

  shared_same : (uuid : String) → Takes SameBackups (shared_children uuid)
  shared_same uuid =
      then_same (purge_task_runs cat order uuid ▷ (λ _. purge_owned cat order uuid))
        (λ _. purge cat "platform_deployments" "resource_uuid" (str uuid))
        (then_same (purge_task_runs cat order uuid) (λ _. purge_owned cat order uuid)
          (then_same (rows_where cat order "platform_scheduled_tasks" "resource_uuid" (str uuid))
            (purge_runs cat order "platform_task_executions" "task_uuid") (λ db. refl) runs_same)
          (λ _. owned_same uuid))
        (λ _. purge_same "platform_deployments" "resource_uuid" (str uuid) refl)

  find_same :
      (v : Value) (d e : Db)
      → SameBackups d e
      → find cat "platform_backups" (("database_uuid", is v) ∷ []) false order none e
        ≡ find cat "platform_backups" (("database_uuid", is v) ∷ []) false order none d
  unfolding find
  find_same v d e same = rw same refl

  -- The backups that are listed then are those that the tables had at first.
  pub backups_later :
      (uuid : String) (db : Db) (backups : List Row)
      → find cat "platform_backups" (("database_uuid", is (str uuid)) ∷ []) false order none db
        ≡ ok backups
      → rows_where cat order "platform_backups" "database_uuid"
          (str uuid)
          (shared_children uuid db).1
        ≡ (ok backups, (shared_children uuid db).1)
  backups_later uuid db backups e =
      ap (λ (x : Result (List Row)). (x, (shared_children uuid db).1))
        (find_same (str uuid) db (shared_children uuid db).1 (shared_same uuid db) ∙ e)
