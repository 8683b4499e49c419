-- ===== src/Platform/Cascade/Gone.antt =====
-- What `delete_resource_cascade` is to take away, and that taking more rows away does not undo it.
use sarra.Common.{String, ◌≡◌, true, List, All}
use sarra.Value.{Value, str}
use sarra.Platform.Codec.{Row}
use sarra.Platform.Table.{Db, Catalog, column}
use sarra.Platform.Cascade.{ResourceType, application, database, service, table_of, resource_tables}
use sarra.Platform.Cascade.Steps.{Absent, refers}
use sarra.Platform.Cascade.Success.{Lasting, pair_lasting, All-lasting, Absent-lasting}

-- Every table and column that the cascade names is one of the schema.
pub record HasSchema (cat : Catalog) : Type 0 where
  pub resources : (kind : ResourceType) → cat.known (table_of kind) ≡ true
  pub owned :
      All (λ t. (cat.known t ≡ true) × (cat.columns t "resource_uuid" ≡ true)) resource_tables
  pub deployments :
      (cat.known "platform_deployments" ≡ true)
      × (cat.columns "platform_deployments" "resource_uuid" ≡ true)
  pub executions :
      (cat.known "platform_task_executions" ≡ true)
      × (cat.columns "platform_task_executions" "task_uuid" ≡ true)
  pub previews :
      (cat.known "platform_previews" ≡ true)
      × (cat.columns "platform_previews" "application_uuid" ≡ true)
  pub backups :
      (cat.known "platform_backups" ≡ true)
      × (cat.columns "platform_backups" "database_uuid" ≡ true)
  pub backup_executions :
      (cat.known "platform_backup_executions" ≡ true)
      × (cat.columns "platform_backup_executions" "backup_uuid" ≡ true)
  pub containers :
      (cat.known "platform_service_containers" ≡ true)
      × (cat.columns "platform_service_containers" "service_uuid" ≡ true)

-- No row of `table` has this value in this column.
abbrev pub Gone : String → String → Value → Db → Type 0
Gone table key v = Absent table (refers key v)

-- No execution of one of these backups is left.
abbrev pub BackupRunsGone : List Row → Db → Type 0
BackupRunsGone backups d =
    All (λ backup. Gone "platform_backup_executions" "backup_uuid" (column backup "uuid") d) backups

-- Nothing is left of what a resource of a kind owns besides what every resource may own: the previews
-- of an application, the backups of a database with their executions, the containers of a service.
abbrev pub OwnGone : ResourceType → String → List Row → Db → Type 0
OwnGone application uuid backups d = Gone "platform_previews" "application_uuid" (str uuid) d
OwnGone database uuid backups d =
    BackupRunsGone backups d × Gone "platform_backups" "database_uuid" (str uuid) d
OwnGone service uuid backups d = Gone "platform_service_containers" "service_uuid" (str uuid) d

abbrev pub RunsGone : List Row → Db → Type 0
RunsGone tasks d =
    All (λ task. Gone "platform_task_executions" "task_uuid" (column task "uuid") d) tasks

abbrev pub OwnedGone : String → Db → Type 0
OwnedGone uuid d = All (λ table. Gone table "resource_uuid" (str uuid) d) resource_tables

abbrev pub ChildrenGone : ResourceType → String → List Row → List Row → Db → Type 0
ChildrenGone kind uuid tasks backups d =
    ((RunsGone tasks d × OwnedGone uuid d)
      × Gone "platform_deployments" "resource_uuid" (str uuid) d)
    × OwnGone kind uuid backups d

pub backup_runs_lasting : (backups : List Row) → Lasting (BackupRunsGone backups)
backup_runs_lasting backups =
    All-lasting
      (λ (backup : Row). Gone "platform_backup_executions" "backup_uuid" (column backup "uuid"))
      backups
      (λ backup.
        Absent-lasting "platform_backup_executions" (refers "backup_uuid" (column backup "uuid")))

pub own_lasting :
    (kind : ResourceType) (uuid : String) (backups : List Row) → Lasting (OwnGone kind uuid backups)
own_lasting application uuid backups =
    Absent-lasting "platform_previews" (refers "application_uuid" (str uuid))
own_lasting database uuid backups =
    pair_lasting (BackupRunsGone backups) (Gone "platform_backups" "database_uuid" (str uuid))
      (backup_runs_lasting backups)
      (Absent-lasting "platform_backups" (refers "database_uuid" (str uuid)))
own_lasting service uuid backups =
    Absent-lasting "platform_service_containers" (refers "service_uuid" (str uuid))

pub shared_lasting :
    (uuid : String) (tasks : List Row) → Lasting (λ d. RunsGone tasks d × OwnedGone uuid d)
shared_lasting uuid tasks =
    pair_lasting (RunsGone tasks) (OwnedGone uuid)
      (All-lasting
        (λ (task : Row). Gone "platform_task_executions" "task_uuid" (column task "uuid")) tasks
        (λ task.
          Absent-lasting "platform_task_executions" (refers "task_uuid" (column task "uuid"))))
      (All-lasting (λ table. Gone table "resource_uuid" (str uuid)) resource_tables
        (λ table. Absent-lasting table (refers "resource_uuid" (str uuid))))

pub deployments_lasting :
    (uuid : String) (tasks : List Row)
    → Lasting (λ d.
      (RunsGone tasks d × OwnedGone uuid d)
      × Gone "platform_deployments" "resource_uuid" (str uuid) d)
deployments_lasting uuid tasks =
    pair_lasting (λ d. RunsGone tasks d × OwnedGone uuid d)
      (Gone "platform_deployments" "resource_uuid" (str uuid)) (shared_lasting uuid tasks)
      (Absent-lasting "platform_deployments" (refers "resource_uuid" (str uuid)))
