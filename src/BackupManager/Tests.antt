-- ===== src/BackupManager/Tests.antt =====
-- An execution whose upload fails.
use sarra.Common.{◌≡◌, ◌↔◌, refl, true, some, [], ◌∷◌}
use sarra.Common.Text.{codes, text_eq}
use sarra.BackupScheduler.{Backup}
use sarra.BackupManager.{
  finished, Execution, Tables, Answers, refused, completed, update_execution, execute_backup,
}
use sarra.BackupManager.Answered.{Completes, Refuses}
use sarra.BackupManager.Outcomes.{Leaves, execute_backup_lem}

abbrev answers : Answers
answers = record {
  prepared = true;
  fresh = codes "e2";
  filename = codes "db-20250601T213005Z.sql";
  started_at = codes "2025-06-01T21:30:05";
  dump = some true;
  copy = some true;
  size = 7;
  upload = some (codes "S3 upload failed: ClientError");
  s3_key = codes "syte/db/db-20250601T213005Z.sql";
  cleaned = true;
  finished_at = codes "2025-06-01T21:30:09";
  last_run_at = codes "2025-06-01T21:30:09";
}

abbrev nightly : Backup
nightly = record {
  uuid = codes "b1";
  enabled = true;
  frequency = codes "30 21 * * *";
  last_run_at = codes "2025-05-31T21:30:02";
  database_uuid = codes "db";
  s3_storage_uuid = codes "s3";
}

abbrev earlier : Execution
earlier = record {
  uuid = codes "e1";
  backup_uuid = codes "b1";
  status = finished;
  filename = codes "db-20250531T213002Z.sql";
  message = codes "Backup completed.";
  size = 6;
  s3_key = [];
  upload_status = codes "not_configured";
  started_at = codes "2025-05-31T21:30:00";
  finished_at = codes "2025-05-31T21:30:02";
}

abbrev tables : Tables
tables = record { backups = nightly ∷ []; executions = earlier ∷ [] }

upload_refused : (execute_backup answers nightly (some (codes "s3")) tables).1 ≡ refused
unfolding execute_backup update_execution
upload_refused = refl

execute_backup_lem_example :
    Leaves answers nightly tables (execute_backup answers nightly (some (codes "s3")) tables)
    × (((execute_backup answers nightly (some (codes "s3")) tables).1 ≡ completed)
        ↔ Completes answers (some (codes "s3")))
    × (((execute_backup answers nightly (some (codes "s3")) tables).1 ≡ refused)
        ↔ Refuses answers (some (codes "s3")))
unfolding text_eq
execute_backup_lem_example =
    execute_backup_lem answers nightly tables (refl, tt) (some (codes "s3"))
