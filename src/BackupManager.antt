-- ===== src/BackupManager.antt =====
-- `execute_backup` of syte/platform/backup_manager.py on the tables of schedules and of executions.
-- What the commands in the container, the upload and the file system answer is an argument
-- (`Answers`), as are the clock and the fresh uuid; the artifacts on disk are left out.
mod Answered
pub mod Outcomes
mod Tests
use sarra.Common.{
  ℕ, Bool, true, false, not, Option, none, some, List, [], ◌∷◌, map, ◌&&◌, if◌then◌else◌,
}
use sarra.Common.Text.{Text, codes, text_eq}
use sarra.BackupScheduler.{Backup, set_last_run}

pub data Status : Type 0 where
  running failed finished : Status

-- A row of platform_backup_executions, by the columns that are written here
pub record Execution : Type 0 where
  pub uuid : Text
  pub backup_uuid : Text
  pub status : Status
  pub filename : Text
  pub message : Text
  pub size : ℕ
  pub s3_key : Text
  pub upload_status : Text
  pub started_at : Text
  pub finished_at : Text

pub record Tables : Type 0 where
  pub backups : List Backup
  pub executions : List Execution

-- What one execution is told from outside. `prepared`: the database has a type, and the directory
-- and the new row could be made. A command answers whether it succeeded, or raises (`none`).
-- `upload`
-- is the message of `_upload_s3` if it fails. `cleaned`: no removal of an artifact raised.
pub record Answers : Type 0 where
  pub prepared : Bool
  pub fresh : Text
  pub filename : Text
  pub started_at : Text
  pub dump : Option Bool
  pub copy : Option Bool
  pub size : ℕ
  pub upload : Option Text
  pub s3_key : Text
  pub cleaned : Bool
  pub finished_at : Text
  pub last_run_at : Text

-- How `execute_backup` ends: it raises, or returns `{"ok": False, …}` or `{"ok": True, …}`.
pub data Outcome : Type 0 where
  raised refused completed : Outcome

module _ (a : Answers) where
  abbrev pub started : Backup → Execution
  started b = record {
    uuid = a.fresh;
    backup_uuid = b.uuid;
    status = running;
    filename = a.filename;
    message = [];
    size = 0;
    s3_key = [];
    upload_status = [];
    started_at = a.started_at;
    finished_at = [];
  }

  -- `update("platform_backup_executions", execution["uuid"], …)`
  unfoldable pub update_execution : (Execution → Execution) → Tables → Tables
  update_execution f t = record t {
    executions = map (λ (e : Execution). if text_eq e.uuid a.fresh then f e else e) t.executions;
  }

  abbrev pub fail : Text → ℕ → Tables → Tables × Outcome
  fail message size t = (
    update_execution
        (λ (e : Execution). record e {
          status = failed;
          message = message;
          size = size;
          finished_at = a.finished_at;
        })
        t,
    refused,
  )

  -- The two last updates, after the artifacts beyond the retention are removed
  abbrev pub complete : Backup → Text → Text → Tables → Bool → Tables × Outcome
  complete b s3_key upload_status t false = (t, raised)
  complete b s3_key upload_status t true =
      let done =
        update_execution
          (λ (e : Execution). record e {
            status = finished;
            message = codes "Backup completed.";
            size = a.size;
            s3_key = s3_key;
            upload_status = upload_status;
            finished_at = a.finished_at;
          })
          t in
      (record done { backups = map (set_last_run b.uuid a.last_run_at) done.backups }, completed)

  abbrev pub after_upload : Backup → Tables → Option Text → Tables × Outcome
  after_upload b t none = complete b a.s3_key (codes "uploaded") t a.cleaned
  after_upload b t (some message) = fail message a.size t

  abbrev pub upload_and_complete {ℓ} : {S : Type ℓ} → Backup → Tables → Option S → Tables × Outcome
  upload_and_complete b t none = complete b [] (codes "not_configured") t a.cleaned
  upload_and_complete b t (some s) = after_upload b t a.upload

  -- `docker exec`, and `docker cp` if that succeeded
  abbrev pub dumped : Option Bool
  dumped = elim a.dump [ none ↦ none | some ok ↦ if ok then a.copy else some false ]

  abbrev pub after_dump {ℓ} :
      {S : Type ℓ} → Backup → Option S → Tables → Option Bool → Tables × Outcome
  after_dump b s t none = (t, raised)
  after_dump b s t (some ok) =
      if not ok then fail (codes "Database dump failed.") 0 t else upload_and_complete b t s

  unfoldable pub execute_backup {ℓ} : {S : Type ℓ} → Backup → Option S → Tables → Tables × Outcome
  unfolding update_execution
  execute_backup b s t =
      if not a.prepared
      then (t, raised)
      else after_dump b s (record t { executions = started b ∷ t.executions }) dumped
