-- ===== src/BackupScheduler/Tests.antt =====
-- Schedules on one evening.
use sarra.Common.{◌≡◌, refl, true, false, Option, none, some, List, [], ◌∷◌}
use sarra.Common.Text.{
  Text, codes, text_eq, starts_with, strip, strip_chars, lstrip, rstrip, split, split_aux, pieces,
}
use sarra.BackupScheduler.{
  Moment, Backup, int_of, token_matches, field_matches, cron_matches, run_backup, run_backups,
  run_due_backups,
}
use sarra.BackupScheduler.Passes.{DueAgain, execution, unsuccessful, run_due_backups_lem}
use sarra.BackupManager.{Answers, execute_backup, update_execution}

-- Sunday the first of June, half past nine in the evening
abbrev now : Moment
now = record {
  minute = 30;
  hour = 21;
  day = 1;
  month = 6;
  weekday = 6;
  isoformat = codes "2025-06-01T21:30:05";
}

fires : cron_matches (codes "*/15 21,22 * * 0") now ≡ true
unfolding cron_matches field_matches token_matches int_of pieces split split_aux strip strip_chars
    lstrip rstrip text_eq starts_with
fires = refl

on_monday : cron_matches (codes "*/15 21,22 * * 1") now ≡ false
unfolding cron_matches field_matches token_matches int_of pieces split split_aux strip strip_chars
    lstrip rstrip text_eq starts_with
on_monday = refl

four_fields : cron_matches (codes "* * * *") now ≡ false
unfolding cron_matches field_matches pieces
four_fields = refl

abbrev nightly : Backup
nightly = record {
  uuid = codes "b1";
  enabled = true;
  frequency = codes "30 21 * * *";
  last_run_at = codes "2025-05-31T21:30:02";
  database_uuid = codes "db";
  s3_storage_uuid = [];
}

abbrev database : Text → Option Text
database uuid = some uuid

abbrev storage : Text → Option Text
storage uuid = none

-- The schedule b1 succeeds; the dump of any other fails.
abbrev answers : Backup → Answers
answers b = record {
  prepared = true;
  fresh = codes "e";
  filename = codes "db-20250601T213005Z.sql";
  started_at = codes "2025-06-01T21:30:05";
  dump = some (text_eq b.uuid (codes "b1"));
  copy = some true;
  size = 7;
  upload = none;
  s3_key = codes "syte/db/db-20250601T213005Z.sql";
  cleaned = true;
  finished_at = codes "2025-06-01T21:30:09";
  last_run_at = codes "2025-06-01T21:30:09";
}

abbrev failing : Backup
failing = record nightly { uuid = codes "b2" }

abbrev table : List Backup
table = nightly ∷ failing ∷ []

abbrev after : List Backup
after = (run_due_backups database storage (execution database storage answers) now table).0

runs_both : (run_due_backups database storage (execution database storage answers) now table).1 ≡ 2
unfolding run_due_backups run_backups run_backup cron_matches field_matches token_matches int_of
    pieces split split_aux strip strip_chars lstrip rstrip text_eq starts_with
runs_both = refl

one_fails : unsuccessful database storage answers now table ≡ failing ∷ []
unfolding execute_backup update_execution cron_matches field_matches token_matches int_of pieces
    split split_aux strip strip_chars lstrip rstrip text_eq starts_with
one_fails = refl

run_due_backups_lem_example :
    DueAgain
      (record now { isoformat = codes "2025-06-01T21:30:59" })
      (unsuccessful database storage answers now table)
      after
    × (unsuccessful database storage answers now table ≡ []
        → run_due_backups database storage
            (execution database storage answers)
            (record now { isoformat = codes "2025-06-01T21:30:59" })
            after
          ≡ (after, 0))
run_due_backups_lem_example =
    let (a, b) = run_due_backups_lem database storage answers now table in
    b (codes "2025-06-01T21:30:59") (λ _. refl) refl
