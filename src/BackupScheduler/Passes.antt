-- ===== src/BackupScheduler/Passes.antt =====
-- Two passes of `run_due_backups` in one minute, with `execute_backup` of
-- syte/platform/backup_manager.py for the executions.
use sarra.Common.{
  ◌≡◌, refl, sym, ap, ◌∙◌, Bool, true, false, not, Option, List, [], ◌∷◌, length, filter, any, take,
  All, arith, ◌&&◌, inl, inr, Bool-cases,
}
use mathlib.Core.Path.{subst}
use sarra.Common.Text.{Text, text_eq}
use sarra.BackupScheduler.{
  Moment, Backup, is_due, storage_of, executed, run_due_backups, run_backups,
}
use sarra.BackupScheduler.Waiting.{Waiting, waits_in, due_same}
use sarra.BackupScheduler.Minute.{run_idle, run_count, after-Waiting}
use sarra.BackupManager.{Answers, execute_backup}
use sarra.BackupManager.Outcomes.{no_tables, succeeds, execute_backup-Stamps}

waits_due :
    (now : Moment) (fails : Backup → Bool) (bs : List Backup) (r : Backup)
    → waits_in now (filter fails bs) r
      ≡ any (λ b. text_eq r.uuid b.uuid) (filter (λ b. is_due now b && fails b) bs)
waits_due now fails [] r = refl
waits_due now fails (b ∷ bs) r = ground (arith, waits_due now fails bs r)

-- Every enabled row that is due has the uuid of one of these schedules.
abbrev pub DueAgain : Moment → List Backup → List Backup → Type 0
DueAgain now bs = All (λ (r : Backup).
    (r.enabled && is_due now r) ≡ true → any (λ (b : Backup). text_eq r.uuid b.uuid) bs ≡ true)

due_again :
    (now : Moment) (at : Text) (fails : Backup → Bool) (bs table : List Backup)
    → take 16 at ≡ take 16 now.isoformat
    → Waiting now (filter fails bs) table
    → DueAgain (record now { isoformat = at }) (filter (λ b. is_due now b && fails b) bs) table
due_again now at fails bs [] e h = tt
due_again now at fails bs (r ∷ table) e (h, hs) = (
  (λ k.
      sym (waits_due now fails bs r)
      ∙ h (ap (λ x. r.enabled && x) (sym (due_same now at r e)) ∙ k)),
  due_again now at fails bs table e hs,
)

none_again :
    (now : Moment) (table : List Backup)
    → DueAgain now [] table
    → All (λ b. is_due now b ≡ false) (filter (λ b. b.enabled) table)
none_again now [] h = tt
none_again now (r ∷ table) (h, hs) = elim (Bool-cases r.enabled) [
  | inl y ↦ rw y (ground (arith, y, h), none_again now table hs)
  | inr n ↦ rw n (none_again now table hs)
]

module _ {D S : Type 0} (database : Text → Option D) (storage : Text → Option S)
    (answers : Backup → Answers) where
  -- What an execution leaves of the table of schedules.
  abbrev pub execution : Backup → D → Option S → List Backup → List Backup
  execution b d s rows = (execute_backup (answers b) b s (no_tables rows)).0.backups

  abbrev works : Backup → Bool
  works b = succeeds (answers b) b (storage_of database storage execution b)

  -- The enabled schedules that a pass executes without success.
  abbrev pub unsuccessful : Moment → List Backup → List Backup
  unsuccessful now table =
      filter (λ b. is_due now b && (executed database storage execution b && not (works b)))
        (filter (λ b. b.enabled) table)

  -- A pass counts the enabled schedules that fire, have not run in this minute and have a database,
  -- however their executions end. In a second pass within the same minute, if the executions of the
  -- first ended in that minute: an enabled schedule is due again only if it has the uuid of one whose
  -- execution raised or returned without success in the first pass, and if there was none of these,
  -- the second pass executes none and changes nothing.
  pub run_due_backups_lem :
      (now : Moment) (table : List Backup)
      → ((run_due_backups database storage execution now table).1
          ≡ length (
              filter
                (executed database storage execution)
                (filter (is_due now) (filter (λ b. b.enabled) table))))
        × ((at : Text)
            → ((b : Backup) → take 16 (answers b).last_run_at ≡ take 16 now.isoformat)
            → take 16 at ≡ take 16 now.isoformat
            → let after = (run_due_backups database storage execution now table).0 in
              DueAgain (record now { isoformat = at }) (unsuccessful now table) after
              × (unsuccessful now table ≡ []
                  → run_due_backups database storage execution (record now { isoformat = at }) after
                    ≡ (after, 0)))
  unfolding run_due_backups
  run_due_backups_lem now table =
      let bs = filter (λ (b : Backup). b.enabled) table in
      (
        run_count database storage execution now bs table 0 ∙ omega arith,
        λ at same e.
            let after = (run_backups database storage execution now bs (table, 0)).0 in
            let waiting =
              after-Waiting database storage execution now works (λ b. (answers b).last_run_at) same
                (λ b d rows.
                  execute_backup-Stamps (answers b) b rows
                    (storage_of database storage execution b))
                table in
            let again =
              due_again now at (λ b. executed database storage execution b && not (works b)) bs
                after e waiting in
            (
              again,
              λ empty.
                  run_idle database storage execution (record now { isoformat = at })
                    (filter (λ b. b.enabled) after) after 0
                    (none_again (record now { isoformat = at }) after
                      (subst (λ us. DueAgain (record now { isoformat = at }) us after) empty
                        again)),
            ),
      )
