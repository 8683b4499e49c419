-- ===== src/BackupScheduler.antt =====
-- syte/platform/backup_scheduler.py: cron expressions and the pass over the enabled schedules. A
-- digit is an ASCII one. The databases are parameters, and so is what an execution leaves of the table
-- of schedules, also when it raises; Passes fills it with the model of `execute_backup`.
mod Waiting
pub mod Minute
pub mod Passes
mod Tests
use sarra.Common.{
  ℕ, ◌+◌, ◌-◌, ◌*◌, ◌%◌, max, Bool, true, false, not, Option, none, some, List, [], ◌∷◌, ◌++◌, map,
  filter, any, all, take, drop, leb, ◌==◌, ◌&&◌, ◌||◌, if◌then◌else◌,
}
use sarra.Common.Text.{Text, codes, text_eq, starts_with, strip, split, pieces, is_space}

abbrev is_nil : Text → Bool
is_nil [] = true
is_nil (c ∷ s) = false

-- `str.isdigit`
abbrev pub is_digits : Text → Bool
is_digits s = not (is_nil s) && all (λ c. leb b'0' c && leb c b'9') s

-- `int` of digits
unfoldable pub int_of : ℕ → Text → ℕ
int_of n [] = n
int_of n (c ∷ s) = int_of (10 * n + (c - b'0')) s

-- One of the tokens between the commas, for a value that is not below the minimum
unfoldable pub token_matches : ℕ → ℕ → ℕ → Text → Bool
unfolding int_of
token_matches value minimum maximum token =
    let number = int_of 0 token in
    if starts_with token (codes "*/") && is_digits (drop 2 token)
    then (value - minimum) % max 1 (int_of 0 (drop 2 token)) == 0
    else is_digits token && (leb minimum number && (leb number maximum && value == number))

unfoldable pub field_matches : ℕ → Text → ℕ → ℕ → Bool
unfolding token_matches
field_matches value field minimum maximum =
    text_eq field (codes "*")
    || any (λ t. token_matches value minimum maximum (strip t)) (split b',' field)

-- A `datetime`; Monday is weekday 0.
pub record Moment : Type 0 where
  pub minute : ℕ
  pub hour : ℕ
  pub day : ℕ
  pub month : ℕ
  pub weekday : ℕ
  pub isoformat : Text

abbrev pub words : Text → List Text
words s = filter (λ w. not (is_nil w)) (pieces is_space [] s)

abbrev pub fields_match : Moment → List Text → Bool
fields_match now (minute ∷ hour ∷ day ∷ month ∷ weekday ∷ []) =
    field_matches now.minute minute 0 59
    && (field_matches now.hour hour 0 23
        && (field_matches now.day day 1 31
            && (field_matches now.month month 1 12
                && field_matches ((now.weekday + 1) % 7) weekday 0 6)))
fields_match now _ = false

unfoldable pub cron_matches : Text → Moment → Bool
unfolding field_matches pieces
cron_matches expression now = fields_match now (words expression)

-- A row of platform_backups, by the columns that are read here
pub record Backup : Type 0 where
  pub uuid : Text
  pub enabled : Bool
  pub frequency : Text
  pub last_run_at : Text
  pub database_uuid : Text
  pub s3_storage_uuid : Text

-- `update("platform_backups", uuid, {"last_run_at": …})`
unfoldable pub set_last_run : Text → Text → Backup → Backup
set_last_run uuid at b = if text_eq b.uuid uuid then record b { last_run_at = at } else b

-- The schedule fires, and has not run in this minute.
abbrev pub is_due : Moment → Backup → Bool
is_due now b =
    cron_matches b.frequency now && not (text_eq (take 16 b.last_run_at) (take 16 now.isoformat))

module _ {D S : Type 0} (database : Text → Option D) (storage : Text → Option S)
    (execute_backup : Backup → D → Option S → List Backup → List Backup) where
  abbrev pub storage_of : Backup → Option S
  storage_of b = if is_nil b.s3_storage_uuid then none else storage b.s3_storage_uuid

  abbrev pub has_database : Option D → Bool
  has_database none = false
  has_database (some d) = true

  abbrev pub executed : Backup → Bool
  executed b = has_database (database b.database_uuid)

  -- What one due schedule leaves of the table
  abbrev pub on_database : Moment → Backup → List Backup → Option D → List Backup
  on_database now b table none = map (set_last_run b.uuid now.isoformat) table
  on_database now b table (some d) = execute_backup b d (storage_of b) table

  -- One turn of the loop: the table, and the count
  unfoldable pub run_backup : Moment → Backup → List Backup × ℕ → List Backup × ℕ
  run_backup now b (table, count) = if not (is_due now b) then (table, count) else (
    on_database now b table (database b.database_uuid),
    if executed b then count + 1 else count,
  )

  unfoldable pub run_backups : Moment → List Backup → List Backup × ℕ → List Backup × ℕ
  run_backups now [] state = state
  run_backups now (b ∷ bs) state = run_backups now bs (run_backup now b state)

  unfoldable pub run_due_backups : Moment → List Backup → List Backup × ℕ
  unfolding run_backups
  run_due_backups now table = run_backups now (filter (λ b. b.enabled) table) (table, 0)
