-- ===== src/BackupManager/Outcomes.antt =====
-- How an execution ends, and what it leaves of the two tables.
use sarra.Common.{
  ℕ, Bool-cases, if◌then◌else◌, ◌≡◌, ◌↔◌, ◌⊎◌, inl, inr, refl, Bool, true, false, Option, none,
  some, List, [], ◌∷◌, map, All,
}
use sarra.Common.Text.{Text, codes, text_eq, text_eq_refl}
use sarra.BackupScheduler.{Backup, set_last_run}
use sarra.BackupManager.{
  running, failed, finished, Execution, Tables, Answers, Outcome, raised, refused, completed,
  started, update_execution, fail, complete, after_upload, upload_and_complete, dumped, after_dump,
  execute_backup,
}
use sarra.BackupManager.Answered.{Completes, Refuses, execute_iff}

-- No execution in the table has this uuid.
abbrev pub Unused : Text → List Execution → Type 0
Unused uuid = All (λ (e : Execution). text_eq e.uuid uuid ≡ false)

-- What an execution of a schedule leaves of the tables, by how it ends.
abbrev pub Leaves : Answers → Backup → Tables → Tables × Outcome → Type 0
Leaves a b t (later, completed) =
    (later.backups ≡ map (set_last_run b.uuid a.last_run_at) t.backups)
    × (e : Execution) × (later.executions ≡ e ∷ t.executions)
    × (e.backup_uuid ≡ b.uuid)
    × (e.status ≡ finished)
Leaves a b t (later, refused) =
    (later.backups ≡ t.backups)
    × (e : Execution) × (later.executions ≡ e ∷ t.executions)
    × (e.backup_uuid ≡ b.uuid)
    × (e.status ≡ failed)
Leaves a b t (later, raised) =
    (later.backups ≡ t.backups)
    × ((later.executions ≡ t.executions)
        ⊎ ((e : Execution) × (later.executions ≡ e ∷ t.executions)
            × (e.backup_uuid ≡ b.uuid)
            × (e.status ≡ running)))

update-Unused :
    (uuid : Text) (f : Execution → Execution) (es : List Execution)
    → Unused uuid es
    → map (λ (e : Execution). if text_eq e.uuid uuid then f e else e) es ≡ es
update-Unused uuid f [] u = refl
update-Unused uuid f (e ∷ es) (u, us) = rw (u, update-Unused uuid f es us) refl

module _ (a : Answers) (b : Backup) (t : Tables) (unused : Unused a.fresh t.executions) where
  abbrev begun : Tables
  begun = record t { executions = started a b ∷ t.executions }

  updated :
      (f : Execution → Execution)
      → (update_execution a f begun).executions ≡ f (started a b) ∷ t.executions
  unfolding update_execution
  updated f = rw (text_eq_refl a.fresh, update-Unused a.fresh f t.executions unused) refl

  fail-Leaves : (message : Text) (size : ℕ) → Leaves a b t (fail a message size begun)
  fail-Leaves message size = (unfold update_execution in refl, _, updated _, refl, refl)

  complete-Leaves :
      (s3_key upload_status : Text) (cleaned : Bool)
      → Leaves a b t (complete a b s3_key upload_status begun cleaned)
  complete-Leaves s3_key upload_status true =
      (unfold update_execution in refl, _, updated _, refl, refl)
  complete-Leaves s3_key upload_status false = (refl, inr (started a b, refl, refl, refl))

  upload-Leaves : (o : Option Text) → Leaves a b t (after_upload a b begun o)
  upload-Leaves none = complete-Leaves a.s3_key (codes "uploaded") a.cleaned
  upload-Leaves (some message) = fail-Leaves message a.size

  storage-Leaves {ℓ} : {S : Type ℓ} (s : Option S) → Leaves a b t (upload_and_complete a b begun s)
  storage-Leaves none = complete-Leaves [] (codes "not_configured") a.cleaned
  storage-Leaves (some s) = upload-Leaves a.upload

  dump-Leaves {ℓ} :
      {S : Type ℓ} (s : Option S) (o : Option Bool) → Leaves a b t (after_dump a b s begun o)
  dump-Leaves s none = (refl, inr (started a b, refl, refl, refl))
  dump-Leaves s (some true) = storage-Leaves s
  dump-Leaves s (some false) = fail-Leaves (codes "Database dump failed.") 0

  all-Leaves {ℓ} : {S : Type ℓ} (s : Option S) → Leaves a b t (execute_backup a b s t)
  unfolding execute_backup
  all-Leaves s = elim (Bool-cases a.prepared) [
    | inl e ↦ rw e (dump-Leaves s (dumped a))
    | inr e ↦ rw e (refl, inl refl)
  ]

  -- Whatever the commands and the upload answer, where the fresh uuid is not in use. The execution
  -- returns with success exactly when it could begin, the dump was made and copied, the upload
  -- succeeded if there is a storage, and no removal of an old artifact raised; then it adds one
  -- execution of the schedule, which has finished, and gives the schedule's row its last run. It
  -- returns without success exactly when it could begin and the dump, its copy or its upload to a
  -- storage failed; then it adds one execution that has failed. Otherwise it raises, and adds none or
  -- one that stays running. In the last two cases no schedule is touched.
  pub execute_backup_lem {ℓ} :
      {S : Type ℓ} (s : Option S)
      → Leaves a b t (execute_backup a b s t)
        × (((execute_backup a b s t).1 ≡ completed) ↔ Completes a s)
        × (((execute_backup a b s t).1 ≡ refused) ↔ Refuses a s)
  execute_backup_lem s =
      let (success, refusal) = execute_iff a b t s in (all-Leaves s, success, refusal)

abbrev pub is_completed : Outcome → Bool
is_completed completed = true
is_completed _ = false

abbrev pub no_tables : List Backup → Tables
no_tables backups = record { backups = backups; executions = [] }

-- Does an execution of this schedule succeed?
abbrev pub succeeds {ℓ} : {S : Type ℓ} → Answers → Backup → Option S → Bool
succeeds a b s = is_completed (execute_backup a b s (no_tables [])).1

module _ (a : Answers) (b : Backup) (rows : List Backup) where
  -- What an execution leaves of the schedules, and whether it succeeds.
  abbrev Stamps : Tables × Outcome → Tables × Outcome → Type 0
  Stamps x y =
      x.0.backups
      ≡ (if is_completed y.1 then map (set_last_run b.uuid a.last_run_at) rows else rows)

  abbrev from : List Backup → Tables
  from backups = record { backups = backups; executions = started a b ∷ [] }

  complete-Stamps :
      (k u : Text) (cleaned : Bool)
      → Stamps (complete a b k u (from rows) cleaned) (complete a b k u (from []) cleaned)
  unfolding update_execution
  complete-Stamps k u true = refl
  complete-Stamps k u false = refl

  fail-Stamps : (m : Text) (n : ℕ) → Stamps (fail a m n (from rows)) (fail a m n (from []))
  unfolding update_execution
  fail-Stamps m n = refl

  upload-Stamps :
      (o : Option Text) → Stamps (after_upload a b (from rows) o) (after_upload a b (from []) o)
  upload-Stamps none = complete-Stamps a.s3_key (codes "uploaded") a.cleaned
  upload-Stamps (some message) = fail-Stamps message a.size

  storage-Stamps {ℓ} :
      {S : Type ℓ} (s : Option S)
      → Stamps (upload_and_complete a b (from rows) s) (upload_and_complete a b (from []) s)
  storage-Stamps none = complete-Stamps [] (codes "not_configured") a.cleaned
  storage-Stamps (some s) = upload-Stamps a.upload

  dump-Stamps {ℓ} :
      {S : Type ℓ} (s : Option S) (o : Option Bool)
      → Stamps (after_dump a b s (from rows) o) (after_dump a b s (from []) o)
  dump-Stamps s none = refl
  dump-Stamps s (some true) = storage-Stamps s
  dump-Stamps s (some false) = fail-Stamps (codes "Database dump failed.") 0

  -- An execution stamps the schedule exactly when it succeeds.
  pub execute_backup-Stamps {ℓ} :
      {S : Type ℓ} (s : Option S)
      → (execute_backup a b s (no_tables rows)).0.backups
        ≡ (if succeeds a b s then map (set_last_run b.uuid a.last_run_at) rows else rows)
  unfolding execute_backup
  execute_backup-Stamps s = elim (Bool-cases a.prepared) [
    | inl e ↦ rw e (dump-Stamps s (dumped a))
    | inr e ↦ rw e refl
  ]
