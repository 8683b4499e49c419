-- ===== src/BackupScheduler/Minute.antt =====
-- Two passes over the schedules in one minute.
use sarra.Common.{
  ◌++◌, ◌&&◌, ◌||◌, not, Bool, ℕ, ◌+◌, ◌≡◌, refl, sym, ap, ◌∙◌, true, false, Option, none, some,
  List, [], ◌∷◌, length, map, filter, take, All, arith, inl, inr, Bool-cases, if◌then◌else◌,
}
use mathlib.Core.Path.{subst}
use sarra.Common.Text.{Text}
use sarra.BackupScheduler.{
  Moment, Backup, set_last_run, is_due, on_database, storage_of, has_database, executed, run_backup,
  run_backups, run_due_backups,
}
use sarra.BackupScheduler.Waiting.{
  waits_in, Waiting, stamp_rows, skip_rows, first-Waiting, later_rows, more_rows,
}

append_nil : (bs : List Backup) → bs ++ [] ≡ bs
append_nil [] = refl
append_nil (b ∷ bs) = ap (λ cs. b ∷ cs) (append_nil bs)

module _ {D S : Type 0} (database : Text → Option D) (storage : Text → Option S)
    (execute_backup : Backup → D → Option S → List Backup → List Backup) where
  run_fires :
      (now : Moment) (b : Backup) (table : List Backup) (n : ℕ)
      → is_due now b ≡ true
      → run_backup database storage execute_backup now b (table, n) ≡ (
        on_database database storage execute_backup now b table (database b.database_uuid),
        if executed database storage execute_backup b then n + 1 else n,
      )
  unfolding run_backup
  run_fires now b table n h = rw h refl

  run_skips :
      (now : Moment) (b : Backup) (table : List Backup) (n : ℕ)
      → is_due now b ≡ false
      → run_backup database storage execute_backup now b (table, n) ≡ (table, n)
  unfolding run_backup
  run_skips now b table n h = rw h refl

  pub run_idle :
      (now : Moment) (bs table : List Backup) (n : ℕ)
      → All (λ b. is_due now b ≡ false) bs
      → run_backups database storage execute_backup now bs (table, n) ≡ (table, n)
  unfolding run_backups
  run_idle now [] table n h = refl
  run_idle now (b ∷ bs) table n (h, hs) =
      ap (run_backups database storage execute_backup now bs) (run_skips now b table n h)
      ∙ run_idle now bs table n hs

  pub run_count :
      (now : Moment) (bs table : List Backup) (n : ℕ)
      → (run_backups database storage execute_backup now bs (table, n)).1
        ≡ n + length (filter (executed database storage execute_backup) (filter (is_due now) bs))
  unfolding run_backups
  run_count now [] table n = omega arith
  run_count now (b ∷ bs) table n = elim (Bool-cases (is_due now b)) [
    | inl y ↦
        ap (λ st. (run_backups database storage execute_backup now bs st).1)
          (run_fires now b table n y)
        ∙ run_count now bs
            (on_database database storage execute_backup now b table (database b.database_uuid))
            (if executed database storage execute_backup b then n + 1 else n)
        ∙ ground (arith, y)
    | inr e ↦
        ap (λ st. (run_backups database storage execute_backup now bs st).1)
          (run_skips now b table n e)
        ∙ run_count now bs table n
        ∙ ground (arith, e)
  ]

  -- Each execution gives its own row a last run in this minute if it succeeds, and else nothing.
  module _ (now : Moment) (works : Backup → Bool) (finish : Backup → Text)
      (same : (b : Backup) → take 16 (finish b) ≡ take 16 now.isoformat)
      (effect : (b : Backup) (d : D) (table : List Backup)
        → execute_backup b d (storage_of database storage execute_backup b) table
          ≡ (if works b then map (set_last_run b.uuid (finish b)) table else table)) where
    -- The schedules whose execution does not succeed.
    abbrev fails : List Backup → List Backup
    fails bs = filter (λ b. executed database storage execute_backup b && not (works b)) bs

    on_database-Waiting :
        (b : Backup) (bs table : List Backup) (o : Option D)
        → works b ≡ true
        → Waiting now (b ∷ bs) table
        → Waiting now bs (on_database database storage execute_backup now b table o)
    on_database-Waiting b bs table none w h = stamp_rows now b bs table now.isoformat refl h
    on_database-Waiting b bs table (some d) w h =
        subst (Waiting now bs) (sym (effect b d table ∙ rw w refl))
          (stamp_rows now b bs table (finish b) (same b) h)

    missing-Waiting :
        (b : Backup) (bs table : List Backup)
        → executed database storage execute_backup b ≡ false
        → Waiting now (b ∷ bs) table
        → Waiting now bs
            (on_database database storage execute_backup now b table (database b.database_uuid))
    missing-Waiting b bs table e h = go (database b.database_uuid) e
      where
        go :
            (o : Option D)
            → has_database database storage execute_backup o ≡ false
            → Waiting now bs (on_database database storage execute_backup now b table o)
        go none k = stamp_rows now b bs table now.isoformat refl h
        go (some d) k = absurd (ground arith)

    failing-same :
        (b : Backup) (table : List Backup)
        → executed database storage execute_backup b ≡ true
        → works b ≡ false
        → on_database database storage execute_backup now b table (database b.database_uuid) ≡ table
    failing-same b table e w = go (database b.database_uuid) e
      where
        go :
            (o : Option D)
            → has_database database storage execute_backup o ≡ true
            → on_database database storage execute_backup now b table o ≡ table
        go none k = absurd (ground arith)
        go (some d) k = effect b d table ∙ rw w refl

    -- The turn of a schedule: if its execution does not succeed, it is left among those that wait.
    turn-Waiting :
        (b : Backup) (bs fs table : List Backup) (n : ℕ)
        → Waiting now (b ∷ (bs ++ fs)) table
        → Waiting now
            (bs ++ (fails (b ∷ []) ++ fs))
            (run_backup database storage execute_backup now b (table, n)).0
    turn-Waiting b bs fs table n h =
        let place = λ (t : List Backup). Waiting now (bs ++ (fails (b ∷ []) ++ fs)) t in
        elim (Bool-cases (is_due now b)) [
          | inl y ↦
              subst place (sym (ap (λ (x : List Backup × ℕ). x.0) (run_fires now b table n y)))
                (elim (Bool-cases (executed database storage execute_backup b)) [
                  | inl e ↦ elim (Bool-cases (works b)) [
                    | inl w ↦
                        rw (e, w)
                          (on_database-Waiting b (bs ++ fs) table (database b.database_uuid) w h)
                    | inr w ↦ rw (failing-same b table e w, e, w) (later_rows now b bs fs table h)
                  ]
                  | inr e ↦ rw e (missing-Waiting b (bs ++ fs) table e h)
                ])
          | inr d ↦
              subst place (sym (ap (λ (x : List Backup × ℕ). x.0) (run_skips now b table n d)))
                (more_rows now bs (fails (b ∷ [])) fs table (skip_rows now b (bs ++ fs) table d h))
        ]

    -- Those that wait after the turns of some schedules
    abbrev piled : List Backup → List Backup → List Backup
    piled [] fs = fs
    piled (b ∷ bs) fs = piled bs (fails (b ∷ []) ++ fs)

    piled_waits :
        (bs fs : List Backup) (r : Backup)
        → waits_in now (piled bs fs) r ≡ true
        → (waits_in now (fails bs) r || waits_in now fs r) ≡ true
    piled_waits [] fs r h = h
    piled_waits (b ∷ bs) fs r h =
        let before = piled_waits bs (fails (b ∷ []) ++ fs) r h in
        elim (Bool-cases (executed database storage execute_backup b && not (works b))) [
          | inl e ↦ ground (arith, e, before)
          | inr e ↦ ground (arith, e, before)
        ]

    run-Waiting :
        (bs fs table : List Backup) (n : ℕ)
        → Waiting now (bs ++ fs) table
        → Waiting now
            (piled bs fs)
            (run_backups database storage execute_backup now bs (table, n)).0
    unfolding run_backups
    run-Waiting [] fs table n h = h
    run-Waiting (b ∷ bs) fs table n h =
        let (rows, count) = run_backup database storage execute_backup now b (table, n) in
        run-Waiting bs (fails (b ∷ []) ++ fs) rows count (turn-Waiting b bs fs table n h)

    rows-fail :
        (bs table : List Backup) → Waiting now (piled bs []) table → Waiting now (fails bs) table
    rows-fail bs [] h = tt
    rows-fail bs (r ∷ table) (h, hs) =
        ((λ k. ground (arith, piled_waits bs [] r (h k))), rows-fail bs table hs)

    pub after-Waiting :
        (table : List Backup)
        → Waiting now
            (fails (filter (λ b. b.enabled) table))
            (run_due_backups database storage execute_backup now table).0
    unfolding run_due_backups
    after-Waiting table =
        let bs = filter (λ (b : Backup). b.enabled) table in
        let after = (run_backups database storage execute_backup now bs (table, 0)).0 in
        rows-fail bs after (
          run-Waiting bs [] table 0
            (subst (λ cs. Waiting now cs table) (sym (append_nil bs)) (first-Waiting now table)))
