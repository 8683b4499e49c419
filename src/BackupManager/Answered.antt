-- ===== src/BackupManager/Answered.antt =====
-- Which answers make an execution succeed, and which make it return without success.
use sarra.Common.{
  ◌≡◌, ◌⊎◌, ◌↔◌, ◌≢◌, inl, inr, refl, Bool, true, false, Option, none, some, [], ◌∷◌, arith,
  Bool-cases,
}
use sarra.Common.Text.{Text, codes}
use sarra.BackupScheduler.{Backup}
use sarra.BackupManager.{
  Tables, Answers, refused, completed, complete, after_upload, started, upload_and_complete, dumped,
  after_dump, execute_backup,
}

-- The dump and the copy of it succeed; one of them fails.
abbrev pub Dumps : Answers → Type 0
Dumps a = (a.dump ≡ some true) × (a.copy ≡ some true)

abbrev pub FailsToDump : Answers → Type 0
FailsToDump a = (a.dump ≡ some false) ⊎ ((a.dump ≡ some true) × (a.copy ≡ some false))

dumped_iff :
    (a : Answers) → ((dumped a ≡ some true) ↔ Dumps a) × ((dumped a ≡ some false) ↔ FailsToDump a)
dumped_iff a = go a.dump refl
  where
    go :
        (o : Option Bool)
        → a.dump ≡ o
        → ((dumped a ≡ some true) ↔ Dumps a) × ((dumped a ≡ some false) ↔ FailsToDump a)
    go none e = ground arith
    go (some true) e = ground arith
    go (some false) e = ground arith

module _ (a : Answers) (b : Backup) (t : Tables) where
  complete-completed :
      (k u : Text) (cleaned : Bool)
      → ((complete a b k u t cleaned).1 ≡ completed) ↔ (cleaned ≡ true)
  complete-completed k u true = ground arith
  complete-completed k u false = ground arith

  complete-refused : (k u : Text) (cleaned : Bool) → (complete a b k u t cleaned).1 ≢ refused
  complete-refused k u true e = ground arith
  complete-refused k u false e = ground arith

  upload_iff :
      (o : Option Text)
      → (((after_upload a b t o).1 ≡ completed) ↔ ((o ≡ none) × (a.cleaned ≡ true)))
        × (((after_upload a b t o).1 ≡ refused) ↔ ((m : Text) × (o ≡ some m)))
  upload_iff none =
      let (to, from) = complete-completed a.s3_key (codes "uploaded") a.cleaned in
      (
        ((λ e. (refl, to e)), λ (_, k). from k),
        (
          (λ e. absurd (complete-refused a.s3_key (codes "uploaded") a.cleaned e)),
          λ (m, k). absurd (ground arith),
        ),
      )
  upload_iff (some m) = (
    ((λ e. absurd (ground arith)), λ (e, _). absurd (ground arith)),
    ((λ e. (m, refl)), λ _. refl),
  )

  storage_iff {ℓ} :
      {S : Type ℓ} (s : Option S)
      → (((upload_and_complete a b t s).1 ≡ completed)
          ↔ (((s ≡ none) ⊎ (a.upload ≡ none)) × (a.cleaned ≡ true)))
        × (((upload_and_complete a b t s).1 ≡ refused)
            ↔ ((x : S) × (m : Text) × (s ≡ some x) × (a.upload ≡ some m)))
  storage_iff none =
      let (to, from) = complete-completed [] (codes "not_configured") a.cleaned in
      (
        ((λ e. (inl refl, to e)), λ (_, k). from k),
        (
          (λ e. absurd (complete-refused [] (codes "not_configured") a.cleaned e)),
          λ (x, m, k, _). absurd (ground arith),
        ),
      )
  storage_iff (some x) =
      let ((to, from), (to2, from2)) = upload_iff a.upload in
      (
        (
          (λ e. let (k, c) = to e in (inr k, c)),
          λ (k, c). from (elim k [ inl e ↦ absurd (ground arith) | inr e ↦ e ], c),
        ),
        ((λ e. let (m, k) = to2 e in (x, m, refl, k)), λ (_, m, _, k). from2 (m, k)),
      )

  dump_iff {ℓ} :
      {S : Type ℓ} (s : Option S) (o : Option Bool)
      → (((after_dump a b s t o).1 ≡ completed)
          ↔ ((o ≡ some true) × ((s ≡ none) ⊎ (a.upload ≡ none)) × (a.cleaned ≡ true)))
        × (((after_dump a b s t o).1 ≡ refused) ↔ (
            (o ≡ some false)
            ⊎ ((o ≡ some true) × (x : S) × (m : Text) × (s ≡ some x) × (a.upload ≡ some m))))
  dump_iff s none = (
    ((λ e. absurd (ground arith)), λ (e, _, _). absurd (ground arith)),
    (
      (λ e. absurd (ground arith)),
      λ k. elim k [ inl e ↦ absurd (ground arith) | inr (e, _, _, _, _) ↦ absurd (ground arith) ],
    ),
  )
  dump_iff s (some false) = (
    ((λ e. absurd (ground arith)), λ (e, _, _). absurd (ground arith)),
    ((λ e. inl refl), λ _. refl),
  )
  dump_iff s (some true) =
      let ((to, from), (to2, from2)) = storage_iff s in
      (
        ((λ e. let (k, c) = to e in (refl, k, c)), λ (_, k, c). from (k, c)),
        (
          (λ e. let (x, m, k, u) = to2 e in inr (refl, x, m, k, u)),
          λ k. elim k [ inl e ↦ absurd (ground arith) | inr (_, x, m, e, u) ↦ from2 (x, m, e, u) ],
        ),
      )

-- The execution could begin, the dump was made and copied, the upload succeeded where there is a
-- storage, and no removal of an artifact raised.
abbrev pub Completes {ℓ} : {S : Type ℓ} → Answers → Option S → Type ℓ
Completes a s =
    (a.prepared ≡ true) × Dumps a × ((s ≡ none) ⊎ (a.upload ≡ none)) × (a.cleaned ≡ true)

-- The execution could begin, and the dump, its copy, or its upload to a storage failed.
abbrev pub Refuses {ℓ} : {S : Type ℓ} → Answers → Option S → Type ℓ
Refuses {S = S} a s =
    (a.prepared ≡ true)
    × (FailsToDump a ⊎ (Dumps a × (x : S) × (m : Text) × (s ≡ some x) × (a.upload ≡ some m)))

module _ (a : Answers) (b : Backup) (t : Tables) where
  pub execute_iff {ℓ} :
      {S : Type ℓ} (s : Option S)
      → (((execute_backup a b s t).1 ≡ completed) ↔ Completes a s)
        × (((execute_backup a b s t).1 ≡ refused) ↔ Refuses a s)
  unfolding execute_backup
  execute_iff s =
      let ((to, from), (to2, from2)) =
        dump_iff a b (record t { executions = started a b ∷ t.executions }) s (dumped a) in
      let ((dt, df), (ft, ff)) = dumped_iff a in
      elim (Bool-cases a.prepared) [
        | inl e ↦ rw e (
          ((λ k. let (d, u, c) = to k in (refl, dt d, u, c)), λ (_, d, u, c). from (df d, u, c)),
          (
            (λ k. (
              refl,
              elim (to2 k) [ inl d ↦ inl (ft d) | inr (d, x, m, k2, u) ↦ inr (dt d, x, m, k2, u) ],
            )),
            λ (_, k).
                from2
                  (elim k [ inl d ↦ inl (ff d) | inr (d, x, m, k2, u) ↦ inr (df d, x, m, k2, u) ]),
          ),
        )
        | inr e ↦ rw e (
          ((λ k. absurd (ground arith)), λ (k, _, _, _). absurd (ground arith)),
          ((λ k. absurd (ground arith)), λ (k, _). absurd (ground arith)),
        )
      ]
