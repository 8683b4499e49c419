-- ===== src/BackupScheduler/Waiting.antt =====
-- The schedules that are due and whose turn is still to come.
use sarra.Common.{
  ◌++◌, ◌≡◌, refl, sym, ◌∙◌, Bool, true, false, List, [], ◌∷◌, map, filter, take, any, All, ◌&&◌,
  arith, inl, inr, Bool-cases,
}
use mathlib.Core.Path.{subst}
use sarra.Common.Text.{Text, text_eq, text_eq_refl}
use sarra.BackupScheduler.{Moment, Backup, cron_matches, set_last_run, words, fields_match, is_due}

-- Some of these schedules is due and is the row's.
abbrev pub waits_in : Moment → List Backup → Backup → Bool
waits_in now bs r = any (λ b. text_eq r.uuid b.uuid && is_due now b) bs

-- Every enabled row that is due waits among the schedules that are still to come.
abbrev pub Waiting : Moment → List Backup → List Backup → Type 0
Waiting now bs = All (λ r. (r.enabled && is_due now r) ≡ true → waits_in now bs r ≡ true)

fields_match_same :
    (now : Moment) (at : Text) (fields : List Text)
    → fields_match (record now { isoformat = at }) fields ≡ fields_match now fields
fields_match_same now at [] = refl
fields_match_same now at (a ∷ []) = refl
fields_match_same now at (a ∷ b ∷ []) = refl
fields_match_same now at (a ∷ b ∷ c ∷ []) = refl
fields_match_same now at (a ∷ b ∷ c ∷ d ∷ []) = refl
fields_match_same now at (a ∷ b ∷ c ∷ d ∷ e ∷ []) = refl
fields_match_same now at (a ∷ b ∷ c ∷ d ∷ e ∷ f ∷ rest) = refl

pub due_same :
    (now : Moment) (at : Text) (b : Backup)
    → take 16 at ≡ take 16 now.isoformat
    → is_due (record now { isoformat = at }) b ≡ is_due now b
unfolding cron_matches
due_same now at b e = rw (fields_match_same now at (words b.frequency), e) refl

stamp_row :
    (now : Moment) (b r : Backup) (bs : List Backup) (at : Text)
    → take 16 at ≡ take 16 now.isoformat
    → ((r.enabled && is_due now r) ≡ true → waits_in now (b ∷ bs) r ≡ true)
    → ((set_last_run b.uuid at r).enabled && is_due now (set_last_run b.uuid at r)) ≡ true
    → waits_in now bs (set_last_run b.uuid at r) ≡ true
unfolding set_last_run
stamp_row now b r bs at e h = elim (Bool-cases (text_eq r.uuid b.uuid)) [
  | inl y ↦ rw (y, e) (λ k. absurd (ground (arith, text_eq_refl (take 16 now.isoformat))))
  | inr n ↦ rw n (λ k. ground (arith, n, h k))
]

pub stamp_rows :
    (now : Moment) (b : Backup) (bs table : List Backup) (at : Text)
    → take 16 at ≡ take 16 now.isoformat
    → Waiting now (b ∷ bs) table
    → Waiting now bs (map (set_last_run b.uuid at) table)
stamp_rows now b bs [] at e h = tt
stamp_rows now b bs (r ∷ table) at e (h, hs) =
    (stamp_row now b r bs at e h, stamp_rows now b bs table at e hs)

pub skip_rows :
    (now : Moment) (b : Backup) (bs table : List Backup)
    → is_due now b ≡ false
    → Waiting now (b ∷ bs) table
    → Waiting now bs table
skip_rows now b bs [] n h = tt
skip_rows now b bs (r ∷ table) n (h, hs) =
    ((λ k. ground (arith, n, h k)), skip_rows now b bs table n hs)

waits_more :
    (now : Moment) (b : Backup) (bs table : List Backup)
    → Waiting now bs table
    → Waiting now (b ∷ bs) table
waits_more now b bs [] h = tt
waits_more now b bs (r ∷ table) (h, hs) = ((λ k. ground (arith, h k)), waits_more now b bs table hs)

filter_on :
    (r : Backup) (table : List Backup)
    → r.enabled ≡ true
    → filter (λ (b : Backup). b.enabled) (r ∷ table) ≡ r ∷ filter (λ b. b.enabled) table
filter_on r table h = ground arith

filter_off :
    (r : Backup) (table : List Backup)
    → r.enabled ≡ false
    → filter (λ (b : Backup). b.enabled) (r ∷ table) ≡ filter (λ b. b.enabled) table
filter_off r table h = ground arith

-- At first every enabled row waits for its own turn.
pub first-Waiting :
    (now : Moment) (table : List Backup) → Waiting now (filter (λ b. b.enabled) table) table
first-Waiting now [] = tt
first-Waiting now (r ∷ table) = elim (Bool-cases r.enabled) [
  | inl y ↦
      subst (λ bs. Waiting now bs (r ∷ table)) (sym (filter_on r table y))
        (
          (λ k. ground (arith, k, text_eq_refl r.uuid)),
          waits_more now r (filter (λ b. b.enabled) table) table (first-Waiting now table),
        )
  | inr n ↦
      subst (λ bs. Waiting now bs (r ∷ table)) (sym (filter_off r table n))
        ((λ k. ground (arith, n, k)), first-Waiting now table)
]

-- The order of those that wait does not matter.
waits_later :
    (now : Moment) (b : Backup) (bs fs : List Backup) (r : Backup)
    → waits_in now (bs ++ (b ∷ fs)) r ≡ waits_in now (b ∷ (bs ++ fs)) r
waits_later now b [] fs r = refl
waits_later now b (c ∷ bs) fs r = ground (arith, waits_later now b bs fs r)

pub later_rows :
    (now : Moment) (b : Backup) (bs fs table : List Backup)
    → Waiting now (b ∷ (bs ++ fs)) table
    → Waiting now (bs ++ (b ∷ fs)) table
later_rows now b bs fs [] h = tt
later_rows now b bs fs (r ∷ table) (h, hs) =
    ((λ k. waits_later now b bs fs r ∙ h k), later_rows now b bs fs table hs)

waits_append :
    (now : Moment) (bs gs fs : List Backup) (r : Backup)
    → waits_in now (bs ++ fs) r ≡ true
    → waits_in now (bs ++ (gs ++ fs)) r ≡ true
waits_append now [] [] fs r h = h
waits_append now [] (g ∷ gs) fs r h = ground (arith, waits_append now [] gs fs r h)
waits_append now (b ∷ bs) gs fs r h = ground (arith, waits_append now bs gs fs r)

pub more_rows :
    (now : Moment) (bs gs fs table : List Backup)
    → Waiting now (bs ++ fs) table
    → Waiting now (bs ++ (gs ++ fs)) table
more_rows now bs gs fs [] h = tt
more_rows now bs gs fs (r ∷ table) (h, hs) =
    ((λ k. waits_append now bs gs fs r (h k)), more_rows now bs gs fs table hs)
