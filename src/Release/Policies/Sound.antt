-- ===== src/Release/Policies/Sound.antt =====
-- The policies that `update_policy` stores.
use sarra.Common.{
  ℕ, ◌≤◌, ◌≡◌, ◌⊎◌, refl, String, Bool, true, false, Option, none, some, List, [], ◌∷◌, map, any,
  All, All-append, eq_iff, if◌then◌else◌, arith, inl, inr, Bool-cases,
}
use sarra.Release.{Project, Policy, ℤ, pos, negsuc, Store, Error}
use sarra.Release.Environments.{
  find, or_old, is_policy_of, default_policy, insert_policy, insert_environment, insert_defaults,
}
use sarra.Release.Policies.{
  Changes, is_strategy, is_schedule, within, passes, violation, changed, policy_or_default,
}

-- A number between two bounds
abbrev pub IsWithin : ℕ → ℕ → ℤ → Type 0
IsWithin lower upper z = (n : ℕ) × (z ≡ pos n) × (lower ≤ n) × (n ≤ upper)

abbrev pub IsStrategy : String → Type 0
IsStrategy s = (s ≡ "rolling") ⊎ (s ≡ "blue_green") ⊎ (s ≡ "canary")

abbrev pub IsSchedule : String → Type 0
IsSchedule s = (s ≡ "daily") ⊎ (s ≡ "weekly")

abbrev pub IsSound : Policy → Type 0
IsSound p =
    IsStrategy p.deployment_strategy
    × IsSchedule p.backup_schedule
    × IsWithin 1 100 p.canary_percent
    × IsWithin 1 90 p.preview_retention_days
    × IsWithin 50 100 p.resource_alert_percent
    × IsWithin 0 10000000 p.storage_limit_mb
    × IsWithin 1 3650 p.backup_retention_days

within_lem : (lower upper : ℕ) (z : ℤ) → within lower upper z ≡ true → IsWithin lower upper z
within_lem lower upper (pos n) h = (n, refl, ground arith, ground arith)
within_lem lower upper (negsuc n) h = ground arith

is_strategy_lem : (s : String) → is_strategy s ≡ true → IsStrategy s
is_strategy_lem s h = ground (arith, eq_iff s "rolling", eq_iff s "blue_green", eq_iff s "canary")

is_schedule_lem : (s : String) → is_schedule s ≡ true → IsSchedule s
is_schedule_lem s h = ground (arith, eq_iff s "daily", eq_iff s "weekly")

-- A field that a request sets to a value that passes its check, or leaves
or_old_lem :
    {A : Type 0} (P : A → Type 0) (test : A → Bool) (o : Option A) (old : A)
    → ((a : A) → test a ≡ true → P a)
    → passes test o ≡ true
    → P old
    → P (or_old o old)
or_old_lem P test none old f h p = p
or_old_lem P test (some a) old f h p = f a h

abbrev pub Passes : Changes → Type 0
Passes c =
    (passes is_strategy c.deployment_strategy ≡ true)
    × (passes is_schedule c.backup_schedule ≡ true)
    × (passes (within 1 100) c.canary_percent ≡ true)
    × (passes (within 1 90) c.preview_retention_days ≡ true)
    × (passes (within 50 100) c.resource_alert_percent ≡ true)
    × (passes (within 0 10000000) c.storage_limit_mb ≡ true)
    × (passes (within 1 3650) c.backup_retention_days ≡ true)

if_none :
    (test : Bool) (rest : Option Error) (e : Error)
    → (if test then rest else some e) ≡ none
    → (test ≡ true) × (rest ≡ none)
if_none true rest e h = (refl, h)
if_none false rest e h = ground arith

pub violation-none : (c : Changes) → violation c ≡ none → Passes c
unfolding violation
violation-none c h =
    let (a, h1) = if_none (passes is_strategy c.deployment_strategy) _ _ h in
    let (b, h2) = if_none (passes is_schedule c.backup_schedule) _ _ h1 in
    let (d, h3) = if_none (passes (within 1 100) c.canary_percent) _ _ h2 in
    let (e, h4) = if_none (passes (within 1 90) c.preview_retention_days) _ _ h3 in
    let (f, h5) = if_none (passes (within 50 100) c.resource_alert_percent) _ _ h4 in
    let (g, h6) = if_none (passes (within 0 10000000) c.storage_limit_mb) _ _ h5 in
    let (i, h7) = if_none (passes (within 1 3650) c.backup_retention_days) _ _ h6 in
    (a, b, d, e, f, g, i)

changed-IsSound :
    (q : String) (c : Changes) (now : String) (p : Policy)
    → Passes c
    → IsSound p
    → IsSound (changed q c now p)
unfolding changed
changed-IsSound q c now p (a, b, d, e, f, g, i) (sa, sb, sd, se, sf, sg, si) =
    elim (Bool-cases (is_policy_of q p)) [
      | inr n ↦ rw n (sa, sb, sd, se, sf, sg, si)
      | inl y ↦ rw y (
        or_old_lem IsStrategy is_strategy c.deployment_strategy p.deployment_strategy
            is_strategy_lem a sa,
        or_old_lem IsSchedule is_schedule c.backup_schedule p.backup_schedule is_schedule_lem b sb,
        or_old_lem (IsWithin 1 100) (within 1 100) c.canary_percent p.canary_percent
            (within_lem 1 100) d sd,
        or_old_lem (IsWithin 1 90) (within 1 90) c.preview_retention_days p.preview_retention_days
            (within_lem 1 90) e se,
        or_old_lem (IsWithin 50 100) (within 50 100) c.resource_alert_percent
            p.resource_alert_percent (within_lem 50 100) f sf,
        or_old_lem (IsWithin 0 10000000) (within 0 10000000) c.storage_limit_mb p.storage_limit_mb
            (within_lem 0 10000000) g sg,
        or_old_lem (IsWithin 1 3650) (within 1 3650) c.backup_retention_days p.backup_retention_days
            (within_lem 1 3650) i si,
      )
    ]

pub All-changed :
    (q : String) (c : Changes) (now : String) (xs : List Policy)
    → Passes c
    → All IsSound xs
    → All IsSound (map (changed q c now) xs)
All-changed q c now [] h s = tt
All-changed q c now (p ∷ xs) h (k, s) = (changed-IsSound q c now p h k, All-changed q c now xs h s)

pub default-IsSound : (q now : String) → IsSound (default_policy q now)
default-IsSound q now = (
  inl refl,
  inl refl,
  (10, refl, omega arith, omega arith),
  (7, refl, omega arith, omega arith),
  (85, refl, omega arith, omega arith),
  (0, refl, omega arith, omega arith),
  (14, refl, omega arith, omega arith),
)

pub found-IsSound :
    (q now : String) (xs : List Policy)
    → All IsSound xs
    → IsSound (policy_or_default q now (find (is_policy_of q) xs))
found-IsSound q now [] s = default-IsSound q now
found-IsSound q now (p ∷ xs) (k, s) = elim (Bool-cases (is_policy_of q p)) [
  | inl y ↦ rw y k
  | inr n ↦ rw n (found-IsSound q now xs s)
]

pub defaults-IsSound :
    (ids : ℕ → String) (q now : String) (project : Project) (s : Store)
    → All IsSound s.policies
    → All IsSound (insert_defaults ids q now project s).policies
unfolding insert_defaults insert_environment insert_policy
defaults-IsSound ids q now project s h = elim (Bool-cases (any (is_policy_of q) s.policies)) [
  | inl y ↦ rw y h
  | inr n ↦ rw n (All-append IsSound s.policies _ h (default-IsSound q now, tt))
]
