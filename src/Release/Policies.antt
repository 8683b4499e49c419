-- ===== src/Release/Policies.antt =====
-- Release policies: `get_policy` and `update_policy`.
pub mod Sound
pub mod Update
use sarra.Common.{
  ℕ, ◌+◌, String, Bool, true, false, Option, none, some, List, [], ◌∷◌, map, str_eq, leb, ◌&&◌,
  ◌||◌, if◌then◌else◌,
}
use sarra.Release.{
  Project, Policy, ℤ, pos, negsuc, Store, Error, bad_strategy, bad_schedule, outside_range, ok, err,
  After, and_then,
}
use sarra.Release.Environments.{
  find, or_old, is_none, is_policy_of, default_policy, ensure_release_project,
}

-- The fields that a request may set
pub record Changes : Type 0 where
  pub deployment_strategy : Option String
  pub canary_percent : Option ℤ
  pub preview_enabled : Option Bool
  pub preview_retention_days : Option ℤ
  pub resource_alert_percent : Option ℤ
  pub storage_limit_mb : Option ℤ
  pub backup_enabled : Option Bool
  pub backup_schedule : Option String
  pub backup_retention_days : Option ℤ
  pub last_restore_check_at : Option String

abbrev pub no_changes : Changes
no_changes = record {
  deployment_strategy = none;
  canary_percent = none;
  preview_enabled = none;
  preview_retention_days = none;
  resource_alert_percent = none;
  storage_limit_mb = none;
  backup_enabled = none;
  backup_schedule = none;
  backup_retention_days = none;
  last_restore_check_at = none;
}

abbrev pub is_strategy : String → Bool
is_strategy strategy =
    str_eq strategy "rolling" || (str_eq strategy "blue_green" || str_eq strategy "canary")

abbrev pub is_schedule : String → Bool
is_schedule schedule = str_eq schedule "daily" || str_eq schedule "weekly"

-- `lower <= value <= upper`, for bounds that are not negative
abbrev pub within : ℕ → ℕ → ℤ → Bool
within lower upper (pos n) = leb lower n && leb n upper
within lower upper (negsuc n) = false

abbrev pub passes : {A : Type 0} → (A → Bool) → Option A → Bool
passes test none = true
passes test (some a) = test a

-- The first of the checks that fails
unfoldable pub violation : Changes → Option Error
violation c =
    if passes is_strategy c.deployment_strategy
    then if passes is_schedule c.backup_schedule
      then if passes (within 1 100) c.canary_percent
        then if passes (within 1 90) c.preview_retention_days
          then if passes (within 50 100) c.resource_alert_percent
            then if passes (within 0 10000000) c.storage_limit_mb
              then if passes (within 1 3650) c.backup_retention_days
                then none
                else some (outside_range "backup_retention_days")
              else some (outside_range "storage_limit_mb")
            else some (outside_range "resource_alert_percent")
          else some (outside_range "preview_retention_days")
        else some (outside_range "canary_percent")
      else some bad_schedule
    else some bad_strategy

abbrev pub not_none : {A : Type 0} → Option A → Bool
not_none none = false
not_none (some a) = true

abbrev pub or_some : {A : Type 0} → Option A → Option A → Option A
or_some none old = old
or_some (some new) old = some new

abbrev pub has_changes : Changes → Bool
has_changes c =
    not_none c.deployment_strategy
    || (not_none c.canary_percent
        || (not_none c.preview_enabled
            || (not_none c.preview_retention_days
                || (not_none c.resource_alert_percent
                    || (not_none c.storage_limit_mb
                        || (not_none c.backup_enabled
                            || (not_none c.backup_schedule
                                || (not_none c.backup_retention_days
                                    || not_none c.last_restore_check_at))))))))

unfoldable pub changed : String → Changes → String → Policy → Policy
changed project_id c now p =
    if is_policy_of project_id p
    then (record p {
      deployment_strategy = or_old c.deployment_strategy p.deployment_strategy;
      canary_percent = or_old c.canary_percent p.canary_percent;
      preview_enabled = or_old c.preview_enabled p.preview_enabled;
      preview_retention_days = or_old c.preview_retention_days p.preview_retention_days;
      resource_alert_percent = or_old c.resource_alert_percent p.resource_alert_percent;
      storage_limit_mb = or_old c.storage_limit_mb p.storage_limit_mb;
      backup_enabled = or_old c.backup_enabled p.backup_enabled;
      backup_schedule = or_old c.backup_schedule p.backup_schedule;
      backup_retention_days = or_old c.backup_retention_days p.backup_retention_days;
      last_restore_check_at = or_some c.last_restore_check_at p.last_restore_check_at;
      updated_at = now;
    })
    else p

abbrev pub policy_or_default : String → String → Option Policy → Policy
policy_or_default project_id now none = default_policy project_id now
policy_or_default project_id now (some p) = p

module _ (ids : ℕ → String) (get_project : String → Option Project) where
  unfoldable pub get_policy : String → String → Store → After Policy
  get_policy project_id now s =
      and_then (ensure_release_project ids get_project project_id now s) (λ t _.
        (t, ok (policy_or_default project_id now (find (is_policy_of project_id) t.policies))))

  unfoldable pub update_policy : String → Changes → String → Store → After Policy
  update_policy project_id c now s =
      and_then (ensure_release_project ids get_project project_id now s) (λ t _.
        elim (violation c) [
          | some e ↦ (t, err e)
          | none ↦ get_policy project_id now (
              if has_changes c
              then (record t { policies = map (changed project_id c now) t.policies })
              else t)
        ])
