-- ===== src/Release.antt =====
-- syte/release_operations.py: release environments, approvals of protected releases, policies,
-- members, recovery points and the timeline, with the handlers of syte/main.py that put them
-- together. The tables are lists of records in the order of insertion, and an operation returns the
-- store it leaves together with its result. `ids` are the values of `uuid4` in the order of the
-- calls, and `issued` counts them; the time of a call is an argument, and `get_project` of
-- syte/database.py is a parameter. Payloads of events are left out.
-- `lower` and `strip` are those of ASCII.
mod Environments
mod Approvals
mod Policies
mod Team
mod Restore
mod Handlers
mod Deploy
mod Requests
mod Ledger
mod Tests
use sarra.Common.{
  ℕ, ◌+◌, String, Bool, true, false, Option, List, [], ◌∷◌, ◌++◌, str_eq, ◌||◌, if◌then◌else◌,
}

pub data Kind : Type 0 where
  production staging preview : Kind

pub data Status : Type 0 where
  pending approved rejected consumed : Status

-- Integers of the policies
pub data ℤ : Type 0 where
  pos negsuc : ℕ → ℤ

-- What is read of a row of `get_project`
pub record Project : Type 0 where
  pub branch : String
  pub domain : String
  pub preview_domain : String
  pub auto_deploy : Bool
  pub last_deployed_commit : String

pub record Environment : Type 0 where
  pub id : String
  pub project_id : String
  pub name : String
  pub kind : Kind
  pub branch : String
  pub domain : String
  pub auto_deploy : Bool
  pub require_approval : Bool
  pub created_at : String
  pub updated_at : String

pub record Approval : Type 0 where
  pub id : String
  pub project_id : String
  pub environment_id : String
  pub requested_by : String
  pub status : Status
  pub approved_by : String
  pub note : String
  pub created_at : String
  pub decided_at : Option String

pub record Policy : Type 0 where
  pub project_id : String
  pub deployment_strategy : String
  pub canary_percent : ℤ
  pub preview_enabled : Bool
  pub preview_retention_days : ℤ
  pub resource_alert_percent : ℤ
  pub storage_limit_mb : ℤ
  pub backup_enabled : Bool
  pub backup_schedule : String
  pub backup_retention_days : ℤ
  pub last_restore_check_at : Option String
  pub updated_at : String

pub record Member : Type 0 where
  pub id : String
  pub project_id : String
  pub email : String
  pub display_name : String
  pub role : String
  pub created_at : String
  pub updated_at : String

pub record RestorePoint : Type 0 where
  pub id : String
  pub project_id : String
  pub label : String
  pub source : String
  pub status : String
  pub artifact_path : String
  pub created_at : String
  pub verified_at : Option String

pub record Event : Type 0 where
  pub id : String
  pub project_id : String
  pub environment_id : Option String
  pub event_type : String
  pub severity : String
  pub title : String
  pub detail : String
  pub created_at : String

pub record Store : Type 0 where
  pub issued : ℕ
  pub environments : List Environment
  pub approvals : List Approval
  pub policies : List Policy
  pub members : List Member
  pub restore_points : List RestorePoint
  pub events : List Event

pub data Error : Type 0 where
  project_not_found environment_not_found approval_not_found member_not_found : Error
  restore_point_not_found : Error
  bad_strategy bad_schedule bad_role bad_email : Error
  outside_range : String → Error
  branch_differs previews_disabled view_only not_an_approver : Error
  failed : String → Error

pub data Result {ℓ} (A : Type ℓ) : Type ℓ where
  ok : A → Result A
  err : Error → Result A

-- What an operation leaves and returns
abbrev pub After : Type 0 → Type 0
After A = Store × Result A

abbrev pub and_then : {A B : Type 0} → After A → (Store → A → After B) → After B
and_then (s, ok a) f = f s a
and_then (s, err e) f = (s, err e)

abbrev is_severity : String → Bool
is_severity severity =
    str_eq severity "info"
    || (str_eq severity "success" || (str_eq severity "warning" || str_eq severity "danger"))

unfoldable pub record_event :
    (ℕ → String)
    → String
    → String
    → String
    → String
    → String
    → Option String
    → String
    → Store
    → Store
record_event ids project_id event_type title detail severity environment_id now s = record s {
  issued = s.issued + 1;
  events =
      s.events
      ++ (record {
        id = ids s.issued;
        project_id = project_id;
        environment_id = environment_id;
        event_type = event_type;
        severity = if is_severity severity then severity else "info";
        title = title;
        detail = detail;
        created_at = now;
      }
          ∷ []);
}
