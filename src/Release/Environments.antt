-- ===== src/Release/Environments.antt =====
-- The release environments of a project and the defaults that every operation makes sure of.
use sarra.Common.{
  ℕ, ◌+◌, String, Bool, true, false, Option, none, some, List, [], ◌∷◌, ◌++◌, map, any, str_eq,
  ◌&&◌, if◌then◌else◌,
}
use sarra.Release.{
  Kind, production, staging, preview, Project, Environment, Policy, pos, Store, project_not_found,
  ok, err, After, and_then,
}

abbrev pub same_kind : Kind → Kind → Bool
same_kind production production = true
same_kind staging staging = true
same_kind preview preview = true
same_kind _ _ = false

-- `str(value or default)`
abbrev pub or_text : String → String → String
or_text value default = if str_eq value "" then default else value

abbrev pub default_policy : String → String → Policy
default_policy project_id now = record {
  project_id = project_id;
  deployment_strategy = "rolling";
  canary_percent = pos 10;
  preview_enabled = true;
  preview_retention_days = pos 7;
  resource_alert_percent = pos 85;
  storage_limit_mb = pos 0;
  backup_enabled = false;
  backup_schedule = "daily";
  backup_retention_days = pos 14;
  last_restore_check_at = none;
  updated_at = now;
}

abbrev pub is_policy_of : String → Policy → Bool
is_policy_of project_id p = str_eq p.project_id project_id

abbrev pub is_kind_of : String → Kind → Environment → Bool
is_kind_of project_id kind e = str_eq e.project_id project_id && same_kind e.kind kind

abbrev pub is_environment : String → String → Environment → Bool
is_environment project_id environment_id e =
    str_eq e.project_id project_id && str_eq e.id environment_id

-- `INSERT OR IGNORE`: the project's id is the key.
unfoldable pub insert_policy : Policy → Store → Store
insert_policy policy s =
    if any (is_policy_of policy.project_id) s.policies
    then s
    else record s { policies = s.policies ++ (policy ∷ []) }

-- `INSERT OR IGNORE`: a project has one environment of a kind. The identifier is drawn in either case.
unfoldable pub insert_environment :
    (ℕ → String) → String → String → String → Kind → String → String → Bool → Bool → Store → Store
insert_environment ids project_id now name kind branch domain auto_deploy require_approval s =
    let row : Environment = record {
      id = ids s.issued;
      project_id = project_id;
      name = name;
      kind = kind;
      branch = branch;
      domain = domain;
      auto_deploy = auto_deploy;
      require_approval = require_approval;
      created_at = now;
      updated_at = now;
    } in
    record s {
      issued = s.issued + 1;
      environments =
          if any (is_kind_of project_id kind) s.environments
          then s.environments
          else s.environments ++ (row ∷ []);
    }

unfoldable pub insert_defaults : (ℕ → String) → String → String → Project → Store → Store
insert_defaults ids project_id now project s =
    let branch = or_text project.branch "main" in
    insert_environment ids project_id now "Preview" preview branch project.preview_domain false
      false
      (insert_environment ids project_id now "Staging" staging branch "" false false (
        insert_environment ids project_id now "Production" production branch project.domain
          project.auto_deploy true (insert_policy (default_policy project_id now) s)))

abbrev pub find : {A : Type 0} → (A → Bool) → List A → Option A
find test [] = none
find test (x ∷ xs) = if test x then some x else find test xs

-- The fields that a request may set
pub record Updates : Type 0 where
  pub name : Option String
  pub branch : Option String
  pub domain : Option String
  pub auto_deploy : Option Bool
  pub require_approval : Option Bool

abbrev pub or_old : {A : Type 0} → Option A → A → A
or_old none old = old
or_old (some new) old = new

abbrev pub is_none : {A : Type 0} → Option A → Bool
is_none none = true
is_none (some a) = false

abbrev is_empty : Updates → Bool
is_empty u =
    is_none u.name
    && (is_none u.branch
        && (is_none u.domain && (is_none u.auto_deploy && is_none u.require_approval)))

unfoldable pub updated : String → String → Updates → String → Environment → Environment
updated project_id environment_id u now e =
    if is_environment project_id environment_id e
    then (record e {
      name = or_old u.name e.name;
      branch = or_old u.branch e.branch;
      domain = or_old u.domain e.domain;
      auto_deploy = or_old u.auto_deploy e.auto_deploy;
      require_approval = or_old u.require_approval e.require_approval;
      updated_at = now;
    })
    else e

module _ (ids : ℕ → String) (get_project : String → Option Project) where
  unfoldable pub ensure_release_project : String → String → Store → After Unit
  ensure_release_project project_id now s = elim (get_project project_id) [
    | none ↦ (s, err project_not_found)
    | some project ↦ (insert_defaults ids project_id now project s, ok tt)
  ]

  unfoldable pub get_environment : String → String → String → Store → After (Option Environment)
  get_environment project_id environment_id now s =
      and_then (ensure_release_project project_id now s)
        (λ t _. (t, ok (find (is_environment project_id environment_id) t.environments)))

  unfoldable pub update_environment :
      String → String → Updates → String → Store → After (Option Environment)
  update_environment project_id environment_id u now s =
      if is_empty u
      then get_environment project_id environment_id now s
      else get_environment project_id environment_id now
          (record s { environments = map (updated project_id environment_id u now) s.environments })
