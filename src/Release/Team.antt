-- ===== src/Release/Team.antt =====
-- The members of a project and what their roles allow. The list of members is not sorted here: a
-- project has one member of an address.
pub mod Roles
use sarra.Common.{
  ℕ, ◌+◌, String, Bool, true, false, not, Option, none, some, List, [], ◌∷◌, ◌++◌, map, filter, any,
  length, ltb, ◌==◌, str_eq, ◌&&◌, ◌||◌, if◌then◌else◌,
}
use sarra.Common.Strings.{strip, lower, holds_code}
use sarra.Release.{Member, Store, Result, bad_role, bad_email, ok, err, After}
use sarra.Release.Environments.{find, or_text}

abbrev pub has_at : String → Bool
has_at = holds_code 64

-- An operator, by the texts that `_release_actor` tries
pub record Operator : Type 0 where
  pub email : String
  pub id : String
  pub auth : String

unfoldable pub release_actor : Operator → String
release_actor operator =
    strip (or_text operator.email (or_text operator.id (or_text operator.auth "operator")))

abbrev pub is_role : String → Bool
is_role role =
    str_eq role "owner" || (str_eq role "admin" || (str_eq role "deployer" || str_eq role "viewer"))

abbrev pub is_member_of : String → Member → Bool
is_member_of project_id m = str_eq m.project_id project_id

abbrev pub has_email : String → String → Member → Bool
has_email project_id email m = str_eq m.project_id project_id && str_eq m.email email

abbrev pub list_team_members : String → Store → List Member
list_team_members project_id s = filter (is_member_of project_id) s.members

abbrev pub acts_as : String → Member → Bool
acts_as actor m = str_eq (lower m.email) actor

abbrev pub manages : String → Bool
manages role = str_eq role "owner" || (str_eq role "admin" || str_eq role "deployer")

abbrev pub approves : String → Bool
approves role = str_eq role "owner" || str_eq role "admin"

abbrev pub role_passes : (String → Bool) → Option Member → Bool
role_passes test none = false
role_passes test (some m) = test (or_text m.role "viewer")

-- The decision that the managers' and the approvers' checks share
unfoldable pub is_allowed : (String → Bool) → String → Operator → Store → Bool
is_allowed test project_id operator s =
    let actor = lower (release_actor operator) in
    let members = list_team_members project_id s in
    str_eq actor ""
    || (not (has_at actor)
        || (length members == 0 || role_passes test (find (acts_as actor) members)))

unfoldable pub release_can_manage : String → Operator → Store → Bool
unfolding is_allowed
release_can_manage = is_allowed manages

unfoldable pub release_can_approve : String → Operator → Store → Bool
unfolding is_allowed
release_can_approve = is_allowed approves

unfoldable pub conflicting : String → String → String → String → String → Member → Member
conflicting project_id email display_name role now m =
    if has_email project_id email m
    then record m { display_name = display_name; role = role; updated_at = now }
    else m

unfoldable pub upsert_team_member :
    (ℕ → String) → String → String → String → String → String → Store → After Member
upsert_team_member ids project_id email display_name role now s =
    let cleaned_email = lower (strip email) in
    let row : Member = record {
      id = ids s.issued;
      project_id = project_id;
      email = cleaned_email;
      display_name = strip display_name;
      role = role;
      created_at = now;
      updated_at = now;
    } in
    if not (is_role role)
    then (s, err bad_role)
    else if not (has_at cleaned_email)
    then (s, err bad_email)
    else let members =
        if any (has_email project_id cleaned_email) s.members
        then map (conflicting project_id cleaned_email (strip display_name) role now) s.members
        else s.members ++ (row ∷ []) in
      (
        record s { issued = s.issued + 1; members = members },
        ok (elim (find (has_email project_id cleaned_email) members) [ none ↦ row | some m ↦ m ]),
      )

abbrev is_member : String → String → Member → Bool
is_member project_id member_id m = str_eq m.project_id project_id && str_eq m.id member_id

unfoldable pub remove_team_member : String → String → Store → Store × Bool
remove_team_member project_id member_id s = (
  record s { members = filter (λ m. not (is_member project_id member_id m)) s.members },
  any (is_member project_id member_id) s.members,
)
