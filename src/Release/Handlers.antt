-- ===== src/Release/Handlers.antt =====
-- The release handlers of syte/main.py: the guards that they share, and what they put together. What
-- `issue_deploy` and `start_preview` answered is an argument.
use Prim.Native.String
use sarra.Common.{ℕ, String, Bool, true, false, not, Option, none, some, if◌then◌else◌}
use sarra.Release.{
  Kind, preview, Project, Environment, Approval, Policy, Member, RestorePoint, Store,
  project_not_found, environment_not_found, approval_not_found, member_not_found,
  restore_point_not_found, previews_disabled, view_only, not_an_approver, failed, ok, err, After,
  and_then, record_event,
}
use sarra.Release.Environments.{Updates, update_environment}
use sarra.Release.Approvals.{request_approval, decide_approval}
use sarra.Release.Policies.{Changes, get_policy, update_policy}
use sarra.Release.Team.{
  Operator, release_actor, release_can_manage, release_can_approve, upsert_team_member,
  remove_team_member,
}
use sarra.Release.Restore.{verify_restore_point}

pub data Response : Type 0 where
  environment_updated : Environment → Response
  policy_updated : Policy → Response
  member_set : Member → Response
  member_removed : Response
  approval_requested : Approval → Response
  approval_decided : Approval → Response
  restore_point_verified : RestorePoint → Response
  preview_started : Response
  released : Environment → Response

-- What a call of `issue_deploy` or of `start_preview` returned
pub record Answer : Type 0 where
  pub accepted : Bool
  pub message : String

abbrev is_preview : Kind → Bool
is_preview preview = true
is_preview _ = false

module _ (ids : ℕ → String) (get_project : String → Option Project) where
  -- `_release_project` and `_require_release_manager`
  unfoldable pub as_manager :
      String → Operator → Store → (Project → Store → After Response) → After Response
  as_manager project_id operator s handler = elim (get_project project_id) [
    | none ↦ (s, err project_not_found)
    | some project ↦
        if release_can_manage project_id operator s then handler project s else (s, err view_only)
  ]

  unfoldable pub update_release_environment :
      String → String → Updates → Operator → String → Store → After Response
  update_release_environment project_id environment_id u operator now s =
      as_manager project_id operator s (λ project s0.
        and_then (update_environment ids get_project project_id environment_id u now s0) (λ t found.
          elim found [
            | none ↦ (t, err environment_not_found)
            | some e ↦ (
              record_event ids project_id "release.environment_updated"
                  (String.◌++◌ e.name " environment updated") "" "info" (some environment_id) now t,
              ok (environment_updated e),
            )
          ]))

  unfoldable pub update_release_policy :
      String → Changes → Operator → String → Store → After Response
  update_release_policy project_id c operator now s =
      as_manager project_id operator s (λ project s0.
        and_then (update_policy ids get_project project_id c now s0) (λ t p. (
          record_event ids project_id "release.policy_updated" "Release policy updated" "" "info"
              none now t,
          ok (policy_updated p),
        )))

  unfoldable pub upsert_release_team_member :
      String → String → String → String → Operator → String → Store → After Response
  upsert_release_team_member project_id email display_name role operator now s =
      as_manager project_id operator s (λ project s0.
        and_then (upsert_team_member ids project_id email display_name role now s0) (λ t m. (
          record_event ids project_id "access.member_upserted"
              (String.◌++◌ "Project role set for " m.email) "" "info" none now t,
          ok (member_set m),
        )))

  unfoldable pub remove_release_team_member :
      String → String → Operator → String → Store → After Response
  remove_release_team_member project_id member_id operator now s =
      as_manager project_id operator s (λ project s0.
        let (t, removed) = remove_team_member project_id member_id s0 in
        if removed
        then (
          record_event ids project_id "access.member_removed" "Project member removed" "" "warning"
              none now t,
          ok member_removed,
        )
        else (t, err member_not_found))

  unfoldable pub request_release_approval :
      String → String → String → Operator → String → Store → After Response
  request_release_approval project_id environment_id note operator now s =
      as_manager project_id operator s (λ project s0.
        and_then
          (request_approval ids get_project project_id environment_id (release_actor operator) note
            now s0)
          (λ t row. (t, ok (approval_requested row))))

  unfoldable pub decide_release_approval :
      String → String → Bool → String → Operator → String → Store → After Response
  decide_release_approval project_id approval_id approve note operator now s =
      elim (get_project project_id) [
        | none ↦ (s, err project_not_found)
        | some project ↦
            if not (release_can_approve project_id operator s)
            then (s, err not_an_approver)
            else let (t, found) =
                decide_approval ids project_id approval_id (release_actor operator) approve note now
                  s in
              elim found [
                | none ↦ (t, err approval_not_found)
                | some row ↦ (t, ok (approval_decided row))
              ]
      ]

  unfoldable pub verify_release_restore_point :
      (String → Bool) → String → String → Operator → String → Store → After Response
  verify_release_restore_point is_file project_id id operator now s =
      as_manager project_id operator s (λ project s0.
        and_then (verify_restore_point ids get_project is_file project_id id now s0) (λ t found.
          elim found [
            | none ↦ (t, err restore_point_not_found)
            | some p ↦ (t, ok (restore_point_verified p))
          ]))

  unfoldable pub start_release_preview :
      String → Answer → Operator → String → Store → After Response
  start_release_preview project_id answer operator now s =
      as_manager project_id operator s (λ project s0.
        and_then (get_policy ids get_project project_id now s0) (λ t policy.
          let u =
            record_event ids project_id
              (if answer.accepted then "release.preview_started" else "release.preview_failed")
              (if answer.accepted
                then "Preview deployment started"
                else "Preview deployment failed")
              answer.message (if answer.accepted then "success" else "danger") none now t in
          if not policy.preview_enabled
          then (t, err previews_disabled)
          else if answer.accepted
          then (u, ok preview_started)
          else (u, err (failed answer.message))))
