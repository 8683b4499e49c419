-- ===== src/Release/Deploy.antt =====
-- `api_release_deploy` of syte/main.py: the gate of a protected environment, the recovery point, the
-- queued deployment and the approval that it consumes.
use Prim.Native.String
use sarra.Common.{
  ℕ, String, Bool, true, false, not, Option, none, some, str_eq, ◌&&◌, if◌then◌else◌,
}
use sarra.Common.Strings.{strip, prefix}
use sarra.Release.{
  Kind, preview, Project, Environment, Store, environment_not_found, branch_differs, failed, ok,
  err, After, and_then, record_event,
}
use sarra.Release.Environments.{get_environment}
use sarra.Release.Approvals.{has_approved_release, request_approval, consume_approved_release}
use sarra.Release.Policies.{get_policy}
use sarra.Release.Team.{Operator, release_actor}
use sarra.Release.Restore.{create_restore_point}
use sarra.Release.Handlers.{
  Response, approval_requested, released, Answer, as_manager, start_release_preview,
}

abbrev pub is_preview : Kind → Bool
is_preview preview = true
is_preview _ = false

unfoldable pub note_commit : (ℕ → String) → String → Project → Environment → String → Store → Store
note_commit ids project_id project environment now s =
    let prior_commit = strip project.last_deployed_commit in
    let label =
      String.◌++◌ "Before "
        (String.◌++◌ environment.name (String.◌++◌ " release · " (prefix 12 prior_commit))) in
    if str_eq prior_commit ""
    then s
    else (create_restore_point ids project_id label (String.◌++◌ "commit:" prior_commit) "" now s).0

-- What follows once `issue_deploy` has answered
unfoldable pub release_queued :
    (ℕ → String) → String → Environment → Answer → String → Store → After Response
release_queued ids project_id environment answer now s =
    let t =
      if environment.require_approval
      then (consume_approved_release ids project_id environment.id now s).0
      else s in
    if answer.accepted
    then (
      record_event ids project_id "release.queued" (String.◌++◌ environment.name " release queued")
          answer.message "info" (some environment.id) now t,
      ok (released environment),
    )
    else (s, err (failed answer.message))

module _ (ids : ℕ → String) (get_project : String → Option Project) where
  unfoldable pub release_environment :
      String → Project → Environment → Answer → Operator → String → Store → After Response
  release_environment project_id project environment answer operator now s =
      if environment.require_approval && not (has_approved_release project_id environment.id s)
      then and_then
          (request_approval ids get_project project_id environment.id (release_actor operator)
            "Automatic request from protected release action." now s)
          (λ t row. (t, ok (approval_requested row)))
      else if not (str_eq environment.branch project.branch)
      then (s, err branch_differs)
      else release_queued ids project_id environment answer now
          (note_commit ids project_id project environment now s)

  unfoldable pub release_deploy :
      String → String → Answer → Operator → String → Store → After Response
  release_deploy project_id environment_id answer operator now s =
      as_manager ids get_project project_id operator s (λ project s0.
        and_then (get_environment ids get_project project_id environment_id now s0) (λ t found.
          elim found [
            | none ↦ (t, err environment_not_found)
            | some e ↦ and_then (get_policy ids get_project project_id now t) (λ u policy.
                if is_preview e.kind
                then start_release_preview ids get_project project_id answer operator now u
                else release_environment project_id project e answer operator now u)
          ]))
