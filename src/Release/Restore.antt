-- ===== src/Release/Restore.antt =====
-- Recovery points: recorded before a release, and verified against the artifact they name. Whether
-- that file is there is an argument.
use sarra.Common.{
  ℕ, ◌+◌, String, Bool, not, Option, none, some, [], ◌∷◌, ◌++◌, map, str_eq, ◌&&◌, if◌then◌else◌,
}
use sarra.Common.Strings.{strip}
use sarra.Release.{Project, RestorePoint, Store, ok, After, and_then, record_event}
use sarra.Release.Environments.{find, or_text}
use sarra.Release.Policies.{no_changes, update_policy}

unfoldable pub create_restore_point :
    (ℕ → String) → String → String → String → String → String → Store → Store × RestorePoint
create_restore_point ids project_id label source artifact_path now s =
    let row : RestorePoint = record {
      id = ids s.issued;
      project_id = project_id;
      label = or_text (strip label) "Release restore point";
      source = or_text (strip source) "deployment";
      status = "available";
      artifact_path = artifact_path;
      created_at = now;
      verified_at = none;
    } in
    (
      record_event ids project_id "recovery.restore_point_created" "Recovery point recorded"
          row.label "success" none now
          (record s { issued = s.issued + 1; restore_points = s.restore_points ++ (row ∷ []) }),
      row,
    )

abbrev pub is_point : String → String → RestorePoint → Bool
is_point project_id id p = str_eq p.project_id project_id && str_eq p.id id

abbrev missing : RestorePoint → RestorePoint
missing p = record p { status = "missing" }

abbrev verified : String → RestorePoint → RestorePoint
verified now p = record p { status = "verified"; verified_at = some now }

abbrev on_point : String → String → (RestorePoint → RestorePoint) → Store → Store
on_point project_id id change s = record s {
  restore_points = map (λ p. if is_point project_id id p then change p else p) s.restore_points;
}

module _ (ids : ℕ → String) (get_project : String → Option Project) (is_file : String → Bool) where
  unfoldable pub verify_restore_point :
      String → String → String → Store → After (Option RestorePoint)
  verify_restore_point project_id id now s = elim (find (is_point project_id id) s.restore_points) [
    | none ↦ (s, ok none)
    | some point ↦
        if not (str_eq point.artifact_path "") && not (is_file point.artifact_path)
        then (on_point project_id id missing s, ok (some (missing point)))
        else and_then
            (update_policy ids get_project project_id
              (record no_changes { last_restore_check_at = some now }) now
              (on_point project_id id (verified now) s))
            (λ t _. (
              record_event ids project_id "recovery.restore_point_verified"
                  "Recovery point verified" "" "success" none now t,
              ok (some (verified now point)),
            ))
  ]
