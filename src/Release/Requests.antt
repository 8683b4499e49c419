-- ===== src/Release/Requests.antt =====
-- Requests to the release handlers, served one at a time, each at its own time.
use sarra.Common.{ℕ, String, Bool, Option, List, [], ◌∷◌}
use sarra.Release.{Project, Store, Result, After}
use sarra.Release.Environments.{Updates}
use sarra.Release.Policies.{Changes}
use sarra.Release.Team.{Operator}
use sarra.Release.Handlers.{
  Response, Answer, update_release_environment, update_release_policy, upsert_release_team_member,
  remove_release_team_member, request_release_approval, decide_release_approval,
  verify_release_restore_point,
}
use sarra.Release.Deploy.{release_deploy}

-- The project comes first, then the path and the body.
pub data Request : Type 0 where
  set_environment : String → String → Updates → Request
  set_policy : String → Changes → Request
  set_member : String → String → String → String → Request
  drop_member : String → String → Request
  ask : String → String → String → Request
  decide : String → String → Bool → String → Request
  verify : (String → Bool) → String → String → Request
  deploy : String → String → Answer → Request

unfoldable pub serve :
    (ℕ → String) → (String → Option Project) → Request → Operator → String → Store → After Response
serve ids get_project (set_environment p e u) = update_release_environment ids get_project p e u
serve ids get_project (set_policy p c) = update_release_policy ids get_project p c
serve ids get_project (set_member p email name role) =
    upsert_release_team_member ids get_project p email name role
serve ids get_project (drop_member p m) = remove_release_team_member ids get_project p m
serve ids get_project (ask p e note) = request_release_approval ids get_project p e note
serve ids get_project (decide p a approve note) =
    decide_release_approval ids get_project p a approve note
serve ids get_project (verify is_file p r) =
    verify_release_restore_point ids get_project is_file p r
serve ids get_project (deploy p e answer) = release_deploy ids get_project p e answer

-- The store after the requests
unfoldable pub run :
    (ℕ → String) → (String → Option Project) → List (Request × Operator × String) → Store → Store
run ids get_project [] s = s
run ids get_project ((r, operator, now) ∷ rest) s =
    run ids get_project rest (serve ids get_project r operator now s).0

-- The requests with their results
unfoldable pub results :
    (ℕ → String)
    → (String → Option Project)
    → List (Request × Operator × String)
    → Store
    → List (Request × Result Response)
results ids get_project [] s = []
results ids get_project ((r, operator, now) ∷ rest) s =
    let (t, result) = serve ids get_project r operator now s in
    (r, result) ∷ results ids get_project rest t
