-- ===== src/Release/Tests.antt =====
-- Releases, members and policies of a small project.
use sarra.Common.{
  ℕ, zero, suc, ◌+◌, ◌≤◌, ◌<◌, ◌≡◌, ◌≢◌, refl, ap, String, Bool, true, false, Option, some, List,
  [], ◌∷◌, length, All, arith,
}
use sarra.Common.Strings.{strip, lstrip, rstrip, lower, translate}
use sarra.Release.{
  production, approved, Project, Environment, Member, pos, Store, ok, err, record_event,
}
use sarra.Release.Environments.{
  insert_policy, insert_environment, insert_defaults, ensure_release_project, get_environment,
}
use sarra.Release.Approvals.{
  latest, decided, marked_consumed, has_approved_release, insert_approval, request_approval,
  record_decision, decide_approval, consume_row, consume_approved_release,
}
use sarra.Release.Policies.{Changes, no_changes, get_policy}
use sarra.Release.Team.{
  Operator, release_actor, is_allowed, list_team_members, release_can_manage, release_can_approve,
  upsert_team_member,
}
use sarra.Release.Team.Roles.{IsLowered, upsert_team_member_lem}
use sarra.Release.Restore.{create_restore_point}
use sarra.Release.Handlers.{Answer, as_manager, decide_release_approval}
use sarra.Release.Deploy.{note_commit, release_queued, release_environment, release_deploy}
use sarra.Release.Requests.{Request, deploy, decide, serve, run, results}
use sarra.Release.Ledger.Changes.{consumed_in, open_in, Numbered}
use sarra.Release.Ledger.Balance.{releases_in, grants_in, run_balanced}

abbrev ids : ℕ → String
ids zero = "i"
ids (suc n) = String.◌∷◌ "x" (ids n)

abbrev rest_of : String → String
rest_of String.[] = String.[]
rest_of (String.◌∷◌ c s) = s

abbrev is_nil : String → Bool
is_nil String.[] = true
is_nil (String.◌∷◌ c s) = false

ids_last : (n : ℕ) → is_nil (ids n) ≡ false
ids_last zero = refl
ids_last (suc n) = refl

ids_injective : (i j : ℕ) → ids i ≡ ids j → i ≡ j
ids_injective zero zero h = refl
ids_injective zero (suc j) h = absurd (ground (arith, ap (λ s. is_nil (rest_of s)) h, ids_last j))
ids_injective (suc i) zero h = absurd (ground (arith, ap (λ s. is_nil (rest_of s)) h, ids_last i))
ids_injective (suc i) (suc j) h = ap suc (ids_injective i j (ap rest_of h))

abbrev get_project : String → Option Project
get_project project_id = some (record {
  branch = "main";
  domain = "example.org";
  preview_domain = "";
  auto_deploy = false;
  last_deployed_commit = "0123456789abcdef";
})

abbrev empty : Store
empty = record {
  issued = 0;
  environments = [];
  approvals = [];
  policies = [];
  members = [];
  restore_points = [];
  events = [];
}

abbrev ada : Operator
ada = record { email = " Ada@example.org"; id = "1"; auth = "" }

abbrev accepted : Answer
accepted = record { accepted = true; message = "queued" }

-- A release that asks for approval, its approval, and the release again, twice
abbrev requests : List (Request × Operator × String)
requests =
    (deploy "p" "i" accepted, ada, "t1")
    ∷ (decide "p" "xxxxxxxxxi" true "", ada, "t2")
    ∷ (deploy "p" "i" accepted, ada, "t3")
    ∷ (deploy "p" "i" accepted, ada, "t4")
    ∷ []

run_balanced_example :
    Numbered ids (run ids get_project requests empty)
    × (consumed_in "p" "i" (run ids get_project requests empty)
        ≡ consumed_in "p" "i" empty + releases_in "p" "i" (results ids get_project requests empty))
    × (open_in "p" "i" (run ids get_project requests empty)
          + consumed_in "p" "i" (run ids get_project requests empty)
        ≤ open_in "p" "i" empty
          + consumed_in "p" "i" empty
          + grants_in "p" "i" (results ids get_project requests empty))
run_balanced_example = run_balanced ids get_project ids_injective "p" "i" requests empty (tt, tt)

one_release : releases_in "p" "i" (results ids get_project requests empty) ≡ 1
unfolding results serve release_deploy as_manager decide_release_approval release_can_manage
    release_can_approve is_allowed get_environment ensure_release_project insert_defaults
    insert_environment insert_policy get_policy release_environment has_approved_release
    request_approval insert_approval record_event decide_approval record_decision decided
    release_queued note_commit create_restore_point consume_approved_release consume_row
    marked_consumed latest strip lstrip rstrip lower translate release_actor
one_release = refl

-- Two calls that passed the gate on the same approval, before either consumed it
abbrev production_environment : Environment
production_environment = record {
  id = "i";
  project_id = "p";
  name = "Production";
  kind = production;
  branch = "main";
  domain = "";
  auto_deploy = false;
  require_approval = true;
  created_at = "t0";
  updated_at = "t0";
}

abbrev one_approval : Store
one_approval = record empty {
  issued = 1;
  approvals =
      (record {
        id = "a";
        project_id = "p";
        environment_id = "i";
        requested_by = "ada";
        status = approved;
        approved_by = "ada";
        note = "";
        created_at = "t0";
        decided_at = some "t1";
      })
      ∷ [];
}

abbrev released_with : Store → Store × Bool
released_with s =
    let (t, r) = release_queued ids "p" production_environment accepted "t2" s in
    (t, elim r [ ok a ↦ true | err e ↦ false ])

two_for_one :
    (has_approved_release "p" "i" one_approval ≡ true)
    × ((released_with one_approval).1 ≡ true)
    × ((released_with (released_with one_approval).0).1 ≡ true)
    × (consumed_in "p" "i" (released_with (released_with one_approval).0).0 ≡ 1)
unfolding has_approved_release release_queued consume_approved_release consume_row marked_consumed
    latest record_event
two_for_one = (refl, refl, refl, refl)

abbrev bob : Member
bob = record {
  id = "m";
  project_id = "p";
  email = "bob@example.org";
  display_name = "Bob";
  role = "deployer";
  created_at = "t0";
  updated_at = "t0";
}

abbrev with_bob : Store
with_bob = record empty { members = bob ∷ [] }

abbrev bob_acting : Operator
bob_acting = record { email = "Bob@example.org"; id = ""; auth = "" }

-- A deployer who may not approve
deployer_manages :
    (release_can_manage "p" bob_acting with_bob ≡ true)
    × (release_can_approve "p" bob_acting with_bob ≡ false)
unfolding release_can_manage release_can_approve is_allowed release_actor strip lstrip rstrip lower
    translate
deployer_manages = (refl, refl)

upsert_team_member_lem_example :
    All IsLowered
      (upsert_team_member ids "p" "Bob@example.org" "Bob" "owner" "t1" with_bob).0.members
    × ((test : String → Bool) (operator : Operator)
        → lower (release_actor operator) ≡ lower (strip "Bob@example.org")
        → is_allowed test "p" operator
            (upsert_team_member ids "p" "Bob@example.org" "Bob" "owner" "t1" with_bob).0
          ≡ test "owner")
    × ((test : String → Bool) (operator : Operator)
        → lower (release_actor operator) ≢ lower (strip "Bob@example.org")
        → 0 < length (list_team_members "p" with_bob)
        → is_allowed test "p" operator
            (upsert_team_member ids "p" "Bob@example.org" "Bob" "owner" "t1" with_bob).0
          ≡ is_allowed test "p" operator with_bob)
unfolding lower translate strip lstrip rstrip
upsert_team_member_lem_example =
    upsert_team_member_lem ids "p" "Bob@example.org" "Bob" "owner" "t1" with_bob (refl, tt) refl
      refl

abbrev canary_of : ℕ → Changes
canary_of n = record no_changes { canary_percent = some (pos n) }
