-- ===== src/Release/Ledger/Keeps.antt =====
-- The operations that leave the approvals as they are.
use sarra.Common.{
  ℕ, ◌≤◌, ◌≡◌, refl, ◌∙◌, String, Bool, true, false, Option, none, some, List, map, arith,
  if◌then◌else◌,
}
use sarra.Release.{Project, Environment, Policy, Store, ok, err, After, and_then, record_event}
use sarra.Release.Environments.{
  Updates, find, insert_policy, insert_environment, insert_defaults, ensure_release_project,
  get_environment, update_environment,
}
use sarra.Release.Policies.{Changes, violation, changed, has_changes, get_policy, update_policy}
use sarra.Release.Team.{upsert_team_member, remove_team_member}
use sarra.Release.Restore.{is_point, create_restore_point, verify_restore_point}
use sarra.Release.Deploy.{note_commit}

abbrev pub Keeps : Store → Store → Type 0
Keeps s t = (t.approvals ≡ s.approvals) × (s.issued ≤ t.issued)

pub Keeps-refl : (s : Store) → Keeps s s
Keeps-refl s = (refl, omega arith)

pub Keeps-trans : (s t u : Store) → Keeps s t → Keeps t u → Keeps s u
Keeps-trans s t u (e, h) (f, k) = (f ∙ e, omega arith)

pub Keeps-and_then :
    {A B : Type 0} (s : Store) (r : After A) (f : Store → A → After B)
    → Keeps s r.0
    → ((t : Store) (a : A) → Keeps s t → Keeps s (f t a).0)
    → Keeps s (and_then r f).0
Keeps-and_then s (t, ok a) f k h = h t a k
Keeps-and_then s (t, err e) f k h = k

pub Keeps-if :
    {A : Type 0} (s : Store) (test : Bool) (x y : Store × A)
    → Keeps s x.0
    → Keeps s y.0
    → Keeps s (if test then x else y).0
Keeps-if s true x y h k = h
Keeps-if s false x y h k = k

pub Keeps-option :
    {A B : Type 0} (s : Store) (o : Option A) (x : Store × B) (f : A → Store × B)
    → Keeps s x.0
    → ((a : A) → Keeps s (f a).0)
    → Keeps s (elim o as (λ k. Store × B) [ none ↦ x | some a ↦ f a ]).0
Keeps-option s none x f h k = h
Keeps-option s (some a) x f h k = k a

Keeps-policies :
    (s t : Store) (b : Bool) (x : List Policy)
    → Keeps s t
    → Keeps s (if b then record t { policies = x } else t)
Keeps-policies s t true x k = k
Keeps-policies s t false x k = k

module _ (ids : ℕ → String) where
  pub Keeps-record_event :
      (p type title detail severity : String) (e : Option String) (now : String) (s t : Store)
      → Keeps s t
      → Keeps s (record_event ids p type title detail severity e now t)
  unfolding record_event
  Keeps-record_event p type title detail severity e now s t (k, h) = (k, omega arith)

  Keeps-insert_defaults :
      (p now : String) (project : Project) (s : Store)
      → Keeps s (insert_defaults ids p now project s)
  unfolding insert_defaults insert_environment insert_policy
  Keeps-insert_defaults p now project s = ground arith

  module _ (get_project : String → Option Project) where
    Keeps-ensure :
        (p now : String) (s : Store) → Keeps s (ensure_release_project ids get_project p now s).0
    unfolding ensure_release_project
    Keeps-ensure p now s =
        Keeps-option s (get_project p) _ _ (Keeps-refl s)
          (λ project. Keeps-insert_defaults p now project s)

    pub Keeps-get_environment :
        (p e now : String) (s : Store) → Keeps s (get_environment ids get_project p e now s).0
    unfolding get_environment
    Keeps-get_environment p e now s =
        Keeps-and_then s (ensure_release_project ids get_project p now s) _ (Keeps-ensure p now s)
          (λ t a k. k)

    pub Keeps-update_environment :
        (p e : String) (u : Updates) (now : String) (s : Store)
        → Keeps s (update_environment ids get_project p e u now s).0
    unfolding update_environment
    Keeps-update_environment p e u now s =
        Keeps-if s _ _ _ (Keeps-get_environment p e now s) (Keeps-get_environment p e now _)

    pub Keeps-get_policy :
        (p now : String) (s : Store) → Keeps s (get_policy ids get_project p now s).0
    unfolding get_policy
    Keeps-get_policy p now s =
        Keeps-and_then s (ensure_release_project ids get_project p now s) _ (Keeps-ensure p now s)
          (λ t a k. k)

    pub Keeps-update_policy :
        (p : String) (c : Changes) (now : String) (s : Store)
        → Keeps s (update_policy ids get_project p c now s).0
    unfolding update_policy
    Keeps-update_policy p c now s =
        Keeps-and_then s (ensure_release_project ids get_project p now s) _ (Keeps-ensure p now s)
          (λ t a k.
            Keeps-option s (violation c) _ _
              (let u : Store =
                  if has_changes c
                  then record t { policies = map (changed p c now) t.policies }
                  else t in
                Keeps-trans s u (get_policy ids get_project p now u).0
                  (Keeps-policies s t (has_changes c) (map (changed p c now) t.policies) k)
                  (Keeps-get_policy p now u))
              (λ e. k))

    pub Keeps-verify_restore_point :
        (is_file : String → Bool) (p id now : String) (s : Store)
        → Keeps s (verify_restore_point ids get_project is_file p id now s).0
    unfolding verify_restore_point
    Keeps-verify_restore_point is_file p id now s =
        Keeps-option s (find (is_point p id) s.restore_points) _ _ (Keeps-refl s) (λ point.
          Keeps-if s _ _ _ (Keeps-refl s) (
            Keeps-and_then s (update_policy ids get_project p _ now _) _
              (Keeps-update_policy p _ now _) (λ t a k. Keeps-record_event p _ _ _ _ _ now s t k)))

  pub Keeps-create_restore_point :
      (p label source artifact now : String) (s : Store)
      → Keeps s (create_restore_point ids p label source artifact now s).0
  unfolding create_restore_point record_event
  Keeps-create_restore_point p label source artifact now s = (refl, omega arith)

  pub Keeps-note_commit :
      (p : String) (project : Project) (environment : Environment) (now : String) (s : Store)
      → Keeps s (note_commit ids p project environment now s)
  unfolding note_commit create_restore_point record_event
  Keeps-note_commit p project environment now s = ground arith

  pub Keeps-upsert_team_member :
      (p email name role now : String) (s : Store)
      → Keeps s (upsert_team_member ids p email name role now s).0
  unfolding upsert_team_member
  Keeps-upsert_team_member p email name role now s = ground arith

pub Keeps-remove_team_member : (p id : String) (s : Store) → Keeps s (remove_team_member p id s).0
unfolding remove_team_member
Keeps-remove_team_member p id s = (refl, omega arith)
