-- ===== src/Release/Ledger/Quietly.antt =====
-- The handlers that neither release nor grant anything.
use sarra.Common.{ℕ, refl, String, Bool, false, not, Option}
use sarra.Release.{Project, Store, record_event}
use sarra.Release.Environments.{Updates, update_environment}
use sarra.Release.Policies.{Changes, get_policy, update_policy}
use sarra.Release.Team.{Operator, upsert_team_member, remove_team_member}
use sarra.Release.Restore.{verify_restore_point}
use sarra.Release.Handlers.{
  Answer, update_release_environment, update_release_policy, upsert_release_team_member,
  remove_release_team_member, verify_release_restore_point, start_release_preview,
}
use sarra.Release.Ledger.Keeps
use sarra.Release.Ledger.Keeps.{Keeps}
use sarra.Release.Ledger.Changes.{Keeps-Balanced}
use sarra.Release.Ledger.Fair.{
  Quiet, Fair, Fair-then, option_after, if_after, Fair-of, Balanced-Quiet, as_manager-Fair,
}

module _ (ids : ℕ → String) (p e : String) where
  pub event-Quiet :
      (q type title detail severity : String) (f : Option String) (now : String) (s t : Store)
      → Quiet ids p e s t
      → Quiet ids p e s (record_event ids q type title detail severity f now t)
  event-Quiet q type title detail severity f now s t h =
      let u = record_event ids q type title detail severity f now t in
      Balanced-Quiet ids p e s t u 0 0 h (
        Keeps-Balanced ids p e t u (
          Keeps.Keeps-record_event ids q type title detail severity f now t t (Keeps.Keeps-refl t)))

  module _ (get_project : String → Option Project) where
    pub set_environment-Fair :
        (q f : String) (u : Updates) (operator : Operator) (now : String) (s : Store)
        → Fair ids p e false s (update_release_environment ids get_project q f u operator now s)
    unfolding update_release_environment
    set_environment-Fair q f u operator now s =
        as_manager-Fair ids p e get_project false q operator s _ (λ project.
          Fair-then ids p e false s (update_environment ids get_project q f u now s) _
            (Keeps-Balanced ids p e s (update_environment ids get_project q f u now s).0
              (Keeps.Keeps-update_environment ids get_project q f u now s))
            (λ t found k h.
              option_after ids p e (Fair ids p e false s) found _ _
                (λ n. Fair-of ids p e false s _ _ refl refl h)
                (λ a m. Fair-of ids p e false s _ _ refl refl (event-Quiet q _ _ _ _ _ now s t h))))

    pub set_policy-Fair :
        (q : String) (c : Changes) (operator : Operator) (now : String) (s : Store)
        → Fair ids p e false s (update_release_policy ids get_project q c operator now s)
    unfolding update_release_policy
    set_policy-Fair q c operator now s =
        as_manager-Fair ids p e get_project false q operator s _ (λ project.
          Fair-then ids p e false s (update_policy ids get_project q c now s) _
            (Keeps-Balanced ids p e s (update_policy ids get_project q c now s).0
              (Keeps.Keeps-update_policy ids get_project q c now s))
            (λ t found k h.
              Fair-of ids p e false s _ _ refl refl (event-Quiet q _ _ _ _ _ now s t h)))

    pub set_member-Fair :
        (q email name role : String) (operator : Operator) (now : String) (s : Store)
        → Fair ids p e false s
            (upsert_release_team_member ids get_project q email name role operator now s)
    unfolding upsert_release_team_member
    set_member-Fair q email name role operator now s =
        as_manager-Fair ids p e get_project false q operator s _ (λ project.
          Fair-then ids p e false s (upsert_team_member ids q email name role now s) _
            (Keeps-Balanced ids p e s (upsert_team_member ids q email name role now s).0
              (Keeps.Keeps-upsert_team_member ids q email name role now s))
            (λ t found k h.
              Fair-of ids p e false s _ _ refl refl (event-Quiet q _ _ _ _ _ now s t h)))

    pub drop_member-Fair :
        (q id : String) (operator : Operator) (now : String) (s : Store)
        → Fair ids p e false s (remove_release_team_member ids get_project q id operator now s)
    unfolding remove_release_team_member
    drop_member-Fair q id operator now s =
        as_manager-Fair ids p e get_project false q operator s _ (λ project.
          let h =
            Keeps-Balanced ids p e s (remove_team_member q id s).0
              (Keeps.Keeps-remove_team_member q id s) in
          if_after ids p e (Fair ids p e false s) (remove_team_member q id s).1 _ _
            (λ t.
              Fair-of ids p e false s _ _ refl refl
                (event-Quiet q _ _ _ _ _ now s (remove_team_member q id s).0 h))
            (λ t. Fair-of ids p e false s _ _ refl refl h))

    pub verify-Fair :
        (is_file : String → Bool) (q id : String) (operator : Operator) (now : String) (s : Store)
        → Fair ids p e false s
            (verify_release_restore_point ids get_project is_file q id operator now s)
    unfolding verify_release_restore_point
    verify-Fair is_file q id operator now s =
        as_manager-Fair ids p e get_project false q operator s _ (λ project.
          Fair-then ids p e false s (verify_restore_point ids get_project is_file q id now s) _
            (Keeps-Balanced ids p e s (verify_restore_point ids get_project is_file q id now s).0
              (Keeps.Keeps-verify_restore_point ids get_project is_file q id now s))
            (λ t found k h.
              option_after ids p e (Fair ids p e false s) found _ _
                (λ n. Fair-of ids p e false s _ _ refl refl h)
                (λ a m. Fair-of ids p e false s _ _ refl refl h)))

    pub preview-Fair :
        (q : String) (answer : Answer) (operator : Operator) (now : String) (s : Store)
        → Fair ids p e false s (start_release_preview ids get_project q answer operator now s)
    unfolding start_release_preview
    preview-Fair q answer operator now s =
        as_manager-Fair ids p e get_project false q operator s _ (λ project.
          Fair-then ids p e false s (get_policy ids get_project q now s) _
            (Keeps-Balanced ids p e s (get_policy ids get_project q now s).0
              (Keeps.Keeps-get_policy ids get_project q now s))
            (λ t policy k h.
              if_after ids p e (Fair ids p e false s) (not policy.preview_enabled) _ _
                (λ m. Fair-of ids p e false s _ _ refl refl h)
                (λ m.
                  if_after ids p e (Fair ids p e false s) answer.accepted _ _
                    (λ n. Fair-of ids p e false s _ _ refl refl (event-Quiet q _ _ _ _ _ now s t h))
                    (λ n.
                      Fair-of ids p e false s _ _ refl refl (event-Quiet q _ _ _ _ _ now s t h)))))
