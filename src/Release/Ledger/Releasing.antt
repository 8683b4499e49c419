-- ===== src/Release/Ledger/Releasing.antt =====
-- The handlers that release and grant.
use Prim.Native.String
use sarra.Common.{
  ℕ, ◌≡◌, refl, sym, ap, ◌∙◌, String, Bool, true, false, not, Option, some, any, ◌&&◌, arith, inl,
  inr, Bool-cases, str_eq, eq_iff,
}
use mathlib.Core.Path.{subst}
use sarra.Release.{
  Project, Environment, Store, Error, Result, ok, err, After, and_then, record_event,
}
use sarra.Release.Environments.{find, is_environment, ensure_release_project, get_environment}
use sarra.Release.Approvals.{
  is_open, has_approved_release, request_approval, decide_approval, consume_approved_release,
}
use sarra.Release.Policies.{get_policy}
use sarra.Release.Team.{Operator, release_can_approve, release_actor}
use sarra.Release.Handlers.{Response, Answer, request_release_approval, decide_release_approval}
use sarra.Release.Deploy.{
  is_preview, note_commit, release_queued, release_environment, release_deploy,
}
use sarra.Release.Ledger.Keeps
use sarra.Release.Ledger.Changes.{Balanced, Keeps-Balanced}
use sarra.Release.Ledger.Decisions.{granted_by, decide_approval-Balanced, consume-Balanced}
use sarra.Release.Ledger.Fair.{
  releases, granted, Quiet, Fair, Fair-then, option_after, if_after, Fair-of, Quiet-Fair,
  Balanced-Quiet, as_manager-Fair, request_approval-Quiet, find-passes,
}
use sarra.Release.Ledger.Quietly.{event-Quiet, preview-Fair}

allowed : {a b : Bool} → a ≡ true → (a && not b) ≡ false → b ≡ true
allowed {a} {b} h k = ground arith

found_by :
    (r : After Unit) (q f : String) (t : Store) (environment : Environment)
    → and_then r (λ u x. (u, ok (find (is_environment q f) u.environments)))
      ≡ (t, ok (some environment))
    → environment.project_id ≡ q
found_by (u, err x) q f t environment h = ground arith
found_by (u, ok x) q f t environment h =
    let k : find (is_environment q f) u.environments ≡ some environment = ground arith in
    let m = find-passes (is_environment q f) u.environments environment k in
    ground (arith, m, eq_iff environment.project_id q)

found_in :
    (ids : ℕ → String) (get_project : String → Option Project) (q f now : String) (s t : Store)
    (environment : Environment)
    → get_environment ids get_project q f now s ≡ (t, ok (some environment))
    → environment.project_id ≡ q
unfolding get_environment
found_in ids get_project q f now s t environment h =
    found_by (ensure_release_project ids get_project q now s) q f t environment h

module _ (ids : ℕ → String) (p e : String) where
  -- A release whose environment is open, if it is protected
  release_queued-Fair :
      (environment : Environment) (answer : Answer) (now : String) (s : Store)
      → (environment.require_approval ≡ true
          → has_approved_release environment.project_id environment.id s ≡ true)
      → Fair ids p e false s (release_queued ids environment.project_id environment answer now s)
  unfolding release_queued Fair
  release_queued-Fair environment answer now s gate =
      let q = environment.project_id in
      let same : Quiet ids p e s s = Keeps-Balanced ids p e s s (Keeps.Keeps-refl s) in
      elim (Bool-cases answer.accepted) [
        | inr n ↦ rw n same
        | inl y ↦ rw y (elim (Bool-cases environment.require_approval) [
          | inr n ↦ rw n (event-Quiet ids p e q _ _ _ _ _ now s s same)
          | inl r ↦
              let t = (consume_approved_release ids q environment.id now s).0 in
              let u =
                record_event ids q "release.queued" (String.◌++◌ environment.name " release queued")
                  answer.message "info" (some environment.id) now t in
              rw r (
                Balanced-Quiet ids p e s t u _ 0
                  (consume-Balanced ids p e q environment.id now s (gate r))
                  (event-Quiet ids p e q _ _ _ _ _ now t t
                    (Keeps-Balanced ids p e t t (Keeps.Keeps-refl t))))
        ])
      ]

  answered :
      (approve : Bool) (s : Store) (x : Result Response) (t : Store) (n : ℕ)
      → releases p e x ≡ 0
      → n ≡ granted p e approve x
      → Balanced ids p e s t 0 n
      → Fair ids p e approve s (t, x)
  unfolding Fair
  answered approve s x t n q h b = rw (q, sym h) b

  module _ (get_project : String → Option Project) where
    pub decide-Fair :
        (q id : String) (approve : Bool) (note : String) (operator : Operator) (now : String)
        (s : Store)
        → Fair ids p e approve s
            (decide_release_approval ids get_project q id approve note operator now s)
    unfolding decide_release_approval
    decide-Fair q id approve note operator now s =
        let still : (x : Error) → Fair ids p e approve s (s, err x) = λ x.
          Fair-of ids p e approve s s (err x) refl refl
            (Keeps-Balanced ids p e s s (Keeps.Keeps-refl s)) in
        let r = decide_approval ids q id (release_actor operator) approve note now s in
        let balance =
          decide_approval-Balanced ids p e q id (release_actor operator) approve note now s in
        option_after ids p e (Fair ids p e approve s) (get_project q) _ _ (λ n. still _)
          (λ project m.
            if_after ids p e (Fair ids p e approve s) (not (release_can_approve q operator s)) _ _
              (λ n. still _)
              (λ n.
                option_after ids p e (Fair ids p e approve s) r.1 _ _
                  (λ h. answered approve s _ r.0 _ refl (ap (granted_by p e approve) h) balance)
                  (λ row h.
                    answered approve s _ r.0 _ refl (ap (granted_by p e approve) h) balance)))

    module _ (injective : (i j : ℕ) → ids i ≡ ids j → i ≡ j) where
      pub ask-Fair :
          (q f note : String) (operator : Operator) (now : String) (s : Store)
          → Fair ids p e false s (request_release_approval ids get_project q f note operator now s)
      unfolding request_release_approval
      ask-Fair q f note operator now s =
          as_manager-Fair ids p e get_project false q operator s _ (λ project.
            Fair-then ids p e false s
              (request_approval ids get_project q f (release_actor operator) note now s) _
              (request_approval-Quiet ids p e get_project injective q f (release_actor operator)
                note now s)
              (λ t row k h. Fair-of ids p e false s _ _ refl refl h))

      release_environment-Fair :
          (project : Project) (environment : Environment) (answer : Answer) (operator : Operator)
          (now : String) (s : Store)
          → Fair ids p e false s (
              release_environment ids get_project environment.project_id project environment answer
                operator now s)
      unfolding release_environment has_approved_release
      release_environment-Fair project environment answer operator now s =
          let q = environment.project_id in
          let t = note_commit ids q project environment now s in
          let kept = Keeps.Keeps-note_commit ids q project environment now s in
          if_after ids p e (Fair ids p e false s)
            (environment.require_approval && not (has_approved_release q environment.id s)) _ _
            (λ n.
              Fair-then ids p e false s
                (request_approval ids get_project q environment.id (release_actor operator)
                  "Automatic request from protected release action." now s)
                _
                (request_approval-Quiet ids p e get_project injective q environment.id
                  (release_actor operator) _ now s)
                (λ u row k h. Fair-of ids p e false s _ _ refl refl h))
            (λ gate.
              if_after ids p e (Fair ids p e false s)
                (not (str_eq environment.branch project.branch)) _ _
                (λ n.
                  Fair-of ids p e false s s _ refl refl
                    (Keeps-Balanced ids p e s s (Keeps.Keeps-refl s)))
                (λ n. Quiet-Fair ids p e false s t _ (Keeps-Balanced ids p e s t kept) (
                  release_queued-Fair environment answer now t
                    (λ r. ap (any (is_open q environment.id)) kept.0 ∙ allowed r gate))))

      pub deploy-Fair :
          (q f : String) (answer : Answer) (operator : Operator) (now : String) (s : Store)
          → Fair ids p e false s (release_deploy ids get_project q f answer operator now s)
      unfolding release_deploy
      deploy-Fair q f answer operator now s =
          as_manager-Fair ids p e get_project false q operator s _ (λ project.
            Fair-then ids p e false s (get_environment ids get_project q f now s) _
              (Keeps-Balanced ids p e s (get_environment ids get_project q f now s).0
                (Keeps.Keeps-get_environment ids get_project q f now s))
              (λ t found k h.
                option_after ids p e (Fair ids p e false s) found _ _
                  (λ n. Fair-of ids p e false s t _ refl refl h)
                  (λ environment m. Quiet-Fair ids p e false s t _ h (
                    Fair-then ids p e false t (get_policy ids get_project q now t) _
                      (Keeps-Balanced ids p e t (get_policy ids get_project q now t).0
                        (Keeps.Keeps-get_policy ids get_project q now t))
                      (λ u policy l i. Quiet-Fair ids p e false t u _ i (
                        if_after ids p e (Fair ids p e false u) (is_preview environment.kind) _ _
                          (λ n. preview-Fair ids p e get_project q answer operator now u)
                          (λ n.
                            subst
                              (λ q. Fair ids p e false u (
                                release_environment ids get_project q project environment answer
                                  operator now u))
                              (found_in ids get_project q f now s t environment
                                (k ∙ ap (λ o. (t, ok o)) m))
                              (release_environment-Fair project environment answer operator now
                                u))))))))
