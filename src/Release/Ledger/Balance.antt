-- ===== src/Release/Ledger/Balance.antt =====
-- Runs of the release handlers, against what they released and granted.
use sarra.Common.{ℕ, ◌+◌, ◌≤◌, ◌≡◌, String, Bool, false, Option, List, [], ◌∷◌, arith}
use sarra.Release.{Project, Store, Result}
use sarra.Release.Team.{Operator}
use sarra.Release.Handlers.{Response}
use sarra.Release.Requests.{
  Request, set_environment, set_policy, set_member, drop_member, ask, decide, verify, deploy, serve,
  run, results,
}
use sarra.Release.Ledger.Keeps.{Keeps-refl}
use sarra.Release.Ledger.Changes.{consumed_in, open_in, Numbered, Balanced, Keeps-Balanced}
use sarra.Release.Ledger.Fair.{releases, granted, Fair}
use sarra.Release.Ledger.Quietly.{
  set_environment-Fair, set_policy-Fair, set_member-Fair, drop_member-Fair, verify-Fair,
}
use sarra.Release.Ledger.Releasing.{ask-Fair, decide-Fair, deploy-Fair}

-- Whether a request is a decision that approves
abbrev pub approves : Request → Bool
approves (decide p a approve note) = approve
approves _ = false

-- The releases of a protected environment among the results
abbrev pub releases_in : String → String → List (Request × Result Response) → ℕ
releases_in p e [] = 0
releases_in p e ((r, x) ∷ rest) = releases p e x + releases_in p e rest

-- The approving decisions on its approvals
abbrev pub grants_in : String → String → List (Request × Result Response) → ℕ
grants_in p e [] = 0
grants_in p e ((r, x) ∷ rest) = granted p e (approves r) x + grants_in p e rest

module _ (ids : ℕ → String) (get_project : String → Option Project) where
  module _ (p e : String) (injective : (i j : ℕ) → ids i ≡ ids j → i ≡ j) where
    serve-Fair :
        (r : Request) (operator : Operator) (now : String) (s : Store)
        → Fair ids p e (approves r) s (serve ids get_project r operator now s)
    unfolding serve
    serve-Fair (set_environment q f u) = set_environment-Fair ids p e get_project q f u
    serve-Fair (set_policy q c) = set_policy-Fair ids p e get_project q c
    serve-Fair (set_member q email name role) =
        set_member-Fair ids p e get_project q email name role
    serve-Fair (drop_member q m) = drop_member-Fair ids p e get_project q m
    serve-Fair (ask q f note) = ask-Fair ids p e get_project injective q f note
    serve-Fair (decide q a approve note) = decide-Fair ids p e get_project q a approve note
    serve-Fair (verify is_file q r) = verify-Fair ids p e get_project is_file q r
    serve-Fair (deploy q f answer) = deploy-Fair ids p e get_project injective q f answer

    run-Balanced :
        (requests : List (Request × Operator × String)) (s : Store)
        → Balanced ids p e s
            (run ids get_project requests s)
            (releases_in p e (results ids get_project requests s))
            (grants_in p e (results ids get_project requests s))
    unfolding run results Balanced Fair
    run-Balanced [] s w = Keeps-Balanced ids p e s s (Keeps-refl s) w
    run-Balanced ((r, operator, now) ∷ rest) s w =
        let (x, h, k) = serve-Fair r operator now s w in
        let (y, i, j) = run-Balanced rest (serve ids get_project r operator now s).0 x in
        (y, omega arith, omega arith)

  -- Requests that are served one at a time, by operators of any role, from a store whose approvals
  -- have distinct identifiers of those drawn so far, where `uuid4` never repeats one: for each
  -- project and environment, the approvals consumed are as many more as there were releases of it
  -- while it required approval, and the approvals open or consumed have grown by no more than the
  -- answered decisions that approve one of it. So each release of a protected environment uses up
  -- an approval of its own. The approvals keep distinct identifiers.
  pub run_balanced :
      ((i j : ℕ) → ids i ≡ ids j → i ≡ j)
      → (p e : String) (requests : List (Request × Operator × String)) (s : Store) → Numbered ids s
      → Numbered ids (run ids get_project requests s)
        × (consumed_in p e (run ids get_project requests s)
            ≡ consumed_in p e s + releases_in p e (results ids get_project requests s))
        × (open_in p e (run ids get_project requests s)
              + consumed_in p e (run ids get_project requests s)
            ≤ open_in p e s
              + consumed_in p e s
              + grants_in p e (results ids get_project requests s))
  unfolding Balanced
  run_balanced injective p e requests s w = run-Balanced p e injective requests s w
