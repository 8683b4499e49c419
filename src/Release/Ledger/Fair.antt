-- ===== src/Release/Ledger/Fair.antt =====
-- Results of handlers: what they say was released and granted, and how they compose.
use sarra.Common.{
  ℕ, ◌≡◌, refl, sym, ap, ◌∙◌, String, Bool, true, false, Option, none, some, List, [], ◌∷◌,
  if◌then◌else◌, ◌&&◌, arith, inl, inr, Bool-cases, str_eq,
}
use sarra.Release.{Project, Approval, Store, Error, Result, ok, err, After, and_then}
use sarra.Release.Environments.{find, get_environment}
use sarra.Release.Approvals.{insert_approval, request_approval}
use sarra.Release.Handlers.{Response, released, approval_decided, as_manager}
use sarra.Release.Team.{Operator, release_can_manage}
use sarra.Release.Ledger.{one_if}
use sarra.Release.Ledger.Keeps.{Keeps-get_environment, Keeps-refl}
use sarra.Release.Ledger.Changes.{is_for, Balanced, Keeps-Balanced, insert_approval-Balanced}

-- A release of a protected environment
abbrev pub releases : String → String → Result Response → ℕ
releases p e (ok (released environment)) =
    one_if
      (environment.require_approval && (str_eq environment.project_id p && str_eq environment.id e))
releases p e _ = 0

-- An answer to a decision that approves
abbrev pub granted : String → String → Bool → Result Response → ℕ
granted p e approve (ok (approval_decided row)) = one_if (approve && is_for p e row)
granted p e approve _ = 0

module _ (ids : ℕ → String) (p e : String) where
  abbrev pub Quiet : Store → Store → Type 0
  Quiet s t = Balanced ids p e s t 0 0

  unfoldable pub Fair : Bool → Store → After Response → Type 0
  Fair approve s r = Balanced ids p e s r.0 (releases p e r.1) (granted p e approve r.1)

  pub quiet_then :
      {A B : Type 0} (P : After B → Type 0) (s : Store) (r : After A) (f : Store → A → After B)
      → Quiet s r.0
      → ((t : Store) (x : _) → Quiet s t → P (t, err x))
      → ((t : Store) (a : A) → r ≡ (t, ok a) → Quiet s t → P (f t a))
      → P (and_then r f)
  quiet_then P s (t, ok a) f q h k = k t a refl q
  quiet_then P s (t, err x) f q h k = h t x q

  pub Fair-then :
      {A : Type 0} (approve : Bool) (s : Store) (r : After A) (f : Store → A → After Response)
      → Quiet s r.0
      → ((t : Store) (a : A) → r ≡ (t, ok a) → Quiet s t → Fair approve s (f t a))
      → Fair approve s (and_then r f)
  unfolding Fair
  Fair-then approve s r f q k = quiet_then (Fair approve s) s r f q (λ t x h. h) k

  pub option_after :
      {A B : Type 0} (P : Store × B → Type 0) (o : Option A) (x : Store × B) (f : A → Store × B)
      → (o ≡ none → P x)
      → ((a : A) → o ≡ some a → P (f a))
      → P (elim o as (λ k. Store × B) [ none ↦ x | some a ↦ f a ])
  option_after P none x f h k = h refl
  option_after P (some a) x f h k = k a refl

  pub if_after :
      {B : Type 0} (P : Store × B → Type 0) (test : Bool) (x y : Store × B)
      → (test ≡ true → P x)
      → (test ≡ false → P y)
      → P (if test then x else y)
  if_after P true x y h k = h refl
  if_after P false x y h k = k refl

  pub Fair-of :
      (approve : Bool) (s t : Store) (x : Result Response)
      → releases p e x ≡ 0
      → granted p e approve x ≡ 0
      → Quiet s t
      → Fair approve s (t, x)
  unfolding Fair
  Fair-of approve s t x h k q = rw (h, k) q

  pub Quiet-Fair :
      (approve : Bool) (s t : Store) (r : After Response)
      → Quiet s t
      → Fair approve t r
      → Fair approve s r
  unfolding Fair Balanced
  Quiet-Fair approve s t r q f w =
      let (x, h, k) = q w in let (y, i, j) = f x in (y, omega arith, omega arith)

  pub Balanced-Quiet :
      (s t u : Store) (m n : ℕ) → Balanced ids p e s t m n → Quiet t u → Balanced ids p e s u m n
  unfolding Balanced
  Balanced-Quiet s t u m n b q w =
      let (x, h, k) = b w in let (y, i, j) = q x in (y, omega arith, omega arith)

  module _ (get_project : String → Option Project) where
    pub as_manager-Fair :
        (approve : Bool) (q : String) (operator : Operator) (s : Store)
        (handler : Project → Store → After Response)
        → ((project : Project) → Fair approve s (handler project s))
        → Fair approve s (as_manager ids get_project q operator s handler)
    unfolding as_manager
    as_manager-Fair approve q operator s handler h =
        let still : (x : Error) → Fair approve s (s, err x) =
          λ x. Fair-of approve s s (err x) refl refl (Keeps-Balanced ids p e s s (Keeps-refl s)) in
        option_after (Fair approve s) (get_project q) _ _ (λ n. still _)
          (λ project f.
            if_after (Fair approve s) (release_can_manage q operator s) _ _ (λ t. h project)
              (λ t. still _))

    module _ (injective : (i j : ℕ) → ids i ≡ ids j → i ≡ j) where
      pub request_approval-Quiet :
          (q f by note now : String) (s : Store)
          → Quiet s (request_approval ids get_project q f by note now s).0
      unfolding request_approval
      request_approval-Quiet q f by note now s =
          let P : After Approval → Type 0 = λ r. Quiet s r.0 in
          quiet_then P s (get_environment ids get_project q f now s) _
            (Keeps-Balanced ids p e s (get_environment ids get_project q f now s).0
              (Keeps-get_environment ids get_project q f now s))
            (λ t x h. h)
            (λ t found k h.
              option_after P found _ _ (λ n. h)
                (λ environment m.
                  Balanced-Quiet s t (insert_approval ids q environment by note now t).0 0 0 h
                    (insert_approval-Balanced ids p e injective q environment by note now t)))

pub find-passes :
    {A : Type 0} (test : A → Bool) (xs : List A) (a : A) → find test xs ≡ some a → test a ≡ true
find-passes test [] a h = ground arith
find-passes test (x ∷ xs) a h = elim (Bool-cases (test x)) [
  | inl t ↦ let same : x ≡ a = ground arith in ap test (sym same) ∙ t
  | inr t ↦ find-passes test xs a (ground arith)
]
