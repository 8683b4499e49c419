-- ===== src/Release/Ledger/Changes.antt =====
-- The operations that change approvals, by what they add to the counts of an environment.
use sarra.Common.{
  ℕ, ◌+◌, ◌<◌, ◌≤◌, ◌≡◌, refl, sym, ap, ◌∙◌, String, Bool, true, false, List, [], ◌∷◌, map, All,
  All-append, ◌&&◌, arith, str_eq,
}
use mathlib.Core.Path.{subst}
use sarra.Release.{Status, consumed, Environment, Approval, Store, record_event}
use sarra.Release.Approvals.{is_open, insert_approval}
use sarra.Release.Ledger.{count, Fresh, Distinct, count-append, Distinct-append, Distinct-map}
use sarra.Release.Ledger.Keeps.{Keeps}

abbrev pub is_consumed : Status → Bool
is_consumed consumed = true
is_consumed _ = false

abbrev pub is_for : String → String → Approval → Bool
is_for p e a = str_eq a.project_id p && str_eq a.environment_id e

abbrev pub consumed_of : String → String → Approval → Bool
consumed_of p e a = is_consumed a.status && is_for p e a

abbrev pub consumed_in : String → String → Store → ℕ
consumed_in p e s = count (consumed_of p e) s.approvals

abbrev pub open_in : String → String → Store → ℕ
open_in p e s = count (is_open p e) s.approvals

-- Identifiers that were drawn, no two of them the same
abbrev Below : (ℕ → String) → ℕ → String → Type 0
Below ids n id = (k : ℕ) × (k < n) × (id ≡ ids k)

abbrev pub Numbered : (ℕ → String) → Store → Type 0
Numbered ids s = All (λ a. Below ids s.issued a.id) s.approvals × Distinct s.approvals

-- From one store to the next, `m` approvals of the environment are consumed, and at most `n` granted.
unfoldable pub Balanced : (ℕ → String) → String → String → Store → Store → ℕ → ℕ → Type 0
Balanced ids p e s t m n =
    Numbered ids s
    → Numbered ids t
      × (consumed_in p e t ≡ consumed_in p e s + m)
      × (open_in p e t + consumed_in p e t ≤ open_in p e s + consumed_in p e s + n)

Below-weaken :
    (ids : ℕ → String) (m n : ℕ) (xs : List Approval)
    → m ≤ n
    → All (λ a. Below ids m a.id) xs
    → All (λ a. Below ids n a.id) xs
Below-weaken ids m n [] h b = tt
Below-weaken ids m n (a ∷ xs) h ((k, l, q), b) = ((k, omega arith, q), Below-weaken ids m n xs h b)

Below-map :
    (ids : ℕ → String) (n : ℕ) (g : Approval → Approval)
    → ((a : Approval) → (g a).id ≡ a.id)
    → (xs : List Approval) → All (λ a. Below ids n a.id) xs
    → All (λ a. Below ids n a.id) (map g xs)
Below-map ids n g same [] b = tt
Below-map ids n g same (a ∷ xs) (h, b) =
    (subst (Below ids n) (sym (same a)) h, Below-map ids n g same xs b)

module _ (ids : ℕ → String) (p e : String) where
  pub Keeps-Balanced : (s t : Store) → Keeps s t → Balanced ids p e s t 0 0
  unfolding Balanced
  Keeps-Balanced s t (q, h) (b, d) =
      let same = ap (count (consumed_of p e)) q in
      let kept = ap (count (is_open p e)) q in
      (
        (
          subst (All (λ a. Below ids t.issued a.id)) (sym q)
              (Below-weaken ids s.issued t.issued s.approvals h b),
          subst Distinct (sym q) d,
        ),
        omega arith,
        omega arith,
      )

  pub Balanced-trans :
      (s t u : Store) (m n i j : ℕ)
      → Balanced ids p e s t m n
      → Balanced ids p e t u i j
      → Balanced ids p e s u (m + i) (n + j)
  unfolding Balanced
  Balanced-trans s t u m n i j f g w =
      let (x, a, b) = f w in let (y, c, d) = g x in (y, omega arith, omega arith)

  -- A change of rows that keeps their identifiers, by what it does to the counts
  pub changed-Balanced :
      (s t : Store) (g : Approval → Approval) (m n : ℕ)
      → ((a : Approval) → (g a).id ≡ a.id)
      → t.approvals ≡ map g s.approvals
      → s.issued ≤ t.issued
      → (Distinct s.approvals
          → (count (consumed_of p e) (map g s.approvals) ≡ consumed_in p e s + m)
            × (count (is_open p e) (map g s.approvals) + count (consumed_of p e) (map g s.approvals)
                ≤ open_in p e s + consumed_in p e s + n))
      → Balanced ids p e s t m n
  unfolding Balanced
  changed-Balanced s t g m n same q h counts (b, d) =
      let (x, y) = counts d in
      let same_consumed = ap (count (consumed_of p e)) q in
      let same_open = ap (count (is_open p e)) q in
      (
        (
          subst (All (λ a. Below ids t.issued a.id)) (sym q) (
              Below-map ids t.issued g same s.approvals
                (Below-weaken ids s.issued t.issued s.approvals h b)),
          subst Distinct (sym q) (Distinct-map g same s.approvals d),
        ),
        omega arith,
        omega arith,
      )

  module _ (injective : (i j : ℕ) → ids i ≡ ids j → i ≡ j) where
    Below-Fresh : (n : ℕ) (xs : List Approval) → All (λ a. Below ids n a.id) xs → Fresh (ids n) xs
    Below-Fresh n [] b = tt
    Below-Fresh n (a ∷ xs) ((k, l, q), b) =
        ((λ h. omega (arith, injective k n (sym q ∙ h))), Below-Fresh n xs b)

    pub insert_approval-Balanced :
        (project_id : String) (environment : Environment) (by note now : String) (s : Store)
        → Balanced ids p e s (insert_approval ids project_id environment by note now s).0 0 0
    unfolding insert_approval record_event Balanced
    insert_approval-Balanced project_id environment by note now s (b, d) = (
      (
        All-append (λ a. Below ids (s.issued + 1 + 1) a.id) s.approvals _
            (Below-weaken ids s.issued (s.issued + 1 + 1) s.approvals (omega arith) b)
            ((s.issued, omega arith, refl), tt),
        Distinct-append s.approvals _ d (Below-Fresh s.issued s.approvals b),
      ),
      omega (arith, count-append (consumed_of p e) s.approvals _),
      omega (
        arith,
        count-append (consumed_of p e) s.approvals _,
        count-append (is_open p e) s.approvals _,
      ),
    )
