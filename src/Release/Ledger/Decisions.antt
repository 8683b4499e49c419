-- ===== src/Release/Ledger/Decisions.antt =====
-- Deciding and consuming an approval.
use sarra.Common.{
  ℕ, ◌+◌, ◌≤◌, ◌≡◌, ◌≢◌, refl, sym, ap, ◌∙◌, String, Bool, true, false, Option, none, some, map,
  filter, ◌&&◌, arith, inl, inr, Option-cases, str_eq, eq_iff,
}
use mathlib.Core.Path.{subst}
use sarra.Release.{Approval, Store, record_event}
use sarra.Release.Environments.{find}
use sarra.Release.Approvals.{
  is_approval, is_open, decided, marked_consumed, has_approved_release, record_decision,
  decide_approval, consume_row, consume_approved_release,
}
use sarra.Release.Ledger.{
  one_if, In, count, count-map, In-filter, latest-In, any-latest, find-map, find-none,
}
use sarra.Release.Ledger.Changes.{is_for, consumed_of, Balanced, changed-Balanced}

module _ (project_id id by : String) (approve : Bool) (note now : String) (a : Approval) where
  decided_id : (decided project_id id by approve note now a).id ≡ a.id
  unfolding decided
  decided_id = ground arith

  decided_other : a.id ≢ id → decided project_id id by approve note now a ≡ a
  unfolding decided
  decided_other h = ground (arith, h, eq_iff a.id id)

  decided_missed :
      is_approval project_id id (decided project_id id by approve note now a) ≡ false
      → decided project_id id by approve note now a ≡ a
  unfolding decided
  decided_missed h = ground arith

  decided_consumed :
      (p e : String)
      → one_if (consumed_of p e (decided project_id id by approve note now a))
        ≡ one_if (consumed_of p e a)
  unfolding decided
  decided_consumed p e = ground arith

  decided_open :
      (p e : String)
      → one_if (is_open p e (decided project_id id by approve note now a))
        ≤ one_if (is_open p e a)
          + one_if (approve && is_for p e (decided project_id id by approve note now a))
  unfolding decided
  decided_open p e = ground arith

module _ (id : String) (a : Approval) where
  marked_id : (marked_consumed id a).id ≡ a.id
  unfolding marked_consumed
  marked_id = ground arith

  marked_other : a.id ≢ id → marked_consumed id a ≡ a
  unfolding marked_consumed
  marked_other h = ground (arith, h, eq_iff a.id id)

marked_open : (p e : String) (a : Approval) → one_if (is_open p e (marked_consumed a.id a)) ≡ 0
unfolding marked_consumed
marked_open p e a = ground (arith, eq_iff a.id a.id)

marked_consumed_of :
    (p e : String) (a : Approval)
    → one_if (consumed_of p e (marked_consumed a.id a)) ≡ one_if (is_for p e a)
unfolding marked_consumed
marked_consumed_of p e a = ground (arith, eq_iff a.id a.id)

open_not_consumed :
    (p e q f : String) (a : Approval) → is_open q f a ≡ true → one_if (consumed_of p e a) ≡ 0
open_not_consumed p e q f a h = ground arith

open_one :
    (p e q f : String) (a : Approval)
    → is_open q f a ≡ true
    → one_if (is_open p e a) ≡ one_if (is_for p e a)
open_one p e q f a h = ground arith

-- The approvals that a decision grants
abbrev pub granted_by : String → String → Bool → Option Approval → ℕ
granted_by p e approve none = 0
granted_by p e approve (some row) = one_if (approve && is_for p e row)

module _ (ids : ℕ → String) (p e : String) where
  module _ (project_id id by : String) (approve : Bool) (note now : String) (s : Store) where
    abbrev outcome : Option Approval → Store × Option Approval
    outcome =
        record_decision ids project_id approve now
          (record s { approvals = map (decided project_id id by approve note now) s.approvals })

    abbrev Decided : Option Approval → Type 0
    Decided found = let r = outcome found in Balanced ids p e s r.0 0 (granted_by p e approve r.1)

    decided_missing :
        map (decided project_id id by approve note now) s.approvals ≡ s.approvals → Decided none
    unfolding record_decision
    decided_missing same =
        changed-Balanced ids p e s (outcome none).0 (decided project_id id by approve note now) 0 0
          (decided_id project_id id by approve note now) refl (omega arith)
          (λ d. (
            omega (arith, ap (count (consumed_of p e)) same),
            omega (arith, ap (count (consumed_of p e)) same, ap (count (is_open p e)) same),
          ))

    decided_found :
        (b r : Approval)
        → In b s.approvals
        → r ≡ decided project_id id by approve note now b
        → b.id ≡ id
        → Decided (some r)
    unfolding record_decision record_event
    decided_found b r m k q =
        let g = decided project_id id by approve note now in
        let other = decided_other project_id id by approve note now in
        changed-Balanced ids p e s (outcome (some r)).0 g 0 (granted_by p e approve (some r))
          (decided_id project_id id by approve note now) refl (omega arith)
          (λ d.
            let x = count-map g id other (consumed_of p e) b s.approvals d m q in
            let y = count-map g id other (is_open p e) b s.approvals d m q in
            let same = decided_consumed project_id id by approve note now b p e in
            let grown = decided_open project_id id by approve note now b p e in
            let row = ap (λ c. one_if (approve && is_for p e c)) k in (omega arith, omega arith))

    pub decide_approval-Balanced :
        let r = decide_approval ids project_id id by approve note now s in
        Balanced ids p e s r.0 0 (granted_by p e approve r.1)
    unfolding decide_approval
    decide_approval-Balanced =
        let g = decided project_id id by approve note now in
        let test = is_approval project_id id in
        elim (Option-cases (find test (map g s.approvals))) [
          | inl h ↦ subst Decided (sym h) (
              decided_missing
                (find-none test g s.approvals h (decided_missed project_id id by approve note now)))
          | inr (r, h) ↦
              let (b, m, k, t) = find-map test g r s.approvals h in
              let found : r.id ≡ id = ground (arith, t, eq_iff r.id id) in
              subst Decided (sym h) (
                decided_found b r m k (
                  sym
                    (ap (λ (c : Approval). c.id) k ∙ decided_id project_id id by approve note now b)
                  ∙ found))
        ]

  module _ (q f now : String) (s : Store) where
    abbrev Consumed : Option Approval → Type 0
    Consumed found =
        Balanced ids p e s (consume_row ids q f now s found).0 (one_if (str_eq q p && str_eq f e)) 0

    Consumed-found : (b : Approval) → In b s.approvals → is_open q f b ≡ true → Consumed (some b)
    unfolding consume_row record_event
    Consumed-found b m t =
        let g = marked_consumed b.id in
        let other = marked_other b.id in
        let (for_project, for_environment) : (b.project_id ≡ q) × (b.environment_id ≡ f) = (
          ground (arith, t, eq_iff b.project_id q),
          ground (arith, t, eq_iff b.environment_id f),
        ) in
        changed-Balanced ids p e s (consume_row ids q f now s (some b)).0 g
          (one_if (str_eq q p && str_eq f e)) 0 (marked_id b.id) refl (omega arith)
          (λ d.
            let x = count-map g b.id other (consumed_of p e) b s.approvals d m refl in
            let y = count-map g b.id other (is_open p e) b s.approvals d m refl in
            let same : one_if (is_for p e b) ≡ one_if (str_eq q p && str_eq f e) =
              rw (for_project, for_environment) refl in
            let a1 = marked_open p e b in
            let a2 = marked_consumed_of p e b in
            let a3 = open_not_consumed p e q f b t in
            let a4 = open_one p e q f b t in (omega arith, omega arith))

    pub consume-Balanced :
        has_approved_release q f s ≡ true
        → Balanced ids p e s
            (consume_approved_release ids q f now s).0
            (one_if (str_eq q p && str_eq f e))
            0
    unfolding has_approved_release consume_approved_release
    consume-Balanced h =
        let (b, k) = any-latest (is_open q f) s.approvals h in
        let (m, t) =
          In-filter (is_open q f) b s.approvals
            (latest-In b (filter (is_open q f) s.approvals) k) in
        subst Consumed (sym k) (Consumed-found b m t)
