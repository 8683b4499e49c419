-- ===== src/Release/Approvals.antt =====
-- Approvals: requested, decided once, and consumed by the release they allow.
use Prim.Native.Nat.{Ordering}
use Prim.Native.String
use Prim.Native.String.{compare}
use sarra.Common.{
  ℕ, ◌+◌, String, Bool, true, false, Option, none, some, List, [], ◌∷◌, ◌++◌, map, filter, any,
  str_eq, ◌&&◌, if◌then◌else◌,
}
use sarra.Common.Strings.{strip}
use sarra.Release.{
  Status, pending, approved, rejected, consumed, Project, Environment, Approval, Store,
  environment_not_found, ok, err, After, and_then, record_event,
}
use sarra.Release.Environments.{find, get_environment}

abbrev pub is_pending : Status → Bool
is_pending pending = true
is_pending _ = false

abbrev pub is_approved : Status → Bool
is_approved approved = true
is_approved _ = false

abbrev pub is_approval : String → String → Approval → Bool
is_approval project_id approval_id a = str_eq a.project_id project_id && str_eq a.id approval_id

-- `project_id = ? AND environment_id = ? AND status = 'approved'`
abbrev pub is_open : String → String → Approval → Bool
is_open project_id environment_id a =
    is_approved a.status
    && (str_eq a.project_id project_id && str_eq a.environment_id environment_id)

-- The order of texts, where NULL comes first
abbrev decided_before : Option String → Option String → Bool
decided_before none none = false
decided_before none (some t) = true
decided_before (some s) none = false
decided_before (some s) (some t) = elim (compare s t) [ Ordering.lt ↦ true | _ ↦ false ]

abbrev pub later : Approval → Option Approval → Approval
later a none = a
later a (some b) = if decided_before a.decided_at b.decided_at then b else a

-- `ORDER BY decided_at DESC LIMIT 1`
unfoldable pub latest : List Approval → Option Approval
latest [] = none
latest (a ∷ rest) = some (later a (latest rest))

-- The first part of the statement that decides: `project_id = ? AND id = ? AND status = 'pending'`
unfoldable pub decided : String → String → String → Bool → String → String → Approval → Approval
decided project_id approval_id approved_by approve note now a =
    if is_approval project_id approval_id a && is_pending a.status
    then (record a {
      status = if approve then approved else rejected;
      approved_by = strip approved_by;
      note = strip note;
      decided_at = some now;
    })
    else a

unfoldable pub marked_consumed : String → Approval → Approval
marked_consumed id a = if str_eq a.id id then record a { status = consumed } else a

unfoldable pub has_approved_release : String → String → Store → Bool
has_approved_release project_id environment_id s =
    any (is_open project_id environment_id) s.approvals

module _ (ids : ℕ → String) where
  -- The insertion of `request_approval`, after the environment was found
  unfoldable pub insert_approval :
      String → Environment → String → String → String → Store → Store × Approval
  insert_approval project_id environment requested_by note now s =
      let row : Approval = record {
        id = ids s.issued;
        project_id = project_id;
        environment_id = environment.id;
        requested_by = strip requested_by;
        status = pending;
        approved_by = "";
        note = strip note;
        created_at = now;
        decided_at = none;
      } in
      (
        record_event ids project_id "release.approval_requested"
            (String.◌++◌ "Approval requested for " environment.name) (strip note) "warning"
            (some environment.id) now
            (record s { issued = s.issued + 1; approvals = s.approvals ++ (row ∷ []) }),
        row,
      )

  unfoldable pub request_approval :
      (String → Option Project)
      → String
      → String
      → String
      → String
      → String
      → Store
      → After Approval
  request_approval get_project project_id environment_id requested_by note now s =
      and_then (get_environment ids get_project project_id environment_id now s) (λ t found.
        elim found [
          | none ↦ (t, err environment_not_found)
          | some environment ↦
              let (u, row) = insert_approval project_id environment requested_by note now t in
              (u, ok row)
        ])

  -- The row that was read after the update: the event is recorded whether or not this call decided it.
  unfoldable pub record_decision :
      String → Bool → String → Store → Option Approval → Store × Option Approval
  record_decision project_id approve now t none = (t, none)
  record_decision project_id approve now t (some row) = (
    record_event ids project_id
        (if approve then "release.approval_approved" else "release.approval_rejected")
        (if approve then "Release approval approved" else "Release approval rejected") row.note
        (if approve then "success" else "warning") (some row.environment_id) now t,
    some row,
  )

  unfoldable pub decide_approval :
      String → String → String → Bool → String → String → Store → Store × Option Approval
  unfolding record_decision
  decide_approval project_id approval_id approved_by approve note now s =
      let approvals =
        map (decided project_id approval_id approved_by approve note now) s.approvals in
      record_decision project_id approve now (record s { approvals = approvals })
        (find (is_approval project_id approval_id) approvals)

  unfoldable pub consume_row : String → String → String → Store → Option Approval → Store × Bool
  consume_row project_id environment_id now s none = (s, false)
  consume_row project_id environment_id now s (some row) = (
    record_event ids project_id "release.approval_consumed" "Protected release approval consumed" ""
        "info" (some environment_id) now
        (record s { approvals = map (marked_consumed row.id) s.approvals }),
    true,
  )

  unfoldable pub consume_approved_release : String → String → String → Store → Store × Bool
  unfolding consume_row
  consume_approved_release project_id environment_id now s =
      consume_row project_id environment_id now s
        (latest (filter (is_open project_id environment_id) s.approvals))
