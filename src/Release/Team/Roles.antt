-- ===== src/Release/Team/Roles.antt =====
-- What a change of the members means for the roles.
use sarra.Common.{
  ℕ, ◌≡◌, ◌≢◌, ◌<◌, ◌≤◌, refl, sym, ap, ◌∙◌, String, Bool, true, false, Option, some, List, [], ◌∷◌,
  ◌++◌, map, filter, any, length, All, All-append, ◌==◌, str_eq, eq_iff, arith, inl, inr,
  Bool-cases,
}
use sarra.Common.Strings.{strip, lower, lower-lower}
use sarra.Release.{Member, Store}
use sarra.Release.Environments.{find, or_text}
use sarra.Release.Team.{
  Operator, release_actor, is_role, is_member_of, has_email, has_at, acts_as, list_team_members,
  role_passes, is_allowed, conflicting, upsert_team_member,
}

-- Addresses are kept in lower case.
abbrev pub IsLowered : Member → Type 0
IsLowered m = lower m.email ≡ m.email

-- The member of a project with an address
abbrev member_at : String → String → List Member → Option Member
member_at p email members = find (has_email p email) members

member_at_lem :
    (p actor : String) (xs : List Member)
    → All IsLowered xs
    → find (acts_as actor) (filter (is_member_of p) xs) ≡ member_at p actor xs
member_at_lem p actor [] h = refl
member_at_lem p actor (m ∷ xs) (k, h) = ground (arith, k, member_at_lem p actor xs h)

module _ (p email name role now : String) where
  conflicting-IsLowered :
      (xs : List Member)
      → All IsLowered xs
      → All IsLowered (map (conflicting p email name role now) xs)
  unfolding conflicting
  conflicting-IsLowered [] h = tt
  conflicting-IsLowered (m ∷ xs) (k, h) = (ground (arith, k), conflicting-IsLowered xs h)

  set_there :
      (xs : List Member)
      → any (has_email p email) xs ≡ true
      → (m : Member) × (member_at p email (map (conflicting p email name role now) xs) ≡ some m)
        × (m.role ≡ role)
  unfolding conflicting
  set_there [] h = ground arith
  set_there (m ∷ xs) h = elim (Bool-cases (has_email p email m)) [
    | inl e ↦
        rw e (record m { display_name = name; role = role; updated_at = now }, ground arith, refl)
    | inr e ↦ let (n, k, r) = set_there xs (ground arith) in (n, ground arith, r)
  ]

  set_other :
      (other : String) (xs : List Member)
      → other ≢ email
      → member_at p other (map (conflicting p email name role now) xs) ≡ member_at p other xs
  unfolding conflicting
  set_other other [] h = refl
  set_other other (m ∷ xs) h = elim (Bool-cases (has_email p email m)) [
    | inl e ↦
        let apart : has_email p other m ≡ false =
          ground (arith, h, eq_iff m.email email, eq_iff m.email other) in
        rw e (ground (arith, set_other other xs h))
    | inr e ↦ rw e (ground (arith, set_other other xs h))
  ]

  set_members :
      (xs : List Member)
      → length (filter (is_member_of p) (map (conflicting p email name role now) xs))
        ≡ length (filter (is_member_of p) xs)
  unfolding conflicting
  set_members [] = refl
  set_members (m ∷ xs) = ground (arith, set_members xs)

module _ (p : String) where
  appended_there :
      (email : String) (xs : List Member) (row : Member)
      → any (has_email p email) xs ≡ false
      → has_email p email row ≡ true
      → member_at p email (xs ++ (row ∷ [])) ≡ some row
  appended_there email [] row h k = ground arith
  appended_there email (m ∷ xs) row h k = ground (arith, appended_there email xs row)

  appended_other :
      (other : String) (xs : List Member) (row : Member)
      → has_email p other row ≡ false
      → member_at p other (xs ++ (row ∷ [])) ≡ member_at p other xs
  appended_other other [] row h = ground arith
  appended_other other (m ∷ xs) row h = ground (arith, appended_other other xs row h)

appended_members :
    (p : String) (xs ys : List Member)
    → length (filter (is_member_of p) xs) ≤ length (filter (is_member_of p) (xs ++ ys))
appended_members p [] ys = omega arith
appended_members p (m ∷ xs) ys = ground (arith, appended_members p xs ys)

member_counts :
    (p email : String) (xs : List Member) (m : Member)
    → member_at p email xs ≡ some m
    → 0 < length (filter (is_member_of p) xs)
member_counts p email [] m h = ground arith
member_counts p email (n ∷ xs) m h = ground (arith, member_counts p email xs m)

has_at_nonempty : (x : String) → has_at x ≡ true → str_eq x "" ≡ false
has_at_nonempty x h = elim (Bool-cases (str_eq x "")) [
  | inl e ↦
      let empty : x ≡ "" = ground (arith, eq_iff x "") in absurd (ground (arith, ap has_at empty))
  | inr e ↦ e
]

module _ (test : String → Bool) (p : String) (operator : Operator) where
  allowed_lem :
      (s : Store)
      → All IsLowered s.members
      → has_at (lower (release_actor operator)) ≡ true
      → 0 < length (list_team_members p s)
      → is_allowed test p operator s
        ≡ role_passes test (member_at p (lower (release_actor operator)) s.members)
  unfolding is_allowed
  allowed_lem s l h n =
      let actor = lower (release_actor operator) in
      let named : str_eq actor "" ≡ false = has_at_nonempty actor h in
      let counted : (length (list_team_members p s) == 0) ≡ false = ground arith in
      rw (member_at_lem p actor s.members l) (ground arith)

  allowed_unnamed :
      (s : Store)
      → has_at (lower (release_actor operator)) ≡ false
      → is_allowed test p operator s ≡ true
  unfolding is_allowed
  allowed_unnamed s h = ground arith

role_text : (role : String) → is_role role ≡ true → or_text role "viewer" ≡ role
role_text role h = elim (Bool-cases (str_eq role "")) [
  | inl e ↦
      let empty : role ≡ "" = ground (arith, eq_iff role "") in
      absurd (ground (arith, ap is_role empty))
  | inr e ↦ rw e refl
]

-- What the members say of addresses, after a change that sets one of them
abbrev Sets : String → String → String → List Member → List Member → Type 0
Sets p email role before after =
    All IsLowered after
    × ((m : Member) × (member_at p email after ≡ some m) × (m.role ≡ role))
    × ((other : String) → other ≢ email → member_at p other after ≡ member_at p other before)
    × (length (filter (is_member_of p) before) ≤ length (filter (is_member_of p) after))

module _ (ids : ℕ → String) (p email name role now : String) (s : Store) where
  upsert-Sets :
      All IsLowered s.members
      → is_role role ≡ true
      → has_at (lower (strip email)) ≡ true
      → Sets p
          (lower (strip email))
          role
          s.members
          (upsert_team_member ids p email name role now s).0.members
  unfolding upsert_team_member
  upsert-Sets l r h =
      let cleaned = lower (strip email) in
      let row : Member = record {
        id = ids s.issued;
        project_id = p;
        email = cleaned;
        display_name = strip name;
        role = role;
        created_at = now;
        updated_at = now;
      } in
      elim (Bool-cases (any (has_email p cleaned) s.members)) [
        | inl e ↦
            rw (r, h, e)
              (
                conflicting-IsLowered p cleaned (strip name) role now s.members l,
                set_there p cleaned (strip name) role now s.members e,
                (λ other k. set_other p cleaned (strip name) role now other s.members k),
                omega (arith, set_members p cleaned (strip name) role now s.members),
              )
        | inr e ↦
            rw (r, h, e)
              (
                All-append IsLowered s.members (row ∷ []) l (lower-lower (strip email), tt),
                (
                  row,
                  appended_there p cleaned s.members row e
                      (ground (arith, eq_iff p p, eq_iff cleaned cleaned)),
                  refl,
                ),
                (λ other k.
                    appended_other p other s.members row (ground (arith, k, eq_iff cleaned other))),
                appended_members p s.members (row ∷ []),
              )
      ]

  -- The member whose address a request gives, in any case and with white space around it, has the
  -- role of the request from then on, if the role is known and the address has an `@`: an operator
  -- who acts under that address passes a check of roles exactly if the new role does. The checks of
  -- every other operator are as before, if the project had members. All addresses stay in lower
  -- case.
  pub upsert_team_member_lem :
      All IsLowered s.members
      → is_role role ≡ true
      → has_at (lower (strip email)) ≡ true
      → All IsLowered (upsert_team_member ids p email name role now s).0.members
        × ((test : String → Bool) (operator : Operator)
            → lower (release_actor operator) ≡ lower (strip email)
            → is_allowed test p operator (upsert_team_member ids p email name role now s).0
              ≡ test role)
        × ((test : String → Bool) (operator : Operator)
            → lower (release_actor operator) ≢ lower (strip email)
            → 0 < length (list_team_members p s)
            → is_allowed test p operator (upsert_team_member ids p email name role now s).0
              ≡ is_allowed test p operator s)
  upsert_team_member_lem l r h =
      let t = (upsert_team_member ids p email name role now s).0 in
      let (kept, (m, k, same), others, grown) = upsert-Sets l r h in
      (
        kept,
        (λ test operator e.
            allowed_lem test p operator t kept (ap has_at e ∙ h) (member_counts p _ t.members m k)
            ∙ ap (λ actor. role_passes test (member_at p actor t.members)) e
            ∙ ap (role_passes test) k
            ∙ ap test (ap (λ x. or_text x "viewer") same ∙ role_text role r)),
        λ test operator apart n. elim (Bool-cases (has_at (lower (release_actor operator)))) [
          | inl named ↦
              allowed_lem test p operator t kept named (omega (arith, grown))
              ∙ ap (role_passes test) (others (lower (release_actor operator)) apart)
              ∙ sym (allowed_lem test p operator s l named n)
          | inr unnamed ↦
              allowed_unnamed test p operator t unnamed
              ∙ sym (allowed_unnamed test p operator s unnamed)
        ],
      )
