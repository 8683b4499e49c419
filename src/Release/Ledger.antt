-- ===== src/Release/Ledger.antt =====
-- Approvals as a ledger: counting the rows that pass a test, and what a change of one row does to that
-- number.
mod Keeps
pub mod Changes
mod Decisions
mod Fair
mod Quietly
mod Releasing
pub mod Balance
use sarra.Common.{
  ℕ, suc, ◌+◌, ◌<◌, ◌≤◌, ◌≡◌, ◌≢◌, ◌⊎◌, refl, sym, ap, ◌∙◌, String, Bool, true, false, Option, none,
  some, List, [], ◌∷◌, ◌++◌, map, filter, any, All, All-append, if◌then◌else◌, arith, inl, inr,
  Bool-cases,
}
use mathlib.Core.Path.{subst}
use sarra.Release.{Approval}
use sarra.Release.Environments.{find}
use sarra.Release.Approvals.{latest, later}

abbrev pub one_if : Bool → ℕ
one_if true = 1
one_if false = 0

abbrev pub In : Approval → List Approval → Type 0
In b [] = ⊥
In b (a ∷ rest) = (b ≡ a) ⊎ In b rest

abbrev pub count : (Approval → Bool) → List Approval → ℕ
count test [] = 0
count test (a ∷ rest) = one_if (test a) + count test rest

-- No other row has this identifier.
abbrev pub Fresh : String → List Approval → Type 0
Fresh id = All (λ a. a.id ≢ id)

abbrev pub Distinct : List Approval → Type 0
Distinct [] = Unit
Distinct (a ∷ rest) = Fresh a.id rest × Distinct rest

pub count-append :
    (test : Approval → Bool) (xs ys : List Approval)
    → count test (xs ++ ys) ≡ count test xs + count test ys
count-append test [] ys = omega arith
count-append test (a ∷ xs) ys = omega (arith, count-append test xs ys)

pub count-le :
    (small large : Approval → Bool)
    → ((a : Approval) → one_if (small a) ≤ one_if (large a))
    → (xs : List Approval) → count small xs ≤ count large xs
count-le small large h [] = omega arith
count-le small large h (a ∷ xs) = omega (arith, h a, count-le small large h xs)

pub All-In : (P : Approval → Type 0) (xs : List Approval) (b : Approval) → All P xs → In b xs → P b
All-In P [] b h m = absurd m
All-In P (a ∷ xs) b (p, h) m = elim m [ inl e ↦ subst P (sym e) p | inr n ↦ All-In P xs b h n ]

pub Distinct-append :
    (xs : List Approval) (b : Approval) → Distinct xs → Fresh b.id xs → Distinct (xs ++ (b ∷ []))
Distinct-append [] b d f = (tt, tt)
Distinct-append (a ∷ xs) b (g, d) (n, f) =
    (All-append (λ c. c.id ≢ a.id) xs (b ∷ []) g ((λ e. n (sym e)), tt), Distinct-append xs b d f)

-- A change that keeps the identifiers
module _ (g : Approval → Approval) (same : (a : Approval) → (g a).id ≡ a.id) where
  All-map :
      (P : String → Type 0) (xs : List Approval)
      → All (λ a. P a.id) xs
      → All (λ a. P a.id) (map g xs)
  All-map P [] h = tt
  All-map P (a ∷ xs) (p, h) = (subst P (sym (same a)) p, All-map P xs h)

  pub Distinct-map : (xs : List Approval) → Distinct xs → Distinct (map g xs)
  Distinct-map [] d = tt
  Distinct-map (a ∷ xs) (f, d) = (
    subst (λ id. Fresh id (map g xs)) (sym (same a)) (All-map (λ id. id ≢ a.id) xs f),
    Distinct-map xs d,
  )

-- A change of the rows with one identifier only
module _ (g : Approval → Approval) (id : String)
    (other : (a : Approval) → a.id ≢ id → g a ≡ a) where
  pub map-Fresh : (xs : List Approval) → Fresh id xs → map g xs ≡ xs
  map-Fresh [] f = refl
  map-Fresh (a ∷ xs) (n, f) = rw (other a n, map-Fresh xs f) refl

  pub count-map :
      (test : Approval → Bool) (b : Approval) (xs : List Approval)
      → Distinct xs
      → In b xs
      → b.id ≡ id
      → count test (map g xs) + one_if (test b) ≡ count test xs + one_if (test (g b))
  count-map test b [] d m e = absurd m
  count-map test b (a ∷ xs) (f, d) m e = elim m [
    | inl same ↦
        let k : map g xs ≡ xs =
          map-Fresh xs (subst (λ i. Fresh i xs) (ap (λ (c : Approval). c.id) (sym same) ∙ e) f) in
        rw k (omega (arith, ap (λ c. one_if (test c)) same, ap (λ c. one_if (test (g c))) same))
    | inr n ↦
        let apart : a.id ≢ id = λ h. All-In (λ c. c.id ≢ a.id) xs b f n (e ∙ sym h) in
        rw (other a apart) (omega (arith, count-map test b xs d n e))
  ]

pub In-filter :
    (test : Approval → Bool) (b : Approval) (xs : List Approval)
    → In b (filter test xs)
    → In b xs × (test b ≡ true)
In-filter test b [] m = absurd m
In-filter test b (a ∷ xs) m = elim (Bool-cases (test a)) [
  | inl t ↦
      let n : In b (a ∷ filter test xs) =
        subst (λ k. In b (if k then a ∷ filter test xs else filter test xs)) t m in
      elim n [
        | inl e ↦ (inl e, ap test e ∙ t)
        | inr r ↦ let (i, j) = In-filter test b xs r in (inr i, j)
      ]
  | inr t ↦
      let n : In b (filter test xs) =
        subst (λ k. In b (if k then a ∷ filter test xs else filter test xs)) t m in
      let (i, j) = In-filter test b xs n in (inr i, j)
]

later-In : (a : Approval) (o : Option Approval) → (later a o ≡ a) ⊎ (o ≡ some (later a o))
later-In a none = inl refl
later-In a (some b) = ground arith

pub latest-In : (b : Approval) (xs : List Approval) → latest xs ≡ some b → In b xs
unfolding latest
latest-In b [] e = ground arith
latest-In b (a ∷ xs) e =
    let same : later a (latest xs) ≡ b = ground arith in
    elim (later-In a (latest xs)) [
      | inl k ↦ inl (sym same ∙ k)
      | inr k ↦ inr (latest-In b xs (k ∙ ap some same))
    ]

-- The newest of the rows that pass a test that some row passes
pub any-latest :
    (test : Approval → Bool) (xs : List Approval)
    → any test xs ≡ true
    → (b : Approval) × (latest (filter test xs) ≡ some b)
unfolding latest
any-latest test [] e = ground arith
any-latest test (a ∷ xs) e = elim (Bool-cases (test a)) [
  | inl t ↦ rw t (later a (latest (filter test xs)), refl)
  | inr t ↦ rw t (any-latest test xs (ground arith))
]

-- What was found after a change is a row that was changed.
pub find-map :
    (test : Approval → Bool) (g : Approval → Approval) (r : Approval) (xs : List Approval)
    → find test (map g xs) ≡ some r
    → (b : Approval) × In b xs × (r ≡ g b) × (test r ≡ true)
find-map test g r [] e = ground arith
find-map test g r (a ∷ xs) e = elim (Bool-cases (test (g a))) [
  | inl t ↦ let same : g a ≡ r = ground arith in (a, inl refl, sym same, ap test (sym same) ∙ t)
  | inr t ↦ let (b, m, k, p) = find-map test g r xs (ground arith) in (b, inr m, k, p)
]

pub find-none :
    (test : Approval → Bool) (g : Approval → Approval) (xs : List Approval)
    → find test (map g xs) ≡ none
    → ((a : Approval) → test (g a) ≡ false → g a ≡ a)
    → map g xs ≡ xs
find-none test g [] e h = refl
find-none test g (a ∷ xs) e h =
    let (t, k) : (test (g a) ≡ false) × (find test (map g xs) ≡ none) = ground arith in
    rw (h a t, find-none test g xs k h) refl
