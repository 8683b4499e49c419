-- ===== src/RateLimit/Paths.antt =====
-- Which paths the limiter of syte/rate_limit.py does not count, and which have the larger budget.
use sarra.Common.{
  ◌≡◌, ◌⊎◌, ◌↔◌, refl, Bool, true, false, [], ◌∷◌, ◌++◌, ◌||◌, inl, inr, any, arith, ==_iff,
}
use sarra.Common.Text.{Text, codes, text_eq, text_eq_iff, starts_with, ends_with}
use sarra.RateLimit.{is_health, is_elevated}

abbrev pub StartsWith : Text → Text → Type 0
StartsWith s p = (rest : Text) × (s ≡ p ++ rest)

abbrev pub EndsWith : Text → Text → Type 0
EndsWith s p = (front : Text) × (s ≡ front ++ p)

-- The paths of health checks.
abbrev pub IsHealth : Text → Type 0
IsHealth path =
    ((path ≡ codes "/health") ⊎ (path ≡ codes "/api/health")) ⊎ EndsWith path (codes "/health")

-- The paths of the documentation, of static files, of the API and of Sycord.
abbrev pub IsElevated : Text → Type 0
IsElevated path =
    (StartsWith path (codes "/openapi")
      ⊎ (StartsWith path (codes "/static")
          ⊎ (StartsWith path (codes "/api/") ⊎ StartsWith path (codes "/sycord/"))))
    ⊎ ((path ≡ codes "/api") ⊎ ((path ≡ codes "/sycord") ⊎ (path ≡ codes "/sycord/")))

starts_with_sound : (s p : Text) → starts_with s p ≡ true → StartsWith s p
unfolding starts_with
starts_with_sound s [] h = (s, refl)
starts_with_sound [] (b ∷ p) h = absurd (ground arith)
starts_with_sound (a ∷ s) (b ∷ p) h =
    let (rest, e) = starts_with_sound s p (ground arith) in
    let same : a ≡ b = ground (arith, ==_iff a b) in (rest, cc)

starts_with_complete : (p rest : Text) → starts_with (p ++ rest) p ≡ true
unfolding starts_with
starts_with_complete [] rest = refl
starts_with_complete (b ∷ p) rest = ground (arith, starts_with_complete p rest)

starts_with_iff : (s p : Text) → (starts_with s p ≡ true) ↔ StartsWith s p
starts_with_iff s p = (starts_with_sound s p, λ (rest, e). rw e (starts_with_complete p rest))

or_cases : (a b : Bool) → (a || b) ≡ true → (a ≡ true) ⊎ (b ≡ true)
or_cases true b h = inl refl
or_cases false b h = inr h

ends_with_sound : (s p : Text) → ends_with s p ≡ true → EndsWith s p
unfolding ends_with
ends_with_sound [] p h = ([], (text_eq_iff [] p).0 h)
ends_with_sound (a ∷ s) p h = elim (or_cases (text_eq (a ∷ s) p) (ends_with s p) h) [
  | inl e ↦ ([], (text_eq_iff (a ∷ s) p).0 e)
  | inr e ↦ let (front, k) = ends_with_sound s p e in (a ∷ front, rw k refl)
]

ends_with_complete : (front p : Text) → ends_with (front ++ p) p ≡ true
unfolding ends_with
ends_with_complete [] [] = (text_eq_iff [] []).1 refl
ends_with_complete [] (b ∷ p) = rw ((text_eq_iff (b ∷ p) (b ∷ p)).1 refl) refl
ends_with_complete (a ∷ front) p = ground (arith, ends_with_complete front p)

ends_with_iff : (s p : Text) → (ends_with s p ≡ true) ↔ EndsWith s p
ends_with_iff s p = (ends_with_sound s p, λ (front, e). rw e (ends_with_complete front p))

or_iff :
    {P Q : Type 0} (a b : Bool) → ((a ≡ true) ↔ P) → ((b ≡ true) ↔ Q) → ((a || b) ≡ true) ↔ (P ⊎ Q)
or_iff true b p q = (λ _. inl (p.0 refl), λ _. refl)
or_iff false b p q = (
  λ e. inr (q.0 e),
  λ h. elim h [ inl x ↦ (let bad = p.1 x in absurd (ground arith)) | inr y ↦ q.1 y ],
)

last_iff : {P : Type 0} (a : Bool) → ((a ≡ true) ↔ P) → ((a || false) ≡ true) ↔ P
last_iff true p = p
last_iff false p = p

pub is_health_iff : (path : Text) → (is_health path ≡ true) ↔ IsHealth path
unfolding is_health
is_health_iff path =
    or_iff _ (ends_with path (codes "/health"))
      (or_iff (text_eq path (codes "/health")) _ (text_eq_iff path (codes "/health"))
        (text_eq_iff path (codes "/api/health")))
      (ends_with_iff path (codes "/health"))

pub is_elevated_iff : (path : Text) → (is_elevated path ≡ true) ↔ IsElevated path
unfolding is_elevated
is_elevated_iff path =
    or_iff
      (any (starts_with path)
        (codes "/openapi" ∷ codes "/static" ∷ codes "/api/" ∷ codes "/sycord/" ∷ []))
      _
      (or_iff (starts_with path (codes "/openapi")) _ (starts_with_iff path (codes "/openapi")) (
        or_iff (starts_with path (codes "/static")) _ (starts_with_iff path (codes "/static")) (
          or_iff (starts_with path (codes "/api/")) _ (starts_with_iff path (codes "/api/")) (
            last_iff (starts_with path (codes "/sycord/"))
              (starts_with_iff path (codes "/sycord/"))))))
      (or_iff (text_eq path (codes "/api")) _ (text_eq_iff path (codes "/api")) (
        or_iff (text_eq path (codes "/sycord")) _ (text_eq_iff path (codes "/sycord"))
          (last_iff (text_eq path (codes "/sycord/")) (text_eq_iff path (codes "/sycord/")))))
