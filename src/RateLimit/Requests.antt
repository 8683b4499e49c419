-- ===== src/RateLimit/Requests.antt =====
-- Whole requests: which ones the limiter counts, and on whose account.
use sarra.Common.{
  ap, ◌∙◌, ℕ, ◌≡◌, ◌≢◌, ◌⊎◌, ◌↔◌, refl, Bool, true, false, some, [], ◌∷◌, ◌++◌, Option-cases, ◌==◌,
  Bool-cases, inl, inr, arith,
}
use sarra.Common.Text.{Text, codes, text_eq, text_eq_iff, text_eq_refl, strip}
use sarra.RateLimit.Paths.{IsHealth, IsElevated, is_health_iff, is_elevated_iff}
use sarra.RateLimit.{
  Response, is_elevated, Limiter, Scope, passed, allow, allow_hits, client_key, header, is_health,
  limit_for, respond, call,
}

module _ (l : Limiter) (key : Text) (limit now : ℕ) where
  allow_effect :
      ((allow l key limit now).1 ≡ (allow_hits l.window now limit (l.hits key)).1)
      × ((allow l key limit now).0.hits key ≡ (allow_hits l.window now limit (l.hits key)).0)
      × ((j : Text) → key ≢ j → (allow l key limit now).0.hits j ≡ l.hits j)
  unfolding allow
  allow_effect = (refl, rw (text_eq_refl key), λ j ne. ground (arith, text_eq_iff key j))

  allow_settings :
      ((allow l key limit now).0.window ≡ l.window)
      × ((allow l key limit now).0.requests_per_minute ≡ l.requests_per_minute)
      × ((allow l key limit now).0.elevated_requests_per_minute ≡ l.elevated_requests_per_minute)
  unfolding allow
  allow_settings = (refl, refl, refl)

module _ (sha256 : Text → Text) (l : Limiter) (scope : Scope) (now : ℕ) where
  call_counted :
      text_eq scope.type (codes "http") ≡ true
      → is_health scope.path ≡ false
      → call sha256 l scope now ≡ (
        (allow l (client_key sha256 scope) (limit_for l scope.path) now).0,
        respond (allow l (client_key sha256 scope) (limit_for l scope.path) now).1,
      )
  unfolding call
  call_counted e h = ground arith

  call_uncounted :
      (scope.type ≢ codes "http") ⊎ IsHealth scope.path → call sha256 l scope now ≡ (l, passed)
  unfolding call
  call_uncounted (inl ne) = ground (arith, text_eq_iff scope.type (codes "http"))
  call_uncounted (inr h) = let e = (is_health_iff scope.path).1 h in ground arith

  budget :
      (IsElevated scope.path → limit_for l scope.path ≡ l.elevated_requests_per_minute)
      × (¬ IsElevated scope.path → limit_for l scope.path ≡ l.requests_per_minute)
  unfolding limit_for
  budget = (
    λ h. rw ((is_elevated_iff scope.path).1 h) refl,
    λ h. elim (Bool-cases (is_elevated scope.path)) [
      | inl e ↦ absurd (h ((is_elevated_iff scope.path).0 e))
      | inr e ↦ rw e refl
    ],
  )

  -- A request that is not HTTP, or whose path is `/health`, `/api/health` or ends in `/health`, is
  -- passed on and changes nothing. Any other has a budget: that of the elevated paths, if its path
  -- starts with `/openapi`, `/static`, `/api/` or `/sycord/` or is `/api` or `/sycord`, and that of
  -- the pages otherwise. It is answered by the window of its client under the budget, and changes
  -- no other client's window and no setting.
  pub call_branches :
      ((scope.type ≢ codes "http") ⊎ IsHealth scope.path → call sha256 l scope now ≡ (l, passed))
      × (scope.type ≡ codes "http"
          → ¬ IsHealth scope.path
          → (limit : ℕ) × (IsElevated scope.path → limit ≡ l.elevated_requests_per_minute)
            × (¬ IsElevated scope.path → limit ≡ l.requests_per_minute)
            × ((call sha256 l scope now).1
                ≡ respond (allow_hits l.window now limit (l.hits (client_key sha256 scope))).1)
            × ((call sha256 l scope now).0.hits (client_key sha256 scope)
                ≡ (allow_hits l.window now limit (l.hits (client_key sha256 scope))).0)
            × ((j : Text)
                → client_key sha256 scope ≢ j
                → (call sha256 l scope now).0.hits j ≡ l.hits j)
            × ((call sha256 l scope now).0.window ≡ l.window)
            × ((call sha256 l scope now).0.requests_per_minute ≡ l.requests_per_minute)
            × ((call sha256 l scope now).0.elevated_requests_per_minute
                ≡ l.elevated_requests_per_minute))
  call_branches = (
    call_uncounted,
    λ http not_health.
        let e = (text_eq_iff scope.type (codes "http")).1 http in
        let h : is_health scope.path ≡ false = elim (Bool-cases (is_health scope.path)) [
          | inl k ↦ absurd (not_health ((is_health_iff scope.path).0 k))
          | inr k ↦ k
        ] in
        let (v, own, others) =
          allow_effect l (client_key sha256 scope) (limit_for l scope.path) now in
        let (w, r, el) = allow_settings l (client_key sha256 scope) (limit_for l scope.path) now in
        (
          limit_for l scope.path,
          budget.0,
          budget.1,
          ap (λ (x : Limiter × Response). x.1) (call_counted e h) ∙ ap respond v,
          ap (λ (x : Limiter × Response). x.0.hits (client_key sha256 scope)) (call_counted e h)
              ∙ own,
          (λ j ne. ap (λ (x : Limiter × Response). x.0.hits j) (call_counted e h) ∙ others j ne),
          ap (λ (x : Limiter × Response). x.0.window) (call_counted e h) ∙ w,
          ap (λ (x : Limiter × Response). x.0.requests_per_minute) (call_counted e h) ∙ r,
          ap (λ (x : Limiter × Response). x.0.elevated_requests_per_minute) (call_counted e h) ∙ el,
        ),
  )

-- Does the request carry an API key that is not blank?
abbrev pub api_key : Scope → Text
api_key scope = strip (header (codes "x-api-key") scope.headers [])

abbrev pub head_is : ℕ → Text → Bool
head_is c [] = false
head_is c (d ∷ t) = c == d

module _ (sha256 : Text → Text) (scope : Scope) where
  client_host :
      api_key scope ≡ []
      → (client_key sha256 scope ≡ codes "ip:unknown")
        ⊎ ((host : Text) × (scope.client ≡ some host)
            × (client_key sha256 scope ≡ codes "ip:" ++ host))
  unfolding client_key
  client_host e = elim (Option-cases scope.client) [
    | inl e' ↦ inl (ground arith)
    | inr (host, e') ↦ inr (host, e', ground arith)
  ]

  -- A client with an API key that is not blank is known by the key's digest alone, whatever its
  -- address; any other client is known by its address, or shares one account with all that have
  -- none. No account of the one kind is an account of the other.
  pub client_key_kinds :
      (api_key scope ≢ [] → client_key sha256 scope ≡ codes "api:" ++ sha256 (api_key scope))
      × (api_key scope ≡ []
          → (client_key sha256 scope ≡ codes "ip:unknown")
            ⊎ ((host : Text) × (scope.client ≡ some host)
                × (client_key sha256 scope ≡ codes "ip:" ++ host)))
      × ((head_is b'a' (client_key sha256 scope) ≡ true) ↔ (api_key scope ≢ []))
  unfolding client_key
  client_key_kinds =
      (λ ne. ground arith, λ e. client_host e, (λ h e. ground arith, λ ne. ground arith))
