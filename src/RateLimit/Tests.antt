-- ===== src/RateLimit/Tests.antt =====
-- The limiter on concrete requests.
use sarra.Common.{ℕ, ◌+◌, ◌*◌, ◌%◌, ◌≤◌, ◌<◌, ◌≡◌, ◌≢◌, ◌↔◌, refl, true, some, List, [], ◌∷◌, arith}
use sarra.Common.Text.{Text, codes, text_eq, ends_with, strip}
use sarra.RateLimit.{
  Limiter, Scope, allowed, denied, passed, limited, index_error, expire, allow_hits, allow,
  client_key, header, is_health, limit_for, respond, call,
}
use sarra.RateLimit.Window.{run, spec_run, run-eq-spec_run}
use sarra.RateLimit.Retry.{retry_exact, allow_hits_branches, respond-early}
use sarra.RateLimit.Paths.{IsElevated, is_health_iff}
use sarra.RateLimit.Requests.{call_branches, client_key_kinds, api_key, head_is}

abbrev limiter : Limiter
limiter = record {
  requests_per_minute = 2;
  elevated_requests_per_minute = 3;
  window = 60000;
  hits = λ _. [];
}

abbrev page : Text → Scope
page path = record {
  type = codes "http";
  path = path;
  headers = [];
  client = some (codes "10.0.0.1");
}

abbrev requests : List (ℕ × ℕ)
requests = (1000, 2) ∷ (2000, 2) ∷ (3000, 2) ∷ (61000, 2) ∷ []

run-eq-spec_run_example : run 60000 [] requests ≡ spec_run 60000 [] requests
run-eq-spec_run_example = run-eq-spec_run 60000 requests (omega arith) (omega arith)

full_window : (allow_hits 60000 3000 2 (1000 ∷ 2000 ∷ [])).1 ≡ denied 58000
unfolding allow_hits
full_window = refl

retry_exact_example :
    ((allow_hits 60000 61000 2 (allow_hits 60000 3000 2 (1000 ∷ 2000 ∷ [])).0).1 ≡ allowed)
    ↔ (3000 + 58000 ≤ 61000)
retry_exact_example =
    retry_exact 60000 3000 2 58000 61000 (1000 ∷ 2000 ∷ []) (omega arith) full_window

-- The third page within a minute is refused, and health checks are not counted.
three_pages :
    (call
      (λ t. t)
      (call (λ t. t) (call (λ t. t) limiter (page (codes "/")) 1000).0 (page (codes "/")) 2000).0
      (page (codes "/a"))
      3000).1
    ≡ limited 58
unfolding call allow respond client_key header strip limit_for is_health text_eq
three_pages = refl

health_passes : (call (λ t. t) limiter (page (codes "/x/health")) 0).1 ≡ passed
unfolding call is_health text_eq
health_passes = refl

allow_hits_branches_example :
    (allow_hits 60000 3000 0 []).1 ≡ index_error ↔ ((◌≡◌ {A = ℕ} 0 0) × (expire 60000 3000 [] ≡ []))
allow_hits_branches_example = (allow_hits_branches 60000 3000 0 []).0

respond-early_example :
    (s : ℕ) × (respond (denied 1999) ≡ limited s)
    × (1999 < 2000 → s ≡ 1)
    × (1000 ≤ 1999 → (s * 1000 ≤ 1999) × (1999 < s * 1000 + 1000))
    × (1000 ≤ 1999 → 1999 % 1000 ≢ 0 → s * 1000 < 1999)
respond-early_example = respond-early 1999

-- `/metrics` is no health check.
metrics_not_health : is_health (codes "/metrics") ≢ true
unfolding is_health text_eq ends_with
metrics_not_health e = ground arith

call_branches_example :
    (limit : ℕ) × (IsElevated (codes "/metrics") → limit ≡ 3)
    × (¬ IsElevated (codes "/metrics") → limit ≡ 2)
    × ((call (λ t. t) limiter (page (codes "/metrics")) 1000).1
        ≡ respond
            (allow_hits 60000 1000 limit
              (limiter.hits (client_key (λ t. t) (page (codes "/metrics"))))).1)
    × ((call (λ t. t) limiter (page (codes "/metrics")) 1000).0.hits
          (client_key (λ t. t) (page (codes "/metrics")))
        ≡ (allow_hits 60000 1000 limit
            (limiter.hits (client_key (λ t. t) (page (codes "/metrics"))))).0)
    × ((j : Text)
        → client_key (λ t. t) (page (codes "/metrics")) ≢ j
        → (call (λ t. t) limiter (page (codes "/metrics")) 1000).0.hits j ≡ limiter.hits j)
    × ((call (λ t. t) limiter (page (codes "/metrics")) 1000).0.window ≡ 60000)
    × ((call (λ t. t) limiter (page (codes "/metrics")) 1000).0.requests_per_minute ≡ 2)
    × ((call (λ t. t) limiter (page (codes "/metrics")) 1000).0.elevated_requests_per_minute ≡ 3)
call_branches_example =
    (call_branches (λ t. t) limiter (page (codes "/metrics")) 1000).1 refl
      (λ h. metrics_not_health ((is_health_iff (codes "/metrics")).1 h))

client_key_kinds_example :
    (head_is 97 (client_key (λ t. t) (page (codes "/"))) ≡ true) ↔ (api_key (page (codes "/")) ≢ [])
client_key_kinds_example = (client_key_kinds (λ t. t) (page (codes "/"))).2
