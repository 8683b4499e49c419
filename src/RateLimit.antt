-- ===== src/RateLimit.antt =====
-- syte/rate_limit.py: the sliding-window limiter in front of the HTTP application.
-- A time is a whole number of milliseconds of the monotonic clock, and it is an argument. The
-- comparison `hits[0] <= now - window` is written `hits[0] + window <= now`. SHA-256 is a
-- parameter, and so is the application behind the limiter: `passed` stands for the call of it.
pub mod Window
pub mod Retry
pub mod Paths
pub mod Requests
mod Tests
use sarra.Common.{
  ℕ, ◌+◌, ◌-◌, ◌/◌, max, Bool, true, false, ◌||◌, Option, none, some, List, [], ◌∷◌, ◌++◌, length,
  any, leb, if◌then◌else◌,
}
use sarra.Common.Text.{Text, codes, text_eq, starts_with, ends_with, lower, strip}

pub data Verdict : Type 0 where
  allowed : Verdict
  denied : (retry_after : ℕ) → Verdict
  index_error : Verdict

-- `while hits and hits[0] <= cutoff: hits.popleft()`
unfoldable pub expire : ℕ → ℕ → List ℕ → List ℕ
expire window now [] = []
expire window now (h ∷ hits) =
    let rest = expire window now hits in if leb (h + window) now then rest else h ∷ hits

-- `window - (now - hits[0])` where the window is full; an empty deque has no first item
unfoldable pub refuse : ℕ → ℕ → List ℕ → Verdict
refuse window now [] = index_error
refuse window now (h ∷ hits) = denied (h + window - now)

-- The body of `_allow` on the deque of one key.
unfoldable pub allow_hits : ℕ → ℕ → ℕ → List ℕ → List ℕ × Verdict
unfolding expire refuse
allow_hits window now limit hits =
    let kept = expire window now hits in
    if leb limit (length kept) then (kept, refuse window now kept) else (kept ++ now ∷ [], allowed)

pub record Limiter : Type 0 where
  pub requests_per_minute : ℕ
  pub elevated_requests_per_minute : ℕ
  pub window : ℕ
  pub hits : Text → List ℕ

abbrev pub update : (Text → List ℕ) → Text → List ℕ → Text → List ℕ
update f k v j = if text_eq k j then v else f j

unfoldable pub allow : Limiter → Text → ℕ → ℕ → Limiter × Verdict
unfolding allow_hits
allow l key limit now =
    let (kept, verdict) = allow_hits l.window now limit (l.hits key) in
    (record l { hits = update l.hits key kept }, verdict)

pub record Scope : Type 0 where
  pub type : Text
  pub path : Text
  pub headers : List (Text × Text)
  pub client : Option Text

unfoldable pub is_health : Text → Bool
unfolding text_eq ends_with
is_health path =
    text_eq path (codes "/health")
    || text_eq path (codes "/api/health")
    || ends_with path (codes "/health")

unfoldable pub is_elevated : Text → Bool
unfolding text_eq starts_with
is_elevated path =
    any (starts_with path)
      (codes "/openapi" ∷ codes "/static" ∷ codes "/api/" ∷ codes "/sycord/" ∷ [])
    || any (text_eq path) (codes "/api" ∷ codes "/sycord" ∷ codes "/sycord/" ∷ [])

-- The dictionary of the headers keeps the last of two headers with one name.
unfoldable pub header : Text → List (Text × Text) → Text → Text
unfolding text_eq lower
header name [] found = found
header name ((k, v) ∷ headers) found =
    header name headers (if text_eq (lower k) name then v else found)

module _ (sha256 : Text → Text) where
  unfoldable pub client_key : Scope → Text
  client_key scope = elim (strip (header (codes "x-api-key") scope.headers [])) [
    | c ∷ key ↦ codes "api:" ++ sha256 (c ∷ key)
    | [] ↦ elim scope.client [ none ↦ codes "ip:unknown" | some host ↦ codes "ip:" ++ host ]
  ]

-- `limited` is the 429 response with its `Retry-After` header.
pub data Response : Type 0 where
  passed : Response
  limited : (retry_after_seconds : ℕ) → Response
  failed : Response

unfoldable pub respond : Verdict → Response
respond allowed = passed
respond (denied retry_after) = limited (max 1 (retry_after / 1000))
respond index_error = failed

unfoldable pub limit_for : Limiter → Text → ℕ
unfolding is_elevated
limit_for l path =
    if is_elevated path then l.elevated_requests_per_minute else l.requests_per_minute

module _ (sha256 : Text → Text) where
  -- `__call__` at the time `now`
  unfoldable pub call : Limiter → Scope → ℕ → Limiter × Response
  call l scope now =
      if text_eq scope.type (codes "http")
      then if is_health scope.path
        then (l, passed)
        else (let (l', verdict) = allow l (client_key sha256 scope) (limit_for l scope.path) now in
            (l', respond verdict))
      else (l, passed)
