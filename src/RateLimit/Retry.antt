-- ===== src/RateLimit/Retry.antt =====
-- What a refused client is told, and how many requests a window can hold.
use sarra.Common.{
  ℕ, suc, ◌+◌, ◌-◌, ◌*◌, ◌/◌, ◌%◌, ◌≤◌, ◌<◌, max, ◌≡◌, ◌≢◌, ◌↔◌, refl, ap, List, [], ◌∷◌, arith,
  length, length-append,
}
use sarra.RateLimit.{allowed, denied, index_error, expire, refuse, allow_hits, limited, respond}

length-expire-le : (window now : ℕ) (hits : List ℕ) → length (expire window now hits) ≤ length hits
unfolding expire
length-expire-le window now [] = omega arith
length-expire-le window now (h ∷ hits) = ground (arith, length-expire-le window now hits)

-- The head of what the loop keeps has not expired.
expire-head :
    (window now h : ℕ) (hits kept : List ℕ) → expire window now hits ≡ h ∷ kept → now < h + window
unfolding expire
expire-head window now h [] kept e = cc
expire-head window now h (x ∷ hits) kept e = ground (arith, expire-head window now h hits kept)

-- Whatever the deque held: a request is refused with an error exactly under the limit 0 with
-- nothing left in the window, and it is let through exactly when fewer than `limit` times are left;
-- then the window holds at most `limit` times with its own.
pub allow_hits_branches :
    (window now limit : ℕ) (hits : List ℕ)
    → ((allow_hits window now limit hits).1 ≡ index_error
        ↔ ((limit ≡ 0) × (expire window now hits ≡ [])))
      × ((allow_hits window now limit hits).1 ≡ allowed ↔ (length (expire window now hits) < limit))
      × ((allow_hits window now limit hits).1 ≡ allowed
          → length (allow_hits window now limit hits).0 ≤ limit)
unfolding allow_hits refuse
allow_hits_branches window now limit hits =
    ground (arith, length-append (expire window now hits) (now ∷ []))

-- What a refusal says of the deque that it leaves.
denied_inv :
    (window now limit r : ℕ) (hits : List ℕ)
    → (allow_hits window now limit hits).1 ≡ denied r
    → (h : ℕ) × (kept : List ℕ) × (expire window now hits ≡ h ∷ kept)
      × (limit ≤ suc (length kept))
      × (r ≡ h + window - now)
      × ((allow_hits window now limit hits).0 ≡ h ∷ kept)
unfolding allow_hits refuse
denied_inv window now limit r hits e = go (expire window now hits) refl
  where
    go :
        (kept : List ℕ)
        → expire window now hits ≡ kept
        → (h : ℕ) × (kept : List ℕ) × (expire window now hits ≡ h ∷ kept)
          × (limit ≤ suc (length kept))
          × (r ≡ h + window - now)
          × ((allow_hits window now limit hits).0 ≡ h ∷ kept)
    go [] k = absurd (ground arith)
    go (h ∷ kept) k = (h, kept, k, ground arith, ground arith, ground arith)

expire-later :
    (window later limit h : ℕ) (kept : List ℕ)
    → limit ≤ suc (length kept)
    → suc (length kept) ≤ limit
    → ((allow_hits window later limit (h ∷ kept)).1 ≡ allowed) ↔ (h + window ≤ later)
unfolding allow_hits expire refuse
expire-later window later limit h kept p q = ground (arith, length-expire-le window later kept)

-- Where the deque holds at most `limit` times, the wait that a refusal states is exact: the next
-- request under the same limit, at any time, is let through if and only if the wait is over by then.
pub retry_exact :
    (window now limit r later : ℕ) (hits : List ℕ)
    → length hits ≤ limit
    → (allow_hits window now limit hits).1 ≡ denied r
    → ((allow_hits window later limit (allow_hits window now limit hits).0).1 ≡ allowed)
      ↔ (now + r ≤ later)
retry_exact window now limit r later hits small e =
    let (h, kept, k, full, wait, left) = denied_inv window now limit r hits e in
    let fits : suc (length kept) ≤ limit =
      omega (arith, ap (length {A = ℕ}) k, length-expire-le window now hits) in
    let live : now < h + window = expire-head window now h hits kept k in
    let exact = expire-later window later limit h kept full fits in
    rw left (λ ok. omega (arith, exact.0 ok), λ over. exact.1 (omega arith))

-- The `Retry-After` header of a refusal with the wait of r ms says one second where the wait is
-- shorter than that, and otherwise the wait in whole seconds, rounded down: a wait that is no whole
-- number of seconds and longer than one ends after the time that the header names.
pub respond-early :
    (r : ℕ)
    → (s : ℕ) × (respond (denied r) ≡ limited s)
      × (r < 2000 → s ≡ 1)
      × (1000 ≤ r → (s * 1000 ≤ r) × (r < s * 1000 + 1000))
      × (1000 ≤ r → r % 1000 ≢ 0 → s * 1000 < r)
unfolding respond
respond-early r =
    (max 1 (r / 1000), refl, λ p. omega arith, λ p. (omega arith, omega arith), λ p q. omega arith)
