-- ===== src/RateLimit/Window.antt =====
-- The deque of a key, and the sliding window of the times at which requests were let through.
use sarra.Common.{
  ℕ, ◌+◌, ◌≤◌, ◌<◌, ◌≡◌, refl, ◌∙◌, true, List, [], ◌∷◌, ◌++◌, arith, length, filter, filter-append,
  All, All-append, leb, ltb, Bool-cases, inl, inr, if◌then◌else◌,
}
use sarra.RateLimit.{Verdict, allowed, expire, refuse, allow_hits}

abbrev pub IsSorted : List ℕ → Type 0
IsSorted [] = Unit
IsSorted (x ∷ xs) = All (λ y. x ≤ y) xs × IsSorted xs

-- What the window ending at `now` holds of a log of times.
abbrev pub recent : ℕ → ℕ → List ℕ → List ℕ
recent window now = filter (λ t. ltb now (t + window))

recent-All :
    (window now h : ℕ) (hits : List ℕ)
    → now < h + window
    → All (λ y. h ≤ y) hits
    → recent window now hits ≡ hits
recent-All window now h [] p a = refl
recent-All window now h (x ∷ hits) p (q, a) = ground (arith, recent-All window now h hits p a)

-- On a sorted deque the loop keeps exactly the recent times.
pub expire-eq-recent :
    (window now : ℕ) (hits : List ℕ)
    → IsSorted hits
    → expire window now hits ≡ recent window now hits
unfolding expire
expire-eq-recent window now [] s = refl
expire-eq-recent window now (h ∷ hits) (a, s) = ground (
  arith,
  expire-eq-recent window now hits s,
  λ (p : now < h + window). recent-All window now h hits p a,
)

pub recent-recent :
    (window now later : ℕ) (log : List ℕ)
    → now ≤ later
    → recent window later (recent window now log) ≡ recent window later log
recent-recent window now later [] h = refl
recent-recent window now later (t ∷ log) h = ground (arith, recent-recent window now later log h)

All-recent :
    (P : ℕ → Type 0) (window now : ℕ) (log : List ℕ) → All P log → All P (recent window now log)
All-recent P window now [] a = tt
All-recent P window now (t ∷ log) (p, a) = elim (Bool-cases (ltb now (t + window))) [
  | inl e ↦ rw e (p, All-recent P window now log a)
  | inr e ↦ rw e (All-recent P window now log a)
]

IsSorted-recent : (window now : ℕ) (log : List ℕ) → IsSorted log → IsSorted (recent window now log)
IsSorted-recent window now [] s = tt
IsSorted-recent window now (t ∷ log) (a, s) = elim (Bool-cases (ltb now (t + window))) [
  | inl e ↦ rw e (All-recent (λ y. t ≤ y) window now log a, IsSorted-recent window now log s)
  | inr e ↦ rw e (IsSorted-recent window now log s)
]

IsSorted-concat :
    (log : List ℕ) (now : ℕ) → IsSorted log → All (λ t. t ≤ now) log → IsSorted (log ++ now ∷ [])
IsSorted-concat [] now s a = (tt, tt)
IsSorted-concat (t ∷ log) now (p, s) (q, a) =
    (All-append (λ y. t ≤ y) log (now ∷ []) p (q, tt), IsSorted-concat log now s a)

All-le_trans : {a b : ℕ} (log : List ℕ) → a ≤ b → All (λ t. t ≤ a) log → All (λ t. t ≤ b) log
All-le_trans [] h p = tt
All-le_trans (t ∷ log) h (q, p) = (omega arith, All-le_trans log h p)

-- The specification: the whole log of admitted times, and a count over the window that ends now.
pub data Decision : Type 0 where
  admit reject : Decision

pub spec : ℕ → ℕ → ℕ → List ℕ → List ℕ × Decision
spec window now limit log =
    if leb limit (length (recent window now log)) then (log, reject) else (log ++ now ∷ [], admit)

abbrev pub decision : Verdict → Decision
decision allowed = admit
decision _ = reject

decision-refuse : (window now : ℕ) (kept : List ℕ) → decision (refuse window now kept) ≡ reject
unfolding refuse
decision-refuse window now [] = refl
decision-refuse window now (h ∷ kept) = refl

-- The deque stands for the log: it is the log's window at the time of the last request.
pub record Represents (window last : ℕ) (hits log : List ℕ) : Type 0 where
  pub window_of : hits ≡ recent window last log
  pub sorted : IsSorted log
  pub past : All (λ t. t ≤ last) log

module _ (window last now limit : ℕ) {hits log : List ℕ} (r : Represents window last hits log)
    (later : last ≤ now) where
  expire-Represents : expire window now hits ≡ recent window now log
  expire-Represents = rw r.window_of (
      expire-eq-recent window now (recent window last log)
        (IsSorted-recent window last log r.sorted)
      ∙ recent-recent window last now log later)

  kept-Represents : Represents window now (recent window now log) log
  kept-Represents = record {
    window_of = refl;
    sorted = r.sorted;
    past = All-le_trans log later r.past;
  }

  -- The request's own time is recent, unless the window has no length.
  admitted-Represents :
      0 < window → Represents window now (recent window now log ++ now ∷ []) (log ++ now ∷ [])
  admitted-Represents pos = record {
    window_of =
        let own : ltb now (now + window) ≡ true = ground arith in
        let split = filter-append (λ t. ltb now (t + window)) log (now ∷ []) in
        ground (arith, split, own);
    sorted = IsSorted-concat log now r.sorted (All-le_trans log later r.past);
    past =
        All-append (λ t. t ≤ now) log (now ∷ []) (All-le_trans log later r.past) (omega arith, tt);
  }

  -- One request: the code and the specification decide alike, and the deque still stands for the log.
  pub allow_hits-Represents :
      0 < window
      → Represents window now (allow_hits window now limit hits).0 (spec window now limit log).0
        × (decision (allow_hits window now limit hits).1 ≡ (spec window now limit log).1)
  unfolding allow_hits spec
  allow_hits-Represents pos = elim (Bool-cases (leb limit (length (recent window now log)))) [
    | inl full ↦
        rw (expire-Represents, full)
          (kept-Represents, decision-refuse window now (recent window now log))
    | inr free ↦ rw (expire-Represents, free) (admitted-Represents pos, refl)
  ]

-- A run of requests for one key, as pairs of a time and a limit.
pub run : ℕ → List ℕ → List (ℕ × ℕ) → List Decision
run window hits [] = []
run window hits ((now, limit) ∷ requests) =
    let (kept, verdict) = allow_hits window now limit hits in
    decision verdict ∷ run window kept requests

pub spec_run : ℕ → List ℕ → List (ℕ × ℕ) → List Decision
spec_run window log [] = []
spec_run window log ((now, limit) ∷ requests) =
    let (log', d) = spec window now limit log in d ∷ spec_run window log' requests

abbrev pub NotBefore : ℕ → List (ℕ × ℕ) → Type 0
NotBefore last [] = Unit
NotBefore last ((now, limit) ∷ requests) = (last ≤ now) × NotBefore now requests

run-Represents :
    (window last : ℕ) {hits log : List ℕ} (requests : List (ℕ × ℕ))
    → 0 < window
    → Represents window last hits log
    → NotBefore last requests
    → run window hits requests ≡ spec_run window log requests
unfolding run spec_run
run-Represents window last [] pos r h = refl
run-Represents window last ((now, limit) ∷ requests) pos r (later, h) =
    let (r', same) = allow_hits-Represents window last now limit r later pos in
    cc (same, run-Represents window now requests pos r' h)

-- For one key with a window of some length and a clock that never goes back, starting from the
-- empty deque, each request of any run is let through exactly when fewer requests than its limit
-- were let through in the window that ends at it.
pub run-eq-spec_run :
    (window : ℕ) (requests : List (ℕ × ℕ))
    → 0 < window
    → NotBefore 0 requests
    → run window [] requests ≡ spec_run window [] requests
run-eq-spec_run window requests pos h =
    run-Represents window 0 requests pos (record { window_of = refl; sorted = tt; past = tt }) h
