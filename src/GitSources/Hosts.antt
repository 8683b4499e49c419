-- ===== src/GitSources/Hosts.antt =====
-- References with a host: what `normalize_repo` of syte/platform/git_sources.py makes of them, and
-- when two of them name one repository.
use sarra.Common.{
  ◌<◌, ℕ, ◌≡◌, ◌≢◌, ◌⊎◌, ◌↔◌, refl, sym, ap, ◌∙◌, Bool, true, false, not, some, [], ◌∷◌, ◌++◌,
  length, length-filter-le, any, ◌==◌, ◌||◌, arith, inl, inr, Bool-cases, ltb,
}
use sarra.Common.Text.{Text, codes, text_eq, text_eq_iff, split, split_aux, strip, lower}
use sarra.GitSources.{
  is_nil, is_slash, break_at, host_and_path, scp_like, holds_text, host_path, trimmed_path,
  segments, same_repo, normalize_repo, repo_matches,
}

-- No character of the text passes the test.
abbrev pub Free : (ℕ → Bool) → Text → Type 0
Free p s = any p s ≡ false

-- A reference with a host: an URL, whose host is what `urlsplit` says, or `user@host:path`.
abbrev pub HasHost : (Text → Text × Text) → Text → Text → Text → Type 0
HasHost urlsplit raw host path =
    ((holds_text raw (codes "://") ≡ true)
      × (lower (urlsplit raw).0 ≡ host)
      × ((urlsplit raw).1 ≡ path))
    ⊎ ((holds_text raw (codes "://") ≡ false)
        × (user : Text) × (name : Text) × (raw ≡ user ++ (b'@' ∷ (name ++ (b':' ∷ path))))
        × (lower name ≡ host)
        × (user ≢ [])
        × (name ≢ [])
        × Free (λ c. c == b'@' || is_slash c) user
        × Free (λ c. c == b':' || is_slash c) name
        × Free (λ c. c == 10) path
        × (any is_slash path ≡ true))

is_nil-no : (s : Text) → s ≢ [] → is_nil s ≡ false
is_nil-no [] h = absurd (h refl)
is_nil-no (c ∷ s) h = refl

slash-not_nil : (s : Text) → any is_slash s ≡ true → is_nil s ≡ false
slash-not_nil [] h = ground arith
slash-not_nil (c ∷ s) h = refl

break_at-append :
    (p : ℕ → Bool) (s : Text) (c : ℕ) (rest : Text)
    → Free p s
    → p c ≡ true
    → break_at p (s ++ (c ∷ rest)) ≡ (s, c ∷ rest)
unfolding break_at
break_at-append p [] c rest f h = rw h refl
break_at-append p (d ∷ s) c rest f h =
    let (differs, more) : (p d ≡ false) × (any p s ≡ false) = (ground arith, ground arith) in
    rw (differs, break_at-append p s c rest more h) refl

host_and_path-found :
    (name path : Text)
    → name ≢ []
    → Free (λ c. c == b':' || is_slash c) name
    → Free (λ c. c == 10) path
    → any is_slash path ≡ true
    → host_and_path (name ++ (b':' ∷ path)) ≡ some (name, path)
unfolding host_and_path
host_and_path-found name path full free line slash =
    let at_colon = break_at-append (λ c. c == b':' || is_slash c) name b':' path free refl in
    rw (at_colon, host_and_path)
      (rw (at_colon, is_nil-no name full, slash-not_nil path slash, line) refl)

scp_like-found :
    (user name path : Text)
    → user ≢ []
    → name ≢ []
    → Free (λ c. c == b'@' || is_slash c) user
    → Free (λ c. c == b':' || is_slash c) name
    → Free (λ c. c == 10) path
    → any is_slash path ≡ true
    → scp_like (user ++ (b'@' ∷ (name ++ (b':' ∷ path)))) ≡ some (name, path)
unfolding scp_like
scp_like-found user name path u n free_user free_name line slash =
    rw
      (
        break_at-append (λ c. c == b'@' || is_slash c) user b'@' (name ++ (b':' ∷ path)) free_user
            refl,
        is_nil-no user u,
        host_and_path-found name path n free_name line slash,
      )
      refl

append-not_nil : (s : Text) (c : ℕ) (t : Text) → is_nil (s ++ (c ∷ t)) ≡ false
append-not_nil [] c t = refl
append-not_nil (d ∷ s) c t = refl

holds-not_nil : (raw : Text) → holds_text raw (codes "://") ≡ true → is_nil raw ≡ false
unfolding holds_text
holds-not_nil [] h = ground arith
holds-not_nil (c ∷ s) h = refl

module _ (urlsplit : Text → Text × Text) where
  host_path-found :
      (raw host path : Text)
      → HasHost urlsplit raw host path
      → (host_path urlsplit raw ≡ (host, path)) × (is_nil raw ≡ false)
  unfolding host_path
  host_path-found raw host path (inl (url, h, p)) = (rw (url, h, p) refl, holds-not_nil raw url)
  host_path-found raw host path (inr (scp, user, name, e, h, u, n, fu, fn, line, slash)) = (
    rw scp (rw e (rw (scp_like-found user name path u n fu fn line slash, slash, h) refl)),
    rw e (append-not_nil user b'@' (name ++ (b':' ∷ path))),
  )

  -- The normal form of such a reference whose path has two segments.
  normalize_repo-hosted :
      (value host path : Text)
      → HasHost urlsplit (strip value) host path
      → host ≢ []
      → (1 < length (segments (trimmed_path path))
          → normalize_repo urlsplit value ≡ host ++ (b'/' ∷ trimmed_path path))
        × (length (segments (trimmed_path path)) < 2 → normalize_repo urlsplit value ≡ [])
  unfolding normalize_repo
  normalize_repo-hosted value host path h ne =
      let (e, full) = host_path-found (strip value) host path h in
      (
        λ many.
            let enough : ltb (length (segments (trimmed_path path))) 2 ≡ false = ground arith in
            rw (e, full, enough, is_nil-no host ne) refl,
        λ few.
            let short : ltb (length (segments (trimmed_path path))) 2 ≡ true = ground arith in
            rw (e, full, short) refl,
      )

split_aux-parts :
    (cur s t : Text) → length (split b'/' t) < length (split_aux b'/' cur (s ++ (b'/' ∷ t)))
unfolding split split_aux
split_aux-parts cur [] t = omega arith
split_aux-parts cur (c ∷ s) t =
    ground (arith, split_aux-parts [] s t, split_aux-parts (cur ++ (c ∷ [])) s t)

hosted_parts :
    (host t : Text) → 1 < length (segments t) → 2 < length (split b'/' (host ++ (b'/' ∷ t)))
unfolding split
hosted_parts host t many = omega (
  arith,
  split_aux-parts [] host t,
  length-filter-le (λ (s : Text). not (is_nil s)) (split b'/' t),
)

hosts_same :
    (g h s t : Text)
    → Free is_slash g
    → Free is_slash h
    → g ++ (b'/' ∷ s) ≡ h ++ (b'/' ∷ t)
    → (g ≡ h) × (s ≡ t)
hosts_same [] [] s t fg fh e = (refl, cc)
hosts_same [] (d ∷ h) s t fg fh e = absurd (ground arith)
hosts_same (c ∷ g) [] s t fg fh e = absurd (ground arith)
hosts_same (c ∷ g) (d ∷ h) s t fg fh e =
    let (same, rest) : (c ≡ d) × (g ++ (b'/' ∷ s) ≡ h ++ (b'/' ∷ t)) = (cc, cc) in
    let (p, q) = hosts_same g h s t (ground arith) (ground arith) rest in (cc, q)

same_repo-long :
    (l r : Text)
    → is_nil l ≡ false
    → is_nil r ≡ false
    → 2 < length (split b'/' l)
    → 2 < length (split b'/' r)
    → same_repo l r ≡ text_eq l r
unfolding same_repo
same_repo-long l r nl nr pl pr =
    let (a, b) : (ltb 2 (length (split b'/' l)) ≡ true) × (ltb 2 (length (split b'/' r)) ≡ true) =
      (ground arith, ground arith) in
    rw (nl, nr, a, b) (ground arith)

same_repo-nil : (l r : Text) → (l ≡ []) ⊎ (r ≡ []) → same_repo l r ≡ false
unfolding same_repo
same_repo-nil l r (inl e) = rw e refl
same_repo-nil l r (inr e) = rw e (ground arith)

-- Two normal forms with hosts are taken for one repository when hosts and paths are the same.
hosted_match :
    (g h s t : Text)
    → g ≢ []
    → h ≢ []
    → Free is_slash g
    → Free is_slash h
    → 1 < length (segments s)
    → 1 < length (segments t)
    → (same_repo (g ++ (b'/' ∷ s)) (h ++ (b'/' ∷ t)) ≡ true) ↔ ((g ≡ h) × (s ≡ t))
hosted_match g h s t ng nh fg fh many more =
    let l = g ++ (b'/' ∷ s) in
    let r = h ++ (b'/' ∷ t) in
    let e =
      same_repo-long l r (append-not_nil g b'/' s) (append-not_nil h b'/' t) (hosted_parts g s many)
        (hosted_parts h t more) in
    (
      (λ k. hosts_same g h s t fg fh ((text_eq_iff l r).0 (sym e ∙ k))),
      λ (same_host, same_path). e ∙ (text_eq_iff l r).1 (rw (same_host, same_path) refl),
    )

module _ (urlsplit : Text → Text × Text) (stored incoming g h p q : Text)
    (left : HasHost urlsplit (strip stored) g p) (right : HasHost urlsplit (strip incoming) h q)
    (ng : g ≢ []) (nh : h ≢ []) (fg : Free is_slash g) (fh : Free is_slash h) where
  abbrev Same : Type 0
  Same = (g ≡ h) × (trimmed_path p ≡ trimmed_path q) × (1 < length (segments (trimmed_path p)))

  none_left :
      length (segments (trimmed_path p)) < 2 → (repo_matches urlsplit stored incoming ≡ true) ↔ Same
  unfolding repo_matches
  none_left few =
      let e =
        same_repo-nil (normalize_repo urlsplit stored) (normalize_repo urlsplit incoming)
          (inl ((normalize_repo-hosted urlsplit stored g p left ng).1 few)) in
      ((λ k. absurd (ground (arith, e, k))), λ (same_host, same_path, many). absurd (omega arith))

  none_right :
      length (segments (trimmed_path q)) < 2 → (repo_matches urlsplit stored incoming ≡ true) ↔ Same
  unfolding repo_matches
  none_right few =
      let e =
        same_repo-nil (normalize_repo urlsplit stored) (normalize_repo urlsplit incoming)
          (inr ((normalize_repo-hosted urlsplit incoming h q right nh).1 few)) in
      (
        (λ k. absurd (ground (arith, e, k))),
        λ (same_host, same_path, many).
            let n = ap (λ t. length (segments t)) same_path in absurd (omega (arith, n)),
      )

  both :
      1 < length (segments (trimmed_path p))
      → 1 < length (segments (trimmed_path q))
      → (repo_matches urlsplit stored incoming ≡ true) ↔ Same
  unfolding repo_matches
  both many more =
      let m = hosted_match g h (trimmed_path p) (trimmed_path q) ng nh fg fh many more in
      let el = (normalize_repo-hosted urlsplit stored g p left ng).0 many in
      let er = (normalize_repo-hosted urlsplit incoming h q right nh).0 more in
      let e =
        ap (λ l. same_repo l (normalize_repo urlsplit incoming)) el
        ∙ ap (same_repo (g ++ (b'/' ∷ trimmed_path p))) er in
      (
        (λ k. let (a, b) = m.0 (sym e ∙ k) in (a, b, many)),
        λ (same_host, same_path, _). e ∙ m.1 (same_host, same_path),
      )

  -- References with hosts match when they have the same host and the same path of two segments.
  pub repo_matches-hosted : (repo_matches urlsplit stored incoming ≡ true) ↔ Same
  repo_matches-hosted = elim (Bool-cases (ltb (length (segments (trimmed_path p))) 2)) [
    | inl few ↦ none_left (ground arith)
    | inr many ↦ elim (Bool-cases (ltb (length (segments (trimmed_path q))) 2)) [
      | inl few ↦ none_right (ground arith)
      | inr more ↦ both (ground arith) (ground arith)
    ]
  ]
