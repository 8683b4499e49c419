-- ===== src/GitSources/Repos.antt =====
-- What a match of two references to repositories means.
use sarra.Common.{
  ◌<◌, ◌≡◌, ◌≢◌, ◌↔◌, refl, ap, true, false, List, [], ◌∷◌, length, arith, inl, inr, Bool-cases,
}
use sarra.Common.Text.{Text, text_eq, text_eq_iff, text_eq_refl, split, strip}
use sarra.GitSources.Hosts.{HasHost, Free, repo_matches-hosted}
use sarra.GitSources.{
  segments, trimmed_path, is_slash, is_nil, last_two, texts_eq, same_repo, normalize_repo,
  repo_matches,
}

is_nil_iff : (s : Text) → is_nil s ≡ false → s ≢ []
is_nil_iff [] h e = ground arith
is_nil_iff (c ∷ s) h e = ground arith

is_nil-false : (s : Text) → s ≢ [] → is_nil s ≡ false
is_nil-false [] h = absurd (h refl)
is_nil-false (c ∷ s) h = refl

text_eq_sym : (s t : Text) → text_eq s t ≡ text_eq t s
text_eq_sym s t = ground (arith, text_eq_iff s t, text_eq_iff t s)

texts_eq_sym : (ss ts : List Text) → texts_eq ss ts ≡ texts_eq ts ss
texts_eq_sym [] [] = refl
texts_eq_sym [] (t ∷ ts) = refl
texts_eq_sym (s ∷ ss) [] = refl
texts_eq_sym (s ∷ ss) (t ∷ ts) = rw (text_eq_sym s t, texts_eq_sym ss ts) refl

texts_eq_lem : (ss ts : List Text) → texts_eq ss ts ≡ true → ss ≡ ts
texts_eq_lem [] [] h = refl
texts_eq_lem [] (t ∷ ts) h = ground arith
texts_eq_lem (s ∷ ss) [] h = ground arith
texts_eq_lem (s ∷ ss) (t ∷ ts) h = ground (arith, text_eq_iff s t, texts_eq_lem ss ts)

same_repo_sym : (l r : Text) → same_repo l r ≡ same_repo r l
unfolding same_repo
same_repo_sym l r =
    rw (text_eq_sym l r, texts_eq_sym (last_two (split b'/' l)) (last_two (split b'/' r)))
      (ground arith)

same_repo_lem :
    (l r : Text)
    → same_repo l r ≡ true
    → (l ≢ [])
      × (r ≢ [])
      × (last_two (split b'/' l) ≡ last_two (split b'/' r))
      × (2 < length (split b'/' l) → 2 < length (split b'/' r) → l ≡ r)
unfolding same_repo
same_repo_lem l r h =
    let (nl, nr) : (is_nil l ≡ false) × (is_nil r ≡ false) = (ground arith, ground arith) in
    elim (Bool-cases (text_eq l r)) [
      | inl e ↦
          let same = (text_eq_iff l r).0 e in
          (is_nil_iff l nl, is_nil_iff r nr, ap (λ s. last_two (split b'/' s)) same, λ p q. same)
      | inr e ↦
          let k : texts_eq (last_two (split b'/' l)) (last_two (split b'/' r)) ≡ true =
            ground arith in
          (
            is_nil_iff l nl,
            is_nil_iff r nr,
            texts_eq_lem (last_two (split b'/' l)) (last_two (split b'/' r)) k,
            λ p q. ground arith,
          )
    ]

-- Two references match in either order. If they match, both name a repository and their last two
-- path segments are the same. A reference that names a repository matches itself. If both have a
-- host, as an URL for which `urlsplit` gives one or as `user@host:path` with a slash in the path, and
-- no host has a slash in it, then they match exactly when the hosts are the same in lower case and the
-- paths are the same after `trimmed_path` and have at least two segments: the same path at another
-- host is no match.
pub repo_matches_lem :
    (urlsplit : Text → Text × Text) (stored incoming : Text)
    → (repo_matches urlsplit stored incoming ≡ repo_matches urlsplit incoming stored)
      × (repo_matches urlsplit stored incoming ≡ true
          → (normalize_repo urlsplit stored ≢ [])
            × (normalize_repo urlsplit incoming ≢ [])
            × (last_two (split b'/' (normalize_repo urlsplit stored))
                ≡ last_two (split b'/' (normalize_repo urlsplit incoming))))
      × (normalize_repo urlsplit stored ≢ [] → repo_matches urlsplit stored stored ≡ true)
      × ((g h p q : Text)
          → HasHost urlsplit (strip stored) g p
          → HasHost urlsplit (strip incoming) h q
          → g ≢ []
          → h ≢ []
          → Free is_slash g
          → Free is_slash h
          → (repo_matches urlsplit stored incoming ≡ true) ↔ (
              (g ≡ h)
              × (trimmed_path p ≡ trimmed_path q)
              × (1 < length (segments (trimmed_path p)))))
unfolding repo_matches
repo_matches_lem urlsplit stored incoming =
    let l = normalize_repo urlsplit stored in
    let r = normalize_repo urlsplit incoming in
    (
      same_repo_sym l r,
      (λ m. let (nl, nr, same, _) = same_repo_lem l r m in (nl, nr, same)),
      (λ ne. unfold same_repo in rw (is_nil-false l ne, text_eq_refl l) refl),
      λ g h p q left right ng nh fg fh.
          repo_matches-hosted urlsplit stored incoming g h p q left right ng nh fg fh,
    )
