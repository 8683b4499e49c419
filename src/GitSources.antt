-- ===== src/GitSources.antt =====
-- syte/platform/git_sources.py: the identity of repositories and branches, watched paths, and the
-- signatures of webhooks. `urlsplit` (the hostname, empty without one, and the path), `fnmatch` and
-- the hexadecimal HMAC-SHA256 are parameters. `urlsplit` always answers here, where Python's
-- raises ValueError on some malformed URLs; `lower` and `strip` are those of ASCII.
mod Hosts
mod Repos
mod Webhooks
mod Tests
use sarra.Common.{
  ℕ, ◌-◌, String, Bool, true, false, not, Option, none, some, List, [], ◌∷◌, ◌++◌, map, filter, any,
  all, length, take, drop, ltb, leb, ◌==◌, ◌&&◌, ◌||◌, if◌then◌else◌,
}
use sarra.Common.Text.{
  pieces, Text, codes, text_eq, starts_with, ends_with, lower, strip, strip_chars, lstrip, rstrip,
  split,
}
use sarra.Common.Utf8.{Bytes}

abbrev pub is_slash : ℕ → Bool
is_slash c = c == b'/'

-- What comes before the first character that passes, and the rest from that character on
unfoldable pub break_at : (ℕ → Bool) → Text → Text × Text
break_at p [] = ([], [])
break_at p (c ∷ s) = let (a, b) = break_at p s in if p c then ([], c ∷ s) else (c ∷ a, b)

abbrev pub is_nil : Text → Bool
is_nil [] = true
is_nil (c ∷ s) = false

-- `[^:/]+` then a colon, then `.+` to the end, which has no line break
unfoldable pub host_and_path : Text → Option (Text × Text)
unfolding break_at
host_and_path s =
    let (host, rest) = break_at (λ c. c == b':' || is_slash c) s in
    elim rest [
      | [] ↦ none
      | c ∷ path ↦
          if c == b':'
            && (not (is_nil host) && (not (is_nil path) && not (any (λ c. c == 10) path)))
          then some (host, path)
          else none
    ]

abbrev after_user : Text × Text → Option (Text × Text)
after_user (user, []) = none
after_user (user, c ∷ rest) = if c == b'@' && not (is_nil user) then host_and_path rest else none

abbrev or_else : {A : Type 0} → Option A → Option A → Option A
or_else none o = o
or_else (some a) o = some a

-- The match of `_SCP_LIKE_RE`, with the user first and else without
unfoldable pub scp_like : Text → Option (Text × Text)
unfolding break_at host_and_path
scp_like s = or_else (after_user (break_at (λ c. c == b'@' || is_slash c) s)) (host_and_path s)

abbrev segments : Text → List Text
segments path = filter (λ s. not (is_nil s)) (split b'/' path)

unfoldable pub trimmed_path : Text → Text
trimmed_path path =
    let p = strip_chars is_slash path in
    let q = if ends_with (lower p) (codes ".git") then take (length p - 4) p else p in
    lower (strip_chars is_slash q)

abbrev with_host : Text → Text → Text
with_host host path = if is_nil host then path else host ++ (b'/' ∷ path)

unfoldable pub holds_text : Text → Text → Bool
holds_text s [] = true
holds_text [] t = false
holds_text (c ∷ s) t = starts_with (c ∷ s) t || holds_text s t

abbrev scp_or_path : Text → Option (Text × Text) → Text × Text
scp_or_path raw none = ([], raw)
scp_or_path raw (some (host, path)) = if any is_slash path then (lower host, path) else ([], raw)

-- `parts[-2:]`
abbrev pub last_two : List Text → List Text
last_two parts = drop (length parts - 2) parts

abbrev pub texts_eq : List Text → List Text → Bool
texts_eq [] [] = true
texts_eq (s ∷ ss) (t ∷ ts) = text_eq s t && texts_eq ss ts
texts_eq _ _ = false

unfoldable pub same_repo : Text → Text → Bool
same_repo left right =
    if is_nil left || is_nil right
    then false
    else if text_eq left right
    then true
    else if ltb 2 (length (split b'/' left)) && ltb 2 (length (split b'/' right))
    then false
    else texts_eq (last_two (split b'/' left)) (last_two (split b'/' right))

module _ (urlsplit : Text → Text × Text) where
  unfoldable pub host_path : Text → Text × Text
  host_path raw =
      if holds_text raw (codes "://")
      then (let (hostname, path) = urlsplit raw in (lower hostname, path))
      else scp_or_path raw (scp_like raw)

  unfoldable pub normalize_repo : Text → Text
  unfolding host_path trimmed_path
  normalize_repo value =
      let (host, path) = host_path (strip value) in
      let trimmed = trimmed_path path in
      if is_nil (strip value)
      then []
      else if ltb (length (segments trimmed)) 2
      then []
      else with_host host trimmed

  unfoldable pub repo_matches : Text → Text → Bool
  unfolding same_repo normalize_repo
  repo_matches stored incoming = same_repo (normalize_repo stored) (normalize_repo incoming)

pub data Provider : Type 0 where
  github gitlab gitea bitbucket other : Provider

-- `_PROVIDER_HOSTS`
abbrev provider_hosts : List (Text × Provider)
provider_hosts =
    (codes "github.com", github)
    ∷ (codes "gitlab.com", gitlab)
    ∷ (codes "bitbucket.org", bitbucket)
    ∷ (codes "gitea.com", gitea)
    ∷ (codes "codeberg.org", gitea)
    ∷ []

abbrev provider_in : List (Text × Provider) → Text → Provider
provider_in [] normalized = other
provider_in ((host, provider) ∷ rest) normalized =
    if starts_with normalized (host ++ (b'/' ∷ [])) then provider else provider_in rest normalized

unfoldable pub provider_for_repo : (Text → Text × Text) → Text → Provider
unfolding normalize_repo
provider_for_repo urlsplit value = provider_in provider_hosts (normalize_repo urlsplit value)

unfoldable pub strip_ref : Text → Text
strip_ref value =
    let ref = strip value in
    if starts_with ref (codes "refs/heads/")
    then drop 11 ref
    else if starts_with ref (codes "refs/tags/")
    then drop 10 ref
    else ref

unfoldable pub branch_matches : Text → Text → Bool
unfolding strip_ref
branch_matches configured incoming =
    text_eq (strip_ref configured) (strip_ref incoming) && not (is_nil (strip_ref incoming))

-- `splitlines`, where commas were made line breaks first: the empty pieces, of which a pair of
-- characters that ends one line gives one more, are left out.
abbrev pub is_break : ℕ → Bool
is_break c =
    c == b','
    || ((leb 10 c && leb c 13)
        || ((leb 28 c && leb c 30) || (c == 133 || (c == 8232 || c == 8233))))

unfoldable pub globs : Text → List Text
unfolding pieces
globs patterns = filter (λ s. not (is_nil s)) (map strip (pieces is_break [] patterns))

abbrev pub is_dot_or_slash : ℕ → Bool
is_dot_or_slash c = c == b'.' || c == b'/'

module _ (fnmatch : Text → Text → Bool) where
  unfoldable pub glob_matches : Text → Text → Bool
  glob_matches path pattern =
      let normalized = lstrip is_dot_or_slash (strip path) in
      let candidate = lstrip is_dot_or_slash pattern in
      fnmatch normalized candidate || fnmatch normalized (rstrip is_slash candidate ++ codes "/*")

  unfoldable pub watch_paths_match : Text → List Text → Bool
  unfolding glob_matches globs
  watch_paths_match patterns [] = true
  watch_paths_match patterns (file ∷ files) = elim (globs patterns) [
    | [] ↦ true
    | g ∷ gs ↦ any (λ path. any (glob_matches path) (g ∷ gs)) (file ∷ files)
  ]
