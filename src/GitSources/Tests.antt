-- ===== src/GitSources/Tests.antt =====
-- References, branches, watched paths and signatures as texts.
use sarra.Common.{
  arith, inr, ◌↔◌, ◌<◌, length, ◌≡◌, ◌≢◌, refl, true, false, none, some, List, [], ◌∷◌,
}
use sarra.Common.Text.{
  pieces, Text, codes, text_eq, starts_with, ends_with, lower, strip, strip_chars, lstrip, rstrip,
  split, split_aux,
}
use sarra.Common.Utf8.{Bytes}
use sarra.GitSources.{
  segments, github, break_at, host_and_path, scp_like, trimmed_path, holds_text, host_path,
  normalize_repo, same_repo, repo_matches, strip_ref, branch_matches, globs, glob_matches,
  watch_paths_match,
}
use sarra.GitSources.Repos.{repo_matches_lem}
use sarra.GitSources.Webhooks.{
  verify_webhook, verify_github_signature, header_value, partition, compare_digest,
}
use sarra.GitSources.Webhooks.Signatures.{Authentic, verify_webhook_lem}

abbrev urlsplit : Text → Text × Text
urlsplit raw = (codes "github.com", codes "/acme/web/")

scp_reference :
    normalize_repo urlsplit (codes "git@github.com:Acme/Web.git") ≡ codes "github.com/acme/web"
unfolding normalize_repo host_path holds_text scp_like host_and_path break_at trimmed_path strip
    lstrip rstrip strip_chars lower starts_with ends_with text_eq split split_aux
scp_reference = refl

url_reference :
    normalize_repo urlsplit (codes "https://github.com/acme/web/") ≡ codes "github.com/acme/web"
unfolding normalize_repo host_path holds_text scp_like host_and_path break_at trimmed_path strip
    lstrip rstrip strip_chars lower starts_with ends_with text_eq split split_aux
url_reference = refl

-- A reference without a host to a repository in a subgroup does not match the one with its host.
subgroup_reference :
    repo_matches urlsplit (codes "acme/team/web") (codes "git@gitlab.com:acme/team/web.git") ≡ false
unfolding repo_matches same_repo normalize_repo host_path holds_text scp_like host_and_path break_at
    trimmed_path strip lstrip rstrip strip_chars lower starts_with ends_with text_eq split split_aux
subgroup_reference = refl

-- One path at two hosts
repo_matches_lem_example :
    (repo_matches urlsplit (codes "git@gitlab.com:acme/web") (codes "git@github.com:acme/web")
      ≡ true)
    ↔ ((codes "gitlab.com" ≡ codes "github.com")
        × (trimmed_path (codes "acme/web") ≡ trimmed_path (codes "acme/web"))
        × (1 < length (segments (trimmed_path (codes "acme/web")))))
unfolding holds_text strip lstrip rstrip strip_chars lower starts_with
repo_matches_lem_example =
    let (_, _, _, hosted) =
      repo_matches_lem urlsplit (codes "git@gitlab.com:acme/web")
        (codes "git@github.com:acme/web") in
    hosted (codes "gitlab.com") (codes "github.com") (codes "acme/web") (codes "acme/web")
      (inr (
        refl,
        codes "git",
        codes "gitlab.com",
        refl,
        refl,
        (λ e. ground arith),
        (λ e. ground arith),
        refl,
        refl,
        refl,
        refl,
      ))
      (inr (
        refl,
        codes "git",
        codes "github.com",
        refl,
        refl,
        (λ e. ground arith),
        (λ e. ground arith),
        refl,
        refl,
        refl,
        refl,
      ))
      (λ e. ground arith) (λ e. ground arith) refl refl

branch_of_push : branch_matches (codes "main") (codes "refs/heads/main") ≡ true
unfolding branch_matches strip_ref strip strip_chars lstrip rstrip starts_with text_eq
branch_of_push = refl

nothing_watched : watch_paths_match (λ s p. false) (codes " , ") (codes "README.md" ∷ []) ≡ true
unfolding watch_paths_match globs pieces glob_matches strip strip_chars lstrip rstrip
nothing_watched = refl

abbrev hmac : Text → Bytes → Text
hmac secret body = secret

abbrev headers : List (Text × Text)
headers = (codes "X-Hub-Signature-256", codes "sha256=abc") ∷ []

accepted : verify_webhook hmac github (codes "abc") [] headers ≡ some true
unfolding verify_webhook verify_github_signature header_value partition break_at compare_digest
    strip strip_chars lstrip rstrip lower text_eq
accepted = refl

verify_webhook_lem_example : (codes "abc" ≢ []) × Authentic hmac github (codes "abc") [] headers
verify_webhook_lem_example =
    let (a, b, c) = verify_webhook_lem hmac github (codes "abc") [] headers in b accepted

-- `compare_digest` raises on a header that is not ASCII.
not_ascii : compare_digest (codes "abc") (codes "é") ≡ none
unfolding compare_digest
not_ascii = refl
