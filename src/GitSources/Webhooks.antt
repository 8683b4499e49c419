-- ===== src/GitSources/Webhooks.antt =====
-- Webhook signatures. A comparison of texts that are not ASCII raises `TypeError` in `compare_digest`:
-- that is `none` here. The body and the secret are only hashed, which the parameter `hmac` does.
pub mod Signatures
use sarra.Common.{
  ℕ, String, Bool, true, false, not, Option, none, some, List, [], ◌∷◌, all, ltb, ◌==◌, ◌&&◌, ◌||◌,
  if◌then◌else◌,
}
use sarra.Common.Text.{Text, codes, text_eq, lower, strip}
use sarra.Common.Utf8.{Bytes}
use sarra.GitSources.{is_nil, break_at, Provider, github, gitlab, gitea, bitbucket, other}

-- `GitProvider(value)`, or `OTHER` for a value it has not
unfoldable pub provider_of : Text → Provider
provider_of value =
    if text_eq value (codes "github")
    then github
    else if text_eq value (codes "gitlab")
    then gitlab
    else if text_eq value (codes "gitea")
    then gitea
    else if text_eq value (codes "bitbucket")
    then bitbucket
    else other

abbrev pub is_ascii : Text → Bool
is_ascii = all (λ c. ltb c 128)

-- `hmac.compare_digest`
unfoldable pub compare_digest : Text → Text → Option Bool
compare_digest a b = if is_ascii a && is_ascii b then some (text_eq a b) else none

-- `header.partition("=")`, without the separator
abbrev pub partition_rest : Text × Text → Text × Text
partition_rest (a, []) = (a, [])
partition_rest (a, c ∷ rest) = (a, rest)

unfoldable pub partition : Text → Text × Text
unfolding break_at
partition header = partition_rest (break_at (λ c. c == b'=') header)

-- The values of the last header of a name, in lower case, or the empty text
unfoldable pub header_value : Text → List (Text × Text) → Text → Text
header_value name [] default = default
header_value name ((key, value) ∷ headers) default =
    let found = header_value name headers value in
    let rest = header_value name headers default in if text_eq (lower key) name then found else rest

unfoldable pub verify_gitlab_token : Text → Text → Option Bool
verify_gitlab_token secret header =
    if is_nil secret || is_nil header then some false else compare_digest secret (strip header)

module _ (hmac : Text → Bytes → Text) where
  unfoldable pub verify_github_signature : Text → Bytes → Text → Option Bool
  verify_github_signature secret body header =
      let (algorithm, digest) = partition header in
      if is_nil secret || is_nil header
      then some false
      else if not (text_eq algorithm (codes "sha256")) || is_nil digest
      then some false
      else compare_digest (hmac secret body) (strip digest)

  unfoldable pub verify_gitea_signature : Text → Bytes → Text → Option Bool
  verify_gitea_signature secret body header =
      if is_nil secret || is_nil header
      then some false
      else compare_digest (hmac secret body) (strip header)

  -- Whether the delivery is accepted; the message goes with the answer and is left out.
  unfoldable pub verify_webhook : Provider → Text → Bytes → List (Text × Text) → Option Bool
  verify_webhook provider secret body headers =
      let github_answer =
        verify_github_signature secret body
          (header_value (codes "x-hub-signature-256") headers []) in
      if is_nil secret then some false else elim provider [
        | github ↦ github_answer
        | gitlab ↦ verify_gitlab_token secret (header_value (codes "x-gitlab-token") headers [])
        | gitea ↦
            verify_gitea_signature secret body (header_value (codes "x-gitea-signature") headers [])
        | bitbucket ↦ some true
        | other ↦ github_answer
      ]
