-- ===== src/GitSources/Webhooks/Signatures.antt =====
-- What an accepted webhook shows.
use sarra.Common.{
  ℕ, ◌≡◌, ◌≢◌, refl, sym, ap, ◌∙◌, Bool, true, false, some, List, [], ◌∷◌, ◌++◌, ◌==◌, arith, inl,
  inr, Bool-cases,
}
use sarra.Common.Text.{Text, codes, text_eq, text_eq_iff, text_eq_refl, strip}
use sarra.Common.Utf8.{Bytes}
use sarra.GitSources.{is_nil, break_at, Provider, github, gitlab, gitea, bitbucket, other}
use sarra.GitSources.Webhooks.{
  is_ascii, compare_digest, partition, partition_rest, header_value, verify_gitlab_token,
  verify_github_signature, verify_gitea_signature, verify_webhook,
}

compare_digest_lem : (a b : Text) → compare_digest a b ≡ some true → (a ≡ b) × (is_ascii a ≡ true)
unfolding compare_digest
compare_digest_lem a b h = ground (arith, text_eq_iff a b)

compare_digest_same : (a : Text) → is_ascii a ≡ true → compare_digest a a ≡ some true
unfolding compare_digest
compare_digest_same a h = rw (h, text_eq_refl a) refl

-- What was cut at a character
break_lem : (p : ℕ → Bool) (s : Text) → (break_at p s).0 ++ (break_at p s).1 ≡ s
unfolding break_at
break_lem p [] = refl
break_lem p (c ∷ s) = elim (Bool-cases (p c)) [
  | inl e ↦ rw e refl
  | inr e ↦ rw e (ap (λ (t : Text). c ∷ t) (break_lem p s))
]

break_head :
    (p : ℕ → Bool) (s : Text) (c : ℕ) (rest : Text) → (break_at p s).1 ≡ c ∷ rest → p c ≡ true
unfolding break_at
break_head p [] c rest h = ground arith
break_head p (d ∷ s) c rest h = elim (Bool-cases (p d)) [
  | inl e ↦ ground arith
  | inr e ↦ break_head p s c rest (ground arith)
]

-- What a signature header of GitHub's form holds
abbrev pub Signs : (Text → Bytes → Text) → Text → Bytes → Text → Type 0
Signs hmac secret body header =
    (digest : Text) × (header ≡ codes "sha256=" ++ digest)
    × (digest ≢ [])
    × (strip digest ≡ hmac secret body)

nil_apart : (s : Text) → is_nil s ≡ false → s ≢ []
nil_apart s h e = ground (arith, ap is_nil e)

apart_nil : (s : Text) → s ≢ [] → is_nil s ≡ false
apart_nil [] h = absurd (h refl)
apart_nil (c ∷ s) h = refl

partition_rest_lem :
    (s before after : Text)
    → before ++ after ≡ s
    → ((c : ℕ) (rest : Text) → after ≡ c ∷ rest → (c == b'=') ≡ true)
    → is_nil (partition_rest (before, after)).1 ≡ false
    → s ≡ (partition_rest (before, after)).0 ++ (b'=' ∷ (partition_rest (before, after)).1)
partition_rest_lem s before [] e f h = ground arith
partition_rest_lem s before (c ∷ rest) e f h =
    let same : c ≡ b'=' = ground (arith, f c rest refl) in
    sym e ∙ ap (λ c. before ++ (c ∷ rest)) same

partition_lem :
    (s : Text) → is_nil (partition s).1 ≡ false → s ≡ (partition s).0 ++ (b'=' ∷ (partition s).1)
unfolding partition
partition_lem s h =
    let broken = break_at (λ c. c == b'=') s in
    partition_rest_lem s broken.0 broken.1 (break_lem (λ c. c == b'=') s)
      (break_head (λ c. c == b'=') s) h

github_sound :
    (hmac : Text → Bytes → Text) (secret : Text) (body : Bytes) (header : Text)
    → verify_github_signature hmac secret body header ≡ some true
    → Signs hmac secret body header
unfolding verify_github_signature
github_sound hmac secret body header h =
    let named : text_eq (partition header).0 (codes "sha256") ≡ true = ground arith in
    let some_digest : is_nil (partition header).1 ≡ false = ground arith in
    let compared : compare_digest (hmac secret body) (strip (partition header).1) ≡ some true =
      ground arith in
    let (same, ascii) =
      compare_digest_lem (hmac secret body) (strip (partition header).1) compared in
    (
      (partition header).1,
      partition_lem header some_digest
          ∙ ap (λ (t : Text). t ++ (b'=' ∷ (partition header).1))
              ((text_eq_iff (partition header).0 (codes "sha256")).0 named),
      nil_apart (partition header).1 some_digest,
      sym same,
    )

github_complete :
    (hmac : Text → Bytes → Text) (secret : Text) (body : Bytes) (header : Text)
    → is_nil secret ≡ false
    → is_ascii (hmac secret body) ≡ true
    → Signs hmac secret body header
    → verify_github_signature hmac secret body header ≡ some true
unfolding verify_github_signature partition break_at text_eq
github_complete hmac secret body header n a (digest, e, m, same) =
    rw (e, n, apart_nil digest m, same) (compare_digest_same (hmac secret body) a)

-- What an accepted delivery shows, by the provider
abbrev pub Authentic : (Text → Bytes → Text) → Provider → Text → Bytes → List (Text × Text) → Type 0
Authentic hmac github secret body headers =
    Signs hmac secret body (header_value (codes "x-hub-signature-256") headers [])
Authentic hmac gitlab secret body headers =
    strip (header_value (codes "x-gitlab-token") headers []) ≡ secret
Authentic hmac gitea secret body headers =
    strip (header_value (codes "x-gitea-signature") headers []) ≡ hmac secret body
Authentic hmac bitbucket secret body headers = Unit
Authentic hmac other secret body headers =
    Signs hmac secret body (header_value (codes "x-hub-signature-256") headers [])

gitlab_sound :
    (secret header : Text) → verify_gitlab_token secret header ≡ some true → strip header ≡ secret
unfolding verify_gitlab_token
gitlab_sound secret header h =
    let compared : compare_digest secret (strip header) ≡ some true = ground arith in
    sym (compare_digest_lem secret (strip header) compared).0

gitea_sound :
    (hmac : Text → Bytes → Text) (secret : Text) (body : Bytes) (header : Text)
    → verify_gitea_signature hmac secret body header ≡ some true
    → strip header ≡ hmac secret body
unfolding verify_gitea_signature
gitea_sound hmac secret body header h =
    let compared : compare_digest (hmac secret body) (strip header) ≡ some true = ground arith in
    sym (compare_digest_lem (hmac secret body) (strip header) compared).0

module _ (hmac : Text → Bytes → Text) (secret : Text) (body : Bytes)
    (headers : List (Text × Text)) where
  verify_webhook-some :
      (provider : Provider)
      → is_nil secret ≡ false
      → verify_webhook hmac provider secret body headers ≡ some true
      → Authentic hmac provider secret body headers
  unfolding verify_webhook
  verify_webhook-some github n h = github_sound hmac secret body _ (ground arith)
  verify_webhook-some gitlab n h = gitlab_sound secret _ (ground arith)
  verify_webhook-some gitea n h = gitea_sound hmac secret body _ (ground arith)
  verify_webhook-some bitbucket n h = tt
  verify_webhook-some other n h = github_sound hmac secret body _ (ground arith)

  verify_webhook_none :
      (provider : Provider)
      → is_nil secret ≡ true
      → verify_webhook hmac provider secret body headers ≡ some false
  unfolding verify_webhook
  verify_webhook_none provider h = rw h refl

  verify_webhook_github :
      is_nil secret ≡ false
      → is_ascii (hmac secret body) ≡ true
      → Authentic hmac github secret body headers
      → verify_webhook hmac github secret body headers ≡ some true
  unfolding verify_webhook
  verify_webhook_github n a s = rw n (github_complete hmac secret body _ n a s)

-- Without a secret every delivery is refused. One that is accepted shows, for GitHub and for a
-- provider that is not known, the digest of the body under the secret, after `sha256=`; for Gitea
-- the digest alone, for GitLab the secret itself, each but for white space around it; for Bitbucket
-- it shows nothing. A delivery of GitHub that shows its digest is accepted, if digests are ASCII.
pub verify_webhook_lem :
    (hmac : Text → Bytes → Text) (provider : Provider) (secret : Text) (body : Bytes)
    (headers : List (Text × Text))
    → (secret ≡ [] → verify_webhook hmac provider secret body headers ≡ some false)
      × (verify_webhook hmac provider secret body headers ≡ some true
          → (secret ≢ []) × Authentic hmac provider secret body headers)
      × (secret ≢ []
          → is_ascii (hmac secret body) ≡ true
          → Authentic hmac github secret body headers
          → verify_webhook hmac github secret body headers ≡ some true)
verify_webhook_lem hmac provider secret body headers = (
  (λ e. verify_webhook_none hmac secret body headers provider (ap is_nil e)),
  (λ h. elim (Bool-cases (is_nil secret)) [
    | inl n ↦ absurd (ground (arith, verify_webhook_none hmac secret body headers provider n, h))
    | inr n ↦ (nil_apart secret n, verify_webhook-some hmac secret body headers provider n h)
  ]),
  λ m a s. verify_webhook_github hmac secret body headers (apart_nil secret m) a s,
)
