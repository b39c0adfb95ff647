-- ===== src/ApiKeys/Entity.antt =====
-- libs/modules/api-keys/src/domain/entities/api-key.entity.ts. The secret, the id and the time are
-- given; `lastUsedAt`, which only tells when a key was used, is left out.
use nestjs_fastify_nx.Common.{
  ℕ, String, ◌==◌, Option, none, some, List, [], ◌∷◌, every, includes, distinct, leb, if◌then◌else◌,
}
use nestjs_fastify_nx.Common.Text.{trim}
use nestjs_fastify_nx.Errors.{
  Result, ok, ◌>>=◌, throw_domain, field_problem, validation, DomainExceptionOptions,
}
use nestjs_fastify_nx.Authorization.Permissions.{all_permissions}

pub record ApiKey : Type 0 where
  pub id : String
  pub organization_id : String
  pub name : String
  pub prefix : String
  pub key_hash : String
  pub scopes : List String
  pub created_by_id : Option String
  pub expires_at : Option ℕ
  pub revoked_at : Option ℕ
  pub created_at : ℕ

pub record IssueApiKeyInput : Type 0 where
  pub organization_id : String
  pub name : String
  pub scopes : List String
  pub created_by_id : Option String
  pub expires_at : Option ℕ
  pub granted_to_issuer : List String

pub record GeneratedApiKey : Type 0 where
  pub raw : String
  pub prefix : String
  pub hash : String

pub record IssuedApiKey : Type 0 where
  pub entity : ApiKey
  pub raw : String

-- the `validation` helper
abbrev invalid : String → String → DomainExceptionOptions
invalid path code = field_problem validation code none path

unfoldable pub assert_non_empty_name : String → Result String
unfolding trim
assert_non_empty_name name =
    let trimmed = trim name in
    if trimmed == "" then throw_domain (invalid "name" "validation_failed") else ok trimmed

unfoldable pub assert_scopes : List String → List String → Result (List String)
unfolding distinct
assert_scopes [] granted_to_issuer = throw_domain (invalid "scopes" "validation_failed")
assert_scopes (scope ∷ more) granted_to_issuer =
    let scopes = scope ∷ more in
    if every (includes all_permissions) scopes
    then (if every (includes granted_to_issuer) scopes
        then ok (distinct scopes)
        else throw_domain (invalid "scopes" "api_key_scope_exceeds_grant"))
    else throw_domain (invalid "scopes" "validation_failed")

unfoldable pub assert_future_expiry : Option ℕ → ℕ → Result (Option ℕ)
assert_future_expiry none now = ok none
assert_future_expiry (some expires_at) now =
    if leb expires_at now
    then throw_domain (invalid "expiresAt" "validation_failed")
    else ok (some expires_at)

-- `ApiKey.issue`
unfoldable pub issue : IssueApiKeyInput → GeneratedApiKey → String → ℕ → Result IssuedApiKey
unfolding assert_scopes assert_future_expiry assert_non_empty_name
issue input secret id now = do
  scopes ← assert_scopes input.scopes input.granted_to_issuer
  expires_at ← assert_future_expiry input.expires_at now
  name ← assert_non_empty_name input.name
  ok (record {
    entity = record {
      id = id;
      organization_id = input.organization_id;
      name = name;
      prefix = secret.prefix;
      key_hash = secret.hash;
      scopes = scopes;
      created_by_id = input.created_by_id;
      expires_at = expires_at;
      revoked_at = none;
      created_at = now;
    };
    raw = secret.raw;
  })
