-- ===== src/ApiKeys/KeyGuard.antt =====
-- libs/infra/auth/src/lib/api-key.guard.ts and libs/shared/src/lib/api-key.ts. The hash is a parameter;
-- the stamp of `lastUsedAt` and the request context are left out.
use text.Mathlib.Text.{starts_with}
use nestjs_fastify_nx.Common.{
  ℕ, zero, suc, String, ◌==◌, Bool, false, Option, none, some, ◌&&◌, is_some, find, ltb, leb,
  if◌then◌else◌,
}
use nestjs_fastify_nx.Common.Text.{trim, count}
use nestjs_fastify_nx.Errors.{Result, ok, err, fault, Failure}
use nestjs_fastify_nx.Authorization.Guard.{AuthenticatedApiKey}
use nestjs_fastify_nx.ApiKeys.Entity.{ApiKey}
use nestjs_fastify_nx.ApiKeys.Handlers.{World}

unfoldable pub looks_like_api_key : String → Bool
unfolding count
looks_like_api_key candidate = starts_with candidate "sk_" && ltb 11 (count candidate)

-- `s.slice(n)`
drop_chars : ℕ → String → String
drop_chars zero s = s
drop_chars (suc n) String.[] = ""
drop_chars (suc n) (String.◌∷◌ c s) = drop_chars n s

-- what the guard reads of a request
pub record KeyRequest : Type 0 where
  pub context_type : String
  pub is_public : Bool
  pub allows_api_key : Bool
  pub x_api_key : Option String
  pub authorization : Option String

unfoldable pub bearer_key : Option String → Option String
unfolding drop_chars trim looks_like_api_key
bearer_key none = none
bearer_key (some header) =
    let candidate = trim (drop_chars 7 header) in
    if starts_with header "Bearer "
    then (if looks_like_api_key candidate then some candidate else none)
    else none

unfoldable pub extract_key : KeyRequest → Option String
unfolding bearer_key looks_like_api_key
extract_key request = elim request.x_api_key [
  | none ↦ bearer_key request.authorization
  | some header ↦
      if looks_like_api_key header then some header else bearer_key request.authorization
]

abbrev pub invalid_credential : Failure
invalid_credential = fault "API key is missing, revoked, or expired"

abbrev pub has_expired : ℕ → Option ℕ → Bool
has_expired now none = false
has_expired now (some expires_at) = leb expires_at now

abbrev pub accept : ℕ → Option ApiKey → Result (Option AuthenticatedApiKey)
accept now none = err invalid_credential
accept now (some row) =
    if is_some row.revoked_at
    then err invalid_credential
    else if has_expired now row.expires_at
    then err invalid_credential
    else ok (
        some (record {
          api_key_id = row.id;
          organization_id = row.organization_id;
          scopes = row.scopes;
        }))

module _ (hash : String → String) where
  abbrev pub find_key : World → String → Option ApiKey
  find_key w presented = find (λ key. key.key_hash == hash presented) w.keys

  abbrev pub check_presented :
      World → KeyRequest → Option String → Result (Option AuthenticatedApiKey)
  check_presented w request none = ok none
  check_presented w request (some presented) =
      if request.allows_api_key then accept w.now (find_key w presented) else err invalid_credential

  -- `canActivate`: the key that it attaches to the request, if any
  unfoldable pub can_activate : World → KeyRequest → Result (Option AuthenticatedApiKey)
  unfolding extract_key
  can_activate w request =
      if request.context_type == "ws"
      then ok none
      else if request.is_public
      then ok none
      else check_presented w request (extract_key request)
