-- ===== src/ApiKeys/Handlers.antt =====
-- libs/modules/api-keys/src: the Prisma repository over the table `api_keys`, where every query is one
-- atomic step, and the handlers that create and revoke. `id` and `keyHash` are unique.
use nestjs_fastify_nx.Common.{
  ℕ, String, ◌==◌, Bool, Option, none, some, List, [], ◌∷◌, ◌++◌, ◌&&◌, ◌||◌, not, exists, map,
  is_some, if◌then◌else◌,
}
use nestjs_fastify_nx.Errors.{
  ok, err, fault, domain, Failure, new_domain_exception, field_problem, not_found,
}
use nestjs_fastify_nx.Exec.{Exec, pure, throw, lift, ◌>>=◌, ◌>>◌}
use nestjs_fastify_nx.Authorization.Permissions.{JsonText}
use nestjs_fastify_nx.Authorization.Policy.{user}
use nestjs_fastify_nx.Authorization.Adapter.{Database, permissions_for}
use nestjs_fastify_nx.ApiKeys.Entity.{
  ApiKey, IssueApiKeyInput, GeneratedApiKey, IssuedApiKey, issue,
}

pub record World : Type 0 where
  pub keys : List ApiKey
  pub now : ℕ

-- `where: { id, organizationId }`
abbrev pub is_named : String → String → ApiKey → Bool
is_named organization_id id key = key.id == id && key.organization_id == organization_id

abbrev pub is_live : ApiKey → Bool
is_live key = not (is_some key.revoked_at)

unfoldable pub create : ApiKey → Exec World (Unit {0})
create key w =
    if exists (λ k. k.id == key.id || k.key_hash == key.key_hash) w.keys
    then (err (fault "P2002"), w)
    else (ok tt, record w { keys = w.keys ++ key ∷ [] })

unfoldable pub revoke : String → String → Exec World Bool
revoke organization_id id w = (
  ok (exists (λ key. is_named organization_id id key && is_live key) w.keys),
  record w {
    keys =
        map
          (λ key.
            if is_named organization_id id key && is_live key
            then record key { revoked_at = some w.now }
            else key)
          w.keys;
  },
)

unfoldable pub is_known : String → String → Exec World Bool
is_known organization_id id w = (ok (exists (is_named organization_id id) w.keys), w)

pub record CreateApiKeyCommand : Type 0 where
  pub organization_id : String
  pub user_id : String
  pub name : String
  pub scopes : List String
  pub expires_at : Option ℕ

-- `new Date()` in `ApiKey.issue`
abbrev now_of : Exec World ℕ
now_of w = pure w.now w

module _ (json : JsonText) (db : Database) where
  abbrev pub input_of : CreateApiKeyCommand → IssueApiKeyInput
  input_of command = record {
    organization_id = command.organization_id;
    name = command.name;
    scopes = command.scopes;
    created_by_id = some command.user_id;
    expires_at = command.expires_at;
    granted_to_issuer = permissions_for json db (user command.user_id command.organization_id none);
  }

  unfoldable pub create_api_key :
      CreateApiKeyCommand → GeneratedApiKey → String → Exec World IssuedApiKey
  unfolding create issue
  create_api_key command secret id = do
    now ← now_of
    issued ← lift (issue (input_of command) secret id now)
    create issued.entity
    pure issued

abbrev pub key_not_found : Failure
key_not_found =
    domain (new_domain_exception (field_problem not_found "api_key_not_found" none "id"))

unfoldable pub revoke_api_key : String → String → Exec World (Unit {0})
unfolding revoke is_known
revoke_api_key organization_id id = do
  revoked ← revoke organization_id id
  if revoked
      then pure tt
      else (do known ← is_known organization_id id; if known then pure tt else throw key_not_found)
