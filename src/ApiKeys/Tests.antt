-- ===== src/ApiKeys/Tests.antt =====
-- A viewer's key: issued, accepted and revoked.
use nestjs_fastify_nx.Common.{
  String, ◌≡◌, refl, true, false, none, some, [], ◌∷◌, ◌&&◌, not, every, exists, if◌then◌else◌,
}
use nestjs_fastify_nx.Errors.{ok, err}
use nestjs_fastify_nx.Authorization.Permissions.{JsonText, null}
use nestjs_fastify_nx.Authorization.Adapter.{Database}
use nestjs_fastify_nx.ApiKeys.Entity.{ApiKey, GeneratedApiKey}
use nestjs_fastify_nx.ApiKeys.Handlers.{
  World, CreateApiKeyCommand, is_named, is_live, key_not_found, revoke_api_key,
}
use nestjs_fastify_nx.ApiKeys.KeyGuard.{KeyRequest, can_activate, looks_like_api_key}
use nestjs_fastify_nx.ApiKeys.Revocation.{
  IsAccepted, revoke_api_key-revokes, can_activate-IsAccepted,
}

abbrev json : JsonText
json = record { parse = λ t. ok null; stringify = λ value. "null" }

abbrev database : Database
database = record {
  members = record { organization_id = "o1"; user_id = "ann"; role = "viewer" } ∷ [];
  organization_roles = [];
}

abbrev command : CreateApiKeyCommand
command = record {
  organization_id = "o1";
  user_id = "ann";
  name = "ci";
  scopes = "file:read" ∷ [];
  expires_at = some 90;
}

abbrev secret : GeneratedApiKey
secret = record { raw = "sk_0123456789"; prefix = "sk_01234567"; hash = "h" }

abbrev row : ApiKey
row = record {
  id = "k1";
  organization_id = "o1";
  name = "ci";
  prefix = "sk_01234567";
  key_hash = "h";
  scopes = "file:read" ∷ [];
  created_by_id = some "ann";
  expires_at = some 90;
  revoked_at = none;
  created_at = 5;
}

abbrev stored : World
stored = record { keys = row ∷ []; now = 10 }

revoke_api_key-revokes_example :
    (every
        (λ key. not (is_named "o1" "k1" key && is_live key))
        (revoke_api_key "o1" "k1" stored).1.keys
      ≡ true)
    × ((revoke_api_key "o1" "k1" stored).0
        ≡ (if exists (is_named "o1" "k1") stored.keys then ok tt else err key_not_found))
revoke_api_key-revokes_example = revoke_api_key-revokes "o1" "k1" stored

abbrev request : KeyRequest
request = record {
  context_type = "http";
  is_public = false;
  allows_api_key = true;
  x_api_key = some "sk_0123456789";
  authorization = none;
}

abbrev hash : String → String
hash raw = "h"

accepted :
    can_activate hash stored request
    ≡ ok (some (record { api_key_id = "k1"; organization_id = "o1"; scopes = "file:read" ∷ [] }))
unfolding can_activate looks_like_api_key
accepted = refl

can_activate-IsAccepted_example :
    IsAccepted hash stored request
      (record { api_key_id = "k1"; organization_id = "o1"; scopes = "file:read" ∷ [] })
can_activate-IsAccepted_example =
    can_activate-IsAccepted hash stored request
      (record { api_key_id = "k1"; organization_id = "o1"; scopes = "file:read" ∷ [] }) accepted
