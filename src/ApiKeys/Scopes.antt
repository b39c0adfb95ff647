-- ===== src/ApiKeys/Scopes.antt =====
-- A key cannot do what its issuer cannot.
use nestjs_fastify_nx.Common.{String, Bool, none}
use nestjs_fastify_nx.Authorization.Permissions.{JsonText}
use nestjs_fastify_nx.Authorization.Policy.{Principal, decide}
use nestjs_fastify_nx.Authorization.Adapter.{Database, policy_context}

-- The permission, on no resource in particular.
abbrev pub allows : JsonText → Database → Principal → String → Bool
allows json db principal permission =
    (decide (policy_context json db principal)
      (record { permission = permission; resource = none })).allowed
