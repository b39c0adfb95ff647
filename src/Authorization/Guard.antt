-- ===== src/Authorization/Guard.antt =====
-- libs/infra/authorization/src/lib/permission.guard.ts and
-- libs/infra/auth/src/lib/require-organization.ts. Reflection metadata and the request are inputs.
use nestjs_fastify_nx.Common.{
  String, Bool, true, Option, none, some, List, [], ◌∷◌, every, map, not, ◌&&◌, truthy, or_else,
  if◌then◌else◌, ◌==◌,
}
use nestjs_fastify_nx.Errors.{Result, ok, ◌>>=◌, throw_domain, DomainExceptionOptions, forbidden}
use nestjs_fastify_nx.Authorization.Policy.{
  Principal, user, api_key, CheckRequest, AccessDecision, requires_membership,
  decide_without_organization,
}

pub record AuthenticatedSession : Type 0 where
  pub session_id : String
  pub user_id : String
  pub organization_id : Option String

pub record AuthenticatedApiKey : Type 0 where
  pub api_key_id : String
  pub organization_id : String
  pub scopes : List String

-- what the guard reads of an execution context
pub record ExecutionContext : Type 0 where
  pub context_type : String
  pub is_public : Bool
  pub required : Option (List String)
  pub api_key : Option AuthenticatedApiKey
  pub user : Option AuthenticatedSession

abbrev pub forbidden_permission : DomainExceptionOptions
forbidden_permission = record {
  kind = some forbidden;
  code = some "forbidden";
  violations = record { path = "permission"; code = "permission_denied" } ∷ [];
  permanent = none;
}

abbrev organization_context_required : DomainExceptionOptions
organization_context_required = record {
  kind = some forbidden;
  code = some "organization_context_required";
  violations =
      record { path = "session.activeOrganizationId"; code = "organization_context_required" } ∷ [];
  permanent = none;
}

unfoldable pub require_organization_id : AuthenticatedSession → Result String
require_organization_id session =
    if truthy session.organization_id
    then ok (or_else session.organization_id "")
    else throw_domain organization_context_required

-- `decisions.findIndex((decision) => !decision.allowed) >= 0`
unfoldable pub has_denied : List AccessDecision → Bool
has_denied decisions = not (every (λ d. d.allowed) decisions)

abbrev requests_for : List String → List CheckRequest
requests_for required = map (λ p. record { permission = p; resource = none }) required

module _ (check_many : Principal → List CheckRequest → Result (List AccessDecision)) where
  unfoldable pub decide_session : AuthenticatedSession → List String → Result (List AccessDecision)
  unfolding require_organization_id
  decide_session session required =
      if not (truthy session.organization_id)
        && every (λ permission. not (requires_membership permission)) required
      then ok (decide_without_organization required)
      else do
        organization_id ← require_organization_id session
        check_many (user session.user_id organization_id none) (requests_for required)

  unfoldable pub decide_required : ExecutionContext → List String → Result (List AccessDecision)
  unfolding decide_session
  decide_required context required = elim context.api_key [
    | some key ↦
        check_many (api_key key.api_key_id key.organization_id key.scopes) (requests_for required)
    | none ↦ elim context.user [
      | none ↦ throw_domain forbidden_permission
      | some session ↦ decide_session session required
    ]
  ]

  unfoldable pub require_all : ExecutionContext → List String → Result Bool
  unfolding decide_required has_denied
  require_all context required = do
    decisions ← decide_required context required
    if has_denied decisions then throw_domain forbidden_permission else ok true

  unfoldable pub can_activate : ExecutionContext → Result Bool
  unfolding require_all
  can_activate context =
      if context.context_type == "ws"
      then ok true
      else if context.is_public
      then ok true
      else elim context.required [
        | none ↦ ok true
        | some [] ↦ ok true
        | some (p ∷ ps) ↦ require_all context (p ∷ ps)
      ]
