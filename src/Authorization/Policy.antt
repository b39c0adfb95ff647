-- ===== src/Authorization/Policy.antt =====
-- libs/infra/authorization/src/lib/access-policy.ts, with the types of
-- libs/core/src/lib/authorization/authorization.port.ts that it reads.
use nestjs_fastify_nx.Common.{
  String, ◌==◌, not, ◌||◌, ◌&&◌, Bool, true, false, Option, none, some, List, [], ◌∷◌, includes,
  map, if◌then◌else◌, is_text, truthy,
}
use nestjs_fastify_nx.Authorization.Permissions.{file_read, file_delete, resource_type_of}

pub data Principal : Type 0 where
  user : (user_id organization_id : String) (membership_id : Option String) → Principal
  api_key : (api_key_id organization_id : String) (scopes : List String) → Principal
  system : (reason : String) → Principal

-- `parent` is left out: nothing reads it.
pub record ResourceRef : Type 0 where
  pub resource_type : String
  pub id : String
  pub owner_id : Option String
  pub organization_id : Option String

pub record CheckRequest : Type 0 where
  pub permission : String
  pub resource : Option ResourceRef

pub record AccessDecision : Type 0 where
  pub allowed : Bool
  pub reason : Option String

-- Column and value pairs that a row must have.
abbrev pub Where : Type 0
Where = List (String × String)

-- The kinds `all` and `none`, and the two that carry something.
pub data AccessFilter : Type 0 where
  everything nothing : AccessFilter
  predicate : Where → AccessFilter
  ids : List String → (truncated : Bool) → AccessFilter

abbrev pub owner_scoped_permissions : List String
owner_scoped_permissions = file_read ∷ file_delete ∷ []

abbrev pub membership_independent_permissions : List String
membership_independent_permissions =
    "session:read" ∷ "session:revoke" ∷ "term:read" ∷ "term:accept" ∷ []

abbrev pub cross_organization_reason : String
cross_organization_reason = "resource belongs to another organization"

abbrev pub not_a_member_reason : String
not_a_member_reason = "principal is not a member of the organization"

abbrev pub permission_not_granted_reason : String
permission_not_granted_reason = "permission not granted"

pub data ResourceScope : Type 0 where
  organization organization_self self global : ResourceScope

-- `RESOURCE_SCOPES`; an unknown type has no scope.
unfoldable pub resource_scopes : String → Option ResourceScope
unfolding includes
resource_scopes resource_type =
    if includes
      ("organization" ∷ "member" ∷ "team" ∷ "invitation" ∷ "role" ∷ "file" ∷ "audit_log" ∷ "api_key"
        ∷ "feature_flag" ∷ [])
      resource_type
    then some organization
    else if resource_type == "notification"
    then some organization_self
    else if resource_type == "session"
    then some self
    else if resource_type == "term"
    then some global
    else none

unfoldable pub scope_of : String → Option ResourceScope
unfolding resource_scopes resource_type_of
scope_of permission = resource_scopes (resource_type_of permission)

abbrev pub is_membership_scope : Option ResourceScope → Bool
is_membership_scope (some organization) = true
is_membership_scope (some organization_self) = true
is_membership_scope _ = false

unfoldable pub requires_membership : String → Bool
unfolding scope_of
requires_membership permission = is_membership_scope (scope_of permission)

pub record PolicyContext : Type 0 where
  pub principal : Principal
  pub permissions : List String
  pub is_member : Bool

abbrev pub is_user : Principal → Bool
is_user (user u o m) = true
is_user _ = false

abbrev pub is_system : Principal → Bool
is_system (system r) = true
is_system _ = false

-- `principal.organizationId`, which a system principal lacks
abbrev pub organization_of : Principal → Option String
organization_of (user u o m) = some o
organization_of (api_key k o s) = some o
organization_of (system r) = none

unfoldable pub holds_membership_independent_grant : Principal → String → Bool
holds_membership_independent_grant principal permission =
    is_user principal && includes membership_independent_permissions permission

unfoldable pub holds : PolicyContext → String → Bool
unfolding holds_membership_independent_grant
holds context permission =
    includes context.permissions permission
    || holds_membership_independent_grant context.principal permission

abbrev pub allow : AccessDecision
allow = record { allowed = true; reason = none }

abbrev pub deny : String → AccessDecision
deny reason = record { allowed = false; reason = some reason }

unfoldable pub decide_without_organization : List String → List AccessDecision
decide_without_organization permissions =
    map
      (λ permission.
        if includes membership_independent_permissions permission
        then allow
        else deny permission_not_granted_reason)
      permissions

abbrev pub resource_organization : Option ResourceRef → Option String
resource_organization none = none
resource_organization (some r) = r.organization_id

abbrev pub resource_owner : Option ResourceRef → Option String
resource_owner none = none
resource_owner (some r) = r.owner_id

-- `a !== b`, either of which may be undefined
abbrev pub differs : Option String → Option String → Bool
differs none none = false
differs none (some t) = true
differs (some s) none = true
differs (some s) (some t) = not (s == t)

unfoldable pub is_cross_organization : Principal → Option ResourceRef → Bool
is_cross_organization principal resource =
    truthy (resource_organization resource)
    && not (is_system principal)
    && differs (resource_organization resource) (organization_of principal)

-- `principal.type === 'user' && isMember && request.resource?.ownerId === principal.userId && …`
unfoldable pub holds_owner_grant : PolicyContext → CheckRequest → Bool
holds_owner_grant context request = elim context.principal [
  | user user_id o m ↦
      context.is_member
      && is_text (resource_owner request.resource) user_id
      && includes owner_scoped_permissions request.permission
  | api_key k o s ↦ false
  | system r ↦ false
]

-- the decision on one request
unfoldable pub decide : PolicyContext → CheckRequest → AccessDecision
unfolding holds holds_owner_grant is_cross_organization
decide context request =
    if is_user context.principal && not context.is_member && requires_membership request.permission
    then deny not_a_member_reason
    else if is_cross_organization context.principal request.resource
    then deny cross_organization_reason
    else if holds context request.permission
    then allow
    else if holds_owner_grant context request
    then allow
    else deny permission_not_granted_reason

unfoldable pub decide_access : PolicyContext → List CheckRequest → List AccessDecision
unfolding decide
decide_access context requests = map (decide context) requests

abbrev by_organization : Principal → Where
by_organization (user u o m) = ("organizationId", o) ∷ []
by_organization (api_key k o s) = ("organizationId", o) ∷ []
by_organization (system r) = []

abbrev by_id : Principal → Where
by_id (user u o m) = ("id", o) ∷ []
by_id (api_key k o s) = ("id", o) ∷ []
by_id (system r) = []

-- the `switch` on the resource type's scope; an unknown type falls through, `none` here
unfoldable pub filter_by_scope : Principal → Option ResourceScope → Option AccessFilter
filter_by_scope principal (some organization) = some (predicate (by_organization principal))
filter_by_scope (user u o m) (some organization_self) =
    some (predicate (("organizationId", o) ∷ ("userId", u) ∷ []))
filter_by_scope (api_key k o s) (some organization_self) =
    some (predicate (by_organization (api_key k o s)))
filter_by_scope (system r) (some organization_self) = some (predicate (by_organization (system r)))
filter_by_scope (user u o m) (some self) = some (predicate (("userId", u) ∷ []))
filter_by_scope (api_key k o s) (some self) = some nothing
filter_by_scope (system r) (some self) = some nothing
filter_by_scope principal (some global) = some everything
filter_by_scope principal none = none

-- the owner-scoped branch that follows the `switch`
unfoldable pub filter_by_owner : PolicyContext → String → AccessFilter
filter_by_owner context permission = elim context.principal [
  | user u o m ↦
      if context.is_member && includes owner_scoped_permissions permission
      then predicate (("organizationId", o) ∷ ("userId", u) ∷ [])
      else nothing
  | api_key k o s ↦ nothing
  | system r ↦ nothing
]

abbrev or_filter : Option AccessFilter → AccessFilter → AccessFilter
or_filter none other = other
or_filter (some f) other = f

unfoldable pub decide_filter : PolicyContext → String → String → AccessFilter
unfolding holds filter_by_scope filter_by_owner
decide_filter context permission resource_type =
    if not (resource_type_of permission == resource_type)
    then nothing
    else if is_system context.principal
    then everything
    else if is_user context.principal && not context.is_member && requires_membership permission
    then nothing
    else if holds context permission
    then (if resource_type == "organization"
        then predicate (by_id context.principal)
        else or_filter (filter_by_scope context.principal (resource_scopes resource_type))
            (filter_by_owner context permission))
    else filter_by_owner context permission
