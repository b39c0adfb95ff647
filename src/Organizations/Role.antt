-- ===== src/Organizations/Role.antt =====
-- libs/modules/organizations/src/domain/entities/organization-role.entity.ts. The id and the time are
-- given; permissions are texts, as at run time.
use Prim.Native.Char.{code}
use nestjs_fastify_nx.Common.{
  ℕ, String, Option, none, some, List, [], ◌∷◌, Bool, true, false, ◌&&◌, ◌||◌, every, includes,
  distinct, eqb, leb, if◌then◌else◌,
}
use nestjs_fastify_nx.Common.Text.{count}
use nestjs_fastify_nx.Errors.{
  Result, ok, ◌>>=◌, throw_domain, field_problem, validation, forbidden, DomainExceptionOptions,
}
use nestjs_fastify_nx.Authorization.Permissions.{all_permissions, is_system_role}

pub record OrganizationRole : Type 0 where
  pub id : String
  pub organization_id : String
  pub role : String
  pub permissions : List String
  pub created_at : ℕ
  pub updated_at : Option ℕ

pub record CreateOrganizationRoleInput : Type 0 where
  pub id : String
  pub organization_id : String
  pub role : String
  pub permissions : List String
  pub granted_to_actor : List String

-- the `invalid` helper
abbrev invalid : String → String → DomainExceptionOptions
invalid path code = field_problem validation "validation_failed" (some code) path

abbrev is_lower : ℕ → Bool
is_lower c = leb b'a' c && leb c b'z'

-- `[a-z0-9_-]`
abbrev is_name_char : ℕ → Bool
is_name_char c = is_lower c || (leb b'0' c && leb c b'9') || eqb c b'_' || eqb c b'-'

unfoldable pub all_name_chars : String → Bool
all_name_chars String.[] = true
all_name_chars (String.◌∷◌ c s) = is_name_char (code c) && all_name_chars s

-- ROLE_NAME_PATTERN, `^[a-z][a-z0-9_-]{1,49}$`
unfoldable pub matches_role_name : String → Bool
unfolding all_name_chars count
matches_role_name String.[] = false
matches_role_name (String.◌∷◌ c s) =
    is_lower (code c) && all_name_chars s && leb 1 (count s) && leb (count s) 49

unfoldable pub assert_role_name : String → Result String
unfolding matches_role_name is_system_role
assert_role_name role =
    if matches_role_name role
    then (if is_system_role role
        then throw_domain (invalid "role" "reserved_role_name")
        else ok role)
    else throw_domain (invalid "role" "invalid_role_name")

unfoldable pub assert_known_permissions : List String → Result (List String)
unfolding distinct
assert_known_permissions [] = throw_domain (invalid "permissions" "empty_permissions")
assert_known_permissions (p ∷ ps) =
    if every (includes all_permissions) (p ∷ ps)
    then ok (distinct (p ∷ ps))
    else throw_domain (invalid "permissions" "unknown_permission")

unfoldable pub assert_within_actor_grant : List String → List String → Result (List String)
assert_within_actor_grant permissions granted_to_actor =
    if every (includes granted_to_actor) permissions
    then ok permissions
    else throw_domain
        (field_problem forbidden "forbidden" (some "permission_exceeds_grant") "permissions")

unfoldable pub resolve_grantable_permissions : List String → List String → Result (List String)
unfolding assert_known_permissions assert_within_actor_grant
resolve_grantable_permissions permissions granted_to_actor = do
  known ← assert_known_permissions permissions
  assert_within_actor_grant known granted_to_actor

-- `OrganizationRole.create`
unfoldable pub create : CreateOrganizationRoleInput → ℕ → Result OrganizationRole
unfolding assert_role_name resolve_grantable_permissions
create input now = do
  role ← assert_role_name input.role
  permissions ← resolve_grantable_permissions input.permissions input.granted_to_actor
  ok (record {
    id = input.id;
    organization_id = input.organization_id;
    role = role;
    permissions = permissions;
    created_at = now;
    updated_at = none;
  })

unfoldable pub with_permissions :
    OrganizationRole → List String → List String → ℕ → Result OrganizationRole
unfolding resolve_grantable_permissions
with_permissions role permissions granted_to_actor now = do
  grantable ← resolve_grantable_permissions permissions granted_to_actor
  ok (record role { permissions = grantable; updated_at = some now })
