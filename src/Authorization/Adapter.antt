-- ===== src/Authorization/Adapter.antt =====
-- libs/infra/authorization/src/lib/base-authorization.adapter.ts, postgres-pbac.adapter.ts and
-- in-memory-authorization.adapter.ts. A query that rejects is not modelled: it rejects the check.
use nestjs_fastify_nx.Common.{
  String, ◌==◌, not, ◌&&◌, Bool, true, false, Option, none, some, List, [], ◌∷◌, ◌++◌, includes,
  keep, map, find, add_all,
}
use nestjs_fastify_nx.Common.Text.{split, trim, contains_char}
use nestjs_fastify_nx.Errors.{Result, ok, err}
use nestjs_fastify_nx.Authorization.Permissions.{
  JsonText, ParsedPermissionStatements, parse_permission_statements, all_permissions,
  system_role_permissions,
}
use nestjs_fastify_nx.Authorization.Policy.{
  Principal, user, api_key, system, ResourceRef, CheckRequest, AccessDecision, AccessFilter,
  PolicyContext, decide_access, decide_filter,
}

-- `permissionsForNonUserPrincipal(principal) ?? []`
unfoldable pub permissions_for_non_user_principal : Principal → List String
permissions_for_non_user_principal (system r) = all_permissions
permissions_for_non_user_principal (api_key k o scopes) = keep (contains_char b':') scopes
permissions_for_non_user_principal (user u o m) = []

-- the rows of `member` and `organization_roles`
pub record Member : Type 0 where
  pub organization_id : String
  pub user_id : String
  pub role : String

pub record CustomRole : Type 0 where
  pub organization_id : String
  pub role : String
  pub permission : String

pub record Database : Type 0 where
  pub members : List Member
  pub organization_roles : List CustomRole

abbrev pub is_membership : String → String → Member → Bool
is_membership organization_id user_id m =
    m.organization_id == organization_id && m.user_id == user_id

abbrev pub role_of : Option Member → Option String
role_of none = none
role_of (some m) = some m.role

unfoldable pub membership_role : Database → Principal → Option String
membership_role db (user u o m) = role_of (find (is_membership o u) db.members)
membership_role db (api_key k o s) = none
membership_role db (system r) = none

-- what the loop over a member's roles collects
pub record Collected : Type 0 where
  pub granted : List String
  pub custom_role_names : List String

-- a system role's permissions are granted; any other name is left for the custom roles
abbrev pub collect_as : String → Collected → Option (List String) → Collected
collect_as role c (some permissions) = record c { granted = add_all c.granted permissions }
collect_as role c none = record c { custom_role_names = c.custom_role_names ++ role ∷ [] }

unfoldable pub collect_role : String → Collected → Collected
collect_role role c = collect_as role c (system_role_permissions role)

unfoldable pub collect_roles : List String → Collected → Collected
unfolding collect_role
collect_roles [] c = c
collect_roles (role ∷ roles) c = collect_roles roles (collect_role role c)

-- the comma-separated list that Better Auth stores
unfoldable pub roles_of : String → List String
unfolding split trim
roles_of raw_role = keep (λ role. not (role == "")) (map trim (split b',' raw_role))

-- a role whose payload does not parse is skipped
abbrev pub grant_parsed : List String → Result ParsedPermissionStatements → List String
grant_parsed granted (ok parsed) = add_all granted parsed.granted
grant_parsed granted (err e) = granted

module _ (json : JsonText) where
  unfoldable pub grant_custom_role : CustomRole → List String → List String
  grant_custom_role row granted =
      grant_parsed granted (parse_permission_statements json row.permission)

  unfoldable pub grant_custom_roles : List CustomRole → List String → List String
  unfolding grant_custom_role
  grant_custom_roles [] granted = granted
  grant_custom_roles (row ∷ rows) granted = grant_custom_roles rows (grant_custom_role row granted)

  unfoldable pub find_custom_roles : Database → String → List String → List CustomRole
  find_custom_roles db organization_id names =
      keep (λ row. row.organization_id == organization_id && includes names row.role)
        db.organization_roles

  -- the second half of `resolvePermissions`, with its early return
  unfoldable pub resolve_collected : Database → String → Collected → List String → List String
  unfolding grant_custom_roles find_custom_roles
  resolve_collected db organization_id c [] = c.granted
  resolve_collected db organization_id c (name ∷ names) =
      grant_custom_roles (find_custom_roles db organization_id (name ∷ names)) c.granted

  unfoldable pub resolve_permissions : Database → String → String → List String
  unfolding collect_roles roles_of resolve_collected
  resolve_permissions db organization_id raw_role =
      let c = collect_roles (roles_of raw_role) (record { granted = []; custom_role_names = [] }) in
      resolve_collected db organization_id c c.custom_role_names

  abbrev pub of_role : Database → Principal → String → Option String → PolicyContext
  of_role db principal organization_id none = record {
    principal = principal;
    permissions = [];
    is_member = false;
  }
  of_role db principal organization_id (some role) = record {
    principal = principal;
    permissions = resolve_permissions db organization_id role;
    is_member = true;
  }

  unfoldable pub policy_context : Database → Principal → PolicyContext
  unfolding membership_role
  policy_context db (user u o m) = of_role db (user u o m) o (membership_role db (user u o m))
  policy_context db (api_key k o s) = record {
    principal = api_key k o s;
    permissions = permissions_for_non_user_principal (api_key k o s);
    is_member = true;
  }
  policy_context db (system r) = record {
    principal = system r;
    permissions = permissions_for_non_user_principal (system r);
    is_member = true;
  }

  unfoldable pub permissions_for : Database → Principal → List String
  unfolding policy_context
  permissions_for db principal = (policy_context db principal).permissions

  unfoldable pub check_many : Database → Principal → List CheckRequest → List AccessDecision
  unfolding policy_context decide_access
  check_many db principal requests = decide_access (policy_context db principal) requests

  abbrev first_decision : List AccessDecision → AccessDecision
  first_decision [] = record { allowed = false; reason = some "no decision produced" }
  first_decision (d ∷ ds) = d

  unfoldable pub check : Database → Principal → String → Option ResourceRef → AccessDecision
  unfolding policy_context decide_access
  check db principal permission resource = first_decision (
      decide_access (policy_context db principal)
        (record { permission = permission; resource = resource } ∷ []))

  unfoldable pub filter : Database → Principal → String → String → AccessFilter
  unfolding policy_context decide_filter
  filter db principal permission resource_type =
      decide_filter (policy_context db principal) permission resource_type
