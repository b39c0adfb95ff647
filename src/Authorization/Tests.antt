-- ===== src/Authorization/Tests.antt =====
-- The authorization subsystem on a small organization.
use nestjs_fastify_nx.Common.{
  String, ◌≡◌, refl, ap, ◌↔◌, true, false, none, some, List, [], ◌∷◌, includes, exists, ◌||◌, ◌&&◌,
  ◌==◌, if◌then◌else◌, add_all,
}
use nestjs_fastify_nx.Errors.{ok, err, fault, domain, new_domain_exception}
use nestjs_fastify_nx.Authorization.Permissions.{
  Json, obj, arr, text, cons, nil, field, end, JsonText, group_permissions_by_resource, fields_of,
  parse_permission_statements, serialize_permission_statements, resource_type_of,
  ParsedPermissionStatements, system_role_permissions,
}
use nestjs_fastify_nx.Authorization.Policy.{
  Principal, user, scope_of, decide, decide_filter, requires_membership,
}
use nestjs_fastify_nx.Authorization.Adapter.{Database, resolve_permissions, roles_of, check_many}
use nestjs_fastify_nx.Authorization.Guard.{
  ExecutionContext, AuthenticatedSession, can_activate, forbidden_permission,
}
use nestjs_fastify_nx.Authorization.Decisions.{context, IsReachable, IsEntitled, decide_iff}
use nestjs_fastify_nx.Authorization.Filters.{Row, admits, request_for, decide_filter-agrees}
use nestjs_fastify_nx.Authorization.Grants.{
  system_grants, is_row_of, custom_names, row_grants, resolve_permissions-includes,
}
use nestjs_fastify_nx.Authorization.Statements.{parse-serialize}
use nestjs_fastify_nx.Authorization.Activation.{port, IsAdmitted, can_activate_iff}

code : Unit {0}
unfolding decide decide_filter resolve_permissions check_many can_activate
    parse_permission_statements serialize_permission_statements group_permissions_by_resource
    resource_type_of scope_of requires_membership system_role_permissions add_all
code = tt

abbrev listed : List String
listed = "file:read" ∷ "team:read" ∷ "file:create" ∷ []

abbrev written : Json
written = obj (
    field "file" (arr (cons (text "read") (cons (text "create") nil)))
      (field "team" (arr (cons (text "read") nil)) end))

abbrev raw : String
raw = "{\"file\":[\"read\",\"create\"],\"team\":[\"read\"]}"

-- A reader of that one text.
abbrev json : JsonText
json = record {
  parse = λ t. if t == raw then ok written else err (fault "SyntaxError");
  stringify = λ value. raw;
}

abbrev database : Database
database = record {
  members =
      record { organization_id = "o1"; user_id = "ann"; role = "viewer, auditor" }
      ∷ record { organization_id = "o1"; user_id = "bob"; role = "admin" }
      ∷ [];
  organization_roles =
      record { organization_id = "o1"; role = "auditor"; permission = raw }
      ∷ record { organization_id = "o2"; role = "auditor"; permission = raw }
      ∷ [];
}

grouped_test :
    fields_of (group_permissions_by_resource listed)
    ≡ field "file"
        (arr (cons (text "read") (cons (text "create") nil)))
        (field "team" (arr (cons (text "read") nil)) end)
unfolding code
grouped_test = refl

granted_test :
    (includes (resolve_permissions json database "o1" "viewer, auditor") "file:create" ≡ true)
    × (includes (resolve_permissions json database "o1" "viewer") "file:create" ≡ false)
    × (includes (resolve_permissions json database "o3" "auditor") "file:create" ≡ false)
unfolding code
granted_test = (refl, refl, refl)

abbrev session_of : String → AuthenticatedSession
session_of user_id = record { session_id = "s"; user_id = user_id; organization_id = some "o1" }

abbrev asks : String → List String → ExecutionContext
asks user_id required = record {
  context_type = "http";
  is_public = false;
  required = some required;
  api_key = none;
  user = some (session_of user_id);
}

guard_test :
    (can_activate (port json database) (asks "ann" ("file:create" ∷ [])) ≡ ok true)
    × (can_activate (port json database) (asks "ann" ("file:delete" ∷ []))
        ≡ err (domain (new_domain_exception forbidden_permission)))
    × (can_activate (port json database) (asks "cyd" ("file:read" ∷ []))
        ≡ err (domain (new_domain_exception forbidden_permission)))
unfolding code
guard_test = (refl, refl, refl)

bool_clash : false ≡ true → ⊥
bool_clash e = cc

abbrev bob : Principal
bob = user "bob" "o1" none

abbrev own_file : Row
own_file = record { id = "f1"; organization_id = some "o1"; user_id = some "bob" }

decide_iff_example :
    ((decide (context bob [] true) (request_for "file:delete" own_file)).allowed ≡ true) ↔ (
      IsReachable bob true (request_for "file:delete" own_file)
      × IsEntitled [] true (request_for "file:delete" own_file) bob)
decide_iff_example = decide_iff bob [] true (request_for "file:delete" own_file)

decide_filter-agrees_example :
    admits
      (decide_filter (context bob [] true) "file:delete" (resource_type_of "file:delete"))
      own_file
    ≡ (decide (context bob [] true) (request_for "file:delete" own_file)).allowed
unfolding code
decide_filter-agrees_example =
    decide_filter-agrees bob [] true "file:delete" own_file "o1" refl
      (λ e. bool_clash (ap (λ t. t == "organization") e)) refl
      (λ e. bool_clash (ap (λ t. t == "") e)) refl

resolve_permissions-includes_example :
    includes (resolve_permissions json database "o1" "viewer, auditor") "file:create" ≡ (
      exists (system_grants "file:create") (roles_of "viewer, auditor")
      || exists
          (λ row.
            is_row_of "o1" (custom_names (roles_of "viewer, auditor")) row
            && row_grants json "file:create" row)
          database.organization_roles)
resolve_permissions-includes_example =
    resolve_permissions-includes json database "o1" "viewer, auditor" "file:create"

parse-serialize_example :
    (r : ParsedPermissionStatements) × (parse_permission_statements json
        (serialize_permission_statements json listed)
      ≡ ok r)
    × ((t : String) → includes r.granted t ≡ includes listed t)
    × (r.unknown ≡ [])
unfolding code
parse-serialize_example = parse-serialize json listed refl refl

can_activate_iff_example :
    (can_activate (port json database) (asks "ann" ("file:create" ∷ [])) ≡ ok true)
    ↔ IsAdmitted json database (asks "ann" ("file:create" ∷ [])) ("file:create" ∷ [])
can_activate_iff_example =
    can_activate_iff json database (asks "ann" ("file:create" ∷ [])) "file:create" []
      (λ e. bool_clash (ap (λ t. t == "ws") e)) refl refl
