-- ===== src/Authorization/Permissions.antt =====
-- libs/shared/src/lib/permissions.ts: the catalogue, system roles and the wire format of a custom
-- role's permissions. A permission is a text, as at run time, where casts let any text in.
use Prim.Native.String
use nestjs_fastify_nx.Common.{
  ℕ, zero, suc, String, ◌==◌, not, ◌||◌, Bool, Option, none, some, List, [], ◌∷◌, ◌++◌, includes,
  keep, is_some, if◌then◌else◌, eqb, ◌%◌, ◌/◌, ltb,
}
use nestjs_fastify_nx.Common.Text.{split}
use nestjs_fastify_nx.Errors.{Result, ok, err}

abbrev pub organization_delete : String
organization_delete = "organization:delete"

abbrev pub file_read : String
file_read = "file:read"

abbrev pub file_delete : String
file_delete = "file:delete"

-- `ALL_PERMISSIONS`, in the order of `PERMISSIONS`
abbrev pub all_permissions : List String
all_permissions =
    "organization:read" ∷ "organization:update" ∷ organization_delete ∷ "member:read"
    ∷ "member:invite" ∷ "member:update" ∷ "member:remove" ∷ "team:read" ∷ "team:create"
    ∷ "team:update" ∷ "team:delete" ∷ "invitation:read" ∷ "invitation:cancel" ∷ "role:read"
    ∷ "role:create" ∷ "role:update" ∷ "role:delete" ∷ file_read ∷ "file:create" ∷ file_delete
    ∷ "audit_log:read" ∷ "api_key:read" ∷ "api_key:create" ∷ "api_key:revoke" ∷ "feature_flag:read"
    ∷ "feature_flag:manage" ∷ "notification:read" ∷ "notification:update" ∷ "session:read"
    ∷ "session:revoke" ∷ "term:read" ∷ "term:accept" ∷ []

abbrev head_or_empty : List String → String
head_or_empty [] = ""
head_or_empty (s ∷ ss) = s

-- `permission.split(':')[0]`
unfoldable pub resource_type_of : String → String
unfolding split
resource_type_of permission = head_or_empty (split b':' permission)

-- `Record<string, string[]>`, in insertion order
abbrev pub Statements : Type 0
Statements = List (String × List String)

-- `(grouped[resource] ??= []).push(action)`
unfoldable pub push_action : String → String → Statements → Statements
push_action resource action [] = (resource, action ∷ []) ∷ []
push_action resource action ((r, actions) ∷ rest) =
    if r == resource
    then (r, actions ++ action ∷ []) ∷ rest
    else (r, actions) ∷ push_action resource action rest

-- one round of `groupPermissionsByResource`, on the parts of the permission
abbrev pub group_parts : List String → Statements → Statements
group_parts [] grouped = grouped
group_parts (resource ∷ []) grouped = grouped
group_parts (resource ∷ (action ∷ more)) grouped =
    if resource == "" || action == "" then grouped else push_action resource action grouped

unfoldable pub group_from : Statements → List String → Statements
group_from grouped [] = grouped
group_from grouped (p ∷ ps) = group_from (group_parts (split b':' p) grouped) ps

unfoldable pub group_permissions_by_resource : List String → Statements
unfolding split push_action group_from
group_permissions_by_resource permissions = group_from [] permissions

-- What `JSON.parse` returns; numbers are natural numbers, since no code here looks at one.
mutual
  pub data Json : Type 0 where
    null : Json
    bool : Bool → Json
    num : ℕ → Json
    text : String → Json
    arr : Items → Json
    obj : Fields → Json

  pub data Items : Type 0 where
    nil : Items
    cons : Json → Items → Items

  pub data Fields : Type 0 where
    end : Fields
    field : String → Json → Fields → Fields

pub record ParsedPermissionStatements : Type 0 where
  pub granted : List String
  pub unknown : List String

abbrev pub no_statements : ParsedPermissionStatements
no_statements = record { granted = []; unknown = [] }

-- `${resource}:${action}`
abbrev pub candidate_of : String → String → String
candidate_of resource action = String.◌++◌ resource (String.◌++◌ ":" action)

abbrev pub file_candidate : String → ParsedPermissionStatements → ParsedPermissionStatements
file_candidate candidate out =
    if includes all_permissions candidate
    then record out { granted = out.granted ++ candidate ∷ [] }
    else record out { unknown = out.unknown ++ candidate ∷ [] }

-- the inner loop: entries that are no texts are skipped
unfoldable pub parse_actions :
    String → Items → ParsedPermissionStatements → ParsedPermissionStatements
parse_actions resource nil out = out
parse_actions resource (cons (text action) rest) out =
    parse_actions resource rest (file_candidate (candidate_of resource action) out)
parse_actions resource (cons other rest) out = parse_actions resource rest out

-- the outer loop: properties that are no arrays are skipped
unfoldable pub parse_fields : Fields → ParsedPermissionStatements → ParsedPermissionStatements
parse_fields end out = out
parse_fields (field resource (arr actions) rest) out =
    parse_fields rest (parse_actions resource actions out)
parse_fields (field resource other rest) out = parse_fields rest out

digit : ℕ → String
digit n =
    if eqb n 0
    then "0"
    else if eqb n 1
    then "1"
    else if eqb n 2
    then "2"
    else if eqb n 3
    then "3"
    else if eqb n 4
    then "4"
    else if eqb n 5
    then "5"
    else if eqb n 6
    then "6"
    else if eqb n 7
    then "7"
    else if eqb n 8
    then "8"
    else "9"

-- An array's index as a property name; the fuel bounds the digits.
index_name : ℕ → ℕ → String
index_name zero n = ""
index_name (suc fuel) n =
    let front = index_name fuel (n / 10) in
    if ltb n 10 then digit n else String.◌++◌ front (digit (n % 10))

-- `Object.entries` of an array: its elements under their indices
unfoldable pub array_fields : ℕ → Items → Fields
unfolding index_name digit
array_fields i nil = end
array_fields i (cons v rest) = field (index_name (suc i) i) v (array_fields (suc i) rest)

-- `parsePermissionStatements` after `JSON.parse`
unfoldable pub parse_statements : Json → ParsedPermissionStatements
parse_statements (arr items) = parse_fields (array_fields 0 items) no_statements
parse_statements (obj fields) = parse_fields fields no_statements
parse_statements other = no_statements

abbrev pub items_of : List String → Items
items_of [] = nil
items_of (s ∷ ss) = cons (text s) (items_of ss)

abbrev pub fields_of : Statements → Fields
fields_of [] = end
fields_of ((resource, actions) ∷ rest) = field resource (arr (items_of actions)) (fields_of rest)

-- `JSON.parse`, which throws a SyntaxError, and `JSON.stringify` of this value.
pub record JsonText : Type 0 where
  pub parse : String → Result Json
  pub stringify : Json → String

-- what follows `JSON.parse`, whose exception escapes
abbrev pub after_parse : Result Json → Result ParsedPermissionStatements
after_parse (ok parsed) = ok (parse_statements parsed)
after_parse (err e) = err e

module _ (json : JsonText) where
  unfoldable pub parse_permission_statements : String → Result ParsedPermissionStatements
  unfolding parse_statements parse_fields parse_actions array_fields
  parse_permission_statements raw = after_parse (json.parse raw)

  unfoldable pub serialize_permission_statements : List String → String
  unfolding group_permissions_by_resource
  serialize_permission_statements permissions =
      json.stringify (obj (fields_of (group_permissions_by_resource permissions)))

abbrev pub admin_permissions : List String
admin_permissions = keep (λ p. not (p == organization_delete)) all_permissions

abbrev pub self_service_permissions : List String
self_service_permissions =
    "notification:read" ∷ "notification:update" ∷ "session:read" ∷ "session:revoke" ∷ "term:read"
    ∷ "term:accept" ∷ []

abbrev pub member_permissions : List String
member_permissions =
    ("organization:read" ∷ "member:read" ∷ "team:read" ∷ file_read ∷ "file:create" ∷ file_delete
      ∷ "feature_flag:read" ∷ [])
    ++ self_service_permissions

abbrev pub billing_permissions : List String
billing_permissions = ("organization:read" ∷ "member:read" ∷ []) ++ self_service_permissions

abbrev pub viewer_permissions : List String
viewer_permissions =
    ("organization:read" ∷ "member:read" ∷ "team:read" ∷ file_read ∷ "feature_flag:read" ∷ [])
    ++ self_service_permissions

-- `SYSTEM_ROLE_PERMISSIONS[role]`, `none` where the role is no own property
unfoldable pub system_role_permissions : String → Option (List String)
system_role_permissions role =
    if role == "owner"
    then some all_permissions
    else if role == "admin"
    then some admin_permissions
    else if role == "member"
    then some member_permissions
    else if role == "billing"
    then some billing_permissions
    else if role == "viewer"
    then some viewer_permissions
    else none

unfoldable pub is_system_role : String → Bool
unfolding system_role_permissions
is_system_role role = is_some (system_role_permissions role)
