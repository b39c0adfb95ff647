-- ===== src/Organizations/Roles.antt =====
-- libs/modules/organizations/src: the Prisma repository over the tables `organization_roles` and
-- `members`, where every query is one atomic step, and the handlers that create, change and delete a
-- custom role. `id` and the pair of organization and name are unique.
use nestjs_fastify_nx.Common.{
  ℕ, String, ◌==◌, Bool, false, Option, none, some, List, [], ◌∷◌, ◌++◌, ◌&&◌, ◌||◌, not, exists,
  includes, keep, find, map, is_some, if◌then◌else◌,
}
use nestjs_fastify_nx.Common.Text.{split, without}
use nestjs_fastify_nx.Errors.{
  Result, ok, err, domain, Failure, Kind, new_domain_exception, field_problem, not_found, conflict,
}
use nestjs_fastify_nx.Exec.{Exec, pure, throw, lift, ◌>>=◌, ◌>>◌}
use nestjs_fastify_nx.Authorization.Permissions.{
  JsonText, ParsedPermissionStatements, parse_permission_statements,
  serialize_permission_statements,
}
use nestjs_fastify_nx.Authorization.Policy.{user}
use nestjs_fastify_nx.Authorization.Adapter.{Database, Member, CustomRole, permissions_for}
use nestjs_fastify_nx.Organizations.Role.{
  OrganizationRole, CreateOrganizationRoleInput, create, with_permissions,
}

pub record OrganizationRoleRow : Type 0 where
  pub id : String
  pub organization_id : String
  pub role : String
  pub permission : String
  pub created_at : ℕ
  pub updated_at : Option ℕ

pub record World : Type 0 where
  pub members : List Member
  pub organization_roles : List OrganizationRoleRow
  pub now : ℕ

-- What the authorization adapter reads of a row, and of the two tables.
abbrev pub grant_of : OrganizationRoleRow → CustomRole
grant_of row = record {
  organization_id = row.organization_id;
  role = row.role;
  permission = row.permission;
}

abbrev pub database_of : World → Database
database_of w = record {
  members = w.members;
  organization_roles = map grant_of w.organization_roles;
}

-- `notFound` and `conflict` of application/organization-errors.ts
abbrev role_error : Kind → String → Option Bool → Failure
role_error kind code permanent =
    domain (
      new_domain_exception (record (field_problem kind code none "role") { permanent = permanent }))

abbrev pub role_not_found : Failure
role_not_found = role_error not_found "organization_role_not_found" none

abbrev pub role_already_exists : Failure
role_already_exists = role_error conflict "organization_role_already_exists" (some false)

abbrev pub role_in_use : Failure
role_in_use = role_error conflict "organization_role_in_use" (some false)

-- `where: { organizationId, role }`
abbrev pub is_named : String → String → OrganizationRoleRow → Bool
is_named organization_id role row = row.organization_id == organization_id && row.role == role

pub data RoleDeletionOutcome : Type 0 where
  deleted in_use absent : RoleDeletionOutcome

pub record RoleCommand : Type 0 where
  pub organization_id : String
  pub actor_user_id : String
  pub role : String
  pub permissions : List String

module _ (json : JsonText) where
  abbrev pub reconstitute :
      OrganizationRoleRow → Result ParsedPermissionStatements → Result (Option OrganizationRole)
  reconstitute row (err e) = err e
  reconstitute row (ok parsed) = ok (
      some (record {
        id = row.id;
        organization_id = row.organization_id;
        role = row.role;
        permissions = parsed.granted;
        created_at = row.created_at;
        updated_at = row.updated_at;
      }))

  -- `row ? toEntity(row) : null`, where a payload that is no JSON throws
  unfoldable pub to_entity : Option OrganizationRoleRow → Result (Option OrganizationRole)
  to_entity none = ok none
  to_entity (some row) = reconstitute row (parse_permission_statements json row.permission)

  unfoldable pub find_by_name : String → String → Exec World (Option OrganizationRole)
  unfolding to_entity
  find_by_name organization_id role w =
      (to_entity (find (is_named organization_id role) w.organization_roles), w)

  unfoldable pub create_row : OrganizationRole → Exec World (Unit {0})
  create_row role w =
      if exists (λ row. row.id == role.id || is_named role.organization_id role.role row)
        w.organization_roles
      then (err role_already_exists, w)
      else (
        ok tt,
        record w {
          organization_roles =
              w.organization_roles
              ++ (record {
                id = role.id;
                organization_id = role.organization_id;
                role = role.role;
                permission = serialize_permission_statements json role.permissions;
                created_at = role.created_at;
                updated_at = some w.now;
              })
                ∷ [];
        },
      )

  abbrev pub changed_row : OrganizationRole → ℕ → OrganizationRoleRow → OrganizationRoleRow
  changed_row role now row =
      if is_named role.organization_id role.role row
      then record row {
        permission = serialize_permission_statements json role.permissions;
        updated_at = some now;
      }
      else row

  -- `updateMany`, which stamps `updatedAt`
  unfoldable pub update_row : OrganizationRole → Exec World Bool
  update_row role w = (
    ok (exists (is_named role.organization_id role.role) w.organization_roles),
    record w { organization_roles = map (changed_row role w.now) w.organization_roles },
  )

  -- `permissionsFor({ type: 'user', … })`
  unfoldable pub granted_to_actor : String → String → Exec World (List String)
  granted_to_actor organization_id user_id w =
      (ok (permissions_for json (database_of w) (user user_id organization_id none)), w)

  -- `new Date()`
  unfoldable pub now_of : Exec World ℕ
  now_of w = (ok w.now, w)

  abbrev pub input_of : RoleCommand → String → List String → CreateOrganizationRoleInput
  input_of command id granted = record {
    id = id;
    organization_id = command.organization_id;
    role = command.role;
    permissions = command.permissions;
    granted_to_actor = granted;
  }

  -- `CreateOrganizationRoleHandler.execute`, with the id that the entity generates
  unfoldable pub create_organization_role : RoleCommand → String → Exec World OrganizationRole
  unfolding granted_to_actor now_of find_by_name create_row
  create_organization_role command id = do
    granted ← granted_to_actor command.organization_id command.actor_user_id
    now ← now_of
    role ← lift (create (input_of command id granted) now)
    existing ← find_by_name command.organization_id role.role
    if is_some existing then throw role_already_exists else (do create_row role; pure role)

  abbrev pub change_existing : RoleCommand → Option OrganizationRole → Exec World OrganizationRole
  change_existing command none = throw role_not_found
  change_existing command (some existing) = do
    granted ← granted_to_actor command.organization_id command.actor_user_id
    now ← now_of
    updated ← lift (with_permissions existing command.permissions granted now)
    found ← update_row updated
    if found then pure updated else throw role_not_found

  -- `UpdateOrganizationRoleHandler.execute`
  unfoldable pub update_organization_role : RoleCommand → Exec World OrganizationRole
  unfolding find_by_name granted_to_actor now_of update_row
  update_organization_role command = do
    existing ← find_by_name command.organization_id command.role
    change_existing command existing

-- `string_to_array(s, ',')`: the pieces, of which an empty text has none
unfoldable pub string_to_array : String → List String
unfolding split
string_to_array s = if s == "" then [] else split b',' s

-- `role = ANY(string_to_array(regexp_replace("role", '\s', '', 'g'), ','))`, of a member of the
-- organization; the database's class of white space is given
abbrev pub is_holder : (ℕ → Bool) → String → String → Member → Bool
is_holder is_space organization_id role member =
    member.organization_id == organization_id
    && includes (string_to_array (without is_space member.role)) role

-- the outcome that `toDeletionOutcome` reads from the row of the statement
abbrev pub to_deletion_outcome : Bool → Bool → Bool → RoleDeletionOutcome
to_deletion_outcome found held was_deleted =
    if not found then absent else if was_deleted then deleted else if held then in_use else absent

unfoldable pub delete_unless_held : (ℕ → Bool) → String → String → Exec World RoleDeletionOutcome
unfolding without string_to_array
delete_unless_held is_space organization_id role w =
    let found = exists (is_named organization_id role) w.organization_roles in
    let held = exists (is_holder is_space organization_id role) w.members in
    (
      ok (to_deletion_outcome found held (found && not held)),
      if held then w else record w {
        organization_roles =
            keep (λ row. not (is_named organization_id role row)) w.organization_roles;
      },
    )

abbrev pub report_deletion : RoleDeletionOutcome → Exec World (Unit {0})
report_deletion deleted = pure tt
report_deletion in_use = throw role_in_use
report_deletion absent = throw role_not_found

-- `DeleteOrganizationRoleHandler.execute`
unfoldable pub delete_organization_role : (ℕ → Bool) → String → String → Exec World (Unit {0})
unfolding delete_unless_held
delete_organization_role is_space organization_id role = do
  outcome ← delete_unless_held is_space organization_id role
  report_deletion outcome
