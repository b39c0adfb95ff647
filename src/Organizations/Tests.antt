-- ===== src/Organizations/Tests.antt =====
-- An owner's role of an auditor: created, widened and deleted.
use nestjs_fastify_nx.Common.{
  eqb, leb, ◌||◌, ℕ, String, ◌≡◌, refl, Bool, true, none, [], ◌∷◌, ◌&&◌, not, exists, distinct,
  includes, if◌then◌else◌,
}
use nestjs_fastify_nx.Common.Text.{has_spaces_of}
use nestjs_fastify_nx.Errors.{ok, err}
use nestjs_fastify_nx.Authorization.Permissions.{
  JsonText, obj, fields_of, group_permissions_by_resource,
}
use nestjs_fastify_nx.Organizations.Roles.{
  World, RoleCommand, create_organization_role, update_organization_role, delete_organization_role,
  delete_unless_held, is_named, is_holder, role_not_found, role_in_use,
}
use nestjs_fastify_nx.Organizations.Escalation.{
  allowed, IsWithin, create_organization_role-IsWithin, update_organization_role-IsWithin,
}
use nestjs_fastify_nx.Organizations.Deletion.{IsNameClass, delete_organization_role-keeps}

abbrev command : RoleCommand
command = record {
  organization_id = "o1";
  actor_user_id = "ann";
  role = "auditor";
  permissions = "audit_log:read" ∷ "file:read" ∷ "audit_log:read" ∷ [];
}

-- a text format that knows the one payload that the command writes
abbrev json : JsonText
json = record {
  parse = λ t. ok (obj (fields_of (group_permissions_by_resource (distinct command.permissions))));
  stringify = λ value. "{…}";
}

abbrev before : World
before = record {
  members =
      record { organization_id = "o1"; user_id = "ann"; role = "owner" }
      ∷ record { organization_id = "o1"; user_id = "bob"; role = "member, auditor" }
      ∷ [];
  organization_roles =
      record {
        id = "r1";
        organization_id = "o1";
        role = "sales";
        permission = "{…}";
        created_at = 1;
        updated_at = none;
      }
      ∷ [];
  now = 5;
}

create_organization_role-IsWithin_example :
    IsWithin json "o1" "ann" before (create_organization_role json command "r2" before).1
create_organization_role-IsWithin_example =
    create_organization_role-IsWithin json before command refl "r2"

abbrev defined : World
defined = record before {
  organization_roles =
      record {
        id = "r2";
        organization_id = "o1";
        role = "auditor";
        permission = "{…}";
        created_at = 2;
        updated_at = none;
      }
      ∷ [];
}

update_organization_role-IsWithin_example :
    IsWithin json "o1" "ann" defined (update_organization_role json command defined).1
update_organization_role-IsWithin_example =
    update_organization_role-IsWithin json defined command refl

-- the white space of ASCII
abbrev class : ℕ → Bool
class c = eqb c 32 || (leb 9 c && leb c 13)

sales-IsNameClass : IsNameClass class "sales"
unfolding delete_unless_held
sales-IsNameClass = record { keeps_comma = refl; keeps_name = refl }

delete_organization_role-keeps_example :
    ((delete_organization_role class "o1" "sales" before).0 ≡ (
      if not (exists (is_named "o1" "sales") before.organization_roles)
      then err role_not_found
      else if exists (is_holder class "o1" "sales") before.members
      then err role_in_use
      else ok tt))
    × (exists
          (is_named "o1" "sales")
          (delete_organization_role class "o1" "sales" before).1.organization_roles
        ≡ (exists (is_named "o1" "sales") before.organization_roles
            && exists (is_holder class "o1" "sales") before.members))
    × ((o u permission : String)
        → allowed json (delete_organization_role class "o1" "sales" before).1 o u permission
          ≡ allowed json before o u permission)
delete_organization_role-keeps_example =
    delete_organization_role-keeps json class "o1" "sales" sales-IsNameClass before
      (unfold has_spaces_of in refl)

-- The auditor's name stands behind a space in a membership.
auditor-held : exists (is_holder class "o1" "auditor") before.members ≡ true
unfolding delete_unless_held includes
auditor-held = refl
