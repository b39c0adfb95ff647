-- ===== src/Organizations/Escalation.antt =====
-- Nobody gains, by a change of custom roles, what the one who makes it does not hold.
use nestjs_fastify_nx.Common.{
  ℕ, String, ◌≡◌, refl, sym, ap, ◌∙◌, ◌==◌, Bool, true, false, List, [], ◌∷◌, ◌++◌, ◌||◌, ◌&&◌, not,
  Option, none, some, arith, Bool-cases, inl, inr, every, exists, includes, distinct,
  includes-distinct, every-includes, every-of_includes, map, is_some, if◌then◌else◌,
}
use nestjs_fastify_nx.Errors.{Result, ok, err, err-ne-ok, first-ok, Failure}
use nestjs_fastify_nx.Exec.{Exec, pure, throw, lift, ◌>>=◌}
use nestjs_fastify_nx.Exec.Rules.{ends-bind}
use nestjs_fastify_nx.Authorization.Permissions.{
  JsonText, all_permissions, obj, fields_of, group_permissions_by_resource,
  serialize_permission_statements,
}
use nestjs_fastify_nx.Authorization.Policy.{user}
use nestjs_fastify_nx.Authorization.Adapter.{
  permissions_for, policy_context, of_role, membership_role, roles_of,
}
use nestjs_fastify_nx.Authorization.Grants.{
  resolve_permissions-includes, row_grants, is_row_of, custom_names,
}
use nestjs_fastify_nx.Authorization.Statements.{parse-serialize}
use nestjs_fastify_nx.Organizations.Role.{
  OrganizationRole, assert_known_permissions, assert_within_actor_grant,
  resolve_grantable_permissions, assert_role_name, create, with_permissions,
}
use nestjs_fastify_nx.Organizations.Roles.{
  World, OrganizationRoleRow, grant_of, database_of, is_named, RoleCommand, input_of, find_by_name,
  create_row, changed_row, update_row, granted_to_actor, now_of, create_organization_role,
  change_existing, update_organization_role, role_not_found,
}

-- What a user of an organization may do.
abbrev pub allowed : JsonText → World → String → String → String → Bool
allowed json w organization_id user_id permission =
    includes (permissions_for json (database_of w) (user user_id organization_id none)) permission

-- Nobody, in any organization, may do what neither they nor the actor could do before.
abbrev pub IsWithin : JsonText → String → String → World → World → Type 0
IsWithin json organization_id actor before after =
    (o u permission : String)
    → (not (allowed json after o u permission)
        || (allowed json before o u permission
            || allowed json before organization_id actor permission))
      ≡ true

-- The written payload is read back.
abbrev pub IsReadBack : JsonText → List String → Type 0
IsReadBack json permissions =
    json.parse (json.stringify (obj (fields_of (group_permissions_by_resource permissions))))
    ≡ ok (obj (fields_of (group_permissions_by_resource permissions)))

passed :
    (test : Bool) (e : Failure) (a out : List String)
    → (if test then ok a else err e) ≡ ok out
    → (test ≡ true) × (out ≡ a)
passed true e a out h = (refl, cc)
passed false e a out h = absurd (err-ne-ok e out h)

every-distinct :
    (p : String → Bool) (xs : List String) → every p xs ≡ true → every p (distinct xs) ≡ true
every-distinct p xs h =
    every-of_includes p (distinct xs)
      (λ s k. every-includes p xs s h (sym (includes-distinct xs s) ∙ k))

known-distinct :
    (permissions out : List String)
    → assert_known_permissions permissions ≡ ok out
    → (every (includes all_permissions) out ≡ true) × (out ≡ distinct permissions)
unfolding assert_known_permissions
known-distinct [] out h = absurd (err-ne-ok _ out h)
known-distinct (p ∷ ps) out h =
    let (known, same) = passed (every (includes all_permissions) (p ∷ ps)) _ _ out h in
    (rw same (every-distinct (includes all_permissions) (p ∷ ps) known), same)

-- What may be granted is in the catalogue, and within the actor's grant.
grantable :
    (permissions granted out : List String)
    → resolve_grantable_permissions permissions granted ≡ ok out
    → (every (includes all_permissions) out ≡ true)
      × (every (includes granted) out ≡ true)
      × (out ≡ distinct permissions)
unfolding resolve_grantable_permissions assert_within_actor_grant
grantable permissions granted out h =
    let (known, e, rest) = first-ok (assert_known_permissions permissions) _ out h in
    let (held, same) = passed (every (includes granted) known) _ _ out rest in
    let (listed, distinct) = known-distinct permissions known e in
    (rw same listed, rw same held, same ∙ distinct)

member-held :
    (out granted : List String) (t : String)
    → every (includes granted) out ≡ true
    → (not (includes out t) || includes granted t) ≡ true
member-held out granted t held = elim (Bool-cases (includes out t)) [
  | inl listed ↦ rw (listed, every-includes (includes granted) out t held listed) refl
  | inr other ↦ rw other refl
]

-- A payload written of such permissions grants nothing beyond the actor's grant.
row-within :
    (json : JsonText) (permissions granted out : List String) (o role t : String)
    → IsReadBack json (distinct permissions)
    → resolve_grantable_permissions permissions granted ≡ ok out
    → (not (
          row_grants json t (record {
            organization_id = o;
            role = role;
            permission = serialize_permission_statements json out;
          }))
        || includes granted t)
      ≡ true
row-within json permissions granted out o role t back h =
    let (listed, held, same) = grantable permissions granted out h in
    let back' : IsReadBack json out = rw same back in
    let (r, e, readable, none_unknown) = parse-serialize json out listed back' in
    rw (e, readable t) (member-held out granted t held)

-- The permission, through the custom roles of an organization that a member's roles name.
abbrev grants_in : JsonText → String → String → List String → List OrganizationRoleRow → Bool
grants_in json t o names rows =
    exists (λ row. is_row_of o names row && row_grants json t row) (map grant_of rows)

abbrev IsGrantedWithin :
    JsonText → List String → List OrganizationRoleRow → List OrganizationRoleRow → Type 0
IsGrantedWithin json granted before after =
    (o t : String) (names : List String)
    → (not (grants_in json t o names after)
        || (grants_in json t o names before || includes granted t))
      ≡ true

-- It is enough to look at the custom roles.
role-within :
    (json : JsonText) (w : World) (rows : List OrganizationRoleRow) (o u t : String)
    (granted : List String) (role : Option String)
    → IsGrantedWithin json granted w.organization_roles rows
    → (not (
          includes
            (of_role json
              (database_of (record w { organization_roles = rows }))
              (user u o none)
              o
              role).permissions
            t)
        || (includes (of_role json (database_of w) (user u o none) o role).permissions t
            || includes granted t))
      ≡ true
role-within json w rows o u t granted none h = unfold includes in refl
role-within json w rows o u t granted (some role) h = ground (
  arith,
  resolve_permissions-includes json (database_of w) o role t,
  resolve_permissions-includes json (database_of (record w { organization_roles = rows })) o role t,
  h o t (custom_names (roles_of role)),
)

rows-IsWithin :
    (json : JsonText) (organization_id actor : String) (w : World) (rows : List OrganizationRoleRow)
    → IsGrantedWithin json
        (permissions_for json (database_of w) (user actor organization_id none))
        w.organization_roles
        rows
    → IsWithin json organization_id actor w (record w { organization_roles = rows })
unfolding permissions_for policy_context membership_role
rows-IsWithin json organization_id actor w rows h o u t =
    role-within json w rows o u t
      (permissions_for json (database_of w) (user actor organization_id none))
      (membership_role (database_of w) (user u o none)) h

added-within :
    (json : JsonText) (granted : List String) (rows : List OrganizationRoleRow)
    (row : OrganizationRoleRow)
    → ((t : String) → (not (row_grants json t (grant_of row)) || includes granted t) ≡ true)
    → IsGrantedWithin json granted rows (rows ++ row ∷ [])
added-within json granted [] row h o t names = ground (arith, h t)
added-within json granted (first ∷ rows) row h o t names =
    ground (arith, added-within json granted rows row h o t names)

changed-within :
    (json : JsonText) (granted : List String) (rows : List OrganizationRoleRow)
    (role : OrganizationRole) (now : ℕ)
    → ((o n t : String)
        → (not (
              row_grants json t (record {
                organization_id = o;
                role = n;
                permission = serialize_permission_statements json role.permissions;
              }))
            || includes granted t)
          ≡ true)
    → IsGrantedWithin json granted rows (map (changed_row json role now) rows)
changed-within json granted [] role now h o t names = refl
changed-within json granted (row ∷ rows) role now h o t names =
    elim (Bool-cases (is_named role.organization_id role.role row)) [
      | inl hit ↦ rw hit (
          ground (
            arith,
            h row.organization_id row.role t,
            changed-within json granted rows role now h o t names,
          ))
      | inr miss ↦ rw miss (ground (arith, changed-within json granted rows role now h o t names))
    ]

IsWithin-refl :
    (json : JsonText) (organization_id actor : String) (w : World)
    → IsWithin json organization_id actor w w
IsWithin-refl json organization_id actor w o u t =
    reflexive (allowed json w o u t) (allowed json w organization_id actor t)
  where
    reflexive : (a b : Bool) → (not a || (a || b)) ≡ true
    reflexive a b = ground arith

created-permissions :
    (json : JsonText) (command : RoleCommand) (id : String) (granted : List String) (now : ℕ)
    (role : OrganizationRole)
    → create (input_of json command id granted) now ≡ ok role
    → resolve_grantable_permissions command.permissions granted ≡ ok role.permissions
unfolding create
created-permissions json command id granted now role h =
    let (name, e, rest) = first-ok (assert_role_name command.role) _ role h in
    let (permissions, e', last) =
      first-ok (resolve_grantable_permissions command.permissions granted) _ role rest in
    e' ∙ ap ok (ap permissions_of last)
  where
    permissions_of : Result OrganizationRole → List String
    permissions_of (ok r) = r.permissions
    permissions_of (err e) = []

changed-permissions :
    (existing role : OrganizationRole) (permissions granted : List String) (now : ℕ)
    → with_permissions existing permissions granted now ≡ ok role
    → resolve_grantable_permissions permissions granted ≡ ok role.permissions
unfolding with_permissions
changed-permissions existing role permissions granted now h =
    let (grantable, e, last) =
      first-ok (resolve_grantable_permissions permissions granted) _ role h in
    e ∙ ap ok (ap permissions_of last)
  where
    permissions_of : Result OrganizationRole → List String
    permissions_of (ok r) = r.permissions
    permissions_of (err e) = []

module _ (json : JsonText) (w : World) (command : RoleCommand)
    (back : IsReadBack json (distinct command.permissions)) where
  abbrev actor_grant : List String
  actor_grant =
      permissions_for json (database_of w) (user command.actor_user_id command.organization_id none)

  abbrev IsWithinGrant : World → Type 0
  IsWithinGrant = IsWithin json command.organization_id command.actor_user_id w

  unchanged : IsWithinGrant w
  unchanged = IsWithin-refl json command.organization_id command.actor_user_id w

  create_row-IsWithin :
      (role : OrganizationRole)
      → resolve_grantable_permissions command.permissions actor_grant ≡ ok role.permissions
      → IsWithinGrant (create_row json role w).1
  unfolding create_row
  create_row-IsWithin role h =
      elim (Bool-cases (
        exists (λ row. row.id == role.id || is_named role.organization_id role.role row)
          w.organization_roles)) [
            | inl taken ↦ rw taken unchanged
            | inr free ↦ rw free (
                rows-IsWithin json command.organization_id command.actor_user_id w _ (
                  added-within json actor_grant w.organization_roles _ (λ t.
                    row-within json command.permissions actor_grant role.permissions
                      role.organization_id role.role t back h)))
          ]

  update_row-IsWithin :
      (role : OrganizationRole)
      → resolve_grantable_permissions command.permissions actor_grant ≡ ok role.permissions
      → IsWithinGrant (update_row json role w).1
  unfolding update_row
  update_row-IsWithin role h =
      rows-IsWithin json command.organization_id command.actor_user_id w _ (
        changed-within json actor_grant w.organization_roles role w.now
          (λ o n t. row-within json command.permissions actor_grant role.permissions o n t back h))

  if-ends :
      {A : Type 0} (b : Bool) (m n : Exec World A)
      → IsWithinGrant (m w).1
      → IsWithinGrant (n w).1
      → IsWithinGrant ((if b then m else n) w).1
  if-ends true m n h k = h
  if-ends false m n h k = k

  if-stays :
      (t : World) (found : Bool) (role : OrganizationRole) (e : Failure)
      → IsWithinGrant t
      → IsWithinGrant ((if found then pure role else throw e) t).1
  unfolding pure throw
  if-stays t true role e h = h
  if-stays t false role e h = h

  -- Whatever the outcome of creating a role, nobody, in any organization, may do afterwards what neither
  -- they nor the actor could do before, where `JSON.parse` reads back the payload that is written.
  pub create_organization_role-IsWithin :
      (id : String)
      → IsWithin json command.organization_id command.actor_user_id w
          (create_organization_role json command id w).1
  unfolding create_organization_role granted_to_actor now_of find_by_name lift pure throw ◌>>=◌
  create_organization_role-IsWithin id =
      ends-bind IsWithinGrant (lift (create (input_of json command id actor_grant) w.now)) _ w
        unchanged
        λ role e.
          ends-bind IsWithinGrant (find_by_name json command.organization_id role.role) _ w
            unchanged
            λ existing e'. if-ends (is_some existing) _ _ unchanged (
              let within =
                create_row-IsWithin role
                  (created-permissions json command id actor_grant w.now role e) in
              ends-bind IsWithinGrant (create_row json role) (λ _. pure role) w within
                (λ _ e''. within))

  change_existing-IsWithin :
      (existing : Option OrganizationRole)
      → IsWithinGrant (change_existing json command existing w).1
  unfolding granted_to_actor now_of lift pure throw ◌>>=◌
  change_existing-IsWithin none = unchanged
  change_existing-IsWithin (some existing) =
      ends-bind IsWithinGrant
        (lift (with_permissions existing command.permissions actor_grant w.now)) _ w unchanged
        λ role e.
          let within =
            update_row-IsWithin role
              (changed-permissions existing role command.permissions actor_grant w.now e) in
          ends-bind IsWithinGrant (update_row json role) _ w within
            λ found e'. if-stays _ found role role_not_found within

  -- The same of replacing the permissions of a role.
  pub update_organization_role-IsWithin :
      IsWithin json command.organization_id command.actor_user_id w
        (update_organization_role json command w).1
  unfolding update_organization_role find_by_name throw
  update_organization_role-IsWithin =
      ends-bind IsWithinGrant (find_by_name json command.organization_id command.role) _ w unchanged
        λ existing e. change_existing-IsWithin existing
