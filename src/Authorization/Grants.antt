-- ===== src/Authorization/Grants.antt =====
-- Where the permissions that `resolvePermissions` returns come from.
use mathlib.Core.List.{append-nil, append_assoc}
use nestjs_fastify_nx.Common.{
  String, ◌≡◌, refl, sym, ap, ◌∙◌, ◌==◌, not, ◌||◌, ◌&&◌, Bool, true, false, Option, none, some,
  List, [], ◌∷◌, ◌++◌, includes, keep, exists, includes-add_all, arith, Bool-cases, inl, inr,
  if◌then◌else◌, exists-keep, is_some,
}
use nestjs_fastify_nx.Errors.{Result, ok, err}
use nestjs_fastify_nx.Authorization.Permissions.{
  JsonText, ParsedPermissionStatements, parse_permission_statements, system_role_permissions,
  is_system_role,
}
use nestjs_fastify_nx.Authorization.Adapter.{
  Database, CustomRole, Collected, collect_as, collect_role, grant_parsed, resolve_collected,
  collect_roles, roles_of, grant_custom_role, grant_custom_roles, find_custom_roles,
  resolve_permissions,
}

abbrev listed : String → Option (List String) → Bool
listed t (some permissions) = includes permissions t
listed t none = false

-- A built-in role grants the permission.
abbrev pub system_grants : String → String → Bool
system_grants t role = listed t (system_role_permissions role)

abbrev parsed_grants : String → Result ParsedPermissionStatements → Bool
parsed_grants t (ok parsed) = includes parsed.granted t
parsed_grants t (err e) = false

-- The statements that a custom role's payload parses to grant the permission.
abbrev pub row_grants : JsonText → String → CustomRole → Bool
row_grants json t row = parsed_grants t (parse_permission_statements json row.permission)

-- The names among a member's roles that are looked up as custom roles.
abbrev pub custom_names : List String → List String
custom_names roles = keep (λ role. not (is_system_role role)) roles

collect_as-includes :
    (t role : String) (c : Collected) (found : Option (List String))
    → includes (collect_as role c found).granted t ≡ (includes c.granted t || listed t found)
collect_as-includes t role c none = ground arith
collect_as-includes t role c (some ps) = includes-add_all c.granted ps t

collect_role-includes :
    (t role : String) (c : Collected)
    → includes (collect_role role c).granted t ≡ (includes c.granted t || system_grants t role)
unfolding collect_role
collect_role-includes t role c = collect_as-includes t role c (system_role_permissions role)

collect_as-names :
    (role : String) (c : Collected) (found : Option (List String))
    → (collect_as role c found).custom_role_names
      ≡ c.custom_role_names ++ (if not (is_some found) then role ∷ [] else [])
collect_as-names role c none = refl
collect_as-names role c (some ps) = sym (append-nil _)

collect_role-names :
    (role : String) (c : Collected)
    → (collect_role role c).custom_role_names
      ≡ c.custom_role_names ++ keep (λ r. not (is_system_role r)) (role ∷ [])
unfolding collect_role is_system_role
collect_role-names role c = collect_as-names role c (system_role_permissions role)

||-assoc : (a b c : Bool) → ((a || b) || c) ≡ (a || (b || c))
||-assoc true b c = refl
||-assoc false b c = refl

collect_roles-includes :
    (t : String) (roles : List String) (c : Collected)
    → includes (collect_roles roles c).granted t
      ≡ (includes c.granted t || exists (system_grants t) roles)
unfolding collect_roles
collect_roles-includes t [] c = ground arith
collect_roles-includes t (role ∷ roles) c =
    collect_roles-includes t roles (collect_role role c)
    ∙ (ap (λ b. b || exists (system_grants t) roles) (collect_role-includes t role c)
        ∙ ||-assoc (includes c.granted t) (system_grants t role) (exists (system_grants t) roles))

keep-cons :
    (p : String → Bool) (x : String) (xs : List String)
    → keep p (x ∷ []) ++ keep p xs ≡ keep p (x ∷ xs)
keep-cons p x xs = elim (Bool-cases (p x)) [ inl e ↦ rw e | inr e ↦ rw e ]

collect_roles-names :
    (roles : List String) (c : Collected)
    → (collect_roles roles c).custom_role_names ≡ c.custom_role_names ++ custom_names roles
unfolding collect_roles
collect_roles-names [] c = sym (append-nil _)
collect_roles-names (role ∷ roles) c =
    collect_roles-names roles (collect_role role c)
    ∙ (ap (λ l. l ++ custom_names roles) (collect_role-names role c)
        ∙ (append_assoc c.custom_role_names _ _
            ∙ ap (λ l. c.custom_role_names ++ l)
                (keep-cons (λ r. not (is_system_role r)) role roles)))

grant_parsed-includes :
    (t : String) (granted : List String) (parsed : Result ParsedPermissionStatements)
    → includes (grant_parsed granted parsed) t ≡ (includes granted t || parsed_grants t parsed)
grant_parsed-includes t granted (ok parsed) = includes-add_all granted parsed.granted t
grant_parsed-includes t granted (err e) = ground arith

-- The rows that can add to a member's grant: of the organization, under one of the custom names.
abbrev pub is_row_of : String → List String → CustomRole → Bool
is_row_of organization_id names row =
    row.organization_id == organization_id && includes names row.role

module _ (json : JsonText) where
  grant_custom_role-includes :
      (t : String) (row : CustomRole) (granted : List String)
      → includes (grant_custom_role json row granted) t
        ≡ (includes granted t || row_grants json t row)
  unfolding grant_custom_role
  grant_custom_role-includes t row granted =
      grant_parsed-includes t granted (parse_permission_statements json row.permission)

  grant_custom_roles-includes :
      (t : String) (rows : List CustomRole) (granted : List String)
      → includes (grant_custom_roles json rows granted) t
        ≡ (includes granted t || exists (row_grants json t) rows)
  unfolding grant_custom_roles
  grant_custom_roles-includes t [] granted = ground arith
  grant_custom_roles-includes t (row ∷ rows) granted =
      grant_custom_roles-includes t rows (grant_custom_role json row granted)
      ∙ (ap (λ b. b || exists (row_grants json t) rows) (grant_custom_role-includes t row granted)
          ∙ ||-assoc (includes granted t) (row_grants json t row) (exists (row_grants json t) rows))

  find_custom_roles-none :
      (organization_id : String) (rows : List CustomRole)
      → keep (is_row_of organization_id []) rows ≡ []
  unfolding includes
  find_custom_roles-none organization_id [] = refl
  find_custom_roles-none organization_id (row ∷ rows) =
      ground (arith, find_custom_roles-none organization_id rows)

  -- The early return for a member without custom roles changes nothing.
  resolve_collected_lem :
      (db : Database) (organization_id : String) (c : Collected) (names : List String)
      → resolve_collected json db organization_id c names
        ≡ grant_custom_roles json (find_custom_roles json db organization_id names) c.granted
  unfolding resolve_collected
  resolve_collected_lem db organization_id c [] =
      rw (find_custom_roles-none organization_id db.organization_roles)
  resolve_collected_lem db organization_id c (name ∷ names) = refl

-- A permission is in a member's resolved set exactly when one of the roles that the membership
-- names is a built-in role that grants it, or a custom role of the same organization, under a name
-- that is no built-in role, has a payload that parses and grants it.
pub resolve_permissions-includes :
    (json : JsonText) (db : Database) (organization_id raw_role t : String)
    → includes (resolve_permissions json db organization_id raw_role) t ≡ (
        exists (system_grants t) (roles_of raw_role)
        || exists
            (λ row.
              is_row_of organization_id (custom_names (roles_of raw_role)) row
              && row_grants json t row)
            db.organization_roles)
unfolding resolve_permissions
resolve_permissions-includes json db organization_id raw_role t =
    let start : Collected = record { granted = []; custom_role_names = [] } in
    let c = collect_roles (roles_of raw_role) start in
    rw
      (
        resolve_collected_lem json db organization_id c c.custom_role_names,
        grant_custom_roles-includes json t,
        collect_roles-names (roles_of raw_role) start,
        collect_roles-includes t (roles_of raw_role) start,
      )
      (unfold includes in rw (exists-keep (row_grants json t)))
