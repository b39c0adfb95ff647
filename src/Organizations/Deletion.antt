-- ===== src/Organizations/Deletion.antt =====
-- A role that is deleted is no role of a member.
use nestjs_fastify_nx.Common.{
  ℕ, String, ◌≡◌, refl, sym, ap, ◌∙◌, ◌==◌, Bool, true, false, List, [], ◌∷◌, ◌||◌, ◌&&◌, not,
  Option, none, some, arith, eq_iff, Bool-cases, inl, inr, exists, every, includes, includes-keep,
  map, keep, find, if◌then◌else◌,
}
use nestjs_fastify_nx.Common.Text.{is_space, split, trim, without, has_spaces_of, with_spaces}
use nestjs_fastify_nx.Common.Text.Spaces.{split-without, without-trim, without-with_spaces}
use nestjs_fastify_nx.Errors.{ok, err}
use nestjs_fastify_nx.Exec.{◌>>=◌, pure, throw}
use nestjs_fastify_nx.Authorization.Permissions.{JsonText, is_system_role}
use nestjs_fastify_nx.Authorization.Policy.{user}
use nestjs_fastify_nx.Authorization.Adapter.{
  Member, permissions_for, policy_context, of_role, membership_role, roles_of, is_membership,
  role_of,
}
use nestjs_fastify_nx.Authorization.Grants.{
  resolve_permissions-includes, row_grants, is_row_of, custom_names, system_grants,
}
use nestjs_fastify_nx.Organizations.Roles.{
  World, OrganizationRoleRow, grant_of, database_of, is_named, is_holder, delete_unless_held,
  string_to_array, delete_organization_role, role_in_use, role_not_found,
}
use nestjs_fastify_nx.Organizations.Escalation.{allowed}

-- The database's white space has no comma, and the name of the role has no white space.
pub record IsNameClass (class : ℕ → Bool) (role : String) : Type 0 where
  pub keeps_comma : class b',' ≡ false
  pub keeps_name : without (with_spaces class) role ≡ role

space-with_spaces : (class : ℕ → Bool) (c : ℕ) → is_space c ≡ true → with_spaces class c ≡ true
space-with_spaces class c h = true_right (class c) (is_space c) h
  where
    true_right : (a b : Bool) → b ≡ true → (a || b) ≡ true
    true_right a b h = ground arith

-- An array of the database has the pieces that are no empty text.
listed-in_array :
    (s role : String)
    → not (role == "") ≡ true
    → includes (split b',' s) role ≡ true
    → includes (string_to_array s) role ≡ true
unfolding string_to_array
listed-in_array s role filled h = elim (Bool-cases (s == "")) [
  | inl empty ↦ absurd (unlisted (rw ((eq_iff s "").0 empty) at h))
  | inr some_text ↦ rw some_text h
]
  where
    unlisted : includes (split b',' "") role ≡ true → ⊥
    unlisted k =
        let e : ("" == role || false) ≡ true = unfold includes split in k in
        ground (arith, eq_iff "" role, eq_iff role "")

module _ (class : ℕ → Bool) (role : String) (names : IsNameClass class role) where
  trimmed-listed :
      (pieces : List String)
      → includes (map trim pieces) role ≡ true
      → includes (map (without (with_spaces class)) pieces) role ≡ true
  unfolding includes
  trimmed-listed [] h = h
  trimmed-listed (piece ∷ pieces) h = elim (Bool-cases (trim piece == role)) [
    | inl same ↦
        let e : without (with_spaces class) piece ≡ role =
          sym (without-trim (with_spaces class) piece (space-with_spaces class))
          ∙ (ap (without (with_spaces class)) ((eq_iff (trim piece) role).0 same)
              ∙ names.keeps_name) in
        ground (arith, eq_iff (without (with_spaces class) piece) role)
    | inr other ↦ ground (arith, trimmed-listed pieces)
  ]

  -- A role that the adapter reads in a membership is one that the database finds there.
  listed-held :
      (raw : String)
      → has_spaces_of class raw ≡ true
      → includes (roles_of raw) role ≡ true
      → includes (string_to_array (without class raw)) role ≡ true
  unfolding roles_of
  listed-held raw clean h =
      let (listed, filled) =
        both (includes (map trim (split b',' raw)) role) (not (role == ""))
          (sym (includes-keep (λ r. not (r == "")) (map trim (split b',' raw)) role) ∙ h) in
      rw (← without-with_spaces class raw clean) (
        listed-in_array (without (with_spaces class) raw) role filled (
          rw
            (split-without (with_spaces class) b',' raw
              (ap (λ x. x || is_space b',') names.keeps_comma))
            (trimmed-listed (split b',' raw) listed)))
    where
      both : (a b : Bool) → (a && b) ≡ true → (a ≡ true) × (b ≡ true)
      both a b h = ground arith

custom-listed :
    (roles : List String) (role : String)
    → includes roles role ≡ false
    → includes (custom_names roles) role ≡ false
custom-listed roles role h = rw (includes-keep (λ r. not (is_system_role r)) roles role, h) refl

listed-of_custom :
    (roles : List String) (role : String)
    → includes (custom_names roles) role ≡ true
    → includes roles role ≡ true
listed-of_custom roles role listed = elim (Bool-cases (includes roles role)) [
  | inl found ↦ found
  | inr missing ↦ absurd (clash (sym (custom-listed roles role missing) ∙ listed))
]
  where
    clash : false ≡ true → ⊥
    clash e = cc

-- Rows that no name of the member stands for can go.
module _ (json : JsonText) (organization_id role : String) where
  not-row :
      (o o' r : String) (names : List String)
      → ((o == organization_id) && includes names role) ≡ false
      → (o' == organization_id && r == role) ≡ true
      → (o' == o && includes names r) ≡ false
  not-row o o' r names h k =
      let (a, b) = both (o' == organization_id) (r == role) k in
      rw ((eq_iff o' organization_id).0 a, (eq_iff r role).0 b)
        (ground (arith, eq_iff organization_id o, eq_iff o organization_id))
    where
      both : (a b : Bool) → (a && b) ≡ true → (a ≡ true) × (b ≡ true)
      both a b h = ground arith

  others-grant :
      (o t : String) (names : List String) (rows : List OrganizationRoleRow)
      → ((o == organization_id) && includes names role) ≡ false
      → exists
          (λ row. is_row_of o names row && row_grants json t row)
          (map grant_of (keep (λ row. not (is_named organization_id role row)) rows))
        ≡ exists (λ row. is_row_of o names row && row_grants json t row) (map grant_of rows)
  others-grant o t names [] h = refl
  others-grant o t names (row ∷ rows) h = elim (Bool-cases (is_named organization_id role row)) [
    | inl gone ↦
        rw (gone, not-row o row.organization_id row.role names h gone)
          (others-grant o t names rows h)
    | inr kept ↦ rw kept (
        ap (λ b. is_row_of o names (grant_of row) && row_grants json t (grant_of row) || b)
          (others-grant o t names rows h))
  ]

module _ (class : ℕ → Bool) (organization_id role : String) where
  unheld :
      (o u raw : String) (members : List Member)
      → exists (is_holder class organization_id role) members ≡ false
      → role_of (find (is_membership o u) members) ≡ some raw
      → (o == organization_id && includes (string_to_array (without class raw)) role) ≡ false
  unheld o u raw [] h k = absurd (none-ne-some raw k)
    where
      none-ne-some : (raw : String) → none ≡ some raw → ⊥
      none-ne-some raw e = cc
  unheld o u raw (m ∷ members) h k = elim (Bool-cases (is_membership o u m)) [
    | inl here ↦
        let e : m.role ≡ raw = some-inj m.role raw (rw here at k) in
        let i : m.organization_id ≡ o = (eq_iff m.organization_id o).0 (ground arith) in
        rw (← i, ← e) (ground arith)
    | inr elsewhere ↦ unheld o u raw members (ground arith) (rw elsewhere at k)
  ]
    where
      some-inj : (a b : String) → some a ≡ some b → a ≡ b
      some-inj a b e = cc

found-clean :
    (class : ℕ → Bool) (o u raw : String) (members : List Member)
    → every (λ m. has_spaces_of class m.role) members ≡ true
    → role_of (find (is_membership o u) members) ≡ some raw
    → has_spaces_of class raw ≡ true
found-clean class o u raw [] h k = cc
found-clean class o u raw (m ∷ members) h k = elim (Bool-cases (is_membership o u m)) [
  | inl here ↦ let e : m.role ≡ raw = some-inj m.role raw (rw here at k) in rw (← e) (ground arith)
  | inr elsewhere ↦ found-clean class o u raw members (ground arith) (rw elsewhere at k)
]
  where
    some-inj : (a b : String) → some a ≡ some b → a ≡ b
    some-inj a b e = cc

module _ (json : JsonText) (class : ℕ → Bool) (organization_id role : String)
    (names : IsNameClass class role) where
  same-permissions :
      (w : World) (o u t : String) (raw : Option String)
      → every (λ m. has_spaces_of class m.role) w.members ≡ true
      → exists (is_holder class organization_id role) w.members ≡ false
      → role_of (find (is_membership o u) w.members) ≡ raw
      → includes
          (of_role json
            (database_of (record w {
              organization_roles =
                  keep (λ row. not (is_named organization_id role row)) w.organization_roles;
            }))
            (user u o none)
            o
            raw).permissions
          t
        ≡ includes (of_role json (database_of w) (user u o none) o raw).permissions t
  same-permissions w o u t none clean h k = refl
  same-permissions w o u t (some raw) clean h k =
      resolve_permissions-includes json _ o raw t
      ∙ (ap (λ b. exists (system_grants t) (roles_of raw) || b)
            (others-grant json organization_id role o t (custom_names (roles_of raw))
              w.organization_roles unnamed)
          ∙ sym (resolve_permissions-includes json (database_of w) o raw t))
    where
      implied : (a b c : Bool) → (a && b) ≡ false → (c ≡ true → b ≡ true) → (a && c) ≡ false
      implied a b false h f = ground arith
      implied a b true h f = ground (arith, f refl)

      unnamed : (o == organization_id && includes (custom_names (roles_of raw)) role) ≡ false
      unnamed =
          implied (o == organization_id) (includes (roles_of raw) role) _
            (implied (o == organization_id) (includes (string_to_array (without class raw)) role) _
              (unheld class organization_id role o u raw w.members h k)
              (listed-held class role names raw (found-clean class o u raw w.members clean k)))
            (listed-of_custom (roles_of raw) role)

  same-allowed :
      (w : World) (o u t : String)
      → every (λ m. has_spaces_of class m.role) w.members ≡ true
      → exists (is_holder class organization_id role) w.members ≡ false
      → allowed json
          (record w {
            organization_roles =
                keep (λ row. not (is_named organization_id role row)) w.organization_roles;
          })
          o
          u
          t
        ≡ allowed json w o u t
  unfolding permissions_for policy_context membership_role
  same-allowed w o u t clean h =
      same-permissions w o u t (role_of (find (is_membership o u) w.members)) clean h refl

  none-named :
      (rows : List OrganizationRoleRow)
      → exists
          (is_named organization_id role)
          (keep (λ row. not (is_named organization_id role row)) rows)
        ≡ false
  none-named [] = refl
  none-named (row ∷ rows) = ground (arith, none-named rows)

  -- Deleting a role succeeds exactly when the organization has it and no member of it has the name; it
  -- is gone then, and stays where a member has the name. Whatever the outcome, nobody's permissions
  -- change, in any organization. Conditions: the white space of the database (`\s` of its regular
  -- expressions) has no comma, the name of the role has no white space, and what white space the
  -- members' lists of roles have is white space of the database too.
  pub delete_organization_role-keeps :
      (w : World)
      → every (λ m. has_spaces_of class m.role) w.members ≡ true
      → ((delete_organization_role class organization_id role w).0 ≡ (
          if not (exists (is_named organization_id role) w.organization_roles)
          then err role_not_found
          else if exists (is_holder class organization_id role) w.members
          then err role_in_use
          else ok tt))
        × (exists
              (is_named organization_id role)
              (delete_organization_role class organization_id role w).1.organization_roles
            ≡ (exists (is_named organization_id role) w.organization_roles
                && exists (is_holder class organization_id role) w.members))
        × ((o u permission : String)
            → allowed json (delete_organization_role class organization_id role w).1 o u permission
              ≡ allowed json w o u permission)
  unfolding delete_organization_role delete_unless_held pure throw ◌>>=◌
  delete_organization_role-keeps w clean =
      elim (Bool-cases (exists (is_holder class organization_id role) w.members)) [
        | inl held ↦
            elim (Bool-cases (exists (is_named organization_id role) w.organization_roles)) [
              | inl found ↦ rw (held, found) (refl, found, λ o u t. refl)
              | inr missing ↦ rw (held, missing) (refl, missing, λ o u t. refl)
            ]
        | inr unheld ↦
            elim (Bool-cases (exists (is_named organization_id role) w.organization_roles)) [
              | inl found ↦
                  rw (unheld, found)
                    (
                      refl,
                      none-named w.organization_roles,
                      λ o u t. same-allowed w o u t clean unheld,
                    )
              | inr missing ↦
                  rw (unheld, missing)
                    (
                      refl,
                      none-named w.organization_roles,
                      λ o u t. same-allowed w o u t clean unheld,
                    )
            ]
      ]
