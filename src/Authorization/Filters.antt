-- ===== src/Authorization/Filters.antt =====
-- The list filter of `decideFilter` against the point check of `decideAccess`.
use nestjs_fastify_nx.Common.{
  String, ◌≡◌, refl, ◌≢◌, ◌==◌, ◌&&◌, Bool, true, false, Option, none, some, List, [], ◌∷◌,
  includes, if◌then◌else◌, arith, eq_iff, eq_refl, is_text, Option-cases, inl, inr,
}
use nestjs_fastify_nx.Authorization.Permissions.{resource_type_of}
use nestjs_fastify_nx.Authorization.Policy.{
  Principal, user, api_key, system, CheckRequest, AccessFilter, everything, nothing, predicate, ids,
  Where, requires_membership, is_system, organization, scope_of, organization_of, holds_owner_grant,
  is_cross_organization, decide, filter_by_scope, filter_by_owner, decide_filter,
}
use nestjs_fastify_nx.Authorization.Decisions.{context}

-- What a filter reads of a row.
pub record Row : Type 0 where
  pub id : String
  pub organization_id : Option String
  pub user_id : Option String

abbrev column : Row → String → Option String
column row name =
    if name == "id"
    then some row.id
    else if name == "organizationId"
    then row.organization_id
    else if name == "userId"
    then row.user_id
    else none

abbrev satisfies : Row → Where → Bool
satisfies row [] = true
satisfies row ((name, value) ∷ rest) = is_text (column row name) value && satisfies row rest

-- The rows that a query under the filter returns.
abbrev pub admits : AccessFilter → Row → Bool
admits everything row = true
admits nothing row = false
admits (predicate where_clause) row = satisfies row where_clause
admits (ids listed truncated) row = includes listed row.id

abbrev pub request_for : String → Row → CheckRequest
request_for permission row = record {
  permission = permission;
  resource = some (record {
    resource_type = resource_type_of permission;
    id = row.id;
    owner_id = row.user_id;
    organization_id = row.organization_id;
  });
}

requires_membership-of_organization :
    (permission : String)
    → scope_of permission ≡ some organization
    → requires_membership permission ≡ true
unfolding requires_membership
requires_membership-of_organization permission h = rw h

module _ (permissions : List String) (is_member : Bool) (permission : String) (row : Row)
    (owner : String) (scoped : scope_of permission ≡ some organization)
    (typed : resource_type_of permission ≢ "organization")
    (owned : row.organization_id ≡ some owner) (named : owner ≢ "") where
  agree_at :
      (principal : Principal)
      → is_system principal ≡ false
      → admits
          (decide_filter
            (context principal permissions is_member)
            permission
            (resource_type_of permission))
          row
        ≡ (decide (context principal permissions is_member) (request_for permission row)).allowed
  unfolding decide_filter decide scope_of filter_by_scope filter_by_owner is_cross_organization
      holds_owner_grant
  agree_at (user u o m) h = ground (
    arith,
    eq_refl (resource_type_of permission),
    eq_iff (resource_type_of permission) "organization",
    eq_iff owner "",
    requires_membership-of_organization permission scoped,
  )
  agree_at (api_key k o s) h = ground (
    arith,
    eq_refl (resource_type_of permission),
    eq_iff (resource_type_of permission) "organization",
    eq_iff owner "",
    requires_membership-of_organization permission scoped,
  )
  agree_at (system r) h = ground arith

-- For a permission on an organization-scoped type other than organizations themselves, a principal
-- that is not the system, and a row that names its organization: the list filter returns the row
-- exactly when the point check on that row allows the permission.
pub decide_filter-agrees :
    (principal : Principal) (permissions : List String) (is_member : Bool) (permission : String)
    (row : Row) (owner : String)
    → scope_of permission ≡ some organization
    → resource_type_of permission ≢ "organization"
    → row.organization_id ≡ some owner
    → owner ≢ ""
    → is_system principal ≡ false
    → admits
        (decide_filter
          (context principal permissions is_member)
          permission
          (resource_type_of permission))
        row
      ≡ (decide (context principal permissions is_member) (request_for permission row)).allowed
decide_filter-agrees principal permissions is_member permission row owner scoped typed owned named
      h =
    agree_at permissions is_member permission row owner scoped typed owned named principal h

-- The row carries no organization, or that of the principal.
abbrev pub IsDomestic : Principal → Row → Type 0
IsDomestic principal row =
    (o : String) → row.organization_id ≡ some o → organization_of principal ≡ some o

cross-IsDomestic :
    (principal : Principal) (permission : String) (row : Row)
    → IsDomestic principal row
    → is_cross_organization principal (request_for permission row).resource ≡ false
unfolding is_cross_organization
cross-IsDomestic principal permission row h = elim (Option-cases row.organization_id) [
  | inl absent ↦ rw absent
  | inr (o, e) ↦ ground (arith, h o e, eq_iff o o)
]

owner-column :
    (u o : String) (m : Option String) (permissions : List String) (is_member : Bool)
    (permission : String) (row : Row)
    → admits (filter_by_owner (context (user u o m) permissions is_member) permission) row ≡ true
    → holds_owner_grant (context (user u o m) permissions is_member) (request_for permission row)
      ≡ true
unfolding filter_by_owner holds_owner_grant
owner-column u o m permissions is_member permission row h = ground arith

module _ (permissions : List String) (is_member : Bool) (permission : String) (row : Row) where
  sound_at :
      (principal : Principal)
      → (is_system principal ≡ true → includes permissions permission ≡ true)
      → IsDomestic principal row
      → admits
          (decide_filter
            (context principal permissions is_member)
            permission
            (resource_type_of permission))
          row
        ≡ true
      → (decide (context principal permissions is_member) (request_for permission row)).allowed
        ≡ true
  unfolding decide_filter decide
  sound_at (user u o m) owner_holds domestic h = ground (
    arith,
    cross-IsDomestic (user u o m) permission row domestic,
    owner-column u o m permissions is_member permission row,
  )
  sound_at (api_key k o s) owner_holds domestic h =
      unfold filter_by_owner in
      ground (arith, cross-IsDomestic (api_key k o s) permission row domestic)
  sound_at (system r) owner_holds domestic h =
      ground (arith, cross-IsDomestic (system r) permission row domestic, owner_holds refl)

-- Whatever the resource type: a row that the filter returns, and that carries no foreign
-- organization, passes the point check. A system principal is taken to hold the permission.
pub decide_filter_sound :
    (principal : Principal) (permissions : List String) (is_member : Bool) (permission : String)
    (row : Row)
    → (is_system principal ≡ true → includes permissions permission ≡ true)
    → IsDomestic principal row
    → admits
        (decide_filter
          (context principal permissions is_member)
          permission
          (resource_type_of permission))
        row
      ≡ true
    → (decide (context principal permissions is_member) (request_for permission row)).allowed ≡ true
decide_filter_sound principal permissions is_member permission row owner_holds domestic h =
    sound_at permissions is_member permission row principal owner_holds domestic h
