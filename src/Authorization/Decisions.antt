-- ===== src/Authorization/Decisions.antt =====
-- What `decideAccess` allows, described without reference to the order of its tests.
use nestjs_fastify_nx.Common.{
  String, ◌≡◌, refl, ◌≢◌, ◌↔◌, ◌⊎◌, inl, inr, not, ◌||◌, ◌&&◌, Bool, true, false, Option, none,
  some, List, includes, arith, eq_iff, is_text, Option-cases,
}
use nestjs_fastify_nx.Authorization.Policy.{
  Principal, user, api_key, system, CheckRequest, PolicyContext, owner_scoped_permissions,
  membership_independent_permissions, requires_membership, is_user, is_system, organization_of,
  holds, holds_membership_independent_grant, holds_owner_grant, is_cross_organization, decide,
  resource_organization, resource_owner, differs,
}

abbrev pub context : Principal → List String → Bool → PolicyContext
context principal permissions is_member = record {
  principal = principal;
  permissions = permissions;
  is_member = is_member;
}

-- The grounds on which a request can be allowed.
pub data IsEntitled (permissions : List String) (is_member : Bool) (request : CheckRequest)
    : Principal → Type 0 where
  granted :
      {p : Principal}
      → includes permissions request.permission ≡ true
      → IsEntitled permissions is_member request p
  independent :
      {u o : String} {m : Option String}
      → includes membership_independent_permissions request.permission ≡ true
      → IsEntitled permissions is_member request (user u o m)
  owned :
      {u o : String} {m : Option String}
      → is_member ≡ true
      → resource_owner request.resource ≡ some u
      → includes owner_scoped_permissions request.permission ≡ true
      → IsEntitled permissions is_member request (user u o m)

-- The two barriers: membership, and the organization of the resource.
pub record IsReachable (principal : Principal) (is_member : Bool) (request : CheckRequest)
    : Type 0 where
  pub membership :
      is_user principal ≡ true → requires_membership request.permission ≡ true → is_member ≡ true
  pub same_organization :
      (organization : String)
      → resource_organization request.resource ≡ some organization
      → organization ≢ ""
      → is_system principal ≡ false
      → organization_of principal ≡ some organization

differs_iff : (o : Option String) (t : String) → (differs (some t) o ≡ false) ↔ (o ≡ some t)
differs_iff none t = ground arith
differs_iff (some s) t = ground (arith, eq_iff t s)

is_text_iff : (o : Option String) (t : String) → (is_text o t ≡ true) ↔ (o ≡ some t)
is_text_iff none t = ground arith
is_text_iff (some s) t = ground (arith, eq_iff s t)

module _ (principal : Principal) (request : CheckRequest) where
  SameOrganization : Type 0
  SameOrganization =
      (organization : String)
      → resource_organization request.resource ≡ some organization
      → organization ≢ ""
      → is_system principal ≡ false
      → organization_of principal ≡ some organization

  is_cross_organization-false :
      is_cross_organization principal request.resource ≡ false → SameOrganization
  unfolding is_cross_organization SameOrganization
  is_cross_organization-false h organization e filled person =
      ground (arith, eq_iff organization "", differs_iff (organization_of principal) organization)

  is_cross_organization-of_same :
      SameOrganization → is_cross_organization principal request.resource ≡ false
  unfolding is_cross_organization SameOrganization
  is_cross_organization-of_same h = elim (Option-cases (resource_organization request.resource)) [
    | inl absent ↦ rw absent
    | inr (t, e) ↦ ground (arith, eq_iff t "", h t e, differs_iff (organization_of principal) t)
  ]

-- Either grant of the policy, as the code tests them one after the other.
abbrev pub is_granted : PolicyContext → CheckRequest → Bool
is_granted c request = holds c request.permission || holds_owner_grant c request

||-cases : (a b : Bool) → (a || b) ≡ true → (a ≡ true) ⊎ (b ≡ true)
||-cases true b h = inl refl
||-cases false b h = inr h

owner_grant-parts :
    (u o : String) (m : Option String) (permissions : List String) (is_member : Bool)
    (request : CheckRequest)
    → holds_owner_grant (context (user u o m) permissions is_member) request ≡ true
    → (is_member ≡ true)
      × (resource_owner request.resource ≡ some u)
      × (includes owner_scoped_permissions request.permission ≡ true)
unfolding holds_owner_grant
owner_grant-parts u o m permissions is_member request h =
    ground (arith, is_text_iff (resource_owner request.resource) u)

module _ (permissions : List String) (is_member : Bool) (request : CheckRequest) where
  is_granted-IsEntitled :
      (principal : Principal)
      → is_granted (context principal permissions is_member) request ≡ true
      → IsEntitled permissions is_member request principal
  unfolding holds holds_membership_independent_grant
  is_granted-IsEntitled (user u o m) h = elim (||-cases _ _ h) [
    | inl held ↦ elim (||-cases _ _ held) [ inl a ↦ granted a | inr b ↦ independent b ]
    | inr owner ↦
        let (member, owns, scoped) = owner_grant-parts u o m permissions is_member request owner in
        owned member owns scoped
  ]
  is_granted-IsEntitled (api_key k o s) h = granted (unfold holds_owner_grant in ground arith)
  is_granted-IsEntitled (system r) h = granted (unfold holds_owner_grant in ground arith)

  IsEntitled-is_granted :
      {principal : Principal}
      → IsEntitled permissions is_member request principal
      → is_granted (context principal permissions is_member) request ≡ true
  unfolding holds holds_membership_independent_grant holds_owner_grant
  IsEntitled-is_granted (granted h) = ground arith
  IsEntitled-is_granted (independent h) = ground arith
  IsEntitled-is_granted (owned {u} member owns scoped) =
      ground (arith, is_text_iff (resource_owner request.resource) u)

pub decide-allowed :
    (c : PolicyContext) (request : CheckRequest)
    → (decide c request).allowed ≡ (
        not (is_user c.principal && not c.is_member && requires_membership request.permission)
        && not (is_cross_organization c.principal request.resource)
        && is_granted c request)
unfolding decide
decide-allowed c request = ground arith

module _ (principal : Principal) (permissions : List String) (is_member : Bool)
    (request : CheckRequest) where
  decide_sound :
      (decide (context principal permissions is_member) request).allowed ≡ true
      → IsReachable principal is_member request × IsEntitled permissions is_member request principal
  decide_sound h =
      let e = decide-allowed (context principal permissions is_member) request in
      (
        record {
          membership = λ person needed. ground (arith, e);
          same_organization =
              unfold SameOrganization in
              is_cross_organization-false principal request (ground (arith, e));
        },
        is_granted-IsEntitled permissions is_member request principal (ground (arith, e)),
      )

  decide_complete :
      IsReachable principal is_member request
      → IsEntitled permissions is_member request principal
      → (decide (context principal permissions is_member) request).allowed ≡ true
  unfolding SameOrganization
  decide_complete reach entitled = ground (
    arith,
    decide-allowed (context principal permissions is_member) request,
    is_cross_organization-of_same principal request reach.same_organization,
    IsEntitled-is_granted permissions is_member request entitled,
    reach.membership,
  )

  -- A request is allowed exactly when neither barrier stands and one of the three grounds holds:
  -- the permission is in the principal's set, or the principal is a user and the permission needs
  -- no membership, or the user is a member who owns the resource and the permission is owner-scoped.
  pub decide_iff : ((decide (context principal permissions is_member) request).allowed ≡ true) ↔ (
      IsReachable principal is_member request × IsEntitled permissions is_member request principal)
  decide_iff = (decide_sound, λ (reach, entitled). decide_complete reach entitled)
