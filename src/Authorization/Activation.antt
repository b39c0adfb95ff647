-- ===== src/Authorization/Activation.antt =====
-- When the permission guard lets a request through.
use nestjs_fastify_nx.Common.{
  String, ◌≡◌, refl, sym, ◌∙◌, ◌≢◌, ◌↔◌, not, Bool, true, false, Option, none, some, List, [], ◌∷◌,
  includes, every, every-map, every-implies, every-includes, map, truthy, arith, eq_iff, Bool-cases,
  Option-cases, inl, inr,
}
use nestjs_fastify_nx.Errors.{Result, ok}
use nestjs_fastify_nx.Authorization.Permissions.{JsonText}
use nestjs_fastify_nx.Authorization.Policy.{
  Principal, user, api_key, CheckRequest, AccessDecision, decide, decide_access,
  requires_membership, membership_independent_permissions, decide_without_organization,
}
use nestjs_fastify_nx.Authorization.Adapter.{Database, policy_context, check_many}
use nestjs_fastify_nx.Authorization.Guard.{
  AuthenticatedSession, AuthenticatedApiKey, ExecutionContext, require_all, can_activate,
}

-- The policy allows each of the permissions to the principal, with no resource named.
abbrev pub allows : JsonText → Database → Principal → List String → Bool
allows json db principal required =
    every
      (λ permission.
        (decide (policy_context json db principal)
          (record { permission = permission; resource = none })).allowed)
      required

-- The port as the Postgres adapter fills it.
abbrev pub port : JsonText → Database → Principal → List CheckRequest → Result (List AccessDecision)
port json db principal requests = ok (check_many json db principal requests)

-- The credential that carries a request past the guard. An API key takes precedence over a session.
pub data IsAdmitted (json : JsonText) (db : Database) (c : ExecutionContext)
    (required : List String) : Type 0 where
  by_key :
      (key : AuthenticatedApiKey)
      → c.api_key ≡ some key
      → allows json db (api_key key.api_key_id key.organization_id key.scopes) required ≡ true
      → IsAdmitted json db c required
  by_session :
      (session : AuthenticatedSession) (organization : String)
      → c.api_key ≡ none
      → c.user ≡ some session
      → session.organization_id ≡ some organization
      → organization ≢ ""
      → allows json db (user session.user_id organization none) required ≡ true
      → IsAdmitted json db c required
  without_organization :
      (session : AuthenticatedSession)
      → c.api_key ≡ none
      → c.user ≡ some session
      → truthy session.organization_id ≡ false
      → every (includes membership_independent_permissions) required ≡ true
      → IsAdmitted json db c required

check_many-allowed :
    (json : JsonText) (db : Database) (principal : Principal) (required : List String)
    → every
        (λ d. d.allowed)
        (check_many json db principal
          (map (λ p. record { permission = p; resource = none }) required))
      ≡ allows json db principal required
unfolding check_many decide_access
check_many-allowed json db principal required = rw (
  every-map (λ (d : AccessDecision). d.allowed) (decide (policy_context json db principal)),
  every-map (λ (r : CheckRequest). (decide (policy_context json db principal) r).allowed)
      (λ p. record { permission = p; resource = none }),
)

decide_without_organization-allowed :
    (required : List String)
    → every (λ d. d.allowed) (decide_without_organization required)
      ≡ every (includes membership_independent_permissions) required
unfolding decide_without_organization
decide_without_organization-allowed [] = refl
decide_without_organization-allowed (p ∷ ps) =
    ground (arith, decide_without_organization-allowed ps)

-- The permissions that need no membership are on session and term resources.
independent-needs_no_membership :
    (permission : String)
    → includes membership_independent_permissions permission ≡ true
    → not (requires_membership permission) ≡ true
independent-needs_no_membership permission h =
    every-includes (λ p. not (requires_membership p)) membership_independent_permissions permission
      (unfold requires_membership in refl) h

organization-of_truthy :
    (o : Option String)
    → truthy o ≡ true
    → (organization : String) × (o ≡ some organization) × (organization ≢ "")
organization-of_truthy none h = cc
organization-of_truthy (some t) h = (t, refl, λ e. ground (arith, eq_iff t ""))

can_activate-require_all :
    (json : JsonText) (db : Database) (c : ExecutionContext) (p : String) (ps : List String)
    → c.context_type ≢ "ws"
    → c.is_public ≡ false
    → c.required ≡ some (p ∷ ps)
    → can_activate (port json db) c ≡ require_all (port json db) c (p ∷ ps)
can_activate-require_all json db c p ps http guarded needed =
    unfold can_activate in ground (arith, eq_iff c.context_type "ws")

module _ (json : JsonText) (db : Database) (c : ExecutionContext) (required : List String) where
  require_all-key :
      (key : AuthenticatedApiKey)
      → c.api_key ≡ some key
      → (require_all (port json db) c required ≡ ok true)
        ↔ (allows json db (api_key key.api_key_id key.organization_id key.scopes) required ≡ true)
  unfolding require_all
  require_all-key key e = ground (
    arith,
    check_many-allowed json db (api_key key.api_key_id key.organization_id key.scopes) required,
  )

  require_all-session :
      (session : AuthenticatedSession) (organization : String)
      → c.api_key ≡ none
      → c.user ≡ some session
      → session.organization_id ≡ some organization
      → organization ≢ ""
      → (require_all (port json db) c required ≡ ok true)
        ↔ (allows json db (user session.user_id organization none) required ≡ true)
  unfolding require_all
  require_all-session session organization e f g h = ground (
    arith,
    eq_iff organization "",
    check_many-allowed json db (user session.user_id organization none) required,
  )

  require_all-no_organization :
      (session : AuthenticatedSession)
      → c.api_key ≡ none
      → c.user ≡ some session
      → truthy session.organization_id ≡ false
      → (require_all (port json db) c required ≡ ok true)
        ↔ (every (includes membership_independent_permissions) required ≡ true)
  unfolding require_all
  require_all-no_organization session e f g = ground (
    arith,
    decide_without_organization-allowed required,
    every-implies (includes membership_independent_permissions)
        (λ permission. not (requires_membership permission)) required
        independent-needs_no_membership,
  )

  require_all-anonymous :
      c.api_key ≡ none → c.user ≡ none → require_all (port json db) c required ≢ ok true
  unfolding require_all
  require_all-anonymous e f h = ground arith

  require_all-IsAdmitted :
      require_all (port json db) c required ≡ ok true → IsAdmitted json db c required
  require_all-IsAdmitted h = elim (Option-cases c.api_key) [
    | inr (key, e) ↦ by_key key e ((require_all-key key e).0 h)
    | inl no_key ↦ elim (Option-cases c.user) [
      | inl nobody ↦ absurd (require_all-anonymous no_key nobody h)
      | inr (session, f) ↦ elim (Bool-cases (truthy session.organization_id)) [
        | inr no_org ↦
            without_organization session no_key f no_org
              ((require_all-no_organization session no_key f no_org).0 h)
        | inl has_org ↦
            let (organization, g, filled) =
              organization-of_truthy session.organization_id has_org in
            by_session session organization no_key f g filled
              ((require_all-session session organization no_key f g filled).0 h)
      ]
    ]
  ]

  IsAdmitted-require_all :
      IsAdmitted json db c required → require_all (port json db) c required ≡ ok true
  IsAdmitted-require_all (by_key key e h) = (require_all-key key e).1 h
  IsAdmitted-require_all (by_session session organization e f g filled h) =
      (require_all-session session organization e f g filled).1 h
  IsAdmitted-require_all (without_organization session e f g h) =
      (require_all-no_organization session e f g).1 h

-- On an HTTP route that is not public and requires at least one permission, the guard lets a request
-- through exactly when it is admitted: by its API key, if it has one, with every permission allowed to
-- that key; else by its session's organization, with every permission allowed to that user; else,
-- for a session without an organization, with only permissions that need no membership.
pub can_activate_iff :
    (json : JsonText) (db : Database) (c : ExecutionContext) (p : String) (ps : List String)
    → c.context_type ≢ "ws"
    → c.is_public ≡ false
    → c.required ≡ some (p ∷ ps)
    → (can_activate (port json db) c ≡ ok true) ↔ IsAdmitted json db c (p ∷ ps)
can_activate_iff json db c p ps http guarded needed =
    let step = can_activate-require_all json db c p ps http guarded needed in
    (
      λ h. require_all-IsAdmitted json db c (p ∷ ps) (sym step ∙ h),
      λ a. step ∙ IsAdmitted-require_all json db c (p ∷ ps) a,
    )
