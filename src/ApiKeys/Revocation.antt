-- ===== src/ApiKeys/Revocation.antt =====
-- What a revocation leaves behind, and which keys the guard accepts.
use nestjs_fastify_nx.Common.{
  ℕ, String, ◌≡◌, refl, sym, ap, ◌∙◌, ◌==◌, Bool, true, false, Option, none, some, List, [], ◌∷◌,
  ◌&&◌, ◌||◌, not, arith, Bool-cases, inl, inr, every, exists, map, is_some, if◌then◌else◌,
}
use nestjs_fastify_nx.Errors.{Result, ok, err}
use nestjs_fastify_nx.Exec.{pure, throw, ◌>>=◌}
use nestjs_fastify_nx.Authorization.Guard.{AuthenticatedApiKey}
use nestjs_fastify_nx.ApiKeys.Entity.{ApiKey}
use nestjs_fastify_nx.ApiKeys.Handlers.{
  World, is_named, is_live, revoke, is_known, key_not_found, revoke_api_key,
}
use nestjs_fastify_nx.ApiKeys.KeyGuard.{
  KeyRequest, extract_key, has_expired, accept, find_key, check_presented, can_activate,
  invalid_credential,
}

all-revoked :
    (o id : String) (now : ℕ) (keys : List ApiKey)
    → every
        (λ key. not (is_named o id key && is_live key))
        (map
          (λ key.
            if is_named o id key && is_live key then record key { revoked_at = some now } else key)
          keys)
      ≡ true
all-revoked o id now [] = refl
all-revoked o id now (key ∷ keys) = elim (Bool-cases (is_named o id key && is_live key)) [
  | inl hit ↦ rw hit (ground (arith, all-revoked o id now keys))
  | inr miss ↦ rw (miss, miss) (all-revoked o id now keys)
]

still-named :
    (o id : String) (now : ℕ) (keys : List ApiKey)
    → exists (is_named o id) (
        map
          (λ key.
            if is_named o id key && is_live key then record key { revoked_at = some now } else key)
          keys)
      ≡ exists (is_named o id) keys
still-named o id now [] = refl
still-named o id now (key ∷ keys) = elim (Bool-cases (is_named o id key && is_live key)) [
  | inl hit ↦ rw hit (ap (λ b. is_named o id key || b) (still-named o id now keys))
  | inr miss ↦ rw miss (ap (λ b. is_named o id key || b) (still-named o id now keys))
]

live-named :
    (o id : String) (keys : List ApiKey)
    → exists (λ key. is_named o id key && is_live key) keys ≡ true
    → exists (is_named o id) keys ≡ true
live-named o id [] h = h
live-named o id (key ∷ keys) h = ground (arith, live-named o id keys)

-- A revocation leaves no live key with that id in the organization; it succeeds when the
-- organization has such a key, revoked before or not, and else it reports the key as not found.
pub revoke_api_key-revokes :
    (o id : String) (w : World)
    → (every (λ key. not (is_named o id key && is_live key)) (revoke_api_key o id w).1.keys ≡ true)
      × ((revoke_api_key o id w).0
          ≡ (if exists (is_named o id) w.keys then ok tt else err key_not_found))
unfolding revoke_api_key revoke is_known pure throw ◌>>=◌
revoke_api_key-revokes o id w =
    elim (Bool-cases (exists (λ key. is_named o id key && is_live key) w.keys)) [
      | inl hit ↦ rw (hit, live-named o id w.keys hit) (all-revoked o id w.now w.keys, refl)
      | inr miss ↦ elim (Bool-cases (exists (is_named o id) w.keys)) [
        | inl known ↦
            rw (miss, still-named o id w.now w.keys, known) (all-revoked o id w.now w.keys, refl)
        | inr unknown ↦
            rw (miss, still-named o id w.now w.keys, unknown) (all-revoked o id w.now w.keys, refl)
      ]
    ]

-- The key of the row that carries the hash of the text that was presented.
pub record IsGenuine (hash : String → String) (w : World) (presented : String)
    (key : AuthenticatedApiKey) : Type 0 where
  pub row : ApiKey
  pub found : find_key hash w presented ≡ some row
  pub unrevoked : row.revoked_at ≡ none
  pub unexpired : has_expired w.now row.expires_at ≡ false
  pub same_id : key.api_key_id ≡ row.id
  pub same_organization : key.organization_id ≡ row.organization_id
  pub same_scopes : key.scopes ≡ row.scopes

identity : ApiKey → AuthenticatedApiKey
identity row = record {
  api_key_id = row.id;
  organization_id = row.organization_id;
  scopes = row.scopes;
}

unrevoked : (time : Option ℕ) → is_some time ≡ false → time ≡ none
unrevoked none h = refl
unrevoked (some time) h = ground arith

refused : {key : Option AuthenticatedApiKey} → err invalid_credential ≡ ok key → ⊥
refused e = cc

absent :
    {key : AuthenticatedApiKey}
    → ◌≡◌ {A = Result (Option AuthenticatedApiKey)} (ok none) (ok (some key))
    → ⊥
absent e = cc

chosen :
    (revoked expired : Bool) (key key' : AuthenticatedApiKey)
    → (if revoked
        then err invalid_credential
        else if expired
        then err invalid_credential
        else ok (some key))
      ≡ ok (some key')
    → (revoked ≡ false) × (expired ≡ false) × (key ≡ key')
chosen true expired key key' h = absurd (refused h)
chosen false true key key' h = absurd (refused h)
chosen false false key key' h = (refl, refl, cc)

module _ (hash : String → String) (w : World) where
  accept-IsGenuine :
      (presented : String) (row : Option ApiKey) (key : AuthenticatedApiKey)
      → find_key hash w presented ≡ row
      → accept w.now row ≡ ok (some key)
      → IsGenuine hash w presented key
  unfolding identity
  accept-IsGenuine presented none key f h = absurd (refused h)
  accept-IsGenuine presented (some row) key f h =
      let (live, valid, same) =
        chosen (is_some row.revoked_at) (has_expired w.now row.expires_at) (identity row) key h in
      record {
        row = row;
        found = f;
        unrevoked = unrevoked row.revoked_at live;
        unexpired = valid;
        same_id = sym (ap (λ k. k.api_key_id) same);
        same_organization = sym (ap (λ k. k.organization_id) same);
        same_scopes = sym (ap (λ k. k.scopes) same);
      }

  -- The text that the request presents, and the row that makes the guard accept it.
  pub IsAccepted : KeyRequest → AuthenticatedApiKey → Type 0
  IsAccepted request key =
      (presented : String) × (extract_key request ≡ some presented)
      × (request.allows_api_key ≡ true)
      × IsGenuine hash w presented key

  presented-IsAccepted :
      (request : KeyRequest) (key : AuthenticatedApiKey) (presented : Option String)
      (allowed : Bool)
      → extract_key request ≡ presented
      → request.allows_api_key ≡ allowed
      → check_presented hash w request presented ≡ ok (some key)
      → IsAccepted request key
  unfolding IsAccepted
  presented-IsAccepted request key none allowed e a h = absurd (absent h)
  presented-IsAccepted request key (some presented) true e a h = (
    presented,
    e,
    a,
    accept-IsGenuine presented (find_key hash w presented) key refl (
        ap (λ b. if b then accept w.now (find_key hash w presented) else err invalid_credential)
          (sym a)
        ∙ h),
  )
  presented-IsAccepted request key (some presented) false e a h = absurd (
      refused (
        ap (λ b. if b then accept w.now (find_key hash w presented) else err invalid_credential)
          (sym a)
        ∙ h))

  guarded-IsAccepted :
      (request : KeyRequest) (key : AuthenticatedApiKey) (socket public : Bool)
      → (if socket
          then ok none
          else if public
          then ok none
          else check_presented hash w request (extract_key request))
        ≡ ok (some key)
      → IsAccepted request key
  guarded-IsAccepted request key true public h = absurd (absent h)
  guarded-IsAccepted request key false true h = absurd (absent h)
  guarded-IsAccepted request key false false h =
      presented-IsAccepted request key (extract_key request) request.allows_api_key refl refl h

  -- A key that the guard attaches to a request belongs to a row of the table that is neither revoked nor
  -- expired and has the hash of the text that the request presents, on a route that allows keys.
  pub can_activate-IsAccepted :
      (request : KeyRequest) (key : AuthenticatedApiKey)
      → can_activate hash w request ≡ ok (some key)
      → IsAccepted request key
  unfolding can_activate
  can_activate-IsAccepted request key h =
      guarded-IsAccepted request key (request.context_type == "ws") request.is_public h
