-- ===== src/Idempotency/Soundness.antt =====
-- What every request keeps: at work it owns the key and has its record there, and a success owns the key.
use nestjs_fastify_nx.Common.{
  ℕ, String, ◌≡◌, ◌≢◌, refl, ◌==◌, Bool, true, false, Option, none, some, ◌||◌, ◌&&◌, not, arith,
  eq_iff, eq_refl, Bool-cases, inl, inr, is_some, if◌then◌else◌,
}
use nestjs_fastify_nx.Idempotency.Store.{IdempotencyRecord, pending, completed, read_back, is_owner}
use nestjs_fastify_nx.Idempotency.Plugin
use nestjs_fastify_nx.Idempotency.Plugin.{
  Phase, arriving, reading, running, overdue, unprotected, sending, answered, complete, release,
  Command, Request, System, Payload, Value, put, settle_set, try_set, try_get, respond,
  respond_late, run_complete, run_release, give_up, fail_open, finalize, complete_late, completion,
  is_success, is_server_error, done, answer_of, replayable_body, serialize_replay_body,
}

abbrev pub is_active : Phase → Bool
is_active running = true
is_active overdue = true
is_active (sending c) = true
is_active _ = false

-- its handler has not returned a success
abbrev pub is_unfinished : Phase → Bool
is_unfinished (sending (complete r)) = false
is_unfinished (answered a) = false
is_unfinished _ = true

abbrev pub owns : String → Option String → Bool
owns t none = false
owns t (some owner) = owner == t

-- A request at work owns the key and has its record there; a success owns the key.
abbrev pub core : Bool → Bool → Request → Bool
core owning holding r =
    (not (is_active r.phase) || (owning && holding))
    && (not r.succeeded || owning)
    && (not (is_unfinished r.phase) || not r.succeeded)

abbrev pub IsSound : System → String → Type 0
IsSound s t = (s.lapsed || core (owns t s.owner) (is_owner t s.stored) (s.request t)) ≡ true

-- A key that is owned is in Redis.
abbrev pub IsConsistent : System → Type 0
IsConsistent s = (s.lapsed || (not (is_some s.owner) || is_some s.stored)) ≡ true

core_mono :
    (owning holding owning' holding' : Bool) (r : Request)
    → (owning ≡ true → owning' ≡ true)
    → (owning ≡ true → holding ≡ true → holding' ≡ true)
    → core owning holding r ≡ true
    → core owning' holding' r ≡ true
core_mono false holding owning' holding' r f g c = ground arith
core_mono true true owning' holding' r f g c = rw (f refl, g refl refl) c
core_mono true false owning' holding' r f g c = rw (f refl) (ground arith)

eq_of : (a b : String) → a == b ≡ true → a ≡ b
eq_of a b h = ground (arith, eq_iff a b)

ne_of : (a b : String) → a == b ≡ false → a ≢ b
ne_of a b h = ground (arith, eq_iff a b)

-- What a step does to the key and to one request, seen from every request.
module _ (token : String) (r : Request) (s : System) (stored : Option IdempotencyRecord)
    (owner : Option String) (all : (t : String) → IsSound s t)
    (own : (s.lapsed || core (owns token owner) (is_owner token stored) r) ≡ true)
    (keeps : (t : String)
      → t ≢ token
      → s.lapsed ≡ false
      → owns t s.owner ≡ true
      → (owns t owner ≡ true) × (is_owner t s.stored ≡ true → is_owner t stored ≡ true)) where
  other-IsSound :
      (t : String) (lapsed : Bool)
      → s.lapsed ≡ lapsed
      → t ≢ token
      → (lapsed || core (owns t owner) (is_owner t stored) (s.request t)) ≡ true
  other-IsSound t true e n = refl
  other-IsSound t false e n =
      core_mono (owns t s.owner) (is_owner t s.stored) (owns t owner) (is_owner t stored)
        (s.request t) (λ o. (keeps t n e o).0) (λ o. (keeps t n e o).1) (ground (arith, e, all t))

  pub put-IsSound :
      (t : String)
      → IsSound (record s { stored = stored; owner = owner; request = put token r s.request }) t
  put-IsSound t = elim (Bool-cases (t == token)) [
    | inl same ↦ rw (eq_of t token same, eq_refl token) own
    | inr other ↦ rw other (other-IsSound t s.lapsed refl (ne_of t token other))
  ]

module _ (s : System) (t : String) (sound : IsSound s t) where
  pub not_succeeded :
      is_unfinished (s.request t).phase ≡ true → (s.lapsed || not (s.request t).succeeded) ≡ true
  not_succeeded u = ground arith

  pub at_work :
      is_active (s.request t).phase ≡ true
      → (s.lapsed || (owns t s.owner && is_owner t s.stored)) ≡ true
  at_work a = ground arith

  pub success_owns : (s.lapsed || (not (s.request t).succeeded || owns t s.owner)) ≡ true
  success_owns = ground arith

pub owned : (t : String) (owner : Option String) → owns t owner ≡ true → is_some owner ≡ true
owned t none h = h
owned t (some owner) h = refl

pub owner_unique :
    (t u : String) (owner : Option String) → owns t owner ≡ true → owns u owner ≡ true → t ≡ u
owner_unique t u none h k = ground arith
owner_unique t u (some owner) h k = ground (arith, eq_iff owner t, eq_iff owner u)

pub holder_unique :
    (t u : String) (stored : Option IdempotencyRecord)
    → is_owner t stored ≡ true
    → is_owner u stored ≡ true
    → t ≡ u
unfolding is_owner
holder_unique t u none h k = ground arith
holder_unique t u (some (pending f owner)) h k = ground (arith, eq_iff owner t, eq_iff owner u)
holder_unique t u (some (completed r)) h k = ground arith

module _ (lapsed owning holding : Bool) (r : Request)
    (works : (lapsed || (owning && holding)) ≡ true) (status : ℕ) (content_type : String) where
  pub after_core :
      (success server : Bool) (body : Option String)
      → (lapsed
          || core owning holding (record r {
            phase =
                if success
                then completion r.fingerprint status content_type body
                else if server
                then overdue
                else sending release;
            succeeded = success;
          }))
        ≡ true
  after_core true server none = ground (arith, works)
  after_core true server (some body) = ground (arith, works)
  after_core false true body = ground (arith, works)
  after_core false false body = ground (arith, works)

  pub late_core :
      (success : Bool) (body : Option String)
      → (lapsed
          || core owning holding (record r {
            phase =
                if success
                then completion r.fingerprint status content_type body
                else answered Plugin.own;
            succeeded = success;
          }))
        ≡ true
  late_core true none = ground (arith, works)
  late_core true (some body) = ground (arith, works)
  late_core false body = ground (arith, works)

pub read-answered :
    (token fingerprint : String) (stored : Option IdempotencyRecord)
    → (is_active (answer_of fingerprint (read_back token fingerprint stored)) ≡ false)
      × (is_unfinished (answer_of fingerprint (read_back token fingerprint stored)) ≡ false)
unfolding read_back
read-answered token fingerprint none = (refl, refl)
read-answered token fingerprint (some current) = (refl, refl)
