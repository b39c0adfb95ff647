-- ===== src/Idempotency/Ownership.antt =====
-- Every step of a request keeps what all requests keep.
use nestjs_fastify_nx.Common.{
  ℕ, String, ◌≡◌, ◌≢◌, sym, ap, ◌∙◌, true, false, Option, none, some, ◌||◌, arith, eq_refl,
  Bool-cases, inl, inr, is_some, if◌then◌else◌,
}
use nestjs_fastify_nx.Idempotency.Store.{
  Completed, IdempotencyRecord, pending, set_nx, is_owner, complete_script, release_script,
}
use nestjs_fastify_nx.Idempotency.Plugin.{
  arriving, reading, running, overdue, sending, complete, release, Request, System, Payload, Value,
  put, settle_set, try_get, respond, respond_late, run_complete, run_release, give_up, fail_open,
  finalize, complete_late, is_success, is_server_error, done, replayable_body,
  serialize_replay_body,
}
use nestjs_fastify_nx.Idempotency.Soundness.{
  is_active, is_unfinished, owns, core, IsSound, IsConsistent, put-IsSound, not_succeeded, at_work,
  success_owns, owned, owner_unique, holder_unique, after_core, late_core, read-answered,
}

module _ (s : System) (all : (t : String) → IsSound s t) (token : String) where
  -- Only the request's own fields change.
  request-IsSound :
      (r : Request)
      → (s.lapsed || core (owns token s.owner) (is_owner token s.stored) r) ≡ true
      → (t : String) → IsSound (record s { request = put token r s.request }) t
  request-IsSound r own = put-IsSound token r s s.stored s.owner all own (λ t n e o. (o, λ h. h))

  module _ (waits : (s.request token).phase ≡ arriving) (consistent : IsConsistent s) where
    not_owned : (t : String) → s.stored ≡ none → s.lapsed ≡ false → owns t s.owner ≡ true → ⊥
    not_owned t e live o = ground (arith, consistent, ap (λ x. is_some x) e, owned t s.owner o)

    pub set-IsSound :
        (stored : Option IdempotencyRecord)
        → s.stored ≡ stored
        → (t : String)
        → IsSound
            (settle_set token s (set_nx (pending (s.request token).fingerprint token) stored))
            t
    unfolding set_nx is_owner
    set-IsSound none e =
        put-IsSound token (record (s.request token) { phase = running }) s
          (some (pending (s.request token).fingerprint token)) (some token) all
          (rw (eq_refl token)
            (ground (arith, not_succeeded s token (all token) (ap is_unfinished waits))))
          (λ t n live o. absurd (not_owned t e live o))
    set-IsSound (some current) e =
        put-IsSound token (record (s.request token) { phase = reading }) s (some current) s.owner
          all
          (ground (
            arith,
            not_succeeded s token (all token) (ap is_unfinished waits),
            success_owns s token (all token),
          ))
          (λ t n live o. (o, λ h. ap (is_owner t) (sym e) ∙ h))

  pub get-IsSound : (s.request token).phase ≡ reading → (t : String) → IsSound (try_get token s) t
  unfolding try_get
  get-IsSound e = request-IsSound _ (
      let (inactive, finished) = read-answered token (s.request token).fingerprint s.stored in
      rw (inactive, finished) (ground (arith, success_owns s token (all token))))

  pub open-IsSound :
      is_unfinished (s.request token).phase ≡ true → (t : String) → IsSound (fail_open token s) t
  unfolding fail_open
  open-IsSound u = request-IsSound _ (ground (arith, not_succeeded s token (all token) u))

  pub respond-IsSound :
      (status : ℕ) (content_type : String) (payload : Payload)
      → (s.request token).phase ≡ running
      → (t : String) → IsSound (respond token s status content_type payload) t
  unfolding respond finalize
  respond-IsSound status content_type payload e = request-IsSound _ (
      after_core s.lapsed (owns token s.owner) (is_owner token s.stored) (s.request token)
        (at_work s token (all token) (ap is_active e)) status content_type (is_success status)
        (is_server_error status) (replayable_body payload))

  pub respond_late-IsSound :
      (status : ℕ) (content_type : String) (value : Value)
      → (s.request token).phase ≡ overdue
      → (t : String) → IsSound (respond_late token s status content_type value) t
  unfolding respond_late complete_late
  respond_late-IsSound status content_type value e = request-IsSound _ (
      late_core s.lapsed (owns token s.owner) (is_owner token s.stored) (s.request token)
        (at_work s token (all token) (ap is_active e)) status content_type (is_success status)
        (serialize_replay_body value))

  kept_by_complete :
      (t : String)
      → t ≢ token
      → (response : Completed) → is_owner t s.stored ≡ true
      → is_owner t (complete_script token response s.stored).1 ≡ true
  unfolding complete_script
  kept_by_complete t n response h = elim (Bool-cases (is_owner token s.stored)) [
    | inl mine ↦ absurd (n (holder_unique t token s.stored h mine))
    | inr foreign ↦ rw foreign h
  ]

  pub complete-IsSound :
      (response : Completed)
      → (s.request token).phase ≡ sending (complete response)
      → (t : String) → IsSound (run_complete token s response) t
  unfolding run_complete
  complete-IsSound response e =
      put-IsSound token (done token s) s _ s.owner all
        (ground (arith, success_owns s token (all token)))
        (λ t n live o. (o, kept_by_complete t n response))

  released_core :
      (s.request token).phase ≡ sending release
      → (s.lapsed
          || core
              (owns token (if (release_script token s.stored).0 then none else s.owner))
              (is_owner token (release_script token s.stored).1)
              (done token s))
        ≡ true
  unfolding release_script
  released_core e = elim (Bool-cases (is_owner token s.stored)) [
    | inl mine ↦ rw mine (ground (arith, not_succeeded s token (all token) (ap is_unfinished e)))
    | inr foreign ↦ rw foreign (ground (arith, success_owns s token (all token)))
  ]

  kept_by_release :
      (t : String)
      → t ≢ token
      → s.lapsed ≡ false
      → owns t s.owner ≡ true
      → (s.request token).phase ≡ sending release
      → (owns t (if (release_script token s.stored).0 then none else s.owner) ≡ true)
        × (is_owner t s.stored ≡ true → is_owner t (release_script token s.stored).1 ≡ true)
  unfolding release_script
  kept_by_release t n live o e = elim (Bool-cases (is_owner token s.stored)) [
    | inl mine ↦ absurd (
        n (
          owner_unique t token s.owner o
            (ground (arith, live, at_work s token (all token) (ap is_active e)))))
    | inr foreign ↦ rw foreign (o, λ h. h)
  ]

  pub release-IsSound :
      (s.request token).phase ≡ sending release → (t : String) → IsSound (run_release token s) t
  unfolding run_release
  release-IsSound e =
      put-IsSound token (done token s) s _ _ all (released_core e)
        (λ t n live o. kept_by_release t n live o e)

  pub give_up-IsSound : (t : String) → IsSound (give_up token s) t
  unfolding give_up
  give_up-IsSound = request-IsSound _ (ground (arith, success_owns s token (all token)))
