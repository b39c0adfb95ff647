-- ===== src/Idempotency/Replay.antt =====
-- What a retry is answered.
use nestjs_fastify_nx.Common.{
  ℕ, String, ◌≡◌, ◌≢◌, refl, sym, ap, ◌∙◌, ◌==◌, Bool, true, false, Option, none, some, arith,
  eq_iff, eq_refl, if◌then◌else◌,
}
use nestjs_fastify_nx.Idempotency.Store.{
  Completed, IdempotencyRecord, pending, completed, set_nx, read_back, is_owner, complete_script,
  release_script,
}
use nestjs_fastify_nx.Idempotency.Plugin.{
  answered, sending, reading, complete, replayed, mismatch, conflict, System, Payload, settle_set,
  try_set, try_get, respond, respond_late, run_complete, run_release, give_up, fail_open, finalize,
  answer_taken, is_success, response_of, replayable_body,
}
use nestjs_fastify_nx.Idempotency.History.{
  Step, sets, gets, fails_set, loses_set, fails_get, responds, responds_late, completes, releases,
  gives_up, expires,
}

different : (a b : String) → a ≢ b → a == b ≡ false
different a b n = ground (arith, eq_iff a b)

-- A request that arrives while a record is under the key is answered by that record.
taken-answer :
    (t : String) (s : System) (current : IdempotencyRecord)
    → s.stored ≡ some current
    → ((try_get t (try_set t s)).request t).phase
      ≡ answered (answer_taken (s.request t).fingerprint current)
unfolding try_set try_get set_nx read_back
taken-answer t s current e = rw (e, eq_refl t) refl

pending-answer :
    (s : System) (owner t : String) (stored : Option IdempotencyRecord)
    → s.stored ≡ stored
    → is_owner owner stored ≡ true
    → ((try_get t (try_set t s)).request t).phase ≡ answered conflict
unfolding is_owner answer_taken
pending-answer s owner t none e h = ground arith
pending-answer s owner t (some (pending f o)) e h = taken-answer t s (pending f o) e
pending-answer s owner t (some (completed r)) e h = ground arith

completed-stored :
    (s : System) (owner : String) (response : Completed)
    → is_owner owner s.stored ≡ true
    → (run_complete owner s response).stored ≡ some (completed response)
unfolding run_complete complete_script
completed-stored s owner response h = rw h refl

other-fingerprint :
    (s : System) (owner t : String) (response : Completed)
    → t ≢ owner
    → ((run_complete owner s response).request t).fingerprint ≡ (s.request t).fingerprint
unfolding run_complete
other-fingerprint s owner t response n = rw (different t owner n) refl

-- While the owner is at work every other request for the key is answered as a conflict; and once the
-- owner has completed, a request with its fingerprint is answered with the recorded response, and one
-- with another fingerprint as a mismatch.
pub retry-answers :
    (s : System) (owner t : String) (response : Completed)
    → t ≢ owner
    → is_owner owner s.stored ≡ true
    → (((try_get t (try_set t s)).request t).phase ≡ answered conflict)
      × (((try_get t (try_set t (run_complete owner s response))).request t).phase
          ≡ answered (
              if response.fingerprint == (s.request t).fingerprint
              then replayed (response_of response)
              else mismatch))
unfolding answer_taken
retry-answers s owner t response n h = (
  pending-answer s owner t s.stored refl h,
  taken-answer t (run_complete owner s response) (completed response)
        (completed-stored s owner response h)
      ∙ ap (λ f. answered (answer_taken f (completed response)))
          (other-fingerprint s owner t response n),
)

-- What may follow a state: any steps of any requests.
pub data Later (s : System) : System → Type 0 where
  now : Later s s
  after : {u v : System} → Later s u → Step u v → Later s v

set-completed :
    (token : String) (s : System) (p : IdempotencyRecord) (r : Completed)
    (stored : Option IdempotencyRecord)
    → stored ≡ some (completed r)
    → ((settle_set token s (set_nx p stored)).lapsed ≡ s.lapsed)
      × ((settle_set token s (set_nx p stored)).stored ≡ some (completed r))
unfolding set_nx
set-completed token s p r none e = absurd (none-ne-some r e)
  where
    none-ne-some : (r : Completed) → none ≡ some (completed r) → ⊥
    none-ne-some r e = cc
set-completed token s p r (some current) e = (refl, e)

module _ (r : Completed) where
  complete-completed :
      (token : String) (response : Completed) (stored : Option IdempotencyRecord)
      → stored ≡ some (completed r)
      → (complete_script token response stored).1 ≡ some (completed r)
  unfolding complete_script is_owner
  complete-completed token response stored e = rw e refl

  release-completed :
      (token : String) (stored : Option IdempotencyRecord)
      → stored ≡ some (completed r)
      → (release_script token stored).1 ≡ some (completed r)
  unfolding release_script is_owner
  release-completed token stored e = rw e refl

  -- Nothing but its expiry removes a completed record.
  Step-completed :
      (s s' : System)
      → Step s s'
      → s'.lapsed ≡ false
      → s.stored ≡ some (completed r)
      → s'.stored ≡ some (completed r)
  unfolding try_set try_get fail_open respond respond_late run_complete run_release give_up
  Step-completed s s' (sets t p) h e =
      (set-completed t s (pending (s.request t).fingerprint t) r s.stored e).1
  Step-completed s s' (gets t p) h e = e
  Step-completed s s' (fails_set t p) h e = e
  Step-completed s s' (loses_set t p) h e =
      (set-completed t s (pending (s.request t).fingerprint t) r s.stored e).1
  Step-completed s s' (fails_get t p) h e = e
  Step-completed s s' (responds t n k b p) h e = e
  Step-completed s s' (responds_late t n k v p) h e = e
  Step-completed s s' (completes t o p) h e = complete-completed t o s.stored e
  Step-completed s s' (releases t p) h e = release-completed t s.stored e
  Step-completed s s' (gives_up t k p) h e = e
  Step-completed s s' expires h e = cc

set-lapsed :
    (token : String) (s : System) (x : Bool × Option IdempotencyRecord)
    → (settle_set token s x).lapsed ≡ s.lapsed
set-lapsed token s (true, stored) = refl
set-lapsed token s (false, stored) = refl

-- A key that has not expired had not expired before.
Step-live : (s s' : System) → Step s s' → s'.lapsed ≡ false → s.lapsed ≡ false
unfolding try_set try_get fail_open respond respond_late run_complete run_release give_up
Step-live s s' (sets t p) h = sym (set-lapsed t s _) ∙ h
Step-live s s' (gets t p) h = h
Step-live s s' (fails_set t p) h = h
Step-live s s' (loses_set t p) h = sym (set-lapsed t s _) ∙ h
Step-live s s' (fails_get t p) h = h
Step-live s s' (responds t n k b p) h = h
Step-live s s' (responds_late t n k v p) h = h
Step-live s s' (completes t o p) h = h
Step-live s s' (releases t p) h = h
Step-live s s' (gives_up t k p) h = h
Step-live s s' expires h = cc

Later-completed :
    (s : System) {s' : System} (r : Completed)
    → Later s s'
    → s'.lapsed ≡ false
    → s.stored ≡ some (completed r)
    → s'.stored ≡ some (completed r)
Later-completed s r now h e = e
Later-completed s r (after {u} {v} later step) h e =
    Step-completed r u v step h (Later-completed s r later (Step-live u v step h) e)

-- A request finds a record at its SET, and is answered by it at its GET.
found-answer :
    (t : String) (s : System) (r : Completed)
    → s.stored ≡ some (completed r)
    → (((try_set t s).request t).phase ≡ reading)
      × (((try_get t s).request t).phase
          ≡ answered (answer_taken (s.request t).fingerprint (completed r)))
unfolding try_set try_get set_nx read_back
found-answer t s r e = (rw (e, eq_refl t) refl, rw (e, eq_refl t) refl)

module _ (s : System) (owner : String) (status : ℕ) (content_type body : String)
    (payload : Payload) where
  abbrev pub answered_with : System
  answered_with = respond owner s status content_type payload

  abbrev pub recorded : Completed
  recorded = record {
    fingerprint = (s.request owner).fingerprint;
    status = some status;
    content_type = some content_type;
    body = some body;
  }

  respond-phase :
      is_success status ≡ true
      → replayable_body payload ≡ some body
      → ((answered_with).request owner).phase ≡ sending (complete recorded)
  unfolding respond finalize
  respond-phase success text = rw (eq_refl owner, success, text) refl

  -- When the owner's handler returns a success with a text or an empty body, the response is sent to
  -- the store. If the owner still holds the key when the store executes that, then, whatever steps of
  -- any requests follow, and as long as the key has never expired, a SET for the key finds it taken,
  -- and a GET by a request with the same fingerprint is answered with the response's status, content
  -- type and body.
  pub replay-respond :
      (completing later : System) (t : String)
      → is_success status ≡ true
      → replayable_body payload ≡ some body
      → Later answered_with completing
      → is_owner owner completing.stored ≡ true
      → Later (run_complete owner completing recorded) later
      → later.lapsed ≡ false
      → (later.request t).fingerprint ≡ (s.request owner).fingerprint
      → (((answered_with).request owner).phase ≡ sending (complete recorded))
        × (((try_set t later).request t).phase ≡ reading)
        × (((try_get t later).request t).phase
            ≡ answered
                (replayed (record { status = status; content_type = content_type; body = body })))
  unfolding answer_taken
  replay-respond completing later t success text before held follows live same =
      let found =
        Later-completed (run_complete owner completing recorded) recorded follows live
          (completed-stored completing owner recorded held) in
      let (set, get) = found-answer t later recorded found in
      (respond-phase success text, set, get ∙ rw (same, eq_refl (s.request owner).fingerprint) refl)
