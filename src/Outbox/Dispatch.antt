-- ===== src/Outbox/Dispatch.antt =====
-- What a dispatch reports, and what becomes of a row that no retry can help.
use nestjs_fastify_nx.Common.{
  ℕ, ◌≤◌, ◌<◌, String, ◌≡◌, refl, ◌==◌, ◌&&◌, Bool, true, false, List, [], ◌∷◌, arith, Bool-cases,
  inl, inr, not, or_else, if◌then◌else◌, every, exists, map, ltb,
}
use nestjs_fastify_nx.Errors.{Result, ok, err, Failure}
use nestjs_fastify_nx.Exec.{pure, try_catch, ◌>>=◌}
use nestjs_fastify_nx.Exec.Rules.{
  Ensures, Ensures-pure, Ensures-if, Ensures-bind, Ensures-bind_with, Ensures-run,
  Ensures-try_catch, HasRun, Ensures-weaken,
}
use nestjs_fastify_nx.Outbox.Table.{OutboxRow, World, Settings, Ports, Envelope, is_claimable}
use nestjs_fastify_nx.Outbox.Relay.{
  is_permanent, event_of, parked, after_failure, finish, attempt, dispatch_envelope,
  dispatch_parsed, dispatch_one, park_permanently, mark_processed, update_statement,
}

new_version : (version : ℕ) → 1 < version → ltb 1 version ≡ true
new_version version h = ground arith

known_version : (version : ℕ) → version ≤ 1 → ltb 1 version ≡ false
known_version version h = ground arith

module _ {P S : Type 0} (precedes : String → String → Bool) (settings : Settings)
    (ports : Ports P S) where
  -- The event of the row was handed to the bus, which returned, and the row was then marked.
  pub record IsDelivered (row : OutboxRow P) : Type 0 where
    pub envelope : Envelope P
    pub parsed : ports.safe_parse row.payload ≡ ok envelope
    pub understood : or_else envelope.schema_version 1 ≤ 1
    pub published : HasRun (ports.publish (event_of precedes settings ports row envelope)) tt
    pub marked : HasRun (mark_processed precedes settings ports row.id) tt

  finish-HasRun :
      (row : OutboxRow P)
      → Ensures
          (λ b. b ≡ true → HasRun (mark_processed precedes settings ports row.id) tt)
          (finish precedes settings ports row)
  unfolding finish
  finish-HasRun row =
      Ensures-try_catch _ _
        (Ensures-bind_with _ _ (Ensures-run (mark_processed precedes settings ports row.id))
          (λ done run. Ensures-pure true (λ e. run)))
        (λ e. Ensures-pure false (λ h. cc))

  attempt-HasRun :
      (row : OutboxRow P) (envelope : Envelope P)
      → Ensures
          (λ b.
            b ≡ true → HasRun (ports.publish (event_of precedes settings ports row envelope)) tt)
          (attempt precedes settings ports row envelope)
  unfolding attempt after_failure
  attempt-HasRun row envelope =
      Ensures-try_catch _ _
        (Ensures-bind_with _ _
          (Ensures-run (ports.publish (event_of precedes settings ports row envelope)))
          (λ done run. Ensures-pure true (λ e. run)))
        (λ e. Ensures-bind _ _ (λ done. Ensures-pure false (λ h. cc)))

  dispatch_parsed-IsDelivered :
      (row : OutboxRow P) (r : Result (Envelope P))
      → ports.safe_parse row.payload ≡ r
      → Ensures (λ b. b ≡ true → IsDelivered row) (dispatch_parsed precedes settings ports row r)
  unfolding dispatch_parsed
  dispatch_parsed-IsDelivered row (err e) h =
      Ensures-bind _ _ (λ done. Ensures-pure false (λ k. cc))
  dispatch_parsed-IsDelivered row (ok envelope) h =
      unfold dispatch_envelope in
      Ensures-if (ltb 1 (or_else envelope.schema_version 1)) _ _
        (λ new. Ensures-bind _ _ (λ done. Ensures-pure false (λ k. cc)))
        (λ known. Ensures-bind_with _ _ (attempt-HasRun row envelope) λ published run.
          Ensures-if published _ _
            (λ e.
              Ensures-weaken _
                (λ b marked k. record {
                  envelope = envelope;
                  parsed = h;
                  understood = ground arith;
                  published = run e;
                  marked = marked k;
                })
                (finish-HasRun row))
            (λ e. Ensures-pure false (λ k. cc)))

  -- Whatever the ports answer: a dispatch that reports success parsed the row's payload, understood its
  -- version, handed its event to the bus, which returned, and marked the row as processed.
  pub dispatch_one-IsDelivered :
      (row : OutboxRow P)
      → Ensures (λ b. b ≡ true → IsDelivered row) (dispatch_one precedes settings ports row)
  unfolding dispatch_one
  dispatch_one-IsDelivered row = dispatch_parsed-IsDelivered row (ports.safe_parse row.payload) refl

  -- What no retry can help: a payload that is no envelope, a version from a newer producer, or a
  -- listener that refused the event on a permanent rule.
  pub data IsHopeless (row : OutboxRow P) (w : World P S) : Type 0 where
    invalid : (e : Failure) → ports.safe_parse row.payload ≡ err e → IsHopeless row w
    newer :
        (envelope : Envelope P)
        → ports.safe_parse row.payload ≡ ok envelope
        → 1 < or_else envelope.schema_version 1
        → IsHopeless row w
    refused :
        (envelope : Envelope P) (e : Failure) (w' : World P S)
        → ports.safe_parse row.payload ≡ ok envelope
        → or_else envelope.schema_version 1 ≤ 1
        → ports.publish (event_of precedes settings ports row envelope) w ≡ (err e, w')
        → is_permanent e ≡ true
        → IsHopeless row w

  -- No row with this id can be claimed, at any time.
  pub IsParked : String → World P S → Type 0
  unfolding is_claimable
  IsParked id w =
      (now : ℕ) → every (λ r. not (r.id == id && is_claimable settings now r)) w.rows ≡ true

  parked-unclaimable :
      (message : String) (time now : ℕ) (r : OutboxRow P)
      → is_claimable settings now (parked precedes settings ports message time r) ≡ false
  unfolding is_claimable
  parked-unclaimable message time now r = ground arith

  all-parked :
      (id message : String) (time now : ℕ) (rows : List (OutboxRow P))
      → every
          (λ r. not (r.id == id && is_claimable settings now r))
          (map (λ r. if r.id == id then parked precedes settings ports message time r else r) rows)
        ≡ true
  all-parked id message time now [] = refl
  all-parked id message time now (r ∷ rows) = elim (Bool-cases (r.id == id)) [
    | inl same ↦
        rw (same, same, parked-unclaimable message time now r) (all-parked id message time now rows)
    | inr other ↦ rw (other, other) (all-parked id message time now rows)
  ]

  none_named :
      (id : String) (now : ℕ) (rows : List (OutboxRow P))
      → exists (λ r. r.id == id) rows ≡ false
      → every (λ r. not (r.id == id && is_claimable settings now r)) rows ≡ true
  none_named id now [] h = refl
  none_named id now (r ∷ rows) h = ground (arith, none_named id now rows)

  module _ (connected : (w : World P S) → ports.connect w ≡ (ok tt, w)) where
    park_world : String → String → World P S → World P S
    park_world id message w =
        if exists (λ r. r.id == id) w.rows
        then record w {
          rows =
              map (λ r. if r.id == id then parked precedes settings ports message w.now r else r)
                w.rows;
        }
        else w

    park-run :
        (id message : String) (w : World P S)
        → park_permanently precedes settings ports id message w ≡ (ok tt, park_world id message w)
    unfolding park_permanently update_statement try_catch ◌>>=◌ park_world pure
    park-run id message w = elim (Bool-cases (exists (λ r. r.id == id) w.rows)) [
      | inl found ↦ rw (connected w, found) refl
      | inr missing ↦ rw (connected w, missing) refl
    ]

    park_world-IsParked :
        (id message : String) (w : World P S) → IsParked id (park_world id message w)
    unfolding IsParked park_world
    park_world-IsParked id message w now = elim (Bool-cases (exists (λ r. r.id == id) w.rows)) [
      | inl found ↦ rw found (all-parked id message w.now now w.rows)
      | inr missing ↦ rw missing (none_named id now w.rows missing)
    ]

    -- While the connection works: the dispatch of a row that no retry can help reports a failure and
    -- leaves the row so that no later claim, at any time, takes it.
    pub dispatch_one-IsParked :
        (row : OutboxRow P) (w : World P S)
        → IsHopeless row w
        → ((dispatch_one precedes settings ports row w).0 ≡ ok false)
          × IsParked row.id (dispatch_one precedes settings ports row w).1
    unfolding dispatch_one dispatch_parsed dispatch_envelope attempt after_failure try_catch ◌>>=◌
        pure
    dispatch_one-IsParked row w (invalid e h) =
        rw (h, park-run row.id (ports.issues_message e) w)
          (refl, park_world-IsParked row.id (ports.issues_message e) w)
    dispatch_one-IsParked row w (newer envelope h new) =
        let message = ports.version_message (or_else envelope.schema_version 1) in
        rw (h, new_version (or_else envelope.schema_version 1) new, park-run row.id message w)
          (refl, park_world-IsParked row.id message w)
    dispatch_one-IsParked row w (refused envelope e w' h known thrown permanent) =
        let message = ports.safe_error_summary e in
        rw
          (
            h,
            known_version (or_else envelope.schema_version 1) known,
            thrown,
            permanent,
            park-run row.id message w',
          )
          (refl, park_world-IsParked row.id message w')
