-- ===== src/Outbox/Relay.antt =====
-- libs/infra/messaging/src/lib/outbox-relay.service.ts over the table `outbox_events`. A statement
-- is atomic and may throw before it has an effect. Log lines are left out.
use nestjs_fastify_nx.Common.{
  ℕ, ◌+◌, ◌-◌, String, ◌==◌, ◌||◌, ◌&&◌, Bool, true, false, Option, none, some, List, [], ◌∷◌, ltb,
  not, or_else, if◌then◌else◌, keep, take, map, exists,
}
use nestjs_fastify_nx.Common.Text.{first_chars}
use nestjs_fastify_nx.Errors.{Result, ok, err, Failure, fault, domain}
use nestjs_fastify_nx.Exec.{Exec, pure, throw, try_catch, ◌>>=◌, ◌>>◌}
use nestjs_fastify_nx.Outbox.Table.{
  OutboxRow, World, Settings, Envelope, DomainEvent, Ports, outbox_schema_version,
  max_outbox_error_message_length, stuck_check_interval_ms, is_claimable, ordered, claim_row,
  is_among, group_from,
}

-- `isDomainException(err) && err.permanent`
abbrev pub is_permanent : Failure → Bool
is_permanent (domain e) = e.permanent
is_permanent (fault m) = false

-- `leadership && !leadership.isLeader()`
abbrev pub is_follower : Option Bool → Bool
is_follower none = false
is_follower (some leader) = not leader

module _ {P S : Type 0} (precedes : String → String → Bool) (settings : Settings)
    (ports : Ports P S) where
  abbrev pub selected : World P S → List (OutboxRow P)
  selected w = take settings.batch_size (
      ordered precedes
        (keep (λ row. is_claimable settings w.now row && not (ports.locked_elsewhere row)) w.rows))

  unfoldable pub claim_statement : Exec (World P S) (List (OutboxRow P))
  unfolding is_claimable ordered is_among
  claim_statement w =
      let chosen = selected w in
      (
        ok (ports.returning (map (claim_row settings w.now) chosen)),
        record w {
          rows =
              map (λ row. if is_among chosen row then claim_row settings w.now row else row) w.rows;
        },
      )

  unfoldable pub claim_batch : Exec (World P S) (List (OutboxRow P))
  unfolding claim_statement
  claim_batch = do ports.connect; claim_statement

  -- `outboxEvent.update({ where: { id }, data })`, which throws where there is no such row
  unfoldable pub update_statement :
      String → (ℕ → OutboxRow P → OutboxRow P) → Exec (World P S) (Unit {0})
  update_statement id change w =
      if exists (λ row. row.id == id) w.rows
      then (
        ok tt,
        record w { rows = map (λ row. if row.id == id then change w.now row else row) w.rows },
      )
      else (err (fault "P2025"), w)

  abbrev pub processed : ℕ → OutboxRow P → OutboxRow P
  processed now row = record row {
    processed_at = some now;
    last_error = none;
    next_attempt_at = none;
  }

  abbrev pub parked : String → ℕ → OutboxRow P → OutboxRow P
  parked message now row = record row {
    last_error = some (first_chars max_outbox_error_message_length message);
    attempts = settings.max_attempts;
  }

  abbrev pub noted : String → ℕ → OutboxRow P → OutboxRow P
  noted message now row = record row {
    last_error = some (first_chars max_outbox_error_message_length message);
  }

  unfoldable pub mark_processed : String → Exec (World P S) (Unit {0})
  unfolding update_statement
  mark_processed id = do ports.connect; update_statement id processed

  unfoldable pub park_permanently : String → String → Exec (World P S) (Unit {0})
  unfolding update_statement
  park_permanently id message =
      try_catch (do ports.connect; update_statement id (parked message)) (λ e. pure tt)

  unfoldable pub record_error : String → String → Exec (World P S) (Unit {0})
  unfolding update_statement
  record_error id message =
      try_catch (do ports.connect; update_statement id (noted message)) (λ e. pure tt)

  abbrev pub event_of : OutboxRow P → Envelope P → DomainEvent P
  event_of row envelope = record {
    event_id = envelope.event_id;
    event_type = row.event_type;
    aggregate_id = row.aggregate_id;
    occurred_at = envelope.occurred_at;
    payload = envelope.payload;
    organization_id = row.organization_id;
  }

  -- after a publication that threw: the row is parked, or waits for its next attempt
  unfoldable pub after_failure : OutboxRow P → Failure → Exec (World P S) Bool
  unfolding park_permanently record_error
  after_failure row e = do
    if is_permanent e
        then park_permanently row.id (ports.safe_error_summary e)
        else record_error row.id (ports.safe_error_summary e)
    pure false

  unfoldable pub finish : OutboxRow P → Exec (World P S) Bool
  unfolding mark_processed
  finish row = try_catch (do mark_processed row.id; pure true) (λ e. pure false)

  -- true for a publication that returned, false for one whose failure was recorded
  unfoldable pub attempt : OutboxRow P → Envelope P → Exec (World P S) Bool
  unfolding after_failure
  attempt row envelope =
      try_catch (do ports.publish (event_of row envelope); pure true) (after_failure row)

  unfoldable pub dispatch_envelope : OutboxRow P → Envelope P → Exec (World P S) Bool
  unfolding finish attempt park_permanently
  dispatch_envelope row envelope =
      if ltb outbox_schema_version (or_else envelope.schema_version 1)
      then (do
        park_permanently row.id (ports.version_message (or_else envelope.schema_version 1))
        pure false)
      else (do published ← attempt row envelope; if published then finish row else pure false)

  unfoldable pub dispatch_parsed : OutboxRow P → Result (Envelope P) → Exec (World P S) Bool
  unfolding dispatch_envelope park_permanently
  dispatch_parsed row (err e) = do park_permanently row.id (ports.issues_message e); pure false
  dispatch_parsed row (ok envelope) = dispatch_envelope row envelope

  unfoldable pub dispatch_one : OutboxRow P → Exec (World P S) Bool
  unfolding dispatch_parsed
  dispatch_one row = dispatch_parsed row (ports.safe_parse row.payload)

  unfoldable pub dispatch_all : List (OutboxRow P) → Exec (World P S) ℕ
  unfolding dispatch_one
  dispatch_all [] = pure 0
  dispatch_all (row ∷ rows) = do
    succeeded ← dispatch_one row
    rest ← dispatch_all rows
    pure (if succeeded then rest + 1 else rest)

  unfoldable pub dispatch_claimed : List (OutboxRow P) → Exec (World P S) ℕ
  unfolding dispatch_all group_from
  dispatch_claimed rows = dispatch_all (ports.interleaved (group_from [] rows))

  abbrev recently : ℕ → Option ℕ → Bool
  recently now none = false
  recently now (some last) = ltb (now - last) stuck_check_interval_ms

  unfoldable pub stamp_stuck_check : Exec (World P S) (Unit {0})
  stamp_stuck_check w = (ok tt, record w { last_stuck_check_at = some w.now })

  -- the count is only logged, and its failure too
  unfoldable pub check_stuck_rows : Exec (World P S) (Unit {0})
  unfolding stamp_stuck_check
  check_stuck_rows w =
      if recently w.now w.last_stuck_check_at
      then (ok tt, w)
      else (do stamp_stuck_check; try_catch ports.connect (λ e. pure tt)) w

  unfoldable pub set_running : Bool → Exec (World P S) (Unit {0})
  set_running b w = (ok tt, record w { running = b })

  unfoldable pub relay_claimed : List (OutboxRow P) → Exec (World P S) ℕ
  unfolding check_stuck_rows dispatch_claimed
  relay_claimed [] = do check_stuck_rows; pure 0
  relay_claimed (row ∷ rows) = do
    dispatched ← dispatch_claimed (row ∷ rows)
    check_stuck_rows
    pure dispatched

  -- the `try` of `tick`, and its `finally`
  unfoldable pub relay_batch : Exec (World P S) ℕ
  unfolding claim_batch relay_claimed
  relay_batch = do claimed ← claim_batch; relay_claimed claimed

  unfoldable pub guarded_batch : Exec (World P S) ℕ
  unfolding set_running relay_batch
  guarded_batch = do
    set_running true
    dispatched ← try_catch relay_batch (λ e. do set_running false; throw e)
    set_running false
    pure dispatched

  unfoldable pub tick : Exec (World P S) ℕ
  unfolding guarded_batch
  tick w =
      if is_follower ports.leads
      then (ok 0, w)
      else if w.running || w.stopped
      then (ok 0, w)
      else guarded_batch w
