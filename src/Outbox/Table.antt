-- ===== src/Outbox/Table.antt =====
-- libs/infra/messaging/src/lib/outbox-relay.service.ts: the table `outbox_events`, the statements of the
-- claim on its rows, the grouping by aggregate, and what the relay uses and does not implement.
use nestjs_fastify_nx.Common.{
  ℕ, ◌+◌, ◌*◌, ◌^◌, min, String, ◌==◌, ◌||◌, ◌&&◌, Bool, true, Option, none, some, List, [], ◌∷◌,
  ◌++◌, ltb, leb, eqb, not, is_some, if◌then◌else◌, exists,
}
use nestjs_fastify_nx.Errors.{Result, Failure}
use nestjs_fastify_nx.Exec.{Exec}

-- `P` is the type of a payload as stored.
pub record OutboxRow (P : Type 0) : Type 0 where
  pub id : String
  pub organization_id : Option String
  pub event_type : String
  pub aggregate_id : String
  pub payload : P
  pub processed_at : Option ℕ
  pub attempts : ℕ
  pub last_error : Option String
  pub created_at : ℕ
  pub next_attempt_at : Option ℕ

-- The table, a clock in milliseconds, the relay's own fields, and everything else.
pub record World (P S : Type 0) : Type 0 where
  pub rows : List (OutboxRow P)
  pub now : ℕ
  pub running : Bool
  pub stopped : Bool
  pub last_stuck_check_at : Option ℕ
  pub outside : S

pub record Settings : Type 0 where
  pub batch_size : ℕ
  pub max_attempts : ℕ
  pub retry_base_ms : ℕ
  pub retry_max_ms : ℕ

-- what `safeParse` of the envelope schema yields
pub record Envelope (P : Type 0) : Type 0 where
  pub event_id : String
  pub occurred_at : ℕ
  pub schema_version : Option ℕ
  pub payload : P

pub record DomainEvent (P : Type 0) : Type 0 where
  pub event_id : String
  pub event_type : String
  pub aggregate_id : String
  pub occurred_at : ℕ
  pub payload : P
  pub organization_id : Option String

-- What the relay uses and does not implement: the connection, which may throw; the event bus; the
-- envelope schema, and the texts of error messages; PostgreSQL's row locks and order of `RETURNING`, which it
-- leaves open; the order in which the workers come to dispatch the rows of the groups.
pub record Ports (P S : Type 0) : Type 0 where
  pub connect : Exec (World P S) (Unit {0})
  pub publish : DomainEvent P → Exec (World P S) (Unit {0})
  pub safe_parse : P → Result (Envelope P)
  pub locked_elsewhere : OutboxRow P → Bool
  pub returning : List (OutboxRow P) → List (OutboxRow P)
  pub interleaved : List (List (OutboxRow P)) → List (OutboxRow P)
  pub leads : Option Bool
  pub safe_error_summary : Failure → String
  pub issues_message : Failure → String
  pub version_message : ℕ → String

abbrev pub outbox_schema_version : ℕ
outbox_schema_version = 1

abbrev pub max_outbox_error_message_length : ℕ
max_outbox_error_message_length = 2000

abbrev pub stuck_check_interval_ms : ℕ
stuck_check_interval_ms = 60000

-- `LEAST(base * power(2, LEAST(attempts, 30)), max)`, with the count before the increment
unfoldable pub backoff_ms : Settings → ℕ → ℕ
backoff_ms settings attempts =
    min (settings.retry_base_ms * 2 ^ min attempts 30) settings.retry_max_ms

abbrev pub is_due : ℕ → Option ℕ → Bool
is_due now none = true
is_due now (some time) = leb time now

module _ {P : Type 0} where
  -- the `WHERE` of the claim
  unfoldable pub is_claimable : Settings → ℕ → OutboxRow P → Bool
  is_claimable settings now row =
      not (is_some row.processed_at)
      && ltb row.attempts settings.max_attempts
      && is_due now row.next_attempt_at

  -- `ORDER BY "createdAt", id`; ids are compared as texts
  abbrev pub goes_before : (String → String → Bool) → OutboxRow P → OutboxRow P → Bool
  goes_before precedes a b =
      ltb a.created_at b.created_at || (eqb a.created_at b.created_at && precedes a.id b.id)

  unfoldable pub insert_ordered :
      (String → String → Bool) → OutboxRow P → List (OutboxRow P) → List (OutboxRow P)
  insert_ordered precedes row [] = row ∷ []
  insert_ordered precedes row (other ∷ rest) =
      let further = insert_ordered precedes row rest in
      if goes_before precedes other row then other ∷ further else row ∷ (other ∷ rest)

  unfoldable pub ordered : (String → String → Bool) → List (OutboxRow P) → List (OutboxRow P)
  unfolding insert_ordered
  ordered precedes [] = []
  ordered precedes (row ∷ rest) = insert_ordered precedes row (ordered precedes rest)

  -- the `SET` of the claim
  abbrev pub claim_row : Settings → ℕ → OutboxRow P → OutboxRow P
  claim_row settings now row = record row {
    attempts = row.attempts + 1;
    next_attempt_at = some (now + backoff_ms settings row.attempts);
  }

  -- `o.id = locked.id`
  unfoldable pub is_among : List (OutboxRow P) → OutboxRow P → Bool
  is_among chosen row = exists (λ c. c.id == row.id) chosen

  -- `Map<string, OutboxRow[]>` by aggregate, in insertion order, rows in claim order
  unfoldable pub add_to_group : OutboxRow P → List (List (OutboxRow P)) → List (List (OutboxRow P))
  add_to_group row [] = (row ∷ []) ∷ []
  add_to_group row ([] ∷ groups) = [] ∷ add_to_group row groups
  add_to_group row ((first ∷ rest) ∷ groups) =
      if first.aggregate_id == row.aggregate_id
      then (first ∷ (rest ++ row ∷ [])) ∷ groups
      else (first ∷ rest) ∷ add_to_group row groups

  unfoldable pub group_from :
      List (List (OutboxRow P)) → List (OutboxRow P) → List (List (OutboxRow P))
  unfolding add_to_group
  group_from groups [] = groups
  group_from groups (row ∷ rows) = group_from (add_to_group row groups) rows
