-- ===== src/Outbox/Tests.antt =====
-- Two rows of one aggregate, a bus that accepts all but one event, and a connection that works.
use nestjs_fastify_nx.Common.{
  ◌⊎◌, ◌≤◌, String, ◌≡◌, refl, ◌==◌, ◌&&◌, arith, Bool, true, false, not, none, some, List, [], ◌∷◌,
  length, every, if◌then◌else◌,
}
use nestjs_fastify_nx.Errors.{Result, ok, err, fault}
use nestjs_fastify_nx.Exec.{pure, throw, try_catch, ◌>>=◌}
use nestjs_fastify_nx.Exec.Rules.{Ensures}
use nestjs_fastify_nx.Outbox.Table.{
  group_from, OutboxRow, World, Settings, Ports, Envelope, backoff_ms, is_claimable, is_among,
}
use nestjs_fastify_nx.Outbox.Relay.{selected, claim_statement, dispatch_one, tick}
use nestjs_fastify_nx.Outbox.Claims.{backoff_bounds, claim_hides}
use nestjs_fastify_nx.Outbox.Selection.{All, Listed, IsOpen, UpTo, claim_selects}
use nestjs_fastify_nx.Outbox.Dispatch.{
  IsDelivered, invalid, IsParked, dispatch_one-IsDelivered, dispatch_one-IsParked,
}
use nestjs_fastify_nx.Outbox.Grouping.{group_of, of_aggregate, group_from-in_order}

abbrev precedes : String → String → Bool
precedes a b = a == "e1"

abbrev settings : Settings
settings = record { batch_size = 1; max_attempts = 3; retry_base_ms = 1000; retry_max_ms = 60000 }

abbrev Outside : Type 0
Outside = Unit

abbrev envelope_of : String → Result (Envelope String)
envelope_of payload =
    if payload == "{}"
    then ok
        (record { event_id = "e1"; occurred_at = 1; schema_version = some 1; payload = payload })
    else err (fault "invalid")

abbrev first_group : List (List (OutboxRow String)) → List (OutboxRow String)
first_group [] = []
first_group (group ∷ groups) = group

abbrev ports : Ports String Outside
ports = record {
  connect = pure tt;
  publish = λ event. if event.event_type == "refused" then throw (fault "listener") else pure tt;
  safe_parse = envelope_of;
  locked_elsewhere = λ row. false;
  returning = λ rows. rows;
  interleaved = λ groups. first_group groups;
  leads = none;
  safe_error_summary = λ e. "failed";
  issues_message = λ e. "invalid envelope";
  version_message = λ n. "unsupported version";
}

abbrev row : String → String → OutboxRow String
row id payload = record {
  id = id;
  organization_id = none;
  event_type = "created";
  aggregate_id = "a";
  payload = payload;
  processed_at = none;
  attempts = 0;
  last_error = none;
  created_at = 5;
  next_attempt_at = none;
}

abbrev table : World String Outside
table = record {
  rows = row "e2" "{}" ∷ row "e1" "{}" ∷ [];
  now = 10;
  running = false;
  stopped = false;
  last_stuck_check_at = none;
  outside = tt;
}

claim_selects_example :
    (length (selected precedes settings ports table) ≤ 1)
    × All
        (λ r. IsOpen settings ports.locked_elsewhere 10 r × Listed r table.rows)
        (selected precedes settings ports table)
    × All
        (λ r.
          Listed r (selected precedes settings ports table)
          ⊎ (¬ IsOpen settings ports.locked_elsewhere 10 r)
          ⊎ ((length (selected precedes settings ports table) ≡ 1)
              × All (UpTo r) (selected precedes settings ports table)))
        table.rows
claim_selects_example = claim_selects precedes settings ports table

backoff_bounds_example :
    (1000 ≤ backoff_ms settings 2)
    × (backoff_ms settings 2 ≤ 60000)
    × (backoff_ms settings 2 ≤ backoff_ms settings 3)
backoff_bounds_example = backoff_bounds settings 2

claim_hides_example :
    every
      (λ r.
        not (is_among (selected precedes settings ports table) r && is_claimable settings 1009 r))
      (claim_statement precedes settings ports table).1.rows
    ≡ true
claim_hides_example = claim_hides precedes settings ports table 1009 (omega arith)

dispatch_one-IsDelivered_example :
    Ensures
      (λ b. b ≡ true → IsDelivered precedes settings ports (row "e1" "{}"))
      (dispatch_one precedes settings ports (row "e1" "{}"))
dispatch_one-IsDelivered_example = dispatch_one-IsDelivered precedes settings ports (row "e1" "{}")

dispatch_one-IsParked_example :
    ((dispatch_one precedes settings ports (row "e1" "?") table).0 ≡ ok false)
    × IsParked precedes settings ports "e1"
        (dispatch_one precedes settings ports (row "e1" "?") table).1
dispatch_one-IsParked_example =
    dispatch_one-IsParked precedes settings ports (unfold pure in λ w. refl) (row "e1" "?") table
      (invalid (fault "invalid") refl)

-- The batch of one takes the row that comes first in the order, and the turn publishes it.
tick_test : (tick precedes settings ports table).0 ≡ ok 1
unfolding tick claim_statement dispatch_one pure ◌>>=◌ try_catch
tick_test = refl

group_from-in_order_example : group_of "a" (group_from [] table.rows) ≡ of_aggregate "a" table.rows
group_from-in_order_example = group_from-in_order "a" table.rows
