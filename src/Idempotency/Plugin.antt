-- ===== src/Idempotency/Plugin.antt =====
-- apps/api/src/common/idempotency/register-idempotency.ts, for the requests that share one store key:
-- they have the same principal and the same Idempotency-Key. Requests that carry no key or no principal
-- never reach the store. A command to Redis and what the request does with its answer are one step;
-- what another request does between two commands stands between two steps.
use nestjs_fastify_nx.Common.{
  ℕ, String, ◌==◌, ◌&&◌, Bool, true, false, Option, none, some, or_else, ltb, leb, if◌then◌else◌,
}
use nestjs_fastify_nx.Idempotency.Store.{
  Completed, IdempotencyRecord, pending, completed, AcquireResult, acquired, taken, set_nx,
  read_back, complete_script, release_script,
}

pub record Response : Type 0 where
  pub status : ℕ
  pub content_type : String
  pub body : String

pub data Answer : Type 0 where
  conflict mismatch own : Answer
  replayed : Response → Answer

-- the replay, with the defaults of fields that are absent
abbrev pub response_of : Completed → Response
response_of r = record {
  status = or_else r.status 200;
  content_type = or_else r.content_type "application/json";
  body = or_else r.body "";
}

-- what a request whose key is taken answers
unfoldable pub answer_taken : String → IdempotencyRecord → Answer
answer_taken fingerprint (pending other owner) = conflict
answer_taken fingerprint (completed r) =
    if r.fingerprint == fingerprint then replayed (response_of r) else mismatch

-- a payload as `onSend` sees it
pub data Payload : Type 0 where
  absent opaque : Payload
  text : String → Payload

unfoldable pub replayable_body : Payload → Option String
replayable_body absent = some ""
replayable_body (text body) = some body
replayable_body opaque = none

-- a handler's return value; `object` is given with what `JSON.stringify` makes of it, if anything
pub data Value : Type 0 where
  nothing binary : Value
  literal : String → Value
  object : Option String → Value

unfoldable pub serialize_replay_body : Value → Option String
serialize_replay_body nothing = some ""
serialize_replay_body (literal body) = some body
serialize_replay_body binary = none
serialize_replay_body (object json) = json

abbrev pub is_success : ℕ → Bool
is_success status = leb 200 status && ltb status 300

abbrev pub is_server_error : ℕ → Bool
is_server_error status = leb 500 status

pub data Command : Type 0 where
  complete : Completed → Command
  release : Command

-- Where a request is. `overdue` has answered with a server error, and its handler may still return.
pub data Phase : Type 0 where
  arriving reading running overdue unprotected : Phase
  sending : Command → Phase
  answered : Answer → Phase

abbrev pub completion : String → ℕ → String → Option String → Phase
completion fingerprint status content_type none = answered own
completion fingerprint status content_type (some body) = sending (
    complete (record {
      fingerprint = fingerprint;
      status = some status;
      content_type = some content_type;
      body = some body;
    }))

-- `finalizeIdempotentResponse`
unfoldable pub finalize : String → ℕ → String → Payload → Phase
unfolding replayable_body
finalize fingerprint status content_type payload =
    if is_success status
    then completion fingerprint status content_type (replayable_body payload)
    else if is_server_error status
    then overdue
    else sending release

-- `completeLate`
unfoldable pub complete_late : String → ℕ → String → Value → Phase
unfolding serialize_replay_body
complete_late fingerprint status content_type value =
    if is_success status
    then completion fingerprint status content_type (serialize_replay_body value)
    else answered own

-- A request, and whether its handler has returned a success.
pub record Request : Type 0 where
  pub fingerprint : String
  pub phase : Phase
  pub succeeded : Bool

-- The record under the key, the token that acquired it last and has not released it, whether the key
-- has ever expired, and the requests by their tokens.
pub record System : Type 0 where
  pub stored : Option IdempotencyRecord
  pub owner : Option String
  pub lapsed : Bool
  pub request : String → Request

abbrev pub put : String → Request → (String → Request) → String → Request
put token r request other = if other == token then r else request other

-- the answer to `acquire` after its GET
abbrev pub answer_of : String → AcquireResult → Phase
answer_of fingerprint (acquired token) = running
answer_of fingerprint (taken current) = answered (answer_taken fingerprint current)

abbrev pub settle_set : String → System → Bool × Option IdempotencyRecord → System
settle_set token s (true, stored) = record s {
  stored = stored;
  owner = some token;
  request = put token (record (s.request token) { phase = running }) s.request;
}
settle_set token s (false, stored) = record s {
  stored = stored;
  request = put token (record (s.request token) { phase = reading }) s.request;
}

module _ (token : String) (s : System) where
  -- the SET of `acquire`
  unfoldable pub try_set : System
  unfolding set_nx
  try_set = settle_set token s (set_nx (pending (s.request token).fingerprint token) s.stored)

  -- its GET
  unfoldable pub try_get : System
  unfolding read_back answer_taken
  try_get =
      let r = s.request token in
      record s {
        request =
            put token
              (record r {
                phase = answer_of r.fingerprint (read_back token r.fingerprint s.stored);
              })
              s.request;
      }

  -- the handler returns `status`, and `onSend` decides
  unfoldable pub respond : ℕ → String → Payload → System
  unfolding finalize
  respond status content_type payload =
      let r = s.request token in
      record s {
        request =
            put token
              (record r {
                phase = finalize r.fingerprint status content_type payload;
                succeeded = is_success status;
              })
              s.request;
      }

  -- the handler returns after its request has been answered with a server error
  unfoldable pub respond_late : ℕ → String → Value → System
  unfolding complete_late
  respond_late status content_type value =
      let r = s.request token in
      record s {
        request =
            put token
              (record r {
                phase = complete_late r.fingerprint status content_type value;
                succeeded = is_success status;
              })
              s.request;
      }

  abbrev pub done : Request
  done = record (s.request token) { phase = answered own }

  -- Redis executes the script of a command
  unfoldable pub run_complete : Completed → System
  unfolding complete_script
  run_complete response = record s {
    stored = (complete_script token response s.stored).1;
    request = put token done s.request;
  }

  unfoldable pub run_release : System
  unfolding release_script
  run_release =
      let (released, stored) = release_script token s.stored in
      record s {
        stored = stored;
        owner = if released then none else s.owner;
        request = put token done s.request;
      }

  -- a command fails: its error is reported, and the response goes out
  unfoldable pub give_up : System
  give_up = record s { request = put token done s.request }

  -- `acquire` throws: the request goes on without protection
  unfoldable pub fail_open : System
  fail_open = record s {
    request = put token (record (s.request token) { phase = unprotected }) s.request;
  }
