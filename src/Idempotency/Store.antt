-- ===== src/Idempotency/Store.antt =====
-- apps/api/src/common/idempotency/idempotency-store.ts, on what Redis holds under one key. A record is
-- kept as it is: `JSON.parse` inverts `JSON.stringify` on records of texts and numbers. The times to live
-- are left to whoever uses the store: a key may expire at any time.
use nestjs_fastify_nx.Common.{ℕ, String, ◌==◌, Bool, true, false, Option, none, some, if◌then◌else◌}

pub record Completed : Type 0 where
  pub fingerprint : String
  pub status : Option ℕ
  pub content_type : Option String
  pub body : Option String

pub data IdempotencyRecord : Type 0 where
  pending : (fingerprint owner_token : String) → IdempotencyRecord
  completed : Completed → IdempotencyRecord

pub data AcquireResult : Type 0 where
  acquired : (owner_token : String) → AcquireResult
  taken : IdempotencyRecord → AcquireResult

-- `set key value PX ttl NX`: whether it answered OK
unfoldable pub set_nx :
    IdempotencyRecord → Option IdempotencyRecord → Bool × Option IdempotencyRecord
set_nx record_ none = (true, some record_)
set_nx record_ (some current) = (false, some current)

-- what `acquire` returns after a failed NX, by the answer to its GET
unfoldable pub read_back :
    (owner_token fingerprint : String) → Option IdempotencyRecord → AcquireResult
read_back owner_token fingerprint none = taken (pending fingerprint owner_token)
read_back owner_token fingerprint (some current) = taken current

-- the test of both scripts: pending, and of this owner
unfoldable pub is_owner : String → Option IdempotencyRecord → Bool
is_owner owner_token none = false
is_owner owner_token (some (pending fingerprint owner)) = owner == owner_token
is_owner owner_token (some (completed response)) = false

-- COMPLETE_IF_OWNER_SCRIPT
unfoldable pub complete_script :
    String → Completed → Option IdempotencyRecord → Bool × Option IdempotencyRecord
unfolding is_owner
complete_script owner_token response current =
    if is_owner owner_token current then (true, some (completed response)) else (false, current)

-- RELEASE_IF_OWNER_SCRIPT
unfoldable pub release_script : String → Option IdempotencyRecord → Bool × Option IdempotencyRecord
unfolding is_owner
release_script owner_token current =
    if is_owner owner_token current then (true, none) else (false, current)
