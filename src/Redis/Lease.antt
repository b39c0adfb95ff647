-- ===== src/Redis/Lease.antt =====
-- libs/infra/redis/src/lib/redis-leader-lease.ts, for many replicas over one key. A command, its
-- execution by Redis and its reply are separate steps, so that anything can happen between them; each
-- may fail instead. The time to live is an event: the key may expire whenever it is held. Callbacks and
-- timers are left out: a tick may begin at any time.
use nestjs_fastify_nx.Common.{
  String, ◌==◌, Bool, true, false, Option, none, some, List, [], ◌∷◌, ◌++◌, ◌||◌, ◌≡◌,
  if◌then◌else◌,
}

-- Where a call of `runTick` waits: for Redis to execute a command, or for the reply.
pub data Phase : Type 0 where
  asking_renew asking_set asking_release : Phase
  renewed set_done : Bool → Phase

-- `leader`, `stopped` and `inFlightTicks`
pub record Replica : Type 0 where
  pub leader : Bool
  pub stopped : Bool
  pub ticks : List Phase

-- Replicas by their token; `lapsed` lists those whose lease has expired while they held it.
pub record Cluster : Type 0 where
  pub key : Option String
  pub replica : String → Replica
  pub lapsed : List String

abbrev pub fresh : Replica
fresh = record { leader = false; stopped = false; ticks = [] }

-- `redis.call('get', KEYS[1]) == ARGV[1]`
unfoldable pub is_holder : String → Option String → Bool
is_holder token none = false
is_holder token (some holder) = holder == token

-- RENEW_SCRIPT: whether it extended the key, which it leaves in place
unfoldable pub renew_script : String → Option String → Bool × Option String
unfolding is_holder
renew_script token key = (is_holder token key, key)

-- RELEASE_SCRIPT
unfoldable pub release_script : String → Option String → Option String
unfolding is_holder
release_script token key = if is_holder token key then none else key

-- `set key token PX ttl NX`: whether it answered OK
unfoldable pub set_nx : String → Option String → Bool × Option String
set_nx token none = (true, some token)
set_nx token (some holder) = (false, some holder)

-- the first command of `runTick`
unfoldable pub first_command : Replica → Phase
first_command r = if r.leader then asking_renew else asking_set

-- What Redis does with a command: the next phase, if any, and the key. A reply is no command.
unfoldable pub execute : String → Phase → Option String → List Phase × Option String
unfolding renew_script release_script set_nx
execute token asking_renew key = let (b, after) = renew_script token key in (renewed b ∷ [], after)
execute token asking_set key = let (b, after) = set_nx token key in (set_done b ∷ [], after)
execute token asking_release key = ([], release_script token key)
execute token (renewed b) key = (renewed b ∷ [], key)
execute token (set_done b) key = (set_done b ∷ [], key)

-- What `runTick` does with a reply: `leader`, and the command that it sends next, if any.
unfoldable pub on_reply : Bool → Bool → Phase → Bool × List Phase
on_reply leader stopped (renewed b) =
    if stopped || b then (leader, []) else (false, asking_set ∷ [])
on_reply leader true (set_done b) = (leader, if b then asking_release ∷ [] else [])
on_reply leader false (set_done b) = (b, [])
on_reply leader stopped command = (leader, command ∷ [])

abbrev pub put : String → Replica → (String → Replica) → String → Replica
put token r replica other = if other == token then r else replica other

module _ (token : String) (c : Cluster) where
  -- `tick`, which does nothing once stopped
  unfoldable pub begin_tick : Cluster
  unfolding first_command
  begin_tick =
      let r = c.replica token in
      if r.stopped then c else record c {
        replica = put token (record r { ticks = first_command r ∷ r.ticks }) c.replica;
      }

  -- Redis executes the command of one tick
  unfoldable pub execute_command : List Phase → Phase → List Phase → Cluster
  unfolding execute
  execute_command before phase after =
      let (phases, key) = execute token phase c.key in
      record c {
        key = key;
        replica =
            put token (record (c.replica token) { ticks = before ++ (phases ++ after) }) c.replica;
      }

  -- one tick goes on with its reply
  unfoldable pub receive : List Phase → Phase → List Phase → Cluster
  unfolding on_reply
  receive before phase after =
      let r = c.replica token in
      let (leader, phases) = on_reply r.leader r.stopped phase in
      record c {
        replica =
            put token (record r { leader = leader; ticks = before ++ (phases ++ after) }) c.replica;
      }

  -- the `catch` of `runTick`
  unfoldable pub fail : List Phase → Cluster
  fail others = record c {
    replica = put token (record (c.replica token) { leader = false; ticks = others }) c.replica;
  }

  -- `stop`, up to its first `await`
  unfoldable pub stop : Cluster
  stop = record c { replica = put token (record (c.replica token) { stopped = true }) c.replica }

  -- its release, once no tick is in flight
  unfoldable pub stop_release : Cluster
  unfolding release_script
  stop_release =
      if (c.replica token).leader then record c { key = release_script token c.key } else c

  -- its `finally`, whether or not the release went through
  unfoldable pub stop_finally : Cluster
  stop_finally = record c {
    replica = put token (record (c.replica token) { leader = false }) c.replica;
  }

  -- the key expires
  unfoldable pub expire : Cluster
  expire = record c { key = none; lapsed = token ∷ c.lapsed }

abbrev pub start : Cluster
start = record { key = none; replica = λ token. fresh; lapsed = [] }

pub data Step (c : Cluster) : Cluster → Type 0 where
  begins : (token : String) → Step c (begin_tick token c)
  executes :
      (token : String) (before : List Phase) (phase : Phase) (after : List Phase)
      → (c.replica token).ticks ≡ before ++ phase ∷ after
      → Step c (execute_command token c before phase after)
  receives :
      (token : String) (before : List Phase) (phase : Phase) (after : List Phase)
      → (c.replica token).ticks ≡ before ++ phase ∷ after
      → Step c (receive token c before phase after)
  fails :
      (token : String) (before : List Phase) (phase : Phase) (after : List Phase)
      → (c.replica token).ticks ≡ before ++ phase ∷ after
      → Step c (fail token c (before ++ after))
  stops : (token : String) → Step c (stop token c)
  releases :
      (token : String)
      → (c.replica token).stopped ≡ true
      → (c.replica token).ticks ≡ []
      → Step c (stop_release token c)
  settles : (token : String) → (c.replica token).stopped ≡ true → Step c (stop_finally token c)
  expires : (token : String) → c.key ≡ some token → Step c (expire token c)

pub data Reach : Cluster → Type 0 where
  started : Reach start
  next : {c d : Cluster} → Reach c → Step c d → Reach d
