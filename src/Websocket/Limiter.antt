-- ===== src/Websocket/Limiter.antt =====
-- apps/api/src/websocket/bounded-concurrency.ts. A queued callback is known by its task. The count is
-- a natural number: `release` runs after an acquisition only, so that it never falls below zero.
use nestjs_fastify_nx.Common.{
  true, false, ℕ, ◌+◌, ◌-◌, String, Bool, Option, none, some, List, [], ◌∷◌, ◌++◌, ltb,
  if◌then◌else◌,
}
use nestjs_fastify_nx.Errors.{Result, ok, err, fault}

pub record Limiter : Type 0 where
  pub active : ℕ
  pub queue : List String

-- the constructor, of an integer
unfoldable pub new_limiter : ℕ → Result Limiter
new_limiter max_concurrent =
    if ltb max_concurrent 1
    then err (fault "maxConcurrent must be a positive integer")
    else ok (record { active = 0; queue = [] })

-- true where the returned promise is resolved, false where it waits in the queue
unfoldable pub acquire : ℕ → String → Limiter → Bool × Limiter
acquire max_concurrent task limiter =
    if ltb limiter.active max_concurrent
    then (true, record limiter { active = limiter.active + 1 })
    else (false, record limiter { queue = limiter.queue ++ task ∷ [] })

-- `this.queue.shift()`, and the call of what it returned
unfoldable pub wake : ℕ → List String → Option String × Limiter
wake active [] = (none, record { active = active; queue = [] })
wake active (next ∷ rest) = (some next, record { active = active + 1; queue = rest })

-- the task whose promise it resolves, if any
unfoldable pub release : Limiter → Option String × Limiter
unfolding wake
release limiter = wake (limiter.active - 1) limiter.queue

-- The limiter with the tasks that `run` was called with, those that it let start, in their order, and
-- those that hold a slot.
pub record System : Type 0 where
  pub limiter : Limiter
  pub arrived : List String
  pub started : List String
  pub running : List String

unfoldable pub begin : String → System → Bool × Limiter → System
begin task system (true, limiter) = record {
  limiter = limiter;
  arrived = system.arrived ++ task ∷ [];
  started = system.started ++ task ∷ [];
  running = system.running ++ task ∷ [];
}
begin task system (false, limiter) = record system {
  limiter = limiter;
  arrived = system.arrived ++ task ∷ [];
}

-- a call of `run`, up to its first `await`
unfoldable pub arrive : ℕ → String → System → System
unfolding acquire begin
arrive max_concurrent task system = begin task system (acquire max_concurrent task system.limiter)

unfoldable pub resume : System → List String → Option String × Limiter → System
resume system others (none, limiter) = record system { limiter = limiter; running = others }
resume system others (some next, limiter) = record system {
  limiter = limiter;
  started = system.started ++ next ∷ [];
  running = others ++ next ∷ [];
}

-- the `finally` of `run`, of a task that returned or threw; `others` hold the other slots
unfoldable pub finish : List String → System → System
unfolding release resume
finish others system = resume system others (release system.limiter)
