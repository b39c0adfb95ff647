-- ===== src/Idempotency/History.antt =====
-- The steps that the requests for one key can take, in any order.
use nestjs_fastify_nx.Common.{ℕ, String, ◌≡◌, true, false, none}
use nestjs_fastify_nx.Idempotency.Store.{Completed}
use nestjs_fastify_nx.Idempotency.Plugin.{
  arriving, reading, running, overdue, sending, complete, release, Command, System, Payload, Value,
  try_set, try_get, respond, respond_late, run_complete, run_release, give_up, fail_open,
}

-- Every request is at its beginning, and the key is free.
pub record IsFresh (s : System) : Type 0 where
  pub free : s.stored ≡ none
  pub unowned : s.owner ≡ none
  pub waiting : (t : String) → (s.request t).phase ≡ arriving
  pub idle : (t : String) → (s.request t).succeeded ≡ false

pub data Step (s : System) : System → Type 0 where
  sets : (t : String) → (s.request t).phase ≡ arriving → Step s (try_set t s)
  gets : (t : String) → (s.request t).phase ≡ reading → Step s (try_get t s)
  fails_set : (t : String) → (s.request t).phase ≡ arriving → Step s (fail_open t s)
  loses_set : (t : String) → (s.request t).phase ≡ arriving → Step s (fail_open t (try_set t s))
  fails_get : (t : String) → (s.request t).phase ≡ reading → Step s (fail_open t s)
  responds :
      (t : String) (status : ℕ) (content_type : String) (payload : Payload)
      → (s.request t).phase ≡ running
      → Step s (respond t s status content_type payload)
  responds_late :
      (t : String) (status : ℕ) (content_type : String) (value : Value)
      → (s.request t).phase ≡ overdue
      → Step s (respond_late t s status content_type value)
  completes :
      (t : String) (response : Completed)
      → (s.request t).phase ≡ sending (complete response)
      → Step s (run_complete t s response)
  releases : (t : String) → (s.request t).phase ≡ sending release → Step s (run_release t s)
  gives_up :
      (t : String) (command : Command)
      → (s.request t).phase ≡ sending command
      → Step s (give_up t s)
  expires : Step s (record s { stored = none; owner = none; lapsed = true })

pub data Reach : System → Type 0 where
  starts : {s : System} → IsFresh s → Reach s
  next : {s s' : System} → Reach s → Step s s' → Reach s'
