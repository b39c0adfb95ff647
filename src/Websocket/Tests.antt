-- ===== src/Websocket/Tests.antt =====
-- One slot and two tasks: the second waits until the first finishes.
use nestjs_fastify_nx.Common.{◌≡◌, refl, [], ◌∷◌}
use nestjs_fastify_nx.Websocket.Limiter.{System, arrive, finish}
use nestjs_fastify_nx.Websocket.Slots.{
  idle, arrives, finishes, Reach, start, next, IsFair, Reach-IsFair,
}

abbrev waiting : System
waiting = arrive 1 "b" (arrive 1 "a" idle)

waiting-Reach : Reach 1 waiting
waiting-Reach = next (next start (arrives "a")) (arrives "b")

abbrev resumed : System
resumed = finish [] waiting

resumed-Reach : Reach 1 resumed
unfolding arrive
resumed-Reach = next waiting-Reach (finishes "a" [] [] refl)

order_test :
    (waiting.started ≡ "a" ∷ []) × (resumed.started ≡ "a" ∷ "b" ∷ []) × (resumed.running ≡ "b" ∷ [])
unfolding arrive finish
order_test = (refl, refl, refl)

Reach-IsFair_example : IsFair 1 resumed
Reach-IsFair_example = Reach-IsFair 1 resumed resumed-Reach
