-- ===== src/Redis/Tests.antt =====
-- One replica that has become the leader.
use nestjs_fastify_nx.Common.{String, ◌≡◌, refl, true, some, [], includes}
use nestjs_fastify_nx.Redis.Lease.{
  asking_set, set_done, Cluster, is_holder, begin_tick, execute_command, receive, start, begins,
  executes, receives, Reach, started, next,
}
use nestjs_fastify_nx.Redis.Election.{leads, Reach-one_leader}

abbrev asked : Cluster
asked = begin_tick "a" start

abbrev answered : Cluster
answered = execute_command "a" asked [] asking_set []

abbrev led : Cluster
led = receive "a" answered [] (set_done true) []

led-Reach : Reach led
unfolding begin_tick execute_command
led-Reach =
    next (next (next started (begins "a")) (executes "a" [] asking_set [] refl))
      (receives "a" [] (set_done true) [] refl)

led_test : (leads led "a" ≡ true) × (led.key ≡ some "a")
unfolding begin_tick execute_command receive leads includes
led_test = (refl, refl)

Reach-one_leader_example : (◌≡◌ {A = String} "a" "a") × (is_holder "a" led.key ≡ true)
Reach-one_leader_example = Reach-one_leader led "a" "a" led-Reach led_test.0 led_test.0
