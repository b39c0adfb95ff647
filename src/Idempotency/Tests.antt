-- ===== src/Idempotency/Tests.antt =====
-- Two requests with one key: the first executes, the second is answered with the first one's response.
use nestjs_fastify_nx.Common.{
  String, ◌≡◌, ◌≢◌, refl, ap, ◌==◌, true, false, none, some, if◌then◌else◌,
}
use nestjs_fastify_nx.Idempotency.Store.{Completed, is_owner}
use nestjs_fastify_nx.Idempotency.Plugin.{
  System, arriving, reading, sending, complete, answered, conflict, mismatch, replayed, response_of,
  text, replayable_body, try_set, try_get, respond, run_complete,
}
use nestjs_fastify_nx.Idempotency.History.{IsFresh, Reach, starts, next, sets, responds}
use nestjs_fastify_nx.Idempotency.Execution.{Reach-one_success}
use nestjs_fastify_nx.Idempotency.Replay.{
  recorded, Later, now, after, retry-answers, replay-respond,
}

code : Unit {0}
unfolding try_set try_get respond run_complete is_owner
code = tt

abbrev fresh : System
fresh = record {
  stored = none;
  owner = none;
  lapsed = false;
  request = λ t. record { fingerprint = "f"; phase = arriving; succeeded = false };
}

fresh-IsFresh : IsFresh fresh
fresh-IsFresh = record { free = refl; unowned = refl; waiting = λ t. refl; idle = λ t. refl }

abbrev held : System
held = try_set "a" fresh

abbrev responded : System
responded = respond "a" held 201 "application/json" (text "{}")

held-Reach : Reach held
held-Reach = next (starts fresh-IsFresh) (sets "a" refl)

responded-Reach : Reach responded
unfolding code
responded-Reach = next held-Reach (responds "a" 201 "application/json" (text "{}") refl)

responded-success : (responded.request "a").succeeded ≡ true
unfolding code
responded-success = refl

Reach-one_success_example : ◌≡◌ {A = String} "a" "a"
Reach-one_success_example =
    Reach-one_success responded "a" "a" responded-Reach (unfold code in refl) responded-success
      responded-success

bool_clash : false ≡ true → ⊥
bool_clash e = cc

b-ne-a : ◌≢◌ {A = String} "b" "a"
b-ne-a e = bool_clash (ap (λ t. t == "a") e)

abbrev created : Completed
created = record { fingerprint = "f"; status = some 201; content_type = none; body = some "{}" }

retry-answers_example :
    (((try_get "b" (try_set "b" held)).request "b").phase ≡ answered conflict)
    × (((try_get "b" (try_set "b" (run_complete "a" held created))).request "b").phase
        ≡ answered (
            if created.fingerprint == (held.request "b").fingerprint
            then replayed (response_of created)
            else mismatch))
retry-answers_example = retry-answers held "a" "b" created b-ne-a (unfold code in refl)

abbrev answer_of_a : Completed
answer_of_a = recorded held "a" 201 "application/json" "{}" (text "{}")

-- the response of the first request is in the store, and the second has sent its SET
abbrev stored : System
stored = run_complete "a" responded answer_of_a

abbrev asked : System
asked = try_set "b" stored

asked-Later : Later stored asked
unfolding code
asked-Later = after now (sets "b" refl)

replay-respond_example :
    ((responded.request "a").phase ≡ sending (complete answer_of_a))
    × (((try_set "b" asked).request "b").phase ≡ reading)
    × (((try_get "b" asked).request "b").phase
        ≡ answered
            (replayed (record { status = 201; content_type = "application/json"; body = "{}" })))
unfolding code replayable_body
replay-respond_example =
    replay-respond held "a" 201 "application/json" "{}" (text "{}") responded asked "b" refl refl
      now refl asked-Later refl refl
