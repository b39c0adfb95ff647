-- ===== src/Idempotency/Execution.antt =====
-- One success for each key.
use nestjs_fastify_nx.Common.{
  String, ◌≡◌, refl, ap, Bool, true, false, Option, none, some, ◌||◌, not, arith, eq_refl,
  Bool-cases, inl, inr, is_some, if◌then◌else◌,
}
use nestjs_fastify_nx.Idempotency.Store.{
  Completed, IdempotencyRecord, pending, completed, set_nx, is_owner, complete_script,
  release_script,
}
use nestjs_fastify_nx.Idempotency.Plugin.{
  System, settle_set, try_set, try_get, respond, respond_late, run_complete, run_release, give_up,
  fail_open,
}
use nestjs_fastify_nx.Idempotency.History.{
  IsFresh, Step, sets, gets, fails_set, loses_set, fails_get, responds, responds_late, completes,
  releases, gives_up, expires, Reach, starts, next,
}
use nestjs_fastify_nx.Idempotency.Soundness.{
  is_active, is_unfinished, owns, IsSound, IsConsistent, owner_unique,
}
use nestjs_fastify_nx.Idempotency.Ownership.{
  set-IsSound, get-IsSound, open-IsSound, respond-IsSound, respond_late-IsSound, complete-IsSound,
  release-IsSound, give_up-IsSound,
}

set-IsConsistent :
    (token : String) (s : System) (p : IdempotencyRecord) (stored : Option IdempotencyRecord)
    → s.stored ≡ stored
    → IsConsistent s
    → IsConsistent (settle_set token s (set_nx p stored))
unfolding set_nx
set-IsConsistent token s p none e c = ground arith
set-IsConsistent token s p (some current) e c = ground arith

complete_keeps :
    (token : String) (response : Completed) (stored : Option IdempotencyRecord)
    → is_some (complete_script token response stored).1 ≡ is_some stored
unfolding complete_script is_owner
complete_keeps token response none = refl
complete_keeps token response (some (pending f owner)) = ground arith
complete_keeps token response (some (completed r)) = refl

release_keeps :
    (token : String) (lapsed : Bool) (owner : Option String) (stored : Option IdempotencyRecord)
    → (lapsed || (not (is_some owner) || is_some stored)) ≡ true
    → (lapsed
        || (not (is_some (if (release_script token stored).0 then none else owner))
            || is_some (release_script token stored).1))
      ≡ true
unfolding release_script
release_keeps token lapsed owner stored c = elim (Bool-cases (is_owner token stored)) [
  | inl mine ↦ rw mine (ground arith)
  | inr foreign ↦ rw foreign c
]

Step-IsConsistent : (s s' : System) → Step s s' → IsConsistent s → IsConsistent s'
unfolding try_set try_get fail_open respond respond_late run_complete run_release give_up
Step-IsConsistent s s' (sets t e) c =
    set-IsConsistent t s (pending (s.request t).fingerprint t) s.stored refl c
Step-IsConsistent s s' (gets t e) c = c
Step-IsConsistent s s' (fails_set t e) c = c
Step-IsConsistent s s' (loses_set t e) c =
    set-IsConsistent t s (pending (s.request t).fingerprint t) s.stored refl c
Step-IsConsistent s s' (fails_get t e) c = c
Step-IsConsistent s s' (responds t n k p e) c = c
Step-IsConsistent s s' (responds_late t n k v e) c = c
Step-IsConsistent s s' (completes t r e) c = rw (complete_keeps t r s.stored) c
Step-IsConsistent s s' (releases t e) c = release_keeps t s.lapsed s.owner s.stored c
Step-IsConsistent s s' (gives_up t k e) c = c
Step-IsConsistent s s' expires c = refl

set_unfinished :
    (t : String) (s : System) (p : IdempotencyRecord) (stored : Option IdempotencyRecord)
    → is_unfinished ((settle_set t s (set_nx p stored)).request t).phase ≡ true
unfolding set_nx
set_unfinished t s p none = rw (eq_refl t) refl
set_unfinished t s p (some current) = rw (eq_refl t) refl

Step-IsSound :
    (s s' : System)
    → Step s s'
    → IsConsistent s
    → ((t : String) → IsSound s t)
    → (t : String) → IsSound s' t
unfolding try_set
Step-IsSound s s' (sets t e) c all = set-IsSound s all t e c s.stored refl
Step-IsSound s s' (gets t e) c all = get-IsSound s all t e
Step-IsSound s s' (fails_set t e) c all = open-IsSound s all t (ap is_unfinished e)
Step-IsSound s s' (loses_set t e) c all =
    open-IsSound (try_set t s) (set-IsSound s all t e c s.stored refl) t
      (set_unfinished t s (pending (s.request t).fingerprint t) s.stored)
Step-IsSound s s' (fails_get t e) c all = open-IsSound s all t (ap is_unfinished e)
Step-IsSound s s' (responds t n k p e) c all = respond-IsSound s all t n k p e
Step-IsSound s s' (responds_late t n k v e) c all = respond_late-IsSound s all t n k v e
Step-IsSound s s' (completes t r e) c all = complete-IsSound s all t r e
Step-IsSound s s' (releases t e) c all = release-IsSound s all t e
Step-IsSound s s' (gives_up t k e) c all = give_up-IsSound s all t
Step-IsSound s s' expires c all = λ t. refl

fresh-IsSound : (s : System) → IsFresh s → (t : String) → IsSound s t
fresh-IsSound s f t = ground (arith, ap is_active (f.waiting t), f.idle t)

fresh-IsConsistent : (s : System) → IsFresh s → IsConsistent s
fresh-IsConsistent s f = ground (arith, ap (λ o. is_some o) f.unowned)

Reach-invariant : (s : System) → Reach s → IsConsistent s × ((t : String) → IsSound s t)
Reach-invariant s (starts f) = (fresh-IsConsistent s f, fresh-IsSound s f)
Reach-invariant s' (next {s} r step) =
    let (c, all) = Reach-invariant s r in
    (Step-IsConsistent s s' step c, Step-IsSound s s' step c all)

success_owner :
    (s : System) (t : String)
    → IsSound s t
    → s.lapsed ≡ false
    → (s.request t).succeeded ≡ true
    → owns t s.owner ≡ true
success_owner s t sound live h = ground arith

-- In whatever order the requests for one key set, read, answer, fail and finish late: as long as the key
-- has not expired, at most one of those that Redis answered had a handler that returned a success.
pub Reach-one_success :
    (s : System) (t u : String)
    → Reach s
    → s.lapsed ≡ false
    → (s.request t).succeeded ≡ true
    → (s.request u).succeeded ≡ true
    → t ≡ u
Reach-one_success s t u r live h k =
    let all = (Reach-invariant s r).1 in
    owner_unique t u s.owner (success_owner s t (all t) live h) (success_owner s u (all u) live k)
