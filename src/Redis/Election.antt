-- ===== src/Redis/Election.antt =====
-- Who can lead at a time.
use nestjs_fastify_nx.Common.{
  String, ◌≡◌, ◌≢◌, refl, sym, ap, ◌∙◌, ◌==◌, Bool, true, false, Option, none, some, List, [], ◌∷◌,
  ◌++◌, ◌&&◌, not, arith, eq_iff, eq_refl, Bool-cases, inl, inr, includes, if◌then◌else◌,
}
use nestjs_fastify_nx.Redis.Lease.{
  Phase, asking_renew, asking_set, asking_release, Replica, Cluster, is_holder, release_script,
  first_command, execute, put, begin_tick, execute_command, receive, fail, stop, stop_release,
  stop_finally, expire, Step, begins, executes, receives, fails, stops, releases, settles, expires,
  Reach, started, next,
}
use nestjs_fastify_nx.Redis.Soundness.{
  is_won, is_release, sound, IsSound, with_phases, sound_before, execute_at, receive_at, fail_at,
  keeps_holder, other_keeps, eq_of, ne_of,
}

-- What a step does to one replica and to the key, seen from every replica.
put-IsSound :
    (token : String) (r : Replica) (c : Cluster) (key : Option String)
    → ((t : String) → t ≢ token → is_holder t c.key ≡ true → is_holder t key ≡ true)
    → sound (includes c.lapsed token) (is_holder token key) r ≡ true
    → ((t : String) → IsSound c t)
    → (t : String) → IsSound (record c { key = key; replica = put token r c.replica }) t
put-IsSound token r c key keeps own all t = elim (Bool-cases (t == token)) [
  | inl same ↦ rw (eq_of t token same, eq_refl token) own
  | inr other ↦ rw other (
      other_keeps (includes c.lapsed t) (is_holder t c.key) (is_holder t key) (c.replica t)
        (keeps t (ne_of t token other)) (all t))
]

first-not_won : (leader : Bool) → is_won (if leader then asking_renew else asking_set) ≡ false
first-not_won true = refl
first-not_won false = refl

first-not_release :
    (leader : Bool) → is_release (if leader then asking_renew else asking_set) ≡ false
first-not_release true = refl
first-not_release false = refl

begin_sound :
    (lapsed holds : Bool) (r : Replica)
    → sound lapsed holds r ≡ true
    → sound lapsed holds (record r { ticks = first_command r ∷ r.ticks }) ≡ true
unfolding first_command
begin_sound lapsed holds r s = rw (first-not_won r.leader, first-not_release r.leader) s

if-IsSound :
    (b : Bool) (c d : Cluster)
    → ((t : String) → IsSound c t)
    → ((t : String) → IsSound d t)
    → (t : String) → IsSound (if b then c else d) t
if-IsSound true c d h k = h
if-IsSound false c d h k = k

module _ (c : Cluster) (all : (t : String) → IsSound c t) (token : String) where
  same_key :
      (r : Replica)
      → sound (includes c.lapsed token) (is_holder token c.key) r ≡ true
      → (t : String) → IsSound (record c { replica = put token r c.replica }) t
  same_key r own = put-IsSound token r c c.key (λ t n h. h) own all

  begin_tick-IsSound : (t : String) → IsSound (begin_tick token c) t
  unfolding begin_tick first_command
  begin_tick-IsSound = if-IsSound (c.replica token).stopped c _ all (
      same_key _ (
        begin_sound (includes c.lapsed token) (is_holder token c.key) (c.replica token)
          (all token)))

  module _ (before : List Phase) (phase : Phase) (after : List Phase)
      (h : (c.replica token).ticks ≡ before ++ phase ∷ after) where
    here :
        sound (includes c.lapsed token) (is_holder token c.key) (
          with_phases
            (includes c.lapsed token)
            (c.replica token)
            before
            after
            (c.replica token).leader
            (phase ∷ []))
        ≡ true
    here =
        sym (
          sound_before (includes c.lapsed token) (c.replica token) before after
            (is_holder token c.key) phase h)
        ∙ all token

    execute_command-IsSound : (t : String) → IsSound (execute_command token c before phase after) t
    unfolding execute_command
    execute_command-IsSound =
        put-IsSound token _ c (execute token phase c.key).1
          (λ t n. keeps_holder t token phase c.key n)
          (execute_at (includes c.lapsed token) (c.replica token) before after token phase c.key
            here)
          all

    receive-IsSound : (t : String) → IsSound (receive token c before phase after) t
    unfolding receive
    receive-IsSound = same_key _ (
        receive_at (includes c.lapsed token) (c.replica token) before after (is_holder token c.key)
          (c.replica token).stopped (c.replica token).leader phase refl refl here)

    fail-IsSound : (t : String) → IsSound (fail token c (before ++ after)) t
    unfolding fail
    fail-IsSound = same_key _ (
        fail_at (includes c.lapsed token) (c.replica token) before after (is_holder token c.key)
          phase here)

  stop-IsSound : (t : String) → IsSound (stop token c) t
  unfolding stop
  stop-IsSound = same_key _ refl

  release-IsSound :
      (c.replica token).stopped ≡ true
      → (t : String) → IsSound (record c { key = release_script token c.key }) t
  unfolding execute
  release-IsSound e t = elim (Bool-cases (t == token)) [
    | inl same ↦ ground (arith, ap (λ u. (c.replica u).stopped) (eq_of t token same))
    | inr other ↦
        other_keeps (includes c.lapsed t) (is_holder t c.key)
          (is_holder t (release_script token c.key)) (c.replica t)
          (keeps_holder t token asking_release c.key (ne_of t token other)) (all t)
  ]

  stop_release-IsSound :
      (c.replica token).stopped ≡ true → (t : String) → IsSound (stop_release token c) t
  unfolding stop_release
  stop_release-IsSound e = if-IsSound (c.replica token).leader _ c (release-IsSound e) all

  stop_finally-IsSound :
      (c.replica token).stopped ≡ true → (t : String) → IsSound (stop_finally token c) t
  unfolding stop_finally
  stop_finally-IsSound e = same_key _ (ground (arith, e))

  expire-IsSound : c.key ≡ some token → (t : String) → IsSound (expire token c) t
  unfolding expire is_holder includes
  expire-IsSound e t = ground (arith, all t, ap (is_holder t) e)

Step-IsSound :
    (c d : Cluster) → ((t : String) → IsSound c t) → Step c d → (t : String) → IsSound d t
Step-IsSound c d all (begins token) = begin_tick-IsSound c all token
Step-IsSound c d all (executes token before phase after h) =
    execute_command-IsSound c all token before phase after h
Step-IsSound c d all (receives token before phase after h) =
    receive-IsSound c all token before phase after h
Step-IsSound c d all (fails token before phase after h) =
    fail-IsSound c all token before phase after h
Step-IsSound c d all (stops token) = stop-IsSound c all token
Step-IsSound c d all (releases token e h) = stop_release-IsSound c all token e
Step-IsSound c d all (settles token e) = stop_finally-IsSound c all token e
Step-IsSound c d all (expires token e) = expire-IsSound c all token e

Reach-IsSound : (c : Cluster) → Reach c → (t : String) → IsSound c t
unfolding includes
Reach-IsSound c started t = refl
Reach-IsSound d (next {c} r step) t = Step-IsSound c d (Reach-IsSound c r) step t

-- The replica calls itself the leader, was not stopped, and its lease has never expired.
unfoldable pub leads : Cluster → String → Bool
leads c t = (c.replica t).leader && not (c.replica t).stopped && not (includes c.lapsed t)

leads-holder :
    (c : Cluster) (t : String) → IsSound c t → leads c t ≡ true → is_holder t c.key ≡ true
unfolding leads
leads-holder c t s h = ground arith

same_holder :
    (t u : String) (key : Option String) → is_holder t key ≡ true → is_holder u key ≡ true → t ≡ u
unfolding is_holder
same_holder t u none h k = ground arith
same_holder t u (some holder) h k = ground (arith, eq_iff holder t, eq_iff holder u)

-- In whatever order the replicas' ticks, the commands, their replies, failures, shutdowns and
-- expiries come: there is at most one replica that calls itself the leader, was not stopped, and whose lease
-- has not expired before; and Redis has its token under the key.
pub Reach-one_leader :
    (c : Cluster) (t u : String)
    → Reach c
    → leads c t ≡ true
    → leads c u ≡ true
    → (t ≡ u) × (is_holder t c.key ≡ true)
Reach-one_leader c t u r h k =
    let holds = leads-holder c t (Reach-IsSound c r t) h in
    (same_holder t u c.key holds (leads-holder c u (Reach-IsSound c r u) k), holds)
