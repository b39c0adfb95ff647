-- ===== src/Redis/Soundness.antt =====
-- What every replica keeps: it holds the key that it relies on, whatever Redis does and answers.
use nestjs_fastify_nx.Common.{
  String, ◌≡◌, ◌≢◌, refl, sym, ap, ◌∙◌, ◌==◌, Bool, true, false, Option, none, some, List, [], ◌∷◌,
  ◌++◌, ◌||◌, ◌&&◌, not, arith, eq_iff, eq_refl, exists, includes,
}
use nestjs_fastify_nx.Redis.Lease.{
  Phase, asking_renew, asking_set, asking_release, renewed, set_done, Replica, Cluster, is_holder,
  release_script, set_nx, renew_script, execute, on_reply,
}

-- a reply that will make its replica the leader
abbrev pub is_won : Phase → Bool
is_won (set_done b) = b
is_won _ = false

abbrev pub is_release : Phase → Bool
is_release asking_release = true
is_release _ = false

-- The replica leads, or is about to, on the strength of the key.
abbrev pub relies : Replica → Bool
relies r = r.leader || exists is_won r.ticks

-- It was stopped, or its lease has lapsed, or it holds the key if it relies on it.
abbrev pub sound : Bool → Bool → Replica → Bool
sound lapsed holds r =
    r.stopped || lapsed || ((not (relies r) || holds) && not (exists is_release r.ticks))

abbrev pub IsSound : Cluster → String → Type 0
IsSound c t = sound (includes c.lapsed t) (is_holder t c.key) (c.replica t) ≡ true

exists-append :
    (p : Phase → Bool) (xs ys : List Phase) → exists p (xs ++ ys) ≡ (exists p xs || exists p ys)
exists-append p [] ys = refl
exists-append p (x ∷ xs) ys = ground (arith, exists-append p xs ys)

exists-at :
    (p : Phase → Bool) (r : Replica) (before : List Phase) (phase : Phase) (after : List Phase)
    → r.ticks ≡ before ++ phase ∷ after
    → exists p r.ticks ≡ (exists p before || (p phase || exists p after))
exists-at p r before phase after h = ap (exists p) h ∙ exists-append p before (phase ∷ after)

holder_self : (t : String) → is_holder t (some t) ≡ true
unfolding is_holder
holder_self t = eq_refl t

exists-between :
    (p : Phase → Bool) (before phases after : List Phase)
    → exists p (before ++ (phases ++ after))
      ≡ (exists p before || (exists p phases || exists p after))
exists-between p before phases after =
    exists-append p before (phases ++ after)
    ∙ ap (λ b. exists p before || b) (exists-append p phases after)

module _ (lapsed : Bool) (r : Replica) (before after : List Phase) where
  abbrev pub with_phases : Bool → List Phase → Replica
  with_phases leader phases = record r { leader = leader; ticks = before ++ (phases ++ after) }

  -- Soundness, with the tick at hand apart from the others.
  sound_at :
      (holds leader : Bool) (phases : List Phase)
      → sound lapsed holds (with_phases leader phases) ≡ (
          r.stopped
          || lapsed
          || ((not (
                  leader || (exists is_won before || (exists is_won phases || exists is_won after)))
                || holds)
              && not (
                  exists is_release before
                  || (exists is_release phases || exists is_release after))))
  sound_at holds leader phases =
      rw (exists-between is_won before phases after, exists-between is_release before phases after)
        refl

  pub sound_before :
      (holds : Bool) (phase : Phase)
      → r.ticks ≡ before ++ phase ∷ after
      → sound lapsed holds r ≡ sound lapsed holds (with_phases r.leader (phase ∷ []))
  sound_before holds phase h = ap (λ ticks. sound lapsed holds (record r { ticks = ticks })) h

  pub execute_at :
      (t : String) (phase : Phase) (key : Option String)
      → sound lapsed (is_holder t key) (with_phases r.leader (phase ∷ [])) ≡ true
      → sound lapsed
          (is_holder t (execute t phase key).1)
          (with_phases r.leader (execute t phase key).0)
        ≡ true
  unfolding execute renew_script release_script set_nx
  execute_at t asking_renew key s =
      rw (sound_at _ _ _)
        (ground (arith, s, sound_at (is_holder t key) r.leader (asking_renew ∷ [])))
  execute_at t asking_set none s =
      rw (sound_at _ _ _, holder_self t)
        (ground (arith, s, sound_at (is_holder t none) r.leader (asking_set ∷ [])))
  execute_at t asking_set (some holder) s =
      rw (sound_at _ _ _)
        (ground (arith, s, sound_at (is_holder t (some holder)) r.leader (asking_set ∷ [])))
  execute_at t asking_release key s =
      rw (sound_at _ _ _)
        (ground (arith, s, sound_at (is_holder t key) r.leader (asking_release ∷ [])))
  execute_at t (renewed b) key s = s
  execute_at t (set_done b) key s = s

  pub fail_at :
      (holds : Bool) (phase : Phase)
      → sound lapsed holds (with_phases r.leader (phase ∷ [])) ≡ true
      → sound lapsed holds (with_phases false []) ≡ true
  fail_at holds phase s =
      rw (sound_at _ _ _) (ground (arith, s, sound_at holds r.leader (phase ∷ [])))

  pub receive_at :
      (holds stopped leader : Bool) (phase : Phase)
      → r.stopped ≡ stopped
      → r.leader ≡ leader
      → sound lapsed holds (with_phases r.leader (phase ∷ [])) ≡ true
      → sound lapsed holds
          (with_phases (on_reply leader stopped phase).0 (on_reply leader stopped phase).1)
        ≡ true
  unfolding on_reply
  receive_at holds true leader phase e f s = ground (arith, e)
  receive_at holds false leader (renewed true) e f s =
      rw (sound_at _ _ _) (ground (arith, f, s, sound_at holds r.leader (renewed true ∷ [])))
  receive_at holds false leader (renewed false) e f s =
      rw (sound_at _ _ _) (ground (arith, f, s, sound_at holds r.leader (renewed false ∷ [])))
  receive_at holds false leader (set_done b) e f s =
      rw (sound_at _ _ _) (ground (arith, f, s, sound_at holds r.leader (set_done b ∷ [])))
  receive_at holds false leader asking_renew e f s =
      ap (λ l. sound lapsed holds (with_phases l (asking_renew ∷ []))) (sym f) ∙ s
  receive_at holds false leader asking_set e f s =
      ap (λ l. sound lapsed holds (with_phases l (asking_set ∷ []))) (sym f) ∙ s
  receive_at holds false leader asking_release e f s =
      ap (λ l. sound lapsed holds (with_phases l (asking_release ∷ []))) (sym f) ∙ s

-- A holder other than the replica keeps the key through any command of the replica.
pub keeps_holder :
    (t token : String) (phase : Phase) (key : Option String)
    → t ≢ token
    → is_holder t key ≡ true
    → is_holder t (execute token phase key).1 ≡ true
unfolding execute renew_script release_script set_nx is_holder
keeps_holder t token asking_renew key n h = h
keeps_holder t token asking_set none n h = ground arith
keeps_holder t token asking_set (some holder) n h = h
keeps_holder t token asking_release none n h = h
keeps_holder t token asking_release (some holder) n h =
    ground (arith, eq_iff holder t, eq_iff holder token)
keeps_holder t token (renewed b) key n h = h
keeps_holder t token (set_done b) key n h = h

pub other_keeps :
    (lapsed holds holds' : Bool) (r : Replica)
    → (holds ≡ true → holds' ≡ true)
    → sound lapsed holds r ≡ true
    → sound lapsed holds' r ≡ true
other_keeps lapsed true holds' r k s = rw (k refl) s
other_keeps lapsed false holds' r k s = ground arith

pub eq_of : (a b : String) → a == b ≡ true → a ≡ b
eq_of a b h = ground (arith, eq_iff a b)

pub ne_of : (a b : String) → a == b ≡ false → a ≢ b
ne_of a b h = ground (arith, eq_iff a b)
