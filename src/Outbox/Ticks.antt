-- ===== src/Outbox/Ticks.antt =====
-- One turn of the relay: `tick` and its `finally`.
use nestjs_fastify_nx.Common.{
  ℕ, String, ◌≡◌, refl, sym, ◌∙◌, Bool, true, false, if◌then◌else◌, ◌||◌,
}
use nestjs_fastify_nx.Errors.{Result, ok, err}
use nestjs_fastify_nx.Exec.{pure, throw, try_catch, ◌>>=◌, ◌>>◌, handle, continue}
use nestjs_fastify_nx.Outbox.Table.{World, Settings, Ports}
use nestjs_fastify_nx.Outbox.Relay.{is_follower, set_running, relay_batch, guarded_batch, tick}

module _ {P S : Type 0} (precedes : String → String → Bool) (settings : Settings)
    (ports : Ports P S) where
  settled :
      (o : Result ℕ × World P S)
      → (continue
          (λ dispatched. do set_running precedes settings ports false; pure dispatched)
          (handle (λ e. do set_running precedes settings ports false; throw e) o)).1.running
        ≡ false
  unfolding set_running pure throw ◌>>=◌
  settled (ok n, w) = refl
  settled (err e, w) = refl

  guarded_batch-running :
      (w : World P S) → (guarded_batch precedes settings ports w).1.running ≡ false
  unfolding guarded_batch ◌>>=◌ try_catch set_running
  guarded_batch-running w =
      settled (relay_batch precedes settings ports (record w { running = true }))

  if-settles :
      (b : Bool) (m n : Result ℕ × World P S) (r : Bool)
      → m.1.running ≡ r
      → (b ≡ false → n.1.running ≡ r)
      → (if b then m else n).1.running ≡ r
  if-settles true m n r h k = h
  if-settles false m n r h k = k refl

  idle : (r c : Bool) → (r || c) ≡ false → r ≡ false
  idle true c h = h
  idle false c h = refl

  -- A turn leaves the flag that keeps turns apart as it found it, whichever of its steps throws.
  pub tick-settles : (w : World P S) → (tick precedes settings ports w).1.running ≡ w.running
  unfolding tick
  tick-settles w =
      if-settles (is_follower ports.leads) (ok 0, w) _ w.running refl
        λ leads.
          if-settles (w.running || w.stopped) (ok 0, w) _ w.running refl
            λ free. guarded_batch-running w ∙ sym (idle w.running w.stopped free)
