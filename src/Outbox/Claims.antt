-- ===== src/Outbox/Claims.antt =====
-- For how long the claim hides what it took.
use native.Mathlib.Nat.{pow-suc}
use native.Mathlib.Decide.{dec_lt}
use nestjs_fastify_nx.Common.{
  ℕ, zero, suc, ◌+◌, ◌*◌, ◌^◌, ◌≤◌, ◌<◌, min, String, ◌≡◌, refl, ◌&&◌, Bool, true, false, List, [],
  ◌∷◌, arith, Bool-cases, inl, inr, not, if◌then◌else◌, every, map,
}
use nestjs_fastify_nx.Outbox.Table.{
  OutboxRow, World, Settings, Ports, backoff_ms, is_claimable, claim_row, is_among,
}
use nestjs_fastify_nx.Outbox.Relay.{selected, claim_statement}

pow_pos : (n : ℕ) → 1 ≤ 2 ^ n
pow_pos zero = omega arith
pow_pos (suc n) = rw pow-suc (omega (arith, pow_pos n))

min-small : (n k : ℕ) → n ≤ k → min n k ≡ n
min-small n k h = omega arith

min-succ : (n : ℕ) → n < 30 → min (n + 1) 30 ≡ suc n
min-succ n h = omega arith

min-large : (n : ℕ) → ¬ (n < 30) → min n 30 ≡ 30
min-large n h = omega arith

pow_step : (n : ℕ) → 2 ^ min n 30 ≤ 2 ^ min (n + 1) 30
pow_step n = elim (dec_lt n 30) [
  | yes small ↦
      rw (min-small n 30 (omega arith), min-succ n small, pow-suc) (omega (arith, pow_pos n))
  | no large ↦ rw (min-large n large, min-large (n + 1) (omega arith)) (omega arith)
]

mul_mono : (base a b : ℕ) → a ≤ b → base * a ≤ base * b
mul_mono base a b h = grind arith

-- The wait after any attempt lies between the smaller and the larger of base and cap, and the next
-- attempt never waits less.
pub backoff_bounds :
    (settings : Settings) (n : ℕ)
    → (min settings.retry_base_ms settings.retry_max_ms ≤ backoff_ms settings n)
      × (backoff_ms settings n ≤ settings.retry_max_ms)
      × (backoff_ms settings n ≤ backoff_ms settings (n + 1))
unfolding backoff_ms
backoff_bounds settings n = omega (
  arith,
  mul_mono settings.retry_base_ms 1 (2 ^ min n 30) (pow_pos (min n 30)),
  mul_mono settings.retry_base_ms (2 ^ min n 30) (2 ^ min (n + 1) 30) (pow_step n),
)

module _ {P : Type 0} (settings : Settings) (chosen : List (OutboxRow P)) (now later : ℕ)
    (soon : later < now + min settings.retry_base_ms settings.retry_max_ms) where
  claim_row-hidden :
      (row : OutboxRow P) → is_claimable settings later (claim_row settings now row) ≡ false
  unfolding is_claimable
  claim_row-hidden row = ground (arith, backoff_bounds settings row.attempts)

  is_among-claim_row :
      (row : OutboxRow P) → is_among chosen (claim_row settings now row) ≡ is_among chosen row
  unfolding is_among
  is_among-claim_row row = refl

  claimed-hidden :
      (rows : List (OutboxRow P))
      → every
          (λ row. not (is_among chosen row && is_claimable settings later row))
          (map (λ row. if is_among chosen row then claim_row settings now row else row) rows)
        ≡ true
  claimed-hidden [] = refl
  claimed-hidden (row ∷ rows) = elim (Bool-cases (is_among chosen row)) [
    | inl hit ↦ rw (hit, is_among-claim_row row, hit, claim_row-hidden row) (claimed-hidden rows)
    | inr miss ↦ rw (miss, miss) (claimed-hidden rows)
  ]

-- After a claim no relay can claim any of the rows that it chose, until the smaller of the base
-- delay and the cap has passed, even if the relay that claimed them never comes back.
pub claim_hides :
    {P S : Type 0} (precedes : String → String → Bool) (settings : Settings) (ports : Ports P S)
    (w : World P S) (later : ℕ)
    → later < w.now + min settings.retry_base_ms settings.retry_max_ms
    → every
        (λ row.
          not
            (is_among (selected precedes settings ports w) row && is_claimable settings later row))
        (claim_statement precedes settings ports w).1.rows
      ≡ true
unfolding claim_statement
claim_hides precedes settings ports w later soon =
    claimed-hidden settings (selected precedes settings ports w) w.now later soon w.rows
