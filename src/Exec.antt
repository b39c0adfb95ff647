-- ===== src/Exec.antt =====
-- Asynchronous methods as state passing with exceptions: what was written before a throw stays
-- written. Every `await` is one call, and what other executions do meanwhile belongs to that call.
pub mod Rules
pub mod Triples
use nestjs_fastify_nx.Common.{Bool, if◌then◌else◌}
use nestjs_fastify_nx.Errors.{Result, ok, err, Failure}

abbrev pub Exec : Type 0 → Type 0 → Type 0
Exec S A = S → Result A × S

module _ {S A : Type 0} where
  unfoldable pub pure : A → Exec S A
  pure a s = (ok a, s)

  unfoldable pub throw : Failure → Exec S A
  throw e s = (err e, s)

  -- a synchronous call that may throw
  unfoldable pub lift : Result A → Exec S A
  lift r s = (r, s)

  abbrev pub handle : (Failure → Exec S A) → Result A × S → Result A × S
  handle h (ok a, s) = (ok a, s)
  handle h (err e, s) = h e s

  -- `try { … } catch (err) { … }`
  unfoldable pub try_catch : Exec S A → (Failure → Exec S A) → Exec S A
  try_catch m h s = handle h (m s)

module _ {S A B : Type 0} where
  abbrev pub continue : (A → Exec S B) → Result A × S → Result B × S
  continue f (ok a, s) = f a s
  continue f (err e, s) = (err e, s)

  infixl 5 ◌>>=◌ ◌>>◌
  unfoldable pub ◌>>=◌ : Exec S A → (A → Exec S B) → Exec S B
  ◌>>=◌ m f s = continue f (m s)

  abbrev pub ◌>>◌ : Exec S A → Exec S B → Exec S B
  m >> n = m >>= λ _. n

-- `if (test) …` with nothing to return
abbrev pub when : {S : Type 0} → Bool → Exec S (Unit {0}) → Exec S (Unit {0})
when test m = if test then m else pure tt
