-- ===== src/Storage/Writes.antt =====
-- What `writeObject` stores, whichever calls of the file system fail.
use Prim.Native.Nat.{◌+◌, ◌≤◌}
use nestjs_fastify_nx.Common.{
  ℕ, ◌≡◌, refl, sym, ap, ◌∙◌, Bool, true, false, List, [], ◌∷◌, ◌++◌, arith, Bool-cases, inl, inr,
  ltb, length, length-append, append_assoc, append_nil,
}
use nestjs_fastify_nx.Storage.Local.{Meter, measure, measure_all, empty_meter}

-- the bytes of a stream
abbrev pub bytes_in : List (List ℕ) → List ℕ
bytes_in [] = []
bytes_in (chunk ∷ chunks) = chunk ++ bytes_in chunks

-- What the transform has seen, where it has not overflowed.
pub record HasPassed (max_bytes : ℕ) (m : Meter) (b : List ℕ) : Type 0 where
  pub all : m.written ≡ b
  pub sized : m.size ≡ length b
  pub bounded : m.size ≤ max_bytes

measure-overflowed :
    (max_bytes : ℕ) (m : Meter) (chunks : List (List ℕ))
    → m.overflowed ≡ true
    → (measure_all max_bytes m chunks).overflowed ≡ true
unfolding measure_all
measure-overflowed max_bytes m [] h = h
measure-overflowed max_bytes m (chunk ∷ chunks) h =
    measure-overflowed max_bytes (measure max_bytes m chunk) chunks
      (elim (Bool-cases (ltb max_bytes (m.size + length chunk))) [
        | inl big ↦ rw big refl
        | inr small ↦ rw small h
      ])

true-ne-false : ◌≡◌ {A = Bool} true false → ⊥
true-ne-false h = cc

passed_chunk :
    (max_bytes : ℕ) (m : Meter) (b chunk : List ℕ)
    → HasPassed max_bytes m b
    → ltb max_bytes (m.size + length chunk) ≡ false
    → HasPassed max_bytes (measure max_bytes m chunk) (b ++ chunk)
passed_chunk max_bytes m b chunk p small = rw small (record {
  all = ap (λ w. w ++ chunk) p.all;
  sized = ap (λ n. n + length chunk) p.sized ∙ sym (length-append b chunk);
  bounded = ground arith;
})

measure-passed :
    (max_bytes : ℕ) (m : Meter) (b : List ℕ) (chunks : List (List ℕ))
    → HasPassed max_bytes m b
    → (measure_all max_bytes m chunks).overflowed ≡ false
    → HasPassed max_bytes (measure_all max_bytes m chunks) (b ++ bytes_in chunks)
unfolding measure_all
measure-passed max_bytes m b [] p h = rw (append_nil b) p
measure-passed max_bytes m b (chunk ∷ chunks) p h =
    elim (Bool-cases (ltb max_bytes (m.size + length chunk))) [
      | inl big ↦
          let over : (measure max_bytes m chunk).overflowed ≡ true = rw big refl in
          absurd (
            true-ne-false
              (sym (measure-overflowed max_bytes (measure max_bytes m chunk) chunks over) ∙ h))
      | inr small ↦
          let next : HasPassed max_bytes (measure max_bytes m chunk) (b ++ chunk) =
            passed_chunk max_bytes m b chunk p small in
          let rest =
            measure-passed max_bytes (measure max_bytes m chunk) (b ++ chunk) chunks next h in
          rw (sym (append_assoc b chunk (bytes_in chunks))) rest
    ]

-- A stream that did not overflow was written in full, with its size within the bound.
pub measure_all-HasPassed :
    (max_bytes : ℕ) (chunks : List (List ℕ))
    → (measure_all max_bytes empty_meter chunks).overflowed ≡ false
    → HasPassed max_bytes (measure_all max_bytes empty_meter chunks) (bytes_in chunks)
measure_all-HasPassed max_bytes chunks h =
    measure-passed max_bytes empty_meter [] chunks
      (record { all = refl; sized = refl; bounded = omega arith }) h
