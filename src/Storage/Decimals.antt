-- ===== src/Storage/Decimals.antt =====
-- Decimal texts: the number can be read off, and they have no line breaks.
use Prim.Native.Char.{Char, code}
use Prim.Native.Nat.{◌+◌, ◌-◌, ◌*◌, ◌/◌, ◌%◌, ◌≤◌, ◌<◌}
use Prim.Native.String
use Prim.Native.String.append
use nestjs_fastify_nx.Common.{
  ℕ, zero, suc, String, ◌≡◌, refl, sym, ap, ◌∙◌, Bool, true, false, ltb, arith, Bool-cases, inl,
  inr, eq_iff, ◌==◌, if◌then◌else◌,
}
use nestjs_fastify_nx.Common.Text.{contains_char}
use nestjs_fastify_nx.Storage.Signing.{digit, digits, decimal}

-- the number that digits stand for, after those before them
value : String → ℕ → ℕ
value String.[] n = n
value (String.◌∷◌ c s) n = value s (10 * n + (code c - b'0'))

value-append : (s t : String) (n : ℕ) → value (String.◌++◌ s t) n ≡ value t (value s n)
unfolding value
value-append String.[] t n = ap (λ r. value r n) (append.nil t)
value-append (String.◌∷◌ c s) t n =
    ap (λ r. value r n) (append.cons c s t) ∙ value-append s t (10 * n + (code c - b'0'))

value-digit : (d n : ℕ) → d < 10 → value (digit d) n ≡ 10 * n + d
unfolding value digit
value-digit zero n h = omega arith
value-digit (suc zero) n h = omega arith
value-digit (suc (suc zero)) n h = omega arith
value-digit (suc (suc (suc zero))) n h = omega arith
value-digit (suc (suc (suc (suc zero)))) n h = omega arith
value-digit (suc (suc (suc (suc (suc zero))))) n h = omega arith
value-digit (suc (suc (suc (suc (suc (suc zero)))))) n h = omega arith
value-digit (suc (suc (suc (suc (suc (suc (suc zero))))))) n h = omega arith
value-digit (suc (suc (suc (suc (suc (suc (suc (suc zero)))))))) n h = omega arith
value-digit (suc (suc (suc (suc (suc (suc (suc (suc (suc zero))))))))) n h = omega arith
value-digit (suc (suc (suc (suc (suc (suc (suc (suc (suc (suc d)))))))))) n h = absurd (omega arith)

digits_step :
    (fuel n : ℕ)
    → digits (suc fuel) n
      ≡ (if ltb n 10 then digit n else String.◌++◌ (digits fuel (n / 10)) (digit (n % 10)))
unfolding digits
digits_step fuel n = choose (ltb n 10)
  where
    choose :
        (b : Bool)
        → ◌≡◌ {A = String}
            (elim b [
              | true ↦ digit n
              | false ↦ String.◌++◌ (digits fuel (n / 10)) (digit (n % 10))
            ])
            (if b then digit n else String.◌++◌ (digits fuel (n / 10)) (digit (n % 10)))
    choose true = refl
    choose false = refl

value-digits : (fuel n : ℕ) → n ≤ fuel → value (digits fuel n) 0 ≡ n
value-digits zero n h = unfold digits in value-digit (n % 10) 0 (omega arith) ∙ omega arith
value-digits (suc fuel) n h = elim (Bool-cases (ltb n 10)) [
  | inl small ↦ rw (digits_step, small) (value-digit n 0 (ground arith) ∙ omega arith)
  | inr large ↦
      rw
        (
          digits_step,
          large,
          value-append (digits fuel (n / 10)) (digit (n % 10)) 0,
          value-digits fuel (n / 10) (ground arith),
          value-digit (n % 10) (n / 10) (omega arith),
        )
        (omega arith)
]

pub decimal-injective : (m n : ℕ) → decimal m ≡ decimal n → m ≡ n
unfolding decimal
decimal-injective m n h =
    sym (value-digits m m (omega arith)) ∙ ap (λ s. value s 0) h ∙ value-digits n n (omega arith)

-- no line break in a text
abbrev pub OneLine : String → Type 0
OneLine s = contains_char 10 s ≡ false

OneLine-append : (s t : String) → OneLine s → OneLine t → OneLine (String.◌++◌ s t)
unfolding contains_char
OneLine-append String.[] t h k = rw (append.nil t) k
OneLine-append (String.◌∷◌ c s) t h k =
    let rest = OneLine-append s t (ground arith) k in rw (append.cons c s t) (ground arith)

OneLine-digit : (d : ℕ) → OneLine (digit d)
unfolding digit contains_char
OneLine-digit zero = refl
OneLine-digit (suc zero) = refl
OneLine-digit (suc (suc zero)) = refl
OneLine-digit (suc (suc (suc zero))) = refl
OneLine-digit (suc (suc (suc (suc zero)))) = refl
OneLine-digit (suc (suc (suc (suc (suc zero))))) = refl
OneLine-digit (suc (suc (suc (suc (suc (suc zero)))))) = refl
OneLine-digit (suc (suc (suc (suc (suc (suc (suc zero))))))) = refl
OneLine-digit (suc (suc (suc (suc (suc (suc (suc (suc zero)))))))) = refl
OneLine-digit (suc (suc (suc (suc (suc (suc (suc (suc (suc d))))))))) = refl

OneLine-digits : (fuel n : ℕ) → OneLine (digits fuel n)
OneLine-digits zero n = unfold digits in OneLine-digit (n % 10)
OneLine-digits (suc fuel) n = elim (Bool-cases (ltb n 10)) [
  | inl small ↦ rw (digits_step, small) (OneLine-digit n)
  | inr large ↦
      rw (digits_step, large)
        (OneLine-append (digits fuel (n / 10)) (digit (n % 10)) (OneLine-digits fuel (n / 10))
          (OneLine-digit (n % 10)))
]

pub OneLine-decimal : (n : ℕ) → OneLine (decimal n)
unfolding decimal
OneLine-decimal n = OneLine-digits n n

full : (s : String) → (s ≡ "" → ⊥) → (s == "") ≡ false
full s h = elim (Bool-cases (s == "")) [ inl e ↦ absurd (h ((eq_iff s "").0 e)) | inr e ↦ e ]

cons-ne-empty : (c : Char) (s : String) → String.◌∷◌ c s ≡ "" → ⊥
cons-ne-empty c s h = cc

append-ne-empty : (s t : String) → (t ≡ "" → ⊥) → String.◌++◌ s t ≡ "" → ⊥
append-ne-empty String.[] t k h = k (sym (append.nil t) ∙ h)
append-ne-empty (String.◌∷◌ c s) t k h =
    cons-ne-empty c (String.◌++◌ s t) (sym (append.cons c s t) ∙ h)

digit-ne-empty : (d : ℕ) → digit d ≡ "" → ⊥
unfolding digit
digit-ne-empty zero h = cons-ne-empty "0" "" h
digit-ne-empty (suc zero) h = cons-ne-empty "1" "" h
digit-ne-empty (suc (suc zero)) h = cons-ne-empty "2" "" h
digit-ne-empty (suc (suc (suc zero))) h = cons-ne-empty "3" "" h
digit-ne-empty (suc (suc (suc (suc zero)))) h = cons-ne-empty "4" "" h
digit-ne-empty (suc (suc (suc (suc (suc zero))))) h = cons-ne-empty "5" "" h
digit-ne-empty (suc (suc (suc (suc (suc (suc zero)))))) h = cons-ne-empty "6" "" h
digit-ne-empty (suc (suc (suc (suc (suc (suc (suc zero))))))) h = cons-ne-empty "7" "" h
digit-ne-empty (suc (suc (suc (suc (suc (suc (suc (suc zero)))))))) h = cons-ne-empty "8" "" h
digit-ne-empty (suc (suc (suc (suc (suc (suc (suc (suc (suc d))))))))) h = cons-ne-empty "9" "" h

digits-ne-empty : (fuel n : ℕ) → digits fuel n ≡ "" → ⊥
digits-ne-empty zero n h = digit-ne-empty (n % 10) (unfold digits in h)
digits-ne-empty (suc fuel) n h = elim (Bool-cases (ltb n 10)) [
  | inl small ↦ digit-ne-empty n (sym (rw (digits_step, small) refl) ∙ h)
  | inr large ↦
      append-ne-empty (digits fuel (n / 10)) (digit (n % 10)) (digit-ne-empty (n % 10))
        (sym (rw (digits_step, large) refl) ∙ h)
]

pub decimal-full : (n : ℕ) → (decimal n == "") ≡ false
decimal-full n = full (decimal n) (λ h. digits-ne-empty n n (unfold decimal in h))
