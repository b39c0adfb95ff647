-- ===== src/FeatureFlags/Rollout.antt =====
-- A rollout that grows takes the feature from nobody.
use nestjs_fastify_nx.Common.{
  ℕ, ◌%◌, ◌≤◌, ◌<◌, String, ◌≡◌, refl, sym, ap, Bool, true, false, Option, none, some, ◌&&◌, arith,
  ltb, or_else, if◌then◌else◌,
}
use Prim.Native.String
use mathlib.Core.Path.{subst}
use nestjs_fastify_nx.Errors.{Result, ok, err, Failure, err-ne-ok, first-ok}
use nestjs_fastify_nx.FeatureFlags.Flag.{
  FeatureFlag, CreateFeatureFlagInput, FeatureFlagChanges, matches_key_pattern, assert_key,
  assert_rollout, create, changed_rollout, with_changes, bucket, is_enabled_for,
}

mod_small : (n : ℕ) → n % 100 < 100
mod_small n = omega arith

-- The subjects are those whose bucket is below the percentage, at the ends too.
is_enabled_for-bucket :
    (digest : String → ℕ) (flag : FeatureFlag) (subject : String)
    → is_enabled_for digest flag subject
      ≡ (flag.enabled && ltb (bucket digest flag.key subject) flag.rollout_percentage)
unfolding is_enabled_for
is_enabled_for-bucket digest flag subject =
    ground (arith, mod_small (digest (String.◌++◌ flag.key (String.◌++◌ ":" subject))))

abbrev flag_of : FeatureFlag → Result FeatureFlag → FeatureFlag
flag_of flag (ok new) = new
flag_of flag (err e) = flag

same-key :
    (flag : FeatureFlag) (changes : FeatureFlagChanges) (new : FeatureFlag)
    → with_changes flag changes ≡ ok new
    → new.key ≡ flag.key
unfolding with_changes
same-key flag changes new h =
    let (percentage, e, last) =
      first-ok (changed_rollout flag.rollout_percentage changes.rollout_percentage) _ new h in
    sym (ap (λ r. (flag_of flag r).key) last)

-- After a change that leaves the flag on and its percentage no smaller, every subject that had the
-- feature still has it, whatever the digest.
pub with_changes-keeps :
    (digest : String → ℕ) (flag : FeatureFlag) (changes : FeatureFlagChanges) (new : FeatureFlag)
    (subject : String)
    → with_changes flag changes ≡ ok new
    → new.enabled ≡ true
    → flag.rollout_percentage ≤ new.rollout_percentage
    → is_enabled_for digest flag subject ≡ true
    → is_enabled_for digest new subject ≡ true
with_changes-keeps digest flag changes new subject h on more had =
    rw (is_enabled_for-bucket digest new subject, same-key flag changes new h, on)
      (ground (arith, is_enabled_for-bucket digest flag subject, had, more))

abbrev pub IsValid : FeatureFlag → Type 0
IsValid flag = (flag.rollout_percentage ≤ 100) × (matches_key_pattern flag.key ≡ true)

kept :
    {A : Type 0} (b : Bool) (e : Failure) (a r : A)
    → (if b then err e else ok a) ≡ ok r
    → (b ≡ false) × (r ≡ a)
kept true e a r h = absurd (err-ne-ok e r h)
kept false e a r h = (refl, cc)

accepted :
    {A : Type 0} (b : Bool) (e : Failure) (a r : A)
    → (if b then ok a else err e) ≡ ok r
    → (b ≡ true) × (r ≡ a)
accepted true e a r h = (refl, cc)
accepted false e a r h = absurd (err-ne-ok e r h)

bounded : (percentage r : ℕ) → assert_rollout percentage ≡ ok r → r ≤ 100
unfolding assert_rollout
bounded percentage r h =
    let (small, same) = kept (ltb 100 percentage) _ percentage r h in ground (arith, small, same)

matched : (key r : String) → assert_key key ≡ ok r → matches_key_pattern r ≡ true
unfolding assert_key
matched key r h = let (good, same) = accepted (matches_key_pattern key) _ key r h in rw same good

changed-bounded :
    (current : ℕ) (change : Option ℕ) (r : ℕ)
    → current ≤ 100
    → changed_rollout current change ≡ ok r
    → r ≤ 100
unfolding changed_rollout
changed-bounded current none r h e = ground arith
changed-bounded current (some percentage) r h e = bounded percentage r e

-- A flag that is created has a well-formed key and a percentage of at most 100.
pub create-IsValid :
    (input : CreateFeatureFlagInput) (flag : FeatureFlag) → create input ≡ ok flag → IsValid flag
unfolding create
create-IsValid input flag h =
    let (key, e, rest) = first-ok (assert_key input.key) _ flag h in
    let (percentage, e', last) =
      first-ok (assert_rollout (or_else input.rollout_percentage 100)) _ flag rest in
    let same = ap (λ r. flag_of flag r) last in
    (
      subst (λ (f : FeatureFlag). f.rollout_percentage ≤ 100) same (bounded _ percentage e'),
      subst (λ (f : FeatureFlag). matches_key_pattern f.key ≡ true) same (matched input.key key e),
    )

-- A change of a well-formed flag that succeeds yields a well-formed flag.
pub with_changes-IsValid :
    (flag : FeatureFlag) (changes : FeatureFlagChanges) (new : FeatureFlag)
    → IsValid flag
    → with_changes flag changes ≡ ok new
    → IsValid new
unfolding with_changes
with_changes-IsValid flag changes new (bound, named) h =
    let (percentage, e, last) =
      first-ok (changed_rollout flag.rollout_percentage changes.rollout_percentage) _ new h in
    let same = ap (λ r. flag_of flag r) last in
    (
      subst (λ (f : FeatureFlag). f.rollout_percentage ≤ 100) same
          (changed-bounded flag.rollout_percentage changes.rollout_percentage percentage bound e),
      subst (λ (f : FeatureFlag). matches_key_pattern f.key ≡ true) same named,
    )
