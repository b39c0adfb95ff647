-- ===== src/FeatureFlags/Flag.antt =====
-- libs/modules/feature-flags/src/domain/entities/feature-flag.entity.ts. The first four bytes of the
-- digest are a parameter. Percentages are natural numbers: negative and fractional ones, which
-- `assertRollout` rejects too, are left out. Times of creation and change are left out.
use nestjs_fastify_nx.Common.{
  ℕ, ◌%◌, String, Bool, true, false, Option, none, some, ◌&&◌, ◌||◌, ltb, leb, eqb, or_else,
  if◌then◌else◌,
}
use nestjs_fastify_nx.Common.Text.{count}
use Prim.Native.Char.{code}
use Prim.Native.String
use nestjs_fastify_nx.Errors.{
  Result, ok, ◌>>=◌, throw_domain, field_problem, validation, DomainExceptionOptions,
}

pub record FeatureFlag : Type 0 where
  pub id : String
  pub organization_id : String
  pub key : String
  pub description : Option String
  pub enabled : Bool
  pub rollout_percentage : ℕ

-- `id` is given, generated or not
pub record CreateFeatureFlagInput : Type 0 where
  pub id : String
  pub organization_id : String
  pub key : String
  pub description : Option String
  pub enabled : Option Bool
  pub rollout_percentage : Option ℕ

-- an absent field is left alone; a description may be set to null
pub record FeatureFlagChanges : Type 0 where
  pub description : Option (Option String)
  pub enabled : Option Bool
  pub rollout_percentage : Option ℕ

abbrev invalid : String → DomainExceptionOptions
invalid path = field_problem validation "validation_failed" none path

abbrev is_lower : ℕ → Bool
is_lower c = leb b'a' c && leb c b'z'

-- `[a-z0-9._-]`
abbrev is_key_char : ℕ → Bool
is_key_char c = is_lower c || (leb b'0' c && leb c b'9') || eqb c b'.' || eqb c b'_' || eqb c b'-'

all_key_chars : String → Bool
all_key_chars String.[] = true
all_key_chars (String.◌∷◌ c s) = is_key_char (code c) && all_key_chars s

-- KEY_PATTERN, `^[a-z][a-z0-9._-]{1,99}$`
unfoldable pub matches_key_pattern : String → Bool
unfolding all_key_chars count
matches_key_pattern String.[] = false
matches_key_pattern (String.◌∷◌ c s) =
    is_lower (code c) && all_key_chars s && leb 1 (count s) && leb (count s) 99

unfoldable pub assert_key : String → Result String
unfolding matches_key_pattern
assert_key key = if matches_key_pattern key then ok key else throw_domain (invalid "key")

unfoldable pub assert_rollout : ℕ → Result ℕ
assert_rollout percentage =
    if ltb 100 percentage then throw_domain (invalid "rolloutPercentage") else ok percentage

unfoldable pub create : CreateFeatureFlagInput → Result FeatureFlag
unfolding assert_key assert_rollout
create input = do
  key ← assert_key input.key
  rollout_percentage ← assert_rollout (or_else input.rollout_percentage 100)
  ok (record {
    id = input.id;
    organization_id = input.organization_id;
    key = key;
    description = input.description;
    enabled = or_else input.enabled false;
    rollout_percentage = rollout_percentage;
  })

unfoldable pub changed_rollout : ℕ → Option ℕ → Result ℕ
unfolding assert_rollout
changed_rollout current none = ok current
changed_rollout current (some percentage) = assert_rollout percentage

unfoldable pub with_changes : FeatureFlag → FeatureFlagChanges → Result FeatureFlag
unfolding changed_rollout
with_changes flag changes = do
  rollout_percentage ← changed_rollout flag.rollout_percentage changes.rollout_percentage
  ok (record flag {
    description = or_else changes.description flag.description;
    enabled = or_else changes.enabled flag.enabled;
    rollout_percentage = rollout_percentage;
  })

-- `digest.readUInt32BE(0) % BUCKET_COUNT`, of `${key}:${subjectId}`
abbrev pub bucket : (String → ℕ) → String → String → ℕ
bucket digest key subject_id = digest (String.◌++◌ key (String.◌++◌ ":" subject_id)) % 100

unfoldable pub is_enabled_for : (String → ℕ) → FeatureFlag → String → Bool
is_enabled_for digest flag subject_id =
    if flag.enabled
    then (if leb 100 flag.rollout_percentage
        then true
        else if leb flag.rollout_percentage 0
        then false
        else ltb (bucket digest flag.key subject_id) flag.rollout_percentage)
    else false
