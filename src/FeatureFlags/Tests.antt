-- ===== src/FeatureFlags/Tests.antt =====
-- A flag for a quarter of the subjects, raised to a half.
use nestjs_fastify_nx.Common.{◌≡◌, refl, arith, true, none, some}
use nestjs_fastify_nx.Errors.{ok}
use nestjs_fastify_nx.FeatureFlags.Flag.{
  FeatureFlag, CreateFeatureFlagInput, FeatureFlagChanges, create, with_changes, is_enabled_for,
  matches_key_pattern,
}
use nestjs_fastify_nx.FeatureFlags.Rollout.{
  IsValid, create-IsValid, with_changes-IsValid, with_changes-keeps,
}

abbrev input : CreateFeatureFlagInput
input = record {
  id = "f1";
  organization_id = "o1";
  key = "checkout.new-flow";
  description = none;
  enabled = some true;
  rollout_percentage = some 25;
}

abbrev quarter : FeatureFlag
quarter = record {
  id = "f1";
  organization_id = "o1";
  key = "checkout.new-flow";
  description = none;
  enabled = true;
  rollout_percentage = 25;
}

abbrev raise : FeatureFlagChanges
raise = record { description = none; enabled = none; rollout_percentage = some 50 }

abbrev half : FeatureFlag
half = record quarter { rollout_percentage = 50 }

created : create input ≡ ok quarter
unfolding create
created = refl

raised : with_changes quarter raise ≡ ok half
unfolding with_changes
raised = refl

quarter-IsValid : IsValid quarter
quarter-IsValid = create-IsValid input quarter created

half-IsValid : IsValid half
half-IsValid = with_changes-IsValid quarter raise half create-IsValid_lem raised
  where
    create-IsValid_lem : IsValid quarter
    create-IsValid_lem = (omega arith, unfold matches_key_pattern in refl)

with_changes-keeps_example : is_enabled_for (λ text. 24) half "ann" ≡ true
with_changes-keeps_example =
    with_changes-keeps (λ text. 24) quarter raise half "ann" raised refl (omega arith)
      (unfold is_enabled_for in refl)
