-- ===== src/FeatureFlags.antt =====
-- libs/modules/feature-flags: who sees a feature.
pub mod Flag
pub mod Rollout
mod Tests
