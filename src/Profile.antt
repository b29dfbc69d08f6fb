-- ===== src/Profile.antt =====
-- Runner profiles, `internal/state/profile_policy.go`: the policy of a profile and the migration of the
-- profiles that have none.
pub mod Policy
pub mod Migration
