-- ===== src/Configure.antt =====
-- poc/engine/spacekeeper/capacity/capacity.go: how the keeper chooses, makes and applies spaces until a
-- configured size is filled. Sizes are Go ints that are not negative, and stay below the target's
-- 2 ^ 63, so that no sum wraps.
pub mod Fill
pub mod Bounds
pub mod Outcome
pub mod Generate
pub mod Apply
pub mod Applied
pub mod InUse
pub mod Configured
mod Tests
