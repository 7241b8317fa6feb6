-- ===== src/State.antt =====
-- The state of a space that a member keeps (State and SubState of lib/decisions/state.js), and how
-- it agrees with the view that the decisions are applied to.
pub mod Data
pub mod Apply
pub mod Effective
pub mod Parts
pub mod Follows
pub mod Subs
pub mod Settings
pub mod Limits
pub mod Cuts
pub mod Touched
pub mod Untouched
pub mod Tests
