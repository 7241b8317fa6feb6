-- ===== src/Decisions.antt =====
-- The decision log of a space: lib/decisions/apply.js, which applies decisions to the view that
-- every member holds.
pub mod Data
pub mod View
pub mod Chain
pub mod Writers
pub mod Cuts
pub mod Handlers
pub mod Apply
pub mod Seats
pub mod Effects
pub mod Owner
pub mod Steps
pub mod Tests
