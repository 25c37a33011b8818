-- ===== src/Planner.antt =====
-- Guest-physical address planning (src/planner.rs).
pub mod Fit
pub mod Plan
mod Tests
