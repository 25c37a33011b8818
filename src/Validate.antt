-- ===== src/Validate.antt =====
-- Devicetree validation in the boot stub (deps/tatu/src/validate.rs): regions, the merged tree,
-- and the host overlay.
pub mod Region
pub mod Merged
pub mod Host
mod Tests
