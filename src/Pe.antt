-- ===== src/Pe.antt =====
-- The PE32+ writer (src/pe.rs: build_pe): sections, the string table, the assignment of file
-- offsets, and the bytes that are written.
pub mod Section
pub mod Place
pub mod Write
pub mod Total
pub mod Fill
mod Tests
