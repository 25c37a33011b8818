-- ===== src/Modules.antt =====
-- The selection of kernel modules (src/modules.rs): names and paths, the files of the tree, the
-- index, the closure over its dependencies, and the unpacking of what is chosen.
pub mod Sets
pub mod Names
pub mod Tree
pub mod Index
pub mod Closure
pub mod Resolve
pub mod Packing
mod Tests
