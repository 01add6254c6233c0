-- ===== src/Common.antt =====
-- The parts that every module of the program shares (src/common).
pub mod Value
pub mod DeepMerge
pub mod Exec
pub mod Repository
pub mod Pagination
pub mod Interleaving
