-- ===== src/Repack.antt =====
-- The repacking of expert weights to fewer levels: tools/repack_expert_bits.py. A value of e2m1 is an
-- integer here, in halves, so that errors are integers too, in quarters (floats hold both exactly).
pub mod Codes
pub mod Levels
pub mod Sets
pub mod Files
pub mod Process
pub mod Occurring
pub mod Optimal
pub mod Ties
pub mod Nearest
pub mod Odd
pub mod Identity
pub mod Gate
mod Tests
