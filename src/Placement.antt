-- ===== src/Placement.antt =====
-- The resident expert pools and promote-on-miss (tools/dsv41_5090/cpu_tier/placement_manager.py).
pub mod Pool
pub mod Store
pub mod Log
pub mod Manager
pub mod Device
pub mod Launch
pub mod Initial
mod Tests
