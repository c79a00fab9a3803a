-- ===== src/Prefill.antt =====
-- The prefill path of the CPU tier (tools/dsv41_5090/cpu_tier/vllm_moet_cpu_tier.py): a call that is too
-- large for the compact path runs on the resident experts, and the missing ones are streamed in rounds
-- through one scratch set, or through two in turn, with the next round staged ahead.
pub mod Routing
pub mod Rounds
pub mod Calls
pub mod Reads
pub mod Missing
pub mod Stages
pub mod Loop
pub mod Sums
pub mod Slices
pub mod Widths
pub mod Pins
pub mod PinLoop
pub mod Steps
pub mod Released
pub mod Created
pub mod Exact
pub mod Wanted
mod Tests
