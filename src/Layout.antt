-- ===== src/Layout.antt =====
-- integrations/vllm/coldsnap_layout.py: saved allocations are matched with those of a fresh process by the
-- tensors that refer to them.
pub mod Allocations
pub mod Replay
pub mod Groups
pub mod Placement
pub mod Targets
pub mod Fingerprints
pub mod Replayed
pub mod References
pub mod Correctness
mod Examples
