-- ===== src/Checkpoint.antt =====
-- integrations/core/coldsnap_core/checkpoint.py: the registry of resources that cross a checkpoint, and the
-- search for io_uring descriptors that stands before it.
pub mod Rings
pub mod RingFree
pub mod Registry
pub mod Phases
pub mod Steps
pub mod Rollback
pub mod Atomicity
pub mod Naming
mod Examples
