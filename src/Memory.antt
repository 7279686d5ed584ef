-- ===== src/Memory.antt =====
-- integrations/core/coldsnap_core/memory.py: the contracts for live GPU-memory hibernation.
pub mod Failures
pub mod Regions
pub mod Capabilities
pub mod Layouts
pub mod Statistics
pub mod Actions
pub mod Plans
pub mod Agreement
pub mod Requests
mod Examples
