-- ===== src/Lifecycle.antt =====
-- runtime/engine/coldsnap_lifecycle.py: the helper that puts a restored engine to sleep, wakes it, and reads and
-- rewrites the workers' evidence of it.
pub mod Machine
pub mod Client
pub mod Control
pub mod Sightings
pub mod Conduct
pub mod Clock
pub mod Waiting
pub mod Finishing
pub mod Evidence
pub mod Synchronize
pub mod Inventory
pub mod Readings
pub mod Attested
pub mod Updating
pub mod Publishing
pub mod Rewritten
mod Examples
