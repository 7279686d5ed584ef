-- ===== src/Topology.antt =====
-- integrations/core/coldsnap_core/topology.py: the execution graph, and the worker and global rank that
-- a process finds in it.
pub mod Graph
pub mod Workers
pub mod Ranks
pub mod Worlds
pub mod Identity
pub mod Spelling
pub mod Settling
pub mod Placement
pub mod Holding
pub mod Uniqueness
mod Examples
