-- ===== src/Hydration.antt =====
-- integrations/core/coldsnap_core/hydration.py: extents and their digests, the choice of a backend, and
-- the two transfers through the native library.
pub mod Digests
pub mod Extents
pub mod Backends
pub mod Environment
pub mod Provenance
pub mod Transfers
pub mod Captures
pub mod Digits
pub mod Hexadecimal
pub mod Selection
pub mod Ordering
pub mod Texts
pub mod Evidence
pub mod Conduct
pub mod Delivery
mod Examples
mod Selections
