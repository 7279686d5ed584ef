-- ===== src/Validation.antt =====
-- integrations/core/coldsnap_core/validation.py: payloads accepted by a cached record or by hashing.
pub mod Stats
pub mod Hashing
pub mod Records
pub mod Payloads
pub mod Admissions
pub mod External
pub mod Rpc
pub mod Admitted
pub mod Opening
pub mod Acceptance
pub mod Matching
pub mod Contents
mod Examples
mod Admittance
