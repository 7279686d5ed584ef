-- ===== src/KvCapacity.antt =====
-- integrations/vllm/coldsnap_vllm_kv_capacity.py: the guard on the size of the KV cache.
pub mod Guard
pub mod Envelope
pub mod Hook
pub mod Installation
mod Examples
