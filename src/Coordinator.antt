-- ===== src/Coordinator.antt =====
-- runtime/shared/coldsnap_coord.py: the client of the coordinator, its requests and its framed replies.
pub mod Wire
pub mod Addresses
pub mod Actions
pub mod Client
pub mod Streams
pub mod Returns
pub mod Replies
pub mod Numbers
pub mod Ports
pub mod Parsing
pub mod Requests
pub mod Operations
mod Examples
