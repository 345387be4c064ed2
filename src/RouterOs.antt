-- ===== src/RouterOs.antt =====
-- apps/api/src/lib/routeros-api.ts: the RouterOS binary API client.
pub mod Wire
pub mod Length
pub mod Frames
pub mod Reading
pub mod RoundTrip
pub mod Chunks
pub mod Runaway
pub mod Attributes
pub mod Uptime
pub mod Session
