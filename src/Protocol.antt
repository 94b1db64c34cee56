-- ===== src/Protocol.antt =====
-- protocol/: detectors for single inputs, a module for each.
pub mod Ssrf
pub mod Xxe
pub mod HeaderInjection
pub mod HostHeader
pub mod RequestSmuggling
pub mod OpenRedirect
pub mod Cors
pub mod WebSocket
pub mod DnsRebinding
pub mod Grading
