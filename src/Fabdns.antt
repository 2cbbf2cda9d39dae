-- ===== src/Fabdns.antt =====
-- pkg/fabdns: the CoreDNS plugin that answers queries for global services.
pub mod Errors
pub mod Parse
pub mod Records
pub mod Global
pub mod Serve
pub mod Setup
pub mod Directives
pub mod Tests
mod Configs
