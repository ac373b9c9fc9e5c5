-- ===== src/Tls.antt =====
-- internal/tlscert
pub mod Hostnames
pub mod Load
pub mod Manager
pub mod Serving
pub mod Tests
