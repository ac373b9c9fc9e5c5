-- ===== src/Smtp.antt =====
-- internal/smtp
pub mod Data
pub mod Address
pub mod Policy
pub mod Server
pub mod Session
pub mod Archive
pub mod Tests
