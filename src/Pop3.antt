-- ===== src/Pop3.antt =====
-- internal/pop3
pub mod Stream
pub mod Auth
pub mod Command
pub mod Mailbox
pub mod Session
pub mod Archive
pub mod Tests
