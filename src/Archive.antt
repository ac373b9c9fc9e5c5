-- ===== src/Archive.antt =====
-- internal/archive
pub mod IdPath
pub mod MessagePath
pub mod Directories
pub mod Errors
pub mod Quota
pub mod Store
pub mod Cache
pub mod Reader
pub mod Tree
pub mod Mailbox
pub mod Deletion
pub mod Import
pub mod Recovery
pub mod Maintenance
pub mod Tests
