-- ===== src/Smtp/Tests/Archive.antt =====
-- An SMTP connection that delivers to the archive.
