-- ===== src/Smtp/Archive/Budget.antt =====
-- What an SMTP connection does to the daily budget of the archive.
use picomx.Text.Bytes.{Bytes}
use picomx.Text.Unicode.{Unicode}
use picomx.Archive.Store.{StagedMessage, discard}
use picomx.Archive.Store as Delivered
use picomx.Smtp.Server.{Server}
use picomx.Smtp.Session.{Session}
