-- ===== src/Lib.antt =====
-- picomx: a small mail host. internal/smtp receives mail for its own domains, internal/archive keeps
-- it in a bare Git repository under a daily budget, and internal/pop3 serves it.
--
-- Parts and files
--
-- Prelude: Boolean tests on the native numbers, and lists over them.
-- Text: what Go's strings and strconv do with bytes. Bytes are numbers, and a text is a list of them.
--   Text/Unicode writes out the ASCII behaviour of the functions that know about letter case and
--   space; for other text they are a parameter. Text/Lines cuts a stream behind each line feed, as a
--   buffered reader gives it.
-- Archive/IdPath and Archive/MessagePath: internal/archive/idpath.go. messageRelativePath is
--   message_relative_path, messageIDFromPath is message_id_from_path, messagePath is message_path and
--   messageFromPath is message_from_path.
-- Archive/Directories, Archive/Directories/Index: internal/archive/directories.go. A map of counts is
--   a list of pairs. buildDirectoryIndex is build_directory_index and selectLeaf is select_leaf.
-- Archive/Quota, Archive/Store: internal/archive/quota.go, and Stage, Discard and Publish of
--   internal/archive/store.go with commitChanges of internal/archive/import.go. Each function is what
--   happens while the lock of the store is held, so the steps of concurrent connections are a list of
--   operations in any order (Archive/Store/Runs). The day of the clock and the answers of the file
--   system and of Git are arguments. An import that fails may have moved the branch: `commits` has what
--   is in Git then, and the store has failed.
-- Archive/Cache: internal/archive/cache.go. The list of recency holds the entries.
-- Archive/Reader: internal/archive/read.go. The state is the output of git cat-file that was not read
--   yet; what git writes for a request is a parameter. queryObject is query_object, objectInfo is
--   object_info, readObject is read_object, and Read and Close of blobReader are read and close_blob.
-- Archive/Tree: internal/archive/tree.go. parseTree is parse_tree, tree is tree and directory is
--   directory in Archive/Tree/Cached, with the cache. Archive/Tree/Source fills the interface Reading.
-- Archive/Mailbox: internal/archive/mailbox.go on the interface Reading of directories. Lookup is
--   lookup, ListAt is list_at with any callback, messageByID is message_by_id, OpenMessage is
--   open_message in Archive/Mailbox/Open. The maildrop of a snapshot is the list of its messages.
-- Archive/Deletion: DeleteAs of internal/archive/mailbox.go. What other connections do to the store
--   between the snapshot and the lock of a round is a function of the round.
-- Archive/Import: importCommitLocked of internal/archive/import.go, as the bytes it writes and the
--   replies that it accepts. Archive/Import/Stream has a reader of that stream.
-- Archive/Recovery: internal/archive/recovery.go, and the legacy import of internal/archive/git.go.
--   recoverMailboxTail is recover_mailbox_tail; Lstat of the file of an ID is a parameter.
-- Archive/Maintenance: internal/archive/maintenance.go. Maintain is maintain; which locks are free and
--   how the calls of git end are arguments.
-- Tls: internal/tlscert. loadCertificate is load_certificate, Reload is reload and RunReloadLoop is
--   run_reload_loop, on what is on disk and the time at each tick.
-- Systemd: internal/systemd/listeners.go. Listeners is listeners.
-- Picomxd: cmd/picomxd/main.go. openListeners is open_listeners.
-- Pop3/Auth, Pop3/Command, Pop3/Mailbox, Pop3/Session, Pop3/Stream: internal/pop3. serveConn is a step
--   for each line, on the record of its variables. The store behind the interface mailbox is a
--   parameter, and others may change it between two lines. streamMessage is stream_message.
-- Pop3/Archive: the interface mailbox filled by the archive, as cmd/picomxd/main.go fills it. A reader
--   that is leased to a message is the bytes that its reads give.
-- Smtp/Data, Smtp/Address, Smtp/Server, Smtp/Session: internal/smtp/server.go. serveConn is a step for
--   each command line, which takes the lines behind it as well, since DATA reads them. The delivery
--   store is an interface with one law, that a staged message is what its reader gave up to its end.
-- Smtp/Archive: that interface filled by the archive, as cmd/picomxd/main.go fills it, where temporary
--   files can be written.
-- Smtp/Policy: internal/config/policy.go. A policy may answer each question differently or panic.
--
-- Interaction: Smtp/Session calls Smtp/Policy for each recipient and each message, and a delivery
-- store, whose part Archive/Store plays in Smtp/Archive. Pop3/Session reads a mailbox and deletes from it once, when
-- the session quits; Pop3/Archive gives it the mailbox of the archive.
--
-- Bounds and fuel: numbers are the native ones, and unsigned arithmetic of 64 bits is written with
-- its remainder. An ID of 64 bits has at most 7 digits of base 1024, which is the fuel of id_digits;
-- a number of 64 bits has at most 64 digits in any base, which is the fuel of format_digits. The loop
-- over a tree takes a byte in each round, so its fuel is one more than the bytes; reading an object to
-- its end takes one byte at least in each read, so its fuel is one more than what remains. The rounds of
-- DeleteAs have no bound in the program: its fuel is any number above a round in which nobody commits.
--
-- Not modelled: sockets, TLS, deadlines, logs and signals; starting, watching and stopping the
-- subprocesses of Git and their idle timers; the start of a store and its files of state and receipt;
-- the rest of the wiring of the servers in the main program.
pub mod Prelude
pub mod Text
pub mod Archive
pub mod Pop3
pub mod Smtp
pub mod Tls
pub mod Systemd
pub mod Picomxd
