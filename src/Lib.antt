-- ===== src/Lib.antt =====
-- ialbum keeps photo and video albums on storages that the user already has: it scans a directory
-- of a primary storage, indexes its media in SQLite, and copies them to a backup storage. Work runs
-- as jobs of a queue in the database.
--
-- The parts, and the files that model them:
--   Jobs: internal/jobs/queue.go. `Queue` is its table of jobs; each method is a function of the
--     table, of the clock and of the random part of the wait. `claim` gives a job and its lease to a
--     worker, `heartbeat` and `finish` are the statements of `run`. Jobs/Exclusive has the
--     interleavings of the statements of workers and API calls as a relation on a table and the
--     jobs held.
--   Storage: internal/storage/storage.go. `normalize_relative` is `NormalizeRelative`, on texts that
--     are lists of code points; the interface `Provider` is the record `Media.Types.Stores`.
--     Storage/Disk has the files below an `os.Root` and the functions of package os on them,
--     Storage/Local internal/storage/local/local.go: Local the reads, Change the writes, Listing the
--     pages of a directory. Storage/Webdav is internal/storage/webdav/webdav.go over a server,
--     Storage/Baidu internal/storage/baidu/baidu.go over a network: Reads, Upload, and Device for
--     the authorization. Calls has the calls, which change a token and the world.
--   Manager: internal/storage/manager/manager.go and internal/auth/secrets.go. Connections has the
--     changes of connections, Flows the device flow of Baidu, Readable `ValidateSecrets`, Tokens the
--     provider of Baidu with its `SaveToken`.
--   Media: internal/media/catalog.go, with the rows of internal/db/migrations/001_initial.sql.
--     Types has the tables and what is taken from outside; Names the paths, kinds and versions; Index
--     `GetAlbum`, `upsertObject` and the scans enqueued; Scan `walkProvider` and `Scan`; Transfer
--     `Upload`, `availableName` and `Backup`; Mirror the mirror deletion; Albums the creation,
--     change and removal of albums, tags and covers. Media/Transfer/OnDisk puts the local provider
--     in the place of the storages. Work runs the catalog's jobs as the workers of the queue do, with
--     their names in cmd/ialbum/main.go.
--   Auth: internal/auth/service.go and password.go. `Auth.Service` is the state of `Service` and the
--     tables of users and sessions.
--   Api: internal/api/handlers_media.go, byte ranges, names in archives, the content of a media item
--     (Content, with `OpenMedia` in Media/Open), uploads (Uploads), download tickets (Tickets) and
--     the archives of tickets (Downloads);
--     internal/api/server.go, the checks before a handler (Guards, and Guards/Trust for what they
--     ask of a request).
--   Base, Text, Sql, Time: what the parts share. Text has the functions of package strings that the
--     code uses, Sql the statements on a table that is the list of its rows.
--
-- The catalog calls the queue (`Media.Index.enqueue` is `Jobs.enqueue` with a new id) and the storages;
-- the queue runs handlers of the catalog, whose outcome is the argument of `Jobs.finish` (`Media.Work`
-- has the turn of a worker as one function; a handler that panics ends the process, and no `finish`
-- follows). The manager makes the providers that the catalog calls, from the settings and secrets of
-- a connection.
--
-- Conventions. Numbers are natural numbers: sizes, times since 1970 and counts are not negative here
-- and stay far below 2^63, so no operation wraps. A time is in nanoseconds, a column in seconds. A
-- call reads the clock once. A method of the catalog or of the authentication is a function, as it
-- runs alone: no other request comes between its statements, though the code has no lock there. The
-- queue's statements interleave in Jobs/Exclusive, and those on a download ticket in Api/Tickets/Once.
-- The links in a local directory lead out of its root or to nothing; a link that os.Root would follow
-- is not modelled. The database does not fail but for a scan and for the saving of a Baidu token; the
-- source of randomness does not fail. A UNIQUE constraint that the code meets is written out. Ids,
-- tokens and salts come from a parameter by number.
-- Recursion is on the length of a list but for: `walk`, on fuel, one for each page that is listed,
-- where no fuel left is `none`; `album_ids`, on one more than the media, which is enough for the pages;
-- `try_names`, on the 10000 tries of the source; `itoa` and `hex`, on the number
-- itself, which is more than its digits; `get_flow`, on the turns of a device flow, and `all_pages`,
-- on the pages of a directory, where no fuel left is `none`; the search of Baidu's `stat`, one for
-- each page, and `hash_blocks`, on one more than the bytes.
--
-- Outside: SQLite, the clock, SHA-256, Argon2, AES-GCM, base64, JSON, Unicode case and normal form,
-- and what Baidu and WebDAV servers answer, all parameters; for the catalog, the storages too.
-- Not modelled: the routes, the JSON and the plain handlers of the HTTP API, thumbnails, the
-- configuration, the start of the program, the web interface.
pub mod Api
pub mod Auth
pub mod Base
pub mod Jobs
pub mod Manager
pub mod Media
pub mod Sql
pub mod Storage
pub mod Text
pub mod Time
