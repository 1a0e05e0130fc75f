-- ===== src/Lib.antt =====
-- encgit: end-to-end encrypted git over an untrusted server.
--
-- A client (internal/helper) keeps the refs and packs of a repository encrypted on a server. The
-- current refs and packs are named by a signed manifest, the members by a signed roster, and both
-- are chained by hashes; the client pins the last of each in a local state file. A server
-- (internal/server) stores blobs, a keyfile, and one pointer each to the manifest and the roster of
-- a repository, which are replaced by compare and swap, behind accounts, tokens and roles.
--
-- Files and what they model:
--   Library         the cryptography that is imported, as a record of functions
--   Hex             encoding/hex and internal/util/hash.go
--   Bech32          internal/bech32/bech32.go
--   Jcs             internal/manifest/jcs.go (canonical JSON)
--   Manifest        internal/manifest/manifest.go
--   Roster          internal/roster/roster.go
--   Keys            internal/agekey, internal/identity, internal/crypto
--   LocalState      internal/localstate/localstate.go
--   Exec            steps that change a state and may fail, with rules to reason on them
--   Split           the parts of strings and bytes that the code uses
--   Store           internal/store/store.go: the server as the client sees it, a record of arbitrary
--                   operations on some state; below it Ideal (the contents that its comments
--                   promise), Disk (the file system, a parameter), LocalFs (internal/store/localfs)
--                   and HttpStore (internal/store/httpstore, and the handlers behind it)
--   Git             internal/helper/git.go, over an arbitrary git executable
--   Client          internal/helper/engine.go: the engine, its keys, loadCurrent; below it Trust
--                   (roster.go), Fetch, Push, Members (membership.go) and Setup (Open, Init)
--   Server          internal/server: the tables; below it Passwords (auth.go), Accounts, Repos and
--                   Files (storage.go), Throttling, ClientIp and Slots (throttle.go), Http, Handlers,
--                   Login and Routes (server.go), and Histories, the states that calls reach
--   Command         cmd/encgit: Config (config.go), Tokens, Genesis and Login (transport.go), Seeds
--                   and Runs (main.go), Branches (clone.go), over an environment of files and JSON
--   Samples         a toy cryptography for the examples
--
-- How the code corresponds. A Go method that returns an error is a function to Result, or where it
-- acts on the engine an Exec, which gives the state back beside the error too. The engine is a record
-- with the server, the state file and the git repository in it. A transaction of the server is one
-- function from a database to a result. A handler takes the request, the time and the service (the
-- database, the files and the runs of argon2id so far) to a response and a service. What a step draws
-- from crypto/rand is an argument, or comes from the list of bytes in the engine.
--
-- Bounds. Versions and generations are natural numbers; the swap of the manifest wraps at 2 ^ 64, and
-- what is read from a header is below 2 ^ 64. The decimal digits of n are written with suc n rounds
-- of fuel, more than it has digits. The bits of bech32 are regrouped with one round per bit that is
-- held. Push tries 16 times, as maxPushRetries says, which is the fuel of its loop. The doubling of
-- the backoff takes one round per failure, on an int64 that wraps.
--
-- Not modelled: the flags, the terminal and the messages of the commands, what cmdPublishGenesis
-- opens, cmdInit, the order of cmdClone, the start of the server, the JSON decoders (a parameter)
-- and the JSON of the state file, faults of the server's disk and of SQLite, and a token file that
-- holds the JSON null, which decodes to a nil map. Times are whole seconds. In canonical JSON,
-- strings are lists of code points; elsewhere they are lists of bytes.
pub mod Prelude
pub mod Library
pub mod Hex
pub mod Errors
pub mod Jcs
pub mod Manifest
pub mod Roster
pub mod Bech32
pub mod Keys
pub mod LocalState
pub mod Exec
pub mod Split
pub mod Store
pub mod Git
pub mod Client
pub mod Server
pub mod Command
pub mod Samples
