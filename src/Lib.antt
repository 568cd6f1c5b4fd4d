-- ===== src/Lib.antt =====
-- The Nexus server of this repository, nexus_server/main.go: accounts, sessions, messages, calls,
-- servers with channels, moderation, the limiter of requests, and the update manifest; and the desktop
-- client, native_client: its messages and keys, updater, file transfer, audio codec and network audit.
--
-- The parts. A connection's read loop (handleConnections) takes one JSON message after the other and
-- switches on its type; each case checks who is logged in on the connection, calls the functions on
-- the database, and sends frames to the connections that the map of clients names. The moderation
-- endpoints (adminBanHandler, adminResolveReportHandler) change the same database and the same map
-- from HTTP requests. The limiter (ipLimiter) stands in front of both. The client sends its messages
-- over a connection, sealed for the recipient where it knows the key (SendMessage), handles what the
-- server sends (HandleIncomingMessage), asks the server for the manifest of updates, and sends files to
-- other clients over a data channel of WebRTC.
--
-- Which file models which part. Wire: NexusMessage and the structs in it. Db: the tables of initDB,
-- and Db.Keys: their keys. World: what a run of a handler meets outside the program. Sql: one
-- statement. Account: registerUser to authenticateUser (Login), tokens of sessions (Session),
-- password resets (Reset), login by QR code (Qr), the second factor (Totp), deleteAccount (Erase).
-- Social: Friends, Blocks, Convos, Offline, Search. Spaces: servers and channels. Server: the state
-- NexusServer with its connections. Handlers: one function for each case of the switch, named
-- handle_ and the message's type. Loop: the switch itself (dispatch), the read loop's turn (receive)
-- and the reachable states (Step, Reach). Admin: the moderation endpoints, with what initDB does with
-- PHAZE_ADMIN_USERS, health and statistics in Boot. Limiter: ipLimiter. Releases: the update manifest,
-- and in Received what a client decodes of it. Client: native_client/main.go in App (state), its
-- children Sending, Keys, Contacts, Results, Messages, Events and Inbox (HandleIncomingMessage), Chat,
-- Connect and Windows, and in Updater.Prompt; native_client/db_vault.go in Vault,
-- native_client/internal/crypto in Crypto, internal/updater in Version and Updater, internal/chat
-- in Ulaw (audio.go), Transfer and Calls (webrtc.go, audio.go), internal/sentinel in Stun
-- and Sentinel. The files below these that are not named here hold proofs;
-- Integrity holds those on the keys of tables, Client.EndToEnd one on client and server together, and
-- Tests concrete runs. A Go function f has the same name in words joined by _.
--
-- The state is a record: the tables as lists of rows in the order of insertion, the map of clients as
-- an association list, the connections as a function from numbers, and logs of the frames and mails
-- sent. A World gives the clock, the random bytes, bcrypt, TOTP, the environment, and for each SQL
-- statement whether it fails; every handler takes one, and nothing is assumed of it but what a
-- theorem names. A time is a number of nanoseconds, also
-- in a ChannelMsg; the text that the driver makes of one for an offline message is a field of World.
--
-- The client's state is a record too, PhazeApp, with the rows of its local database and the acts that
-- it does to the outside, in their order; a Host gives the clock, the box that seals, nonces, and which
-- statements fail. The updater works on a list of paths with their contents.
--
-- Bounds. Each loop of the source runs over a list, and is recursion on it, but for three on fuel. The
-- printing of a decimal number n has n + 1 rounds, of which each drops a digit (Prelude.Text.decimal);
-- the loop of parseSTUNMappedAddress has a round for each byte, of which each goes on by four or more
-- (Client.Stun); SendFile has a round for each byte, of which each takes one or more (Client.Transfer).
-- Numbers are unbounded; ids come from AUTOINCREMENT and times stay far below 2 ^ 63. parse_id keeps
-- the bounds of strconv.ParseInt.
--
-- Not modelled. A handler is one atomic step, so that the interleaving of two handlers' statements is
-- out of reach; so are JSON, HTTP and WebSocket themselves, the delivery of mail and short messages,
-- the metrics and the pages of main.go. Of the native client its windows, devices and sounds, WebRTC,
-- libp2p and the encoders are input and output and left out, as are what Apply does to the running
-- binary, the emoticons, and the generators of pictures and sounds; the web client is not Go. Goroutines
-- that a handler starts are taken to run at once. A failed commit leaves the database as it was.
pub mod Prelude
pub mod Wire
pub mod Db
pub mod World
pub mod Sql
pub mod Account
pub mod Server
pub mod Social
pub mod Spaces
pub mod Integrity
pub mod Handlers
pub mod Loop
pub mod Admin
pub mod Limiter
pub mod Client
pub mod Releases
pub mod Tests
