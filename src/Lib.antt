-- ===== src/Lib.antt =====
-- billiards-online: the server of an online billiards game, in Go. Players open rooms
-- (internal/rooms), take seats and declare themselves ready; the host starts the match
-- (internal/matches), which a goroutine of its own, the match actor, then owns until its end.
-- All state but the registry of actors is in PostgreSQL, reached through platform/postgres.
--
-- Files:
-- - Base: the shared helpers (Boolean tests, lists, sorting, texts, integers, results).
-- - Schema: the tables of migrations/, as lists of rows, and their constraints.
-- - Postgres: platform/postgres/postgres.go (DB, InTx), as a state monad with errors over
--   the tables. Its Env says which calls fail, what the clock shows and which random values
--   are drawn, so a theorem about every World holds for all faults and all random values.
--   Postgres/Laws holds the rules of the two-state logic (Triple, Keeps) that the proofs use.
--   Postgres/Connect is Connect, over the answers of pgx.
-- - Logging: platform/logging/logging.go.
-- - Http: what the handlers share, a reply to a service's result.
-- - Security: platform/security. Crypto lists what is called of other packages; Password and
--   Token are password.go and token.go, and Password/Verify is about hashes that are checked
--   again; RateLimit is ratelimit.go, with RateLimit/Sweeping about its sweeper.
-- - Auth: internal/auth. Model, Statements, Repository and Service are model.go, the SQL of
--   repository.go, its functions, and service.go; Http is handler.go, Limited
--   its signup and login with the rate limiter, and Middleware is middleware.go.
--   Revocation and Kept follow facts through the statements and the operations; Run is about
--   histories of calls, Access about who gets in, Issued about the session of a login,
--   Usable and Admission about tokens that were handed out, Logins about accounts and their passwords.
-- - Rooms: internal/rooms. Model is model.go; Statements is the SQL of repository.go;
--   Repository is its functions; Service and Start are service.go (Create, Join, JoinByCode,
--   Leave, SetReady, Detail; Start). Invariant says what holds of the tables between calls;
--   Rows, Sound, Seating, Leaving, Founding, Starting and Safety follow it through each call;
--   Listing is pagination.go and ListPublicOpen, with Pages about cursors and sizes, Order
--   about what a cursor stands for, Cuts about the extra row, and Complete about a client
--   that reads all pages; Http is handler.go and response.go, with Answers about it; Privacy
--   is about who sees a room, Codes about join codes; Run is about histories of calls;
--   Capacity about how many members a room has; Seats, Sides and Started are about the match
--   that a room becomes.
-- - Matches: internal/matches. Model, Statements, Repository and Service are the files of
--   these names; Created is about CreateInTx; Turn is turn.go; Actor and Actor/Inbox are
--   actor.go (Stop in the latter), and Actor/Lifecycle is about a whole life, Actor/Writes
--   and Actor/Stored about the row that the actor writes; Registry is registry.go, and
--   Registry/Members and Registry/Entries about what its map says; Listing is pagination.go
--   and ListForUser, with Played about it; Http is handler.go and response.go.
-- - Config: platform/config/config.go, with Rules about what is loaded and Origins about the
--   allowlist.
-- - Protocol: game/protocol/protocol.go.
-- - Websocket: platform/websocket/conn.go. Follows compares what was accepted with what was
--   written; Order is about all that can happen to a connection, Drain about a socket that
--   works.
-- - Realtime: internal/realtime. Router is router.go and Gateway gateway.go; Numbering is
--   about the numbers that are given out, Rising about those that a client sees, Explaining about
--   how each frame is answered.
-- - Server: apps/server/cmd/server. Middleware is middleware.go, with Headers, Recovering and
--   Finishing about it; Routes is newRouter of main.go with the RegisterRoutes of each
--   package, with Guarding and OwnProfile about who may do what and Refused about what a refused
--   request leaves behind; Process is run and shutdown of main.go, with Ending and Orphans about
--   them; Internal is internal_router.go and healthcheck.go.
-- - Users: internal/users. Model, Statements, Repository and Service are the files of these
--   names; Shapes is about the validators, Profiles about what others see, Invariant about
--   registering, Frame about the tables that registering touches; Http is handler.go, and
--   Editing is about whose profile it edits, and Edited about what is stored.
--
-- Correspondence: a Go function of a file is the definition of the same words in the module
-- above, a closure given to InTx is a definition of its own with the suffix _in_tx. SQL
-- statements run one at a time: each handler that reads and then writes a room takes its row
-- lock, so the calls on one room are serialised, and a history is a list of calls.
--
-- Concurrency of a connection: each send of the reader, each turn of the write pump and each
-- close is atomic, as are the operations of Go's channels and of the socket, and a history is
-- any list of them. A frame's handler is the list of the calls it makes of its connection, and
-- the pump may run between any two of these.
--
-- Bounds: uuids and times are natural numbers, uuid.Nil is 0; slots and indices are natural
-- numbers, since the code and the CHECK constraints keep them in 0..1. The three attempts of
-- Create are the recursion's fuel, as they are the code's own. itoa recurs on the
-- places of its buffer, which are enough for every int. A client that reads all pages is given a
-- number of requests, of which one more than there are rooms is enough. Nothing else runs on fuel:
-- an actor's life is a recursion on the list of the wakes it sees.
--
-- Requests: a request is the route that gin finds for it, with its parameters, cookie and body as
-- parsed. Server/Routes runs it through the chain of its route; the four middlewares of every
-- request are about any handler, one that panics included, and have a state of their own, the
-- gin.Context with the response as far as it is written.
--
-- Not modelled: cancellation of contexts other than as a failing call, panics inside a
-- transaction, what handlers log, JSON, and concurrent transactions below the row locks. The
-- integration tests' harness (platform/postgres/pgtest) is no part of the program. What the
-- driver does is taken as pgx documents it: Query reports the errors of sending, and reading
-- the rows the others.
pub mod Base
pub mod Schema
pub mod Postgres
pub mod Logging
pub mod Http
pub mod Security
pub mod Users
pub mod Auth
pub mod Rooms
pub mod Matches
pub mod Config
pub mod Protocol
pub mod Websocket
pub mod Realtime
pub mod Server
