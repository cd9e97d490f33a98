-- ===== src/Lib.antt =====
-- Enxame is a network of nodes that exchange encrypted messages: a core server keeps the nodes, the
-- users and the channels, and relays pass envelopes between the nodes that are connected to them.
--
-- Base: what all parts share. Base.Dict stands for Go's maps and sync.Map, Base.Text for the package
-- strings, and Base.Exec for methods that change an object and may return an error or panic; what was
-- written before an error or a panic stays written.
--
-- Relay (pkg/relay): Types has the records of session_manager.go and the envelope of
-- pkg/pb/v1/relay.pb.go. Sessions and Forward have the methods of SessionManager, one function for
-- each, with the names of the source: RegisterSession is register_session, and so on. A session is an
-- address into a heap, since a stream keeps its session when the manager has replaced it; a Go channel
-- is its buffer of at most a hundred envelopes and whether it is closed. Server has the methods of
-- RelayServer and transport.go; the input of a stream is a list of what stream.Recv returns, so the
-- loop of StreamMessages is a recursion on it and needs no fuel. The goroutine that writes to the
-- client is a step function on the same state and a loop over a list of what each round meets: the end of
-- the context, or an envelope that stream.Send sends or fails to send. Slices such as nodeID[:8] in log
-- lines panic on shorter ids, as in Go. Delivery, Routing, Lifecycle, History, Stream and Writer have the theorems.
-- encoding/json and the readings of the clock are parameters. A method is one atomic step: what
-- happens between two methods of other goroutines is a sequence of calls. Numbers are unbounded, and the
-- counters int64 in the source.
--
-- Crypto (internal/crypto/signature.go): node ids and the checks of signatures, with SHA-256 and Ed25519
-- as parameters. Crypto.Keys has NewVerifier with hex.DecodeString, and Crypto.Laws what an accepted
-- signature shows.
--
-- Auth (internal/server/auth_interceptor.go): the interceptor of unary calls, with ValidateJWT as a
-- parameter. The request is RegisterNodeRequest or another type; the full names of the methods are
-- those of pkg/pb/v1/admin_grpc.pb.go. Auth.Rules has the theorems.
--
-- Channel (internal/server/channel_manual.go): the channel server, its six operations, and the check of
-- governance signatures. NodeService.GetNode is a parameter that may fail, know no such node, or return
-- a key. An int64 is a number below 2^64, negative from 2^63 on (Base.Word); its decimal rendering runs on
-- fuel 20, enough for every such number. Channel.Governance, Channel.Time and Channel.Lockout have the
-- theorems.
--
-- Limiter (internal/server/interceptors.go): RateLimiter with the tick of its cleanup. Limiter.Window
-- compares it with the requests that were granted.
--
-- Nodes (internal/domain, internal/repository, internal/service and the bans in
-- internal/server/admin_server.go): Manager and Relays have the methods of NodeManager, over Redis as an
-- interface of the commands it uses (Nodes.Redis), whose laws are the documented behaviour of a
-- store of keys. Database has those of NodeRepository: a table is its rows by their primary key, and a
-- statement is a function on the tables that checks the lengths, the keys and the references which
-- CreateTables declares; a machine says what the time is and which statements fail (a nil slice for a
-- column that is NOT NULL among the reasons). Service has
-- NodeService, and Moderation has ModerationService. A time is a number of nanoseconds that does not
-- wrap around. A request is one step; the callback that RegisterNode starts in a goroutine and the
-- goroutines of subscriptions are left out. Moderation.Safety and its siblings have the theorems, and
-- Relays.Choice those on the choice of relays.
--
-- Users (internal/repository/postgres/user_repository.go, internal/server/auth_manual.go, the methods on
-- users in internal/server/admin_server.go, and internal/crypto/jwt.go): the table of users, whose
-- transactions are a count and an insertion, so that Users.Owner can interleave two of them; the server
-- of registrations and logins; and the tokens, with bcrypt and the JWT library as a record of functions
-- and their laws. How PostgreSQL reads a text as a UUID is a parameter. Users.Sessions follows a token into
-- the interceptor of Auth.
--
-- Cluster (internal/server/cluster_manual.go): the requests of other core servers, on the table of peers
-- of Nodes.Database.Peers. What is sent to other servers is a list of addresses and nodes.
--
-- Streams (internal/server/stream_manager.go): the streams of global events in their 256 shards, with the
-- hash as a parameter. Streams.Sharding compares them with one map of all nodes.
--
-- E2e (pkg/crypto/e2e/e2e.go): the four functions of end-to-end encryption over X25519, SHA-256 and
-- AES-GCM as a record of functions, whose laws are in E2e.Laws.
--
-- Storage (pkg/storage/sqlite.go): the tables of a client's database, and one function for each method;
-- Storage.Queries has those that read, Storage.Order the order of texts, and Storage.History the
-- theorems. A row is always scanned, and a limit is not negative.
--
-- Client (pkg/client_sdk/client.go and pkg/relay/client.go): the client as one record, with the envelopes
-- that it gave to the stream of its relay, the events that its callback got, and its files. Keys,
-- Handlers, Updates and Dispatch have the handling of messages, Sending and Hub what a user sends, Files
-- the chunks of files, and Core the calls to the core server, whose answer is a function of the request.
-- A call has one reading of the clock, one draw of a private key and one of a nonce; crypto/rand may fail
-- in a key exchange and in an encryption. encoding/json, Ed25519, the conversions between strings and
-- bytes and filepath are parameters. The loop that reads a file runs on fuel, one more than the file has
-- bytes. Calls names the calls of a client. Handshake, Delivery, Chunks, Transfer, Permissions, Channels,
-- Sessions and Governance have the theorems; Governance runs the client against the server of Channel.
--
-- Core (internal/server/grpc_server.go, RecoveryInterceptor of interceptors.go, health_check.go and
-- update_server.go): the messages and their conversions; Core.Server has the handlers over Nodes.Service,
-- RegisterNode behind the interceptor of Auth, the health and the updates, and Core.Answers the theorems.
--
-- Not modelled: of the core's gRPC server, the stream of global events and its broadcaster, and the
-- simulated grid; of the client, the choice of a server and of a relay, the worker of the grid, the list
-- of recent chats and the update of the program; and, as input and output around these, listening on
-- ports, the descriptors of gRPC, generated protocol code, and the programs under cmd and tools.
pub mod Base
pub mod Auth
pub mod Channel
pub mod Client
pub mod Cluster
pub mod Core
pub mod Crypto
pub mod E2e
pub mod Limiter
pub mod Nodes
pub mod Relay
pub mod Storage
pub mod Streams
pub mod Users
