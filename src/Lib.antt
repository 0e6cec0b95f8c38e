-- ===== src/Lib.antt =====
-- A model of the proxy control plane (a Go program: internal/*) and the theorems that make it
-- correct. The program keeps customers, proxy nodes, proxy accounts and tokens in PostgreSQL, serves
-- an HTTP API over them, and reconciles the users of each node's Xray runtime with the accounts that
-- are bound to the node.
--
-- The files, and the code that each is about:
--   Base            Go strings as byte lists with the functions of the package `strings` that the
--                   program calls (ASCII white space and case), maps, sorting, signed integers.
--   Domain          internal/domain/models.go: the entities, customer status, runtime e-mail tags.
--   Store           internal/store: the tables as lists of rows, errors, and actions on the tables;
--                   `Exec` gives the tables back beside an error, and `transaction` undoes them.
--   Store.Nodes     setNodeDefaults, validNodeRuntime, validPort, validRuntimeAPIConfig,
--                   CreateProxyNode, UpsertProxyNodesByName, UpdateProxyNode, DeleteProxyNode.
--   Store.RefreshTokens   CreateAuthRefreshToken, RotateAuthRefreshToken and the revocations.
--   Store.Customers, Store.Accounts, Store.Tokens   the customers, the proxy accounts with their
--                   bindings to nodes, the subscription tokens and the audit log of store.go.
--   Store.Traffic   internal/store/traffic.go: RecordTrafficUsageBatch and TrafficUsageTotal.
--   Store.Maintenance   internal/store/maintenance.go: MaintenanceCleanup and its dry run.
--   Store.Access    internal/store/domain_access.go: recording and listing of domain accesses.
--   Store.Listings  the listings of store.go that handlers serve, and SubscriptionData.
--   Store.Migrations  internal/store/migrations.go: the files, the loop and each transaction.
--   Store.LegacyImport  internal/store/legacy_import.go: the import of accounts, and in Links that of a
--                   file of subscription links with its matching of links to nodes.
--   Store.Targets   internal/store/runtime_sync.go: the users that a node is to serve.
--   RuntimeSync     internal/runtimesync/sync.go: SyncNode with its two loops, over the interfaces
--                   Store and RuntimeClient as records of functions.
--   RuntimeSync.Backed   the tables of the store as the implementation of that interface.
--   Subscription    internal/subscription/subscription.go: Build, the links, and what they use of
--                   net/url and encoding/base64.
--   Subscription.Parse  internal/subscription/parse.go: ParseLinks and what it calls.
--   TrafficSync     internal/trafficsync/sync.go: CollectNode, and QueryTraffic with its parsing of
--                   counters of internal/runtimesync/xray.go.
--   Config          internal/config/config.go: ValidateServer, the checks before the server starts,
--                   with ParseDatabaseEncryptionKey of internal/security/security.go.
--   Config.Load     Load of the same file: the environment and the defaults.
--   XrayConfig      internal/xrayconfig/xrayconfig.go: VLESSClients.
--   Cli             internal/cli: applyServiceOptions, parseRetentionDuration and
--                   maintenanceCleanupInputFromConfig.
--   Security        internal/security/security.go: access tokens, encryption, password hashes,
--                   identifiers and digests, with base64.RawURLEncoding and encoding/hex (RawUrl).
--   HttpApi         internal/httpapi/server.go: redactLogPath, and in children the actions that the
--                   handlers are made of (Action), the logins, the refresh and requireRole (Auth),
--                   the patch functions (Patch), and the handlers for customers (Customers), nodes
--                   (Nodes), accounts (Accounts), subscription tokens and subscriptions
--                   (Subscriptions), traffic (Traffic) and domain accesses (Accesses).
-- Definitions carry the Go names in snake case. Children of a module hold its proofs, and modules
-- called Tests hold runs on concrete inputs.
--
-- How the code is read. An instant is a natural number that counts from Go's zero time, so IsZero is
-- a test for 0 and UTC() is the identity. A nil pointer is `none`. A Go `int` is a signed integer.
-- A byte count of traffic is an int64, held as the number below 2^64 that it is congruent to: the sums of
-- the traffic synchronisation wrap (% 2 ^ 64), and the table refuses what stands at 2^63 or above,
-- being negative. The totals of traffic and the daily sums, which SQL makes, are plain sums: they are
-- taken to fit in an int64. What NewID returns is an argument, an error included. A table is a list of
-- rows in the order of insertion; an INSERT checks the keys, unique indexes and foreign keys of
-- migrations/*.sql, and those of its CHECK constraints that the code before it does not ensure; a
-- statement that the schema allows succeeds, and failures of the connection are left out. GORM's
-- CreatedAt and UpdatedAt are filled in from the clock as GORM documents it. A date in SQL is a day of
-- UTC, and now() is the clock of the call.
--
-- Parameters. The runtime's gRPC API is the record `RuntimeSync.RuntimeClient`; what is relied on is
-- `RuntimeSync.Laws.IsRuntime`: a listing shows the table of users, each e-mail once, an operation
-- that succeeds has its effect, and none touches another e-mail. SHA-256 is the parameter `digest`,
-- the decoding of base64.StdEncoding is `decode`, and the runtime's answer to a request for its
-- counters is an argument of `TrafficSync.xray_client`. HMAC is `hmac` or `prf`, AES-GCM is
-- `Security.Encryption.Aead` with the laws `IsAead`, json.Marshal of a string is
-- `HttpApi.Action.Request.json_string`, the JSON of the claims is `Security.AccessToken.ClaimsJson`
-- with the laws `IsClaimsJson`, json.Unmarshal of the fields of a patch is `HttpApi.Patch.Json`, float64 is `HttpApi.Traffic.Float64`,
-- url.Parse with the decodings of base64 is `Subscription.Parse.Library`, and random bytes are arguments.
--
-- Handlers. A request is a record of what the handlers read of it; its clock is read once, and its
-- decoded body is an argument, `none` where it does not bind. A reply is a value, or the status and
-- the message of an error; the status and the headers of a success are left out.
--
-- Loops are structural recursions on lists or on the rounds that are left. The loop of intString runs
-- on fuel 20, the room of its buffer, which is enough for every number below 10 ^ 20.
--
-- Not modelled: logging, the commands, flags, files and tickers of the command line, the routes and the
-- health check of the HTTP server, gRPC connections, AutoMigrate, and the summary of domain accesses.
pub mod Base
pub mod Domain
pub mod RuntimeSync
pub mod Store
pub mod Subscription
pub mod TrafficSync
pub mod Config
pub mod XrayConfig
pub mod Cli
pub mod HttpApi
pub mod Security
