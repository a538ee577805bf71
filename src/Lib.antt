-- ===== src/Lib.antt =====
-- gomyadmin: an admin back end over a database, in Go. This library models its core logic.
--
-- A request comes in with a session cookie (pkg/auth/session.go), passes the rate limiter
-- (pkg/auth/rate_limit.go) where it logs in, and runs as an actor, whose permissions
-- (pkg/admin/context.go, pkg/rbac/rbac.go) decide what it may do. The handlers of pkg/server check the
-- permission, read the request, call the store, which turns it into SQL for a connection pool, and
-- record what was done in the audit log. A request with an API key (pkg/auth/apikey.go) runs as the
-- actor of the key instead. pkg/adapters/sqlstore is the same store over database/sql, and
-- pkg/adapters/mongostore over MongoDB. pkg/migrate brings the database up to date, and pkg/storage
-- keeps the files. pkg/pagination, pkg/filters and pkg/postgres offer the same way from a list query to
-- SQL as a library, pkg/audit and pkg/cache the in-memory stores. pkg/admin is the registry of the
-- resources, and internal/ the command line that generates them.
--
-- Base, Text and Dict: what the parts share. A Go string is the list of its bytes, an int a number
--   with its wrap-around at 64 bits, an error a result, a map an association list. The order of the
--   list stands for the order in which `range` visits the map, so a theorem about every list holds
--   for every such order.
-- Access: Actor.HasRole, Actor.Can and matchPermission of pkg/admin/context.go, the authorizer of
--   pkg/rbac/rbac.go and the resolvers of pkg/tenant/tenant.go. Access/Grants is about the matchers,
--   Access/Roles about the authorizer.
-- Paging: Parse and Meta of pkg/pagination/pagination.go; Paging/Bounds its bounds and overflow.
-- Filters: Parse of pkg/filters/filters.go, with its sorts and filter keys. Filters/Checked is about
--   accepted queries, Filters/Keys about the keys.
-- Query: the query builder of pkg/postgres/query.go. Query/Quoting is about identifiers, Query/Shape
--   about values in the text, Query/Clauses and Query/Scope about the clauses behind the tenant's,
--   Query/Accepts about parsed queries.
-- RateLimit: RateLimiter.Allow of pkg/auth/rate_limit.go; RateLimit/Window counts the accepted calls,
--   and RateLimit/Recovery is about calls after a pause.
-- Cache: MemoryCache of pkg/cache/cache.go. Get is two steps, between which other calls may come;
--   Cache/Race is about such a call, Cache/Expiry about calls one after the other.
-- Session: the store interface of pkg/auth/session.go as a record of operations and laws, which
--   Session/Memory fills for MemorySessionStore, and over which Session/Manager models Start, End and
--   Middleware of SessionManager. Session/Csrf is CSRFMiddleware of pkg/auth/csrf.go.
--   Session/Cached is CacheSessionStore of pkg/auth/cache_session_store.go over the interface of
--   pkg/cache, and Session/Cached/Lifetime about how long its sessions live.
-- AuditLog: MemoryStore of pkg/audit/audit.go, with List in AuditLog/Listing. AuditLog/Postgres is
--   PGStore of pkg/audit/pg_store.go, and AuditLog/Postgres/Asked compares the two.
-- ApiKeys: PGAPIKeys of pkg/auth/apikey.go over a table with the statements that it runs.
--   ApiKeys/Handlers has the handlers of pkg/server/handler_api_keys.go and actorMiddleware of
--   pkg/server/handler.go, ApiKeys/Keys is about a key from its creation to its end, ApiKeys/Scopes
--   about who gets in with which permissions.
-- OAuth: OAuthStateManager of pkg/auth/oauth.go, and in OAuth/Handlers handleOAuthStart and
--   handleOAuthCallback of pkg/server/handler_auth.go over any session store. OAuth/State is about what
--   Verify accepts, OAuth/Handlers/Login about who logs in.
-- Passwords: HashPassword and VerifyPassword of pkg/auth/password.go; Passwords/RoundTrip is about a
--   hash that is read back.
-- Registry: the registry of pkg/admin/app.go, as a heap of resources and a map of addresses, with the
--   methods of pkg/admin/resource.go in Registry/Resources, those of pkg/admin/field.go in
--   Registry/Fields, and the names and slugs in Registry/Names. Registry/Reached is about what holds
--   after any calls, Registry/Found about what is found. Server/Meta/Registered makes the metadata of
--   the server from it (pkg/server/meta.go).
-- Scaffold: the generators of the command line. Scaffold/Columns has internal/introspect/mapping.go
--   and the names of internal/cli/cli.go, Scaffold/Files the writing of projects and resources of
--   internal/generator/generator.go over a disk, Scaffold/Schema runGenerateFromSchema of
--   internal/cli/cli.go. Scaffold/Files/Project is about what InitProject leaves on the disk.
-- MongoStore: pkg/adapters/mongostore/mongostore.go over a driver. Its filters are in MongoStore, its
--   operations in MongoStore/Records; MongoStore/Scope is about the filters, MongoStore/Deletes about
--   DeleteMany.
-- Migrate: FromFS and Runner of pkg/migrate/migrate.go; Migrate/Applied is about what
--   Up leaves, and Migrate/Stopped about one that fails.
-- Storage: Memory of pkg/storage/memory.go, with Storage/Objects about its objects. Storage/Local is
--   safePath of pkg/storage/local.go with filepath.Clean and filepath.Join, Storage/Local/Parts about
--   the parts of a path, and Storage/Local/Under about where its paths lie.
-- SqlStore: pkg/adapters/sqlstore/sqlstore.go. Its SQL is in SqlStore, its operations List, Get,
--   Create, Update, Delete and DeleteMany in SqlStore/Records; SqlStore/Text and SqlStore/Marks are about
--   the placeholders, SqlStore/Deletes is about DeleteMany.
-- Database: the values of a record and the pool of connections, for Server, Migrate and SqlStore.
-- Server: pkg/server. Server/Meta has the metadata of meta.go and the helpers of handler.go, and
--   Server/Meta/Ids is about cleanIDs. Server/Sql and Server/Store are the SQL texts, the values and
--   the rows of store.go, Server/Records its operations List, Get, Create, Update, Delete, DeleteMany
--   and FileKey over a pool. Server/Clauses and Server/Scope are about the condition of List,
--   Server/Atomic and Server/Written about what the other operations change. Server/Request and Server/Handler are the
--   handlers of handler_crud.go and the bulk action of handler_actions.go, with the check and the
--   audit of handler.go, and Server/Guard is about them. Server/Setup has New and Close of server.go,
--   and Server/Setup/Pools is about their pools.
--
-- Loops are recursions on the list they go over. The numbers of a SQL text are printed by a recursion
-- on fuel n + 1 for the number n, and a number has at most that many digits; white space is trimmed
-- with the length of the string as fuel, since each round drops a byte. Times and durations are numbers
-- of nanoseconds, and 0 is the zero time. A critical section is one step. What pgx, net/http, fmt,
-- encoding/json, the password hash and the random source do is a parameter of the definitions: the
-- pool is a state with its queries and executions, and the readings of the clock and the random tokens
-- are arguments. Values that are only shown, such as labels, are left out.
--
-- What the program relies on of other code is a record of laws. Laws is one in ApiKeys/Keys (a row is
-- found by its prefix, a revoked row is revoked), in Migrate/Applied (a transaction begins with the state
-- of the database, a recorded migration is applied), in Session/Cached/Lifetime (a value in a cache is
-- found while it lives), in OAuth/State (base64 and JSON are read back) and in AuditLog/Postgres/Asked (a
-- condition is read as its column against the argument of its number). Documented is one in
-- Passwords/RoundTrip (a key has the length asked for), in Scaffold/Files/Written (a write sets its file
-- and no other) and in Server/Setup/Pools (closing closes one pool). Each is filled by a small instance
-- in the tests or by the code's own cache.
--
-- Letters, digits and cases are those of ASCII in the names of resources, columns and files.
--
-- Not modelled: the adapters over GORM and Redis, the session table, the audit and file
-- queries of the SQL and MongoDB adapters, the requests to OAuth providers, login by password, the file
-- handlers, the files of the local storage and S3, the handlers and forms of actions, the OpenAPI
-- document, the templates of the generator with their rendering, the parsing of flags and the printing
-- of the command line, and the templates of new projects. They are independent of the parts above, or
-- mostly calls of other packages.
pub mod Base
pub mod Text
pub mod Dict
pub mod Database
pub mod Access
pub mod Paging
pub mod Filters
pub mod Query
pub mod RateLimit
pub mod Cache
pub mod Session
pub mod AuditLog
pub mod Migrate
pub mod ApiKeys
pub mod OAuth
pub mod Storage
pub mod SqlStore
pub mod Passwords
pub mod Registry
pub mod Scaffold
pub mod MongoStore
pub mod Server
