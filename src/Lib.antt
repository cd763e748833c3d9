-- ===== src/Lib.antt =====
-- Tidewise AI, the Go backend: a model of the Source catalogue, of the identities of domain objects,
-- of the migration of the PostgreSQL schema, of the stock catalogue, of the research graph's requests, of
-- the user service and of the mini app's reports and followed stocks, and what they are shown to do.
--
-- The parts and their files. Paths are those of the repository; the Go package stands first.
--
-- - data-service/backend/internal/core/id/id.go: Identity.antt. `prefix`, `new`, `derive`, `from_uuid`,
--   `parse` and `is` are the functions of the same names; a kind is its prefix.
-- - data-service/backend/internal/biz/source/biz.go: Source.antt has the types and constants of the use
--   case, Source/Config.antt `compactConfig` and `validateConfig`, Source/Validation.antt
--   `validateSource`, Source/Envelope.antt `snapshotEnvelopeSize` and `validateProjectedSet`,
--   Source/Prepare.antt what is done before a transaction, Source/UseCase.antt `CreateDynamic`,
--   `Update` and `Delete`, Source/Publish.antt `PublishFixed` and `PublishDynamicCatalog`,
--   Source/Same.antt the comparison `sameSource`, Source/Read.antt `List` and `ActiveSnapshot`,
--   Source/Import.antt `Import`.
-- - data-service/backend/internal/data/source/data.go and transaction.go: Source/Tx.antt is the frame of
--   a transaction, a state and error monad, and Source/Database.antt the statements on a table.
-- - data-service/backend/internal/data/dbmigration: Migration.antt has the types, Migration/Service.antt
--   service.go, Migration/Goose.antt `GooseExecutor` and Migration/Lock.antt `PostgresAdvisoryLocker` of
--   postgres.go, Migration/Files.antt source.go, Migration/Readiness.antt readiness.go and
--   Migration/Runtime.antt runtime.go.
-- - data-service/backend/internal/biz/stock: Stock.antt has the types and the replacement rules,
--   Stock/Search.antt the validation of a query, Stock/Decimal.antt the decimals of daily quotes,
--   Stock/Quote.antt `ValidateDailyQuote` and Stock/Publish.antt `PublishDailyQuotes`, with its frame
--   from data-service/backend/internal/data/stock/transaction.go.
-- - user-service/backend/internal/biz/identity/biz.go and internal/data/identity: Account.antt has the
--   types and constants of the use case, Account/Act.antt its calls as a state, reader and error monad,
--   Account/Tables.antt and Account/Sessions.antt the statements on users, identities and sessions,
--   Account/Avatar.antt the avatar, Account/Base64.antt the encoding of a token, Account/Wechat.antt the
--   client of WeChat and Account/UseCase.antt the operations: login, verify, profile, avatar, logout.
-- - user-service/backend/internal/biz/watchlist and internal/data/watchlist: Watchlist.antt has the types
--   and the table, Watchlist/Calls.antt the operations of the use case with their statements,
--   Watchlist/Order.antt the order of a list and Watchlist/Walk.antt a client that reads page after page.
-- - miniapp/backend/internal/biz/report/biz.go: Reports.antt has the types and validations,
--   Reports/Day.antt the day of the home page, Reports/UseCase.antt the operations.
-- - data-service/backend/internal/biz/entity/biz.go: Entity.antt has the identities of entities, the facts of
--   the research graph and the tests of the facts of a chain.
-- - data-service/backend/internal/biz/research/biz.go: Research.antt has `validateGraphSearchRequest` behind
--   its time stamp and `referencesResolve`.
-- - miniapp/backend/internal/biz/tracking/biz.go: Tracking.antt has its types and operations, the search,
--   the list and the change of the stocks that a user follows, and the options of the filters.
--
-- The use case reaches its table through the record `Store`, as the Go code does through its interfaces;
-- Source/Database.antt fills it. Source/Changes.antt has the calls as steps from one table to the next,
-- Source/Table.antt and Source/Keeps.antt what each statement keeps. The migration reaches goose, the
-- lock and the database through the records `Executor`, `Operations`, `Locker`, `Connections` and
-- `SqlExecutor`. Prelude.antt and its children have what all share; Json.antt is a JSON document.
--
-- How Go is written here. A string is a text of valid UTF-8. A time is its nanoseconds since the zero
-- time, in UTC. A number is a natural number or a signed integer; none of those that the code compares
-- comes near 64 bits, but for strconv.ParseInt, which keeps its range. A json.RawMessage is absent, no
-- document, or a document with its text, its compact text and its value. An error is a value, and a Go
-- error that errors.Join builds is a list. sort.Slice is a sort by insertion. Copies that the code makes
-- to keep its arguments apart are not seen. An advisory lock and a transaction make the calls one after
-- another, so that a history is a sequence of calls. The mutex of the locker does the same.
--
-- What is a parameter: google/uuid, net/url, goose, the connections of the pool and the answers of the
-- server, what jsonb makes of a document, and which statements fail. For a user: the HTTP client of WeChat,
-- the image codecs, SHA-256, the random source, fresh UUIDs, the clock and the failures of statements,
-- in one environment, and the JSON of a cursor; for the reports and the followed stocks the repository
-- that answers them.
--
-- Fuel: the digits of a number are counted and written with the number itself as the fuel, which is more
-- than its digits. The transaction of a login is tried three times at most, as the code says.
-- The loop of ReportPublication has the pages it may read as its fuel. A walk has the requests of its client.
--
-- Not modelled: the HTTP layers, configuration, the commands, the admin portal, the pages of the mini app
-- and the infrastructure, which pass requests on or are no Go code; the use cases of evidence, events,
-- reports and single entities of the data service, and `Search` of research beyond the parts above;
-- the text of error messages behind their kind; cancellation.
pub mod Prelude
pub mod Identity
pub mod Json
pub mod Source
pub mod Migration
pub mod Stock
pub mod Account
pub mod Watchlist
pub mod Reports
pub mod Tracking
pub mod Entity
pub mod Research
pub mod Examples
