-- ===== src/Lib.antt =====
-- rln-companion: a sidecar in front of an RGB Lightning Node. It mirrors the transfers and the
-- payments of the node in a SQLite database, drives the node's refresh, fails what has expired, and
-- posts a signed webhook for every transition that matters.
--
-- The parts, and the files that model them:
--
-- * src/store.rs is Store. Types has the structs and enums; Rows the five tables of the migrations as
--   lists of rows; Codec the texts and ranges between the two. Each method of `Store` is a query `Db
--   -> Result StoreError A * Db` of the same name in Transfers, Upsert (`upsert_observed`,
--   `apply_transition`), Payments, Outbox and Node. Transaction is `BEGIN IMMEDIATE ... commit`: an
--   error on the way gives back the database of the beginning.
-- * src/rln.rs is Rln: the trait `RlnApi` as a record of calls on a state of the node that nobody else
--   sees into. A theorem about an operation holds for every such record, so for every answer. Client
--   is `HttpRlnClient` on parameters for reqwest and serde_json, and Pages its loop over the pages of
--   a listing.
-- * src/sync.rs is Sync. Plan is the pure part, Plan.Order the order of the statuses; Apply and Run
--   are `apply_observed`, `sync` and `sync_payments`, on the World of database, node and drawn UUIDs
--   (World.antt). Evolve says what the mirror may do, and Steps, Moves, Forward and Whole carry it
--   from the statements to the syncs; Mirror and MirrorPayment say what an observation leaves behind,
--   and Complete what a full sync does. Store.Valid says what the tables hold between two statements,
--   and Store.Pins which rows keep their index; Progress puts all three together. Statements lists the
--   statements on the database, each of which is atomic.
-- * src/webhook.rs is Webhook: Backoff for the delays, Dispatch for one run of the dispatcher, Loop
--   for its loop. Keeps says what every part does with the database, and Interleaved what the
--   statements of all tasks do, in any interleaving. Order says how a run goes through the queue, and
--   Delivery what a round of the loop does.
-- * src/engine.rs is Engine: Fault and State for the classification of errors and the node state,
--   Tick, Reap and Reconcile for the operations that the background loops call, Loops for the loops.
--   Recovery says how the refresh loop brings a node back, Timer what the full sync timer leaves
--   behind.
-- * src/proxy.rs is Proxy: Path and Headers for the checks, Forward for the request and the answer,
--   Fallback for what the proxy itself notes.
-- * src/intercept.rs is Intercept: Exchange has `forward_then`, Bodies and Hooks the hooks, and Routes
--   the table of paths. A hook returns what it starts and does not wait for.
-- * src/config.rs is Config: Settings has the settings with their defaults and the command line of
--   src/main.rs, Hosts `is_private_host`, Validate the checks in their order.
-- * src/api.rs is Api: Token for the bearer token, Handlers for the handlers, which of them are
--   protected, and the answers.
-- * src/app.rs and src/main.rs are Assembly: `build_app`, and `run` up to the socket, as `start`.
-- * Base has what the parts share: results and the monad of state and errors (Monad), Boolean tests
--   (Tests), signed integers (Int), lists and tables (Lists, Tables), and the rules by which a
--   relation between states goes through a block of statements (Respects).
-- * Runs puts the parts together: a step is an operation of any of them, and its effect on the
--   database is a sequence of statements.
-- * Tests has runs on concrete data.
--
-- How the code is read:
--
-- * SQL is written out with the meaning that SQLite gives it: a comparison with NULL is not true,
--   `UNIQUE` ignores NULLs, rows stand in the order of their rowid, and a sort keeps that order among
--   equals. Logging and the texts of errors that carry no decision are left out. A fault of the disk
--   or of the connection is not modelled; a broken constraint and a value that does not decode are.
-- * `now` is an argument, as in the source; where a function reads the clock itself, the value read is
--   one more argument. A fresh UUID is the next value of a sequence that is a parameter, and nothing
--   assumes that its values differ. `serde_json::to_string`, the HMAC, hex and the HTTP client are
--   parameters too.
-- * An operation is a function that runs from its start to its end; the mutex of the engine is not
--   modelled. The interleaving of tasks within an operation is that of their statements on the
--   database (Webhook.Interleaved), each with any arguments that it may have. Between the rounds of
--   `reconcile` and of the loops anything may happen to the world.
-- * The loop over the pages has no bound in the source and takes as many requests as it is given; one
--   more than the elements to list is enough for a node that pages through a list.
-- * Else no loop has fuel but `reconcile`, whose rounds are a list: what the clock shows at each of
--   them, and what happens while it sleeps. The result is none if the list ends before the loop does.
-- * `u64` values are natural numbers; where the source converts or saturates, the bound is written
--   out. The counters of the reports and of the attempts are not bounded.
-- * A background loop runs for a list of rounds, and each sleep of it ends in a world that is given,
--   as the rest of the program and the node have left it. The notification that ends a sleep early and
--   the time that a sleep takes are not modelled.
-- * `Url::parse`, the parsing of an address, `Config::load`, the opening of the database, the building
--   of an HTTP client and the binding of a port are parameters. The path of a request to the API comes
--   as the route that it has been matched to.
--
-- Not modelled: the opening of the database and its migrations, logging, signals, the timeouts of the HTTP
-- clients, axum's routers and the serving of connections, and when a spawned task runs.
pub mod Base
pub mod Store
pub mod Rln
pub mod World
pub mod Sync
pub mod Webhook
pub mod Proxy
pub mod Intercept
pub mod Engine
pub mod Config
pub mod Api
pub mod Runs
pub mod Assembly
pub mod Tests
