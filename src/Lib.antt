-- ===== src/Lib.antt =====
-- asset-core: the registry of assets that are found by a durable UUID and not by a path.
--
-- assetcore/core holds the data and the pure rules, and the ports that a backend implements.
-- assetcore/app/verbs.py writes and reads through a repository and emits one event for each write.
-- assetcore/infra has the backends: here the in-memory repository, the one on SQLite, and the broadcast
-- sink with its bounded log. assetcore/app/services.py is the object that the central service calls,
-- from the endpoints of assetcore/service/routes.py behind the authentication of auth.py.
-- assetcore/sdk/offline.py queues writes while that service is down, replays them when it is back, and
-- reads the listing page by page.
--
-- Core.Types, Core.Entities: assetcore/core/types.py, entities.py. A UUID and a time are numbers.
-- Core.Rules, Core.Closure: assetcore/core/rules.py. The `while` loop of `walk_closure` takes fuel, one
--   unit for each node that is taken off the frontier; each node enters the frontier at most once, so
--   that more fuel than nodes (or than stored edges, for the verbs) is enough.
-- Core.Ports: assetcore/core/ports.py, and the ids and the clock, which are parameters.
-- Infra.InMemory: assetcore/infra/inmemory_repo.py. `live_versions` is the list of live references that
--   `source_versions` returns: places in the store, through which `demote_latest` writes.
-- Infra.Sqlite: assetcore/infra/sqlite_repo.py. A statement is a function of the tables; a constraint
--   that it violates is an exception, after which the tables are as before. `mirror` is the tables that
--   hold a state of Infra.InMemory. Rows are listed in the order of
--   insertion; for the edges, which are read through an index and without an ORDER BY, what SQLite makes
--   of that order is a parameter. A JSON text, a time and an id are the values they stand for.
-- Infra.Broadcast: assetcore/infra/broadcast_sink.py; a queue is the list of the entries put on it.
-- App.World, App.Verbs, App.Queries: assetcore/app/verbs.py. A verb takes the repository, the sink and
--   the host, and threads their states; an exception is a value, and what was written before it stays.
--   A client of the verbs is a list of calls (App.Calls).
-- App.Services: assetcore/app/services.py, the verbs behind one object.
-- Sdk.Outbox: the outbox and `replay_outbox` of assetcore/sdk/offline.py, with the central client as a
--   parameter. A payload is a value of `Write`, and a row's time of creation, which nothing reads, is
--   left out.
-- Sdk.Listing: the paged fallback of `HybridClient.list_assets` in the same file. Its loop takes fuel,
--   one unit for each page; more fuel than full pages is enough.
-- Service.Schemas, Service.Auth, Service.Routes: assetcore/service/schemas.py, auth.py, routes.py. A
--   handler is a function of the world with an answer: a status code and a body, the status code of an
--   HTTPException, or an exception that is not caught, which is a 500. A request is one that the wire
--   models accept; the decoding of a bearer token is a parameter, and a claim of it is any JSON value. `Post` gathers the requests that
--   write.
-- Sdk.Tools: assetcore/sdk/tools.py, the move of a directory and `rename_relocate`. The client is a record
--   of the calls that they make, each of which may raise.
-- Sdk.Replica: assetcore/sdk/replica.py, the rows of the local replica and its hydration from a client.
--   The paging takes fuel as in Sdk.Listing; the crawl takes one unit for each id that is taken off the
--   queue, and a hydration puts there the seeds and the dependencies of each asset once.
-- Sdk.LocalReader: assetcore/sdk/local_reader.py, what its endpoints answer over a replica; a 404 is `none`.
-- Service.Events: assetcore/service/events.py, the frames that one connection of the event stream is
--   sent, from its subscription, its reading of the log, and what is on its queue later.
-- Tests: runs of the code, and the theorems at concrete inputs.
-- Shared: tests, lists, dictionaries (association lists in the order of insertion), stable sorting, and
--   the type of code that mutates a state and may raise.
--
-- Not modelled: the Postgres backend and the migrations (the statements run in a database server), the
-- construction of the HTTP service, the client and the command line, the settings and the integrations
-- (third-party interfaces), the similarity search (regular expressions and a full-text engine), and the
-- float arithmetic of the metrics.
pub mod Shared
pub mod Core
pub mod Infra
pub mod App
pub mod Sdk
pub mod Service
pub mod Tests
