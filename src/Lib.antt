-- ===== src/Lib.antt =====
-- A Telegram bot that sells access to streaming content for Telegram Stars: a verification library
-- beside the Go code. A user starts a purchase, pays the invoice, the payment is confirmed, a job
-- issues a link with a one-time token, the token is redeemed, and the purchase is reviewed.
--
-- Parts and files:
-- - Domain: the records and the status machine of internal/domain. A status is one of the five
--   constants of purchase/status.go or any other text that the column may hold. Integers (ids,
--   prices, ratings) are ℤ: the program compares and prints them and computes nothing that could
--   leave 64 bits. Times are microseconds.
-- - World: what the program acts on. Db are the tables that EnsureSchema of
--   internal/adapters/storage/postgres/schema.go makes, with NOW() of the server; beside it stand
--   the token cache, what was sent to Telegram, the admins of the bot, the clock, the bytes that
--   rand.Read will give, and `net`, the outcomes of the next calls of a service: done, refused
--   before it took effect, or unheard, which takes effect and loses the answer. An empty `net` is a
--   world without faults.
-- - Exec: Go functions that return an error. A call returns a result and the state, and what was
--   written before an error stays written. Triple has the rules for assertions about such calls.
-- - Storage: the repositories of internal/adapters/storage/postgres, one function for each SQL
--   statement, with the keys, UNIQUE and CHECK constraints and ON CONFLICT clauses of the schema;
--   and the cache of internal/adapters/storage/redis/token_store.go. A statement is atomic, and
--   nothing more is: the handlers open no transaction. What the Redis client does is a parameter.
-- - Platform: internal/platform/crypto, idgen and config, hexadecimal text and the part of
--   json.Marshal that the invoice payload needs. SHA-256 is a parameter, and so is the environment.
-- - App: the six use cases of internal/app, each Handle as one function with its calls in the order
--   of the code, and the sender of internal/adapters/telegram/sender.go. The streaming provider is
--   an interface with one law: it does not write to the bot's database. The handler's Now is the
--   clock, and its cache is given.
-- - Streaming: internal/adapters/streaming. Client has the calls of the video service, whose
--   answers and their JSON decoding are a parameter (BunnyApi), and the query of an access link;
--   Provider fills the interface of the use case with it; Sync is the synchronisation of the
--   catalogue.
-- - Telegram: internal/adapters/telegram/bot.go. Api has the updates, as the Telegram package hands
--   them over, and the ways to answer; Checkout the invoice, the query before the checkout, the
--   payment and forcebuy; Catalogue the commands about the catalogue; Bot the dispatch.
-- - Http: internal/adapters/httpapi/server.go. Replies is what is written, Server the routes. The
--   JSON decoder of the bodies is a parameter.
-- - Wiring: cmd/bot/main.go. What it builds from the configuration; Main is the start of the
--   program, its goroutines as the threads of Threads/Pool, and any number of starts, each of which
--   finds the tables as the one before left them. How the connections end is a parameter. Restarts
--   has what every run keeps, Production what the start guarantees.
-- - Jobs: internal/jobs and the outbox adapter of cmd/bot/main.go. The scheduler is a loop over a
--   ticker whose channel holds one tick, a context, and a select that picks any that is ready; a
--   list of signals says what happens in which order.
-- - System: the parts together. Reach.Step is one update of the bot, one request, one call of a use
--   case, one round of the job or of the synchronisation, a write of the catalogue, or a move of
--   the environment (time, cache, entropy, outcomes); Reach are the sequences of steps. UseCases
--   and Front have what the use cases, the bot and the server keep, for any assertion that their
--   calls keep; Admins and Catalogue are about the admins of the bot and the items on sale. Sound
--   has the invariant that ties purchases, outbox and grants together, Closed the facts that no
--   statement undoes, Delivered the link between the outbox and the grants. A step of Reach is a
--   whole call: reachable worlds are those of calls that do not overlap, as main.go lets them, and
--   Threads has those that do.
-- - Threads: the handlers as goroutines. A Thread is a handler with its calls apart (of the
--   database, the cache, Telegram, the provider, the clock, the random source), each of them one
--   step, and a proof that alone it is the handler. Threads/Pool is the program: threads arrive for
--   updates of the bot, requests, rounds of the outbox job and of the synchronisation, and take
--   turns in any order, while time passes and the services fail. That is more orders than main.go
--   has, whose bot and jobs do one thing after the other. RequestReview is no task, since main.go
--   does not wire it. Rely has what every call keeps while others make theirs, Quiet the threads
--   that make such calls only, Settled and Closed the two assertions on that ground.
-- - Tests: a whole sale and small worlds, at which the properties are applied.
--
-- Loops are structural: over the events of a round, the rows of a table, the videos of a page and
-- the signals of the scheduler. The loop over the pages of the library alone runs on fuel, one unit
-- for each page; Streaming/Sync/Paging shows that the number of a short page is enough.
--
-- Not modelled: the logger, the connections (polling of Telegram, the HTTP listener, the pools of
-- PostgreSQL and Redis), and the signals of main, which end a run at any point after the start. The
-- JSON decoder is a parameter, since the code uses it on four small structs and one answer and the
-- properties hold whatever it reads. The paths of requests are in canonical form. Bytes of a video
-- id are those of a text. A context that is cancelled is a refused call.
pub mod Prelude
pub mod Exec
pub mod Domain
pub mod World
pub mod Storage
pub mod Platform
pub mod App
pub mod Jobs
pub mod Streaming
pub mod Telegram
pub mod Http
pub mod System
pub mod Threads
pub mod Wiring
pub mod Tests
