-- ===== src/Lib.antt =====
-- edgelord: a detector and executor of arbitrage on prediction markets.
--
-- Books arrive from an exchange as events (src/application/orchestration/event.rs). Each updates the
-- cache of books; the strategies look at the market of the book; each opportunity that they find is
-- locked, checked for slippage and risk, its cost is reserved, and an execution is spawned
-- (src/application/orchestration/opportunity.rs). The execution records a position, gives the
-- reservation back and unlocks the market (src/application/orchestration/execution.rs). When a market
-- settles, its positions are closed (src/application/position/manager.rs). The event loop, the
-- executions and the operator share one `AppState` (src/application/state.rs). The operator also speaks
-- through Telegram. The events come through a pool of connections
-- (src/infrastructure/exchange/pool.rs), each behind a stream that reconnects; a service looks for
-- gaps in clusters of related markets, and a governor watches the latency. The relations come from a
-- language model (src/application/inference); a projection (src/application/solver) finds the gaps; a
-- recorder keeps the statistics in a database (src/adapter/outbound/sqlite/recorder.rs).
--
-- The files, and what they model:
--   Common            lists, maps and sets over keys, results, Boolean tests
--   Money             `rust_decimal::Decimal`, through its operations (src/domain/money.rs)
--   Domain            src/domain: id, error, book, market, opportunity, position, trade, and in
--                     Domain/Relation relation, constraint, cluster
--   Tracker           src/application/cache/position.rs: `PositionTracker`
--   Cache             src/application/cache: `BookCache` of book.rs, `ClusterCache` of cluster.rs
--   State             src/application/state.rs: `AppState`, the limits, the operator's view
--   Risk              src/application/risk/manager.rs: `RiskManager::check`
--   Settlement        src/application/position/manager.rs: `PositionManager`
--   Strategy          src/application/strategy: the contexts, single_condition, market_rebalancing,
--                     combinatorial and the registry; Strategy/Soundness has what the strategies promise
--   Orchestration     src/application/orchestration: the handlers for events and opportunities, the
--                     end of an execution, slippage, the recording of positions, and in Feed the
--                     event loop of src/infrastructure/orchestration/runtime.rs
--   System            the interleavings of all of these over one `AppState`
--   Exchange          src/infrastructure/exchange: Reconnecting is reconnecting.rs, Pool is pool.rs
--                     and pool/manage.rs, replace.rs, spawn.rs, state.rs
--   Detection         src/application/cluster: detector.rs and service.rs
--   Solver            src/application/solver: bregman.rs, frank_wolfe.rs, projection.rs
--   Inference         src/adapter/outbound/inference/inferrer.rs, from the answer of the model on,
--                     src/application/inference/service.rs and the startup of
--                     src/infrastructure/orchestration/inference.rs
--   Recorder          src/adapter/outbound/sqlite/recorder.rs: `SqliteRecorder`, its tables and calls
--   Governor          src/infrastructure/governor: latency.rs and its types
--   Telegram          src/adapter/outbound/notifier/telegram: command.rs, auth.rs, control.rs
--   Polymarket        src/adapter/outbound/polymarket: filter.rs, dedup.rs, executor.rs, stream.rs
--   Settings          src/infrastructure/config: the validation of settings.rs
--   Subscription      src/infrastructure/subscription/priority.rs: the queue, expand, contract
--   Examples          tests, and each theorem at concrete input
--
-- A struct is a record and an enum a data type, with the source's names; `Open` is `opened`, and
-- `Tracker.init`, `Registry.empty` are `new`. State is passed explicitly: an operation on `&self` with
-- a lock takes the state and returns the new one. A getter is the field of the record. Logging is
-- left out.
--
-- Numbers. A price or volume is of a type with the operations of `Decimal` (Money/Defs.antt); what is
-- proved of sums and comparisons assumes `IsExact`, that additions, subtractions and comparisons are
-- those of whole multiples of a least unit, and that a product of two that are not negative is not
-- negative. That holds of the crate for values of one scale that fit in its 96 bits; a product or a
-- quotient may round, and nothing else is assumed of it. Money/Cents.antt is an instance. The position
-- counter is a `u64` and wraps; other counts are lengths and do not come near their bounds.
--
-- Hash maps are association lists and hash sets lists, whose order nothing depends on. The loops run
-- over lists, but for four. The loop of `next_event` of the reconnecting stream has a number of turns, and
-- an exchange that fails fewer times than that is enough for an event; `poll` of the handoff has one
-- turn more than there are poll intervals in its timeout; `chunks` has a turn for each element; the event loop has a
-- number of turns.
-- Floating point is a function of the configuration for the backoff and for the ratios and ranks of the
-- governor, and a type with its operations in the solver (`Float`) and the recorder (`Single`). The loop
-- of the projection has as many turns as the source configures.
--
-- Calls to the outside. The statistics recorder and the notifiers are lists of the calls made, in
-- order; what the recorder replies, what the executor answers, whether an order can be cancelled, how
-- a decimal or an error prints and how a text becomes lower case are parameters. The result of an
-- awaited execution is an input of `finish`. The solver of integer programs and the language model are
-- functions; serde's reading of a text is a parameter. Each call of the recorder has the set of the
-- statements that fail in it, and what other connections of its pool write between two statements that
-- no transaction holds together; the stream has the frames that its connection will deliver.
--
-- Concurrency. Each lock of `AppState` is taken within one operation, so System/Steps.antt has one
-- step for each operation and any order of them. A flight is an opportunity between the locking of
-- its market and the release of the lock. `RiskManager::check` is one step: its last operation,
-- `try_reserve_exposure`, alone changes the state, and holds the positions and the pending exposure
-- locked while it decides.
--
-- The clock, tokio's tasks, `sleep` and channels, and the wrapped stream are parameters over a state of
-- the world (`Link`, `Probe`), or numbers and lists in the pool's own state: a task runs until it is
-- aborted. The replacements of a pool's connections run concurrently: Exchange/Pool/Replace.antt cuts
-- each where it waits, and the parts come in any order.
--
-- Not modelled: market scores; the linear solver, the prompts and the clients of the language models;
-- the clients of the exchange for orders and for its list of markets (the executor takes their answers);
-- the stores of relations and of reports; notifications but for the commands; the command line; and of
-- the configuration all but its validation.
pub mod Common
pub mod Money
pub mod Domain
pub mod Tracker
pub mod State
pub mod Risk
pub mod Cache
pub mod Settlement
pub mod Strategy
pub mod Exchange
pub mod Detection
pub mod Governor
pub mod Telegram
pub mod Polymarket
pub mod Orchestration
pub mod System
pub mod Inference
pub mod Recorder
pub mod Solver
pub mod Settings
pub mod Subscription
pub mod Examples
