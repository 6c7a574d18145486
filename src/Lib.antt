-- ===== src/Lib.antt =====
-- Verification of the 50Hz back end, a service that collects data on the electricity grid of Great
-- Britain, detects and reports events, and answers questions about them.
--
-- The parts that are modelled, each in the module named, with the source it translates:
--
-- - Time: datetimes and durations as numbers of microseconds. An aware datetime is its instant.
-- - RateLimit (app/rate_limit.py): the ASGI middleware that bounds calls by policy and client.
--   `claim` is `_claim`, `find_policy` is `_policy`, `Middleware.client_key` is `_client_key` and
--   `Middleware.call` is `__call__`. The state is a record of the two dictionaries of deques. The
--   lock makes a claim one step, so a run is a list of calls. The clock is an argument.
-- - Budget (app/intelligence/budget.py): the daily limit on calls of a paid service.
-- - Settlement (app/domain/settlement.py, app/history/calendar.py): the half-hour periods of a
--   settlement day. The time zone database is the parameter `Zone`, and theorems state what they
--   need of it on one date. The `while` loop of the calendar runs on fuel, one more than the
--   microseconds of the day; that it ends is part of the theorem about it.
-- - Events.Models, Events.Revisions (app/events/models.py, app/events/revisions.py): reported
--   revisions of an event, their differences and histories. Constructors and validators are
--   functions into a result, so what pydantic or a validator rejects is an error value. A finite
--   float that is only compared is an integer multiple of 2^-1074, which is exact.
-- - Events.Lifecycle (app/events/lifecycle.py): detected events and their in-memory lifecycle. The
--   hash of `stable_id` and the equality of candidates are parameters; a call takes the time.
-- - Events.Rules, Events.Processor (app/events/rules.py, app/events/processor.py): the rules that make
--   candidates of an observation window, and the processor that asks them. Comparisons of floats are
--   exact; sums, quotients and roundings and the texts of times are the parameter `Platform`.
-- - Events.Observed (app/events/observed.py): evidence components and batches, and in Observed.Copy
--   and Observed.Evaluation the texts, drafts and scopes that an evaluation makes. It asks the processor
--   for each component on its own. Hashes and the texts of numbers are the parameter `Rendering`.
-- - Events.Relevance (app/events/relevance.py): the score of a reported revision, in Relevance.Grouping
--   the groups of scores on one asset, and in Relevance.Ranking the selection. The share of the
--   capacity, the normal form of an asset id and the number of a time are parameters. Each loop of
--   the grouping runs on fuel, the number of scores; each round but the last removes a score.
-- - Ledger (app/persistence/event_lifecycle.py, app/events/identity.py): the immutable ledger of
--   reported notices. Ledger.Revision makes a revision of a source row, Ledger.Rows has the rows of
--   the ledger, and Ledger.Materialize appends source rows to the histories of Events.Revisions. The
--   rows that the database answers with are an argument, what is executed is a list of statements,
--   and what Python's library does with texts and numbers is the parameter `Python`.
-- - Worker (app/worker/scheduler.py, app/worker/contracts.py): when a source job is due, which window
--   it asks for, and one tick of the worker over all schedules. The repository, the lock provider,
--   the adapters and the clock are a parameter, a step function on a state of their own.
-- - Retention (app/worker/retention.py): one run of the cleanup, in bounded batches.
-- - Charging (app/charging/planner.py, app/charging/models.py): the planner for flexible use.
--   `window_at` is `_window_at`, `Plan.plan_flexible_use` the planner. Floats are the parameter
--   `Arithmetic`. The loop of a window runs on one unit of fuel more than its microseconds; each
--   round moves the cursor, so the search ends. The loops over half-hours have a round for each
--   half-hour between their bounds, and two more.
-- - ForecastVerification (app/forecast_verification/core.py): which stored forecasts are compared with
--   which outturns, and the report over the horizon buckets. Floats are the parameter `Floats`, and
--   the two checksums are functions of what the code hashes.
-- - Game (app/game/models.py, app/game/service.py, app/game/connectors.py, app/game/resolution.py): the
--   daily game and the resolution of its prediction. The zone is the parameter `at_local`, floats are
--   the parameter `Flows`.
-- - SourceHealth (app/source_health/service.py, app/source_health/models.py): the delivery state of
--   each source and the summary of its facts.
--
-- Prelude holds the shared names, lists, results, dictionaries, sorting and integers. Each component
-- is a module; the modules below it prove its theorems, and its Tests module runs it on concrete data.
--
-- Not modelled: database statements, network clients, routing, text generation and the iOS client,
-- which are input and output around these parts; and the rounding of floats.
pub mod Prelude
pub mod Events
pub mod Ledger
pub mod RateLimit
pub mod Budget
pub mod Time
pub mod Settlement
pub mod Retention
pub mod Worker
pub mod SourceHealth
pub mod Charging
pub mod ForecastVerification
pub mod Game
