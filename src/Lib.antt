-- ===== src/Lib.antt =====
-- The pipeline of the bot, as its core library keeps it: jobs that are queued, claimed, run stage
-- by stage, wait for decisions, are cancelled, and are recovered when the service starts again.
--
-- Parts, and how they interact
--   * States (tiktok_bot_core/models/pipeline_states.py): the statuses of jobs, stages and reviews,
--     the tables of their transitions and the validators. States.JobStatus, States.StageStatus,
--     States.Stage and States.Review have a constructor for each constant, a table `transitions`,
--     and the validators under their names. Paths and StagePaths have the life cycles as step
--     relations; Reviews, the human review.
--   * JobStore (tiktok_bot_core/storage/pipeline_job_store.py): the durable job system. Rows has the
--     tables of models/entities.py; Create, Claim, Status, Stages, Decisions, Cancel and Recover have
--     the methods of PipelineJobStore, with cancel_checkpoint of storage/pipeline_live_store.py where
--     request_cancel calls it. Session has a sequence of method calls, each in a session of its own
--     (Database.session of storage/database.py), which rolls back when the call raises. The store uses
--     the validators of States before it writes, as the source does. Moves, Evolution, Outcomes,
--     Endings and Lifecycle follow the rows through the calls; Gates, Coherence, Decided, Ended,
--     Cancelled and Coherent, the stages that wait for decisions; Selection, Losses with
--     Recovery, Requests and Pauses have what single methods promise.
--   * Outreach (tiktok_bot_core/services/outreach_queue.py and storage/outreach_queue_store.py): the
--     queue of planned messages. Rows has the items and what the queue reads; Store, the statements of
--     OutreachQueueStore; Service, the methods of OutreachQueueService; Session, a sequence of calls,
--     between which the other tables may change. The queue reads the jobs of JobStore. Moves has the
--     life cycle of an item; Changes and Calls follow each statement and each call, History whole
--     sequences.
--   * Concurrency (tiktok_bot_core/services/pipeline_concurrency.py): the limits of the platforms and
--     the exclusive use of accounts. Manager has the operations of PipelineConcurrencyManager, each a
--     step under its lock; Counts, what its sets count; Limits, what every order of steps keeps. A
--     count is decreased only for an account that is active; from 0, the source would store -1 and the
--     model has no entry.
--   * Leases (tiktok_bot_core/services/account_leases.py): who holds an account. Manager has acquire
--     and release of AccountLeaseManager, each a step under its lock; Exclusion, what holds between
--     and after them.
--   * Decision (tiktok_bot_core/services/pipeline_decisions.py, with the checkpoints of
--     storage/pipeline_live_store.py): what a job waits for. Checkpoints has create_checkpoint,
--     resolve_checkpoint and cancel_checkpoint; Definitions, the registered kinds; Gate, the methods of
--     DecisionGateService, each of which moves a checkpoint and, by JobStore, its job and stage in one
--     session; Calls, sequences of them. await_decision is its opening session (open_decision) and one
--     turn of its loop (poll); what it does when it is left is cleanup. A method that answers by an
--     exception after it has committed returns both. Settled, Sessions and History follow the
--     checkpoints; Decided and Human, an accepted answer; Deadline, the end of a wait; Options, the
--     registered choices.
--   * Acquisition (tiktok_bot_core/storage/acquisition_store.py): the campaigns and keywords of
--     acquisition jobs, with the cleaning of their texts (Store), and the human review of candidates
--     with its audit (Candidates; Audits and Trails are about it).
--   * JobService (tiktok_bot_core/services/pipeline_jobs.py): PipelineJobService, which validates a
--     request and creates, cancels and retries jobs in JobStore; a retry copies what Acquisition has
--     of the job. Preflight has the checks, Calls the entry points; Validated and Preflighted say
--     what the checks ask for; Requested and Copies, what the columns of new rows are; Ordered, the
--     order of stages; Created, Retried and Copied, what the calls leave. Between the sessions
--     of one call the tables do not change in the model.
--   * Schedule (tiktok_bot_core/services/pipeline_scheduler.py): Text, Field and Cron have the parser
--     of cron expressions and the two searches for runs; Tick, the due schedules, the claim of a run,
--     and the tick that creates jobs by JobService. Ranges, Values, Bounds, Splits, Components and
--     Errors are about the parser, Runs about the searches, Firing and Ticks about the tick. A moment is a number of
--     microseconds from the calendar's first minute, and a minute the number of minutes before it.
--   * Router (tiktok_bot_core/llm/router.py): the circuit breaker of LLMRouter. Circuit has the claim
--     of a circuit and the three reports of a request, each a step under the circuit's lock, with a
--     clock of whole milliseconds; Cooldown is about a circuit that has opened.
--   * Prelude: Boolean tests, tables with SELECT and UPDATE, and exceptions as values.
--
-- How state and operations correspond to the code
--   * A table is the list of its rows. `UPDATE ... WHERE p` is `update p f`, `RETURNING` and
--     `rowcount` are tests on the rows before it, and `session.get` is `first`. A method that gets a
--     session takes the tables and returns its value with the new tables, or an exception.
--   * `now` stands for `datetime.utcnow()`; where a method reads the clock twice, both readings are
--     `now`. Ids are numbers that are compared only: the text of a UUID is represented by its place
--     in the order of the texts. JSON columns are their text. An empty `current_stage` is `none`.
--     Priorities are natural numbers; no result depends on a negative one.
--   * Each `with session` block is one step: SQLite runs one writing transaction at a time.
--   * The primary keys and the unique constraint on the stages of a job are what makes `RETURNING`
--     give one row at most; where a method needs this, the theorem has it as a hypothesis.
--   * The two searches for a run have the source's own bound, 60 * 24 * 366 * 5 rounds, and raise
--     when it is reached; a range has as many values as rounds at most. Nothing else has fuel: every
--     other loop of the modelled code runs over a list.
--
-- What stands outside is a parameter: for Decision, the methods of `str`, the regular expressions and
-- the validation of a JSON context; `strip` and `lower` of `str`; for JobService, the table of
-- browser providers with what each answers for an account; for Schedule, ZoneInfo as the local time
-- of each minute in a named zone, and the ids of new jobs; for Outreach, the validation of a strategy by its pydantic model
-- (StrategyResult.model_validate, which gives its templates or refuses), and the test whether
-- `str.strip` leaves nothing of a text.
--
-- Not modelled: text outside ASCII in cron expressions, the limit of `int` to 4300 digits, and the
-- last year of the calendar; the runner and the dispatcher of jobs; the check of the operator's name (_validated_operator) and the deletion of rows; the
-- refresh of objects that a session already holds (expire_all, _sync_decision_identities), which
-- changes no row; the candidate rows of a job and the listing queries of the store; the rest of the
-- language model router; the lease objects
-- of pipeline_concurrency.py and the normalization of names; and the parts of the repository that are
-- input and output, or that only call
-- third-party libraries (browser, language model providers, HTTP,
-- user interface).
pub mod Prelude
pub mod States
pub mod JobStore
pub mod Outreach
pub mod Concurrency
pub mod Leases
pub mod Decision
pub mod Acquisition
pub mod JobService
pub mod Schedule
pub mod Router
