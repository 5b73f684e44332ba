-- ===== src/Lib.antt =====
-- Verification of proactive-mcp: the SQLite store that decides which situations an agent is told,
-- and when. Detectors report situations; sources (Gmail, Calendar) report them under numbered
-- generations; the store keeps one row for each dedupe key, moves it along a state machine, and hands
-- pending rows to an agent under a daily budget, quiet hours, mutes and a cooldown, either at once (a
-- claim) or under a lease that the agent confirms.
--
-- The parts, and the files they model:
--   Prelude           Boolean tests, lists measured and searched by them, sorting.
--   Model             the records of src/proactive_mcp/store/_situation_models.py,
--                     _source_generation.py, _sync_models.py, _fallback_models.py,
--                     _daemon_models.py and _memory_models.py.
--   Db                the tables as one value; a method is a Session, a function from the database to
--                     an outcome (returned, or an exception of the source) and the database it
--                     leaves; Db.Monad.transaction is ImmediateTransaction of
--                     src/proactive_mcp/store/_sqlite_transaction.py.
--   Situations        Statements (_situation_sql.py), Reader (_situation_reader.py), Access and
--                     Transitions (situations.py), Upsert (_situation_upsert.py). Lifecycle is the
--                     state machine as a step relation on rows, with what holds along it: of one row
--                     (Invariant), of the keys of a table (Keys), of a table (Table), of the database
--                     (History).
--   Sources           Generations (_source_generation.py), SyncState (_sync_source_state.py,
--                     _sync_diagnostics.py, sync.py), Freshness (freshness.py), Consistency
--                     (_situation_consistency.py: accept a generation, store its detections, resolve
--                     what it says is gone and record the attempt, in one transaction).
--   Delivery          Eligibility (_delivery_eligibility.py), Receipts (_delivery_receipt.py), Claim,
--                     Reserve and Confirm (_situation_claim.py).
--   Store             the public calls that write situations and fallbacks, in any order.
--   Fallbacks         fallbacks.py and _fallback_sql.py: which pending rows may still be notified on
--                     the desktop, and what came of it. Dispatch is src/proactive_mcp/delivery's
--                     fallback.py and payload.py.
--   Memories          memory.py: Rules (_memory_normalize.py and the validation of
--                     _memory_models.py), Entities (_memory_entities.py), Items (the writing methods
--                     with the queries of _memory_queries.py), Machine (them in any order).
--   Evaluation        a pass: Engine (src/proactive_mcp/situations/engine.py and inputs.py), Service
--                     (src/proactive_mcp/delivery/evaluation.py), Reads (src/proactive_mcp/sources/
--                     lazy_sync.py: whether the pass reads the sources).
--   Daemon            Status (daemon_status.py: the row by which one watcher owns the loop), Lock (an
--                     abstract lock, which the row refines), Phase and Watcher
--                     (src/proactive_mcp/delivery/daemon.py, which runs passes and dispatches).
--   Attention         src/proactive_mcp/situations/policy.py and the local day of _dates.py.
--   Guards            _lazy_sync_lease.py and _evaluation_gate.py.
--   Dates             yearly occurrences, of src/proactive_mcp/situations/_dates.py.
--   Conflicts         the sweep of src/proactive_mcp/situations/calendar_conflict.py.
--   Detectors         the reply deadlines of src/proactive_mcp/situations/reply_deadline.py and
--                     _deadline_text.py, and the occasions of personal_occasion.py.
--   Examples          the theorems at small inputs.
--
-- Correspondence. A definition has the name of the function that it models; a statement's WHERE is a
-- Boolean test on rows and its SET a function on rows; a subquery sees the database as the statement
-- finds it. Instants are numbers of microseconds, and the texts of instants in UTC that the tables
-- hold are compared as instants. `attention_claim` and `attention_reserve` are the methods
-- claim_for_delivery and reserve_for_delivery of AttentionPolicy; `resolve_all` is
-- SituationUpserter.resolve. Every loop over a sequence is a recursion on that list. Two
-- loops run until something says to stop, and take fuel: `dispatch`, for which more than the number of
-- situations is enough, since a row that was claimed is not eligible again; and `run_forever`, for
-- which more than the number of waits after which the scheduler stops is enough. The snapshots of
-- Evaluation hold the detections of their items in the items' place.
--
-- Parameters: the size of the evidence's JSON (pydantic), the digest of a receipt token (SHA-256),
-- the timezone (zoneinfo), fresh tokens, the clock's readings, the text and date functions of Python
-- that the memory store calls (TextRules), the result of a desktop notification, the stored
-- credential, the remote reader of the sources, the wait of the scheduler, whether a process is
-- alive, and what the detectors' patterns match.
--
-- Not modelled: SQLite itself, its locks and files; migrations; the last instant of `datetime`; of the
-- calendar detector all but the sweep; the paged reads of the memory store; threads, signals and
-- processes; the server's tools, the source clients, configuration files and the command line.
pub mod Prelude
pub mod Model
pub mod Db
pub mod Situations
pub mod Sources
pub mod Delivery
pub mod Store
pub mod Fallbacks
pub mod Memories
pub mod Evaluation
pub mod Daemon
pub mod Attention
pub mod Guards
pub mod Dates
pub mod Conflicts
pub mod Detectors
pub mod Examples
