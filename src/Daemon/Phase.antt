-- ===== src/Daemon/Phase.antt =====
-- Failures of a run as values: DaemonFailureKind and run_daemon_phase of
-- src/proactive_mcp/delivery/daemon.py.
use proactive_mcp.Model.Daemon.{
  DaemonFailurePhase, DaemonFailureCode, invalid, unsafe_path, open_failed, unavailable, failure,
  ownership_conflict, notify_failed, config, database, credential, source_sync, evaluation,
  notification, heartbeat, runtime_ownership, service,
}
use proactive_mcp.Db.{Db, StoreError, Outcome, returned, raised, Session}

pub data DaemonFailureKind : Type 0 where
  config_invalid database_unsafe_path database_open_failed : DaemonFailureKind
  credential_unavailable source_sync_failed evaluation_failed : DaemonFailureKind
  notification_failed heartbeat_failed conflict service_notify_failed : DaemonFailureKind

unfoldable pub failure_phase : DaemonFailureKind → DaemonFailurePhase
failure_phase config_invalid = config
failure_phase database_unsafe_path = database
failure_phase database_open_failed = database
failure_phase credential_unavailable = credential
failure_phase source_sync_failed = source_sync
failure_phase evaluation_failed = evaluation
failure_phase notification_failed = notification
failure_phase heartbeat_failed = heartbeat
failure_phase conflict = runtime_ownership
failure_phase service_notify_failed = service

unfoldable pub failure_code : DaemonFailureKind → DaemonFailureCode
failure_code config_invalid = invalid
failure_code database_unsafe_path = unsafe_path
failure_code database_open_failed = open_failed
failure_code credential_unavailable = unavailable
failure_code source_sync_failed = failure
failure_code evaluation_failed = failure
failure_code notification_failed = failure
failure_code heartbeat_failed = failure
failure_code conflict = ownership_conflict
failure_code service_notify_failed = notify_failed

-- How an operation of the watcher ended: with a value, DaemonFailureError, or another exception.
pub data Ran (A : Type 0) : Type 0 where
  completed : A → Ran A
  daemon_failed : DaemonFailureKind → Ran A
  other_error : StoreError → Ran A

abbrev pub Watch : Type 0 → Type 0
Watch A = Db → Ran A × Db

abbrev pub ran_of : {A : Type 0} → Outcome A × Db → Ran A × Db
ran_of (returned a, db) = (completed a, db)
ran_of (raised e, db) = (other_error e, db)

-- A method of the store.
unfoldable pub calls : {A : Type 0} → Session A → Watch A
calls m db = ran_of (m db)

unfoldable pub completes : {A : Type 0} → A → Watch A
completes a db = (completed a, db)

unfoldable pub fails : {A : Type 0} → DaemonFailureKind → Watch A
fails kind db = (daemon_failed kind, db)

abbrev pub continued : {A B : Type 0} → Ran A × Db → (A → Watch B) → Ran B × Db
continued (completed a, db) f = f a db
continued (daemon_failed kind, db) f = (daemon_failed kind, db)
continued (other_error e, db) f = (other_error e, db)

infixl 5 ◌>>=◌ ◌>>◌
unfoldable pub ◌>>=◌ : {A B : Type 0} → Watch A → (A → Watch B) → Watch B
◌>>=◌ m f db = continued (m db) f

abbrev pub ◌>>◌ : {B : Type 0} → Watch (Unit {0}) → Watch B → Watch B
m >> k = m >>= λ _. k

abbrev pub normalized : {A : Type 0} → DaemonFailureKind → Ran A × Db → Ran A × Db
normalized kind (completed a, db) = (completed a, db)
normalized kind (daemon_failed inner, db) = (daemon_failed inner, db)
normalized kind (other_error e, db) = (daemon_failed kind, db)

unfoldable pub run_daemon_phase : {A : Type 0} → DaemonFailureKind → Watch A → Watch A
run_daemon_phase kind operation db = normalized kind (operation db)

-- `except DaemonFailureError as failure: handler; raise`
abbrev pub reraised :
    {A : Type 0} → Ran A × Db → (DaemonFailureKind → Watch (Unit {0})) → Ran A × Db
reraised (daemon_failed kind, db) handler = continued (handler kind db) (λ _. fails kind)
reraised (completed a, db) handler = (completed a, db)
reraised (other_error e, db) handler = (other_error e, db)

unfoldable pub on_failure :
    {A : Type 0} → Watch A → (DaemonFailureKind → Watch (Unit {0})) → Watch A
unfolding fails
on_failure m handler db = reraised (m db) handler

-- `finally: cleanup`
abbrev pub cleaned : {A : Type 0} → Ran A → Ran (Unit {0}) × Db → Ran A × Db
cleaned r (completed u, db) = (r, db)
cleaned r (daemon_failed kind, db) = (daemon_failed kind, db)
cleaned r (other_error e, db) = (other_error e, db)

unfoldable pub with_cleanup : {A : Type 0} → Watch A → Watch (Unit {0}) → Watch A
with_cleanup m cleanup db = cleaned (m db).0 (cleanup (m db).1)
