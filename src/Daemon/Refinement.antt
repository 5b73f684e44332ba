-- ===== src/Daemon/Refinement.antt =====
-- The liveness row refines the lock.
use proactive_mcp.Prelude.{
  ℕ, String, ◌≡◌, refl, ◌∙◌, ap, Bool, true, false, not, ◌&&◌, Option, none, some, List, [], ◌∷◌,
  arith, Bool-cases, inl, inr, ltb, if◌then◌else◌,
}
use proactive_mcp.Model.Daemon.{
  DaemonHeartbeat, DaemonLastRunState, never_run, unknown, succeeded, degraded, failed,
  DaemonFailurePhase, DaemonFailureCode, is_running,
}
use proactive_mcp.Db.{Db, transaction, ◌>>=◌, raise, pure}
use proactive_mcp.Daemon.Status.{
  owned_by, is_owned, is_expired, first_of, later_than, alive_test, is_positive, write_start,
  start_over, try_record_start, record_heartbeat, record_stop, record_run_started,
  record_run_outcome, update_owned, record_owned, refuse_owned, beaten, stopped_row,
}
use proactive_mcp.Daemon.Lock.{
  acquire, renew, release, view, DaemonCall, starts, beats, stops, sets_mode, sets_outcome,
  after_call, after_calls, may_start, lock_after, lock_after_calls,
}

-- The row after a write by its owner.
abbrev pub owned_row :
    String → (DaemonHeartbeat → DaemonHeartbeat) → Option DaemonHeartbeat → Option DaemonHeartbeat
owned_row token change none = none
owned_row token change (some h) = some (if is_owned token h then change h else h)

abbrev with_row : Db → Option DaemonHeartbeat → Db
with_row db row = record db { daemon_status = row }

pub record_owned_lem :
    (token : String) (change : DaemonHeartbeat → DaemonHeartbeat) (db : Db)
    (row : Option DaemonHeartbeat)
    → (record_owned token change (with_row db row)).1.daemon_status ≡ owned_row token change row
unfolding record_owned update_owned ◌>>=◌ transaction
record_owned_lem token change db none = refl
record_owned_lem token change db (some h) = elim (Bool-cases (is_owned token h)) [
  | inl e ↦ rw e refl
  | inr e ↦ rw e refl
]

-- A start of process 0 changes nothing.
start_over-refused :
    (token : String) (pid : ℕ) (interval : Option ℕ) (is_alive : Option (ℕ → Bool)) (now : ℕ)
    (db : Db) (row : Option DaemonHeartbeat)
    → ltb 0 pid ≡ false
    → (transaction (start_over token pid interval is_alive now row) db).1 ≡ db
unfolding start_over write_start transaction raise pure
start_over-refused token pid interval is_alive now db none p = rw p refl
start_over-refused token pid interval is_alive now db (some h) p =
    elim (Bool-cases (is_owned token h)) [
      | inl own ↦ rw own refl
      | inr own ↦
          elim (Bool-cases
            (is_running h.state && not (is_expired h now interval) && alive_test is_alive h.pid)) [
              | inl stands ↦ rw (own, stands) refl
              | inr stands ↦ rw (own, stands, p) refl
            ]
    ]

try_record_start-refused :
    (token : String) (pid : ℕ) (interval : Option ℕ) (is_alive : Option (ℕ → Bool)) (now : ℕ)
    (db : Db)
    → may_start pid interval ≡ false
    → (try_record_start token pid interval is_alive now db).1 ≡ db
unfolding try_record_start ◌>>=◌ start_over transaction
try_record_start-refused token pid interval is_alive now db refused =
    elim (Bool-cases (is_positive interval)) [
      | inl e ↦
          rw e
            (start_over-refused token pid interval is_alive now db db.daemon_status (ground arith))
      | inr e ↦ rw e refl
    ]

-- A start over a row, refused or not.
start_over_lem :
    (token : String) (pid : ℕ) (interval : Option ℕ) (is_alive : Option (ℕ → Bool)) (now : ℕ)
    (db : Db) (row : Option DaemonHeartbeat)
    → ltb 0 pid ≡ true
    → view
        (transaction
          (start_over token pid interval is_alive now row)
          (with_row db row)).1.daemon_status
      ≡ (acquire token pid interval is_alive now (view row)).1
unfolding start_over write_start is_expired transaction ◌>>=◌
start_over_lem token pid interval is_alive now db none p = rw p refl
start_over_lem token pid interval is_alive now db (some h) p =
    elim (Bool-cases (is_running h.state)) [
      | inl run ↦ elim (Bool-cases (owned_by token h.owner_token)) [
        | inl own ↦ rw (run, own) (rw run refl)
        | inr own ↦
            elim (Bool-cases (
              not (later_than now h.heartbeat_at (first_of h.poll_interval interval))
              && alive_test is_alive h.pid)) [
                | inl stands ↦ rw (run, own, stands) (rw run refl)
                | inr stands ↦ rw (run, own, stands, p) refl
              ]
      ]
      | inr run ↦ rw (run, p) refl
    ]

try_record_start_lem :
    (token : String) (pid : ℕ) (interval : Option ℕ) (is_alive : Option (ℕ → Bool)) (now : ℕ)
    (db : Db)
    → view (try_record_start token pid interval is_alive now db).1.daemon_status
      ≡ lock_after (starts token pid interval is_alive now) (view db.daemon_status)
unfolding try_record_start ◌>>=◌ start_over transaction
try_record_start_lem token pid interval is_alive now db =
    elim (Bool-cases (may_start pid interval)) [
      | inl allowed ↦
          let e : is_positive interval ≡ true = ground arith in
          let p : ltb 0 pid ≡ true = ground arith in
          rw (e, p) (start_over_lem token pid interval is_alive now db db.daemon_status p)
      | inr refused ↦
          ap (λ d. view d.daemon_status)
            (try_record_start-refused token pid interval is_alive now db refused)
          ∙ rw refused refl
    ]

-- An owned change that keeps what the lock sees.
owned_row-kept :
    (token : String) (change : DaemonHeartbeat → DaemonHeartbeat) (row : Option DaemonHeartbeat)
    → ((h : DaemonHeartbeat) → view (some (change h)) ≡ view (some h))
    → view (owned_row token change row) ≡ view row
owned_row-kept token change none keeps = refl
owned_row-kept token change (some h) keeps = elim (Bool-cases (is_owned token h)) [
  | inl e ↦ rw e (keeps h)
  | inr e ↦ rw e refl
]

view-beaten :
    (token : String) (now : ℕ) (row : Option DaemonHeartbeat)
    → view (owned_row token (beaten now) row) ≡ renew token now (view row)
view-beaten token now none = refl
view-beaten token now (some h) = elim (Bool-cases (is_running h.state)) [
  | inl run ↦ elim (Bool-cases (owned_by token h.owner_token)) [
    | inl own ↦ rw (run, own) refl
    | inr own ↦ rw (run, own) (rw run refl)
  ]
  | inr run ↦ rw run (rw run refl)
]

view-stopped :
    (token : String) (now : ℕ) (row : Option DaemonHeartbeat)
    → view (owned_row token (stopped_row now) row) ≡ release token (view row)
view-stopped token now none = refl
view-stopped token now (some h) = elim (Bool-cases (is_running h.state)) [
  | inl run ↦ elim (Bool-cases (owned_by token h.owner_token)) [
    | inl own ↦ rw (run, own) refl
    | inr own ↦ rw (run, own) (rw run refl)
  ]
  | inr run ↦ rw run (rw run refl)
]

record_owned-view :
    (token : String) (change : DaemonHeartbeat → DaemonHeartbeat) (db : Db)
    → ((h : DaemonHeartbeat) → view (some (change h)) ≡ view (some h))
    → view (record_owned token change db).1.daemon_status ≡ view db.daemon_status
record_owned-view token change db keeps =
    ap view (record_owned_lem token change db db.daemon_status)
    ∙ owned_row-kept token change db.daemon_status keeps

refuse_owned-view :
    (token : String) (db : Db) (row : Option DaemonHeartbeat)
    → (transaction (refuse_owned token row) db).1 ≡ db
unfolding transaction raise pure
refuse_owned-view token db none = refl
refuse_owned-view token db (some h) = elim (Bool-cases (is_owned token h)) [
  | inl e ↦ rw e refl
  | inr e ↦ rw e refl
]

record_run_outcome-view :
    (token : String) (state : DaemonLastRunState) (phase : Option DaemonFailurePhase)
    (code : Option DaemonFailureCode) (failure_at completed_at : ℕ) (db : Db)
    → view (record_run_outcome token state phase code failure_at completed_at db).1.daemon_status
      ≡ view db.daemon_status
unfolding record_run_outcome raise transaction ◌>>=◌
record_run_outcome-view token failed none code f c db = refl
record_run_outcome-view token failed (some phase) none f c db = refl
record_run_outcome-view token failed (some phase) (some code) f c db =
    record_owned-view token _ db (λ h. refl)
record_run_outcome-view token never_run phase code f c db =
    ap (λ d. view d.daemon_status) (refuse_owned-view token db db.daemon_status)
record_run_outcome-view token unknown phase code f c db = record_owned-view token _ db (λ h. refl)
record_run_outcome-view token succeeded phase code f c db = record_owned-view token _ db (λ h. refl)
record_run_outcome-view token degraded phase code f c db = record_owned-view token _ db (λ h. refl)

after_call-view :
    (c : DaemonCall) (db : Db)
    → view (after_call c db).daemon_status ≡ lock_after c (view db.daemon_status)
unfolding record_heartbeat record_stop record_run_started
after_call-view (starts token pid interval is_alive now) db =
    try_record_start_lem token pid interval is_alive now db
after_call-view (beats token now) db =
    ap view (record_owned_lem token (beaten now) db db.daemon_status)
    ∙ view-beaten token now db.daemon_status
after_call-view (stops token now) db =
    ap view (record_owned_lem token (stopped_row now) db db.daemon_status)
    ∙ view-stopped token now db.daemon_status
after_call-view (sets_mode token mode) db = record_owned-view token _ db (λ h. refl)
after_call-view (sets_outcome token state phase code failure_at completed_at) db =
    record_run_outcome-view token state phase code failure_at completed_at db

-- The row refines the lock: whatever instances call the methods, in any order and at any times, the
-- lock that the row shows changes as the lock's own operations say; a call that is refused or fails
-- leaves the lock as it is.
pub after_calls-view :
    (calls : List DaemonCall) (db : Db)
    → view (after_calls calls db).daemon_status ≡ lock_after_calls calls (view db.daemon_status)
unfolding after_calls lock_after_calls
after_calls-view [] db = refl
after_calls-view (c ∷ calls) db =
    after_calls-view calls (after_call c db) ∙ ap (lock_after_calls calls) (after_call-view c db)
