-- ===== src/Daemon/Watcher/Totals.antt =====
-- What a continuous run returns, and that it ends.
use proactive_mcp.Prelude.{
  ℕ, zero, suc, ◌+◌, ◌<◌, ◌≤◌, String, ◌≡◌, refl, sym, subst, ◌==◌, ==→eq, Bool, true, false,
  Option, some, List, arith, Bool-cases, inl, inr, length,
}
use proactive_mcp.Db.{Db, StoreError}
use proactive_mcp.Fallbacks.Dispatch.{FallbackDispatch}
use proactive_mcp.Evaluation.Service.{EvaluationPass}
use proactive_mcp.Daemon.Phase
use proactive_mcp.Daemon.Phase.{
  Ran, completed, daemon_failed, other_error, Watch, completes, continued, with_cleanup, cleaned,
  calls, ◌>>=◌,
}
use proactive_mcp.Daemon.Watcher.{
  DaemonRun, PassReadings, remaining_delay, pass_forever, loop, run_forever,
}

-- A result that is no return for want of fuel, and whose run ended at a wait that said so.
pub data Ended (wait : ℕ → ℕ → Bool) (n bound : ℕ) : Ran (Option DaemonRun) → Type 0 where
  stopped :
      (r : DaemonRun) (delay last : ℕ)
      → r.pass_count ≡ suc last
      → n ≤ last
      → last ≤ bound
      → wait last delay ≡ false
      → Ended wait n bound (completed (some r))
  by_failure : (kind : Phase.DaemonFailureKind) → Ended wait n bound (daemon_failed kind)
  by_error : (e : StoreError) → Ended wait n bound (other_error e)

continued-Ended :
    {A : Type 0} (wait : ℕ → ℕ → Bool) (n bound : ℕ) (r : Ran A × Db)
    (f : A → Watch (Option DaemonRun))
    → ((a : A) (d : Db) → Ended wait n bound (f a d).0)
    → Ended wait n bound (continued r f).0
continued-Ended wait n bound (completed a, db) f h = h a db
continued-Ended wait n bound (daemon_failed kind, db) f h = by_failure kind
continued-Ended wait n bound (other_error e, db) f h = by_error e

cleaned-Ended :
    (wait : ℕ → ℕ → Bool) (n bound : ℕ) (r : Ran (Option DaemonRun)) (c : Ran (Unit {0}) × Db)
    → Ended wait n bound r
    → Ended wait n bound (cleaned r c).0
cleaned-Ended wait n bound r (completed u, db) h = h
cleaned-Ended wait n bound r (daemon_failed kind, db) h = by_failure kind
cleaned-Ended wait n bound r (other_error e, db) h = by_error e

bind-Ended :
    {A : Type 0} (wait : ℕ → ℕ → Bool) (n bound : ℕ) (m : Watch A)
    (f : A → Watch (Option DaemonRun)) (db : Db)
    → ((a : A) (d : Db) → Ended wait n bound (f a d).0)
    → Ended wait n bound ((m >>= f) db).0
unfolding ◌>>=◌
bind-Ended wait n bound m f db h = continued-Ended wait n bound (m db) f h

with_cleanup-Ended :
    (wait : ℕ → ℕ → Bool) (n bound : ℕ) (m : Watch (Option DaemonRun)) (c : Watch (Unit {0}))
    (db : Db)
    → Ended wait n bound (m db).0
    → Ended wait n bound (with_cleanup m c db).0
unfolding with_cleanup
with_cleanup-Ended wait n bound m c db h = cleaned-Ended wait n bound (m db).0 (c (m db).1) h

module _ (token : String) (pid : ℕ) (evaluate_once : Watch EvaluationPass)
    (dispatch_at : ℕ → Watch (List FallbackDispatch)) (poll_interval : ℕ)
    (readings : ℕ → PassReadings) (wait : ℕ → ℕ → Bool) (bound : ℕ)
    (stops : (delay : ℕ) → wait bound delay ≡ false) where
  abbrev go : ℕ → ℕ → ℕ → Watch (Option DaemonRun)
  go = loop token pid evaluate_once dispatch_at poll_interval readings wait

  not_last : (n delay : ℕ) → n ≤ bound → wait n delay ≡ true → suc n ≤ bound
  not_last n delay le again = elim (Bool-cases (n == bound)) [
    | inl same ↦
        let last : n ≡ bound = ==→eq n bound same in
        let over : wait n delay ≡ false =
          subst (λ m. wait m delay ≡ false) (sym last) (stops delay) in
        absurd (cc)
    | inr other ↦ ground (arith, le)
  ]

  earlier : (n : ℕ) (r : Ran (Option DaemonRun)) → Ended wait (suc n) bound r → Ended wait n bound r
  earlier n _ (stopped r delay last count le up e) =
      stopped r delay last count (omega (arith, le)) up e
  earlier n _ (by_failure kind) = by_failure kind
  earlier n _ (by_error e) = by_error e

  loop-Ended :
      (fuel n notified : ℕ) (db : Db)
      → n ≤ bound
      → bound < n + fuel
      → Ended wait n bound (go fuel n notified db).0
  unfolding loop completes ◌>>=◌
  loop-Ended zero n notified db le enough = absurd (omega (arith, le, enough))
  loop-Ended (suc fuel) n notified db le enough =
      continued-Ended wait n bound
        (pass_forever token pid evaluate_once dispatch_at (readings n) db) _
        λ pass d.
          let delay = remaining_delay poll_interval (readings n).started (readings n).ended in
          elim (Bool-cases (wait n delay)) [
            | inl again ↦ rw again (
                earlier n _ (
                  loop-Ended fuel (suc n) (notified + length pass.notifications) d
                    (not_last n delay le again) (omega (arith, enough))))
            | inr over ↦ rw over (stopped _ delay n refl (omega arith) le over)
          ]

  -- The scheduler stops the loop at the wait `bound` at the latest, whatever its delay, and the fuel
  -- exceeds that: then `run_forever` does not run out of fuel. It ends with DaemonFailureError or
  -- another exception, or it returns, and then the wait after its last pass is the one that said to
  -- stop.
  pub run_forever-Ended :
      (fuel claimed_at stopped_at : ℕ) (db : Db)
      → bound < fuel
      → Ended wait 0 bound
          (run_forever token pid evaluate_once dispatch_at poll_interval readings wait fuel
            claimed_at stopped_at db).0
  unfolding run_forever
  run_forever-Ended fuel claimed_at stopped_at db enough = bind-Ended wait 0 bound _ _ db λ u d.
      with_cleanup-Ended wait 0 bound _ _ d (
        bind-Ended wait 0 bound _ _ d
          λ v e. loop-Ended fuel 0 0 e (omega arith) (omega (arith, enough)))
