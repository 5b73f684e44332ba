-- ===== src/Guards/Evaluation.antt =====
-- src/proactive_mcp/store/_evaluation_gate.py: evaluations do not follow each other too fast.
use proactive_mcp.Prelude.{
  ℕ, ◌+◌, ◌-◌, ◌≤◌, ◌≡◌, Bool, true, false, Option, none, some, List, [], ◌∷◌, leb, if◌then◌else◌,
  arith, Bool-cases, inl, inr,
}

abbrev is_open_gate : ℕ → ℕ → Option ℕ → Bool
is_open_gate interval now none = true
is_open_gate interval now (some last) = leb last (now - interval)

-- The result and the column `last_started_at`. No result: `now - minimum_interval` is before the
-- first datetime, an OverflowError before the transaction.
unfoldable pub try_start : ℕ → ℕ → Option ℕ → Option Bool × Option ℕ
try_start interval now row =
    if leb interval now
    then (if is_open_gate interval now row then (some true, some now) else (some false, row))
    else (none, row)

abbrev pub started : ℕ → Option Bool → List ℕ → List ℕ
started now (some true) rest = now ∷ rest
started now _ rest = rest

-- The times of the attempts that started, of a sequence of attempts by any processes.
unfoldable pub starts : ℕ → List ℕ → Option ℕ → List ℕ
starts interval [] row = []
starts interval (now ∷ attempts) row =
    started now (try_start interval now row).0
      (starts interval attempts (try_start interval now row).1)

abbrev pub Follows : ℕ → Option ℕ → ℕ → Type 0
Follows interval none t = Unit {0}
Follows interval (some last) t = last + interval ≤ t

-- Each start is at least the interval after the one before it.
abbrev pub IsSpaced : ℕ → Option ℕ → List ℕ → Type 0
IsSpaced interval last [] = Unit {0}
IsSpaced interval last (t ∷ ts) = Follows interval last t × IsSpaced interval (some t) ts

module _ (interval : ℕ) where
  Follows-open :
      (now : ℕ) (row : Option ℕ)
      → leb interval now ≡ true
      → is_open_gate interval now row ≡ true
      → Follows interval row now
  Follows-open now none fits h = tt
  Follows-open now (some last) fits h = ground arith

  -- Whatever the clocks of the attempts say, the attempts that start are at least the interval
  -- apart, the first of them from the start on record.
  pub starts-IsSpaced :
      (attempts : List ℕ) (row : Option ℕ) → IsSpaced interval row (starts interval attempts row)
  unfolding starts try_start
  starts-IsSpaced [] row = tt
  starts-IsSpaced (now ∷ attempts) row = elim (Bool-cases (leb interval now)) [
    | inl fits ↦ elim (Bool-cases (is_open_gate interval now row)) [
      | inl free ↦
          rw fits (rw free (Follows-open now row fits free, starts-IsSpaced attempts (some now)))
      | inr closed ↦ rw fits (rw closed (starts-IsSpaced attempts row))
    ]
    | inr early ↦ rw early (starts-IsSpaced attempts row)
  ]
