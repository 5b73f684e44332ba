-- ===== src/Guards/LazySync.antt =====
-- src/proactive_mcp/store/_lazy_sync_lease.py: one process at a time reads the sources.
use proactive_mcp.Prelude.{
  ℕ, String, ◌+◌, ◌<◌, ◌≡◌, refl, Bool, true, false, Option, none, some, List, [], ◌∷◌, leb, ◌==◌,
  str_eq, if◌then◌else◌, All, arith,
}

pub record LazySyncLease : Type 0 where
  pub token : String
  pub acquired_at : ℕ
  pub expires_at : ℕ

-- InvalidLazySyncLeaseDurationError, or what the call returns.
pub data Acquired : Type 0 where
  invalid_duration : Acquired
  outcome : Option LazySyncLease → Acquired

abbrev is_free : ℕ → Option LazySyncLease → Bool
is_free now none = true
is_free now (some row) = leb row.expires_at now

abbrev pub lease_for : String → ℕ → ℕ → LazySyncLease
lease_for token now duration = record {
  token = token;
  acquired_at = now;
  expires_at = now + duration;
}

-- The token is a fresh UUID; a duration that is not positive stands as 0.
unfoldable pub acquire : String → ℕ → ℕ → Option LazySyncLease → Acquired × Option LazySyncLease
acquire token duration now row =
    if duration == 0
    then (invalid_duration, row)
    else if is_free now row
    then (outcome (some (lease_for token now duration)), some (lease_for token now duration))
    else (outcome none, row)

unfoldable pub release : String → Option LazySyncLease → Bool × Option LazySyncLease
release token none = (false, none)
release token (some row) = if str_eq row.token token then (true, none) else (false, some row)

-- What processes do to the row, in the order of their transactions.
pub data Event : Type 0 where
  acquires : String → ℕ → ℕ → Event
  releases : String → Event

abbrev pub happens : Event → Option LazySyncLease → Option LazySyncLease
happens (acquires token duration now) row = (acquire token duration now row).1
happens (releases token) row = (release token row).1

unfoldable pub run : List Event → Option LazySyncLease → Option LazySyncLease
run [] row = row
run (e ∷ events) row = run events (happens e row)

-- An attempt before the lease ends, or the release of another token.
abbrev pub IsOther : LazySyncLease → Event → Type 0
IsOther lease (acquires token duration now) = now < lease.expires_at
IsOther lease (releases token) = str_eq lease.token token ≡ false

happens-IsOther :
    (lease : LazySyncLease) (e : Event) → IsOther lease e → happens e (some lease) ≡ some lease
unfolding acquire release
happens-IsOther lease (acquires token duration now) h = ground arith
happens-IsOther lease (releases token) h = ground arith

-- Through any events that are attempts before a lease's end or releases of other tokens, the lease
-- is still held.
pub run-IsOther :
    (lease : LazySyncLease) (events : List Event)
    → All (IsOther lease) events
    → run events (some lease) ≡ some lease
unfolding run
run-IsOther lease [] h = refl
run-IsOther lease (e ∷ events) h = rw (happens-IsOther lease e h.0) (run-IsOther lease events h.1)

abbrev pub holder : Acquired → Option LazySyncLease
holder invalid_duration = none
holder (outcome lease) = lease

acquire-stored :
    (token : String) (duration now : ℕ) (row : Option LazySyncLease) (lease : LazySyncLease)
    → holder (acquire token duration now row).0 ≡ some lease
    → (acquire token duration now row).1 ≡ some lease
unfolding acquire
acquire-stored token duration now row lease h = ground arith

acquire-refused :
    (lease : LazySyncLease) (token : String) (duration now : ℕ)
    → now < lease.expires_at
    → holder (acquire token duration now (some lease)).0 ≡ none
unfolding acquire
acquire-refused lease token duration now h = ground arith

-- Exclusion: after an attempt that got the lease and any events that are attempts before its end
-- or releases of other tokens, one more attempt before its end gets none.
pub acquire_excludes :
    (token : String) (duration now : ℕ) (row : Option LazySyncLease) (lease : LazySyncLease)
    (events : List Event) (rival : String) (rival_duration later : ℕ)
    → holder (acquire token duration now row).0 ≡ some lease
    → All (IsOther lease) events
    → later < lease.expires_at
    → holder (acquire rival rival_duration later (run events (acquire token duration now row).1)).0
      ≡ none
acquire_excludes token duration now row lease events rival rival_duration later got others early =
    rw (acquire-stored token duration now row lease got) (
      rw (run-IsOther lease events others) (acquire-refused lease rival rival_duration later early))
