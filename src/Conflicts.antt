-- ===== src/Conflicts.antt =====
-- src/proactive_mcp/situations/calendar_conflict.py: the sweep over the committed intervals. The
-- texts of a detection are left out; a conflict is its pair and its overlap. `heapq` is a list kept
-- in order, and a dict of intervals by their number is a list in the order of insertion.
pub mod Sweep
pub mod Agreement
pub mod Output
pub mod Tracks
pub mod Pairwise
use proactive_mcp.Prelude.{
  ℕ, suc, ◌+◌, String, Bool, true, false, not, ◌&&◌, ◌||◌, Option, none, some, List, [], ◌∷◌, ◌++◌,
  ltb, leb, ◌==◌, if◌then◌else◌, select_where, length, min,
}
use proactive_mcp.Prelude.Sort.{insert}
use proactive_mcp.Model.Situation.{SituationPriority, critical, high, routine}
use proactive_mcp.Situations.Reader.{then_by}

pub record Interval : Type 0 where
  pub event_id : String
  pub start : ℕ
  pub end : ℕ
  pub all_day : Bool

pub record Conflict : Type 0 where
  pub first : Interval
  pub second : Interval
  pub overlap_start : ℕ
  pub overlap_end : ℕ

pub record CalendarConflictRun : Type 0 where
  pub detections : List Conflict
  pub resolution_safe : Bool

-- MAX_CALENDAR_CONFLICTS
abbrev pub max_calendar_conflicts : ℕ
max_calendar_conflicts = 1000

-- An entry of `active`, and one of `ends`.
abbrev pub Entry : Type 0
Entry = ℕ × Interval

abbrev pub End : Type 0
End = ℕ × ℕ

abbrev pub end_before : End → End → Bool
end_before a b = then_by a.0 b.0 (ltb a.1 b.1)

-- `dict.pop(sequence)`
abbrev pub without : ℕ → List Entry → List Entry
without n entries = select_where (λ x. not (x.0 == n)) entries

pub record Actives : Type 0 where
  pub ends : List End
  pub active : List Entry
  pub active_timed : List Entry

-- The loop that pops the ends up to a start. An all-day entry stands in `active` alone.
unfoldable pub expire_ends : ℕ → List End → List Entry → List Entry → Actives
expire_ends start [] active timed = record { ends = []; active = active; active_timed = timed }
expire_ends start (e ∷ ends) active timed =
    let popped = expire_ends start ends (without e.1 active) (without e.1 timed) in
    if leb e.0 start
    then popped
    else record { ends = e ∷ ends; active = active; active_timed = timed }

-- The loop over the candidates; the Boolean says that the output did not overflow.
unfoldable pub add_conflicts : ℕ → Interval → List Entry → List Conflict → List Conflict × Bool
add_conflicts now current [] found = (found, true)
add_conflicts now current (p ∷ rest) found =
    let skip = add_conflicts now current rest found in
    let more = add_conflicts now current rest (
      found
      ++ record {
        first = p.1;
        second = current;
        overlap_start = current.start;
        overlap_end = min p.1.end current.end;
      }
        ∷ []) in
    if leb (min p.1.end current.end) now
    then skip
    else if length found == max_calendar_conflicts
    then (found, false)
    else more

abbrev pub candidates_of : Interval → Actives → List Entry
candidates_of current state = if current.all_day then state.active_timed else state.active

-- `current` joins the active intervals.
unfoldable pub push : ℕ → Interval → Actives → Actives
push n current state = record {
  ends = insert end_before (current.end, n) state.ends;
  active = state.active ++ (n, current) ∷ [];
  active_timed =
      if current.all_day then state.active_timed else state.active_timed ++ (n, current) ∷ [];
}

-- The loop over the intervals, in their order.
unfoldable pub sweep : ℕ → ℕ → Actives → List Interval → List Conflict → List Conflict × Bool
sweep now n state [] found = (found, true)
sweep now n state (current ∷ rest) found =
    let live = expire_ends current.start state.ends state.active state.active_timed in
    let added = add_conflicts now current (candidates_of current live) found in
    let more = sweep now (suc n) (push n current live) rest added.0 in
    if added.1 then more else (added.0, false)

abbrev pub no_actives : Actives
no_actives = record { ends = []; active = []; active_timed = [] }

-- _priority
unfoldable pub conflict_priority : ℕ → ℕ → ℕ → ℕ → SituationPriority
conflict_priority overlap_start now critical_window high_window =
    if leb overlap_start (now + critical_window)
    then critical
    else if leb overlap_start (now + high_window)
    then high
    else routine
