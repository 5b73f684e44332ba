-- ===== src/Detectors/ReplyDeadline.antt =====
-- src/proactive_mcp/situations/reply_deadline.py. The texts of numbers and dates that Python makes
-- are arguments.
use proactive_mcp.Prelude.{
  ℕ, ◌+◌, ◌-◌, ◌/◌, ◌≡◌, refl, String, Bool, true, false, not, ◌&&◌, ◌||◌, Option, none, some, List,
  [], ◌∷◌, ◌++◌, map, leb, if◌then◌else◌, select_where, ap,
}
use Prim.Native.String.{◌++◌ as ◌<>◌}
use proactive_mcp.Model.Situation.{Detection, SituationPriority, reply_deadline, high, routine}
use proactive_mcp.Attention.{Timezone}
use proactive_mcp.Detectors.DeadlineText.{
  DeadlinePatterns, DateRules, DeadlineScan, scan_deadline_text,
}

-- InboxThreadSnapshot of inputs.py
pub record InboxThreadSnapshot : Type 0 where
  pub thread_id : String
  pub latest_message_id : String
  pub latest_from_user : Bool
  pub user_is_recipient : Bool
  pub latest_message_at : ℕ
  pub subject : Option String
  pub sender_display : Option String
  pub snippet : Option String
  pub body_text : Option String
  pub resolution_safe : Bool
  pub degradation_reasons : List String
  pub provider_history_cursor : Option String

pub record TextFormats : Type 0 where
  -- str of a whole number that is not negative
  pub str : ℕ → String
  -- isoformat of a date
  pub iso : ℕ → String
  pub capitalize : String → String

abbrev pub microseconds_per_hour : ℕ
microseconds_per_hour = 3600000000

-- Whole hours, rounded down; a message from the future has a negative age.
pub data Hours : Type 0 where
  hours : ℕ → Hours
  minus_hours : ℕ → Hours

abbrev pub floor_hours : ℕ → ℕ → Hours
floor_hours now at =
    if leb at now
    then hours ((now - at) / microseconds_per_hour)
    else minus_hours ((at - now + (microseconds_per_hour - 1)) / microseconds_per_hour)

-- "\n".join of the parts that are there
abbrev pub present_parts : List (Option String) → List String
present_parts [] = []
present_parts (none ∷ rest) = present_parts rest
present_parts (some part ∷ rest) = part ∷ present_parts rest

abbrev pub join : String → List String → String
join sep [] = ""
join sep (part ∷ []) = part
join sep (part ∷ more ∷ rest) = part <> sep <> join sep (more ∷ rest)

abbrev pub has_marker : DeadlineScan → Bool
has_marker scan = by_marker scan.matched_marker
  where
    by_marker : Option String → Bool
    by_marker none = false
    by_marker (some marker) = true

abbrev pub priority_by : ℕ → Option ℕ → SituationPriority
priority_by today none = routine
priority_by today (some deadline) = if leb deadline (today + 1) then high else routine

-- _priority; `deadline - today <= 1` in days
unfoldable pub reply_priority : DeadlineScan → ℕ → SituationPriority
reply_priority scan today = priority_by today scan.deadline_date

abbrev pub quoted : String → Option String → List (String × String)
quoted key none = []
quoted key (some value) = (key, value) ∷ []

module _ (formats : TextFormats) where
  abbrev pub str_hours : Hours → String
  str_hours (hours n) = formats.str n
  str_hours (minus_hours n) = "-" <> formats.str n

  abbrev pub date_suffix : Option ℕ → String
  date_suffix none = ""
  date_suffix (some deadline) = " for " <> formats.iso deadline

  abbrev pub reply_title : Hours → Option ℕ → String
  reply_title age none = "Reply pending for " <> str_hours age <> "h"
  reply_title age (some deadline) = "Reply needed by " <> formats.iso deadline

  abbrev pub deadline_fact : Option ℕ → List (String × String)
  deadline_fact none = []
  deadline_fact (some deadline) = ("deadline_date", formats.iso deadline) ∷ []

  abbrev pub reasons_of : Hours → Bool → ℕ → DeadlineScan → List String
  reasons_of age aged threshold scan =
      (if aged
        then ("no reply for "
            <> str_hours age
            <> "h (threshold "
            <> formats.str (threshold / microseconds_per_hour)
            <> "h)")
          ∷ []
        else [])
      ++ (if has_marker scan
          then ("deadline language detected" <> date_suffix scan.deadline_date) ∷ []
          else [])

  abbrev pub reply_key : InboxThreadSnapshot → String
  reply_key t = "reply_deadline:" <> t.thread_id <> ":" <> t.latest_message_id

  -- _detection
  unfoldable pub reply_detection :
      InboxThreadSnapshot → Hours → Bool → ℕ → DeadlineScan → ℕ → Detection
  reply_detection t age aged threshold scan today = record {
    situation_type = reply_deadline;
    dedupe_key = reply_key t;
    priority = reply_priority scan today;
    title = reply_title age scan.deadline_date;
    why_now = formats.capitalize (join "; " (reasons_of age aged threshold scan));
    evidence = record {
      facts =
          ("thread_id", t.thread_id)
          ∷ ("latest_message_id", t.latest_message_id)
          ∷ ("age_hours", str_hours age)
          ∷ deadline_fact scan.deadline_date;
      quoted_external =
          quoted "subject" t.subject
          ++ quoted "sender" t.sender_display
          ++ quoted "matched_deadline_text" scan.matched_marker;
      quoted_memory = [];
      contradictory_dates = [];
    };
    expires_at = none;
  }

  module _ (rules : DateRules) (patterns : DeadlinePatterns) (tz : Timezone) where
    abbrev pub thread_scan : ℕ → InboxThreadSnapshot → DeadlineScan
    thread_scan now t =
        scan_deadline_text rules patterns
          (join "\n" (present_parts (t.subject ∷ t.body_text ∷ t.snippet ∷ []))) (tz.local_date now)

    -- age >= threshold
    abbrev pub is_aged : ℕ → ℕ → InboxThreadSnapshot → Bool
    is_aged now threshold t = leb (t.latest_message_at + threshold) now

    abbrev pub thread_detection : ℕ → ℕ → InboxThreadSnapshot → Detection
    thread_detection now threshold t =
        reply_detection t (floor_hours now t.latest_message_at) (is_aged now threshold t) threshold
          (thread_scan now t) (tz.local_date now)

    -- The loop, with its two `continue`s.
    unfoldable pub detect_reply_deadlines : ℕ → ℕ → List InboxThreadSnapshot → List Detection
    detect_reply_deadlines now threshold [] = []
    detect_reply_deadlines now threshold (t ∷ threads) =
        let rest = detect_reply_deadlines now threshold threads in
        if t.latest_from_user || not t.user_is_recipient
        then rest
        else if not (is_aged now threshold t) && not (has_marker (thread_scan now t))
        then rest
        else thread_detection now threshold t ∷ rest

    -- A thread that waits for the user: the other side wrote last, to the user, and the message has
    -- aged or names a deadline.
    abbrev pub awaits_reply : ℕ → ℕ → InboxThreadSnapshot → Bool
    awaits_reply now threshold t =
        not t.latest_from_user
        && t.user_is_recipient
        && (is_aged now threshold t || has_marker (thread_scan now t))

    -- The detections are those of the threads that wait for the user, one for each, in their order:
    -- a thread that the user has answered, or was never asked in, has none.
    pub detect_reply_deadlines_lem :
        (now threshold : ℕ) (threads : List InboxThreadSnapshot)
        → detect_reply_deadlines now threshold threads
          ≡ map (thread_detection now threshold) (select_where (awaits_reply now threshold) threads)
    unfolding detect_reply_deadlines
    detect_reply_deadlines_lem now threshold [] = refl
    detect_reply_deadlines_lem now threshold (t ∷ threads) =
        let rest = detect_reply_deadlines_lem now threshold threads in
        by_tests t.latest_from_user t.user_is_recipient (is_aged now threshold t)
          (has_marker (thread_scan now t)) rest
      where
        by_tests :
            (mine asked aged marked : Bool)
            → detect_reply_deadlines now threshold threads
              ≡ map
                  (thread_detection now threshold)
                  (select_where (awaits_reply now threshold) threads)
            → (if mine || not asked
                then detect_reply_deadlines now threshold threads
                else if not aged && not marked
                then detect_reply_deadlines now threshold threads
                else thread_detection now threshold t
                  ∷ detect_reply_deadlines now threshold threads)
              ≡ map (thread_detection now threshold) (
                  if not mine && asked && (aged || marked)
                  then t ∷ select_where (awaits_reply now threshold) threads
                  else select_where (awaits_reply now threshold) threads)
        by_tests true asked aged marked e = e
        by_tests false false aged marked e = e
        by_tests false true false false e = e
        by_tests false true true marked e = ap (λ ds. thread_detection now threshold t ∷ ds) e
        by_tests false true false true e = ap (λ ds. thread_detection now threshold t ∷ ds) e
