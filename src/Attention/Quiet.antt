-- ===== src/Attention/Quiet.antt =====
-- Quiet hours as an arc of the clock.
use proactive_mcp.Prelude.{ℕ, ◌+◌, ◌-◌, ◌<◌, ◌≡◌, arith, ltb, leb, if◌then◌else◌}
use proactive_mcp.Attention.{is_quiet_time}

-- The way round the clock from one time of day to another.
abbrev pub way_round : ℕ → ℕ → ℕ → ℕ
way_round day start t = if leb start t then t - start else t + day - start

-- For times of one day of any positive length, a time is quiet just if the way round the clock from
-- the start of the quiet hours to it is shorter than the way to their end.
pub is_quiet_time_lem :
    (day t start end : ℕ)
    → t < day
    → start < day
    → end < day
    → is_quiet_time t start end ≡ ltb (way_round day start t) (way_round day start end)
unfolding is_quiet_time
is_quiet_time_lem day t start end ht hs he = ground arith
