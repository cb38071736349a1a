-- ===== src/Notify/Limit.antt =====
-- src/notify.rs: the hourly cap of one backend. An `Instant` is a number of seconds that is passed
-- in; the counters stay below the 32 bits of the source, which a window of 2 ^ 32 refusals would take.
pub mod Window
use irc2torrent.Prelude.{
  ℕ, ◌+◌, ◌-◌, Bool, true, false, Option, none, some, if◌then◌else◌, ltb, leb,
}

pub record RateLimit : Type 0 where
  pub max_per_hour : ℕ
  pub used : ℕ
  pub window_started : ℕ
  pub suppressed : ℕ

unfoldable pub new : ℕ → ℕ → RateLimit
new max_per_hour now = record {
  max_per_hour = max_per_hour;
  used = 0;
  window_started = now;
  suppressed = 0;
}

unfoldable pub set_cap : ℕ → RateLimit → RateLimit
set_cap max_per_hour l = record l { max_per_hour = max_per_hour }

unfoldable pub roll : ℕ → RateLimit → RateLimit
roll now l =
    if leb 3600 (now - l.window_started)
    then record l { used = 0; window_started = now; suppressed = 0 }
    else l

unfoldable pub spend : RateLimit → Bool × RateLimit
spend l =
    if ltb l.used l.max_per_hour
    then (true, record l { used = l.used + 1 })
    else (false, record l { suppressed = l.suppressed + 1 })

unfoldable pub allow : ℕ → RateLimit → Bool × RateLimit
unfolding roll spend
allow now l = spend (roll now l)

unfoldable pub take_suppressed : RateLimit → ℕ × RateLimit
take_suppressed l = (l.suppressed, record l { suppressed = 0 })

-- The start of `deliver_to`: whether a message goes out, and the suppressed ones that it reports.
unfoldable pub claimed : Bool × RateLimit → Option ℕ × RateLimit
unfolding take_suppressed
claimed (false, l) = (none, l)
claimed (true, l) = (some (take_suppressed l).0, (take_suppressed l).1)

unfoldable pub claim : ℕ → RateLimit → Option ℕ × RateLimit
unfolding claimed
claim now l = claimed (allow now l)
