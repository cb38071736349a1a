-- ===== src/Notify/Schedule.antt =====
-- src/notify.rs: when the daily summary is due. Instants are numbers of seconds, and a local date and
-- time is the number of seconds on the wall clock; the time zone, which turns one into the other, is an
-- argument.
pub mod Next
use irc2torrent.Prelude.{
  ℕ, ◌+◌, ◌*◌, Bool, true, false, ◌&&◌, Text, Option, none, some, Result, ok, err, if◌then◌else◌,
  ltb,
}
use irc2torrent.Configuration.Sections.{default_summary_time}
use irc2torrent.Configuration.Summary.{parse_summary_time}

-- `LocalResult`
pub data LocalResult : Type 0 where
  single : ℕ → LocalResult
  ambiguous : (first second : ℕ) → LocalResult
  skipped : LocalResult

abbrev pub earliest : LocalResult → Option ℕ
earliest (single t) = some t
earliest (ambiguous first second) = some first
earliest skipped = none

-- Midnight of a day, and a time of it
abbrev pub wall_clock : ℕ → ℕ → ℕ → ℕ
wall_clock day hour minute = day * 86400 + (hour * 3600 + minute * 60)

module _ (from_local_datetime : ℕ → LocalResult) where
  abbrev pub resolved : ℕ → LocalResult → Option ℕ
  resolved naive (single t) = some t
  resolved naive (ambiguous first second) = some first
  resolved naive skipped = earliest (from_local_datetime (naive + 3600))

  unfoldable pub local_at : ℕ → ℕ → ℕ → Option ℕ
  local_at day hour minute =
      let naive = wall_clock day hour minute in
      if ltb hour 24 && ltb minute 60 then resolved naive (from_local_datetime naive) else none

  abbrev pub after_now : ℕ → Option ℕ → ℕ → ℕ
  after_now now none later = later
  after_now now (some candidate) later = if ltb now candidate then candidate else later

  -- `today` is the local day of `now`: three days are tried.
  unfoldable pub next_summary_after : ℕ × ℕ → ℕ → ℕ → ℕ
  next_summary_after (hour, minute) today now = after_now now (local_at today hour minute) (
      after_now now (local_at (today + 1) hour minute)
        (after_now now (local_at (today + 2) hour minute) (now + 86400)))

abbrev pub time_of {ℓ} : {E : Type ℓ} → Result E (ℕ × ℕ) → Option (ℕ × ℕ)
time_of (ok hm) = some hm
time_of (err e) = none

-- `expect` on the default is `none` if that is no time either.
abbrev pub or_default_time : Option (ℕ × ℕ) → Option (ℕ × ℕ)
or_default_time (some hm) = some hm
or_default_time none = time_of (parse_summary_time default_summary_time)

unfoldable pub summary_time : Text → Option (ℕ × ℕ)
summary_time daily_summary_at = or_default_time (time_of (parse_summary_time daily_summary_at))
