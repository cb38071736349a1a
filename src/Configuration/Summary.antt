-- ===== src/Configuration/Summary.antt =====
-- src/config.rs: the time of the daily summary.
pub mod Clock
use irc2torrent.Prelude.{
  split_once, ℕ, Bool, ◌||◌, List, [], ◌∷◌, Text, Option, none, some, Result, ok, err, ◌==◌,
  if◌then◌else◌, ltb, trim,
}
use irc2torrent.Clients.Qbittorrent.Version.{parse_u32}
use irc2torrent.Configuration.Checks.{ConfigError, bad_summary_time}

abbrev pub in_range : Text → Option ℕ → Option ℕ → Result ConfigError (ℕ × ℕ)
in_range value (some hour) (some minute) =
    if ltb 23 hour || ltb 59 minute then err (bad_summary_time value) else ok (hour, minute)
in_range value _ _ = err (bad_summary_time value)

abbrev pub time_parts : Text → Option (Text × Text) → Result ConfigError (ℕ × ℕ)
time_parts value none = err (bad_summary_time value)
time_parts value (some (h, m)) = in_range value (parse_u32 (trim h)) (parse_u32 (trim m))

unfoldable pub parse_summary_time : Text → Result ConfigError (ℕ × ℕ)
parse_summary_time value = time_parts value (split_once b':' (trim value))
