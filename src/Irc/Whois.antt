-- ===== src/Irc/Whois.antt =====
-- src/irc_processor.rs: the per-nick record of failed identity checks and the shared budget of them.
-- An `Instant` is a number of seconds, passed in as the source passes it in.
pub mod Cooldown
pub mod Minute
use irc2torrent.Prelude.{
  ℕ, ◌+◌, ◌-◌, min, Bool, true, false, ◌||◌, List, Text, Option, none, some, if◌then◌else◌, ltb,
  leb, to_lower, lookup, put, remove, retain,
}

abbrev pub whois_failure_limit : ℕ
whois_failure_limit = 3

abbrev pub whois_cooldown : ℕ
whois_cooldown = 600

abbrev pub whois_per_minute : ℕ
whois_per_minute = 10

pub record WhoisCooldown : Type 0 where
  pub failures : ℕ
  pub until : Option ℕ

abbrev pub WhoisCooldowns : Type 0
WhoisCooldowns = List (Text × WhoisCooldown)

-- `is_some_and(|until| until > now)`
abbrev pub is_after : ℕ → Option ℕ → Bool
is_after now none = false
is_after now (some until) = ltb now until

abbrev pub until_of : Option WhoisCooldown → Option ℕ
until_of none = none
until_of (some c) = c.until

unfoldable pub is_cooling : Text → ℕ → WhoisCooldowns → Bool
is_cooling nick now m = is_after now (until_of (lookup (to_lower nick) m))

-- `entry(..).or_default()`
abbrev pub or_default : Option WhoisCooldown → WhoisCooldown
or_default none = record { failures = 0; until = none }
or_default (some c) = c

-- `u8::saturating_add(1)`
abbrev pub count_up : ℕ → ℕ
count_up n = min 255 (n + 1)

unfoldable pub note_entry : ℕ → WhoisCooldown → Bool × WhoisCooldown
note_entry now c =
    if ltb (count_up c.failures) whois_failure_limit
    then (false, record { failures = count_up c.failures; until = c.until })
    else (true, record { failures = 0; until = some (now + whois_cooldown) })

unfoldable pub note_failure : Text → ℕ → WhoisCooldowns → Bool × WhoisCooldowns
unfolding note_entry
note_failure nick now m =
    let noted = note_entry now (or_default (lookup (to_lower nick) m)) in
    (noted.0, put (to_lower nick) noted.1 m)

unfoldable pub note_success : Text → WhoisCooldowns → WhoisCooldowns
note_success nick m = remove (to_lower nick) m

unfoldable pub is_live : ℕ → WhoisCooldown → Bool
is_live now c = ltb 0 c.failures || is_after now c.until

unfoldable pub prune : ℕ → WhoisCooldowns → WhoisCooldowns
unfolding is_live
prune now m = retain (is_live now) m

pub record WhoisBudget : Type 0 where
  pub window_started : ℕ
  pub used : ℕ

-- `duration_since` is zero for an earlier instant, as subtraction on ℕ is.
unfoldable pub renew : ℕ → WhoisBudget → WhoisBudget
renew now b =
    if leb 60 (now - b.window_started) then record { window_started = now; used = 0 } else b

unfoldable pub spend : WhoisBudget → Bool × WhoisBudget
spend b =
    if leb whois_per_minute b.used
    then (false, b)
    else (true, record { window_started = b.window_started; used = b.used + 1 })

unfoldable pub take_check : ℕ → WhoisBudget → Bool × WhoisBudget
unfolding renew spend
take_check now b = spend (renew now b)
