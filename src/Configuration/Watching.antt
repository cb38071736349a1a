-- ===== src/Configuration/Watching.antt =====
-- src/config.rs: starting from the two files, and what a change of either does to the running bot.
-- The regex, url and toml crates are arguments, as is the derived equality of options. A file that
-- cannot be read has no contents.
pub mod Reloads
use irc2torrent.Prelude.{
  ℕ, Bool, true, false, not, ◌||◌, List, [], ◌∷◌, ◌++◌, Text, codes, Option, none, some, Result, ok,
  err, any, max, if◌then◌else◌, is_empty, trim, text_eq, ◌==◌, decimal,
}
use irc2torrent.Notify.Events.{Event, config_rejected, unwrap_or}
use irc2torrent.Irc.Outbound.{FloodLimit}
use irc2torrent.Platforms.UrlTemplate.{UrlLib}
use irc2torrent.Configuration.Data.{OptionData, NamedRegex, LoadedOptions}
use irc2torrent.Configuration.Checks.{ConfigError}
use irc2torrent.Configuration.Loading.{from_data}

-- What the bot reads of irc.toml itself
pub record IrcConfig : Type 0 where
  pub server : Option Text
  pub max_messages_in_burst : Option ℕ
  pub burst_window_length : Option ℕ

pub data StartupError : Type 0 where
  options_rejected : ConfigError → StartupError
  no_server : StartupError

unfoldable pub validate_irc : IrcConfig → Result StartupError (Unit {0})
validate_irc c = if is_empty (trim (unwrap_or c.server [])) then err no_server else ok tt

unfoldable pub from_irc : IrcConfig → FloodLimit
from_irc c = record {
  window = unwrap_or c.burst_window_length 8;
  max_in_burst = max (unwrap_or c.max_messages_in_burst 5) 1;
}

unfoldable pub get_irc_config : IrcConfig → IrcConfig
get_irc_config c = record c {
  max_messages_in_burst = some (unwrap_or c.max_messages_in_burst 5);
  burst_window_length = some (unwrap_or c.burst_window_length 8);
}

-- What the watcher's thread holds and shares
pub record Watched : Type 0 where
  pub running : LoadedOptions
  pub flood_limit : FloodLimit
  pub last_irc : Option Text

-- A burst of file events: `true` is options.toml and `false` is irc.toml. The files are as they are
-- once the burst has settled.
pub record Burst : Type 0 where
  pub first : Bool
  pub more : List Bool
  pub options_file : Option Text
  pub irc_file : Option Text

unfoldable pub options_changed : Burst → Bool
options_changed b = b.first || any (λ which. which) b.more

unfoldable pub irc_changed : Burst → Bool
irc_changed b = not b.first || any (λ which. not which) b.more

abbrev pub is_seen : Option Text → Text → Bool
is_seen none contents = false
is_seen (some last) contents = text_eq last contents

-- The suffixes of fallback nicks: three distinct ones of the random numbers drawn
abbrev pub has_number : List ℕ → ℕ → Bool
has_number [] n = false
has_number (m ∷ ms) n = m == n || has_number ms n

abbrev pub fresh_number : List ℕ → ℕ → List ℕ
fresh_number suffixes n = if has_number suffixes n then suffixes else suffixes ++ n ∷ []

abbrev pub nick_suffixes : List ℕ → List ℕ → List ℕ
nick_suffixes (a ∷ b ∷ c ∷ more) drawn = a ∷ b ∷ c ∷ more
nick_suffixes suffixes [] = suffixes
nick_suffixes suffixes (n ∷ drawn) = nick_suffixes (fresh_number suffixes n) drawn

abbrev pub suffixed : Text → List ℕ → List Text
suffixed nickname [] = []
suffixed nickname (n ∷ ns) = (nickname ++ codes "_" ++ decimal n) ∷ suffixed nickname ns

unfoldable pub generate_alt_nicks : Text → List ℕ → List Text
generate_alt_nicks nickname drawn = suffixed nickname (nick_suffixes [] drawn)

-- The crates that read the files, the equality of options, the wording of errors, and the file's path
pub record Readers : Type 1 where
  pub compile : Text → Result Text NamedRegex
  pub urls : UrlLib
  pub parse_options : Text → Result Text OptionData
  pub parse_irc : Text → Option IrcConfig
  pub same : OptionData → OptionData → Bool
  pub show : ConfigError → Text
  pub path : Text

module _ (env : Readers) where
  -- `Config::new`, once both files were read: the problems of both are reported together.
  abbrev pub all_problems :
      Result ConfigError LoadedOptions
      → Result StartupError (Unit {0})
      → Result (List StartupError) LoadedOptions
  all_problems (ok loaded) (ok _) = ok loaded
  all_problems (ok loaded) (err e) = err (e ∷ [])
  all_problems (err e) (ok _) = err (options_rejected e ∷ [])
  all_problems (err e) (err f) = err (options_rejected e ∷ f ∷ [])

  abbrev pub watching :
      IrcConfig
      → Option Text
      → Result (List StartupError) LoadedOptions
      → Result (List StartupError) Watched
  watching irc contents (err es) = err es
  watching irc contents (ok loaded) =
      ok (record { running = loaded; flood_limit = from_irc irc; last_irc = contents })

  unfoldable pub start_config :
      OptionData → IrcConfig → Option Text → Result (List StartupError) Watched
  start_config options irc contents =
      watching irc contents
        (all_problems (from_data env.compile env.urls options) (validate_irc irc))

  abbrev pub adopt_loaded :
      LoadedOptions → Result ConfigError LoadedOptions → LoadedOptions × List Event
  adopt_loaded running (ok loaded) = (loaded, [])
  adopt_loaded running (err e) = (running, config_rejected (env.show e) ∷ [])

  abbrev pub reload_parsed : LoadedOptions → Result Text OptionData → LoadedOptions × List Event
  reload_parsed running (err e) =
      (running, config_rejected (env.path ++ codes " is not valid TOML: " ++ e) ∷ [])
  reload_parsed running (ok parsed) =
      if env.same running.options parsed
      then (running, [])
      else adopt_loaded running (from_data env.compile env.urls parsed)

  unfoldable pub reload_options : Option Text → LoadedOptions → LoadedOptions × List Event
  reload_options none running = (running, [])
  reload_options (some contents) running = reload_parsed running (env.parse_options contents)

  abbrev pub limit_of : FloodLimit → Option IrcConfig → FloodLimit
  limit_of current none = current
  limit_of current (some parsed) = from_irc parsed

  unfoldable pub report_irc_change : Option Text → Watched → Watched
  report_irc_change none w = w
  report_irc_change (some contents) w = if is_seen w.last_irc contents then w else record w {
    flood_limit = limit_of w.flood_limit (env.parse_irc contents);
    last_irc = some contents;
  }

  abbrev pub after_options : Burst → Watched → Watched × List Event
  after_options b w =
      if options_changed b
      then (let reloaded = reload_options b.options_file w.running in
          (record w { running = reloaded.0 }, reloaded.1))
      else (w, [])

  -- One burst: the options first, and then the report on irc.toml
  unfoldable pub settle : Burst → Watched → Watched × List Event
  settle b w =
      let reloaded = after_options b w in
      (if irc_changed b then report_irc_change b.irc_file reloaded.0 else reloaded.0, reloaded.1)

  unfoldable pub settle_all : List Burst → Watched → Watched × List Event
  settle_all [] w = (w, [])
  settle_all (b ∷ bs) w =
      let settled = settle b w in
      let later = settle_all bs settled.0 in (later.0, settled.1 ++ later.1)
