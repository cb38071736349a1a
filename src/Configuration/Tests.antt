-- ===== src/Configuration/Tests.antt =====
-- src/config.rs: the theorems at a small configuration.
use irc2torrent.Prelude.{
  ◌≡◌, refl, true, false, [], ◌∷◌, Text, codes, none, some, Result, ok, err, text_eq, if◌then◌else◌,
}
use irc2torrent.Clients.Qbittorrent.Version.{parse_u32}
use irc2torrent.Platforms.UrlTemplate.Sample.{one_host, parse-sample_template}
use irc2torrent.TorrentProcessor.Filters.{Regex}
use irc2torrent.CommandProcessor.Watchlist.{pattern_entry, pattern, Options}
use irc2torrent.Configuration.Sections.{
  default_platform_options, default_commands, default_notifications,
}
use irc2torrent.Configuration.Data.{
  OptionData, NamedRegex, LoadedOptions, entry_require_fields, entry_field_filters,
}
use irc2torrent.Configuration.Checks.{
  validate_announce_captures, check_field, check_entry, validate_platform,
}
use irc2torrent.Configuration.Summary.{parse_summary_time}
use irc2torrent.Configuration.Loading.{
  regex_named, regex_at, compile_all, compile_watch, compile_filters, from_data,
}
use irc2torrent.Configuration.Loading.Usable.{IsUsable, from_data-IsUsable}
use irc2torrent.Configuration.Loading.Growth.Edits.{
  append_watch, drop_watch, accepts, apply_edits, IsInStep, apply_edits-IsInStep,
}
use irc2torrent.Configuration.Watching.{
  Readers, IrcConfig, Watched, Burst, validate_irc, from_irc, start_config, settle_all,
}
use irc2torrent.Configuration.Watching.Reloads.{IsRunning, start_config-IsRunning}

-- Half past nine
-- Patterns that match their own text, with the two groups that an announce needs
abbrev literal_regex : Text → Result Text NamedRegex
literal_regex p = ok (record {
  regex = record { as_str = p; is_match = text_eq p };
  declared = codes "name" ∷ codes "id" ∷ [];
})

abbrev plain : Text → Regex
plain p = record { as_str = p; is_match = text_eq p }

abbrev options : OptionData
options = record {
  platform = record {
    label = codes "Tracker";
    options = record default_platform_options { download_url_template = codes "https://t/{id}" };
  };
  clients = [];
  command_options = default_commands;
  regex_for_downloads_match = pattern_entry (codes "S01") ∷ [];
  regex_for_downloads_reject_match = [];
  regex_for_announce_match = codes "new";
  require_fields = codes "id" ∷ [];
  captures = [];
  field_filters = [];
  notifications = default_notifications;
  telegram = none;
  slack = none;
}

abbrev loaded : LoadedOptions
loaded = record {
  options = options;
  announce_regex = record {
    regex = plain (codes "new");
    declared = codes "name" ∷ codes "id" ∷ [];
  };
  dl_watches = record { regex = plain (codes "S01"); require_fields = []; field_filters = [] } ∷ [];
  reject_regexes = [];
  field_filters = [];
}

accepted : from_data literal_regex one_host options ≡ ok loaded
unfolding from_data regex_named compile_all compile_watch regex_at compile_filters
    validate_announce_captures check_field check_entry entry_require_fields entry_field_filters
    pattern validate_platform parse_summary_time parse_u32
accepted = rw parse-sample_template refl

from_data-IsUsable_example : (loaded.options ≡ options) × IsUsable literal_regex one_host loaded
from_data-IsUsable_example = from_data-IsUsable literal_regex one_host options loaded accepted

abbrev watchlist : Options
watchlist = record {
  data_watches = options.regex_for_downloads_match;
  loaded = options.regex_for_downloads_match;
  written = [];
}

still_accepted : accepts literal_regex one_host options options.regex_for_downloads_match ≡ true
still_accepted = rw accepted refl

apply_edits-IsInStep_example : IsInStep literal_regex one_host options (
    apply_edits literal_regex one_host options
      (append_watch (codes "S02") ∷ drop_watch 0 ∷ drop_watch 7 ∷ [])
      watchlist)
apply_edits-IsInStep_example =
    apply_edits-IsInStep literal_regex one_host options
      (append_watch (codes "S02") ∷ drop_watch 0 ∷ drop_watch 7 ∷ []) watchlist
      (refl, still_accepted)

-- Only the text `good` is a file of options.
abbrev readers : Readers
readers = record {
  compile = literal_regex;
  urls = one_host;
  parse_options = λ t. if text_eq t (codes "good") then ok options else err (codes "bad");
  parse_irc = λ t. none;
  same = λ a b. false;
  show = λ e. [];
  path = codes "options.toml";
}

abbrev irc_config : IrcConfig
irc_config = record {
  server = some (codes "irc.example");
  max_messages_in_burst = some 0;
  burst_window_length = none;
}

abbrev watched : Watched
watched = record { running = loaded; flood_limit = from_irc irc_config; last_irc = none }

started : start_config readers options irc_config none ≡ ok watched
unfolding start_config validate_irc
started = rw accepted refl

abbrev burst : Burst
burst = record {
  first = true;
  more = false ∷ [];
  options_file = some (codes "broken");
  irc_file = none;
}

start_config-IsRunning_example :
    IsRunning readers (settle_all readers (burst ∷ burst ∷ []) watched).0
start_config-IsRunning_example =
    start_config-IsRunning readers options irc_config none (burst ∷ burst ∷ []) watched started
