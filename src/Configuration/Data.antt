-- ===== src/Configuration/Data.antt =====
-- src/config.rs: the whole of options.toml, and what is compiled from it. The regex crate is an
-- argument: a pattern's text, its test and the names of its groups, or its error.
use irc2torrent.Prelude.{ℕ, List, [], ◌∷◌, Text, codes, Option, none, some, max, if◌then◌else◌}
use irc2torrent.Announce.{CaptureOptions}
use irc2torrent.Auth.{ℤ}
use irc2torrent.TorrentProcessor.Filters.{Regex, CompiledWatch, CompiledFieldFilter}
use irc2torrent.CommandProcessor.Watchlist.{FieldFilter, WatchEntry, pattern_entry, detailed}
use irc2torrent.Configuration.Sections.{
  PlatformSection, default_platform, CommandOptions, default_commands, TorrentClientOption,
  default_client, TelegramOptions, SlackOptions, NotificationSection, default_notifications,
}

pub record OptionData : Type 0 where
  pub platform : PlatformSection
  pub clients : List TorrentClientOption
  pub command_options : CommandOptions
  pub regex_for_downloads_match : List WatchEntry
  pub regex_for_downloads_reject_match : List Text
  pub regex_for_announce_match : Text
  pub require_fields : List Text
  pub captures : List (Text × CaptureOptions)
  pub field_filters : List (Text × FieldFilter)
  pub notifications : NotificationSection
  pub telegram : Option TelegramOptions
  pub slack : Option SlackOptions

-- A compiled pattern, with `capture_names().flatten()`
pub record NamedRegex : Type 0 where
  pub regex : Regex
  pub declared : List Text

pub record LoadedOptions : Type 0 where
  pub options : OptionData
  pub announce_regex : NamedRegex
  pub dl_watches : List CompiledWatch
  pub reject_regexes : List Regex
  pub field_filters : List (Text × CompiledFieldFilter)

unfoldable pub entry_require_fields : WatchEntry → List Text
entry_require_fields (pattern_entry p) = []
entry_require_fields (detailed p require_fields field_filters) = require_fields

unfoldable pub entry_field_filters : WatchEntry → Option (List (Text × FieldFilter))
entry_field_filters (pattern_entry p) = none
entry_field_filters (detailed p require_fields field_filters) = some field_filters

unfoldable pub default_option_data : Text → OptionData
default_option_data client = record {
  platform = default_platform;
  clients = default_client client ∷ [];
  command_options = default_commands;
  regex_for_downloads_match =
      pattern_entry (codes "Some Regex to match.*1080p.*")
      ∷ pattern_entry (codes "Another Release.*S02.*1080p.*WEB.*")
      ∷ [];
  regex_for_downloads_reject_match = codes ".*NORDIC.*" ∷ codes ".*GERMAN.*" ∷ [];
  regex_for_announce_match =
      codes
        ".*Name:'(?P<name>.*)' uploaded by.*https://tracker\\.example\\.org/torrent/(?P<id>\\d+)";
  require_fields = [];
  captures = [];
  field_filters = [];
  notifications = default_notifications;
  telegram = none;
  slack = none;
}

-- The accessors that do more than read a field
unfoldable pub max_reply_lines : LoadedOptions → ℕ
max_reply_lines o = max o.options.command_options.max_reply_lines 2

unfoldable pub telegram_owner : Option TelegramOptions → Option ℤ
telegram_owner none = none
telegram_owner (some t) = if t.commands then some t.owner_id else none

unfoldable pub slack_owner : Option SlackOptions → Option Text
slack_owner none = none
slack_owner (some s) = if s.commands then some s.owner_id else none

abbrev pub first_client : List TorrentClientOption → Option TorrentClientOption
first_client [] = none
first_client (c ∷ cs) = some c

-- `none` is the error that there is no client.
unfoldable pub get_torrent_client : LoadedOptions → Option TorrentClientOption
get_torrent_client o = first_client o.options.clients
