-- ===== src/Configuration/Loading.antt =====
-- src/config.rs: accepting a configuration, which compiles every pattern and checks every name. The
-- regex crate is the argument `compile`, which gives the compiled pattern or the text of its error.
pub mod Usable
pub mod Growth
use irc2torrent.Prelude.{
  ℕ, List, [], ◌∷◌, ◌++◌, map, Text, codes, Option, none, some, Result, ok, err, ◌>>=◌, ◌>>◌,
  collect_results, if◌then◌else◌, is_empty, trim,
}
use irc2torrent.TorrentProcessor.Filters.{Regex, CompiledWatch, CompiledFieldFilter}
use irc2torrent.CommandProcessor.Watchlist.{FieldFilter, WatchEntry, pattern}
use irc2torrent.Platforms.UrlTemplate.{UrlLib}
use irc2torrent.Configuration.Data.{
  OptionData, NamedRegex, LoadedOptions, entry_require_fields, entry_field_filters,
}
use irc2torrent.Configuration.Checks.{
  ConfigError, invalid_regex, validate_announce_captures, validate_platform,
}
use irc2torrent.Configuration.Summary.{parse_summary_time}

module _ (compile : Text → Result Text NamedRegex) where
  abbrev pub named_result : Text → Result Text NamedRegex → Result ConfigError NamedRegex
  named_result field (ok re) = ok re
  named_result field (err e) = err (invalid_regex field e)

  -- `Regex::new`, with the name of the field in the error
  unfoldable pub regex_named : Text → Text → Result ConfigError NamedRegex
  regex_named field p = named_result field (compile p)

  unfoldable pub regex_at : Text → Text → Result ConfigError Regex
  regex_at field p = regex_named field p >>= λ re. ok re.regex

  abbrev pub compile_optional : Text → Option Text → Result ConfigError (Option Regex)
  compile_optional field none = ok none
  compile_optional field (some p) = regex_at field p >>= λ re. ok (some re)

  unfoldable pub compile_filter :
      Text × FieldFilter → Result ConfigError (Text × CompiledFieldFilter)
  compile_filter (field, f) = compile_optional (field ++ codes ".matches") f.matches >>= λ matches.
      compile_optional (field ++ codes ".reject_matching") f.reject_matching >>= λ rejects.
      ok (field, record { matches = matches; reject_matching = rejects })

  unfoldable pub compile_filters :
      List (Text × FieldFilter) → Result ConfigError (List (Text × CompiledFieldFilter))
  compile_filters = collect_results compile_filter

  unfoldable pub compile_all : List Text → Result ConfigError (List Regex)
  compile_all = collect_results (regex_at (codes "regex_for_downloads_reject_match"))

  abbrev pub compile_entry_filters :
      Option (List (Text × FieldFilter)) → Result ConfigError (List (Text × CompiledFieldFilter))
  compile_entry_filters none = ok []
  compile_entry_filters (some filters) = compile_filters filters

  unfoldable pub compile_watch : WatchEntry → Result ConfigError CompiledWatch
  compile_watch entry = regex_at (codes "regex_for_downloads_match") (pattern entry) >>= λ re.
      compile_entry_filters (entry_field_filters entry) >>= λ filters.
      ok (record {
        regex = re;
        require_fields = entry_require_fields entry;
        field_filters = filters;
      })

  unfoldable pub from_data : UrlLib → OptionData → Result ConfigError LoadedOptions
  from_data lib o = do
    announce ← regex_named (codes "regex_for_announce_match") o.regex_for_announce_match
    rejects ← compile_all o.regex_for_downloads_reject_match
    watches ← collect_results compile_watch o.regex_for_downloads_match
    _ ← validate_announce_captures announce.declared o
    filters ← compile_filters o.field_filters
    _ ← validate_platform lib o.platform announce.declared
    _ ← parse_summary_time o.notifications.daily_summary_at
    ok (record {
      options = o;
      announce_regex = announce;
      dl_watches = watches;
      reject_regexes = rejects;
      field_filters = filters;
    })
