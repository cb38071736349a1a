-- ===== src/Configuration/Checks.antt =====
-- src/config.rs: the checks on the captures and on the tracker. The messages are left out.
pub mod Declared
use irc2torrent.Prelude.{
  Bool, true, false, not, ◌&&◌, List, [], ◌∷◌, ◌++◌, map, Text, Option, none, some, Result, ok, err,
  ◌>>=◌, ◌>>◌, for_each, if◌then◌else◌, contains, is_empty, trim,
}
use irc2torrent.Announce.{CaptureOptions, required_names}
use irc2torrent.Template
use irc2torrent.Template.{LexError, TextTemplate}
use irc2torrent.Platforms.UrlTemplate
use irc2torrent.Platforms.UrlTemplate.{UrlLib, UrlError, UrlTemplate, reserved}
use irc2torrent.CommandProcessor.Watchlist.{FieldFilter, WatchEntry}
use irc2torrent.Configuration.Sections.{
  PlatformSection, TorrentClientOption, r_torrent, flood, q_bittorrent,
}
use irc2torrent.Configuration.Data.{OptionData, entry_require_fields, entry_field_filters}

pub data ConfigError : Type 0 where
  invalid_regex : (field error : Text) → ConfigError
  no_required_group no_such_capture undeclared_field : Text → ConfigError
  bad_client_template : LexError → ConfigError
  no_url_template no_rss_key no_torrent_dir : ConfigError
  bad_url_template : UrlError → ConfigError
  undeclared_placeholder bad_summary_time : Text → ConfigError

-- Nothing when a test holds, and an error otherwise
abbrev pub ensure : Bool → ConfigError → Result ConfigError (Unit {0})
ensure true e = ok tt
ensure false e = err e

module _ (declared : List Text) where
  unfoldable pub check_field : Text → Result ConfigError (Unit {0})
  check_field name = ensure (contains declared name) (undeclared_field name)

  abbrev pub check_required : Text → Result ConfigError (Unit {0})
  check_required name = ensure (contains declared name) (no_required_group name)

  abbrev pub check_capture : Text × CaptureOptions → Result ConfigError (Unit {0})
  check_capture (name, o) = ensure (contains declared name) (no_such_capture name)

  abbrev pub check_key : Text × FieldFilter → Result ConfigError (Unit {0})
  check_key (name, f) = check_field name

  abbrev pub check_filters : Option (List (Text × FieldFilter)) → Result ConfigError (Unit {0})
  check_filters none = ok tt
  check_filters (some filters) = for_each check_key filters

  unfoldable pub check_entry : WatchEntry → Result ConfigError (Unit {0})
  check_entry entry =
      for_each check_field (entry_require_fields entry) >> check_filters (entry_field_filters entry)

  abbrev pub check_parsed : Result LexError TextTemplate → Result ConfigError (Unit {0})
  check_parsed (err e) = err (bad_client_template e)
  check_parsed (ok t) = for_each check_field t.names

  unfoldable pub check_template : Text → Result ConfigError (Unit {0})
  check_template template =
      if is_empty (trim template) then ok tt else check_parsed (Template.parse template)

abbrev pub templates_of : TorrentClientOption → List Text
templates_of (q_bittorrent q) = q.tags_template ∷ q.category_template ∷ []
templates_of (r_torrent r) = r.tags_template ∷ []
templates_of (flood f) = []

unfoldable pub check_client : List Text → TorrentClientOption → Result ConfigError (Unit {0})
check_client declared client = for_each (check_template declared) (templates_of client)

unfoldable pub validate_announce_captures : List Text → OptionData → Result ConfigError (Unit {0})
validate_announce_captures declared o =
    for_each (check_required declared) required_names
    >> (for_each (check_capture declared) o.captures
        >> (for_each (check_field declared) o.require_fields
            >> (for_each (check_key declared) o.field_filters
                >> (for_each (check_entry declared) o.regex_for_downloads_match
                    >> for_each (check_client declared) o.clients))))

abbrev pub check_placeholder : List Text → Text → Result ConfigError (Unit {0})
check_placeholder declared name =
    if contains reserved name
    then ok tt
    else ensure (contains declared name) (undeclared_placeholder name)

abbrev pub url_result : Result UrlError UrlTemplate → Result ConfigError UrlTemplate
url_result (ok t) = ok t
url_result (err e) = err (bad_url_template e)

unfoldable pub validate_platform :
    UrlLib → PlatformSection → List Text → Result ConfigError (Unit {0})
validate_platform lib p declared =
    ensure (not (is_empty (trim p.options.download_url_template))) no_url_template
    >> (url_result (UrlTemplate.parse lib p.options.download_url_template) >>= λ template.
        for_each (check_placeholder declared) template.names
        >> (ensure (not (template.uses_key && is_empty (trim p.options.rss_key))) no_rss_key
            >> ensure (not (is_empty (trim p.options.torrent_dir))) no_torrent_dir))
