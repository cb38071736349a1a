-- ===== src/Configuration/Sections.antt =====
-- src/config.rs: the tables of options.toml and their defaults. The threshold of free disk space, a
-- floating-point number, is left out.
use irc2torrent.Prelude.{
  ℕ, Bool, true, false, List, [], ◌∷◌, Text, codes, Option, none, if◌then◌else◌, text_eq, ◌||◌,
  Result, ok, err,
}
use irc2torrent.Auth.{ℤ, SecurityMode, irc_user_name}
use irc2torrent.Notify.Events.{EventFilter, Switches}
use irc2torrent.Notify.Dispatch.{NotificationOptions}
use irc2torrent.Clients.Qbittorrent.Adding.{QBittorrentOptions}

pub record PlatformOptions : Type 0 where
  pub download_url_template : Text
  pub rss_key : Text
  pub torrent_dir : Text

pub record PlatformSection : Type 0 where
  pub label : Text
  pub options : PlatformOptions

pub data PlatformError : Type 0 where
  no_platform : PlatformError
  two_platforms : (first second : Text) → PlatformError

pub record CommandOptions : Type 0 where
  pub security_mode : SecurityMode
  pub commands_enabled : Bool
  pub require_identified : Bool
  pub max_reply_lines : ℕ

pub record RtorrentOptions : Type 0 where
  pub tags_template : Text
  pub xmlrpc_url : Text

pub record FloodOptions : Type 0 where
  pub url : Text
  pub username : Text
  pub password : Text
  pub destination : Text

pub data TorrentClientOption : Type 0 where
  r_torrent : RtorrentOptions → TorrentClientOption
  flood : FloodOptions → TorrentClientOption
  q_bittorrent : QBittorrentOptions → TorrentClientOption

pub record TelegramOptions : Type 0 where
  pub token : Text
  pub owner_id : ℤ
  pub commands : Bool
  pub notifications : Bool
  pub events : EventFilter

pub record SlackOptions : Type 0 where
  pub app_token : Text
  pub bot_token : Text
  pub channel_id : Option Text
  pub owner_id : Text
  pub commands : Bool
  pub notifications : Bool
  pub events : EventFilter

pub record EmailOptions : Type 0 where
  pub address : Text
  pub password : Text
  pub password_file : Option Text
  pub host : Option Text
  pub port : Option ℕ
  pub from : Option Text
  pub to : Option Text
  pub events : EventFilter

pub record NtfyOptions : Type 0 where
  pub topic : Text
  pub token : Option Text
  pub events : EventFilter

pub record IrcNotifyOptions : Type 0 where
  pub hold_seconds : ℕ
  pub events : EventFilter

-- The `NotificationOptions` of the source; `options` are the switches and the hourly cap.
pub record NotificationSection : Type 0 where
  pub options : NotificationOptions
  pub daily_summary_at : Text
  pub digest_seconds : ℕ
  pub poll_seconds : ℕ
  pub disk_path : Text
  pub email : Option EmailOptions
  pub ntfy : Option NtfyOptions
  pub irc : Option IrcNotifyOptions

-- Reading `[platform.<label>]`: the table of labels, in their order
unfoldable pub read_platform : List (Text × PlatformOptions) → Result PlatformError PlatformSection
read_platform [] = err no_platform
read_platform ((label, options) ∷ []) = ok (record { label = label; options = options })
read_platform (first ∷ second ∷ more) = err (two_platforms first.0 second.0)

unfoldable pub write_platform : PlatformSection → List (Text × PlatformOptions)
write_platform p = (p.label, p.options) ∷ []

abbrev pub default_platform_options : PlatformOptions
default_platform_options = record {
  download_url_template = [];
  rss_key = [];
  torrent_dir = codes "/downloads/.torrents";
}

abbrev pub default_platform : PlatformSection
default_platform = record { label = codes "YourTracker"; options = default_platform_options }

abbrev pub default_commands : CommandOptions
default_commands = record {
  security_mode = irc_user_name (codes "irc2torrent");
  commands_enabled = false;
  require_identified = true;
  max_reply_lines = 12;
}

abbrev pub default_rtorrent : RtorrentOptions
default_rtorrent = record {
  tags_template = [];
  xmlrpc_url = codes "unix:/config/.local/share/rtorrent/rtorrent.sock";
}

abbrev pub default_qbittorrent : QBittorrentOptions
default_qbittorrent = record {
  url = codes "http://127.0.0.1:8080";
  username = [];
  password = [];
  save_path = [];
  category = [];
  tags_template = [];
  category_template = [];
}

abbrev pub default_flood : FloodOptions
default_flood = record {
  url = codes "http://localhost:3000";
  username = codes "admin";
  password = codes "password";
  destination = codes "/downloads";
}

-- The argument is the variable IRC2TORRENT_DEFAULT_CLIENT, empty when it is not set.
unfoldable pub default_client : Text → TorrentClientOption
default_client name =
    if text_eq name (codes "qBittorrent") || text_eq name (codes "qbittorrent")
    then q_bittorrent default_qbittorrent
    else if text_eq name (codes "Flood") || text_eq name (codes "flood")
    then flood default_flood
    else r_torrent default_rtorrent

abbrev pub default_summary_time : Text
default_summary_time = codes "09:00"

abbrev pub default_switches : Switches
default_switches = record {
  on_failure = true;
  on_torrent_added = false;
  on_download_finished = true;
  on_disk_low = true;
  on_warning = false;
  on_start = true;
  daily_summary = false;
}

abbrev pub default_notifications : NotificationSection
default_notifications = record {
  options = record { switches = default_switches; max_per_hour = 20 };
  daily_summary_at = default_summary_time;
  digest_seconds = 300;
  poll_seconds = 120;
  disk_path = codes "/downloads";
  email = none;
  ntfy = none;
  irc = none;
}
