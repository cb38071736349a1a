-- ===== src/Platforms/Http/Tests.antt =====
-- src/platforms/http.rs: the theorems at a name that tries to leave the directory.
use irc2torrent.Announce.{Announce}
use irc2torrent.Platforms.UrlTemplate.{UrlLib}
use irc2torrent.Platforms.UrlTemplate
use irc2torrent.Platforms.Http.Download.{World, HttpTracker, download_torrent}
use irc2torrent.Platforms.Http.Download.Contained.{IsSound, download_torrent-IsSound}
use irc2torrent.Template.{literal, field}
use irc2torrent.Prelude.{Text, none, ok, false, true, [], ◌∷◌, codes, some}
use irc2torrent.Platforms.Http.{FilePath, sanitize_torrent_filename, join, download_fields}

abbrev directory : FilePath
directory = record { rooted = true; components = codes "watch" ∷ [] }

-- URLs as they stand, all of one host.
abbrev lib : UrlLib
lib = record {
  Url = Text;
  parse_url = λ t. some t;
  scheme = λ u. codes "https";
  username = λ u. [];
  password = λ u. none;
  host_str = λ u. some (codes "tracker");
  port_or_known_default = λ u. some 443;
  url_text = λ u. u;
  percent_encode = λ set t. t;
}

abbrev world : World
world = record {
  respond = λ url. some (200, some (1 ∷ 2 ∷ []));
  dir_exists = λ dir. false;
  disk = λ effect. ok tt;
  encode = λ bytes. bytes;
}

abbrev tracker : HttpTracker
tracker = record {
  template = record {
    parts = literal (codes "https://tracker/get/") ∷ field 0 ∷ [];
    names = codes "id" ∷ [];
    authority = codes "https://:@tracker:443";
    uses_key = false;
  };
  rss_key = codes "key";
  torrent_dir = directory;
}

abbrev release : Announce
release = record { name = codes "../etc/x"; id = codes "1"; fields = [] }

download_torrent-IsSound_example :
    IsSound world directory
      (join directory (sanitize_torrent_filename (codes "../etc/x")))
      (UrlTemplate.render lib tracker.template
        (download_fields release (sanitize_torrent_filename (codes "../etc/x")) tracker.rss_key))
      (download_torrent lib world tracker release)
download_torrent-IsSound_example = download_torrent-IsSound lib world tracker release
