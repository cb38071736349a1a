-- ===== src/TorrentProcessor/Tests.antt =====
-- src/torrent_processor.rs: the theorems at a small set of lists.
use irc2torrent.Prelude.{◌≡◌, [], ◌∷◌, Text, codes, ok, err}
use irc2torrent.Announce.{Announce, starts_with}
use irc2torrent.TorrentProcessor.Filters.{Regex, Lists, decide}
use irc2torrent.TorrentProcessor.{Remotes, explicit_command, fetch_and_add}
use irc2torrent.TorrentProcessor.Decide.{wants, should_want, decide-wants}
use irc2torrent.TorrentProcessor.Fetch.{IsReported, fetch_and_add-IsReported}

abbrev regex : Text → Regex
regex t = record { as_str = t; is_match = starts_with t }

abbrev lists : Lists
lists = record {
  dl_watches =
      record {
        regex = regex (codes "Re");
        require_fields = codes "freeleech" ∷ [];
        field_filters = [];
      }
      ∷ [];
  reject_regexes = regex (codes "CAM") ∷ [];
  require_fields = codes "uploader" ∷ [];
  field_filters = [];
}

abbrev release : Announce
release = record { name = codes "Release"; id = codes "1"; fields = [] }

abbrev remotes : Remotes
remotes = record { fetch = λ a. ok (codes "ZA=="); start = λ b64 a. err (codes "refused") }

decide-wants_example : wants (decide release lists) ≡ should_want release lists
decide-wants_example = decide-wants release lists

fetch_and_add-IsReported_example :
    IsReported remotes release
      (fetch_and_add remotes lists release explicit_command).0
      (fetch_and_add remotes lists release explicit_command).1
fetch_and_add-IsReported_example = fetch_and_add-IsReported remotes lists release explicit_command
