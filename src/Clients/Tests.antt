-- ===== src/Clients/Tests.antt =====
-- src/clients: the theorems at small servers.
use irc2torrent.Prelude.{ℕ, ◌≡◌, refl, true, [], ◌∷◌, ◌++◌, codes, none, some, ok, ◌==◌}
use irc2torrent.Transports.Json.{JsonLib}
use irc2torrent.Announce.{Announce, bare}
use irc2torrent.Auth.{pos}
use irc2torrent.Clients.Qbittorrent.Multipart.{as_bytes, boundary_of, body_end}
use irc2torrent.Clients.Qbittorrent.Multipart.Lines.{message_lines, lines_of_fields, file_lines}
use irc2torrent.Clients.Qbittorrent.Session.{
  login, webapi_version, Server, Credentials, exchange, send_authed,
}
use irc2torrent.Clients.Qbittorrent.Session.Retries.{IsSettled, send_authed-IsSettled}
use irc2torrent.Clients.Qbittorrent.Listing.{FloatLib, QbtTorrent}
use irc2torrent.Clients.Qbittorrent.Adding.{
  QBittorrent, AddLib, add_fields, upload_body, qbt_add, add_answer, added_empty,
}
use irc2torrent.Clients.Qbittorrent.Adding.Answers.{IsAdded, message_lines-upload, qbt_add-IsAdded}

-- A server of WebAPI 2.11.2 is past the renaming, and 2.9.3 is not.
abbrev credentials : Credentials
credentials = record { username = codes "admin"; password = codes "secret" }

-- A server that refuses until there was a login
abbrev expired_server : Server
expired_server (r ∷ []) = some (record { status = 403; body = some [] })
expired_server (login user password ∷ sent) =
    some (record { status = 200; body = some (codes "Ok.") })
expired_server _ = some (record { status = 200; body = some (codes "Ok.") })

send_authed-IsSettled_example :
    IsSettled expired_server credentials webapi_version []
      (send_authed expired_server credentials webapi_version [])
send_authed-IsSettled_example = send_authed-IsSettled expired_server credentials webapi_version []

abbrev floats : FloatLib
floats = record {
  F64 = ℕ;
  is_finite = λ x. true;
  at_most_zero = λ x. x == 0;
  times_thousand = λ x. pos x;
}

-- A recheck walks the bytes back to nothing.
abbrev rechecked : QbtTorrent floats
rechecked = record {
  hash = codes "abc";
  name = codes "Release";
  size = pos 700;
  completed = pos 0;
  ratio = 1500;
  state = codes "checkingUP";
}

abbrev client : QBittorrent
client = record {
  url = codes "http://127.0.0.1:8080";
  credentials = credentials;
  save_path = [];
  category = codes "tv";
  tags_template = none;
  category_template = none;
  api_version = codes "2.11.2";
}

-- A crate that parses nothing
abbrev no_json : JsonLib
no_json = record {
  Value = ℕ;
  null = 0;
  from_str = λ body. none;
  field = λ name v. none;
  as_str = λ v. none;
  as_i64 = λ v. none;
  as_bool = λ v. none;
  as_array = λ v. none;
}

abbrev library : AddLib
library = record {
  decode_base64 = λ t. some t;
  torrent_error = λ bytes. none;
  json = no_json;
  random = (7, 9);
}

abbrev release : Announce
release = bare (codes "Release.S01E01")

message_lines-upload_example :
    message_lines (upload_body library client release (codes "d4:infoe"))
    ≡ lines_of_fields (boundary_of 7 9) (add_fields client release)
      ++ (file_lines (boundary_of 7 9)
          ++ message_lines (codes "d4:infoe" ++ as_bytes (body_end (boundary_of 7 9))))
message_lines-upload_example =
    message_lines-upload library client release (codes "d4:infoe") refl refl

-- A server without authentication
abbrev open_server : Server
open_server sent = some (record { status = 200; body = some (codes "Ok.") })

added_at_once :
    qbt_add library open_server client (codes "d4:infoe") release []
    ≡ (ok tt, (qbt_add library open_server client (codes "d4:infoe") release []).1)
unfolding qbt_add send_authed add_answer added_empty exchange
added_at_once = refl

qbt_add-IsAdded_example :
    IsAdded library open_server client
      (codes "d4:infoe")
      release
      []
      (qbt_add library open_server client (codes "d4:infoe") release []).1
qbt_add-IsAdded_example =
    qbt_add-IsAdded library open_server client (codes "d4:infoe") release []
      (qbt_add library open_server client (codes "d4:infoe") release []).1 added_at_once
