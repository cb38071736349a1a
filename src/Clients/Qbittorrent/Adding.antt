-- ===== src/Clients/Qbittorrent/Adding.antt =====
-- src/clients/qbittorrent.rs: connecting, and uploading a torrent. base64, the torrent parser, JSON
-- and the random numbers are arguments.
pub mod Answers
use irc2torrent.Transports.Json.{JsonLib, and_then}
use irc2torrent.Prelude.{
  ℕ, ◌==◌, Bool, true, false, not, ◌&&◌, List, [], ◌∷◌, ◌++◌, Text, codes, decimal, Option, none,
  some, if◌then◌else◌, is_empty, trim, trim_end_of, take, eq_ignore_case, Result, ok, err, is_space,
}
use irc2torrent.Announce.{Announce, get, values}
use irc2torrent.Template.{FieldSource, LexError, TextTemplate, parse, render}
use irc2torrent.Notify.Events.{text_lines}
use irc2torrent.Platforms.Http.Download.{is_success}
use irc2torrent.Clients.Qbittorrent.Version.{api_at_least}
use irc2torrent.Clients.Qbittorrent.Multipart.{sanitize_field, boundary_of, multipart_body}
use irc2torrent.Clients.Qbittorrent.Session.{
  Request, webapi_version, torrents_add, Response, Server, ClientError, client_error, unrecoverable,
  Credentials, Call, ◌>>=◌, or_unreachable, send_authed,
}
use irc2torrent.Clients.Qbittorrent.Listing.{body_of}

pub record QBittorrentOptions : Type 0 where
  pub url : Text
  pub username : Text
  pub password : Text
  pub save_path : Text
  pub category : Text
  pub tags_template : Text
  pub category_template : Text

pub record QBittorrent : Type 0 where
  pub url : Text
  pub credentials : Credentials
  pub save_path : Text
  pub category : Text
  pub tags_template : Option TextTemplate
  pub category_template : Option TextTemplate
  pub api_version : Text

-- The URL without the slashes at its end
unfoldable pub base_url : Text → Text
base_url url = trim_end_of (λ c. c == b'/') (trim url)

pub data NewError : Type 0 where
  bad_template : LexError → NewError
  no_connection : ClientError → NewError

-- A template that is blank is not configured.
unfoldable pub compiled : Text → Result NewError (Option TextTemplate)
compiled t =
    if is_empty (trim t)
    then ok none
    else elim (parse t) [ ok template ↦ ok (some template) | err e ↦ err (bad_template e) ]

abbrev pub unversioned :
    QBittorrentOptions → Text → Option TextTemplate → Option TextTemplate → QBittorrent
unversioned options url tags category = record {
  url = url;
  credentials = record { username = options.username; password = options.password };
  save_path = options.save_path;
  category = options.category;
  tags_template = tags;
  category_template = category;
  api_version = [];
}

abbrev pub trimmed_body : Result ClientError Text → Result ClientError Text
trimmed_body (err e) = err e
trimmed_body (ok body) = ok (trim body)

unfoldable pub probe_version : Server → QBittorrent → List Request → Call Text
probe_version server c sent =
    send_authed server c.credentials webapi_version sent >>= λ response out.
    (trimmed_body (body_of (codes "its API version") response), out)

abbrev pub with_version : QBittorrent → Call Text → Result NewError QBittorrent × List Request
with_version c (err e, sent) = (err (no_connection e), sent)
with_version c (ok version, sent) = (ok (record c { api_version = version }), sent)

abbrev pub connect :
    Server
    → QBittorrentOptions
    → Result NewError (Option TextTemplate)
    → Result NewError (Option TextTemplate)
    → Result NewError QBittorrent × List Request
connect server options (err e) category = (err e, [])
connect server options (ok tags) (err e) = (err e, [])
connect server options (ok tags) (ok category) =
    let c = unversioned options (base_url options.url) tags category in
    with_version c (probe_version server c [])

unfoldable pub connect_new :
    Server → QBittorrentOptions → Result NewError QBittorrent × List Request
unfolding compiled
connect_new server options =
    if is_empty (base_url options.url)
    then (err (no_connection (unrecoverable (codes "[clients.qBittorrent] needs a `url`"))), [])
    else connect server options (compiled options.tags_template)
        (compiled options.category_template)

abbrev pub announce_fields : Announce → FieldSource
announce_fields a = record { get = get a; values = values a }

-- `unwrap_or_default`; a parsed template always renders.
abbrev pub or_nothing : Option Text → Text
or_nothing none = []
or_nothing (some t) = t

unfoldable pub rendered_template : Announce → Option TextTemplate → Text
rendered_template a none = []
rendered_template a (some t) = sanitize_field (or_nothing (render t (announce_fields a)))

unfoldable pub start_field : Text → Text
start_field version = if api_at_least version 2 11 then codes "stopped" else codes "paused"

-- A field, unless it is empty
abbrev pub field_unless_empty : Text → Text → List (Text × Text)
field_unless_empty key value = if is_empty value then [] else (key, value) ∷ []

abbrev pub first_or : Text → Text → Text
first_or fallback t = if is_empty t then fallback else t

unfoldable pub add_fields : QBittorrent → Announce → List (Text × Text)
unfolding rendered_template start_field
add_fields c a =
    (start_field c.api_version, codes "false")
    ∷ (field_unless_empty (codes "savepath") c.save_path
        ++ (field_unless_empty (codes "category")
              (first_or c.category (rendered_template a c.category_template))
            ++ field_unless_empty (codes "tags") (rendered_template a c.tags_template)))

abbrev pub first_line : List Text → Text
first_line [] = []
first_line (l ∷ ls) = l

-- The server's own explanation, cut to 60 characters
unfoldable pub reason : Text → Text
reason body =
    let text = trim (first_line (text_lines (trim body))) in
    if is_empty text then [] else codes ": " ++ take 60 text

abbrev pub is_empty_list {ℓ} : {A : Type ℓ} → Option (List A) → Bool
is_empty_list none = false
is_empty_list (some []) = true
is_empty_list (some (x ∷ xs)) = false

-- Whether a body is JSON with an empty list of `added_torrent_ids`
unfoldable pub added_empty : JsonLib → Text → Bool
added_empty json body = is_empty_list (
    and_then (and_then (json.from_str body) (json.field (codes "added_torrent_ids"))) json.as_array)

module _ (json : JsonLib) where
  abbrev pub body_answer : ℕ → Text → Result ClientError (Unit {0})
  body_answer status body =
      if status == 409
      then err (client_error (codes "qBittorrent refused it; most likely already added"))
      else if not (is_success status)
      then err (client_error (codes "qBittorrent returned HTTP " ++ decimal status ++ reason body))
      else if eq_ignore_case (trim body) (codes "fails.")
      then err (client_error (codes "qBittorrent did not accept the torrent"))
      else if added_empty json body
      then err (client_error (codes "qBittorrent accepted the request but added nothing"))
      else ok tt

  abbrev pub read_answer : ℕ → Result ClientError Text → Result ClientError (Unit {0})
  read_answer status (err e) = err e
  read_answer status (ok body) = body_answer status body

  unfoldable pub add_answer : Response → Result ClientError (Unit {0})
  unfolding reason
  add_answer response =
      if response.status == 415
      then err (client_error (codes "qBittorrent rejected the file as not a valid torrent"))
      else read_answer response.status (or_unreachable response.body)

-- `torrent_error` is the error of the torrent parser, if there is one.
pub record AddLib : Type 1 where
  pub decode_base64 : Text → Option (List ℕ)
  pub torrent_error : List ℕ → Option Text
  pub json : JsonLib
  pub random : ℕ × ℕ

abbrev pub parsed_file : Text → List ℕ → Option Text → Result ClientError (List ℕ)
parsed_file name bytes none = ok bytes
parsed_file name bytes (some e) =
    err (client_error (codes "Torrent (" ++ name ++ codes ") could not be parsed: " ++ e))

abbrev pub decoded_file : AddLib → Text → Option (List ℕ) → Result ClientError (List ℕ)
decoded_file lib name none = err (client_error (codes "The torrent file was not valid base64"))
decoded_file lib name (some bytes) = parsed_file name bytes (lib.torrent_error bytes)

unfoldable pub upload_body : AddLib → QBittorrent → Announce → List ℕ → List ℕ
upload_body lib c a bytes =
    multipart_body (boundary_of lib.random.0 lib.random.1) bytes (add_fields c a)

unfoldable pub upload : AddLib → QBittorrent → Announce → List ℕ → Request
upload lib c a bytes =
    torrents_add (codes "multipart/form-data; boundary=" ++ boundary_of lib.random.0 lib.random.1)
      (upload_body lib c a bytes)

abbrev pub send_file :
    AddLib
    → Server
    → QBittorrent
    → Announce
    → List Request
    → Result ClientError (List ℕ)
    → Call (Unit {0})
send_file lib server c a sent (err e) = (err e, sent)
send_file lib server c a sent (ok bytes) =
    send_authed server c.credentials (upload lib c a bytes) sent >>= λ response out.
    (add_answer lib.json response, out)

-- `add_torrent_and_start`
unfoldable pub qbt_add :
    AddLib → Server → QBittorrent → Text → Announce → List Request → Call (Unit {0})
unfolding upload add_answer
qbt_add lib server c file a sent =
    send_file lib server c a sent (decoded_file lib a.name (lib.decode_base64 file))
