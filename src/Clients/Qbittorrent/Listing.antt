-- ===== src/Clients/Qbittorrent/Listing.antt =====
-- src/clients/qbittorrent.rs: the list of torrents, for the reply and for the poller. Floating-point
-- numbers and the JSON crate are arguments.
pub mod Complete
use irc2torrent.Prelude.{
  ℕ, ◌==◌, Bool, true, false, not, ◌&&◌, ◌||◌, List, [], ◌∷◌, ◌++◌, map, Text, codes, decimal,
  Option, none, some, if◌then◌else◌, ltb, leb, contains, Result, ok, err,
}
use irc2torrent.Auth.{ℤ, pos, negsuc}
use irc2torrent.CommandProcessor.Replies.{TorrentInfo, at_least_zero}
use irc2torrent.TorrentProcessor.{CompletionRow}
use irc2torrent.Platforms.Http.Download.{is_success}
use irc2torrent.Clients.Qbittorrent.Session.{
  Request, torrents_info, Response, Server, ClientError, client_error, transport_error, Credentials,
  Call, ◌>>=◌, or_unreachable, send_authed,
}

-- An `f64`, and what the code asks of one
pub record FloatLib : Type 1 where
  pub F64 : Type 0
  pub is_finite : F64 → Bool
  -- `ratio <= 0.0`
  pub at_most_zero : F64 → Bool
  -- `(ratio * 1000.0).round().min(i64::MAX as f64) as i64`
  pub times_thousand : F64 → ℤ

-- `<=` on `i64`
abbrev pub int_leb : ℤ → ℤ → Bool
int_leb (pos a) (pos b) = leb a b
int_leb (negsuc a) (negsuc b) = leb b a
int_leb (pos a) (negsuc b) = false
int_leb (negsuc a) (pos b) = true

-- `> 0` on `i64`
abbrev pub is_positive : ℤ → Bool
is_positive (pos n) = ltb 0 n
is_positive (negsuc n) = false

abbrev pub up_states : List Text
up_states =
    codes "uploading"
    ∷ codes "stalledUP"
    ∷ codes "queuedUP"
    ∷ codes "checkingUP"
    ∷ codes "forcedUP"
    ∷ codes "pausedUP"
    ∷ codes "stoppedUP"
    ∷ []

-- A response that is not a success, or the body
unfoldable pub body_of : Text → Response → Result ClientError Text
body_of what response =
    if is_success response.status
    then or_unreachable response.body
    else err (
        client_error
          (codes "qBittorrent returned HTTP " ++ decimal response.status ++ codes " for " ++ what))

module _ (lib : FloatLib) where
  unfoldable pub ratio_permille : lib.F64 → ℤ
  ratio_permille ratio =
      if not (lib.is_finite ratio) || lib.at_most_zero ratio
      then pos 0
      else lib.times_thousand ratio

  pub record QbtTorrent : Type 0 where
    pub hash : Text
    pub name : Text
    pub size : ℤ
    pub completed : ℤ
    pub ratio : lib.F64
    pub state : Text

  unfoldable pub to_info : QbtTorrent → TorrentInfo
  to_info t = record {
    name = t.name;
    size_bytes = pos (at_least_zero t.size);
    completed_bytes = pos (at_least_zero t.completed);
    ratio_permille = ratio_permille t.ratio;
  }

  unfoldable pub is_torrent_complete : QbtTorrent → Bool
  is_torrent_complete t =
      if is_positive t.size && int_leb t.size t.completed then true else contains up_states t.state

  unfoldable pub completion_row : QbtTorrent → CompletionRow
  completion_row t = record { hash = t.hash; name = t.name; complete = is_torrent_complete t }

  -- `json` reads the list, or fails.
  module _ (json : Text → Option (List QbtTorrent)) (server : Server) (c : Credentials) where
    abbrev pub parsed_list : Result ClientError Text → Result ClientError (List QbtTorrent)
    parsed_list (err e) = err e
    parsed_list (ok body) = or_unreachable (json body)

    unfoldable pub torrents : List Request → Call (List QbtTorrent)
    torrents sent = send_authed server c torrents_info sent >>= λ response out.
        (parsed_list (body_of (codes "the torrent list") response), out)

    unfoldable pub get_torrent_info : List Request → Call (List TorrentInfo)
    get_torrent_info sent = torrents sent >>= λ ts out. (ok (map to_info ts), out)

    unfoldable pub get_completion : List Request → Call (List CompletionRow)
    get_completion sent = torrents sent >>= λ ts out. (ok (map completion_row ts), out)
