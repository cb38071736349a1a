-- ===== src/Clients/Qbittorrent/Session.antt =====
-- src/clients/qbittorrent.rs: requests, and the login that a 403 asks for. The server is an argument:
-- what it answers to the latest of the requests sent so far, or nothing when the transport fails.
pub mod Retries
use irc2torrent.Prelude.{
  ℕ, ◌==◌, Bool, true, false, ◌&&◌, List, [], ◌∷◌, ◌++◌, Text, codes, Option, none, some,
  if◌then◌else◌, text_eq, trim, Result, ok, err,
}
use irc2torrent.Platforms.Http.Download.{is_success}

-- The requests of the client, with what they carry
pub data Request : Type 0 where
  webapi_version torrents_info : Request
  login : (username password : Text) → Request
  torrents_add : (content_type : Text) (body : List ℕ) → Request

-- `body` is nothing when reading it fails.
pub record Response : Type 0 where
  pub status : ℕ
  pub body : Option Text

-- The requests sent so far have the latest first.
abbrev pub Server : Type 0
Server = List Request → Option Response

pub data ClientError : Type 0 where
  client_error : Text → ClientError
  unrecoverable : Text → ClientError

pub record Credentials : Type 0 where
  pub username : Text
  pub password : Text

-- What a call gives, with the requests sent by then
abbrev pub Call : Type 0 → Type 0
Call A = Result ClientError A × List Request

infixl 5 ◌>>=◌
abbrev pub ◌>>=◌ : {A B : Type 0} → Call A → (A → List Request → Call B) → Call B
(err e, sent) >>= next = (err e, sent)
(ok a, sent) >>= next = next a sent

unfoldable pub transport_error : ClientError
transport_error = client_error (codes "qBittorrent is unreachable")

-- `?` on what a transport gives
abbrev pub or_unreachable : {A : Type 0} → Option A → Result ClientError A
or_unreachable none = err transport_error
or_unreachable (some a) = ok a

abbrev pub forbidden : ℕ
forbidden = 403

-- What the answer to a login says
abbrev pub login_body : Bool → Option Text → Result ClientError (Unit {0})
login_body success none = err transport_error
login_body success (some body) =
    if success && text_eq (trim body) (codes "Ok.")
    then ok tt
    else err (unrecoverable (codes "qBittorrent rejected the WebUI username or password"))

unfoldable pub login_answer : Response → Result ClientError (Unit {0})
login_answer response =
    if response.status == forbidden
    then err (unrecoverable (codes "qBittorrent has banned this IP after repeated failed logins"))
    else login_body (is_success response.status) response.body

abbrev pub refuse_forbidden : Response → Result ClientError Response
refuse_forbidden retried =
    if retried.status == forbidden
    then err (client_error (codes "qBittorrent refused the session"))
    else ok retried

module _ (server : Server) where
  unfoldable pub exchange : Request → List Request → Call Response
  exchange r sent = (or_unreachable (server (r ∷ sent)), r ∷ sent)

  unfoldable pub log_in : Credentials → List Request → Call (Unit {0})
  unfolding exchange login_answer
  log_in c sent =
      exchange (login c.username c.password) sent >>= λ response sent. (login_answer response, sent)

  unfoldable pub resend : Credentials → Request → List Request → Call Response
  unfolding exchange log_in
  resend c r sent = log_in c sent >>= λ _ sent.
      exchange r sent >>= λ retried sent. (refuse_forbidden retried, sent)

  unfoldable pub send_authed : Credentials → Request → List Request → Call Response
  unfolding exchange resend
  send_authed c r sent = exchange r sent >>= λ response sent.
      if response.status == forbidden then resend c r sent else (ok response, sent)
