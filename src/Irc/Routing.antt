-- ===== src/Irc/Routing.antt =====
-- src/irc_processor.rs: where a message goes, and what an announcement sets off. The command pattern
-- and the announce pattern are matched by the regex crate: their results are arguments.
pub mod Sources
use irc2torrent.Prelude.{
  Bool, true, false, List, [], ◌∷◌, Text, codes, Option, none, some, if◌then◌else◌, eq_ignore_case,
}
use irc2torrent.IrcFormat.{cow_text, strip_formatting}
use irc2torrent.Announce.{Announce}
use irc2torrent.Auth.{
  AuthResult, password_validated, source_validated, not_authorized, announcement, authenticate,
}
use irc2torrent.TorrentProcessor.Filters.{Lists}
use irc2torrent.TorrentProcessor.{Remotes, TorrentOutcome, Action, process_torrent, outcome_text}
use irc2torrent.Irc.Identity.Pending.{Setup, Effect, send_privmsg, reply_to}

-- `captures` and `Announce::from_captures`: a match may still lack a name or an id.
pub data Captured : Type 0 where
  no_match incomplete : Captured
  complete : Announce → Captured

-- What `msg_process` does with a PRIVMSG
pub data Route : Type 0 where
  nickserv : Text → Route
  command : Text → Text → Text → Route
  torrent : Text → Text → Announce → Route
  dropped : Route

pub route_announce : Text → Text → Captured → Route
route_announce target sender (complete a) = torrent target sender a
route_announce target sender no_match = dropped
route_announce target sender incomplete = dropped

unfoldable pub route_text : (Text → Bool) → (Text → Captured) → Text → Text → Text → Route
unfolding route_announce
route_text is_command captures target sender message =
    if eq_ignore_case sender (codes "NickServ")
    then nickserv message
    else if is_command message
    then command target message sender
    else route_announce target sender (captures message)

unfoldable pub route_privmsg : (Text → Bool) → (Text → Captured) → Text → Text → Text → Route
route_privmsg is_command captures target sender message =
    route_text is_command captures target sender (cow_text (strip_formatting message))

pub answer : Setup → Text → Text → TorrentOutcome × List Action → List Effect × List Action
answer s target sender (outcome, actions) =
    (send_privmsg (reply_to s target sender) (outcome_text outcome) ∷ [], actions)

pub take_announce :
    AuthResult → Setup → Remotes → Lists → Text → Text → Announce → List Effect × List Action
unfolding answer
take_announce source_validated s io l target sender a =
    answer s target sender (process_torrent io l a)
take_announce password_validated s io l target sender a = ([], [])
take_announce not_authorized s io l target sender a = ([], [])

unfoldable pub torrent_msg_process :
    Setup → Remotes → Lists → Text → Text → Announce → List Effect × List Action
unfolding take_announce
torrent_msg_process s io l target sender a =
    take_announce
      (authenticate s.config (record { sender = sender; target = target; our_nick = s.our_nick })
        announcement)
      s io l target sender a
