-- ===== src/Irc/Routing/Sources.antt =====
-- src/irc_processor.rs: from where an announcement sets anything off.
use irc2torrent.Prelude.{◌≡◌, refl, ◌∙◌, Bool, true, false, ◌&&◌, [], Text, if◌then◌else◌}
use irc2torrent.Announce.{Announce}
use irc2torrent.Auth.{
  source_validated, not_authorized, MessageOrigin, is_owner, is_private_message, is_valid_channel,
}
use irc2torrent.Auth.Sources.{authenticate-announcement}
use irc2torrent.TorrentProcessor.Filters.{Lists}
use irc2torrent.TorrentProcessor.{Remotes}
use irc2torrent.Irc.Identity.Pending.{Setup}
use irc2torrent.Irc.Routing.{take_announce, torrent_msg_process}

-- The sources that are listened to: a configured channel, and the owner's private message while
-- commands are enabled.
abbrev pub is_trusted : Setup → MessageOrigin → Bool
is_trusted s o =
    if is_owner s.config o.sender && is_private_message o
    then s.config.commands_enabled
    else is_valid_channel s.config o.target

untrusted :
    (b p e v : Bool)
    → (if b && p then e else v) ≡ false
    → (if b && p
        then (if e then source_validated else not_authorized)
        else if v
        then source_validated
        else not_authorized)
      ≡ not_authorized
untrusted true true e v h = rw h refl
untrusted true false e v h = rw h refl
untrusted false p e v h = rw h refl

-- An announce line from any other source is neither fetched nor answered.
pub torrent_msg_process-untrusted :
    (s : Setup) (io : Remotes) (l : Lists) (target sender : Text) (a : Announce)
    → is_trusted s (record { sender = sender; target = target; our_nick = s.our_nick }) ≡ false
    → torrent_msg_process s io l target sender a ≡ ([], [])
unfolding torrent_msg_process take_announce
torrent_msg_process-untrusted s io l target sender a h =
    let origin : MessageOrigin = record {
      sender = sender;
      target = target;
      our_nick = s.our_nick;
    } in
    let refused =
      authenticate-announcement s.config origin
      ∙ untrusted (is_owner s.config sender) (is_private_message origin) s.config.commands_enabled
          (is_valid_channel s.config target) h in
    rw refused refl
