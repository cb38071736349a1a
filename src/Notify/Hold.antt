-- ===== src/Notify/Hold.antt =====
-- src/notify.rs: the IRC backend, which holds what it cannot send while the owner is away. An
-- `Instant` is a number of seconds.
pub mod Flush
pub mod Copies
pub mod Reach
use irc2torrent.Prelude.{
  ℕ, ◌+◌, ◌-◌, ◌==◌, Bool, true, false, not, List, [], ◌∷◌, ◌++◌, Text, codes, Option, none, some,
  Result, ok, err, if◌then◌else◌, ltb, leb, length, drop, trim, is_empty, keep_if,
}
use irc2torrent.Irc.Outbound.{Outbound, sanitize_for_irc, send_uninterruptible}
use irc2torrent.Notify.Events.{flat_lines}
use irc2torrent.Notify.Outbox.{Backend}

pub record Held : Type 0 where
  pub at : ℕ
  pub subject : Text
  pub body : Text

pub record IrcLink : Type 0 where
  pub sender : Option Outbound
  pub owner_online : Bool

-- The backend with the link that it shares with the connection.
pub record IrcBackend : Type 0 where
  pub link : IrcLink
  pub nick : Text
  pub hold_for : ℕ
  pub pending : List Held

abbrev pub irc_hold_limit : ℕ
irc_hold_limit = 20

unfoldable pub connected : Outbound → IrcLink
connected sender = record { sender = some sender; owner_online = true }

-- The lines that are worth a message of their own.
unfoldable pub sent_lines : Text → Text → List Text
sent_lines subject body = keep_if (λ l. not (is_empty (trim l))) (flat_lines subject body)

abbrev pub send_lines : Text → List Text → Outbound → Outbound
send_lines nick [] o = o
send_lines nick (l ∷ lines) o =
    send_lines nick lines (send_uninterruptible nick (sanitize_for_irc l) o)

unfoldable pub write : Text → Text → Text → Outbound → Outbound
unfolding sent_lines
write nick subject body o = send_lines nick (sent_lines subject body) o

unfoldable pub hold : ℕ → Text → Text → IrcBackend → IrcBackend
hold now subject body s =
    let queue = s.pending ++ (record { at = now; subject = subject; body = body } ∷ []) in
    if s.hold_for == 0 then s else record s { pending = drop (length queue - irc_hold_limit) queue }

abbrev pub write_all : Text → List Held → Outbound → Outbound
write_all nick [] o = o
write_all nick (h ∷ held) o = write_all nick held (write nick h.subject h.body o)

unfoldable pub fresh : ℕ → IrcBackend → List Held
fresh now s = keep_if (λ h. ltb (now - h.at) s.hold_for) s.pending

unfoldable pub flush_held : ℕ → Outbound → IrcBackend → IrcBackend
unfolding fresh
flush_held now sender s = record s {
  pending = [];
  link = record {
    sender = some (write_all s.nick (fresh now s) sender);
    owner_online = s.link.owner_online;
  };
}

unfoldable pub set_sender : Outbound → IrcBackend → IrcBackend
set_sender o s = record s { link = record { sender = some o; owner_online = s.link.owner_online } }

-- The delivery to a sender with the owner online: what was held goes first.
pub deliver_online : ℕ → Text → Text → Outbound → IrcBackend → IrcBackend
unfolding fresh set_sender
deliver_online now subject body sender s =
    let flushed = write_all s.nick (fresh now s) sender in
    record (set_sender (write s.nick subject body flushed) s) { pending = [] }

pub deliver_link :
    Option Outbound → ℕ → Text → Text → IrcBackend → Result Text (Unit {0}) × IrcBackend
unfolding hold deliver_online
deliver_link none now subject body s =
    (err (codes "not connected to IRC; message held"), hold now subject body s)
deliver_link (some sender) now subject body s =
    if s.link.owner_online
    then (ok tt, deliver_online now subject body sender s)
    else (err (s.nick ++ codes " is not online; message held"), hold now subject body s)

unfoldable pub deliver : ℕ → Text → Text → IrcBackend → Result Text (Unit {0}) × IrcBackend
unfolding deliver_link
deliver now subject body s = deliver_link s.link.sender now subject body s

pub retry_link : Option Outbound → ℕ → IrcBackend → IrcBackend
unfolding flush_held
retry_link none now s = s
retry_link (some sender) now s = if s.link.owner_online then flush_held now sender s else s

unfoldable pub retry_pending : ℕ → IrcBackend → IrcBackend
unfolding retry_link
retry_pending now s = retry_link s.link.sender now s

unfoldable pub irc_backend : Backend IrcBackend
irc_backend = record { deliver = deliver; retry_pending = retry_pending }
