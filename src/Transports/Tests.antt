-- ===== src/Transports/Tests.antt =====
-- src/transports: the theorems at a few short lines and messages.
use irc2torrent.Prelude.{
  ◌≡◌, ◌↔◌, refl, arith, true, false, ◌||◌, List, [], ◌∷◌, ◌++◌, Text, codes, none, some,
  if◌then◌else◌, text_eq, lookup,
}
use irc2torrent.Auth.{pos}
use irc2torrent.Transports.Json.{JsonLib}
use irc2torrent.Transports.Telegram.{fence, message_text, new_poller, after_polls}
use irc2torrent.Transports.Telegram.Fences.{read_block, read_block-message_text}
use irc2torrent.Transports.Telegram.Polls.{seen, IsForward, after_polls-IsForward}
use irc2torrent.Transports.Slack.{
  message, is_plain_message, in_our_channel, classify, socket_loop, SocketEvent, text_frame,
  other_frame, broken,
}
use irc2torrent.Transports.Slack.Messages.{HasPlainMessage}
use irc2torrent.Transports.Slack.Frames.{
  classify-HasPlainMessage, IsAnswered, envelopes, socket_loop-IsAnswered,
}
use irc2torrent.Transports.{chunk_lines}
use irc2torrent.Transports.Chunks.{join_lines, chunk_lines-join}

abbrev lines : List Text
lines = codes "[0] Release" ∷ codes "[1] Another" ∷ codes "[2] Third" ∷ []

chunk_lines-join_example : join_lines (chunk_lines lines 20) ≡ join_lines lines
chunk_lines-join_example = chunk_lines-join lines 20 refl

read_block-message_text_example :
    (block : Text) × (message_text (codes "a`b\\") ≡ fence ++ block)
    × (read_block false block ≡ some (10 ∷ (codes "a`b\\" ++ 10 ∷ []), fence))
read_block-message_text_example = read_block-message_text (codes "a`b\\")

-- A value is a path into one event, with the texts at some paths.
abbrev event_texts : List (Text × Text)
event_texts =
    (codes "/type", codes "events_api")
    ∷ (codes "/envelope_id", codes "e1")
    ∷ (codes "/payload/event/type", codes "message")
    ∷ (codes "/payload/event/channel", codes "C1")
    ∷ (codes "/payload/event/user", codes "U1")
    ∷ (codes "/payload/event/text", codes "cmd: help")
    ∷ []

abbrev json : JsonLib
json = record {
  Value = Text;
  null = [];
  from_str = λ raw. some [];
  field = λ name v.
      if text_eq name (codes "subtype") || text_eq name (codes "bot_id")
      then none
      else some (v ++ (b'/' ∷ name));
  as_str = λ v. lookup v event_texts;
  as_i64 = λ v. some (pos 7);
  as_bool = λ v. none;
  as_array = λ v. some (v ∷ v ∷ []);
}

after_polls-IsForward_example :
    IsForward json
      (pos 0)
      (seen json (none ∷ some [] ∷ []))
      (after_polls json (none ∷ some [] ∷ []) new_poller).0
after_polls-IsForward_example =
    after_polls-IsForward json (none ∷ some [] ∷ []) new_poller (omega arith, omega arith)

classify-HasPlainMessage_example :
    (classify json (codes "frame") (codes "C1")
      ≡ message (codes "e1") (codes "U1") (codes "cmd: help"))
    ↔ HasPlainMessage json
        (codes "frame")
        (codes "C1")
        (codes "e1")
        (codes "U1")
        (codes "cmd: help")
classify-HasPlainMessage_example =
    classify-HasPlainMessage json (codes "frame") (codes "C1") (codes "e1") (codes "U1")
      (codes "cmd: help")

classified :
    classify json (codes "frame") (codes "C1")
    ≡ message (codes "e1") (codes "U1") (codes "cmd: help")
unfolding classify is_plain_message in_our_channel lookup
classified = refl

-- One event comes twice, then a ping, and the socket breaks.
abbrev events : List SocketEvent
events =
    text_frame (codes "frame")
    ∷ other_frame
    ∷ text_frame (codes "frame")
    ∷ broken
    ∷ text_frame (codes "frame")
    ∷ []

socket_loop-IsAnswered_example :
    IsAnswered
      (λ id. true)
      (envelopes json (codes "C1") events)
      (socket_loop json (codes "C1") (λ id. true) events)
socket_loop-IsAnswered_example = socket_loop-IsAnswered json (codes "C1") (λ id. true) events
