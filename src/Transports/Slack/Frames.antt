-- ===== src/Transports/Slack/Frames.antt =====
-- src/transports/slack.rs: which frames are taken for commands, and in which order they are answered.
use irc2torrent.Prelude.{
  ◌≡◌, ◌↔◌, All, ◌⊎◌, ◌++◌, ap, refl, inl, inr, Bool, true, false, List, [], ◌∷◌, Text, Bool-cases,
  Option, none, some,
}
use irc2torrent.Transports.Json.{JsonLib}
use irc2torrent.Transports.Slack.{
  Frame, message, ack_only, disconnect, ignore_frame, classify, SocketAction, ack, handle_message,
  SocketEnd, failed_socket, told, ended, SocketEvent, text_frame, other_frame, broken, after_frame,
  socket_loop,
}
use irc2torrent.Transports.Slack.Messages.{
  HasPlainMessage, message-HasPlainMessage, message-classify,
}

-- A frame is taken for a message to act on, with this envelope, user and text, exactly when it is an
-- `events_api` envelope of that id whose event is a message of the configured conversation, has no
-- subtype and no bot, and names that user and that text.
pub classify-HasPlainMessage :
    (json : JsonLib) (raw channel_id envelope_id user text : Text)
    → (classify json raw channel_id ≡ message envelope_id user text)
      ↔ HasPlainMessage json raw channel_id envelope_id user text
classify-HasPlainMessage json raw channel_id envelope_id user text = (
  message-HasPlainMessage json raw channel_id envelope_id user text,
  message-classify json raw channel_id envelope_id user text,
)

-- What came in an envelope: its id, and the user and text of the message to act on, if it holds one
abbrev pub Envelope : Type 0
Envelope = Text × Option (Text × Text)

abbrev pub done_for : Envelope → List SocketAction
done_for (id, none) = ack id ∷ []
done_for (id, some (user, text)) = ack id ∷ handle_message user text ∷ []

-- Each envelope is acknowledged, and its message handled right after.
abbrev pub all_done : List Envelope → List SocketAction
all_done [] = []
all_done (e ∷ came) = done_for e ++ all_done came

-- The envelopes that come before Slack closes the socket or it breaks
abbrev pub envelopes_from : Frame → List Envelope → List Envelope
envelopes_from disconnect later = []
envelopes_from ignore_frame later = later
envelopes_from (ack_only id) later = (id, none) ∷ later
envelopes_from (message id user text) later = (id, some (user, text)) ∷ later

abbrev pub envelopes : JsonLib → Text → List SocketEvent → List Envelope
envelopes json conversation [] = []
envelopes json conversation (broken ∷ events) = []
envelopes json conversation (other_frame ∷ events) = envelopes json conversation events
envelopes json conversation (text_frame raw ∷ events) =
    envelopes_from (classify json raw conversation) (envelopes json conversation events)

-- The acknowledgement of the first of these cannot be sent.
abbrev pub IsRefused : (Text → Bool) → List Envelope → Type 0
IsRefused sends [] = ⊥
IsRefused sends ((id, text) ∷ rest) = sends id ≡ false

-- What a connection has answered: the envelopes that came, in order, each with its own message, all of
-- them or up to the first whose acknowledgement cannot be sent, where the connection fails.
abbrev pub IsAnswered : (Text → Bool) → List Envelope → List SocketAction × SocketEnd → Type 0
IsAnswered sends came (actions, end) =
    (taken rest : List Envelope) × (taken ++ rest ≡ came)
    × (actions ≡ all_done taken)
    × All (λ (id, text). sends id ≡ true) taken
    × ((IsRefused sends rest × (end ≡ failed_socket)) ⊎ (rest ≡ []))

IsAnswered-next :
    (sends : Text → Bool) (e : Envelope) (came : List Envelope) (actions : List SocketAction)
    (end : SocketEnd)
    → sends e.0 ≡ true
    → IsAnswered sends came (actions, end)
    → IsAnswered sends (e ∷ came) (done_for e ++ actions, end)
IsAnswered-next sends e came actions end sent (taken, rest, same, made, all, how) =
    (e ∷ taken, rest, ap (◌∷◌ e) same, ap (λ l. done_for e ++ l) made, (sent, all), how)

IsAnswered-refused :
    (sends : Text → Bool) (e : Envelope) (came : List Envelope)
    → sends e.0 ≡ false
    → IsAnswered sends (e ∷ came) ([], failed_socket)
IsAnswered-refused sends (id, text) came refused =
    ([], (id, text) ∷ came, refl, refl, tt, inl (refused, refl))

IsAnswered-nothing : (sends : Text → Bool) (end : SocketEnd) → IsAnswered sends [] ([], end)
IsAnswered-nothing sends end = ([], [], refl, refl, tt, inr refl)

after_frame-IsAnswered :
    (sends : Text → Bool) (frame : Frame) (came : List Envelope)
    (later : List SocketAction × SocketEnd)
    → IsAnswered sends came later
    → IsAnswered sends (envelopes_from frame came) (after_frame sends frame later)
unfolding after_frame
after_frame-IsAnswered sends disconnect came later h = IsAnswered-nothing sends told
after_frame-IsAnswered sends ignore_frame came later h = h
after_frame-IsAnswered sends (ack_only id) came later h = elim (Bool-cases (sends id)) [
  | inl sent ↦ rw sent (IsAnswered-next sends (id, none) came later.0 later.1 sent h)
  | inr failed ↦ rw failed (IsAnswered-refused sends (id, none) came failed)
]
after_frame-IsAnswered sends (message id user text) came later h = elim (Bool-cases (sends id)) [
  | inl sent ↦ rw sent (IsAnswered-next sends (id, some (user, text)) came later.0 later.1 sent h)
  | inr failed ↦ rw failed (IsAnswered-refused sends (id, some (user, text)) came failed)
]

-- Whatever the stream brings, every envelope that comes before Slack closes the socket or the stream
-- breaks is acknowledged once and in order, and the message it holds, if any, is handled right after
-- with the user and the text of that very envelope; unless an acknowledgement cannot be sent, where
-- the connection fails with neither that envelope nor a later one answered.
pub socket_loop-IsAnswered :
    (json : JsonLib) (conversation : Text) (sends : Text → Bool) (events : List SocketEvent)
    → IsAnswered sends
        (envelopes json conversation events)
        (socket_loop json conversation sends events)
unfolding socket_loop
socket_loop-IsAnswered json conversation sends [] = IsAnswered-nothing sends ended
socket_loop-IsAnswered json conversation sends (broken ∷ events) =
    IsAnswered-nothing sends failed_socket
socket_loop-IsAnswered json conversation sends (other_frame ∷ events) =
    socket_loop-IsAnswered json conversation sends events
socket_loop-IsAnswered json conversation sends (text_frame raw ∷ events) =
    after_frame-IsAnswered sends (classify json raw conversation)
      (envelopes json conversation events) (socket_loop json conversation sends events)
      (socket_loop-IsAnswered json conversation sends events)
