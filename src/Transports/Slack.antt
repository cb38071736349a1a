-- ===== src/Transports/Slack.antt =====
-- src/transports/slack.rs: where the bot talks, what a frame of the socket asks for, and what is sent.
-- What the Web API answers is an argument.
pub mod Frames
pub mod Messages
use irc2torrent.Prelude.{
  ℕ, ◌*◌, ◌==◌, min, Bool, true, false, not, ◌&&◌, ◌||◌, List, [], ◌∷◌, ◌++◌, map, Text, codes,
  Option, none, some, Result, ok, err, if◌then◌else◌, is_empty, trim, text_eq,
}
use irc2torrent.Auth.{Principal, slack, CommandRequest}
use irc2torrent.Configuration.Sections.{SlackOptions}
use irc2torrent.Notify.Events.{unwrap_or}
use irc2torrent.Transports.{chunk_reply}
use irc2torrent.Transports.Json.{JsonLib, and_then, text_at, bool_at}
use irc2torrent.Transports.Telegram.{
  message_budget, max_messages, retry_min, retry_max, fenced, reply_lines,
}

-- `direct_to` has the conversation once it is known, which every clone shares.
pub data Conversation : Type 0 where
  channel : Text → Conversation
  direct_to : (owner_id : Text) (resolved : Option Text) → Conversation

pub record SlackBot : Type 0 where
  pub app_token : Text
  pub bot_token : Text
  pub conversation : Conversation

abbrev pub channel_or_direct : Text → Option Text → Conversation
channel_or_direct owner_id none = direct_to owner_id none
channel_or_direct owner_id (some id) =
    if is_empty (trim id) then direct_to owner_id none else channel (trim id)

unfoldable pub new_slack : SlackOptions → Option SlackBot
new_slack o =
    if is_empty (trim o.app_token) || is_empty (trim o.bot_token) || is_empty (trim o.owner_id)
    then none
    else some (record {
      app_token = o.app_token;
      bot_token = o.bot_token;
      conversation = channel_or_direct o.owner_id o.channel_id;
    })

abbrev pub hint_of : Text → Option Text
hint_of code =
    if text_eq code (codes "invalid_auth") || text_eq code (codes "not_authed")
    then some (codes "the token is wrong or has been revoked")
    else if text_eq code (codes "not_allowed_token_type")
    then some (
        codes
          "wrong token for this call -- app_token (xapp-) opens the socket, bot_token (xoxb-) posts")
    else if text_eq code (codes "channel_not_found")
    then some (codes "check channel_id, and invite the bot to that channel")
    else if text_eq code (codes "not_in_channel")
    then some (codes "invite the bot to the channel with /invite @yourbot")
    else if text_eq code (codes "user_not_found")
    then some
        (codes "check owner_id -- it is a member ID (U" ++ (0x2026 ∷ codes "), not a display name"))
    else if text_eq code (codes "cannot_dm_bot")
    then some (codes "owner_id is another bot; it must be a person")
    else if text_eq code (codes "missing_scope")
    then some (
        codes
          "scopes: chat:write and connections:write always; im:write and im:history too when there is no channel_id")
    else none

abbrev pub with_hint : Text → Option Text → Text
with_hint code none = code
with_hint code (some h) = code ++ codes " (" ++ h ++ codes ")"

unfoldable pub explain : Text → Text
explain code = with_hint code (hint_of code)

unfoldable pub slack_messages : List Text → List Text
slack_messages lines = map fenced (chunk_reply lines message_budget max_messages)

pub data Frame : Type 0 where
  message : (envelope_id user text : Text) → Frame
  ack_only : Text → Frame
  disconnect : Frame
  ignore_frame : Frame

module _ (json : JsonLib) where
  -- What a call makes of the parsed body
  unfoldable pub slack_value : Text → json.Value → Result Text json.Value
  slack_value method parsed =
      if unwrap_or (bool_at json (codes "ok") parsed) false
      then ok parsed
      else err (
          method
          ++ codes " rejected: "
          ++ explain (unwrap_or (text_at json (codes "error") parsed) (codes "unknown")))

  abbrev pub opened_id : json.Value → Result Text Text
  opened_id opened =
      elim (and_then (json.field (codes "channel") opened) (text_at json (codes "id"))) [
        | some id ↦ ok id
        | none ↦ err (codes "conversations.open returned no channel id")
      ]

  abbrev pub keep_opened : Text → Result Text json.Value → Result Text Text × Conversation
  keep_opened owner_id (err e) = (err e, direct_to owner_id none)
  keep_opened owner_id (ok opened) = elim (opened_id opened) [
    | ok id ↦ (ok id, direct_to owner_id (some id))
    | err e ↦ (err e, direct_to owner_id none)
  ]

  -- `conversation`: `opens` is what a call of `conversations.open` gives, and the flag tells whether
  -- one was made. Only an answer is kept.
  unfoldable pub conversation_of :
      (Text → Result Text json.Value) → Conversation → Bool × (Result Text Text × Conversation)
  conversation_of opens (channel id) = (false, (ok id, channel id))
  conversation_of opens (direct_to owner_id (some id)) =
      (false, (ok id, direct_to owner_id (some id)))
  conversation_of opens (direct_to owner_id none) = (true, keep_opened owner_id (opens owner_id))

  abbrev pub is_absent {ℓ} : {A : Type ℓ} → Option A → Bool
  is_absent none = true
  is_absent (some a) = false

  -- A text that is there and is this one
  abbrev pub is_text : Option Text → Text → Bool
  is_text none t = false
  is_text (some s) t = text_eq s t

  unfoldable pub is_plain_message : json.Value → Bool
  is_plain_message event =
      is_text (text_at json (codes "type") event) (codes "message")
      && is_absent (json.field (codes "subtype") event)
      && is_absent (json.field (codes "bot_id") event)

  unfoldable pub in_our_channel : Text → json.Value → Bool
  in_our_channel channel_id event = is_text (text_at json (codes "channel") event) channel_id

  abbrev pub message_frame : Text → Option Text → Option Text → Frame
  message_frame envelope_id (some user) (some text) = message envelope_id user text
  message_frame envelope_id _ _ = ack_only envelope_id

  abbrev pub classify_event : Text → Text → Option json.Value → Frame
  classify_event channel_id envelope_id none = ack_only envelope_id
  classify_event channel_id envelope_id (some event) =
      if not (is_plain_message event) || not (in_our_channel channel_id event)
      then ack_only envelope_id
      else message_frame envelope_id (text_at json (codes "user") event)
          (text_at json (codes "text") event)

  abbrev pub classify_envelope : Text → json.Value → Option Text → Frame
  classify_envelope channel_id value none = ignore_frame
  classify_envelope channel_id value (some envelope_id) =
      classify_event channel_id envelope_id
        (and_then (json.field (codes "payload") value) (json.field (codes "event")))

  abbrev pub ack_other : Option Text → Frame
  ack_other none = ignore_frame
  ack_other (some envelope_id) = ack_only envelope_id

  abbrev pub classify_type : Text → json.Value → Option Text → Frame
  classify_type channel_id value none = ignore_frame
  classify_type channel_id value (some kind) =
      if text_eq kind (codes "disconnect")
      then disconnect
      else if text_eq kind (codes "hello")
      then ignore_frame
      else if text_eq kind (codes "events_api")
      then classify_envelope channel_id value (text_at json (codes "envelope_id") value)
      else ack_other (text_at json (codes "envelope_id") value)

  abbrev pub classify_value : Text → Option json.Value → Frame
  classify_value channel_id none = ignore_frame
  classify_value channel_id (some value) =
      classify_type channel_id value (text_at json (codes "type") value)

  unfoldable pub classify : Text → Text → Frame
  classify raw channel_id = classify_value channel_id (json.from_str raw)

pub data SocketAction : Type 0 where
  ack : Text → SocketAction
  handle_message : (user text : Text) → SocketAction

-- How a connection ends: Slack asked for another one, the socket failed, or the stream ended.
pub data SocketEnd : Type 0 where
  told failed_socket ended : SocketEnd

-- What the stream brings: a text, a frame of another kind, or an error
pub data SocketEvent : Type 0 where
  text_frame : Text → SocketEvent
  other_frame broken : SocketEvent

-- What one frame adds to what comes later; an acknowledgement that cannot be sent is the socket's
-- failure.
unfoldable pub after_frame :
    (Text → Bool) → Frame → List SocketAction × SocketEnd → List SocketAction × SocketEnd
after_frame sends disconnect later = ([], told)
after_frame sends ignore_frame later = later
after_frame sends (ack_only id) later =
    if sends id then (ack id ∷ later.0, later.1) else ([], failed_socket)
after_frame sends (message id user text) later =
    if sends id then (ack id ∷ handle_message user text ∷ later.0, later.1) else ([], failed_socket)

-- The loop of `run_socket`; `sends` tells whether the acknowledgement of an envelope goes out.
module _ (json : JsonLib) (conversation : Text) (sends : Text → Bool) where
  unfoldable pub socket_loop : List SocketEvent → List SocketAction × SocketEnd
  unfolding after_frame
  socket_loop [] = ([], ended)
  socket_loop (broken ∷ events) = ([], failed_socket)
  socket_loop (other_frame ∷ events) = socket_loop events
  socket_loop (text_frame raw ∷ events) =
      after_frame sends (classify json raw conversation) (socket_loop events)

-- The wait before the next connection, and the backoff after it
unfoldable pub reconnect : SocketEnd → ℕ → ℕ × ℕ
reconnect failed_socket backoff = (backoff, min (backoff * 2) retry_max)
reconnect told backoff = (0, retry_min)
reconnect ended backoff = (0, retry_min)

unfoldable pub slack_request : Text → Text → CommandRequest
slack_request user text = record { principal = slack user; direct = true; text = text }

unfoldable pub slack_replies :
    (Text → Bool) → (CommandRequest → Result Text (List Text)) → Text → Text → List Text
slack_replies is_command process user text =
    if is_command text then slack_messages (reply_lines (process (slack_request user text))) else []
