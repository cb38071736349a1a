-- ===== src/Transports/Telegram.antt =====
-- src/transports/telegram.rs: the long poll, the commands it brings, and what is sent back. What the
-- Bot API answers is an argument.
pub mod Fences
pub mod Polls
use irc2torrent.Prelude.{
  ℕ, zero, suc, ◌+◌, ◌-◌, ◌*◌, ◌^◌, ◌%◌, ◌==◌, min, Bool, true, false, not, ◌&&◌, ◌||◌, List, [],
  ◌∷◌, ◌++◌, map, Text, codes, Option, none, some, Result, ok, err, if◌then◌else◌, leb, ltb,
  is_empty, trim, to_lower,
}
use irc2torrent.Auth.{ℤ, pos, negsuc, int_eq, Principal, telegram, CommandRequest}
use irc2torrent.Configuration.Sections.{TelegramOptions}
use irc2torrent.Notify.Events.{unwrap_or}
use irc2torrent.Platforms.UrlTemplate.{has_substring}
use irc2torrent.Platforms.Http.Download.{is_success}
use irc2torrent.Transports.{chunk_reply}
use irc2torrent.Transports.Json.{JsonLib, and_then, text_at, int_at, bool_at}

abbrev pub message_budget : ℕ
message_budget = 3900

abbrev pub max_messages : ℕ
max_messages = 10

-- Seconds
abbrev pub retry_min : ℕ
retry_min = 2

abbrev pub retry_max : ℕ
retry_max = 60

pub record TelegramBot : Type 0 where
  pub token : Text
  pub chat_id : ℤ

unfoldable pub new_telegram : TelegramOptions → Option TelegramBot
new_telegram o =
    if is_empty (trim o.token)
    then none
    else if int_eq o.owner_id (pos 0)
    then none
    else some (record { token = o.token; chat_id = o.owner_id })

unfoldable pub hint : Text → Text
hint description =
    let lower = to_lower description in
    if has_substring (codes "chat not found") lower
    then codes " -- message the bot yourself once first; a bot cannot open the chat"
    else if has_substring (codes "terminated by other getupdates") lower
        || has_substring (codes "can't use getupdates method while webhook is active") lower
    then codes " -- another instance is polling this bot, or a webhook is set: only one may"
    else []

-- A backslash goes before each backslash and each backtick.
unfoldable pub escape_code_block : Text → Text
escape_code_block [] = []
escape_code_block (c ∷ cs) =
    let rest = escape_code_block cs in
    if c == b'\\' || c == b'`' then b'\\' ∷ c ∷ rest else c ∷ rest

abbrev pub fence : Text
fence = codes "```"

unfoldable pub fenced : Text → Text
fenced text = fence ++ (10 ∷ (text ++ (10 ∷ fence)))

unfoldable pub message_text : Text → Text
message_text text = fenced (escape_code_block text)

-- The messages that `send_lines` sends, as long as each is accepted
unfoldable pub telegram_messages : List Text → List Text
telegram_messages lines = map message_text (chunk_reply lines message_budget max_messages)

-- `id + 1` on `i64`
abbrev pub int_next : ℤ → ℤ
int_next (pos n) = if n == 2 ^ 63 - 1 then negsuc (2 ^ 63 - 1) else pos (n + 1)
int_next (negsuc zero) = pos 0
int_next (negsuc (suc n)) = negsuc n

abbrev pub int_le : ℤ → ℤ → Bool
int_le (pos a) (pos b) = leb a b
int_le (negsuc a) (negsuc b) = leb b a
int_le (pos a) (negsuc b) = false
int_le (negsuc a) (pos b) = true

abbrev pub int_max : ℤ → ℤ → ℤ
int_max a b = if int_le a b then b else a

pub record Update : Type 0 where
  pub from : ℤ
  pub text : Text

module _ (json : JsonLib) where
  -- What a call makes of the status and the body; the method and the status are left out of the error.
  unfoldable pub call_value : ℕ → json.Value → Result Text json.Value
  call_value status parsed =
      let why = unwrap_or (text_at json (codes "description") parsed) (codes "no description") in
      if not (is_success status) || not (unwrap_or (bool_at json (codes "ok") parsed) false)
      then err (why ++ hint why)
      else ok (unwrap_or (json.field (codes "result") parsed) json.null)

  unfoldable pub update_id : json.Value → ℤ
  update_id raw = unwrap_or (int_at json (codes "update_id") raw) (pos 0)

  abbrev pub update_with : Option ℤ → Option Text → List Update
  update_with (some from) (some text) = record { from = from; text = text } ∷ []
  update_with _ _ = []

  abbrev pub update_in : Option json.Value → List Update
  update_in none = []
  update_in (some message) =
      update_with (and_then (json.field (codes "from") message) (int_at json (codes "id")))
        (text_at json (codes "text") message)

  -- The loop of `poll`: each update is acknowledged, and those with a sender and a text are kept.
  unfoldable pub poll_loop : ℤ → List json.Value → List Update × ℤ
  poll_loop next [] = ([], next)
  poll_loop next (raw ∷ rest) =
      let later = poll_loop (int_max next (int_next (update_id raw))) rest in
      (update_in (json.field (codes "message") raw) ++ later.0, later.1)

  unfoldable pub poll_result : ℤ → json.Value → List Update × ℤ
  poll_result offset result = poll_loop offset (unwrap_or (json.as_array result) [])

-- What the command poller keeps
pub record TelegramPoller : Type 0 where
  pub offset : ℤ
  pub backoff : ℕ
  pub confirmed : Bool
  pub failures : ℕ

abbrev pub new_poller : TelegramPoller
new_poller = record { offset = pos 0; backoff = retry_min; confirmed = false; failures = 0 }

pub data PollerAction : Type 0 where
  whoami : PollerAction
  handle_update : Update → PollerAction
  sleep : ℕ → PollerAction

abbrev pub confirm : Bool → List PollerAction
confirm true = []
confirm false = whoami ∷ []

-- One turn of the loop; `none` is a failed poll. `failures` is a `u32`.
unfoldable pub after_poll :
    Option (List Update × ℤ) → TelegramPoller → TelegramPoller × List PollerAction
after_poll none p = (
  record p { failures = (p.failures + 1) % 2 ^ 32; backoff = min (p.backoff * 2) retry_max },
  sleep p.backoff ∷ [],
)
after_poll (some (updates, next)) p = (
  record { offset = next; backoff = retry_min; confirmed = true; failures = 0 },
  confirm p.confirmed ++ map handle_update updates,
)

unfoldable pub request_of : Update → CommandRequest
request_of u = record { principal = telegram u.from; direct = true; text = u.text }

abbrev pub reply_lines : Result Text (List Text) → List Text
reply_lines (ok lines) = lines
reply_lines (err e) = e ∷ []

-- The messages that answer an update, given what a command is and what processing one gives
unfoldable pub telegram_replies :
    (Text → Bool) → (CommandRequest → Result Text (List Text)) → Update → List Text
telegram_replies is_command process u =
    if is_command u.text then telegram_messages (reply_lines (process (request_of u))) else []

-- Polls one after another, each asking from the offset that the last one left
module _ (json : JsonLib) where
  abbrev pub polled : ℤ → Option json.Value → Option (List Update × ℤ)
  polled offset none = none
  polled offset (some result) = some (poll_result json offset result)

  unfoldable pub after_polls :
      List (Option json.Value) → TelegramPoller → TelegramPoller × List PollerAction
  after_polls [] p = (p, [])
  after_polls (answer ∷ answers) p =
      let turn = after_poll (polled p.offset answer) p in
      let later = after_polls answers turn.0 in (later.0, turn.1 ++ later.1)
