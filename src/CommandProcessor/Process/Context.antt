-- ===== src/CommandProcessor/Process/Context.antt =====
-- src/command_processor.rs: what a command reads and changes, and its short forms. The regex crate's
-- captures are arguments.
use irc2torrent.Prelude.{
  parse_unsigned, ℕ, ◌^◌, max, Bool, List, [], ◌∷◌, ◌++◌, Text, codes, Option, none, some, Result,
  if◌then◌else◌, is_empty, to_lower, trim, text_eq,
}
use irc2torrent.Announce.{Captures, CaptureOptions}
use irc2torrent.Auth.{Authorization, PasswordMatch, Principal, irc, telegram, slack}
use irc2torrent.Irc.Outbound.{Outbound}
use irc2torrent.TorrentProcessor.Filters.{Lists}
use irc2torrent.TorrentProcessor.{Action, Remotes}
use irc2torrent.CommandProcessor.Replies.{
  ReplyLimits, irc_limits, unconstrained, CommandInfo, commands, TorrentInfo, FloatText,
}
use irc2torrent.CommandProcessor.Watchlist.{WatchEntry, Options}

pub data CommandError : Type 0 where
  unauthorized : CommandError
  not_implemented bad_arguments failed : Text → CommandError

-- What a command reads of its surroundings.
pub record Surroundings : Type 0 where
  pub authorizer : Authorization
  pub password_match : PasswordMatch
  pub shortcut_captures : Text → Option (Text × Text)
  pub command_captures : Text → Option (Text × Option Text)
  pub announce_captures : Text → Option Captures
  pub capture_names : List Text
  pub capture_options : List (Text × CaptureOptions)
  pub bare_id : Text → Option Text
  pub remotes : Remotes
  pub lists : Lists
  pub download_list : Result Text (List TorrentInfo)
  pub float_text : FloatText
  pub regex_error : Text → Option Text
  pub from_data : List WatchEntry → Bool
  pub max_reply_lines : ℕ

-- What a command changes: the watchlist, and the queue of the IRC connection when there is one.
pub record Bot : Type 0 where
  pub options : Options
  pub sender : Option Outbound

pub record Outcome : Type 0 where
  pub reply : Result CommandError (List Text)
  pub actions : List Action
  pub bot : Bot

abbrev pub answers : Bot → Result CommandError (List Text) → Outcome
answers b reply = record { reply = reply; actions = []; bot = b }

unfoldable pub full_name : Text → List CommandInfo → Option Text
full_name short [] = none
full_name short (c ∷ cs) =
    let rest = full_name short cs in if text_eq c.short short then some c.full else rest

pub expand_found : Text → Option Text → Option Text
expand_found rest none = none
expand_found rest (some full) = some (
    if is_empty rest
    then codes "cmd:" ++ full
    else codes "cmd:" ++ full ++ codes " params:(" ++ rest ++ codes ")")

pub expand_captures : Option (Text × Text) → Option Text
unfolding expand_found full_name commands
expand_captures none = none
expand_captures (some (short, rest)) =
    expand_found (trim rest) (full_name (to_lower short) commands)

unfoldable pub expand_shortcut : Surroundings → Text → Option Text
unfolding expand_captures
expand_shortcut env msg = expand_captures (env.shortcut_captures msg)

abbrev pub or_message : Text → Option Text → Text
or_message message none = message
or_message message (some expanded) = expanded

-- `max_reply_lines` is at least 2.
unfoldable pub reply_limits : Surroundings → Principal → ReplyLimits
reply_limits env (irc nick) = irc_limits (max env.max_reply_lines 2)
reply_limits env (telegram user) = unconstrained
reply_limits env (slack user) = unconstrained

-- `str::parse::<usize>`
unfoldable pub parse_usize : Text → Option ℕ
parse_usize t = parse_unsigned (2 ^ 64) t
