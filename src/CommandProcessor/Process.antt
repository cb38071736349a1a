-- ===== src/CommandProcessor/Process.antt =====
-- src/command_processor.rs: running a command. The regex crate's captures, the tracker and the
-- torrent client are arguments.
pub mod Answers
pub mod Context
use irc2torrent.Prelude.{
  drop_plus, digits_value, ℕ, zero, suc, ◌+◌, ◌-◌, ◌*◌, ◌^◌, ◌==◌, max, Bool, true, false, not,
  ◌&&◌, ◌||◌, List, [], ◌∷◌, ◌++◌, map, Text, codes, Option, none, some, Result, ok, err,
  if◌then◌else◌, ltb, all, find, is_digit, is_empty, to_lower, trim, text_eq, decimal,
}
use irc2torrent.Announce.{Announce, Captures, CaptureOptions, from_captures, bare}
use irc2torrent.Auth.{
  Authorization, PasswordMatch, AuthResult, not_authorized, password_validated, source_validated,
  Principal, irc, telegram, slack, CommandRequest, authorize_command,
}
use irc2torrent.Irc.Outbound.{Outbound, cancel}
use irc2torrent.Notify.Events.{test}
use irc2torrent.TorrentProcessor.Filters.{Lists}
use irc2torrent.TorrentProcessor.{Action, notify, Remotes, add_torrent}
use irc2torrent.CommandProcessor.Replies.{
  ReplyLimits, irc_limits, unconstrained, CommandInfo, commands, help_lines, TorrentInfo, FloatText,
  format_download_list, format_watchlist,
}
use irc2torrent.CommandProcessor.Watchlist.{
  WatchEntry, Options, get_dl_patterns, add_torrent_to_watchlist, remove_torrent_from_watchlist,
}
use irc2torrent.CommandProcessor.Process.Context.{
  CommandError, Surroundings, Bot, Outcome, answers, full_name, expand_found, expand_captures,
  expand_shortcut, or_message, reply_limits, parse_usize, unauthorized, not_implemented,
  bad_arguments, failed,
}

abbrev pub one_line : Result Text Text → Result CommandError (List Text)
one_line (ok line) = ok (line ∷ [])
one_line (err e) = err (failed e)

pub add_announce : Surroundings → Bot → Text → Option Announce → Outcome
add_announce env b wrong none = answers b (err (bad_arguments wrong))
add_announce env b wrong (some a) =
    let done = add_torrent env.remotes env.lists a in
    record { reply = one_line done.0; actions = done.1; bot = b }

unfoldable pub no_capture : Text
no_capture = codes "That line matched regex_for_announce_match but `name` or `id` did not capture."

unfoldable pub add_usage : Text
add_usage = codes "Use: cmd:addtorrent params:(<announce line, torrent link, or id>)"

pub add_bare : Surroundings → Bot → Option Text → Outcome
unfolding add_announce
add_bare env b none = add_announce env b add_usage none
add_bare env b (some id) = add_announce env b add_usage (some (bare id))

pub add_captured : Surroundings → Bot → Text → Option Captures → Outcome
unfolding add_announce add_bare
add_captured env b argument none = add_bare env b (env.bare_id argument)
add_captured env b argument (some caps) =
    add_announce env b no_capture (from_captures env.capture_names caps env.capture_options)

unfoldable pub command_add_torrent : Surroundings → Bot → Text → Outcome
unfolding add_captured
command_add_torrent env b argument = add_captured env b argument (env.announce_captures argument)

pub list_result :
    Surroundings → ReplyLimits → Result Text (List TorrentInfo) → Result CommandError (List Text)
list_result env limits (ok list) = ok (format_download_list env.float_text list limits)
list_result env limits (err e) = err (failed e)

unfoldable pub torrent_list : Surroundings → Bot → ReplyLimits → Outcome
unfolding list_result
torrent_list env b limits = answers b (list_result env limits env.download_list)

pub stopped_text : ℕ → Text
stopped_text n =
    if n == 0
    then codes "Nothing was queued."
    else if n == 1
    then codes "Stopped; 1 queued message discarded."
    else codes "Stopped; " ++ decimal n ++ codes " queued messages discarded."

unfoldable pub stop_sender : Bot → Option Outbound → Outcome
unfolding stopped_text
stop_sender b none = answers b (ok (codes "Nothing was queued." ∷ []))
stop_sender b (some o) =
    answers (record b { sender = some (cancel o).1 }) (ok (stopped_text (cancel o).0 ∷ []))

unfoldable pub stop_queued : Bot → Outcome
unfolding stop_sender
stop_queued b = stop_sender b b.sender

abbrev pub changes_options : Bot → Result Text Text × Options → Outcome
changes_options b (reply, o) = answers (record b { options = o }) (one_line reply)

unfoldable pub command_add_watch : Surroundings → Bot → Text → Outcome
command_add_watch env b argument =
    if is_empty (trim argument)
    then answers b (err (bad_arguments (codes "Use: cmd:addtowatchlist params:(<regex>)")))
    else changes_options b
        (add_torrent_to_watchlist env.regex_error env.from_data argument b.options)

unfoldable pub command_remove_watch : Surroundings → Bot → Option ℕ → Outcome
command_remove_watch env b none =
    answers b (err (bad_arguments (codes "Use: cmd:removewatch params:(<index>)")))
command_remove_watch env b (some index) =
    changes_options b (remove_torrent_from_watchlist env.regex_error env.from_data index b.options)

unfoldable pub test_notify : Bot → Outcome
test_notify b = record {
  reply = ok (
      codes
        "Test notification queued; check your configured targets. If nothing arrives, the log names the reason."
      ∷ []);
  actions = notify test ∷ [];
  bot = b;
}

-- The commands by name, each with its alias.
pub data Verb : Type 0 where
  verb_add verb_list verb_watchlist verb_help verb_stop verb_test verb_watch verb_unwatch : Verb
  verb_other : Verb

unfoldable pub verb_names : List (Text × Verb)
verb_names =
    (codes "addtorrent", verb_add)
    ∷ (codes "torrentlist", verb_list)
    ∷ (codes "downloadlist", verb_list)
    ∷ (codes "watchlist", verb_watchlist)
    ∷ (codes "listwatch", verb_watchlist)
    ∷ (codes "help", verb_help)
    ∷ (codes "commands", verb_help)
    ∷ (codes "stop", verb_stop)
    ∷ (codes "cancel", verb_stop)
    ∷ (codes "testnotify", verb_test)
    ∷ (codes "addtowatchlist", verb_watch)
    ∷ (codes "removewatch", verb_unwatch)
    ∷ []

abbrev pub verb_in : List (Text × Verb) → Text → Verb
verb_in [] command = verb_other
verb_in ((name, verb) ∷ names) command =
    if text_eq name command then verb else verb_in names command

unfoldable pub run_verb : Surroundings → Bot → ReplyLimits → Text → Text → Verb → Outcome
run_verb env b limits command argument verb_add = command_add_torrent env b argument
run_verb env b limits command argument verb_list = torrent_list env b limits
run_verb env b limits command argument verb_watchlist =
    answers b (ok (format_watchlist (get_dl_patterns b.options) limits))
run_verb env b limits command argument verb_help = answers b (ok (help_lines limits))
run_verb env b limits command argument verb_stop = stop_queued b
run_verb env b limits command argument verb_test = test_notify b
run_verb env b limits command argument verb_watch = command_add_watch env b argument
run_verb env b limits command argument verb_unwatch =
    command_remove_watch env b (parse_usize (trim argument))
run_verb env b limits command argument verb_other = answers b (err (not_implemented command))

abbrev pub argument_of : Option Text → Text
argument_of none = []
argument_of (some params) = params

unfoldable pub run_captures :
    Surroundings → Bot → ReplyLimits → Option (Text × Option Text) → Outcome
unfolding run_verb verb_names
run_captures env b limits none = answers b (err (bad_arguments (codes "Not a command.")))
run_captures env b limits (some (command, params)) =
    let name = to_lower command in
    run_verb env b limits name (argument_of params) (verb_in verb_names name)

unfoldable pub run_authorized : Surroundings → Bot → CommandRequest → AuthResult → Outcome
unfolding run_captures reply_limits expand_shortcut
run_authorized env b r not_authorized = answers b (err unauthorized)
run_authorized env b r password_validated =
    run_captures env b (reply_limits env r.principal)
      (env.command_captures (or_message r.text (expand_shortcut env r.text)))
run_authorized env b r source_validated =
    run_captures env b (reply_limits env r.principal)
      (env.command_captures (or_message r.text (expand_shortcut env r.text)))

unfoldable pub process_command : Surroundings → Bot → CommandRequest → Outcome
unfolding run_authorized
process_command env b r =
    run_authorized env b r (authorize_command env.authorizer env.password_match r)
