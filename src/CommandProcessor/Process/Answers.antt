-- ===== src/CommandProcessor/Process/Answers.antt =====
-- src/command_processor.rs: who a command answers, how much, and what it may change.
use irc2torrent.Prelude.{
  ℕ, suc, max, ◌≤◌, ◌≡◌, ◌≢◌, refl, inl, inr, Bool, true, List, [], ◌∷◌, Text, Option, none, some,
  Result, ok, err, length, arith, trim, is_empty, Bool-cases, to_lower,
}
use irc2torrent.Announce.{Announce, Captures, from_captures, bare}
use irc2torrent.Auth.{
  AuthResult, not_authorized, password_validated, source_validated, irc, CommandRequest,
  authorize_command,
}
use irc2torrent.Auth.Sources.{IsEntitled, authorize_command-IsEntitled}
use irc2torrent.Irc.Outbound.{Outbound}
use irc2torrent.CommandProcessor.Replies.{
  irc_limits, help_lines, TorrentInfo, download_lines, watch_lines, format_download_list,
  format_watchlist,
}
use irc2torrent.CommandProcessor.Replies.Budget.{cap_lines-irc}
use irc2torrent.CommandProcessor.Process.Context.{
  CommandError, unauthorized, Surroundings, Bot, Outcome, answers, expand_shortcut, or_message,
  reply_limits, parse_usize,
}
use irc2torrent.CommandProcessor.Process.{
  one_line, add_usage, no_capture, add_announce, add_bare, add_captured, command_add_torrent,
  list_result, torrent_list, stop_sender, stop_queued, command_add_watch, command_remove_watch,
  test_notify, Verb, verb_add, verb_list, verb_watchlist, verb_help, verb_stop, verb_test,
  verb_watch, verb_unwatch, verb_other, verb_names, verb_in, run_verb, argument_of, run_captures,
  run_authorized, process_command,
}

-- Nothing but the refusal.
abbrev pub IsRefused : Bot → Outcome → Type 0
IsRefused b o = o ≡ answers b (err unauthorized)

run_authorized-IsRefused :
    (env : Surroundings) (b : Bot) (r : CommandRequest) (a : AuthResult)
    → a ≡ not_authorized
    → IsRefused b (run_authorized env b r a)
unfolding run_authorized
run_authorized-IsRefused env b r a h = rw h refl

-- A command that does anything but answer that its sender is not authorized comes from one who
-- proved to be the owner, while commands are enabled.
pub process_command-IsEntitled :
    (env : Surroundings) (b : Bot) (r : CommandRequest)
    → process_command env b r ≢ answers b (err unauthorized)
    → (env.authorizer.config.commands_enabled ≡ true)
      × IsEntitled env.authorizer env.password_match r r.principal
unfolding process_command
process_command-IsEntitled env b r h =
    authorize_command-IsEntitled env.authorizer env.password_match r (λ refused. h (
      run_authorized-IsRefused env b r (authorize_command env.authorizer env.password_match r)
        refused))

-- A reply has at most n lines.
abbrev pub HasLines : ℕ → Result CommandError (List Text) → Type 0
HasLines n (ok lines) = length lines ≤ n
HasLines n (err e) = Unit

one_line-HasLines : (n : ℕ) (r : Result Text Text) → HasLines (suc n) (one_line r)
one_line-HasLines n (ok line) = omega arith
one_line-HasLines n (err e) = tt

add_announce-HasLines :
    (n : ℕ) (env : Surroundings) (b : Bot) (wrong : Text) (a : Option Announce)
    → HasLines (suc n) (add_announce env b wrong a).reply
unfolding add_announce
add_announce-HasLines n env b wrong none = tt
add_announce-HasLines n env b wrong (some a) = one_line-HasLines n _

add_bare-HasLines :
    (n : ℕ) (env : Surroundings) (b : Bot) (id : Option Text)
    → HasLines (suc n) (add_bare env b id).reply
unfolding add_bare
add_bare-HasLines n env b none = add_announce-HasLines n env b add_usage none
add_bare-HasLines n env b (some id) = add_announce-HasLines n env b add_usage (some (bare id))

add_captured-HasLines :
    (n : ℕ) (env : Surroundings) (b : Bot) (argument : Text) (caps : Option Captures)
    → HasLines (suc n) (add_captured env b argument caps).reply
unfolding add_captured
add_captured-HasLines n env b argument (some caps) =
    add_announce-HasLines n env b no_capture
      (from_captures env.capture_names caps env.capture_options)
add_captured-HasLines n env b argument none = add_bare-HasLines n env b (env.bare_id argument)

list_result-HasLines :
    (n : ℕ) (env : Surroundings) (r : Result Text (List TorrentInfo))
    → HasLines (suc n) (list_result env (irc_limits n) r)
unfolding list_result format_download_list
list_result-HasLines n env (err e) = tt
list_result-HasLines n env (ok []) = omega arith
list_result-HasLines n env (ok (t ∷ list)) =
    omega (arith, (cap_lines-irc (download_lines env.float_text (t ∷ list)) n).0)

watchlist-HasLines :
    (n : ℕ) (patterns : List Text)
    → HasLines (suc n) (ok (format_watchlist patterns (irc_limits n)))
unfolding format_watchlist
watchlist-HasLines n [] = omega arith
watchlist-HasLines n (p ∷ patterns) =
    omega (arith, (cap_lines-irc (watch_lines (p ∷ patterns)) n).0)

help-HasLines : (n : ℕ) → HasLines (suc n) (ok (help_lines (irc_limits n)))
unfolding help_lines
help-HasLines n = omega (arith, (cap_lines-irc _ n).0)

stop_sender-HasLines :
    (n : ℕ) (b : Bot) (o : Option Outbound) → HasLines (suc n) (stop_sender b o).reply
unfolding stop_sender
stop_sender-HasLines n b none = omega arith
stop_sender-HasLines n b (some o) = omega arith

command_add_watch-HasLines :
    (n : ℕ) (env : Surroundings) (b : Bot) (argument : Text)
    → HasLines (suc n) (command_add_watch env b argument).reply
unfolding command_add_watch
command_add_watch-HasLines n env b argument = elim (Bool-cases (is_empty (trim argument))) [
  | inl e ↦ rw e tt
  | inr e ↦ rw e (one_line-HasLines n _)
]

command_remove_watch-HasLines :
    (n : ℕ) (env : Surroundings) (b : Bot) (index : Option ℕ)
    → HasLines (suc n) (command_remove_watch env b index).reply
unfolding command_remove_watch
command_remove_watch-HasLines n env b none = tt
command_remove_watch-HasLines n env b (some index) = one_line-HasLines n _

run_verb-HasLines :
    (n : ℕ) (env : Surroundings) (b : Bot) (command argument : Text) (verb : Verb)
    → HasLines (suc n) (run_verb env b (irc_limits n) command argument verb).reply
unfolding run_verb command_add_torrent torrent_list stop_queued test_notify
run_verb-HasLines n env b command argument verb_add =
    add_captured-HasLines n env b argument (env.announce_captures argument)
run_verb-HasLines n env b command argument verb_list = list_result-HasLines n env env.download_list
run_verb-HasLines n env b command argument verb_watchlist = watchlist-HasLines n _
run_verb-HasLines n env b command argument verb_help = help-HasLines n
run_verb-HasLines n env b command argument verb_stop = stop_sender-HasLines n b b.sender
run_verb-HasLines n env b command argument verb_test = omega arith
run_verb-HasLines n env b command argument verb_watch = command_add_watch-HasLines n env b argument
run_verb-HasLines n env b command argument verb_unwatch =
    command_remove_watch-HasLines n env b (parse_usize (trim argument))
run_verb-HasLines n env b command argument verb_other = tt

run_captures-HasLines :
    (n : ℕ) (env : Surroundings) (b : Bot) (caps : Option (Text × Option Text))
    → HasLines (suc n) (run_captures env b (irc_limits n) caps).reply
unfolding run_captures
run_captures-HasLines n env b none = tt
run_captures-HasLines n env b (some (command, params)) =
    run_verb-HasLines n env b (to_lower command) (argument_of params)
      (verb_in verb_names (to_lower command))

run_authorized-HasLines :
    (env : Surroundings) (b : Bot) (nick text : Text) (direct : Bool) (a : AuthResult)
    → HasLines
        (suc (max env.max_reply_lines 2))
        (run_authorized env b
          (record { principal = irc nick; direct = direct; text = text })
          a).reply
unfolding run_authorized reply_limits
run_authorized-HasLines env b nick text direct not_authorized = tt
run_authorized-HasLines env b nick text direct password_validated =
    run_captures-HasLines (max env.max_reply_lines 2) env b
      (env.command_captures (or_message text (expand_shortcut env text)))
run_authorized-HasLines env b nick text direct source_validated =
    run_captures-HasLines (max env.max_reply_lines 2) env b
      (env.command_captures (or_message text (expand_shortcut env text)))

-- Whatever is asked over IRC, a reply has at most one line more than `max_reply_lines`, or three
-- lines when that is set below two.
pub process_command-length :
    (env : Surroundings) (b : Bot) (nick text : Text) (direct : Bool)
    → HasLines
        (suc (max env.max_reply_lines 2))
        (process_command env b
          (record { principal = irc nick; direct = direct; text = text })).reply
unfolding process_command
process_command-length env b nick text direct =
    let request : CommandRequest = record { principal = irc nick; direct = direct; text = text } in
    run_authorized-HasLines env b nick text direct
      (authorize_command env.authorizer env.password_match request)
