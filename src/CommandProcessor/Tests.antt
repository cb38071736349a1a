-- ===== src/CommandProcessor/Tests.antt =====
-- src/command_processor.rs: the theorems at one owner and a short watchlist.
use irc2torrent.Prelude.{
  ◌≤◌, ◌≡◌, ◌≢◌, refl, ap, true, List, [], ◌∷◌, length, get_elem?, All, utf8_len, Text, codes, none,
  some, ok, err,
}
use irc2torrent.Auth.{
  irc_user_name, Principal, CommandRequest, authorize_command, check_principal, check_irc_command,
  check_mode,
}
use irc2torrent.Auth.Sources.{IsEntitled}
use irc2torrent.CommandProcessor.Replies.{irc_limits, cap_lines}
use irc2torrent.CommandProcessor.Replies.Budget.{cap_lines-irc}
use irc2torrent.CommandProcessor.Watchlist.{
  WatchEntry, pattern_entry, Options, get_dl_patterns, pattern,
}
use irc2torrent.CommandProcessor.Process.Context.{Surroundings, Bot, answers, unauthorized}
use irc2torrent.CommandProcessor.Process.{
  process_command, run_authorized, run_captures, run_verb, verb_names, stop_queued, stop_sender,
}
use irc2torrent.CommandProcessor.Process.Answers.{
  HasLines, process_command-IsEntitled, process_command-length,
}

abbrev env : Surroundings
env = record {
  authorizer = record {
    config = record {
      commands_enabled = true;
      security_mode = irc_user_name (codes "owner");
      require_identified = true;
      channels = [];
    };
    telegram_owner = none;
    slack_owner = none;
  };
  password_match = λ t. none;
  shortcut_captures = λ t. none;
  command_captures = λ t. some (codes "Stop", none);
  announce_captures = λ t. none;
  capture_names = [];
  capture_options = [];
  bare_id = λ t. none;
  remotes = record { fetch = λ a. err []; start = λ b64 a. err [] };
  lists = record { dl_watches = []; reject_regexes = []; require_fields = []; field_filters = [] };
  download_list = ok [];
  float_text = record { human_bytes = λ n. []; ratio = λ n. [] };
  regex_error = λ t. none;
  from_data = λ watches. true;
  max_reply_lines = 12;
}

abbrev watches : List WatchEntry
watches = pattern_entry (codes "One.*") ∷ pattern_entry (codes "Two.*") ∷ []

abbrev options : Options
options = record { data_watches = watches; loaded = watches; written = watches }

abbrev bot : Bot
bot = record { options = options; sender = none }

abbrev request : CommandRequest
request = record {
  principal = Principal.irc (codes "Owner");
  direct = true;
  text = codes "cmd:stop";
}

carried_out : process_command env bot request ≢ answers bot (err unauthorized)
unfolding process_command run_authorized authorize_command check_principal check_irc_command
    check_mode run_captures run_verb verb_names stop_queued stop_sender
carried_out h = let replies = ap (λ o. o.reply) h in cc

process_command-IsEntitled_example :
    (env.authorizer.config.commands_enabled ≡ true)
    × IsEntitled env.authorizer env.password_match request (Principal.irc (codes "Owner"))
process_command-IsEntitled_example = process_command-IsEntitled env bot request carried_out

process_command-length_example : HasLines 13 (process_command env bot request).reply
process_command-length_example =
    process_command-length env bot (codes "Owner") (codes "cmd:stop") true

cap_lines-irc_example :
    (length (cap_lines (codes "a" ∷ codes "b" ∷ []) (irc_limits 2)) ≤ 3)
    × All (λ l. utf8_len l ≤ 383) (cap_lines (codes "a" ∷ codes "b" ∷ []) (irc_limits 2))
cap_lines-irc_example = cap_lines-irc (codes "a" ∷ codes "b" ∷ []) 2

abbrev patterns : List Text
patterns = codes "One.*" ∷ codes "Two.*" ∷ []

second : get_elem? (get_dl_patterns options) 1 ≡ some (codes "Two.*")
unfolding get_dl_patterns pattern
second = refl
