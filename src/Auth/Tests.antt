-- ===== src/Auth/Tests.antt =====
-- src/auth.rs: the theorems at an owner known by nick.
use irc2torrent.Prelude.{◌≡◌, ◌≢◌, refl, codes, [], ◌∷◌, none, true, false}
use irc2torrent.Auth.{
  irc_user_name, Config, Authorization, Principal, CommandRequest, MessageOrigin, PasswordMatch,
  refuse, not_authorized, gate_irc_command, gate_mode, authorize_command, check_principal,
  check_irc_command, check_mode,
}
use irc2torrent.Auth.Sources.{IsEntitled, authorize_command-IsEntitled}

abbrev owned : Config
owned = record {
  commands_enabled = true;
  security_mode = irc_user_name (codes "owner");
  require_identified = true;
  channels = codes "#announce" ∷ [];
}

abbrev disabled : Config
disabled = record owned { commands_enabled = false }

abbrev authorization : Authorization
authorization = record { config = owned; telegram_owner = none; slack_owner = none }

abbrev no_password : PasswordMatch
no_password t = none

abbrev request : CommandRequest
request = record {
  principal = Principal.irc (codes "Owner");
  direct = true;
  text = codes "cmd: help";
}

abbrev origin : MessageOrigin
origin = record { sender = codes "bot"; target = codes "#announce"; our_nick = codes "irc2torrent" }

authorized : authorize_command authorization no_password request ≢ not_authorized
unfolding authorize_command check_principal check_irc_command check_mode
authorized h = cc

refused : gate_irc_command disabled (codes "owner") true ≡ refuse
unfolding gate_irc_command gate_mode
refused = refl

authorize_command-IsEntitled_example :
    (true ≡ true) × IsEntitled authorization no_password request (Principal.irc (codes "Owner"))
authorize_command-IsEntitled_example =
    authorize_command-IsEntitled authorization no_password request authorized
