-- ===== src/Auth.antt =====
-- src/auth.rs: who may command the bot, and whose announcements it takes. The password pattern is
-- matched by the regex crate: its capture is an argument.
mod Tests
pub mod Gate
pub mod Sources
use irc2torrent.Prelude.{
  ℕ, Bool, true, false, not, ◌&&◌, ◌||◌, List, [], ◌∷◌, Text, Option, none, some, any, ◌==◌,
  if◌then◌else◌, text_eq, eq_ignore_case, codes,
}

pub data SecurityMode : Type 0 where
  irc_user_name : Text → SecurityMode
  password : Text → SecurityMode

-- The configuration that authorization reads.
pub record Config : Type 0 where
  pub commands_enabled : Bool
  pub security_mode : SecurityMode
  pub require_identified : Bool
  pub channels : List Text

-- An `i64`.
pub data ℤ : Type 0 where
  pos : ℕ → ℤ
  negsuc : ℕ → ℤ

abbrev pub int_eq : ℤ → ℤ → Bool
int_eq (pos a) (pos b) = a == b
int_eq (negsuc a) (negsuc b) = a == b
int_eq _ _ = false

pub record Authorization : Type 0 where
  pub config : Config
  pub telegram_owner : Option ℤ
  pub slack_owner : Option Text

pub data SourceValidityResult : Type 0 where
  owner_private_message owner_announce_channel owner_public_channel : SourceValidityResult
  announce_channel invalid_source : SourceValidityResult

pub data AuthResult : Type 0 where
  password_validated source_validated not_authorized : AuthResult

-- `Refuse` has one message, that commands are disabled.
pub data CommandGate : Type 0 where
  proceed refuse ignore : CommandGate

pub data MessageTypes : Type 0 where
  command announcement other : MessageTypes

pub record MessageOrigin : Type 0 where
  pub sender : Text
  pub target : Text
  pub our_nick : Text

pub data Principal : Type 0 where
  irc : Text → Principal
  telegram : ℤ → Principal
  slack : Text → Principal

pub record CommandRequest : Type 0 where
  pub principal : Principal
  pub direct : Bool
  pub text : Text

unfoldable pub is_private_message : MessageOrigin → Bool
is_private_message o = eq_ignore_case o.target o.our_nick

pub owner_is : SecurityMode → Text → Bool
owner_is (irc_user_name valid_user) nick = eq_ignore_case nick valid_user
owner_is (password p) nick = false

unfoldable pub is_owner : Config → Text → Bool
unfolding owner_is
is_owner c nick = owner_is c.security_mode nick

unfoldable pub is_valid_channel : Config → Text → Bool
is_valid_channel c channel = any (λ k. eq_ignore_case k channel) c.channels

-- `Regex::captures` of the password pattern.
abbrev pub PasswordMatch : Type 0
PasswordMatch = Text → Option Text

pub check_password : Text → Option Text → AuthResult
check_password expected none = not_authorized
check_password expected (some supplied) =
    if text_eq supplied expected then password_validated else not_authorized

unfoldable pub check_mode : SecurityMode → PasswordMatch → Text → Bool → Text → AuthResult
unfolding check_password
check_mode (irc_user_name owner) matches sender direct message =
    if direct && eq_ignore_case sender owner then source_validated else not_authorized
check_mode (password expected) matches sender direct message =
    check_password expected (matches message)

unfoldable pub check_irc_command : Config → PasswordMatch → MessageOrigin → Bool → Text → AuthResult
unfolding check_mode
check_irc_command c matches origin direct message =
    check_mode c.security_mode matches origin.sender direct message

pub check_telegram : Option ℤ → ℤ → AuthResult
check_telegram none user = not_authorized
check_telegram (some owner) user = if int_eq owner user then source_validated else not_authorized

pub check_slack : Option Text → Text → AuthResult
check_slack none user = not_authorized
check_slack (some owner) user = if text_eq owner user then source_validated else not_authorized

unfoldable pub check_principal :
    Authorization → PasswordMatch → Principal → Bool → Text → AuthResult
unfolding check_irc_command check_telegram check_slack
check_principal a matches (irc nick) direct text =
    check_irc_command a.config matches
      (record {
        sender = nick;
        target = if direct then nick else codes "#channel";
        our_nick = nick;
      })
      direct text
check_principal a matches (telegram user) direct text = check_telegram a.telegram_owner user
check_principal a matches (slack user) direct text = check_slack a.slack_owner user

unfoldable pub authorize_command : Authorization → PasswordMatch → CommandRequest → AuthResult
unfolding check_principal
authorize_command a matches r =
    if not a.config.commands_enabled
    then not_authorized
    else check_principal a matches r.principal r.direct r.text

pub gate_mode : SecurityMode → Bool → Text → Bool → CommandGate
gate_mode (irc_user_name owner) enabled nick direct =
    if not direct || not (eq_ignore_case nick owner)
    then ignore
    else if not enabled
    then refuse
    else proceed
gate_mode (password p) enabled nick direct = if enabled then proceed else ignore

unfoldable pub gate_irc_command : Config → Text → Bool → CommandGate
unfolding gate_mode
gate_irc_command c nick direct = gate_mode c.security_mode c.commands_enabled nick direct

pub validate_source : Config → MessageOrigin → SourceValidityResult
unfolding is_owner is_valid_channel is_private_message
validate_source c o =
    let owner = is_owner c o.sender in
    let valid = is_valid_channel c o.target in
    if owner && is_private_message o
    then owner_private_message
    else if owner && valid
    then owner_announce_channel
    else if owner
    then owner_public_channel
    else if valid
    then announce_channel
    else invalid_source

pub accept_source : Bool → SourceValidityResult → AuthResult
accept_source enabled announce_channel = source_validated
accept_source enabled owner_announce_channel = source_validated
accept_source enabled owner_private_message = if enabled then source_validated else not_authorized
accept_source enabled owner_public_channel = not_authorized
accept_source enabled invalid_source = not_authorized

unfoldable pub authenticate : Config → MessageOrigin → MessageTypes → AuthResult
unfolding validate_source accept_source
authenticate c o command = not_authorized
authenticate c o announcement = accept_source c.commands_enabled (validate_source c o)
authenticate c o other = not_authorized
