-- ===== src/Auth/Sources.antt =====
-- src/auth.rs: whose announcements are taken, and which requests are authorized.
use irc2torrent.Prelude.{
  ◌≡◌, ◌≢◌, ◌⊎◌, refl, ap, inl, inr, true, ◌&&◌, arith, Text, Option, none, some, if◌then◌else◌,
  text_eq_iff, eq_ignore_case, Bool-cases,
}
use irc2torrent.Auth.{
  SecurityMode, irc_user_name, password, Config, ℤ, pos, negsuc, int_eq, Authorization,
  source_validated, not_authorized, announcement, Principal, irc, telegram, slack, CommandRequest,
  MessageOrigin, is_private_message, is_owner, is_valid_channel, PasswordMatch, check_password,
  check_mode, check_irc_command, check_telegram, check_slack, check_principal, authorize_command,
  validate_source, accept_source, authenticate,
}

-- An announcement is taken from a configured channel, whoever posted it, and from the owner's
-- private message while commands are enabled; from nowhere else.
pub authenticate-announcement :
    (c : Config) (o : MessageOrigin)
    → authenticate c o announcement ≡ (
        if is_owner c o.sender && is_private_message o
        then (if c.commands_enabled then source_validated else not_authorized)
        else if is_valid_channel c o.target
        then source_validated
        else not_authorized)
unfolding authenticate validate_source accept_source
authenticate-announcement c o = elim (Bool-cases (is_owner c o.sender)) [
  | inl own ↦ elim (Bool-cases (is_private_message o)) [
    | inl private ↦ ground arith
    | inr public ↦ elim (Bool-cases (is_valid_channel c o.target)) [
      | inl e ↦ ground arith
      | inr e ↦ ground arith
    ]
  ]
  | inr e ↦ ground arith
]

-- The evidence that each kind of principal has to bring.
abbrev pub IsEntitled : Authorization → PasswordMatch → CommandRequest → Principal → Type 0
IsEntitled a matches r (irc nick) =
    ((owner : Text) × (a.config.security_mode ≡ irc_user_name owner)
      × (r.direct ≡ true)
      × (eq_ignore_case nick owner ≡ true))
    ⊎ ((secret : Text) × (a.config.security_mode ≡ password secret)
        × (matches r.text ≡ some secret))
IsEntitled a matches r (telegram user) = a.telegram_owner ≡ some user
IsEntitled a matches r (slack user) = a.slack_owner ≡ some user

int_eq-eq : (a b : ℤ) → int_eq a b ≡ true → a ≡ b
int_eq-eq (pos a) (pos b) h = ground arith
int_eq-eq (negsuc a) (negsuc b) h = ground arith
int_eq-eq (pos a) (negsuc b) h = cc
int_eq-eq (negsuc a) (pos b) h = cc

check_password-some :
    (secret : Text) (o : Option Text) → check_password secret o ≢ not_authorized → o ≡ some secret
unfolding check_password
check_password-some secret none h = absurd (h refl)
check_password-some secret (some supplied) h = ground (arith, text_eq_iff supplied secret)

check_telegram-some :
    (o : Option ℤ) (user : ℤ) → check_telegram o user ≢ not_authorized → o ≡ some user
unfolding check_telegram
check_telegram-some none user h = absurd (h refl)
check_telegram-some (some owner) user h = elim (Bool-cases (int_eq owner user)) [
  | inl e ↦ ap some (int_eq-eq owner user e)
  | inr e ↦ absurd (h (rw e))
]

check_slack-some :
    (o : Option Text) (user : Text) → check_slack o user ≢ not_authorized → o ≡ some user
unfolding check_slack
check_slack-some none user h = absurd (h refl)
check_slack-some (some owner) user h = ground (arith, text_eq_iff owner user)

check_mode-IsEntitled :
    (a : Authorization) (matches : PasswordMatch) (r : CommandRequest) (nick : Text)
    (m : SecurityMode)
    → a.config.security_mode ≡ m
    → check_mode m matches nick r.direct r.text ≢ not_authorized
    → IsEntitled a matches r (irc nick)
unfolding check_mode
check_mode-IsEntitled a matches r nick (irc_user_name owner) e h =
    inl (owner, e, ground arith, ground arith)
check_mode-IsEntitled a matches r nick (password secret) e h =
    inr (secret, e, check_password-some secret (matches r.text) h)

check_principal-IsEntitled :
    (a : Authorization) (matches : PasswordMatch) (r : CommandRequest) (p : Principal)
    → check_principal a matches p r.direct r.text ≢ not_authorized
    → IsEntitled a matches r p
unfolding check_principal check_irc_command
check_principal-IsEntitled a matches r (irc nick) h =
    check_mode-IsEntitled a matches r nick a.config.security_mode refl h
check_principal-IsEntitled a matches r (telegram user) h =
    check_telegram-some a.telegram_owner user h
check_principal-IsEntitled a matches r (slack user) h = check_slack-some a.slack_owner user h

-- Nothing is authorized while commands are disabled, and otherwise only the configured owner: by
-- nick and in private, by the password in the message, or by the identity that the platform issued.
pub authorize_command-IsEntitled :
    (a : Authorization) (matches : PasswordMatch) (r : CommandRequest)
    → authorize_command a matches r ≢ not_authorized
    → (a.config.commands_enabled ≡ true) × IsEntitled a matches r r.principal
unfolding authorize_command
authorize_command-IsEntitled a matches r h = elim (Bool-cases a.config.commands_enabled) [
  | inl on ↦ (on, check_principal-IsEntitled a matches r r.principal (λ e. h (rw on e)))
  | inr off ↦ absurd (h (rw off))
]
