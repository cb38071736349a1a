-- ===== src/Auth/Gate.antt =====
-- src/auth.rs: the gate that a command-shaped IRC message passes before anything is spent on it.
use irc2torrent.Prelude.{
  ◌≡◌, ◌≢◌, refl, inl, inr, Bool, true, false, arith, Text, eq_ignore_case, Bool-cases,
}
use irc2torrent.Auth.{
  SecurityMode, irc_user_name, password, Config, Authorization, not_authorized, proceed, refuse,
  ignore, irc, owner_is, is_owner, PasswordMatch, check_mode, authorize_command, gate_mode,
  gate_irc_command,
}

check_mode-gate :
    (m : SecurityMode) (matches : PasswordMatch) (nick : Text) (direct : Bool) (text : Text)
    → check_mode m matches nick direct text ≢ not_authorized
    → gate_mode m true nick direct ≡ proceed
unfolding check_mode gate_mode
check_mode-gate (irc_user_name owner) matches nick direct text h = ground arith
check_mode-gate (password p) matches nick direct text h = refl

-- The gate never declines a message that the authorization proper would accept.
pub gate_irc_command-proceed :
    (a : Authorization) (matches : PasswordMatch) (nick : Text) (direct : Bool) (text : Text)
    → authorize_command a matches (record { principal = irc nick; direct = direct; text = text })
      ≢ not_authorized
    → gate_irc_command a.config nick direct ≡ proceed
unfolding authorize_command gate_irc_command
gate_irc_command-proceed a matches nick direct text h =
    elim (Bool-cases a.config.commands_enabled) [
      | inl on ↦
          rw on (check_mode-gate a.config.security_mode matches nick direct text (λ e. h (rw on e)))
      | inr off ↦ absurd (h (rw off))
    ]

gate_mode-refuse :
    (m : SecurityMode) (enabled : Bool) (nick : Text) (direct : Bool)
    → gate_mode m enabled nick direct ≡ refuse
    → (direct ≡ true) × (owner_is m nick ≡ true) × (enabled ≡ false)
unfolding gate_mode owner_is
gate_mode-refuse (irc_user_name owner) enabled nick direct h = ground arith
gate_mode-refuse (password p) enabled nick direct h = ground arith

-- The gate explains itself to nobody but the owner's nick in private, while commands are disabled.
pub gate_irc_command-refuse :
    (c : Config) (nick : Text) (direct : Bool)
    → gate_irc_command c nick direct ≡ refuse
    → (direct ≡ true) × (is_owner c nick ≡ true) × (c.commands_enabled ≡ false)
unfolding gate_irc_command is_owner
gate_irc_command-refuse c nick direct =
    gate_mode-refuse c.security_mode c.commands_enabled nick direct

pub gate_irc_command-stranger :
    (c : Config) (owner sender : Text) (direct : Bool)
    → c.security_mode ≡ irc_user_name owner
    → eq_ignore_case sender owner ≡ false
    → gate_irc_command c sender direct ≡ ignore
unfolding gate_irc_command gate_mode
gate_irc_command-stranger c owner sender direct mode other = rw (mode, other) (ground arith)
