-- ===== src/Irc/Identity/Pending.antt =====
-- src/irc_processor.rs: the commands that wait for an identity check, and their refusal, by timing out
-- or otherwise.
use irc2torrent.Prelude.{
  ℕ, ◌/◌, List, [], ◌∷◌, ◌++◌, Text, codes, Option, none, some, if◌then◌else◌, ltb, leb,
  eq_ignore_case, lookup, remove, decimal,
}
use irc2torrent.Auth.{Config, CommandRequest, Principal}
use irc2torrent.Irc.Whois.{
  WhoisCooldowns, WhoisBudget, note_failure, prune, whois_failure_limit, whois_cooldown,
}
use irc2torrent.Irc.Outbound.{sanitize_for_irc}

abbrev pub whois_timeout : ℕ
whois_timeout = 15

abbrev pub pending_command_limit : ℕ
pending_command_limit = 5

-- `commands` holds `(target, message)` in arrival order.
pub record PendingAuth : Type 0 where
  pub commands : List (Text × Text)
  pub dropped : ℕ
  pub account : Option Text
  pub deadline : ℕ

-- The part of `IrcProcessor` that the identity check changes.
pub record Checks : Type 0 where
  pub pending_auth : List (Text × PendingAuth)
  pub whois_cooldown : WhoisCooldowns
  pub whois_budget : WhoisBudget

-- The part that it reads.
pub record Setup : Type 0 where
  pub config : Config
  pub our_nick : Text

-- A PRIVMSG that is queued, a WHOIS that is sent, and a request that the command processor is given
-- with the address for its answer.
pub data Effect : Type 0 where
  privmsg : Text → Text → Effect
  whois : Text → Effect
  run : CommandRequest → Text → Effect

unfoldable pub send_privmsg : Text → Text → Effect
send_privmsg target message = privmsg target (sanitize_for_irc message)

unfoldable pub reply_to : Setup → Text → Text → Text
reply_to s target sender = if eq_ignore_case target s.our_nick then sender else target

unfoldable pub run_command : Setup → Text → Text → Text → Effect
run_command s target message sender =
    run
      (record {
        principal = Principal.irc sender;
        direct = eq_ignore_case target s.our_nick;
        text = message;
      })
      (reply_to s target sender)

-- Why a batch of commands is refused.
pub data Reason : Type 0 where
  timed_out unidentified : Reason
  other_account : Text → Text → Reason

unfoldable pub reason_text : Reason → Text
reason_text timed_out =
    codes
      "Could not verify your identity with the network in time; command refused. If your network has no services, set command_options.require_identified = false."
reason_text unidentified =
    codes "You are not identified to network services. Identify with NickServ and try again."
reason_text (other_account account expected) =
    codes "You are logged in as '"
    ++ account
    ++ codes "', but this bot only accepts '"
    ++ expected
    ++ codes "'. Set command_options.security_mode to your services account name."

unfoldable pub cooldown_notice : ℕ → Text
cooldown_notice failures =
    codes "That is "
    ++ decimal failures
    ++ codes " failed identity checks, so I will ignore commands from this nick for "
    ++ decimal (whois_cooldown / 60)
    ++ codes
        " minutes. If your network has no services, set command_options.require_identified = false."

unfoldable pub with_dropped : ℕ → Text → Text
with_dropped dropped reason =
    if ltb 0 dropped
    then reason ++ codes " (" ++ decimal dropped ++ codes " further command(s) went unread.)"
    else reason

unfoldable pub note_whois_failure : Text → ℕ → Checks → Option Text × Checks
note_whois_failure nick now p =
    let noted = note_failure nick now p.whois_cooldown in
    (
      if noted.0 then some (cooldown_notice whois_failure_limit) else none,
      record {
        pending_auth = p.pending_auth;
        whois_cooldown = noted.1;
        whois_budget = p.whois_budget;
      },
    )

abbrev pub notice_effects : Text → Option Text → List Effect
notice_effects to none = []
notice_effects to (some notice) = send_privmsg to notice ∷ []

-- At the commands of the batch
unfoldable pub refuse_commands :
    Setup → Text → List (Text × Text) → ℕ → Reason → ℕ → Checks → List Effect × Checks
unfolding note_whois_failure with_dropped reason_text
refuse_commands s nick [] dropped reason now p = ([], p)
refuse_commands s nick ((target, message) ∷ rest) dropped reason now p =
    let to = reply_to s target nick in
    let noted = note_whois_failure nick now p in
    (
      send_privmsg to (with_dropped dropped (reason_text reason)) ∷ notice_effects to noted.0,
      noted.1,
    )

unfoldable pub refuse_pending :
    Setup → Text → PendingAuth → Reason → ℕ → Checks → List Effect × Checks
refuse_pending s nick pending reason now p =
    refuse_commands s nick pending.commands pending.dropped reason now p

unfoldable pub set_pending : List (Text × PendingAuth) → Checks → Checks
set_pending m p = record {
  pending_auth = m;
  whois_cooldown = p.whois_cooldown;
  whois_budget = p.whois_budget;
}

-- The nicks whose deadline has passed, in the order of the map.
abbrev pub expired : ℕ → List (Text × PendingAuth) → List Text
expired now [] = []
expired now ((nick, a) ∷ m) =
    let rest = expired now m in if leb a.deadline now then nick ∷ rest else rest

unfoldable pub expire_found : Setup → Text → Option PendingAuth → ℕ → Checks → List Effect × Checks
expire_found s nick none now p = ([], p)
expire_found s nick (some a) now p =
    refuse_pending s nick a timed_out now (set_pending (remove nick p.pending_auth) p)

abbrev pub expire_each : Setup → List Text → ℕ → Checks → List Effect × Checks
expire_each s [] now p = ([], p)
expire_each s (nick ∷ nicks) now p =
    let first = expire_found s nick (lookup nick p.pending_auth) now p in
    let rest = expire_each s nicks now first.1 in (first.0 ++ rest.0, rest.1)

unfoldable pub set_cooldown : WhoisCooldowns → Checks → Checks
set_cooldown m p = record {
  pending_auth = p.pending_auth;
  whois_cooldown = m;
  whois_budget = p.whois_budget;
}

unfoldable pub expire_pending_auth : Setup → ℕ → Checks → List Effect × Checks
expire_pending_auth s now p =
    let swept = expire_each s (expired now p.pending_auth) now p in
    (swept.0, set_cooldown (prune now swept.1.whois_cooldown) swept.1)

unfoldable pub drop_pending_auth : Checks → Checks
drop_pending_auth p = set_pending [] p
