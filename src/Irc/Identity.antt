-- ===== src/Irc/Identity.antt =====
-- src/irc_processor.rs: commands held while their sender's identity is checked with the network. An
-- `Instant` is a number of seconds, and what a handler sends or runs is a list of effects.
pub mod Held
pub mod Identified
pub mod Lookups
pub mod Pending
use irc2torrent.Prelude.{
  ℕ, ◌+◌, ◌-◌, ◌/◌, ◌≤◌, min, Bool, true, false, not, ◌&&◌, List, [], ◌∷◌, ◌++◌, map, Text, codes,
  Option, none, some, if◌then◌else◌, ltb, leb, length, to_lower, eq_ignore_case, text_eq, lookup,
  put, remove, decimal,
}
use irc2torrent.Auth.{
  SecurityMode, irc_user_name, password, Config, CommandRequest, Principal, CommandGate, proceed,
  refuse, ignore, gate_irc_command,
}
use irc2torrent.Irc.Whois.{
  WhoisCooldowns, WhoisBudget, is_cooling, note_failure, note_success, prune, take_check,
  whois_failure_limit, whois_cooldown,
}
use irc2torrent.Irc.Outbound.{sanitize_for_irc, word}
use irc2torrent.Irc.Identity.Pending.{
  whois_timeout, pending_command_limit, PendingAuth, Checks, Setup, Effect, send_privmsg, reply_to,
  run_command, Reason, reason_text, cooldown_notice, with_dropped, note_whois_failure,
  notice_effects, refuse_commands, refuse_pending, set_pending, expired, expire_found, expire_each,
  set_cooldown, expire_pending_auth, drop_pending_auth, privmsg, whois, run, timed_out,
  unidentified, other_account,
}

abbrev pub with_account : Text → PendingAuth → PendingAuth
with_account account a = record {
  commands = a.commands;
  dropped = a.dropped;
  account = some account;
  deadline = a.deadline;
}

pub note_found : Text → Text → Option PendingAuth → Checks → Checks
unfolding set_pending
note_found nick account none p = p
note_found nick account (some a) p =
    set_pending (put (to_lower nick) (with_account account a) p.pending_auth) p

-- The arm of `msg_process` for the numeric 330
unfoldable pub note_account : Text → Text → Checks → Checks
unfolding note_found
note_account nick account p = note_found nick account (lookup (to_lower nick) p.pending_auth) p

abbrev pub run_each : Setup → Text → List (Text × Text) → List Effect
run_each s nick [] = []
run_each s nick ((target, message) ∷ rest) =
    run_command s target message nick ∷ run_each s nick rest

pub resolve_account :
    Setup → Text → Text → PendingAuth → Option Text → ℕ → Checks → List Effect × Checks
unfolding refuse_pending set_cooldown
resolve_account s nick expected a (some account) now p =
    if eq_ignore_case account expected
    then (run_each s nick a.commands, set_cooldown (note_success nick p.whois_cooldown) p)
    else refuse_pending s nick a (other_account account expected) now p
resolve_account s nick expected a none now p = refuse_pending s nick a unidentified now p

-- In password mode the batch is dropped.
pub resolve_mode : Setup → Text → SecurityMode → PendingAuth → ℕ → Checks → List Effect × Checks
unfolding resolve_account
resolve_mode s nick (irc_user_name expected) a now p =
    resolve_account s nick expected a a.account now p
resolve_mode s nick (password secret) a now p = ([], p)

pub resolve_found : Setup → Text → Option PendingAuth → ℕ → Checks → List Effect × Checks
unfolding resolve_mode set_pending
resolve_found s nick none now p = ([], p)
resolve_found s nick (some a) now p =
    resolve_mode s nick s.config.security_mode a now
      (set_pending (remove (to_lower nick) p.pending_auth) p)

-- RPL_ENDOFWHOIS
unfoldable pub resolve_pending_auth : Setup → Text → ℕ → Checks → List Effect × Checks
unfolding resolve_found
resolve_pending_auth s nick now p =
    resolve_found s nick (lookup (to_lower nick) p.pending_auth) now p

abbrev pub names_owner : SecurityMode → Bool
names_owner (irc_user_name owner) = true
names_owner (password secret) = false

unfoldable pub gated : Setup → Bool
gated s = s.config.require_identified && names_owner s.config.security_mode

-- `or_insert_with`
abbrev pub pending_or_new : ℕ → Option PendingAuth → PendingAuth
pending_or_new now none = record {
  commands = [];
  dropped = 0;
  account = none;
  deadline = now + whois_timeout;
}
pending_or_new now (some a) = a

unfoldable pub hold_command : Text → Text → PendingAuth → PendingAuth
hold_command target message a =
    if ltb (length a.commands) pending_command_limit
    then record {
      commands = a.commands ++ ((target, message) ∷ []);
      dropped = a.dropped;
      account = a.account;
      deadline = a.deadline;
    }
    else record {
      commands = a.commands;
      dropped = min (word - 1) (a.dropped + 1);
      account = a.account;
      deadline = a.deadline;
    }

unfoldable pub held : Text → Text → Text → ℕ → Option PendingAuth → Checks → Checks
unfolding hold_command set_pending
held target message sender now in_flight p =
    set_pending
      (put (to_lower sender) (hold_command target message (pending_or_new now in_flight))
        p.pending_auth)
      p

unfoldable pub set_budget : WhoisBudget → Checks → Checks
set_budget b p = record {
  pending_auth = p.pending_auth;
  whois_cooldown = p.whois_cooldown;
  whois_budget = b;
}

-- A command that joins the check in flight, and one that starts a check.
unfoldable pub check_identity :
    Setup → Text → Text → Text → ℕ → Option PendingAuth → Checks → List Effect × Checks
unfolding held set_budget
check_identity s target message sender now (some a) p =
    ([], held target message sender now (some a) p)
check_identity s target message sender now none p =
    let taken = take_check now p.whois_budget in
    if taken.0
    then (whois sender ∷ [], held target message sender now none (set_budget taken.1 p))
    else (
      send_privmsg (reply_to s target sender)
            (codes "Too many identity checks just now; try again shortly.")
          ∷ [],
      set_budget taken.1 p,
    )

unfoldable pub gated_command : Setup → Text → Text → Text → ℕ → Checks → List Effect × Checks
gated_command s target message sender now p =
    if is_cooling sender now p.whois_cooldown
    then ([], p)
    else check_identity s target message sender now (lookup (to_lower sender) p.pending_auth) p

unfoldable pub accept_command : Setup → Text → Text → Text → ℕ → Checks → List Effect × Checks
accept_command s target message sender now p =
    if gated s
    then gated_command s target message sender now p
    else (run_command s target message sender ∷ [], p)

pub gate_command : CommandGate → Setup → Text → Text → Text → ℕ → Checks → List Effect × Checks
unfolding accept_command
gate_command proceed s target message sender now p = accept_command s target message sender now p
gate_command refuse s target message sender now p = (
  send_privmsg (reply_to s target sender) (
        codes
          "Commands are disabled on this bot. Set command_options.commands_enabled = true to use them.")
      ∷ [],
  p,
)
gate_command ignore s target message sender now p = ([], p)

unfoldable pub command_msg_process : Setup → Text → Text → Text → ℕ → Checks → List Effect × Checks
unfolding gate_command
command_msg_process s target message sender now p =
    gate_command (gate_irc_command s.config sender (eq_ignore_case target s.our_nick)) s target
      message sender now p

-- What the read loop handles of the identity check.
pub data Event : Type 0 where
  command : Text → Text → Text → Event
  account_is : Text → Text → Event
  end_of_whois : Text → Event
  sweep disconnected : Event

abbrev pub handle : Setup → ℕ → Event → Checks → List Effect × Checks
handle s now (command target message sender) p = command_msg_process s target message sender now p
handle s now (account_is nick account) p = ([], note_account nick account p)
handle s now (end_of_whois nick) p = resolve_pending_auth s nick now p
handle s now sweep p = expire_pending_auth s now p
handle s now disconnected p = ([], drop_pending_auth p)
