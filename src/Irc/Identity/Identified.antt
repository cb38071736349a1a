-- ===== src/Irc/Identity/Identified.antt =====
-- src/irc_processor.rs: which commands run when identification is required.
pub mod Batches
use irc2torrent.Prelude.{
  ℕ, ◌≡◌, refl, sym, ap, ◌∙◌, subst, inl, inr, Bool, true, false, ◌&&◌, ◌||◌, List, [], ◌∷◌, Text,
  Option, none, some, to_lower, eq_ignore_case, text_eq, text_eq_iff, text_eq_refl, lookup, put,
  remove, lookup-put, lookup-remove, All, All-append, Bool-cases, Option-cases, arith,
}
use irc2torrent.Auth.{
  irc_user_name, Principal, CommandGate, proceed, refuse, ignore, gate_irc_command,
}
use irc2torrent.Irc.Whois.{WhoisCooldowns, WhoisBudget, is_cooling, note_failure, take_check}
use irc2torrent.Irc.Identity.Pending.{
  PendingAuth, Checks, Setup, Effect, run, send_privmsg, run_command, Reason, timed_out,
  unidentified, other_account, note_whois_failure, refuse_commands, refuse_pending, set_pending,
  expired, expire_found, expire_each, set_cooldown, expire_pending_auth, drop_pending_auth,
}
use irc2torrent.Irc.Identity.{
  with_account, note_found, note_account, run_each, resolve_account, resolve_mode, resolve_found,
  resolve_pending_auth, gated, pending_or_new, hold_command, held, set_budget, check_identity,
  gated_command, accept_command, gate_command, command_msg_process, Event, command, account_is,
  end_of_whois, sweep, disconnected, handle,
}
use irc2torrent.Irc.Identity.Identified.Batches.{
  Log, named, vouched, account_of, IsVouched, extend, IsAllowed, put-IsVouched,
  note_account-IsVouched, IsSafe, resolve-IsSafe, expire_each-IsSafe,
}

hold_command-account :
    (target message : Text) (a : PendingAuth) → (hold_command target message a).account ≡ a.account
unfolding hold_command
hold_command-account target message a = ground arith

pending-account :
    (now : ℕ) (log : Log) (k : Text) (o : Option PendingAuth)
    → vouched log k (account_of o) ≡ true
    → vouched log k (pending_or_new now o).account ≡ true
pending-account now log k none h = refl
pending-account now log k (some a) h = h

check_identity-IsSafe :
    (s : Setup) (target message sender owner : Text) (log : Log) (now : ℕ) (p : Checks)
    → IsVouched log p
    → IsSafe owner log
        (check_identity s target message sender now (lookup (to_lower sender) p.pending_auth) p)
unfolding check_identity held set_budget send_privmsg
check_identity-IsSafe s target message sender owner log now p h =
    let held_by : (o : Option PendingAuth)
        → vouched log (to_lower sender) (account_of o) ≡ true
        → vouched log (to_lower sender) (hold_command target message (pending_or_new now o)).account
          ≡ true =
      λ o hv.
        ap (vouched log (to_lower sender))
          (hold_command-account target message (pending_or_new now o))
        ∙ pending-account now log (to_lower sender) o hv in
    elim (Option-cases (lookup (to_lower sender) p.pending_auth)) [
      | inl e ↦ elim (Bool-cases (take_check now p.whois_budget).0) [
        | inl granted ↦
            rw (e, granted)
              (
                (tt, tt),
                put-IsVouched log (to_lower sender)
                    (hold_command target message (pending_or_new now none))
                    (set_budget (take_check now p.whois_budget).1 p) h (held_by none refl),
              )
        | inr spent ↦ rw (e, spent) ((tt, tt), h)
      ]
      | inr (a, e) ↦ rw e (
        tt,
        put-IsVouched log (to_lower sender) (hold_command target message a) p h (
            held_by (some a) (
              ap (λ o. vouched log (to_lower sender) (account_of o)) (sym e)
              ∙ h (to_lower sender))),
      )
    ]

gate_command-IsSafe :
    (g : CommandGate) (s : Setup) (target message sender owner : Text) (log : Log) (now : ℕ)
    (p : Checks)
    → gated s ≡ true
    → IsVouched log p
    → IsSafe owner log (gate_command g s target message sender now p)
unfolding gate_command accept_command gated_command send_privmsg
gate_command-IsSafe proceed s target message sender owner log now p on h =
    elim (Bool-cases (is_cooling sender now p.whois_cooldown)) [
      | inl e ↦ rw (on, e) (tt, h)
      | inr e ↦ rw (on, e) (check_identity-IsSafe s target message sender owner log now p h)
    ]
gate_command-IsSafe refuse s target message sender owner log now p on h = ((tt, tt), h)
gate_command-IsSafe ignore s target message sender owner log now p on h = (tt, h)

gated-on :
    (s : Setup) (owner : Text)
    → s.config.security_mode ≡ irc_user_name owner
    → s.config.require_identified ≡ true
    → gated s ≡ true
unfolding gated
gated-on s owner mode on = rw (on, mode) refl

handle-IsSafe :
    (s : Setup) (owner : Text) (now : ℕ) (e : Event) (p : Checks) (log : Log)
    → s.config.security_mode ≡ irc_user_name owner
    → gated s ≡ true
    → IsVouched log p
    → IsSafe owner (extend e log) (handle s now e p)
unfolding command_msg_process expire_pending_auth drop_pending_auth set_pending set_cooldown lookup
handle-IsSafe s owner now (command target message sender) p log mode on h =
    gate_command-IsSafe (gate_irc_command s.config sender (eq_ignore_case target s.our_nick)) s
      target message sender owner log now p on h
handle-IsSafe s owner now (account_is nick account) p log mode on h =
    (tt, note_account-IsVouched log nick account p h)
handle-IsSafe s owner now (end_of_whois nick) p log mode on h =
    resolve-IsSafe s nick owner log now p mode h
handle-IsSafe s owner now sweep p log mode on h =
    expire_each-IsSafe s (expired now p.pending_auth) owner log now p h
handle-IsSafe s owner now disconnected p log mode on h = (tt, λ k. refl)

-- Everything that a run of events sends or runs is allowed by the accounts named up to then.
abbrev pub EachAllowed : Setup → Text → List (ℕ × Event) → Log → Checks → Type 0
EachAllowed s owner [] log p = Unit
EachAllowed s owner ((now, e) ∷ es) log p =
    All (IsAllowed owner (extend e log)) (handle s now e p).0
    × EachAllowed s owner es (extend e log) (handle s now e p).1

run-EachAllowed :
    (s : Setup) (owner : Text) (es : List (ℕ × Event)) (log : Log) (p : Checks)
    → s.config.security_mode ≡ irc_user_name owner
    → gated s ≡ true
    → IsVouched log p
    → EachAllowed s owner es log p
run-EachAllowed s owner [] log p mode on h = tt
run-EachAllowed s owner ((now, e) ∷ es) log p mode on h =
    let (allowed, kept) = handle-IsSafe s owner now e p log mode on h in
    (allowed, run-EachAllowed s owner es (extend e log) (handle s now e p).1 mode on kept)

-- When the owner is an IRC nick and identification is required, then whatever messages, numerics,
-- sweeps and disconnections arrive, a command runs only for a nick for which the network has, by
-- then, named an account that is the owner's up to case.
pub handle-EachAllowed :
    (s : Setup) (owner : Text) (es : List (ℕ × Event)) (cooldown : WhoisCooldowns)
    (budget : WhoisBudget)
    → s.config.security_mode ≡ irc_user_name owner
    → s.config.require_identified ≡ true
    → EachAllowed s owner es []
        (record { pending_auth = []; whois_cooldown = cooldown; whois_budget = budget })
unfolding lookup
handle-EachAllowed s owner es cooldown budget mode on =
    run-EachAllowed s owner es []
      (record { pending_auth = []; whois_cooldown = cooldown; whois_budget = budget }) mode
      (gated-on s owner mode on) (λ k. refl)
