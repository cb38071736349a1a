-- ===== src/Irc/Identity/Lookups.antt =====
-- src/irc_processor.rs: how often the network is asked who a sender is.
use irc2torrent.Prelude.{
  ℕ, ◌+◌, ◌≤◌, ◌<◌, ◌≡◌, refl, ap, ◌∙◌, inl, inr, ◌⊎◌, List, [], ◌∷◌, ◌++◌, Text, Option, none,
  some, if◌then◌else◌, to_lower, eq_ignore_case, lookup, remove, All, Bool-cases, Option-cases,
  arith,
}
use irc2torrent.Auth.{
  SecurityMode, irc_user_name, password, CommandGate, proceed, refuse, ignore, gate_irc_command,
}
use irc2torrent.Irc.Whois.{WhoisBudget, is_cooling, note_failure, take_check}
use irc2torrent.Irc.Whois.Minute.{IsWithin, grants, grants-minute}
use irc2torrent.Irc.Identity.Pending.{
  PendingAuth, Checks, Setup, Effect, privmsg, whois, run, send_privmsg, run_command, Reason,
  timed_out, unidentified, other_account, note_whois_failure, refuse_commands, refuse_pending,
  set_pending, expired, expire_found, expire_each, set_cooldown, expire_pending_auth,
  drop_pending_auth,
}
use irc2torrent.Irc.Identity.{
  note_found, note_account, run_each, resolve_account, resolve_mode, resolve_found,
  resolve_pending_auth, gated, held, set_budget, check_identity, gated_command, accept_command,
  gate_command, command_msg_process, Event, command, account_is, end_of_whois, sweep, disconnected,
  handle,
}

abbrev pub asks : List Effect → ℕ
asks [] = 0
asks (whois nick ∷ es) = 1 + asks es
asks (privmsg to t ∷ es) = asks es
asks (run r to ∷ es) = asks es

asks-append : (es fs : List Effect) → asks (es ++ fs) ≡ asks es + asks fs
asks-append [] fs = omega arith
asks-append (whois nick ∷ es) fs = omega (arith, asks-append es fs)
asks-append (privmsg to t ∷ es) fs = asks-append es fs
asks-append (run r to ∷ es) fs = asks-append es fs

-- Nothing is asked and nothing is charged.
abbrev IsFree : WhoisBudget → List Effect × Checks → Type 0
IsFree b (effects, p) = (asks effects ≡ 0) × (p.whois_budget ≡ b)

-- One check is taken from the budget, and asked for if it was granted.
abbrev IsCharged : ℕ → WhoisBudget → List Effect × Checks → Type 0
IsCharged now b (effects, p) =
    (asks effects ≡ (if (take_check now b).0 then 1 else 0))
    × (p.whois_budget ≡ (take_check now b).1)

refuse_commands-IsFree :
    (s : Setup) (nick : Text) (cs : List (Text × Text)) (dropped : ℕ) (reason : Reason) (now : ℕ)
    (p : Checks)
    → IsFree p.whois_budget (refuse_commands s nick cs dropped reason now p)
unfolding refuse_commands note_whois_failure send_privmsg
refuse_commands-IsFree s nick [] dropped reason now p = (refl, refl)
refuse_commands-IsFree s nick ((target, message) ∷ rest) dropped reason now p =
    elim (Bool-cases (note_failure nick now p.whois_cooldown).0) [
      | inl e ↦ rw e (refl, refl)
      | inr e ↦ rw e (refl, refl)
    ]

run_each-asks : (s : Setup) (nick : Text) (cs : List (Text × Text)) → asks (run_each s nick cs) ≡ 0
unfolding run_command
run_each-asks s nick [] = refl
run_each-asks s nick (c ∷ cs) = run_each-asks s nick cs

resolve_account-IsFree :
    (s : Setup) (nick owner : Text) (a : PendingAuth) (o : Option Text) (now : ℕ) (p : Checks)
    → IsFree p.whois_budget (resolve_account s nick owner a o now p)
unfolding resolve_account set_cooldown refuse_pending
resolve_account-IsFree s nick owner a none now p =
    refuse_commands-IsFree s nick a.commands a.dropped unidentified now p
resolve_account-IsFree s nick owner a (some account) now p =
    elim (Bool-cases (eq_ignore_case account owner)) [
      | inl e ↦ rw e (run_each-asks s nick a.commands, refl)
      | inr e ↦
          rw e
            (refuse_commands-IsFree s nick a.commands a.dropped (other_account account owner) now p)
    ]

resolve_found-IsFree :
    (s : Setup) (nick : Text) (m : SecurityMode) (a : PendingAuth) (now : ℕ) (p : Checks)
    → IsFree p.whois_budget (resolve_mode s nick m a now p)
unfolding resolve_mode
resolve_found-IsFree s nick (irc_user_name owner) a now p =
    resolve_account-IsFree s nick owner a a.account now p
resolve_found-IsFree s nick (password secret) a now p = (refl, refl)

resolve-IsFree :
    (s : Setup) (nick : Text) (o : Option PendingAuth) (now : ℕ) (p : Checks)
    → IsFree p.whois_budget (resolve_found s nick o now p)
unfolding resolve_found set_pending
resolve-IsFree s nick none now p = (refl, refl)
resolve-IsFree s nick (some a) now p =
    resolve_found-IsFree s nick s.config.security_mode a now
      (set_pending (remove (to_lower nick) p.pending_auth) p)

expire_each-IsFree :
    (s : Setup) (nicks : List Text) (now : ℕ) (p : Checks)
    → IsFree p.whois_budget (expire_each s nicks now p)
unfolding expire_found refuse_pending set_pending
expire_each-IsFree s [] now p = (refl, refl)
expire_each-IsFree s (nick ∷ nicks) now p = elim (Option-cases (lookup nick p.pending_auth)) [
  | inl e ↦ rw e (expire_each-IsFree s nicks now p)
  | inr (a, e) ↦
      let gone = set_pending (remove nick p.pending_auth) p in
      let first = refuse_commands s nick a.commands a.dropped timed_out now gone in
      let (silent, same) = refuse_commands-IsFree s nick a.commands a.dropped timed_out now gone in
      let (rest, last) = expire_each-IsFree s nicks now first.1 in
      rw e (
        asks-append first.0 (expire_each s nicks now first.1).0 ∙ omega (arith, silent, rest),
        last ∙ same,
      )
]

check_identity-IsCharged :
    (s : Setup) (target message sender : Text) (now : ℕ) (o : Option PendingAuth) (p : Checks)
    → IsFree p.whois_budget (check_identity s target message sender now o p)
      ⊎ IsCharged now p.whois_budget (check_identity s target message sender now o p)
unfolding check_identity held set_budget set_pending send_privmsg
check_identity-IsCharged s target message sender now (some a) p = inl (refl, refl)
check_identity-IsCharged s target message sender now none p =
    elim (Bool-cases (take_check now p.whois_budget).0) [
      | inl e ↦ inr (rw e (refl, refl))
      | inr e ↦ inr (rw e (refl, refl))
    ]

gate_command-IsCharged :
    (g : CommandGate) (s : Setup) (target message sender : Text) (now : ℕ) (p : Checks)
    → IsFree p.whois_budget (gate_command g s target message sender now p)
      ⊎ IsCharged now p.whois_budget (gate_command g s target message sender now p)
unfolding gate_command accept_command gated_command send_privmsg run_command
gate_command-IsCharged proceed s target message sender now p = elim (Bool-cases (gated s)) [
  | inl on ↦ elim (Bool-cases (is_cooling sender now p.whois_cooldown)) [
    | inl e ↦ inl (rw (on, e) (refl, refl))
    | inr e ↦
        rw (on, e)
          (check_identity-IsCharged s target message sender now
            (lookup (to_lower sender) p.pending_auth) p)
  ]
  | inr off ↦ inl (rw off (refl, refl))
]
gate_command-IsCharged refuse s target message sender now p = inl (refl, refl)
gate_command-IsCharged ignore s target message sender now p = inl (refl, refl)

note_found-budget :
    (nick account : Text) (o : Option PendingAuth) (p : Checks)
    → (note_found nick account o p).whois_budget ≡ p.whois_budget
unfolding note_found set_pending
note_found-budget nick account none p = refl
note_found-budget nick account (some a) p = refl

handle-IsCharged :
    (s : Setup) (now : ℕ) (e : Event) (p : Checks)
    → IsFree p.whois_budget (handle s now e p) ⊎ IsCharged now p.whois_budget (handle s now e p)
unfolding command_msg_process note_account resolve_pending_auth expire_pending_auth
    drop_pending_auth set_pending set_cooldown
handle-IsCharged s now (command target message sender) p =
    gate_command-IsCharged (gate_irc_command s.config sender (eq_ignore_case target s.our_nick)) s
      target message sender now p
handle-IsCharged s now (account_is nick account) p =
    inl (refl, note_found-budget nick account (lookup (to_lower nick) p.pending_auth) p)
handle-IsCharged s now (end_of_whois nick) p =
    inl (resolve-IsFree s nick (lookup (to_lower nick) p.pending_auth) now p)
handle-IsCharged s now sweep p = inl (expire_each-IsFree s (expired now p.pending_auth) now p)
handle-IsCharged s now disconnected p = inl (refl, refl)

-- The number of WHOIS requests that a run of events sends.
abbrev pub asked : Setup → List (ℕ × Event) → Checks → ℕ
asked s [] p = 0
asked s ((now, e) ∷ es) p = let (effects, next) = handle s now e p in asks effects + asked s es next

asked-grants :
    (s : Setup) (a : ℕ) (es : List (ℕ × Event)) (p : Checks)
    → All (λ (t, e). (a ≤ t) × (t < a + 60)) es
    → (ts : List ℕ) × All (λ t. (a ≤ t) × (t < a + 60)) ts
      × (asked s es p ≡ (grants ts p.whois_budget).0)
asked-grants s a [] p h = ([], tt, refl)
asked-grants s a ((now, e) ∷ es) p h =
    let (effects, next) = handle s now e p in
    let (ts, range, total) = asked-grants s a es next h.1 in
    elim (handle-IsCharged s now e p) [
      | inl (free, same) ↦ (ts, range, omega (arith, free, total, ap (λ b. (grants ts b).0) same))
      | inr (paid, charged) ↦
          (now ∷ ts, (h.0, range), omega (arith, paid, total, ap (λ b. (grants ts b).0) charged))
    ]

-- Of the messages, numerics, sweeps and disconnections that arrive at instants of one minute, at
-- most twenty make the bot ask the network who somebody is, whoever sends them.
pub handle-asked :
    (s : Setup) (a : ℕ) (es : List (ℕ × Event)) (p : Checks)
    → IsWithin p.whois_budget
    → All (λ (t, e). (a ≤ t) × (t < a + 60)) es
    → asked s es p ≤ 20
handle-asked s a es p within h =
    let (ts, range, total) = asked-grants s a es p h in
    omega (arith, total, grants-minute a ts p.whois_budget within range)
