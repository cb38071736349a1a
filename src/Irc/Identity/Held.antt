-- ===== src/Irc/Identity/Held.antt =====
-- src/irc_processor.rs: how much is held for a sender, and how much a handler says.
use irc2torrent.Prelude.{
  ℕ, ◌≤◌, ltb, ltb→lt, length, length-append, ◌≡◌, refl, subst, inl, inr, false, List, [], ◌∷◌,
  Text, Option, none, some, to_lower, eq_ignore_case, text_eq, lookup, put, remove, lookup-put,
  lookup-remove, Bool-cases, Option-cases, arith,
}
use irc2torrent.Auth.{
  SecurityMode, irc_user_name, password, CommandGate, proceed, refuse, ignore, gate_irc_command,
}
use irc2torrent.Auth.Gate.{gate_irc_command-stranger}
use irc2torrent.Irc.Whois.{is_cooling, note_failure, take_check}
use irc2torrent.Irc.Identity.Pending.{
  PendingAuth, Checks, Setup, Effect, Reason, timed_out, unidentified, other_account,
  note_whois_failure, refuse_commands, refuse_pending, set_pending, expired, expire_found,
  expire_each, set_cooldown, expire_pending_auth, drop_pending_auth,
}
use irc2torrent.Irc.Identity.{
  with_account, note_found, note_account, run_each, resolve_account, resolve_mode, resolve_found,
  resolve_pending_auth, gated, pending_or_new, hold_command, held, set_budget, check_identity,
  gated_command, accept_command, gate_command, command_msg_process, Event, command, account_is,
  end_of_whois, sweep, disconnected, handle,
}

abbrev pub commands_of : Option PendingAuth → List (Text × Text)
commands_of none = []
commands_of (some a) = a.commands

-- No sender has more than five commands waiting.
abbrev pub IsHeld : Checks → Type 0
IsHeld p = (k : Text) → length (commands_of (lookup k p.pending_auth)) ≤ 5

refuse_commands-few :
    (s : Setup) (nick : Text) (cs : List (Text × Text)) (dropped : ℕ) (reason : Reason) (now : ℕ)
    (p : Checks)
    → (length (refuse_commands s nick cs dropped reason now p).0 ≤ 2)
      × ((refuse_commands s nick cs dropped reason now p).1.pending_auth ≡ p.pending_auth)
unfolding refuse_commands note_whois_failure
refuse_commands-few s nick [] dropped reason now p = (omega arith, refl)
refuse_commands-few s nick ((target, message) ∷ rest) dropped reason now p =
    elim (Bool-cases (note_failure nick now p.whois_cooldown).0) [
      | inl e ↦ rw e (omega arith, refl)
      | inr e ↦ rw e (omega arith, refl)
    ]

remove-IsHeld :
    (k : Text) (p : Checks) → IsHeld p → IsHeld (set_pending (remove k p.pending_auth) p)
unfolding set_pending
remove-IsHeld k p h j =
    (rw (lookup-remove k j p.pending_auth)
      (elim (Bool-cases (text_eq k j)) [ inl e ↦ rw e (omega arith) | inr e ↦ rw e (h j) ]))

put-IsHeld :
    (k : Text) (a : PendingAuth) (p : Checks)
    → IsHeld p
    → length a.commands ≤ 5
    → IsHeld (set_pending (put k a p.pending_auth) p)
unfolding set_pending
put-IsHeld k a p h ha j =
    (rw (lookup-put k j a p.pending_auth)
      (elim (Bool-cases (text_eq k j)) [ inl e ↦ rw e ha | inr e ↦ rw e (h j) ]))

-- What a handler leaves behind: at most n effects, and no sender with more than five commands.
abbrev IsModest : ℕ → List Effect × Checks → Type 0
IsModest n (effects, p) = (length effects ≤ n) × IsHeld p

hold_command-few :
    (target message : Text) (a : PendingAuth)
    → length a.commands ≤ 5
    → length (hold_command target message a).commands ≤ 5
unfolding hold_command
hold_command-few target message a h = elim (Bool-cases (ltb (length a.commands) 5)) [
  | inl e ↦ rw e (
      omega
        (arith, ltb→lt (length a.commands) 5 e, length-append a.commands ((target, message) ∷ [])))
  | inr e ↦ rw e h
]

refuse_pending-IsModest :
    (s : Setup) (nick : Text) (a : PendingAuth) (reason : Reason) (now : ℕ) (p : Checks)
    → IsHeld p
    → IsModest 5 (refuse_pending s nick a reason now p)
unfolding refuse_pending
refuse_pending-IsModest s nick a reason now p h =
    let (few, same) = refuse_commands-few s nick a.commands a.dropped reason now p in
    (omega (arith, few), λ k. rw same (h k))

run_each-length :
    (s : Setup) (nick : Text) (cs : List (Text × Text)) → length (run_each s nick cs) ≡ length cs
run_each-length s nick [] = refl
run_each-length s nick (c ∷ cs) = omega (arith, run_each-length s nick cs)

resolve_account-IsModest :
    (s : Setup) (nick owner : Text) (a : PendingAuth) (o : Option Text) (now : ℕ) (p : Checks)
    → IsHeld p
    → length a.commands ≤ 5
    → IsModest 5 (resolve_account s nick owner a o now p)
unfolding resolve_account set_cooldown
resolve_account-IsModest s nick owner a none now p h few =
    refuse_pending-IsModest s nick a unidentified now p h
resolve_account-IsModest s nick owner a (some account) now p h few =
    elim (Bool-cases (eq_ignore_case account owner)) [
      | inl e ↦ rw e (omega (arith, few, run_each-length s nick a.commands), h)
      | inr e ↦ rw e (refuse_pending-IsModest s nick a (other_account account owner) now p h)
    ]

resolve_mode-IsModest :
    (s : Setup) (nick : Text) (m : SecurityMode) (a : PendingAuth) (now : ℕ) (p : Checks)
    → IsHeld p
    → length a.commands ≤ 5
    → IsModest 5 (resolve_mode s nick m a now p)
unfolding resolve_mode
resolve_mode-IsModest s nick (irc_user_name owner) a now p h few =
    resolve_account-IsModest s nick owner a a.account now p h few
resolve_mode-IsModest s nick (password secret) a now p h few = (omega arith, h)

-- Closing a WHOIS runs or says at most five things, and leaves no sender with more than five
-- commands waiting.
pub resolve_pending_auth-IsModest :
    (s : Setup) (nick : Text) (now : ℕ) (p : Checks)
    → IsHeld p
    → (length (resolve_pending_auth s nick now p).0 ≤ 5)
      × IsHeld (resolve_pending_auth s nick now p).1
unfolding resolve_pending_auth resolve_found
resolve_pending_auth-IsModest s nick now p h =
    elim (Option-cases (lookup (to_lower nick) p.pending_auth)) [
      | inl e ↦ rw e (omega arith, h)
      | inr (a, e) ↦
          let few : length a.commands ≤ 5 =
            subst (λ o. length (commands_of o) ≤ 5) e (h (to_lower nick)) in
          rw e (
            resolve_mode-IsModest s nick s.config.security_mode a now
              (set_pending (remove (to_lower nick) p.pending_auth) p)
              (remove-IsHeld (to_lower nick) p h) few)
    ]

check_identity-IsModest :
    (s : Setup) (target message sender : Text) (now : ℕ) (p : Checks)
    → IsHeld p
    → IsModest 1
        (check_identity s target message sender now (lookup (to_lower sender) p.pending_auth) p)
unfolding check_identity held set_budget
check_identity-IsModest s target message sender now p h =
    elim (Option-cases (lookup (to_lower sender) p.pending_auth)) [
      | inl e ↦ elim (Bool-cases (take_check now p.whois_budget).0) [
        | inl granted ↦
            rw (e, granted)
              (
                omega arith,
                put-IsHeld (to_lower sender) (hold_command target message (pending_or_new now none))
                    (set_budget (take_check now p.whois_budget).1 p) h
                    (hold_command-few target message (pending_or_new now none) (omega arith)),
              )
        | inr spent ↦ rw (e, spent) (omega arith, h)
      ]
      | inr (a, e) ↦ rw e (
        omega arith,
        put-IsHeld (to_lower sender) (hold_command target message a) p h (
            hold_command-few target message a
              (subst (λ o. length (commands_of o) ≤ 5) e (h (to_lower sender)))),
      )
    ]

gate_command-IsModest :
    (g : CommandGate) (s : Setup) (target message sender : Text) (now : ℕ) (p : Checks)
    → IsHeld p
    → IsModest 1 (gate_command g s target message sender now p)
unfolding gate_command accept_command gated_command
gate_command-IsModest proceed s target message sender now p h = elim (Bool-cases (gated s)) [
  | inl on ↦ elim (Bool-cases (is_cooling sender now p.whois_cooldown)) [
    | inl e ↦ rw (on, e) (omega arith, h)
    | inr e ↦ rw (on, e) (check_identity-IsModest s target message sender now p h)
  ]
  | inr off ↦ rw off (omega arith, h)
]
gate_command-IsModest refuse s target message sender now p h = (omega arith, h)
gate_command-IsModest ignore s target message sender now p h = (omega arith, h)

-- A message that is shaped like a command runs, asks or says at most one thing, and leaves no sender
-- with more than five commands waiting.
pub command_msg_process-IsModest :
    (s : Setup) (target message sender : Text) (now : ℕ) (p : Checks)
    → IsHeld p
    → (length (command_msg_process s target message sender now p).0 ≤ 1)
      × IsHeld (command_msg_process s target message sender now p).1
unfolding command_msg_process
command_msg_process-IsModest s target message sender now p h =
    gate_command-IsModest (gate_irc_command s.config sender (eq_ignore_case target s.our_nick)) s
      target message sender now p h

-- When the owner is an IRC nick, a command-shaped message of any other nick, wherever it is sent,
-- changes nothing: nothing is held, counted or asked for it, and it is not answered.
pub command_msg_process-stranger :
    (s : Setup) (owner target message sender : Text) (now : ℕ) (p : Checks)
    → s.config.security_mode ≡ irc_user_name owner
    → eq_ignore_case sender owner ≡ false
    → command_msg_process s target message sender now p ≡ ([], p)
unfolding command_msg_process gate_command
command_msg_process-stranger s owner target message sender now p mode other =
    let turned_away =
      gate_irc_command-stranger s.config owner sender (eq_ignore_case target s.our_nick) mode
        other in
    rw turned_away refl

expire_each-IsHeld :
    (s : Setup) (nicks : List Text) (now : ℕ) (p : Checks)
    → IsHeld p
    → IsHeld (expire_each s nicks now p).1
unfolding expire_found
expire_each-IsHeld s [] now p h = h
expire_each-IsHeld s (nick ∷ nicks) now p h = elim (Option-cases (lookup nick p.pending_auth)) [
  | inl e ↦ rw e (expire_each-IsHeld s nicks now p h)
  | inr (a, e) ↦
      let gone = set_pending (remove nick p.pending_auth) p in
      let (few, left) =
        refuse_pending-IsModest s nick a timed_out now gone (remove-IsHeld nick p h) in
      rw e (expire_each-IsHeld s nicks now (refuse_pending s nick a timed_out now gone).1 left)
]

note_account-IsHeld :
    (nick account : Text) (p : Checks) → IsHeld p → IsHeld (note_account nick account p)
unfolding note_account note_found
note_account-IsHeld nick account p h = elim (Option-cases (lookup (to_lower nick) p.pending_auth)) [
  | inl e ↦ rw e h
  | inr (a, e) ↦ rw e (
      put-IsHeld (to_lower nick) (with_account account a) p h
        (subst (λ o. length (commands_of o) ≤ 5) e (h (to_lower nick))))
]

-- Whatever arrives, no sender has more than five commands waiting.
pub handle-IsHeld :
    (s : Setup) (now : ℕ) (e : Event) (p : Checks) → IsHeld p → IsHeld (handle s now e p).1
unfolding expire_pending_auth drop_pending_auth set_pending set_cooldown lookup
handle-IsHeld s now (command target message sender) p h =
    (command_msg_process-IsModest s target message sender now p h).1
handle-IsHeld s now (account_is nick account) p h = note_account-IsHeld nick account p h
handle-IsHeld s now (end_of_whois nick) p h = (resolve_pending_auth-IsModest s nick now p h).1
handle-IsHeld s now sweep p h = expire_each-IsHeld s (expired now p.pending_auth) now p h
handle-IsHeld s now disconnected p h = λ k. omega arith
