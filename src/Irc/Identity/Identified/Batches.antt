-- ===== src/Irc/Identity/Identified/Batches.antt =====
-- src/irc_processor.rs: what refusing, resolving and expiring a batch of held commands may run.
use irc2torrent.Prelude.{
  ℕ, ◌≡◌, refl, sym, ap, ◌∙◌, subst, inl, inr, Bool, true, false, ◌&&◌, ◌||◌, List, [], ◌∷◌, Text,
  Option, none, some, to_lower, eq_ignore_case, text_eq, text_eq_iff, text_eq_refl, lookup, put,
  remove, lookup-put, lookup-remove, All, All-append, Bool-cases, Option-cases, arith,
}
use irc2torrent.Auth.{irc_user_name, Principal}
use irc2torrent.Irc.Whois.{note_failure}
use irc2torrent.Irc.Identity.Pending.{
  PendingAuth, Checks, Setup, Effect, run, send_privmsg, run_command, Reason, timed_out,
  unidentified, other_account, note_whois_failure, refuse_commands, refuse_pending, set_pending,
  expire_found, expire_each, set_cooldown,
}
use irc2torrent.Irc.Identity.{
  with_account, note_found, note_account, run_each, resolve_account, resolve_mode, resolve_found,
  resolve_pending_auth, Event, account_is,
}

-- The accounts that the network has named, each with the nick it was named for.
abbrev pub Log : Type 0
Log = List (Text × Text)

abbrev pub named : Text → Text → Log → Bool
named nick account [] = false
named nick account ((n, a) ∷ log) = (text_eq n nick && text_eq a account) || named nick account log

abbrev pub vouched : Log → Text → Option Text → Bool
vouched log nick none = true
vouched log nick (some account) = named nick account log

abbrev pub account_of : Option PendingAuth → Option Text
account_of none = none
account_of (some a) = a.account

-- Each account that a batch carries was named for its nick.
abbrev pub IsVouched : Log → Checks → Type 0
IsVouched log p = (k : Text) → vouched log k (account_of (lookup k p.pending_auth)) ≡ true

abbrev pub extend : Event → Log → Log
extend (account_is nick account) log = (to_lower nick, account) ∷ log
extend _ log = log

-- What runs is asked for by a nick for which the network has named the owner's account.
abbrev pub IsAllowed : Text → Log → Effect → Type 0
IsAllowed owner log (run request to) =
    (nick : Text) × (account : Text) × (request.principal ≡ Principal.irc nick)
    × (named (to_lower nick) account log ≡ true)
    × (eq_ignore_case account owner ≡ true)
IsAllowed owner log _ = Unit

named-cons :
    (k account : Text) (n : Text × Text) (log : Log) (o : Option Text)
    → vouched log k o ≡ true
    → vouched (n ∷ log) k o ≡ true
named-cons k account n log none h = refl
named-cons k account n log (some a) h = ground (arith, h)

refuse_commands-IsAllowed :
    (s : Setup) (nick owner : Text) (log : Log) (cs : List (Text × Text)) (dropped : ℕ)
    (reason : Reason) (now : ℕ) (p : Checks)
    → All (IsAllowed owner log) (refuse_commands s nick cs dropped reason now p).0
      × ((refuse_commands s nick cs dropped reason now p).1.pending_auth ≡ p.pending_auth)
unfolding refuse_commands note_whois_failure send_privmsg
refuse_commands-IsAllowed s nick owner log [] dropped reason now p = (tt, refl)
refuse_commands-IsAllowed s nick owner log ((target, message) ∷ rest) dropped reason now p =
    elim (Bool-cases (note_failure nick now p.whois_cooldown).0) [
      | inl e ↦ rw e ((tt, (tt, tt)), refl)
      | inr e ↦ rw e ((tt, tt), refl)
    ]

remove-IsVouched :
    (log : Log) (k : Text) (p : Checks)
    → IsVouched log p
    → IsVouched log (set_pending (remove k p.pending_auth) p)
unfolding set_pending
remove-IsVouched log k p h j =
    (rw (lookup-remove k j p.pending_auth)
      (elim (Bool-cases (text_eq k j)) [ inl e ↦ rw e refl | inr e ↦ rw e (h j) ]))

pub put-IsVouched :
    (log : Log) (k : Text) (a : PendingAuth) (p : Checks)
    → IsVouched log p
    → vouched log k a.account ≡ true
    → IsVouched log (set_pending (put k a p.pending_auth) p)
unfolding set_pending
put-IsVouched log k a p h ha j =
    (rw (lookup-put k j a p.pending_auth) (elim (Bool-cases (text_eq k j)) [
      | inl e ↦ rw e (subst (λ i. vouched log i a.account ≡ true) ((text_eq_iff k j).0 e) ha)
      | inr e ↦ rw e (h j)
    ]))

pub note_account-IsVouched :
    (log : Log) (nick account : Text) (p : Checks)
    → IsVouched log p
    → IsVouched ((to_lower nick, account) ∷ log) (note_account nick account p)
unfolding note_account note_found
note_account-IsVouched log nick account p h =
    let more : IsVouched ((to_lower nick, account) ∷ log) p = λ k.
      named-cons k account (to_lower nick, account) log (account_of (lookup k p.pending_auth))
        (h k) in
    elim (Option-cases (lookup (to_lower nick) p.pending_auth)) [
      | inl e ↦ rw e more
      | inr (a, e) ↦
          let itself : named (to_lower nick) account ((to_lower nick, account) ∷ log) ≡ true =
            rw (text_eq_refl (to_lower nick), text_eq_refl account) refl in
          rw e (
            put-IsVouched ((to_lower nick, account) ∷ log) (to_lower nick) (with_account account a)
              p more itself)
    ]

run_each-IsAllowed :
    (s : Setup) (nick account owner : Text) (log : Log) (cs : List (Text × Text))
    → named (to_lower nick) account log ≡ true
    → eq_ignore_case account owner ≡ true
    → All (IsAllowed owner log) (run_each s nick cs)
unfolding run_command
run_each-IsAllowed s nick account owner log [] hn he = tt
run_each-IsAllowed s nick account owner log ((target, message) ∷ cs) hn he =
    ((nick, account, refl, hn, he), run_each-IsAllowed s nick account owner log cs hn he)

-- What a handler must leave behind.
abbrev pub IsSafe : Text → Log → List Effect × Checks → Type 0
IsSafe owner log (effects, p) = All (IsAllowed owner log) effects × IsVouched log p

refuse_pending-IsSafe :
    (s : Setup) (nick owner : Text) (log : Log) (a : PendingAuth) (reason : Reason) (now : ℕ)
    (p : Checks)
    → IsVouched log p
    → IsSafe owner log (refuse_pending s nick a reason now p)
unfolding refuse_pending
refuse_pending-IsSafe s nick owner log a reason now p h =
    let (allowed, same) =
      refuse_commands-IsAllowed s nick owner log a.commands a.dropped reason now p in
    (allowed, λ k. rw same (h k))

resolve_account-IsSafe :
    (s : Setup) (nick owner : Text) (log : Log) (a : PendingAuth) (o : Option Text) (now : ℕ)
    (p : Checks)
    → IsVouched log p
    → vouched log (to_lower nick) o ≡ true
    → IsSafe owner log (resolve_account s nick owner a o now p)
unfolding resolve_account set_cooldown
resolve_account-IsSafe s nick owner log a none now p h hv =
    refuse_pending-IsSafe s nick owner log a unidentified now p h
resolve_account-IsSafe s nick owner log a (some account) now p h hv =
    elim (Bool-cases (eq_ignore_case account owner)) [
      | inl e ↦ rw e (run_each-IsAllowed s nick account owner log a.commands hv e, h)
      | inr e ↦
          rw e (refuse_pending-IsSafe s nick owner log a (other_account account owner) now p h)
    ]

pub resolve-IsSafe :
    (s : Setup) (nick owner : Text) (log : Log) (now : ℕ) (p : Checks)
    → s.config.security_mode ≡ irc_user_name owner
    → IsVouched log p
    → IsSafe owner log (resolve_pending_auth s nick now p)
unfolding resolve_pending_auth resolve_found resolve_mode
resolve-IsSafe s nick owner log now p mode h =
    elim (Option-cases (lookup (to_lower nick) p.pending_auth)) [
      | inl e ↦ rw e (tt, h)
      | inr (a, e) ↦
          let hv =
            ap (λ o. vouched log (to_lower nick) (account_of o)) (sym e) ∙ h (to_lower nick) in
          let rest = set_pending (remove (to_lower nick) p.pending_auth) p in
          rw e (
            subst (λ m. IsSafe owner log (resolve_mode s nick m a now rest)) (sym mode)
              (resolve_account-IsSafe s nick owner log a a.account now rest
                (remove-IsVouched log (to_lower nick) p h) hv))
    ]

expire_found-IsSafe :
    (s : Setup) (nick owner : Text) (log : Log) (o : Option PendingAuth) (now : ℕ) (p : Checks)
    → IsVouched log p
    → IsSafe owner log (expire_found s nick o now p)
unfolding expire_found
expire_found-IsSafe s nick owner log none now p h = (tt, h)
expire_found-IsSafe s nick owner log (some a) now p h =
    refuse_pending-IsSafe s nick owner log a timed_out now
      (set_pending (remove nick p.pending_auth) p) (remove-IsVouched log nick p h)

pub expire_each-IsSafe :
    (s : Setup) (nicks : List Text) (owner : Text) (log : Log) (now : ℕ) (p : Checks)
    → IsVouched log p
    → IsSafe owner log (expire_each s nicks now p)
expire_each-IsSafe s [] owner log now p h = (tt, h)
expire_each-IsSafe s (nick ∷ nicks) owner log now p h =
    let first = expire_found s nick (lookup nick p.pending_auth) now p in
    let (allowed, kept) =
      expire_found-IsSafe s nick owner log (lookup nick p.pending_auth) now p h in
    let (rest, last) = expire_each-IsSafe s nicks owner log now first.1 kept in
    (
      All-append (IsAllowed owner log) first.0 (expire_each s nicks now first.1).0 allowed rest,
      last,
    )
