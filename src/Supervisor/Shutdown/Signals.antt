-- ===== src/Supervisor/Shutdown/Signals.antt =====
-- src/supervisor.rs: who is signalled at shutdown, and whose lock is removed.
use irc2torrent.Prelude.{
  ℕ, ◌==◌, ◌≡◌, refl, ap, subst, append_assoc, All, ◌∙◌, Bool, true, false, not, ◌||◌, ◌&&◌, List,
  [], ◌∷◌, ◌++◌, map, Text, codes, none, some, keep_if, all, trim, text_eq, is_empty, is_digit,
  arith,
}
use irc2torrent.Supervisor.Services.{Service}
use irc2torrent.Supervisor.Shutdown.{
  terminate, kill, live_pids, has_pid, await_exits, shutdown, starts_with_mark, rsplit_mark,
  removes_lock, clear_stale_session_lock,
}

has_pid-without :
    (pid q : ℕ) (pids : List ℕ)
    → has_pid q (keep_if (λ p. not (p == pid)) pids) ≡ (has_pid q pids && not (pid == q))
has_pid-without pid q [] = refl
has_pid-without pid q (p ∷ pids) = ground (arith, has_pid-without pid q pids)

and_not : (a b c : Bool) → ((a && not b) && not c) ≡ (a && not (b || c))
and_not a b c = ground arith

-- What is outstanding in the end: what was, less the reported.
has_pid-await_exits :
    (q : ℕ) (reports outstanding : List ℕ)
    → has_pid q (await_exits reports outstanding)
      ≡ (has_pid q outstanding && not (has_pid q reports))
has_pid-await_exits q [] outstanding = ground arith
has_pid-await_exits q (pid ∷ reports) [] = refl
has_pid-await_exits q (pid ∷ reports) (p ∷ outstanding) =
    let left = keep_if (λ r. not (r == pid)) (p ∷ outstanding) in
    let step = has_pid-await_exits q reports left in
    let without = has_pid-without pid q (p ∷ outstanding) in
    step
    ∙ ap (λ b. b && not (has_pid q reports)) without
    ∙ and_not (has_pid q (p ∷ outstanding)) (pid == q) (has_pid q reports)

has_pid-middle : (p : ℕ) (more pids : List ℕ) → has_pid p (more ++ (p ∷ pids)) ≡ true
has_pid-middle p [] pids = ground arith
has_pid-middle p (q ∷ more) pids = ground (arith, has_pid-middle p more pids)

has_pid_self : (pids more : List ℕ) → All (λ p. has_pid p (more ++ pids) ≡ true) pids
has_pid_self [] more = tt
has_pid_self (p ∷ pids) more = (
  has_pid-middle p more pids,
  subst (λ l. All (λ q. has_pid q l ≡ true) pids) (append_assoc more (p ∷ []) pids)
      (has_pid_self pids (more ++ (p ∷ []))),
)

keep_unreported :
    (reports live pids : List ℕ)
    → All (λ p. has_pid p live ≡ true) pids
    → keep_if (λ p. has_pid p (await_exits reports live)) pids
      ≡ keep_if (λ p. not (has_pid p reports)) pids
keep_unreported reports live [] h = refl
keep_unreported reports live (p ∷ pids) (here, later) =
    ground
      (arith, has_pid-await_exits p reports live, here, keep_unreported reports live pids later)

-- At shutdown every running service is told to terminate, in order, and then exactly those are
-- killed whose exit was not reported within the grace period.
pub shutdown-unreported :
    (services : List Service) (reports : List ℕ)
    → shutdown services reports
      ≡ map terminate (live_pids services)
        ++ map kill (keep_if (λ pid. not (has_pid pid reports)) (live_pids services))
unfolding shutdown
shutdown-unreported services reports =
    let live = live_pids services in
    ap (λ pids. map terminate live ++ map kill pids)
      (keep_unreported reports live live (has_pid_self live []))

rsplit_mark-digits : (pid : Text) → all is_digit pid ≡ true → rsplit_mark pid ≡ none
rsplit_mark-digits [] h = refl
rsplit_mark-digits (c ∷ []) h = refl
rsplit_mark-digits (c ∷ d ∷ cs) h =
    let rest = rsplit_mark-digits (d ∷ cs) (ground arith) in
    let no_mark : starts_with_mark (c ∷ d ∷ cs) ≡ false = ground arith in rw (rest, no_mark) refl

abbrev mark : Text
mark = codes ":+"

rsplit_mark-mark : (pid : Text) → all is_digit pid ≡ true → rsplit_mark (mark ++ pid) ≡ some []
rsplit_mark-mark [] h = refl
rsplit_mark-mark (c ∷ cs) h = rw (rsplit_mark-digits (c ∷ cs) h) refl

rsplit_mark-append :
    (host rest : Text) → rsplit_mark rest ≡ some [] → rsplit_mark (host ++ rest) ≡ some host
rsplit_mark-append [] rest h = h
rsplit_mark-append (c ∷ host) rest h = rw (rsplit_mark-append host rest h) refl

-- A lock of the form host:+pid is removed when the host is this one, and left alone when it is
-- another.
pub clear_stale_session_lock-host :
    (contents host pid ours : Text)
    → trim contents ≡ host ++ (mark ++ pid)
    → all is_digit pid ≡ true
    → is_empty ours ≡ false
    → clear_stale_session_lock (some contents) ours ≡ text_eq host ours
unfolding clear_stale_session_lock removes_lock
clear_stale_session_lock-host contents host pid ours form digits named =
    let found = rsplit_mark-append host (mark ++ pid) (rsplit_mark-mark pid digits) in
    ap (λ c. removes_lock ours (rsplit_mark c)) form
    ∙ ap (removes_lock ours) found
    ∙ ground (arith, named)
