-- ===== src/Irc/Connection/Backoff.antt =====
-- src/irc_processor.rs: how long the bot waits between attempts, and what it says of an outage.
use irc2torrent.Prelude.{
  ℕ, ◌-◌, ◌≤◌, ◌≡◌, refl, sym, subst, append_assoc, inl, inr, Bool, true, false, not, ◌&&◌, List,
  [], ◌∷◌, ◌++◌, Option, none, some, if◌then◌else◌, leb, All, Bool-cases, arith,
}
use irc2torrent.Irc.Connection.{
  Link, Report, irc_reconnected, irc_disconnected, Attempt, connected, report_down, wait_retry,
  or_now, try_once, start, listen,
}
use irc2torrent.Irc.Connection.Outage.{IsTrue, listen-IsTrue}

abbrev pub IsBounded : ℕ → Type 0
IsBounded d = (3 ≤ d) × (d ≤ 60)

connected-IsBounded :
    (l : Link) (o : Option (ℕ × ℕ)) → IsBounded l.backoff → IsBounded (connected l o).1.backoff
unfolding connected
connected-IsBounded l none h = h
connected-IsBounded l (some (made, uptime)) h = elim (Bool-cases (leb 60 uptime)) [
  | inl e ↦ rw e (omega arith, omega arith)
  | inr e ↦ rw e h
]

try_once-IsBounded :
    (l : Link) (a : Attempt)
    → IsBounded l.backoff
    → IsBounded (try_once l a).sleep × IsBounded (try_once l a).link.backoff
unfolding try_once report_down wait_retry
try_once-IsBounded l a h =
    let (low, high) = connected-IsBounded l a.connection h in
    ((low, high), (omega (arith, low, high), omega (arith, low, high)))

listen-each :
    (l : Link) (tries : List Attempt) → IsBounded l.backoff → All IsBounded (listen l tries).1
listen-each l [] h = tt
listen-each l (a ∷ tries) h =
    let (slept, next) = try_once-IsBounded l a h in
    (slept, listen-each (try_once l a).link tries next)

-- Whether the reports alternate, given whether the last one said that the link was down.
abbrev pub alternates : Bool → List Report → Bool
alternates down [] = true
alternates true (irc_reconnected n ∷ rs) = alternates false rs
alternates false (irc_disconnected n ∷ rs) = alternates true rs
alternates _ _ = false

connected-alternates :
    (l : Link) (o : Option (ℕ × ℕ)) (rs : List Report)
    → alternates (connected l o).1.reported_down rs ≡ true
    → alternates l.reported_down ((connected l o).0 ++ rs) ≡ true
unfolding connected
connected-alternates l none rs h = h
connected-alternates l (some (made, uptime)) rs h = elim (Bool-cases l.reported_down) [
  | inl e ↦ rw e h
  | inr e ↦ rw e h
]

reported-alternates :
    (down due : Bool) (n : ℕ) (rs : List Report)
    → alternates (if not down && due then true else down) rs ≡ true
    → alternates down ((if not down && due then irc_disconnected n ∷ [] else []) ++ rs) ≡ true
reported-alternates true due n rs h = h
reported-alternates false true n rs h = h
reported-alternates false false n rs h = h

report_down-alternates :
    (l : Link) (now : ℕ) (rs : List Report)
    → alternates (report_down now l).1.reported_down rs ≡ true
    → alternates l.reported_down ((report_down now l).0 ++ rs) ≡ true
unfolding report_down
report_down-alternates l now rs h =
    reported-alternates l.reported_down (leb 60 (now - or_now now l.down_since))
      (now - or_now now l.down_since) rs h

listen-from :
    (l : Link) (tries : List Attempt) → alternates l.reported_down (listen l tries).0 ≡ true
unfolding try_once wait_retry
listen-from l [] = refl
listen-from l (a ∷ tries) =
    let up = connected l a.connection in
    let down = report_down a.ended up.1 in
    let rest = (listen (try_once l a).link tries).0 in
    subst (λ rs. alternates l.reported_down rs ≡ true) (sym (append_assoc up.0 down.0 rest))
      (connected-alternates l a.connection (down.0 ++ rest)
        (report_down-alternates up.1 a.ended rest (listen-from (try_once l a).link tries)))

abbrev pub IsCalm : List Attempt → List Report × List ℕ → Type 0
IsCalm tries (reports, sleeps) =
    (alternates false reports ≡ true) × All (IsTrue tries) reports × All IsBounded sleeps

-- However the attempts to connect end, the reports of an outage and of its end alternate, an outage
-- first: nothing is said to have recovered that was not reported down, and no outage is reported
-- twice; an outage is reported only when no attempt made a connection for at least a minute after one
-- ended, and as lasting the seconds between the end of that attempt and of the last one; and the bot
-- waits between three seconds and a minute after each attempt.
pub listen-IsCalm : (tries : List Attempt) → IsCalm tries (listen start tries)
listen-IsCalm tries = (
  listen-from start tries,
  listen-IsTrue [] start tries tt,
  listen-each start tries (omega arith, omega arith),
)
