-- ===== src/Irc/Connection.antt =====
-- src/irc_processor.rs: the loop that keeps the connection, with its backoff and its reports. An
-- attempt ends without a connection or with one that lasted a while.
pub mod Backoff
pub mod Outage
use irc2torrent.Prelude.{
  ℕ, ◌+◌, ◌-◌, ◌*◌, ◌^◌, min, Bool, true, false, not, ◌&&◌, List, [], ◌∷◌, ◌++◌, Option, none, some,
  if◌then◌else◌, leb,
}

abbrev pub reconnect_delay_min : ℕ
reconnect_delay_min = 3

abbrev pub reconnect_delay_max : ℕ
reconnect_delay_max = 60

abbrev pub stable_connection : ℕ
stable_connection = 60

-- The locals of `start_listening`
pub record Link : Type 0 where
  pub retry_count : ℕ
  pub backoff : ℕ
  pub down_since : Option ℕ
  pub reported_down : Bool

pub data Report : Type 0 where
  irc_reconnected irc_disconnected : ℕ → Report

-- The instant a connection was made, if it was, with how long it held; and the instant at which the
-- loop goes on.
pub record Attempt : Type 0 where
  pub connection : Option (ℕ × ℕ)
  pub ended : ℕ

-- `t.elapsed()`, or zero
abbrev pub elapsed_since : ℕ → Option ℕ → ℕ
elapsed_since now none = 0
elapsed_since now (some t) = now - t

abbrev pub or_now : ℕ → Option ℕ → ℕ
or_now now none = now
or_now now (some t) = t

pub connected : Link → Option (ℕ × ℕ) → List Report × Link
connected l none = ([], l)
connected l (some (made, uptime)) = (
  if l.reported_down then irc_reconnected (elapsed_since made l.down_since) ∷ [] else [],
  record {
    retry_count = if leb stable_connection uptime then 0 else l.retry_count;
    backoff = if leb stable_connection uptime then reconnect_delay_min else l.backoff;
    down_since = none;
    reported_down = false;
  },
)

pub report_down : ℕ → Link → List Report × Link
report_down now l =
    let since = or_now now l.down_since in
    let due = not l.reported_down && leb reconnect_delay_max (now - since) in
    (
      if due then irc_disconnected (now - since) ∷ [] else [],
      record {
        retry_count = l.retry_count;
        backoff = l.backoff;
        down_since = some since;
        reported_down = if due then true else l.reported_down;
      },
    )

-- The sleep, and the delay after it.
pub wait_retry : Link → ℕ × Link
wait_retry l = (
  l.backoff,
  record {
    retry_count = min (2 ^ 32 - 1) (l.retry_count + 1);
    backoff = min (l.backoff * 2) reconnect_delay_max;
    down_since = l.down_since;
    reported_down = l.reported_down;
  },
)

-- One turn of the loop: what is reported, the sleep, and the state for the next turn.
pub record Round : Type 0 where
  pub reports : List Report
  pub sleep : ℕ
  pub link : Link

unfoldable pub try_once : Link → Attempt → Round
unfolding connected report_down wait_retry
try_once l a =
    let up = connected l a.connection in
    let down = report_down a.ended up.1 in
    let waited = wait_retry down.1 in
    record { reports = up.0 ++ down.0; sleep = waited.0; link = waited.1 }

abbrev pub start : Link
start = record {
  retry_count = 0;
  backoff = reconnect_delay_min;
  down_since = none;
  reported_down = false;
}

abbrev pub listen : Link → List Attempt → List Report × List ℕ
listen l [] = ([], [])
listen l (a ∷ tries) =
    let round = try_once l a in
    let rest = listen round.link tries in (round.reports ++ rest.0, round.sleep ∷ rest.1)
