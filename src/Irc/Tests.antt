-- ===== src/Irc/Tests.antt =====
-- src/irc_processor.rs: the theorems at one owner and a few messages.
use irc2torrent.Prelude.{
  some, none, ok, ℕ, ◌+◌, ◌-◌, ◌≤◌, ◌<◌, ◌≡◌, refl, true, false, List, [], ◌∷◌, Text, codes, All,
  lookup, arith,
}
use irc2torrent.Auth.{irc_user_name}
use irc2torrent.Irc.Whois.{WhoisBudget}
use irc2torrent.Irc.Whois.Cooldown.{failures_of}
use irc2torrent.Irc.Outbound.{
  Outgoing, Outbound, FloodLimit, Turn, cancel, pace, wait_slot, discards, after_wait, pace_run,
  word,
}
use irc2torrent.Irc.Outbound.Burst.{count_in, pace_run-burst}
use irc2torrent.Irc.Outbound.Cancel.{Use, reply, notify, taken, drain, cancel-drain}
use irc2torrent.Irc.Identity.Pending.{Checks, Setup}
use irc2torrent.Irc.Identity.{Event, command, account_is, end_of_whois, sweep, handle}
use irc2torrent.Irc.Identity.Identified.{EachAllowed, handle-EachAllowed}
use irc2torrent.Irc.Identity.Held.{IsHeld, handle-IsHeld}
use irc2torrent.Irc.Identity.Lookups.{asked, handle-asked}
use irc2torrent.Notify.Hold.{IrcBackend}
use irc2torrent.Notify.Hold.Reach.{IsReached}
use irc2torrent.Irc.Presence.{LinkEvent, joined, ison, message, after_events, split_whitespace}
use irc2torrent.Irc.Presence.Latest.{latest, after_events-IsReached}
use irc2torrent.Announce.{Announce}
use irc2torrent.TorrentProcessor.Filters.{Lists}
use irc2torrent.TorrentProcessor.{Remotes}
use irc2torrent.Irc.Connection.{Attempt, start, listen}
use irc2torrent.Irc.Connection.Backoff.{IsCalm, listen-IsCalm}

abbrev owner : Text
owner = codes "owner"

abbrev setup : Setup
setup = record {
  config = record {
    commands_enabled = true;
    security_mode = irc_user_name owner;
    require_identified = true;
    channels = [];
  };
  our_nick = codes "bot";
}

abbrev budget : WhoisBudget
budget = record { window_started = 0; used = 3 }

abbrev fresh : Checks
fresh = record { pending_auth = []; whois_cooldown = []; whois_budget = budget }

abbrev events : List (ℕ × Event)
events =
    (5, command (codes "bot") (codes "h!") owner)
    ∷ (6, account_is owner (codes "Owner"))
    ∷ (7, end_of_whois owner)
    ∷ (20, sweep)
    ∷ []

fresh-IsHeld : IsHeld fresh
unfolding lookup
fresh-IsHeld k = omega arith

events-range : All (λ (t, e). (0 ≤ t) × (t < 0 + 60)) events
events-range = (
  (omega arith, omega arith),
  ((omega arith, omega arith), ((omega arith, omega arith), ((omega arith, omega arith), tt))),
)

handle-EachAllowed_example : EachAllowed setup owner events [] fresh
handle-EachAllowed_example = handle-EachAllowed setup owner events [] budget refl refl

handle-asked_example : asked setup events fresh ≤ 20
handle-asked_example = handle-asked setup 0 events fresh (omega arith) events-range

handle-IsHeld_example : IsHeld (handle setup 5 (command (codes "bot") (codes "h!") owner) fresh).1
handle-IsHeld_example =
    handle-IsHeld setup 5 (command (codes "bot") (codes "h!") owner) fresh fresh-IsHeld

no_failures : failures_of owner [] ≡ 0
unfolding lookup
no_failures = refl

abbrev listing : Outgoing
listing = record { target = owner; text = codes "line"; epoch = 0; cancellable = true }

abbrev alert : Outgoing
alert = record { target = owner; text = codes "Finished"; epoch = 0; cancellable = false }

abbrev outbound : Outbound
outbound = record { queued = listing ∷ alert ∷ []; epoch = 0; pending = 1; alive = true }

abbrev limit : FloodLimit
limit = record { window = 8; max_in_burst = 5 }

abbrev turn : FloodLimit → Turn
turn now = record {
  limit = now;
  gap = 1;
  late = 0;
  epoch_before = 0;
  epoch_after = 0;
  message = listing;
}

-- The limit is edited between two messages.
abbrev edited : List Turn
edited = turn limit ∷ turn (record { window = 10; max_in_burst = 2 }) ∷ turn limit ∷ []

pace_run-burst_example : count_in 0 8 (pace_run edited [] 0) ≤ 5
pace_run-burst_example =
    pace_run-burst 5 8 edited 0 0 (omega arith)
      ((omega arith, omega arith), ((omega arith, omega arith), ((omega arith, omega arith), tt)))

abbrev spaced : ℕ → ℕ → Turn
spaced gap most = record (turn (record { window = 8; max_in_burst = most })) { gap = gap }

-- Four messages spread over the window, and then a limit of one: four still leave in each window.
lowered_late :
    pace_run
      (spaced 2 4
        ∷ spaced 2 4
        ∷ spaced 2 4
        ∷ spaced 2 4
        ∷ spaced 0 1
        ∷ spaced 0 1
        ∷ spaced 0 1
        ∷ spaced 0 1
        ∷ [])
      []
      0
    ≡ 2 ∷ 4 ∷ 6 ∷ 8 ∷ 10 ∷ 12 ∷ 14 ∷ 16 ∷ []
unfolding pace wait_slot discards after_wait
lowered_late = refl

abbrev uses : List Use
uses = reply owner (codes "line") ∷ notify owner (codes "Finished") ∷ taken ∷ []

cancel-drain_example : (cancel (drain (listing ∷ alert ∷ []) (cancel outbound).1)).0 ≡ word - 1
cancel-drain_example = cancel-drain outbound (omega arith) (omega arith)

abbrev attempts : List Attempt
attempts =
    record { connection = none; ended = 0 }
    ∷ record { connection = none; ended = 70 }
    ∷ record { connection = some (80, 100); ended = 180 }
    ∷ []

listen-IsCalm_example : IsCalm attempts (listen start attempts)
listen-IsCalm_example = listen-IsCalm attempts

abbrev backend : IrcBackend
backend = record {
  link = record { sender = none; owner_online = false };
  nick = owner;
  hold_for = 900;
  pending = [];
}

-- A connection, a message, the owner away, another message, and the owner back
abbrev presence : List LinkEvent
presence =
    joined outbound
    ∷ message 10 (codes "Started") []
    ∷ ison (codes "bot" ∷ [] ∷ [])
    ∷ message 20 (codes "Disk low") []
    ∷ ison (codes "bot" ∷ codes "Owner " ∷ [])
    ∷ []

after_events-IsReached_example :
    IsReached
      (latest (irc_user_name owner) false presence)
      (after_events (irc_user_name owner) presence backend).link.sender
      30
      (codes "Finished")
      []
      (after_events (irc_user_name owner) presence backend)
after_events-IsReached_example =
    after_events-IsReached (irc_user_name owner) presence backend 30 (codes "Finished") []

-- The owner is there at the end.
owner_back : latest (irc_user_name owner) false presence ≡ true
unfolding split_whitespace
owner_back = refl

abbrev release : Announce
release = record { name = codes "Release"; id = codes "1"; fields = [] }

abbrev remotes : Remotes
remotes = record { fetch = λ a. ok []; start = λ b64 a. ok tt }

abbrev no_lists : Lists
no_lists = record { dl_watches = []; reject_regexes = []; require_fields = []; field_filters = [] }
