-- ===== src/Notify/Tests.antt =====
-- src/notify.rs: the theorems at a few events, messages and backends.
use irc2torrent.Prelude.{
  ℕ, ◌+◌, ◌-◌, ◌/◌, ◌≡◌, refl, inr, Bool, true, false, ◌&&◌, if◌then◌else◌, List, [], ◌∷◌, map,
  Text, codes, Option, none, some, err, arith, lookup,
}
use irc2torrent.Irc.Outbound.{Outbound}
use irc2torrent.Notify.Schedule.{LocalResult, single, local_at, next_summary_after}
use irc2torrent.Notify.Schedule.Next.{IsDue, next_summary_after-first}
use irc2torrent.Notify.Senders.{infer_smtp_host, domain_of}
use irc2torrent.Notify.Events.{
  Event, torrent_added, service_restarted, EventFilter, render, join_lines, dedup_key,
}
use irc2torrent.Notify.Events.Groups.{first_keys, group_line}
use irc2torrent.Notify.Events.Digest.{subject_for, render-groups}
use irc2torrent.Notify.Limit.{new, claim, allow, roll, spend, claimed, take_suppressed}
use irc2torrent.Notify.Limit.Window.{claims, claims-unreported}
use irc2torrent.Notify.Outbox.{Backend, Target, deliver_to}
use irc2torrent.Notify.Outbox.Retries.{IsBounded, retries, retries-empty}
use irc2torrent.Notify.Hold.{IrcBackend, irc_backend}
use irc2torrent.Notify.Hold.Copies.{HasCopies, deliver_to-HasCopies}
use irc2torrent.Notify.Dispatch.{
  Dispatcher, receive, flush, Run, here, next, event_received, flushed, summary_body,
}
use irc2torrent.Notify.Dispatch.Runs.{IsOrderly, Run-IsOrderly}
use irc2torrent.Notify.Dispatch.Summary.{unreported, summary_of, Run-summary_body}
use irc2torrent.Notify.Poll.{Poller, Rows}
use irc2torrent.Notify.Poll.News.{polls, told, polls-told}
use irc2torrent.Notify.Senders.{EmailSettings}
use irc2torrent.Configuration.Sections.{EmailOptions, NotificationSection, default_notifications}
use irc2torrent.Notify.Reload.{
  Builder, Section, email_backend, email_name, ntfy_name, irc_name, email_targets, ntfy_targets,
  irc_targets, reload,
}
use irc2torrent.Notify.Reload.Sections.{backends_in, as_built}
use irc2torrent.Notify.Reload.Backends.{reload-backends}

abbrev restarts : List Event
restarts = service_restarted (codes "rtorrent") ∷ service_restarted (codes "rtorrent") ∷ []

render-groups_example : render restarts ≡ (
  subject_for restarts (first_keys restarts),
  join_lines (map (group_line restarts) (first_keys restarts)),
)
render-groups_example = render-groups restarts

one_key : first_keys restarts ≡ codes "restart:rtorrent" ∷ []
unfolding dedup_key
one_key = refl

claims-unreported_example : (claims (5 ∷ 6 ∷ 4000 ∷ []) (new 1 0)).reported ≡ 0
claims-unreported_example = claims-unreported (5 ∷ 6 ∷ 4000 ∷ []) 1 0

abbrev no_filter : EventFilter
no_filter = record {
  on_failure = none;
  on_torrent_added = none;
  on_download_finished = none;
  on_disk_low = none;
  on_warning = none;
  on_start = none;
  daily_summary = none;
}

-- A backend that refuses everything, and counts.
abbrev broken : Backend ℕ
broken = record {
  deliver = λ now subject body n. (err (codes "refused"), n + 1);
  retry_pending = λ now n. n;
}

abbrev waiting : Target ℕ
waiting = record {
  backend = 0;
  filter = no_filter;
  limit = record { max_per_hour = 20; used = 1; window_started = 0; suppressed = 0 };
  outbox = record { subject = codes "s"; body = codes "b"; attempts = 1 } ∷ [];
  section = none;
}

waiting-IsBounded : IsBounded waiting.outbox
unfolding IsBounded
waiting-IsBounded = (omega arith, ((omega arith, omega arith), tt))

retries-empty_example : (retries broken (30 ∷ 60 ∷ 90 ∷ 120 ∷ 150 ∷ []) waiting).outbox ≡ []
retries-empty_example =
    retries-empty broken (30 ∷ 60 ∷ 90 ∷ 120 ∷ 150 ∷ []) waiting waiting-IsBounded (omega arith)

abbrev pacer : Outbound
pacer = record { queued = []; epoch = 0; pending = 0; alive = true }

abbrev online : IrcBackend
online = record {
  link = record { sender = some pacer; owner_online = true };
  nick = codes "owner";
  hold_for = 900;
  pending = record { at = 10; subject = codes "s"; body = [] } ∷ [];
}

abbrev away : Target IrcBackend
away = record {
  backend = record {
    link = record { sender = some pacer; owner_online = false };
    nick = codes "owner";
    hold_for = 900;
    pending = [];
  };
  filter = no_filter;
  limit = record { max_per_hour = 20; used = 0; window_started = 0; suppressed = 0 };
  outbox = [];
  section = some (codes "irc");
}

allowed : (claim 5 away.limit).0 ≡ some 0
unfolding claim allow roll spend claimed take_suppressed
allowed = refl

deliver_to-HasCopies_example :
    HasCopies 3
      (codes "s")
      (codes "b")
      (retries irc_backend
        (30 ∷ 60 ∷ [])
        (deliver_to irc_backend 5 (codes "s") (codes "b") away)).backend
deliver_to-HasCopies_example =
    deliver_to-HasCopies 5 (30 ∷ 60 ∷ []) (codes "s") (codes "b") away refl (inr refl)
      (λ h. omega (arith, h)) refl allowed

abbrev dispatcher : Dispatcher ℕ
dispatcher = record {
  targets = waiting ∷ [];
  options = record {
    switches = record {
      on_failure = true;
      on_torrent_added = true;
      on_download_finished = true;
      on_disk_low = true;
      on_warning = false;
      on_start = true;
      daily_summary = false;
    };
    max_per_hour = 20;
  };
  buffer = [];
  totals = [];
}

abbrev after_event : Dispatcher ℕ
after_event = receive broken 40 (torrent_added (codes "Release")) dispatcher

abbrev run : Run broken dispatcher (flush broken 60 after_event)
run =
    next (next here (event_received dispatcher 40 (torrent_added (codes "Release"))))
      (flushed after_event 60)

dispatcher-IsOrderly : IsOrderly dispatcher
unfolding IsOrderly
dispatcher-IsOrderly = ((waiting-IsBounded, tt), tt)

Run-IsOrderly_example : IsOrderly (flush broken 60 after_event)
Run-IsOrderly_example = Run-IsOrderly broken run dispatcher-IsOrderly

Run-summary_body_example :
    summary_body (flush broken 60 after_event).totals ≡ summary_of (unreported broken run)
Run-summary_body_example = Run-summary_body broken run refl

abbrev poller : Poller
poller = record { finished = []; seeded = false; disk_warned = false }

abbrev listings : List (Option Rows)
listings = some ((codes "h1", codes "old") ∷ []) ∷ none ∷ some ((codes "h2", codes "new") ∷ []) ∷ []

polls-told_example : polls listings poller ≡ told none listings
unfolding lookup
polls-told_example = polls-told listings poller refl ((refl, tt), (tt, ((refl, tt), tt)))

inferred_host : infer_smtp_host (codes "me@GMail.com") ≡ some (codes "smtp.gmail.com")
unfolding infer_smtp_host domain_of lookup
inferred_host = refl

-- Half past nine in a zone that is an hour ahead
abbrev zone : ℕ → LocalResult
zone naive = single (naive - 3600)

next_summary_after-first_example :
    IsDue 3600 9 30 100000 203400 (next_summary_after zone (9, 30) ((100000 + 3600) / 86400) 100000)
next_summary_after-first_example =
    next_summary_after-first zone 3600 9 30 100000 203400 (λ naive. refl) (omega arith)
      (omega arith) (omega arith) (omega arith)

due_today : next_summary_after zone (9, 30) 1 100000 ≡ 117000
unfolding next_summary_after local_at
due_today = refl

-- One email account, and an ntfy topic that is added.
abbrev account : EmailOptions
account = record {
  address = codes "me@gmail.com";
  password = codes "secret";
  password_file = none;
  host = none;
  port = none;
  from = none;
  to = none;
  events = no_filter;
}

abbrev email_only : NotificationSection
email_only = record default_notifications { email = some account }

abbrev with_ntfy : NotificationSection
with_ntfy = record email_only {
  ntfy = some (record { topic = codes "releases"; token = none; events = no_filter });
}

abbrev both_or_none : {A : Type 0} → Option A → Option A → Bool
both_or_none none none = true
both_or_none none (some b) = false
both_or_none (some a) none = false
both_or_none (some a) (some b) = true

abbrev builder : Builder
builder = record {
  Mailbox = Text;
  parse_mailbox = some;
  read = λ path. none;
  variable = none;
  has_transport = λ b. true;
  has_client = λ b. true;
  same_email = both_or_none;
  same_ntfy = both_or_none;
  same_irc = both_or_none;
  same = λ a b.
      both_or_none a.email b.email && (both_or_none a.ntfy b.ntfy && both_or_none a.irc b.irc);
  irc_owner = none;
}

abbrev gmail : EmailSettings Text
gmail = record {
  host = codes "smtp.gmail.com";
  port = 587;
  implicit_tls = false;
  account = codes "me@gmail.com";
  password = codes "secret";
  from = codes "me@gmail.com";
  to = codes "me@gmail.com";
}

abbrev emailing : Dispatcher (Section builder)
emailing = record {
  targets =
      record {
        backend = email_backend gmail;
        filter = no_filter;
        limit = new 20 0;
        outbox = record { subject = codes "s"; body = codes "b"; attempts = 1 } ∷ [];
        section = some email_name;
      }
      ∷ [];
  options = email_only.options;
  buffer = [];
  totals = [];
}

reload-backends_example :
    let e = (reload builder 60 with_ntfy (email_only, emailing)).1 in
    (backends_in none e.targets ≡ backends_in none emailing.targets)
    × (backends_in (some email_name) e.targets ≡ (
        if builder.same_email with_ntfy.email email_only.email
        then backends_in (some email_name) emailing.targets
        else as_built (email_targets builder with_ntfy.email)))
    × (backends_in (some ntfy_name) e.targets ≡ (
        if builder.same_ntfy with_ntfy.ntfy email_only.ntfy
        then backends_in (some ntfy_name) emailing.targets
        else as_built (ntfy_targets builder with_ntfy.ntfy)))
    × (backends_in (some irc_name) e.targets ≡ (
        if builder.same_irc with_ntfy.irc email_only.irc
        then backends_in (some irc_name) emailing.targets
        else as_built (irc_targets builder with_ntfy.irc builder.irc_owner)))
reload-backends_example = reload-backends builder 60 with_ntfy email_only emailing refl
