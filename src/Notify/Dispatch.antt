-- ===== src/Notify/Dispatch.antt =====
-- src/notify.rs: the task that owns the backends. What it does in one wake-up happens at one instant
-- of the model.
pub mod Summary
pub mod Runs
use irc2torrent.Prelude.{
  ℕ, suc, ◌+◌, ◌≡◌, Bool, true, false, not, ◌==◌, List, [], ◌∷◌, ◌++◌, map, Text, codes, Option,
  none, some, if◌then◌else◌, any, keep_if, contains, is_empty, lookup, put, decimal,
}
use irc2torrent.Notify.Events.{
  Event, test, Switches, EventFilter, unwrap_or, enabled_by, summary_bucket, render, join_lines,
}
use irc2torrent.Notify.Limit.{new, set_cap}
use irc2torrent.Notify.Outbox.{Backend, Target, deliver_to, retry_held, retry_outbox}

pub record NotificationOptions : Type 0 where
  pub switches : Switches
  pub max_per_hour : ℕ

pub record Dispatcher (B : Type 0) : Type 0 where
  pub targets : List (Target B)
  pub options : NotificationOptions
  pub buffer : List Event
  pub totals : List (Text × ℕ)

unfoldable pub count_event : Option Text → List (Text × ℕ) → List (Text × ℕ)
count_event none totals = totals
count_event (some bucket) totals = put bucket (unwrap_or (lookup bucket totals) 0 + 1) totals

unfoldable pub is_test : Event → Bool
is_test test = true
is_test _ = false

unfoldable pub total_line : List (Text × ℕ) → Text → Text
total_line totals bucket = bucket ++ codes ": " ++ decimal (unwrap_or (lookup bucket totals) 0)

unfoldable pub summary_body : List (Text × ℕ) → Text
unfolding total_line
summary_body totals = join_lines (
    map (total_line totals)
      (codes "added" ∷ codes "finished" ∷ codes "failed" ∷ codes "restarts" ∷ []))

abbrev pub in_sections : List Text → Option Text → Bool
in_sections changed none = false
in_sections changed (some section) = contains changed section

abbrev pub no_buffer : List Event → Bool
no_buffer [] = true
no_buffer (e ∷ events) = false

-- A backend that was built for a section, with what its table says of events.
pub record Built (B : Type 0) : Type 0 where
  pub backend : B
  pub filter : EventFilter
  pub section : Text

module _ {B : Type 0} where
  unfoldable pub is_wanted : Event → Dispatcher B → Bool
  is_wanted e d = any (λ t. enabled_by d.options.switches t.filter e) d.targets

  unfoldable pub takes_summary : Switches → Target B → Bool
  takes_summary global t = unwrap_or t.filter.daily_summary global.daily_summary

  unfoldable pub wants_summary : Dispatcher B → Bool
  unfolding takes_summary
  wants_summary d = any (takes_summary d.options.switches) d.targets

  unfoldable pub adopt_targets : List Text → List (Target B) → List (Target B) → List (Target B)
  adopt_targets [] built targets = targets
  adopt_targets (section ∷ changed) built targets =
      keep_if (λ t. not (in_sections (section ∷ changed) t.section)) targets ++ built

  abbrev pub with_cap : ℕ → Target B → Target B
  with_cap cap t = record t { limit = set_cap cap t.limit }

  unfoldable pub new_target : ℕ → ℕ → Built B → Target B
  new_target cap now b = record {
    backend = b.backend;
    filter = b.filter;
    limit = new cap now;
    outbox = [];
    section = some b.section;
  }

  -- A new configuration, given the sections in which it differs and the backends built for these.
  unfoldable pub refresh :
      NotificationOptions → ℕ → List Text → List (Built B) → Dispatcher B → Dispatcher B
  unfolding adopt_targets new_target
  refresh fresh now changed built d =
      let adopted =
        adopt_targets changed (map (new_target fresh.max_per_hour now) built) d.targets in
      record d {
        targets =
            if fresh.max_per_hour == d.options.max_per_hour
            then adopted
            else map (with_cap fresh.max_per_hour) adopted;
        options = fresh;
      }

module _ {B : Type 0} (β : Backend B) where
  unfoldable pub deliver_mine : ℕ → List Event → Target B → Target B
  deliver_mine now [] t = t
  deliver_mine now (e ∷ mine) t =
      let (subject, body) = render (e ∷ mine) in deliver_to β now subject body t

  unfoldable pub deliver_target : Switches → ℕ → List Event → Target B → Target B
  unfolding deliver_mine
  deliver_target global now events t =
      deliver_mine now (keep_if (enabled_by global t.filter) events) t

  unfoldable pub deliver : ℕ → List Event → Dispatcher B → Dispatcher B
  unfolding deliver_target
  deliver now events d = record d {
    targets = map (deliver_target d.options.switches now events) d.targets;
  }

  unfoldable pub flush : ℕ → Dispatcher B → Dispatcher B
  unfolding deliver
  flush now d = if no_buffer d.buffer then d else deliver now d.buffer (record d { buffer = [] })

  pub keep_wanted : ℕ → Event → Dispatcher B → Dispatcher B
  unfolding deliver is_test
  keep_wanted now e d =
      if is_test e then deliver now (test ∷ []) d else record d { buffer = d.buffer ++ (e ∷ []) }

  unfoldable pub receive : ℕ → Event → Dispatcher B → Dispatcher B
  unfolding keep_wanted is_wanted
  receive now e d =
      let counted = record d { totals = count_event (summary_bucket e) d.totals } in
      if not (is_wanted e counted) then counted else keep_wanted now e counted

  unfoldable pub retry : ℕ → Dispatcher B → Dispatcher B
  retry now d = record d { targets = map (retry_outbox β now) (map (retry_held β now) d.targets) }

  unfoldable pub summarize : Switches → ℕ → Text → Target B → Target B
  unfolding takes_summary
  summarize global now body t =
      if takes_summary global t
      then deliver_to β now (codes "irc2torrent: daily summary") body t
      else t

  unfoldable pub send_summary : ℕ → Dispatcher B → Dispatcher B
  unfolding summarize
  send_summary now d = record d {
    targets = map (summarize d.options.switches now (summary_body d.totals)) d.targets;
    totals = [];
  }

  -- One wake-up of the loop.
  pub data Step : Dispatcher B → Dispatcher B → Type 0 where
    adopted :
        (d : Dispatcher B) (fresh : NotificationOptions) (now : ℕ) (changed : List Text)
        (built : List (Built B))
        → Step d (refresh fresh now changed built d)
    event_received : (d : Dispatcher B) (now : ℕ) (e : Event) → Step d (receive now e d)
    flushed : (d : Dispatcher B) (now : ℕ) → Step d (flush now d)
    retried : (d : Dispatcher B) (now : ℕ) → Step d (retry now d)
    summarized : (d : Dispatcher B) (now : ℕ) → wants_summary d ≡ true → Step d (send_summary now d)

  pub data Run (start : Dispatcher B) : Dispatcher B → Type 0 where
    here : Run start start
    next : {d e : Dispatcher B} → Run start d → Step d e → Run start e
