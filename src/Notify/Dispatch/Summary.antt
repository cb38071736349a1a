-- ===== src/Notify/Dispatch/Summary.antt =====
-- src/notify.rs: what the daily summary counts.
use irc2torrent.Prelude.{
  ℕ, ◌+◌, ◌≡◌, refl, ap, inl, inr, List, [], ◌∷◌, ◌++◌, map, Text, codes, decimal, Option, none,
  some, if◌then◌else◌, text_eq, text_eq_iff, lookup, lookup-put, arith, Bool-cases,
}
use irc2torrent.Notify.Events.{Event, unwrap_or, summary_bucket, join_lines}
use irc2torrent.Notify.Outbox.{Backend}
use irc2torrent.Notify.Dispatch.{
  Dispatcher, count_event, is_test, total_line, summary_body, deliver, flush, is_wanted,
  keep_wanted, receive, retry, send_summary, refresh, adopted, event_received, flushed, retried,
  summarized, Run, here, next,
}

-- Whether an event is counted in a bucket.
abbrev counts_in : Text → Option Text → ℕ
counts_in bucket none = 0
counts_in bucket (some b) = if text_eq b bucket then 1 else 0

abbrev pub bucket_count : Text → List Event → ℕ
bucket_count bucket [] = 0
bucket_count bucket (e ∷ events) = counts_in bucket (summary_bucket e) + bucket_count bucket events

bucket_count-snoc :
    (bucket : Text) (events : List Event) (e : Event)
    → bucket_count bucket (events ++ (e ∷ []))
      ≡ bucket_count bucket events + counts_in bucket (summary_bucket e)
bucket_count-snoc bucket [] e = omega arith
bucket_count-snoc bucket (f ∷ events) e = omega (arith, bucket_count-snoc bucket events e)

abbrev total : Text → List (Text × ℕ) → ℕ
total bucket totals = unwrap_or (lookup bucket totals) 0

total-count_event :
    (bucket : Text) (o : Option Text) (totals : List (Text × ℕ))
    → total bucket (count_event o totals) ≡ total bucket totals + counts_in bucket o
unfolding count_event
total-count_event bucket none totals = omega arith
total-count_event bucket (some b) totals = elim (Bool-cases (text_eq b bucket)) [
  | inl e ↦
      let same = ap (λ k. unwrap_or (lookup k totals) 0) ((text_eq_iff b bucket).0 e) in
      rw (lookup-put b bucket (unwrap_or (lookup b totals) 0 + 1) totals, e) (omega (arith, same))
  | inr e ↦ rw (lookup-put b bucket (unwrap_or (lookup b totals) 0 + 1) totals, e) (omega arith)
]

abbrev pub count_line : List Event → Text → Text
count_line events bucket = bucket ++ codes ": " ++ decimal (bucket_count bucket events)

-- The body of a summary of these events.
abbrev pub summary_of : List Event → Text
summary_of events = join_lines (
    map (count_line events)
      (codes "added" ∷ codes "finished" ∷ codes "failed" ∷ codes "restarts" ∷ []))

module _ {B : Type 0} (β : Backend B) where
  receive-totals :
      (now : ℕ) (e : Event) (d : Dispatcher B)
      → (receive β now e d).totals ≡ count_event (summary_bucket e) d.totals
  unfolding receive keep_wanted deliver
  receive-totals now e d =
      elim (Bool-cases
        (is_wanted e (record d { totals = count_event (summary_bucket e) d.totals }))) [
          | inr unwanted ↦ rw unwanted refl
          | inl wanted ↦ elim (Bool-cases (is_test e)) [
            | inl now_due ↦ rw (wanted, now_due) refl
            | inr later ↦ rw (wanted, later) refl
          ]
        ]

  flush-totals : (now : ℕ) (d : Dispatcher B) → (flush β now d).totals ≡ d.totals
  unfolding flush deliver
  flush-totals now d = ground arith

  module _ {start : Dispatcher B} where
    -- The events received since the last summary.
    abbrev pub unreported : {d : Dispatcher B} → Run β start d → List Event
    unreported here = []
    unreported (next run (adopted d fresh now changed built)) = unreported run
    unreported (next run (event_received d now e)) = unreported run ++ (e ∷ [])
    unreported (next run (flushed d now)) = unreported run
    unreported (next run (retried d now)) = unreported run
    unreported (next run (summarized d now wants)) = []

    Run-total :
        {d : Dispatcher B} (bucket : Text) (run : Run β start d)
        → start.totals ≡ []
        → total bucket d.totals ≡ bucket_count bucket (unreported run)
    unfolding refresh retry send_summary lookup
    Run-total bucket here h = rw h refl
    Run-total bucket (next run (adopted d fresh now changed built)) h = Run-total bucket run h
    Run-total bucket (next run (event_received d now e)) h = rw (receive-totals now e d) (
        omega (
          arith,
          total-count_event bucket (summary_bucket e) d.totals,
          bucket_count-snoc bucket (unreported run) e,
          Run-total bucket run h,
        ))
    Run-total bucket (next run (flushed d now)) h = rw (flush-totals now d) (Run-total bucket run h)
    Run-total bucket (next run (retried d now)) h = Run-total bucket run h
    Run-total bucket (next run (summarized d now wants)) h = refl

    -- After any wake-ups from a start with nothing counted, the body of a daily summary gives for
    -- each of its four buckets exactly how many events of that bucket came since the summary before,
    -- whether or not any backend wanted them.
    pub Run-summary_body :
        {d : Dispatcher B} (run : Run β start d)
        → start.totals ≡ []
        → summary_body d.totals ≡ summary_of (unreported run)
    unfolding summary_body total_line
    Run-summary_body run h =
        rw
          (
            Run-total (codes "added") run h,
            Run-total (codes "finished") run h,
            Run-total (codes "failed") run h,
            Run-total (codes "restarts") run h,
          )
          refl
