-- ===== src/Notify/Dispatch/Runs.antt =====
-- src/notify.rs: what holds after any wake-ups of the dispatcher.
use irc2torrent.Prelude.{
  ℕ, ◌≡◌, inl, inr, Bool, false, not, List, [], ◌∷◌, map, Text, codes, ◌==◌, keep_if, arith,
  Bool-cases, All, All-append,
}
use irc2torrent.Notify.Events.{Event, test, Switches, enabled_by, render, summary_bucket}
use irc2torrent.Notify.Outbox.{Backend, Target, retry_outbox, retry_held}
use irc2torrent.Notify.Outbox.Retries.{IsBounded, deliver_to-IsBounded, retry_outbox-IsBounded}
use irc2torrent.Notify.Dispatch.{
  NotificationOptions, Dispatcher, is_test, deliver_mine, deliver_target, deliver, flush, no_buffer,
  is_wanted, keep_wanted, receive, retry, summarize, takes_summary, send_summary, summary_body,
  adopt_targets, with_cap, new_target, Built, refresh, in_sections, count_event, Step, adopted,
  event_received, flushed, retried, summarized, Run, here, next,
}

All-map {ℓ κ μ} :
    {A : Type ℓ} {C : Type κ} (P : A → Type μ) (Q : C → Type μ) (f : A → C) (xs : List A)
    → ((x : A) → P x → Q (f x))
    → All P xs
    → All Q (map f xs)
All-map P Q f [] step h = tt
All-map P Q f (x ∷ xs) step h = (step x h.0, All-map P Q f xs step h.1)

All-keep_if {ℓ μ} :
    {A : Type ℓ} (P : A → Type μ) (p : A → Bool) (xs : List A) → All P xs → All P (keep_if p xs)
All-keep_if P p [] h = tt
All-keep_if P p (x ∷ xs) h = elim (Bool-cases (p x)) [
  | inl e ↦ rw e (h.0, All-keep_if P p xs h.1)
  | inr e ↦ rw e (All-keep_if P p xs h.1)
]

-- The outbox of a target is bounded.
abbrev pub IsBoundedTarget : {B : Type 0} → Target B → Type 0
IsBoundedTarget t = IsBounded t.outbox

-- Every outbox is bounded, and no test waits in the buffer.
unfoldable pub IsOrderly : {B : Type 0} → Dispatcher B → Type 0
IsOrderly d = All IsBoundedTarget d.targets × All (λ e. is_test e ≡ false) d.buffer

module _ {B : Type 0} (β : Backend B) where
  deliver_mine-IsBounded :
      (now : ℕ) (mine : List Event) (t : Target B)
      → IsBoundedTarget t
      → IsBoundedTarget (deliver_mine β now mine t)
  unfolding deliver_mine
  deliver_mine-IsBounded now [] t h = h
  deliver_mine-IsBounded now (e ∷ mine) t h =
      let (subject, body) = render (e ∷ mine) in deliver_to-IsBounded β now subject body t h

  deliver-IsOrderly :
      (now : ℕ) (events : List Event) (d : Dispatcher B)
      → IsOrderly d
      → IsOrderly (deliver β now events d)
  unfolding deliver deliver_target IsOrderly
  deliver-IsOrderly now events d (bounded, no_test) = (
    All-map IsBoundedTarget IsBoundedTarget (deliver_target β d.options.switches now events)
        d.targets
        (λ t.
          deliver_mine-IsBounded now (keep_if (enabled_by d.options.switches t.filter) events) t)
        bounded,
    no_test,
  )

  flush-IsOrderly : (now : ℕ) (d : Dispatcher B) → IsOrderly d → IsOrderly (flush β now d)
  unfolding flush IsOrderly
  flush-IsOrderly now d (bounded, no_test) = elim (Bool-cases (no_buffer d.buffer)) [
    | inl e ↦ rw e (bounded, no_test)
    | inr e ↦ rw e (deliver-IsOrderly now d.buffer (record d { buffer = [] }) (bounded, tt))
  ]

  receive-IsOrderly :
      (now : ℕ) (e : Event) (d : Dispatcher B) → IsOrderly d → IsOrderly (receive β now e d)
  unfolding receive keep_wanted IsOrderly
  receive-IsOrderly now e d (bounded, no_test) =
      let counted = record d { totals = count_event (summary_bucket e) d.totals } in
      elim (Bool-cases (is_wanted e counted)) [
        | inr unwanted ↦ rw unwanted (bounded, no_test)
        | inl wanted ↦ elim (Bool-cases (is_test e)) [
          | inl now_due ↦
              rw (wanted, now_due) (deliver-IsOrderly now (test ∷ []) counted (bounded, no_test))
          | inr later ↦
              rw (wanted, later)
                (bounded, All-append (λ f. is_test f ≡ false) d.buffer (e ∷ []) no_test (later, tt))
        ]
      ]

  retry-IsOrderly : (now : ℕ) (d : Dispatcher B) → IsOrderly d → IsOrderly (retry β now d)
  unfolding retry retry_held IsOrderly
  retry-IsOrderly now d (bounded, no_test) =
      let probed =
        All-map IsBoundedTarget IsBoundedTarget (retry_held β now) d.targets (λ t h. h) bounded in
      (
        All-map IsBoundedTarget IsBoundedTarget (retry_outbox β now)
            (map (retry_held β now) d.targets) (λ t. retry_outbox-IsBounded β now t) probed,
        no_test,
      )

  summarize-IsBounded :
      (global : Switches) (now : ℕ) (body : Text) (t : Target B)
      → IsBoundedTarget t
      → IsBoundedTarget (summarize β global now body t)
  unfolding summarize
  summarize-IsBounded global now body t h = elim (Bool-cases (takes_summary global t)) [
    | inl e ↦ rw e (deliver_to-IsBounded β now (codes "irc2torrent: daily summary") body t h)
    | inr e ↦ rw e h
  ]

new_target-bounded :
    {B : Type 0} (cap now : ℕ) (built : List (Built B))
    → All IsBoundedTarget (map (new_target cap now) built)
unfolding IsBounded new_target
new_target-bounded cap now [] = tt
new_target-bounded cap now (b ∷ built) = ((omega arith, tt), new_target-bounded cap now built)

adopt_targets-bounded :
    {B : Type 0} (changed : List Text) (built targets : List (Target B))
    → All IsBoundedTarget built
    → All IsBoundedTarget targets
    → All IsBoundedTarget (adopt_targets changed built targets)
unfolding adopt_targets
adopt_targets-bounded [] built targets new old = old
adopt_targets-bounded (section ∷ changed) built targets new old =
    let stays : Target _ → Bool = λ t. not (in_sections (section ∷ changed) t.section) in
    All-append IsBoundedTarget (keep_if stays targets) built
      (All-keep_if IsBoundedTarget stays targets old) new

refresh-IsOrderly :
    {B : Type 0} (fresh : NotificationOptions) (now : ℕ) (changed : List Text)
    (built : List (Built B)) (d : Dispatcher B)
    → IsOrderly d
    → IsOrderly (refresh fresh now changed built d)
unfolding refresh IsOrderly
refresh-IsOrderly fresh now changed built d (bounded, no_test) =
    let fresh_targets = map (new_target fresh.max_per_hour now) built in
    let targets = adopt_targets changed fresh_targets d.targets in
    let all_bounded =
      adopt_targets-bounded changed fresh_targets d.targets
        (new_target-bounded fresh.max_per_hour now built) bounded in
    elim (Bool-cases (fresh.max_per_hour == d.options.max_per_hour)) [
      | inl e ↦ rw e (all_bounded, no_test)
      | inr e ↦ rw e (
        All-map IsBoundedTarget IsBoundedTarget (with_cap fresh.max_per_hour) targets (λ t h. h)
            all_bounded,
        no_test,
      )
    ]

module _ {B : Type 0} (β : Backend B) where
  Step-IsOrderly : {d e : Dispatcher B} → Step β d e → IsOrderly d → IsOrderly e
  unfolding send_summary IsOrderly
  Step-IsOrderly (adopted d fresh now changed built) h =
      refresh-IsOrderly fresh now changed built d h
  Step-IsOrderly (event_received d now event) h = receive-IsOrderly β now event d h
  Step-IsOrderly (flushed d now) h = flush-IsOrderly β now d h
  Step-IsOrderly (retried d now) h = retry-IsOrderly β now d h
  Step-IsOrderly (summarized d now wants) (bounded, no_test) = (
    All-map IsBoundedTarget IsBoundedTarget
        (summarize β d.options.switches now (summary_body d.totals)) d.targets
        (summarize-IsBounded β d.options.switches now (summary_body d.totals)) bounded,
    no_test,
  )

  -- Whatever wakes the dispatcher and whatever the backends answer, every outbox keeps at most five
  -- messages, each tried between once and five times so far, and no test notification waits in the
  -- buffer.
  pub Run-IsOrderly : {start d : Dispatcher B} → Run β start d → IsOrderly start → IsOrderly d
  Run-IsOrderly here h = h
  Run-IsOrderly (next run step) h = Step-IsOrderly step (Run-IsOrderly run h)
