-- ===== src/Notify/Schedule/Next.antt =====
-- src/notify.rs: the summary is due at the next instant at which the wall clock reads its time.
use irc2torrent.Prelude.{
  ℕ, ◌+◌, ◌-◌, ◌*◌, ◌/◌, ◌%◌, ◌<◌, ◌≤◌, ◌≡◌, refl, arith, inl, inr, Option, none, some,
  if◌then◌else◌, ltb, Bool-cases, lt→ltb, ltb→lt, ap,
}
use irc2torrent.Notify.Schedule.{
  LocalResult, single, wall_clock, local_at, after_now, next_summary_after,
}

after_now-later :
    (from_local_datetime : ℕ → LocalResult) (now later : ℕ) (o : Option ℕ)
    → now < later
    → now < after_now from_local_datetime now o later
after_now-later zone now later none h = h
after_now-later zone now later (some candidate) h = ground (arith, h)

-- Whatever the time zone does, the summary is due strictly later than now.
pub next_summary_after-later :
    (from_local_datetime : ℕ → LocalResult) (hour minute today now : ℕ)
    → now < next_summary_after from_local_datetime (hour, minute) today now
unfolding next_summary_after
next_summary_after-later zone hour minute today now =
    after_now-later zone now _ (local_at zone today hour minute) (
      after_now-later zone now _ (local_at zone (today + 1) hour minute) (
        after_now-later zone now (now + 86400) (local_at zone (today + 2) hour minute)
          (omega arith)))

-- A zone that is always ahead of the instants by the same number of seconds
abbrev pub IsFixed : ℕ → (ℕ → LocalResult) → Type 0
IsFixed ahead from_local_datetime = (naive : ℕ) → from_local_datetime naive ≡ single (naive - ahead)

local_at-fixed :
    (zone : ℕ → LocalResult) (ahead day hour minute : ℕ)
    → IsFixed ahead zone
    → hour < 24
    → minute < 60
    → local_at zone day hour minute ≡ some (wall_clock day hour minute - ahead)
unfolding local_at
local_at-fixed zone ahead day hour minute fixed h m =
    rw (lt→ltb hour 24 h, lt→ltb minute 60 m, fixed (wall_clock day hour minute)) refl

fixed_step :
    (zone : ℕ → LocalResult) (ahead day hour minute now later : ℕ)
    → IsFixed ahead zone
    → hour < 24
    → minute < 60
    → after_now zone now (local_at zone day hour minute) later ≡ (
        if ltb now (wall_clock day hour minute - ahead)
        then wall_clock day hour minute - ahead
        else later)
fixed_step zone ahead day hour minute now later fixed h m =
    ap (λ o. after_now zone now o later) (local_at-fixed zone ahead day hour minute fixed h m)

-- What is asked of an instant at which the summary is due; `t` is any later one that reads the time.
abbrev pub IsDue : ℕ → ℕ → ℕ → ℕ → ℕ → ℕ → Type 0
IsDue ahead hour minute now t due =
    (now < due) × ((due + ahead) % 86400 ≡ hour * 3600 + minute * 60) × (due ≤ t)

-- In a time zone without transitions, where the wall clock is ahead by the same number of seconds at
-- any time: the summary is due later than now and at an instant at which the wall clock reads the
-- configured hour and minute, and no other such instant comes before it.
pub next_summary_after-first :
    (zone : ℕ → LocalResult) (ahead hour minute now t : ℕ)
    → IsFixed ahead zone
    → hour < 24
    → minute < 60
    → now < t
    → (t + ahead) % 86400 ≡ hour * 3600 + minute * 60
    → IsDue ahead hour minute now t
        (next_summary_after zone (hour, minute) ((now + ahead) / 86400) now)
unfolding next_summary_after
next_summary_after-first zone ahead hour minute now t fixed h m later reads =
    let day = (now + ahead) / 86400 in
    let today = wall_clock day hour minute - ahead in
    let tomorrow = wall_clock (day + 1) hour minute - ahead in
    rw (fixed_step zone ahead day hour minute now _ fixed h m) (elim (Bool-cases (ltb now today)) [
      | inl e ↦
          let later_today = ltb→lt now today e in
          rw e (
            later_today,
            omega (arith, later_today, h, m),
            omega (arith, later_today, h, m, later, reads),
          )
      | inr e ↦
          let passed : today ≤ now = ground (arith, e) in
          let due : now < tomorrow = omega arith in
          rw
            (
              e,
              fixed_step zone ahead (day + 1) hour minute now _ fixed h m,
              lt→ltb now tomorrow due,
            )
            (due, omega (arith, due, h, m), omega (arith, passed, due, h, m, later, reads))
    ])
