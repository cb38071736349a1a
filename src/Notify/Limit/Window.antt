-- ===== src/Notify/Limit/Window.antt =====
-- src/notify.rs: what the hourly cap lets through, and what is reported of the rest.
use irc2torrent.Prelude.{
  ℕ, ◌+◌, ◌-◌, min, ◌≤◌, ◌<◌, ◌≡◌, refl, inl, inr, ◌⊎◌, ap, Option, none, some, List, [], ◌∷◌,
  length, ltb, leb, arith, All, Bool-cases,
}
use irc2torrent.Notify.Limit.{
  RateLimit, new, set_cap, roll, spend, allow, claim, claimed, take_suppressed,
}

-- The messages that go out, what they report as suppressed, and the limit after them.
pub record Outcome : Type 0 where
  pub sent : ℕ
  pub reported : ℕ
  pub limit : RateLimit

abbrev pub tallied : Option ℕ → Outcome → Outcome
tallied none o = o
tallied (some n) o = record { sent = 1 + o.sent; reported = n + o.reported; limit = o.limit }

-- Messages at a list of instants.
abbrev pub claims : List ℕ → RateLimit → Outcome
claims [] l = record { sent = 0; reported = 0; limit = l }
claims (now ∷ times) l = tallied (claim now l).0 (claims times (claim now l).1)

-- Something is counted as suppressed only while the hour is used up.
pub IsUsedUp : RateLimit → Type 0
IsUsedUp l = (l.suppressed ≡ 0) ⊎ (l.max_per_hour ≤ l.used)

roll-IsUsedUp : (now : ℕ) (l : RateLimit) → IsUsedUp l → IsUsedUp (roll now l)
unfolding IsUsedUp roll
roll-IsUsedUp now l h = elim (Bool-cases (leb 3600 (now - l.window_started))) [
  | inl e ↦ rw e (inl refl)
  | inr e ↦ rw e h
]

-- Nothing goes out but with nothing to report.
abbrev IsSilent : Option ℕ → Type 0
IsSilent none = Unit
IsSilent (some n) = n ≡ 0

claimed-IsUsedUp :
    (l : RateLimit) → IsUsedUp l → IsUsedUp (claimed (spend l)).1 × IsSilent (claimed (spend l)).0
unfolding IsUsedUp spend claimed take_suppressed
claimed-IsUsedUp l h = elim (Bool-cases (ltb l.used l.max_per_hour)) [
  | inl e ↦ rw e (inl refl, ground arith)
  | inr e ↦ rw e (inr (ground arith), tt)
]

add_silent :
    (o : Option ℕ) (rest : Outcome) → IsSilent o → rest.reported ≡ 0 → (tallied o rest).reported ≡ 0
add_silent none rest h none_reported = none_reported
add_silent (some n) rest h none_reported = omega arith

claims-silent : (times : List ℕ) (l : RateLimit) → IsUsedUp l → (claims times l).reported ≡ 0
unfolding claim allow
claims-silent [] l h = refl
claims-silent (now ∷ times) l h =
    let (kept, silent) = claimed-IsUsedUp (roll now l) (roll-IsUsedUp now l h) in
    add_silent (claimed (spend (roll now l))).0 (claims times (claimed (spend (roll now l))).1)
      silent (claims-silent times (claimed (spend (roll now l))).1 kept)

-- As long as the cap stays what it was at the start, no message ever reports a suppressed one:
-- whatever the instants at which messages come, the numbers reported add up to 0.
pub claims-unreported :
    (times : List ℕ) (cap started : ℕ) → (claims times (new cap started)).reported ≡ 0
unfolding new IsUsedUp
claims-unreported times cap started = claims-silent times (new cap started) (inl refl)

-- Within the hour of its window a limit is not renewed.
roll-kept : (now : ℕ) (l : RateLimit) → now < l.window_started + 3600 → roll now l ≡ l
unfolding roll
roll-kept now l h = ground arith

claimed-step :
    (l : RateLimit)
    → (l.used < l.max_per_hour)
        × (claimed (spend l) ≡ (some l.suppressed, record l { used = l.used + 1; suppressed = 0 }))
      ⊎ (l.max_per_hour ≤ l.used)
        × (claimed (spend l) ≡ (none, record l { suppressed = l.suppressed + 1 }))
unfolding spend claimed take_suppressed
claimed-step l = elim (Bool-cases (ltb l.used l.max_per_hour)) [
  | inl e ↦ inl (ground arith, rw e refl)
  | inr e ↦ inr (ground arith, rw e refl)
]

-- What a run of messages within the window leaves, from what it found.
Balance : ℕ → RateLimit → Outcome → Type 0
Balance n l o =
    (o.sent ≡ min n (l.max_per_hour - l.used))
    × (o.limit.window_started ≡ l.window_started)
    × (o.limit.used ≡ l.used + o.sent)
    × (o.sent + o.reported + o.limit.suppressed ≡ l.suppressed + n)

claims-Balance :
    (times : List ℕ) (l : RateLimit)
    → All (λ t. t < l.window_started + 3600) times
    → Balance (length times) l (claims times l)
unfolding Balance claim allow
claims-Balance [] l h = (omega arith, refl, omega arith, omega arith)
claims-Balance (now ∷ times) l h =
    let same = roll-kept now l h.0 in
    elim (claimed-step l) [
      | inl (room, step) ↦
          let (sent, window, used, total) =
            claims-Balance times (record l { used = l.used + 1; suppressed = 0 }) h.1 in
          rw (same, step)
            (omega (arith, room, sent), window, omega (arith, used), omega (arith, total))
      | inr (full, step) ↦
          let (sent, window, used, total) =
            claims-Balance times (record l { suppressed = l.suppressed + 1 }) h.1 in
          rw (same, step) (omega (arith, full, sent), window, used, omega (arith, total))
    ]

-- Of any messages within the hour after a limit was set up, the first ones go out, as many as the cap
-- allows, and the others are counted: once the cap is raised in that hour, the next message goes out
-- and reports exactly how many those were.
pub claims-hour :
    (times : List ℕ) (cap raised started now : ℕ)
    → All (λ t. t < started + 3600) times
    → now < started + 3600
    → cap < raised
    → ((claims times (new cap started)).sent ≡ min (length times) cap)
      × ((claim now (set_cap raised (claims times (new cap started)).limit)).0
          ≡ some (length times - cap))
unfolding new set_cap claim allow Balance
claims-hour times cap raised started now h later more =
    let silent = claims-unreported times cap started in
    let (sent, window, used, total) = claims-Balance times (new cap started) h in
    let after = set_cap raised (claims times (new cap started)).limit in
    (
      omega (arith, sent),
      rw (roll-kept now after (omega (arith, window, later))) (elim (claimed-step after) [
        | inl (room, step) ↦ rw step (ap some (omega (arith, total, silent, sent)))
        | inr (full, step) ↦ absurd (omega (arith, full, used, sent, more))
      ]),
    )
