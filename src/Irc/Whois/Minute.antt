-- ===== src/Irc/Whois/Minute.antt =====
-- src/irc_processor.rs: how many identity checks the shared budget grants.
use irc2torrent.Prelude.{
  ℕ, ◌+◌, ◌≤◌, ◌<◌, ◌≡◌, refl, inl, inr, ◌⊎◌, ◌-◌, List, [], ◌∷◌, if◌then◌else◌, leb, arith, All,
  Bool-cases,
}
use irc2torrent.Irc.Whois.{WhoisBudget, renew, spend, take_check}

-- The number of checks granted at a list of instants, and the budget after them.
abbrev pub grants : List ℕ → WhoisBudget → ℕ × WhoisBudget
grants [] b = (0, b)
grants (now ∷ times) b =
    let taken = take_check now b in
    let rest = grants times taken.1 in ((if taken.0 then 1 else 0) + rest.0, rest.1)

-- At most ten are charged to the window that is open.
abbrev pub IsWithin : WhoisBudget → Type 0
IsWithin b = b.used ≤ 10

spend-charge :
    (b : WhoisBudget)
    → IsWithin b
    → ((spend b).1.window_started ≡ b.window_started)
      × ((spend b).1.used ≡ (if (spend b).0 then 1 else 0) + b.used)
      × IsWithin (spend b).1
unfolding spend
spend-charge b h = elim (Bool-cases (leb 10 b.used)) [
  | inl e ↦ rw e (refl, omega arith, h)
  | inr e ↦ rw e (refl, omega arith, ground arith)
]

renew-kept : (a t : ℕ) (b : WhoisBudget) → a ≤ b.window_started → t < a + 60 → renew t b ≡ b
unfolding renew
renew-kept a t b le h = ground arith

-- A renewal opens a window at the instant itself, with nothing charged to it.
renew-cases :
    (t : ℕ) (b : WhoisBudget)
    → (renew t b ≡ b) ⊎ ((renew t b).window_started ≡ t) × ((renew t b).used ≡ 0)
unfolding renew
renew-cases t b = elim (Bool-cases (leb 60 (t - b.window_started))) [
  | inl e ↦ inr (rw e (refl, refl))
  | inr e ↦ inl (rw e refl)
]

grants-open :
    (a : ℕ) (times : List ℕ) (b : WhoisBudget)
    → IsWithin b
    → a ≤ b.window_started
    → All (λ t. (a ≤ t) × (t < a + 60)) times
    → (grants times b).0 + b.used ≤ 10
unfolding take_check
grants-open a [] b w le h = omega arith
grants-open a (t ∷ times) b w le h =
    let same = renew-kept a t b le h.0.1 in
    let (window, charge, within) = spend-charge b w in
    let rest = grants-open a times (spend b).1 within (omega (arith, window, le)) h.1 in
    rw same (omega (arith, charge, rest))

-- However many identity checks are asked for at instants of one minute, at most twenty are granted:
-- ten in the window that is open when they begin, and ten in the one that a renewal opens.
pub grants-minute :
    (a : ℕ) (times : List ℕ) (b : WhoisBudget)
    → IsWithin b
    → All (λ t. (a ≤ t) × (t < a + 60)) times
    → (grants times b).0 + b.used ≤ 20
unfolding take_check
grants-minute a [] b w h = omega arith
grants-minute a (t ∷ times) b w h = elim (renew-cases t b) [
  | inl same ↦
      let (window, charge, within) = spend-charge b w in
      let rest = grants-minute a times (spend b).1 within h.1 in
      rw same (omega (arith, charge, rest))
  | inr (opened, clean) ↦
      let (window, charge, within) = spend-charge (renew t b) (omega (arith, clean)) in
      let rest =
        grants-open a times (spend (renew t b)).1 within (omega (arith, window, opened, h.0.0))
          h.1 in
      omega (arith, charge, rest, clean, w)
]
