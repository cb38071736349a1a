-- ===== src/Irc/Outbound/Burst.antt =====
-- src/irc_processor.rs: how many messages the pacer lets out in one window.
use irc2torrent.Prelude.{
  ℕ, ◌+◌, ◌-◌, ◌≤◌, ◌<◌, ◌≡◌, refl, inl, inr, ◌&&◌, List, [], ◌∷◌, ◌++◌, Option, none, some,
  if◌then◌else◌, ltb, ltb→lt, leb, length, length-append, arith, All, All-append, suc, Bool-cases,
}
use irc2torrent.Irc.Outbound.{
  FloodLimit, Turn, Paced, discards, forget, wait_slot, after_wait, pace, sent_then, pace_run,
}

-- The number of instants from `a` on, before `a + window`.
abbrev pub count_in : ℕ → ℕ → List ℕ → ℕ
count_in a window [] = 0
count_in a window (t ∷ ts) = (if leb a t && ltb t (a + window) then 1 else 0) + count_in a window ts

count_in-length : (a window : ℕ) (ts : List ℕ) → count_in a window ts ≤ length ts
count_in-length a window [] = omega arith
count_in-length a window (t ∷ ts) = ground (arith, count_in-length a window ts)

count_in-append :
    (a window : ℕ) (ts us : List ℕ)
    → count_in a window (ts ++ us) ≡ count_in a window ts + count_in a window us
count_in-append a window [] us = omega arith
count_in-append a window (t ∷ ts) us = omega (arith, count_in-append a window ts us)

-- A turn's limit lets at most `most` messages out, and is measured over `window` at least.
abbrev pub IsWithin : ℕ → ℕ → Turn → Type 0
IsWithin most window turn = (turn.limit.max_in_burst ≤ most) × (window ≤ turn.limit.window)

-- What a window still sees of the history stands in `recent`, at the clock `c`.
abbrev IsTracked : ℕ → ℕ → ℕ → ℕ → ℕ → List ℕ → Type 0
IsTracked most window a sent clock recent =
    (length recent ≤ most)
    × All (λ t. t ≤ clock) recent
    × (clock < a + window → sent ≤ count_in a window recent)

All-later : (c d : ℕ) (ts : List ℕ) → c ≤ d → All (λ t. t ≤ c) ts → All (λ t. t ≤ d) ts
All-later c d [] le h = tt
All-later c d (t ∷ ts) le h = (omega (arith, le, h.0), All-later c d ts le h.1)

forget-All :
    (window now c : ℕ) (ts : List ℕ) → All (λ t. t ≤ c) ts → All (λ t. t ≤ c) (forget window now ts)
forget-All window now c [] h = tt
forget-All window now c (t ∷ ts) h = elim (Bool-cases (leb window (now - t))) [
  | inl e ↦ rw e (forget-All window now c ts h.1)
  | inr e ↦ rw e h
]

forget-length : (window now : ℕ) (ts : List ℕ) → length (forget window now ts) ≤ length ts
forget-length window now [] = omega arith
forget-length window now (t ∷ ts) = ground (arith, forget-length window now ts)

forget-count :
    (a window longer now : ℕ) (ts : List ℕ)
    → window ≤ longer
    → now < a + window
    → count_in a window (forget longer now ts) ≡ count_in a window ts
forget-count a window longer now [] le h = refl
forget-count a window longer now (t ∷ ts) le h =
    ground (arith, forget-count a window longer now ts le h)

module _ (most window a : ℕ) where
  -- After the wait there is room for one more.
  wait_slot-room :
      (limit : FloodLimit) (sent now late : ℕ) (recent : List ℕ)
      → 1 ≤ most
      → limit.max_in_burst ≤ most
      → window ≤ limit.window
      → IsTracked most window a sent now recent
      → (length (wait_slot limit now recent).1 + 1 ≤ most)
        × IsTracked most window a sent
            (now + (wait_slot limit now recent).0 + late)
            (wait_slot limit now recent).1
  unfolding wait_slot
  wait_slot-room limit sent now late [] pos few long tracked =
      elim (Bool-cases (leb limit.max_in_burst 0)) [
        | inl e ↦ rw e (pos, (omega arith, tt, λ less. tracked.2 (omega arith)))
        | inr e ↦ rw e (pos, (omega arith, tt, λ less. tracked.2 (omega arith)))
      ]
  wait_slot-room limit sent now late (oldest ∷ recent) pos few long tracked =
      elim (Bool-cases (leb limit.max_in_burst (suc (length recent)))) [
        | inl e ↦
            let later =
              All-later now (now + (limit.window - (now - oldest)) + late) recent (omega arith)
                tracked.1.1 in
            rw e (
              omega (arith, tracked.0),
              (omega (arith, tracked.0), later, λ less. ground (arith, tracked.2 (omega arith))),
            )
        | inr e ↦
            let later = All-later now (now + 0 + late) (oldest ∷ recent) (omega arith) tracked.1 in
            rw e (ground arith, (ground arith, later, λ less. tracked.2 (omega arith)))
      ]

  -- The instants that one turn sends.
  abbrev sent_in : Paced → ℕ
  sent_in paced = count_in a window (sent_then paced.sent [])

  after_wait-IsTracked :
      (sent now wait : ℕ) (turn : Turn) (recent : List ℕ)
      → sent ≤ most
      → length recent + 1 ≤ most
      → IsTracked most window a sent (now + wait + turn.late) recent
      → (sent + sent_in (after_wait turn now (wait, recent)) ≤ most)
        × IsTracked most window a
            (sent + sent_in (after_wait turn now (wait, recent)))
            (after_wait turn now (wait, recent)).clock
            (after_wait turn now (wait, recent)).recent
  unfolding after_wait
  after_wait-IsTracked sent now wait turn recent few room tracked =
      elim (Bool-cases (discards turn.message turn.epoch_after)) [
        | inl e ↦
            rw e (omega (arith, few), (tracked.0, tracked.1, λ less. omega (arith, tracked.2 less)))
        | inr e ↦
            let clock = now + wait + turn.late in
            let more = length-append recent (clock ∷ []) in
            let counted = count_in-append a window recent (clock ∷ []) in
            let bounded =
              All-append (λ t. t ≤ clock) recent (clock ∷ []) tracked.1 (omega arith, tt) in
            let total = count_in-length a window recent in
            let fits : sent + count_in a window (clock ∷ []) ≤ most =
              elim (Bool-cases (ltb clock (a + window))) [
                | inl less ↦
                    let few_recent = tracked.2 (ltb→lt clock (a + window) less) in
                    ground (arith, few_recent, total, room)
                | inr past ↦ ground (arith, few)
              ] in
            rw e (
              fits,
              (omega (arith, more, room), bounded, λ less. omega (arith, counted, tracked.2 less)),
            )
      ]

  -- One turn keeps the account of what a window has let out.
  pace-IsTracked :
      (sent clock : ℕ) (turn : Turn) (recent : List ℕ)
      → 1 ≤ most
      → IsWithin most window turn
      → sent ≤ most
      → IsTracked most window a sent clock recent
      → (sent + sent_in (pace turn recent clock) ≤ most)
        × IsTracked most window a
            (sent + sent_in (pace turn recent clock))
            (pace turn recent clock).clock
            (pace turn recent clock).recent
  unfolding pace
  pace-IsTracked sent clock turn recent pos (small, long) few tracked =
      let now = clock + turn.gap in
      let longer = turn.limit.window in
      let forgot = forget longer now recent in
      let kept_few = forget-length longer now recent in
      let early =
        forget-All longer now now recent (All-later clock now recent (omega arith) tracked.1) in
      let tracked_now : IsTracked most window a sent now forgot = (
        omega (arith, kept_few, tracked.0),
        early,
        λ less.
            omega
              (arith, forget-count a window longer now recent long less, tracked.2 (omega arith)),
      ) in
      elim (Bool-cases (discards turn.message turn.epoch_before)) [
        | inl e ↦ rw e (
          omega (arith, few),
          (
            tracked.0,
            All-later clock now recent (omega arith) tracked.1,
            λ less. omega (arith, tracked.2 (omega arith)),
          ),
        )
        | inr e ↦
            let (room, ready) =
              wait_slot-room turn.limit sent now turn.late forgot pos small long tracked_now in
            let slot = wait_slot turn.limit now forgot in
            rw e (after_wait-IsTracked sent now slot.0 turn slot.1 few room ready)
      ]

  count-sent_then :
      (o : Option ℕ) (rest : List ℕ)
      → count_in a window (sent_then o rest)
        ≡ count_in a window (sent_then o []) + count_in a window rest
  count-sent_then none rest = omega arith
  count-sent_then (some t) rest = omega arith

  pace_run-few :
      (turns : List Turn) (sent clock : ℕ) (recent : List ℕ)
      → 1 ≤ most
      → All (IsWithin most window) turns
      → sent ≤ most
      → IsTracked most window a sent clock recent
      → sent + count_in a window (pace_run turns recent clock) ≤ most
  pace_run-few [] sent clock recent pos within few tracked = omega arith
  pace_run-few (turn ∷ turns) sent clock recent pos (here, later) few tracked =
      let paced = pace turn recent clock in
      let (few_then, tracked_then) = pace-IsTracked sent clock turn recent pos here few tracked in
      let rest =
        pace_run-few turns (sent + sent_in paced) paced.clock paced.recent pos later few_then
          tracked_then in
      omega (arith, rest, count-sent_then paced.sent (pace_run turns paced.recent paced.clock))

-- Let the limit that the pacer reads for each message change as it may between messages, with a burst of
-- at most `most`, itself not zero, and over a window of at least `window`. Then whatever is queued,
-- however the sleeps overrun and whatever is cancelled meanwhile, at most `most` messages leave in any
-- stretch of the length of `window`.
pub pace_run-burst :
    (most window : ℕ) (turns : List Turn) (start a : ℕ)
    → 1 ≤ most
    → All (IsWithin most window) turns
    → count_in a window (pace_run turns [] start) ≤ most
pace_run-burst most window turns start a pos within = omega (
  arith,
  pace_run-few most window a turns 0 start [] pos within (omega arith)
      (omega arith, tt, λ less. omega arith),
)
