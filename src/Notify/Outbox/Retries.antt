-- ===== src/Notify/Outbox/Retries.antt =====
-- src/notify.rs: what becomes of the messages that a backend could not take.
use irc2torrent.Prelude.{
  ℕ, zero, suc, ◌+◌, ◌≤◌, ◌≡◌, refl, inl, inr, Option, none, some, List, [], ◌∷◌, Result, ok, err,
  Text, length, drop, length-append, length-drop, leb, arith, All, All-append, Bool-cases,
}
use irc2torrent.Notify.Limit.{claim}
use irc2torrent.Notify.Outbox.{
  Backend, Undelivered, Target, keep_failed, delivered, send_claimed, deliver_to, still_held,
  retry_each, retry_outbox, retry_held, retry_tick, with_suppressed,
}

-- Each message was tried at least once and may be tried again.
abbrev pub IsTried : ℕ → Undelivered → Type 0
IsTried n m = (n ≤ m.attempts) × (m.attempts ≤ 5)

-- At most five messages wait, each tried between once and five times.
unfoldable pub IsBounded : List Undelivered → Type 0
IsBounded outbox = (length outbox ≤ 5) × All (IsTried 1) outbox

All-drop : (n : ℕ) (P : Undelivered → Type 0) (ms : List Undelivered) → All P ms → All P (drop n ms)
All-drop zero P ms h = h
All-drop (suc n) P [] h = h
All-drop (suc n) P (m ∷ ms) h = All-drop n P ms h.1

keep_failed-IsBounded :
    (m : Undelivered) (outbox : List Undelivered)
    → IsTried 1 m
    → IsBounded outbox
    → IsBounded (keep_failed m outbox)
unfolding IsBounded keep_failed
keep_failed-IsBounded m outbox tried h = elim (Bool-cases (leb 5 (length outbox))) [
  | inl e ↦ rw e (
    omega (arith, length-append (drop 1 outbox) (m ∷ []), length-drop 1 outbox, h.0),
    All-append (IsTried 1) (drop 1 outbox) (m ∷ []) (All-drop 1 (IsTried 1) outbox h.1) (tried, tt),
  )
  | inr e ↦ rw e (
    ground (arith, length-append outbox (m ∷ [])),
    All-append (IsTried 1) outbox (m ∷ []) h.1 (tried, tt),
  )
]

still_held-IsTried :
    (n : ℕ) (m : Undelivered) (r : Result Text (Unit {0}))
    → IsTried n m
    → All (IsTried (suc n)) (still_held m r) × (length (still_held m r) ≤ 1)
unfolding still_held
still_held-IsTried n m (ok _) h = (tt, omega arith)
still_held-IsTried n m (err e) h = elim (Bool-cases (leb 6 (m.attempts + 1))) [
  | inl last ↦ rw last (tt, omega arith)
  | inr again ↦ rw again (((omega (arith, h.0), ground arith), tt), omega arith)
]

once-IsTried : (ms : List Undelivered) → All (IsTried 2) ms → All (IsTried 1) ms
once-IsTried [] h = tt
once-IsTried (m ∷ ms) h = ((omega (arith, h.0.0), h.0.1), once-IsTried ms h.1)

no_IsTried : (n : ℕ) (ms : List Undelivered) → 6 ≤ n → All (IsTried n) ms → ms ≡ []
no_IsTried n [] le h = refl
no_IsTried n (m ∷ ms) le h = absurd (omega (arith, h.0.0, h.0.1))

module _ {B : Type 0} (β : Backend B) where
  delivered-IsBounded :
      (subject body : Text) (t : Target B) (r : Result Text (Unit {0}) × B)
      → IsBounded t.outbox
      → IsBounded (delivered subject body t r).outbox
  unfolding delivered
  delivered-IsBounded subject body t (ok _, b) h = h
  delivered-IsBounded subject body t (err e, b) h =
      keep_failed-IsBounded (record { subject = subject; body = body; attempts = 1 }) t.outbox
        (omega arith, omega arith) h

  send_claimed-IsBounded :
      (now : ℕ) (subject body : Text) (t : Target B) (o : Option ℕ)
      → IsBounded t.outbox
      → IsBounded (send_claimed β now subject body t o).outbox
  unfolding send_claimed
  send_claimed-IsBounded now subject body t none h = h
  send_claimed-IsBounded now subject body t (some n) h =
      let text = with_suppressed n body in
      delivered-IsBounded subject text t (β.deliver now subject text t.backend) h

  retry_each-IsTried :
      (n now : ℕ) (held : List Undelivered) (b : B)
      → All (IsTried n) held
      → All (IsTried (suc n)) (retry_each β now held b).0
        × (length (retry_each β now held b).0 ≤ length held)
  retry_each-IsTried n now [] b h = (tt, omega arith)
  retry_each-IsTried n now (m ∷ held) b h =
      let attempt = β.deliver now m.subject m.body b in
      let (kept, one) = still_held-IsTried n m attempt.0 h.0 in
      let (rest, few) = retry_each-IsTried n now held attempt.1 h.1 in
      let later = (retry_each β now held attempt.1).0 in
      (
        All-append (IsTried (suc n)) (still_held m attempt.0) later kept rest,
        omega (arith, length-append (still_held m attempt.0) later, one, few),
      )

  pub retry_outbox-IsBounded :
      (now : ℕ) (t : Target B) → IsBounded t.outbox → IsBounded (retry_outbox β now t).outbox
  unfolding retry_outbox IsBounded
  retry_outbox-IsBounded now t h =
      let (older, fewer) = retry_each-IsTried 1 now t.outbox t.backend h.1 in
      (omega (arith, fewer, h.0), once-IsTried (retry_each β now t.outbox t.backend).0 older)

  pub deliver_to-IsBounded :
      (now : ℕ) (subject body : Text) (t : Target B)
      → IsBounded t.outbox
      → IsBounded (deliver_to β now subject body t).outbox
  unfolding deliver_to
  deliver_to-IsBounded now subject body t h =
      let claimed = claim now t.limit in
      send_claimed-IsBounded now subject body (record t { limit = claimed.1 }) claimed.0 h

  -- The ticks of the retry timer at a list of instants, with nothing new to send.
  abbrev pub retries : List ℕ → Target B → Target B
  retries [] t = t
  retries (now ∷ times) t = retries times (retry_tick β now t)

  retries-drained :
      (n : ℕ) (times : List ℕ) (t : Target B)
      → All (IsTried n) t.outbox
      → 6 ≤ n + length times
      → (retries times t).outbox ≡ []
  unfolding retry_tick retry_held retry_outbox
  retries-drained n [] t h enough = no_IsTried n t.outbox (omega arith) h
  retries-drained n (now ∷ times) t h enough =
      let (older, fewer) = retry_each-IsTried n now t.outbox (β.retry_pending now t.backend) h in
      retries-drained (suc n) times (retry_tick β now t) older (omega arith)

  -- Five ticks of the retry timer with nothing new to send empty an outbox, whatever the backend answers: no message is kept for
  -- ever.
  pub retries-empty :
      (times : List ℕ) (t : Target B)
      → IsBounded t.outbox
      → 5 ≤ length times
      → (retries times t).outbox ≡ []
  unfolding IsBounded
  retries-empty times t h enough = retries-drained 1 times t h.1 (omega arith)
