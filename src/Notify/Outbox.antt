-- ===== src/Notify/Outbox.antt =====
-- src/notify.rs: one backend with its cap and the messages that it could not take. What a backend
-- does is given by its operations on a state of its own.
pub mod Retries
use irc2torrent.Prelude.{
  ℕ, suc, ◌+◌, Bool, true, false, List, [], ◌∷◌, ◌++◌, Text, codes, Option, none, some, Result, ok,
  err, if◌then◌else◌, ltb, leb, length, drop, decimal,
}
use irc2torrent.Notify.Events.{EventFilter}
use irc2torrent.Notify.Limit.{RateLimit, claim}

-- `deliver` and `retry_pending`, on the backend's state at an instant.
pub record Backend (B : Type 0) : Type 0 where
  pub deliver : ℕ → (subject body : Text) → B → Result Text (Unit {0}) × B
  pub retry_pending : ℕ → B → B

pub record Undelivered : Type 0 where
  pub subject : Text
  pub body : Text
  pub attempts : ℕ

pub record Target (B : Type 0) : Type 0 where
  pub backend : B
  pub filter : EventFilter
  pub limit : RateLimit
  pub outbox : List Undelivered
  pub section : Option Text

abbrev pub max_attempts : ℕ
max_attempts = 6

abbrev pub outbox_depth : ℕ
outbox_depth = 5

unfoldable pub with_suppressed : ℕ → Text → Text
with_suppressed n body =
    if ltb 0 n
    then body
      ++ (10 ∷ 10 ∷ codes "(")
      ++ decimal n
      ++ codes " further notifications were suppressed by max_per_hour.)"
    else body

-- A full outbox loses its oldest message.
unfoldable pub keep_failed : Undelivered → List Undelivered → List Undelivered
keep_failed m outbox =
    (if leb outbox_depth (length outbox) then drop 1 outbox else outbox) ++ (m ∷ [])

-- What stays of a message after another attempt.
unfoldable pub still_held : Undelivered → Result Text (Unit {0}) → List Undelivered
still_held m (ok _) = []
still_held m (err e) =
    if leb max_attempts (m.attempts + 1) then [] else record m { attempts = m.attempts + 1 } ∷ []

module _ {B : Type 0} where
  unfoldable pub delivered : Text → Text → Target B → Result Text (Unit {0}) × B → Target B
  unfolding keep_failed
  delivered subject body t (ok _, b) = record t { backend = b }
  delivered subject body t (err e, b) = record t {
    backend = b;
    outbox = keep_failed (record { subject = subject; body = body; attempts = 1 }) t.outbox;
  }

  unfoldable pub send_claimed : Backend B → ℕ → Text → Text → Target B → Option ℕ → Target B
  unfolding with_suppressed delivered
  send_claimed β now subject body t none = t
  send_claimed β now subject body t (some n) =
      let text = with_suppressed n body in
      delivered subject text t (β.deliver now subject text t.backend)

  unfoldable pub deliver_to : Backend B → ℕ → Text → Text → Target B → Target B
  unfolding send_claimed
  deliver_to β now subject body t =
      let claimed = claim now t.limit in
      send_claimed β now subject body (record t { limit = claimed.1 }) claimed.0

  abbrev pub retry_each : Backend B → ℕ → List Undelivered → B → List Undelivered × B
  retry_each β now [] b = ([], b)
  retry_each β now (m ∷ held) b =
      let attempt = β.deliver now m.subject m.body b in
      let rest = retry_each β now held attempt.1 in (still_held m attempt.0 ++ rest.0, rest.1)

  unfoldable pub retry_outbox : Backend B → ℕ → Target B → Target B
  retry_outbox β now t =
      let retried = retry_each β now t.outbox t.backend in
      record t { outbox = retried.0; backend = retried.1 }

  unfoldable pub retry_held : Backend B → ℕ → Target B → Target B
  retry_held β now t = record t { backend = β.retry_pending now t.backend }

  -- What a tick of the retry timer does to one backend.
  unfoldable pub retry_tick : Backend B → ℕ → Target B → Target B
  unfolding retry_outbox retry_held
  retry_tick β now t = retry_outbox β now (retry_held β now t)
