-- ===== src/Notify/Hold/Copies.antt =====
-- src/notify.rs: what the retries of the outbox add to what the IRC backend holds.
use irc2torrent.Prelude.{
  ℕ, ◌+◌, ◌-◌, min, ◌≤◌, ◌<◌, ◌≡◌, ◌≢◌, ◌⊎◌, refl, subst, inl, inr, ap, sym, ◌∙◌, false, Option,
  none, some, List, [], ◌∷◌, ◌++◌, Text, length, length-append, leb, ◌==◌, ==_iff, if◌then◌else◌,
  arith, Bool-cases, err, All, All-append,
}
use irc2torrent.Irc.Outbound.{Outbound}
use irc2torrent.Notify.Limit.{claim}
use irc2torrent.Notify.Outbox.{
  send_claimed, deliver_to, delivered, keep_failed, with_suppressed, Undelivered, Target,
  still_held, retry_outbox, retry_held, retry_tick,
}
use irc2torrent.Notify.Outbox.Retries.{retries}
use irc2torrent.Notify.Hold.{Held, IrcBackend, hold, irc_backend, retry_pending, retry_link}
use irc2torrent.Notify.Hold.Flush.{IsAway, deliver-away, hold-link}

-- A held message with this text.
abbrev pub IsCopy : Text → Text → Held → Type 0
IsCopy subject body h = (h.subject ≡ subject) × (h.body ≡ body)

-- There are n held messages, all with this text.
abbrev pub HasCopies : ℕ → Text → Text → IrcBackend → Type 0
HasCopies n subject body s = (length s.pending ≡ n) × All (IsCopy subject body) s.pending

hold-HasCopies :
    (n now : ℕ) (subject body : Text) (s : IrcBackend)
    → n < 20
    → s.hold_for ≢ 0
    → HasCopies n subject body s
    → HasCopies (n + 1) subject body (hold now subject body s)
unfolding hold
hold-HasCopies n now subject body s few window h =
    let added : List Held = record { at = now; subject = subject; body = body } ∷ [] in
    let one_more : length (s.pending ++ added) ≡ n + 1 =
      omega (arith, length-append s.pending added, h.0) in
    let none_dropped : length (s.pending ++ added) - 20 ≡ 0 = omega arith in
    let all_kept = All-append (IsCopy subject body) s.pending added h.1 ((refl, refl), tt) in
    elim (Bool-cases (s.hold_for == 0)) [
      | inl e ↦ absurd (window ((==_iff s.hold_for 0).0 e))
      | inr e ↦ rw (e, none_dropped) (one_more, all_kept)
    ]

abbrev tried : Text → Text → ℕ → Undelivered
tried subject body n = record { subject = subject; body = body; attempts = n }

-- The message alone in the outbox after n attempts, unless those were its last.
abbrev left : Text → Text → ℕ → List Undelivered
left subject body n = if leb 6 n then [] else tried subject body n ∷ []

-- The owner is away, the message was tried n times, and as many copies of it are held.
abbrev IsWaiting : ℕ → Text → Text → Target IrcBackend → Type 0
IsWaiting n subject body t =
    (t.outbox ≡ left subject body n)
    × IsAway t.backend
    × (t.backend.hold_for ≢ 0)
    × HasCopies n subject body t.backend

hold-IsAway :
    (now : ℕ) (subject body : Text) (s : IrcBackend) → IsAway s → IsAway (hold now subject body s)
hold-IsAway now subject body s h =
    let (link, _) = hold-link now subject body s in
    subst (λ l. (l.sender ≡ none) ⊎ (l.owner_online ≡ false)) (sym link) h

retry_link-away :
    (link : Option Outbound) (now : ℕ) (s : IrcBackend)
    → (link ≡ none) ⊎ (s.link.owner_online ≡ false)
    → retry_link link now s ≡ s
unfolding retry_link
retry_link-away none now s h = refl
retry_link-away (some o) now s (inl h) = absurd cc
retry_link-away (some o) now s (inr h) = rw h refl

retry_pending-away : (now : ℕ) (s : IrcBackend) → IsAway s → retry_pending now s ≡ s
unfolding retry_pending
retry_pending-away now s h = retry_link-away s.link.sender now s h

still_held-left :
    (subject body reason : Text) (n : ℕ)
    → still_held (tried subject body n) (err reason) ++ [] ≡ left subject body (n + 1)
unfolding still_held
still_held-left subject body reason n = elim (Bool-cases (leb 6 (n + 1))) [
  | inl e ↦ rw e refl
  | inr e ↦ rw e refl
]

short : (n : ℕ) → n < 6 → leb 6 n ≡ false
short n h = ground arith

retry_tick-IsWaiting :
    (n now : ℕ) (subject body : Text) (t : Target IrcBackend)
    → n < 6
    → IsWaiting n subject body t
    → IsWaiting (n + 1) subject body (retry_tick irc_backend now t)
unfolding retry_tick retry_held retry_outbox irc_backend
retry_tick-IsWaiting n now subject body t more (alone, away, window, copies) =
    let same = retry_pending-away now t.backend away in
    let one : t.outbox ≡ tried subject body n ∷ [] =
      alone ∙ ap (λ b. if b then [] else tried subject body n ∷ []) (short n more) in
    let ((reason, failed), held) = deliver-away now subject body t.backend away in
    let (link, for) = hold-link now subject body t.backend in
    rw (same, one, failed, held)
      (
        still_held-left subject body reason n,
        hold-IsAway now subject body t.backend away,
        (λ none_held. window (sym for ∙ none_held)),
        hold-HasCopies n now subject body t.backend (omega arith) window copies,
      )

-- Nothing more is tried once the outbox is empty.
retries-done :
    (times : List ℕ) (t : Target IrcBackend)
    → t.outbox ≡ []
    → IsAway t.backend
    → (retries irc_backend times t).backend ≡ t.backend
unfolding retry_tick retry_held retry_outbox irc_backend
retries-done [] t empty away = refl
retries-done (now ∷ times) t empty away =
    let same = retry_pending-away now t.backend away in
    let next = retry_tick irc_backend now t in
    let kept : next.backend ≡ t.backend = rw (empty, same) refl in
    let still_empty : next.outbox ≡ [] = rw empty refl in
    retries-done times next still_empty (subst IsAway (sym kept) away) ∙ kept

retries-HasCopies :
    (n : ℕ) (times : List ℕ) (subject body : Text) (t : Target IrcBackend)
    → n ≤ 6
    → IsWaiting n subject body t
    → HasCopies (min 6 (n + length times)) subject body (retries irc_backend times t).backend
retries-HasCopies n [] subject body t le (_, _, _, copies) = (omega (arith, copies.0), copies.1)
retries-HasCopies n (now ∷ times) subject body t le h = elim (Bool-cases (leb 6 n)) [
  | inl e ↦
      let (alone, away, _, copies) = h in
      let empty = alone ∙ ap (λ b. if b then [] else tried subject body n ∷ []) e in
      let kept = retries-done (now ∷ times) t empty away in
      rw kept (ground (arith, copies.0), copies.1)
  | inr e ↦
      let next = retry_tick irc_backend now t in
      let (count, copies) =
        retries-HasCopies (n + 1) times subject body next (ground arith)
          (retry_tick-IsWaiting n now subject body t (ground arith) h) in
      (omega (arith, count), copies)
]

send_claimed-IsWaiting :
    (now : ℕ) (subject body : Text) (t : Target IrcBackend)
    → t.outbox ≡ []
    → IsAway t.backend
    → t.backend.hold_for ≢ 0
    → t.backend.pending ≡ []
    → IsWaiting 1 subject body (send_claimed irc_backend now subject body t (some 0))
unfolding send_claimed irc_backend delivered keep_failed with_suppressed
send_claimed-IsWaiting now subject body t empty away window none_held =
    let ((reason, failed), held) = deliver-away now subject body t.backend away in
    let (link, for) = hold-link now subject body t.backend in
    let copies : HasCopies 0 subject body t.backend = rw none_held (refl, tt) in
    rw (failed, held, empty)
      (
        refl,
        hold-IsAway now subject body t.backend away,
        (λ none_held. window (sym for ∙ none_held)),
        hold-HasCopies 0 now subject body t.backend (omega arith) window copies,
      )

-- One message that the hourly cap lets through with nothing suppressed before it, sent while the owner
-- is away and with nothing else waiting, is, when the time to hold is not zero, held once, and once
-- more at each of the next five ticks of the retry timer, for the failure also puts it into the
-- outbox: all that is held are copies of it, up to six of them.
pub deliver_to-HasCopies :
    (now : ℕ) (times : List ℕ) (subject body : Text) (t : Target IrcBackend)
    → t.outbox ≡ []
    → IsAway t.backend
    → t.backend.hold_for ≢ 0
    → t.backend.pending ≡ []
    → (claim now t.limit).0 ≡ some 0
    → HasCopies
        (min 6 (1 + length times))
        subject
        body
        (retries irc_backend times (deliver_to irc_backend now subject body t)).backend
unfolding deliver_to
deliver_to-HasCopies now times subject body t empty away window none_held allowed =
    let claimed = record t { limit = (claim now t.limit).1 } in
    let waiting = send_claimed-IsWaiting now subject body claimed empty away window none_held in
    rw allowed (
      retries-HasCopies 1 times subject body
        (send_claimed irc_backend now subject body claimed (some 0)) (omega arith) waiting)
