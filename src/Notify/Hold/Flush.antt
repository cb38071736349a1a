-- ===== src/Notify/Hold/Flush.antt =====
-- src/notify.rs: what the IRC backend holds, and what it sends when the owner is back.
use irc2torrent.Prelude.{
  map-append, ℕ, ◌-◌, ◌≤◌, ◌≡◌, ◌≢◌, ◌⊎◌, refl, inl, inr, ap, sym, ◌∙◌, true, false, Option, none,
  some, List, [], ◌∷◌, ◌++◌, map, append_assoc, append-nil, Text, length, length-drop, ◌==◌, arith,
  Bool-cases, Result, ok, err,
}
use irc2torrent.Irc.Outbound.{
  Outbound, Outgoing, sanitize_for_irc, send_uninterruptible, queue, stamped, add_pending,
}
use irc2torrent.Notify.Hold.{
  Held, IrcBackend, sent_lines, send_lines, write, write_all, hold, fresh, deliver, deliver_link,
  deliver_online, set_sender,
}

-- The lines of the messages, one after another.
abbrev pub lines_of : List Held → List Text
lines_of [] = []
lines_of (h ∷ held) = sent_lines h.subject h.body ++ lines_of held

-- A line as it stands in the outbound queue, where no `stop!` cancels it.
abbrev pub outgoing : Outbound → Text → Text → Outgoing
outgoing o nick l = record {
  target = nick;
  text = sanitize_for_irc l;
  epoch = o.epoch;
  cancellable = false;
}

-- Lines added to a queue whose pacer is alive.
abbrev pub queued_lines : Text → List Text → Outbound → Outbound
queued_lines nick lines o = record o { queued = o.queued ++ map (outgoing o nick) lines }

send_one :
    (nick l : Text) (o : Outbound)
    → o.alive ≡ true
    → send_uninterruptible nick (sanitize_for_irc l) o ≡ queued_lines nick (l ∷ []) o
unfolding send_uninterruptible queue stamped add_pending
send_one nick l o h = rw h refl

send_lines-queued :
    (nick : Text) (lines : List Text) (o : Outbound)
    → o.alive ≡ true
    → send_lines nick lines o ≡ queued_lines nick lines o
send_lines-queued nick [] o h = ap (λ q. record o { queued = q }) (sym (append-nil o.queued))
send_lines-queued nick (l ∷ lines) o h =
    ap (send_lines nick lines) (send_one nick l o h)
    ∙ send_lines-queued nick lines (queued_lines nick (l ∷ []) o) h
    ∙ ap (λ q. record o { queued = q })
        (append_assoc o.queued (outgoing o nick l ∷ []) (map (outgoing o nick) lines))

queued_lines-append :
    (nick : Text) (first second : List Text) (o : Outbound)
    → queued_lines nick second (queued_lines nick first o) ≡ queued_lines nick (first ++ second) o
queued_lines-append nick first second o =
    let f = outgoing o nick in
    ap (λ q. record o { queued = q })
      (append_assoc o.queued (map f first) (map f second)
        ∙ ap (λ q. o.queued ++ q) (sym (map-append f first second)))

write_all-queued :
    (nick : Text) (held : List Held) (o : Outbound)
    → o.alive ≡ true
    → write_all nick held o ≡ queued_lines nick (lines_of held) o
unfolding write
write_all-queued nick [] o alive = ap (λ q. record o { queued = q }) (sym (append-nil o.queued))
write_all-queued nick (h ∷ held) o alive =
    let lines = sent_lines h.subject h.body in
    ap (write_all nick held) (send_lines-queued nick lines o alive)
    ∙ write_all-queued nick held (queued_lines nick lines o) alive
    ∙ queued_lines-append nick lines (lines_of held) o

-- With the owner online and the pacer alive, a delivery queues the lines of every held message that
-- is not too old, in the order in which they were held, and then its own, none of them cancellable;
-- nothing is held after it.
pub deliver-online :
    (now : ℕ) (subject body : Text) (s : IrcBackend) (o : Outbound)
    → s.link.sender ≡ some o
    → s.link.owner_online ≡ true
    → o.alive ≡ true
    → ((deliver now subject body s).0 ≡ ok tt)
      × ((deliver now subject body s).1.pending ≡ [])
      × ((deliver now subject body s).1.link.sender
          ≡ some (queued_lines s.nick (lines_of (fresh now s) ++ sent_lines subject body) o))
unfolding deliver deliver_link deliver_online set_sender write
deliver-online now subject body s o sender online alive =
    let held = fresh now s in
    let lines = sent_lines subject body in
    let queued =
      ap (send_lines s.nick lines) (write_all-queued s.nick held o alive)
      ∙ send_lines-queued s.nick lines (queued_lines s.nick (lines_of held) o) alive
      ∙ queued_lines-append s.nick (lines_of held) lines o in
    rw (sender, online) (refl, refl, ap some queued)

-- The messages that are sent later are no older than `hold_for`, and no more than 20 wait.
hold-length :
    (now : ℕ) (subject body : Text) (s : IrcBackend)
    → length s.pending ≤ 20
    → length (hold now subject body s).pending ≤ 20
unfolding hold
hold-length now subject body s h = elim (Bool-cases (s.hold_for == 0)) [
  | inl e ↦ rw e h
  | inr e ↦
      let added : List Held = record { at = now; subject = subject; body = body } ∷ [] in
      rw e (omega (arith, length-drop (length (s.pending ++ added) - 20) (s.pending ++ added)))
]

-- The owner cannot be reached: there is no connection, or the owner is not on it.
abbrev pub IsAway : IrcBackend → Type 0
IsAway s = (s.link.sender ≡ none) ⊎ (s.link.owner_online ≡ false)

-- A delivery that only holds the message.
abbrev pub IsHeldBy : ℕ → Text → Text → IrcBackend → Result Text (Unit {0}) × IrcBackend → Type 0
IsHeldBy now subject body s r =
    ((reason : Text) × (r.0 ≡ err reason)) × (r.1 ≡ hold now subject body s)

deliver_link-away :
    (link : Option Outbound) (now : ℕ) (subject body : Text) (s : IrcBackend)
    → (link ≡ none) ⊎ (s.link.owner_online ≡ false)
    → IsHeldBy now subject body s (deliver_link link now subject body s)
unfolding deliver_link
deliver_link-away none now subject body s h = ((_, refl), refl)
deliver_link-away (some o) now subject body s (inl h) = absurd cc
deliver_link-away (some o) now subject body s (inr h) = rw h ((_, refl), refl)

pub deliver-away :
    (now : ℕ) (subject body : Text) (s : IrcBackend)
    → IsAway s
    → IsHeldBy now subject body s (deliver now subject body s)
unfolding deliver
deliver-away now subject body s h = deliver_link-away s.link.sender now subject body s h

pub hold-link :
    (now : ℕ) (subject body : Text) (s : IrcBackend)
    → ((hold now subject body s).link ≡ s.link) × ((hold now subject body s).hold_for ≡ s.hold_for)
unfolding hold
hold-link now subject body s = elim (Bool-cases (s.hold_for == 0)) [
  | inl e ↦ rw e (refl, refl)
  | inr e ↦ rw e (refl, refl)
]

-- While the owner cannot be reached, a delivery fails, sends nothing, and keeps at most 20 messages
-- waiting.
pub deliver-unreached :
    (now : ℕ) (subject body : Text) (s : IrcBackend)
    → IsAway s
    → length s.pending ≤ 20
    → ((deliver now subject body s).0 ≢ ok tt)
      × ((deliver now subject body s).1.link ≡ s.link)
      × (length (deliver now subject body s).1.pending ≤ 20)
deliver-unreached now subject body s away few =
    let ((reason, failed), held) = deliver-away now subject body s away in
    let (link, _) = hold-link now subject body s in
    (λ sent. cc, ap (λ b. b.link) held ∙ link, rw held (hold-length now subject body s few))
