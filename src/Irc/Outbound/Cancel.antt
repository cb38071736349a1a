-- ===== src/Irc/Outbound/Cancel.antt =====
-- src/irc_processor.rs: what `stop!` discards, and what it reports.
use irc2torrent.Prelude.{
  ℕ, ◌+◌, ◌-◌, ◌%◌, ◌≤◌, ◌<◌, ◌≡◌, refl, ap, sym, ◌∙◌, inl, inr, not, Bool, true, false, List, [],
  ◌∷◌, ◌++◌, Text, if◌then◌else◌, all, text_eq, ◌==◌, length, arith, All, Bool-cases,
}
use irc2torrent.Irc.Outbound.{
  sanitize_for_irc, is_line_end, sanitize_char, word, Outgoing, Outbound, add_pending, sub_pending,
  stamped, send, send_uninterruptible, receive, receive_of, queue, discards, cancel, received,
}

sanitize_char-line : (c : ℕ) → is_line_end (sanitize_char c) ≡ false
sanitize_char-line c = ground arith

sanitize_char-same : (c : ℕ) → (sanitize_char c == c) ≡ not (is_line_end c)
sanitize_char-same c = ground arith

-- No message that is sent holds a carriage return, a line feed or a NUL, and it is as long as what
-- was to be said; it is what was to be said just when that holds none of them.
pub sanitize_for_irc-line :
    (t : Text)
    → (all (λ c. not (is_line_end c)) (sanitize_for_irc t) ≡ true)
      × (length (sanitize_for_irc t) ≡ length t)
      × (text_eq (sanitize_for_irc t) t ≡ all (λ c. not (is_line_end c)) t)
unfolding sanitize_for_irc
sanitize_for_irc-line [] = (refl, refl, refl)
sanitize_for_irc-line (c ∷ t) =
    let (safe, same, kept) = sanitize_for_irc-line t in
    ((rw (sanitize_char-line c) safe), omega (arith, same), (rw (sanitize_char-same c, kept) refl))

-- Everything queued carries an epoch that has been.
abbrev pub IsStamped : Outbound → Type 0
IsStamped o = All (λ m. m.epoch ≤ o.epoch) o.queued

fresh-discards :
    (target text : Text) (cancellable : Bool) (epoch : ℕ)
    → discards
        (record { target = target; text = text; epoch = epoch; cancellable = cancellable })
        epoch
      ≡ false
unfolding discards
fresh-discards target text cancellable epoch = ground arith

queued-discards :
    (epoch : ℕ) (ms : List Outgoing)
    → All (λ m. m.epoch ≤ epoch) ms
    → All (λ m. discards m (epoch + 1) ≡ m.cancellable) ms
unfolding discards
queued-discards epoch [] h = tt
queued-discards epoch (m ∷ ms) h = (ground (arith, h.0), queued-discards epoch ms h.1)

-- After `stop!` the pacer discards every command reply that was queued and none of the
-- notifications, and it discards nothing that is queued next, while the epoch has not run out.
pub cancel-discards :
    (target text : Text) (cancellable : Bool) (o : Outbound)
    → IsStamped o
    → o.epoch + 1 < word
    → All (λ q. discards q (cancel o).1.epoch ≡ q.cancellable) o.queued
      × (discards (stamped target text cancellable (cancel o).1) (cancel o).1.epoch ≡ false)
unfolding cancel stamped
cancel-discards target text cancellable o h fits =
    let same : (o.epoch + 1) % word ≡ o.epoch + 1 = omega arith in
    rw same
      (queued-discards o.epoch o.queued h, fresh-discards target text cancellable (o.epoch + 1))

-- The command replies that wait in the queue.
abbrev pub waiting : List Outgoing → ℕ
waiting [] = 0
waiting (m ∷ ms) = (if m.cancellable then 1 else 0) + waiting ms

waiting-append : (ms ns : List Outgoing) → waiting (ms ++ ns) ≡ waiting ms + waiting ns
waiting-append [] ns = omega arith
waiting-append (m ∷ ms) ns = omega (arith, waiting-append ms ns)

-- What is done with the queue besides `stop!`.
pub data Use : Type 0 where
  reply : Text → Text → Use
  notify : Text → Text → Use
  taken : Use

abbrev pub use_queue : Use → Outbound → Outbound
use_queue (reply target text) o = send target text o
use_queue (notify target text) o = send_uninterruptible target text o
use_queue taken o = receive o

abbrev pub use_all : List Use → Outbound → Outbound
use_all [] o = o
use_all (u ∷ us) o = use_all us (use_queue u o)

queue-count :
    (target text : Text) (cancellable : Bool) (o : Outbound)
    → o.pending ≡ waiting o.queued
    → o.pending + 1 < word
    → ((queue target text cancellable o).pending ≡ waiting (queue target text cancellable o).queued)
      × ((queue target text cancellable o).pending ≤ o.pending + 1)
unfolding queue add_pending sub_pending stamped
queue-count target text true o h fits = elim (Bool-cases o.alive) [
  | inl e ↦ rw e (
    omega (arith, h, fits, waiting-append o.queued (stamped target text true o ∷ [])),
    omega arith,
  )
  | inr e ↦ rw e (omega (arith, h, fits), omega (arith, fits))
]
queue-count target text false o h fits = elim (Bool-cases o.alive) [
  | inl e ↦
      rw e
        (omega (arith, h, waiting-append o.queued (stamped target text false o ∷ [])), omega arith)
  | inr e ↦ rw e (h, omega arith)
]

received-count :
    (m : Outgoing) (rest : List Outgoing) (o : Outbound)
    → o.pending ≡ waiting (m ∷ rest)
    → o.pending < word
    → ((received m rest o).pending ≡ waiting rest) × ((received m rest o).pending ≤ o.pending)
unfolding received sub_pending
received-count m rest o h fits = elim (Bool-cases m.cancellable) [
  | inl e ↦ rw e (ground (arith, e), ground (arith, e))
  | inr e ↦ rw e (ground (arith, e), omega arith)
]

receive_of-count :
    (ms : List Outgoing) (o : Outbound)
    → ms ≡ o.queued
    → o.pending ≡ waiting o.queued
    → o.pending + 1 < word
    → ((receive_of ms o).pending ≡ waiting (receive_of ms o).queued)
      × ((receive_of ms o).pending ≤ o.pending + 1)
unfolding received
receive_of-count [] o e h fits = (h, omega arith)
receive_of-count (m ∷ ms) o e h fits =
    let (exact, small) = received-count m ms o (h ∙ ap waiting (sym e)) (omega (arith, fits)) in
    (exact, omega (arith, small))

use_queue-count :
    (u : Use) (o : Outbound)
    → o.pending ≡ waiting o.queued
    → o.pending + 1 < word
    → ((use_queue u o).pending ≡ waiting (use_queue u o).queued)
      × ((use_queue u o).pending ≤ o.pending + 1)
unfolding send send_uninterruptible receive
use_queue-count (reply target text) o h fits = queue-count target text true o h fits
use_queue-count (notify target text) o h fits = queue-count target text false o h fits
use_queue-count taken o h fits = receive_of-count o.queued o refl h fits

use_all-count :
    (us : List Use) (o : Outbound)
    → o.pending ≡ waiting o.queued
    → o.pending + length us < word
    → (use_all us o).pending ≡ waiting (use_all us o).queued
use_all-count [] o h fits = h
use_all-count (u ∷ us) o h fits =
    let (next, grown) = use_queue-count u o h (omega (arith, fits)) in
    use_all-count us (use_queue u o) next (omega (arith, grown, fits))

-- However messages are queued and taken on a new connection, fewer than 2 ^ 64 times, the first
-- `stop!` reports the number of command replies that still wait.
pub cancel-use_all :
    (us : List Use) (alive : Bool) (epoch : ℕ)
    → length us < word
    → (cancel (use_all us (record { queued = []; epoch = epoch; pending = 0; alive = alive }))).0
      ≡ waiting
          (use_all us (record { queued = []; epoch = epoch; pending = 0; alive = alive })).queued
unfolding cancel
cancel-use_all us alive epoch fits =
    use_all-count us (record { queued = []; epoch = epoch; pending = 0; alive = alive }) refl
      (omega (arith, fits))

-- The pacer taking everything that is queued.
abbrev pub drain : List Outgoing → Outbound → Outbound
drain [] o = o
drain (m ∷ ms) o = drain ms (received m ms o)

drain-pending :
    (ms : List Outgoing) (o : Outbound)
    → waiting ms < word
    → o.pending < word
    → (drain ms o).pending ≡ (o.pending + (word - waiting ms)) % word
unfolding received sub_pending
drain-pending [] o fits less = omega (arith, less)
drain-pending (m ∷ ms) o fits less = elim (Bool-cases m.cancellable) [
  | inl e ↦
      let next : (received m ms o).pending ≡ (o.pending + (word - 1)) % word = rw e refl in
      let more : waiting (m ∷ ms) ≡ 1 + waiting ms = rw e refl in
      let rest = drain-pending ms (received m ms o) (omega arith) (omega arith) in
      omega (arith, rest, next, more, fits, less)
  | inr e ↦
      let next : (received m ms o).pending ≡ o.pending = rw e refl in
      let more : waiting (m ∷ ms) ≡ 0 + waiting ms = rw e refl in
      let rest = drain-pending ms (received m ms o) (omega arith) (omega arith) in
      omega (arith, rest, next, more, fits, less)
]

-- Once `stop!` has discarded some replies and the pacer has passed over them, the next `stop!`, with
-- nothing queued in between, reports 2 ^ 64 less their number.
pub cancel-drain :
    (o : Outbound)
    → 1 ≤ waiting o.queued
    → waiting o.queued < word
    → (cancel (drain o.queued (cancel o).1)).0 ≡ word - waiting o.queued
unfolding cancel
cancel-drain o some_wait fits =
    omega (arith, drain-pending o.queued (cancel o).1 fits (omega arith))
