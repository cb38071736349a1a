-- ===== src/Irc/Outbound.antt =====
-- src/irc_processor.rs: the paced queue of outbound messages, with its cancellation epoch. Both
-- counters are machine words of 64 bits, whose `fetch_add` and `fetch_sub` wrap around.
pub mod Cancel
pub mod Burst
use irc2torrent.Prelude.{
  ℕ, ◌+◌, ◌-◌, ◌*◌, ◌%◌, ◌^◌, Bool, true, false, ◌||◌, ◌&&◌, List, [], ◌∷◌, ◌++◌, map, Text, Option,
  none, some, if◌then◌else◌, ltb, leb, ◌==◌, length,
}

-- The characters that end an IRC line.
abbrev pub is_line_end : ℕ → Bool
is_line_end c = (c == 13) || (c == 10) || (c == 0)

abbrev pub sanitize_char : ℕ → ℕ
sanitize_char c = if is_line_end c then 32 else c

unfoldable pub sanitize_for_irc : Text → Text
sanitize_for_irc message = map sanitize_char message

abbrev pub word : ℕ
word = 2 ^ 64

pub record Outgoing : Type 0 where
  pub target : Text
  pub text : Text
  pub epoch : ℕ
  pub cancellable : Bool

-- The channel with its counters; `alive` while the pacer holds the receiver.
pub record Outbound : Type 0 where
  pub queued : List Outgoing
  pub epoch : ℕ
  pub pending : ℕ
  pub alive : Bool

unfoldable pub add_pending : Bool → ℕ → ℕ
add_pending cancellable n = if cancellable then (n + 1) % word else n

unfoldable pub sub_pending : Bool → ℕ → ℕ
sub_pending cancellable n = if cancellable then (n + (word - 1)) % word else n

unfoldable pub stamped : Text → Text → Bool → Outbound → Outgoing
stamped target text cancellable o = record {
  target = target;
  text = text;
  epoch = o.epoch;
  cancellable = cancellable;
}

unfoldable pub queue : Text → Text → Bool → Outbound → Outbound
unfolding add_pending sub_pending
queue target text cancellable o =
    let counted = add_pending cancellable o.pending in
    if o.alive
    then record {
      queued = o.queued ++ (stamped target text cancellable o ∷ []);
      epoch = o.epoch;
      pending = counted;
      alive = true;
    }
    else record {
      queued = o.queued;
      epoch = o.epoch;
      pending = sub_pending cancellable counted;
      alive = false;
    }

unfoldable pub send : Text → Text → Outbound → Outbound
send target text = queue target text true

unfoldable pub send_uninterruptible : Text → Text → Outbound → Outbound
send_uninterruptible target text = queue target text false

unfoldable pub discards : Outgoing → ℕ → Bool
discards msg current_epoch = msg.cancellable && ltb msg.epoch current_epoch

unfoldable pub cancel : Outbound → ℕ × Outbound
cancel o = (
  o.pending,
  record { queued = o.queued; epoch = (o.epoch + 1) % word; pending = 0; alive = o.alive },
)

-- `rx.recv()` with the pacer's count down; the rest of the queue stands in the second argument.
pub received : Outgoing → List Outgoing → Outbound → Outbound
unfolding sub_pending
received msg rest o = record {
  queued = rest;
  epoch = o.epoch;
  pending = sub_pending msg.cancellable o.pending;
  alive = o.alive;
}

abbrev pub receive_of : List Outgoing → Outbound → Outbound
receive_of [] o = o
receive_of (msg ∷ rest) o = received msg rest o

-- The pacer takes the first message, when there is one.
unfoldable pub receive : Outbound → Outbound
receive o = receive_of o.queued o

pub record FloodLimit : Type 0 where
  pub window : ℕ
  pub max_in_burst : ℕ

-- The sends that have aged out of the window leave at the front.
abbrev pub forget : ℕ → ℕ → List ℕ → List ℕ
forget window now [] = []
forget window now (t ∷ recent) =
    let rest = forget window now recent in if leb window (now - t) then rest else t ∷ recent

-- The time to wait for a slot, and the sends that still count.
abbrev pub wait_oldest : ℕ → ℕ → List ℕ → ℕ × List ℕ
wait_oldest window now [] = (0, [])
wait_oldest window now (oldest ∷ recent) = (window - (now - oldest), recent)

unfoldable pub wait_slot : FloodLimit → ℕ → List ℕ → ℕ × List ℕ
wait_slot limit now recent =
    if leb limit.max_in_burst (length recent)
    then wait_oldest limit.window now recent
    else (0, recent)

-- One message of the pacer's loop: it is taken `gap` after the last turn ended, `limit` is what the
-- shared limit holds then, the sleep overruns by `late`, and the epoch is read before and after the
-- wait.
pub record Turn : Type 0 where
  pub limit : FloodLimit
  pub gap : ℕ
  pub late : ℕ
  pub epoch_before : ℕ
  pub epoch_after : ℕ
  pub message : Outgoing

pub record Paced : Type 0 where
  pub sent : Option ℕ
  pub recent : List ℕ
  pub clock : ℕ

unfoldable pub after_wait : Turn → ℕ → ℕ × List ℕ → Paced
after_wait turn now (wait, recent) =
    let clock = now + wait + turn.late in
    if discards turn.message turn.epoch_after
    then record { sent = none; recent = recent; clock = clock }
    else record { sent = some clock; recent = recent ++ (clock ∷ []); clock = clock }

unfoldable pub pace : Turn → List ℕ → ℕ → Paced
unfolding wait_slot after_wait
pace turn recent clock =
    let now = clock + turn.gap in
    if discards turn.message turn.epoch_before
    then record { sent = none; recent = recent; clock = now }
    else after_wait turn now (wait_slot turn.limit now (forget turn.limit.window now recent))

abbrev pub sent_then : Option ℕ → List ℕ → List ℕ
sent_then none rest = rest
sent_then (some t) rest = t ∷ rest

-- The instants of the messages that a run of turns sends. The source's task ends when a send fails or
-- the limit's lock is poisoned, which is a shorter run.
abbrev pub pace_run : List Turn → List ℕ → ℕ → List ℕ
pace_run [] recent clock = []
pace_run (turn ∷ turns) recent clock =
    let paced = pace turn recent clock in
    sent_then paced.sent (pace_run turns paced.recent paced.clock)
