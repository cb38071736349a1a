-- ===== src/Transports/Telegram/Polls.antt =====
-- src/transports/telegram.rs: the offset of the poll only grows, past every update that was seen.
use irc2torrent.Prelude.{
  ◌≤◌, ◌≡◌, refl, arith, inl, inr, true, List, [], ◌∷◌, ◌++◌, Option, none, some, Bool-cases, All,
  All-append,
}
use irc2torrent.Auth.{ℤ, pos, negsuc}
use irc2torrent.Notify.Events.{unwrap_or}
use irc2torrent.Transports.Json.{JsonLib}
use irc2torrent.Transports.Telegram.{
  retry_min, retry_max, int_next, int_le, int_max, update_id, poll_loop, poll_result,
  TelegramPoller, after_poll, polled, after_polls,
}

int_le_refl : (a : ℤ) → int_le a a ≡ true
int_le_refl (pos a) = ground arith
int_le_refl (negsuc a) = ground arith

int_le_trans : (a b c : ℤ) → int_le a b ≡ true → int_le b c ≡ true → int_le a c ≡ true
int_le_trans (pos a) (pos b) (pos c) h k = ground arith
int_le_trans (negsuc a) (negsuc b) (negsuc c) h k = ground arith
int_le_trans (negsuc a) b (pos c) h k = refl
int_le_trans (pos a) (negsuc b) c h k = cc
int_le_trans a (pos b) (negsuc c) h k = cc

int_max-left : (a b : ℤ) → int_le a (int_max a b) ≡ true
int_max-left a b = elim (Bool-cases (int_le a b)) [
  | inl le ↦ rw le le
  | inr gt ↦ rw gt (int_le_refl a)
]

int_max-right : (a b : ℤ) → int_le b (int_max a b) ≡ true
int_max-right (pos a) (pos b) = ground arith
int_max-right (negsuc a) (negsuc b) = ground arith
int_max-right (pos a) (negsuc b) = refl
int_max-right (negsuc a) (pos b) = ground arith

module _ (json : JsonLib) where
  -- The offset is past an update.
  abbrev pub IsPast : ℤ → json.Value → Type 0
  IsPast offset raw = int_le (int_next (update_id json raw)) offset ≡ true

  later-IsPast :
      (a b : ℤ) (raws : List json.Value)
      → int_le a b ≡ true
      → All (IsPast a) raws
      → All (IsPast b) raws
  later-IsPast a b [] h past = tt
  later-IsPast a b (raw ∷ raws) h (here, past) =
      (int_le_trans (int_next (update_id json raw)) a b here h, later-IsPast a b raws h past)

  poll_loop-forward :
      (next : ℤ) (raws : List json.Value) → int_le next (poll_loop json next raws).1 ≡ true
  unfolding poll_loop
  poll_loop-forward next [] = int_le_refl next
  poll_loop-forward next (raw ∷ raws) =
      let step = int_max next (int_next (update_id json raw)) in
      int_le_trans next step (poll_loop json step raws).1
        (int_max-left next (int_next (update_id json raw))) (poll_loop-forward step raws)

  poll_loop-IsPast :
      (next : ℤ) (raws : List json.Value) → All (IsPast (poll_loop json next raws).1) raws
  unfolding poll_loop
  poll_loop-IsPast next [] = tt
  poll_loop-IsPast next (raw ∷ raws) =
      let step = int_max next (int_next (update_id json raw)) in
      (
        int_le_trans (int_next (update_id json raw)) step (poll_loop json step raws).1
            (int_max-right next (int_next (update_id json raw))) (poll_loop-forward step raws),
        poll_loop-IsPast step raws,
      )

  -- The updates in an answer to a poll
  abbrev pub updates_in : Option json.Value → List json.Value
  updates_in none = []
  updates_in (some result) = unwrap_or (json.as_array result) []

  abbrev pub seen : List (Option json.Value) → List json.Value
  seen [] = []
  seen (answer ∷ answers) = updates_in answer ++ seen answers

  abbrev pub IsPolling : TelegramPoller → Type 0
  IsPolling p = (retry_min ≤ p.backoff) × (p.backoff ≤ retry_max)

  abbrev pub IsForward : ℤ → List json.Value → TelegramPoller → Type 0
  IsForward offset raws p =
      (int_le offset p.offset ≡ true) × (All (IsPast p.offset) raws) × IsPolling p

  turn-IsForward :
      (answer : Option json.Value) (p : TelegramPoller)
      → IsPolling p
      → IsForward p.offset (updates_in answer) (after_poll (polled json p.offset answer) p).0
  unfolding after_poll poll_result
  turn-IsForward none p (low, high) = (int_le_refl p.offset, tt, (omega arith, omega arith))
  turn-IsForward (some result) p h =
      let raws = unwrap_or (json.as_array result) [] in
      (poll_loop-forward p.offset raws, poll_loop-IsPast p.offset raws, (omega arith, omega arith))

  -- Over any polls, failed ones included, the offset that is asked for never falls and is past every
  -- update that came, whether or not it held a command, so none of them comes again, short of an id
  -- that is the largest of 64 bits; and the wait after a failure stays between two and sixty seconds.
  pub after_polls-IsForward :
      (answers : List (Option json.Value)) (p : TelegramPoller)
      → IsPolling p
      → IsForward p.offset (seen answers) (after_polls json answers p).0
  unfolding after_polls
  after_polls-IsForward [] p h = (int_le_refl p.offset, tt, h)
  after_polls-IsForward (answer ∷ answers) p h =
      let turn = (after_poll (polled json p.offset answer) p).0 in
      let last = (after_polls json answers turn).0 in
      let (forward, past, polling) = turn-IsForward answer p h in
      let (onward, later, final) = after_polls-IsForward answers turn polling in
      (
        int_le_trans p.offset turn.offset last.offset forward onward,
        All-append (IsPast last.offset) (updates_in answer) (seen answers)
            (later-IsPast turn.offset last.offset (updates_in answer) onward past) later,
        final,
      )
