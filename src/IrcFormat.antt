-- ===== src/IrcFormat.antt =====
-- src/irc_format.rs: removing mIRC formatting codes from a message.
mod Tests
pub mod Clean
pub mod Codes
use irc2torrent.Prelude.{
  ℕ, zero, suc, ◌-◌, Bool, true, false, ◌&&◌, ◌||◌, List, [], ◌∷◌, ◌++◌, Text, length, any, leb,
  ◌==◌, if◌then◌else◌, is_digit,
}

abbrev pub toggles : List ℕ
toggles = 0x02 ∷ 0x0f ∷ 0x11 ∷ 0x16 ∷ 0x1d ∷ 0x1e ∷ 0x1f ∷ []

abbrev pub colour : ℕ
colour = 0x03

abbrev pub hex_colour : ℕ
hex_colour = 0x04

abbrev pub is_toggle : ℕ → Bool
is_toggle c = any (λ t. c == t) toggles

abbrev pub is_hex_digit : ℕ → Bool
is_hex_digit c = is_digit c || ((leb 65 c && leb c 70) || (leb 97 c && leb c 102))

pub is_formatting : ℕ → Bool
is_formatting c = c == colour || (c == hex_colour || is_toggle c)

-- `take_while`: the count taken, and the characters left in the iterator.
pub take_while : ℕ → (ℕ → Bool) → Text → ℕ × Text
take_while zero accept cs = (0, cs)
take_while (suc n) accept [] = (0, [])
take_while (suc n) accept (c ∷ cs) =
    let rest = take_while n accept cs in if accept c then (suc rest.0, rest.1) else (0, c ∷ cs)

-- The lookahead at a comma: kept unless digits follow it.
pub skip_background : Text → Text
unfolding take_while
skip_background [] = []
skip_background (c ∷ cs) =
    let bg = take_while 2 is_digit cs in if c == b',' && leb 1 bg.0 then bg.1 else c ∷ cs

-- What follows `\x03`.
pub skip_colour : Text → Text
unfolding take_while skip_background
skip_colour cs =
    let fg = take_while 2 is_digit cs in if leb 1 fg.0 then skip_background fg.1 else fg.1

-- One round of the loop: what it pushes, and what it leaves unread.
pub strip_step : ℕ → Text → Text × Text
unfolding skip_colour take_while
strip_step c cs =
    if c == colour
    then ([], skip_colour cs)
    else if c == hex_colour
    then ([], (take_while 6 is_hex_digit cs).1)
    else if is_toggle c
    then ([], cs)
    else (c ∷ [], cs)

-- The `while let` loop. Each round reads at least one character, so the length is fuel enough.
pub strip_loop : ℕ → Text → Text
unfolding strip_step
strip_loop zero cs = []
strip_loop (suc fuel) [] = []
strip_loop (suc fuel) (c ∷ cs) =
    let (pushed, unread) = strip_step c cs in pushed ++ strip_loop fuel unread

-- `Cow<str>`
pub data Cow : Type 0 where
  borrowed : Text → Cow
  owned : Text → Cow

abbrev pub cow_text : Cow → Text
cow_text (borrowed t) = t
cow_text (owned t) = t

pub strip_formatting : Text → Cow
unfolding strip_loop is_formatting
strip_formatting line =
    if any is_formatting line then owned (strip_loop (length line) line) else borrowed line
