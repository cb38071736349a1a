-- ===== src/IrcFormat/Clean.antt =====
-- src/irc_format.rs: what comes out of `strip_formatting`.
use irc2torrent.Prelude.{
  ℕ, zero, suc, ◌≡◌, refl, ◌∙◌, inl, inr, Bool, true, false, not, [], ◌∷◌, arith, Text, length, any,
  all, all-append, Bool-cases,
}
use irc2torrent.IrcFormat.{
  is_formatting, strip_step, strip_loop, borrowed, cow_text, strip_formatting,
}

abbrev pub is_plain : ℕ → Bool
is_plain c = not (is_formatting c)

strip_step-plain : (c : ℕ) (cs : Text) → all is_plain (strip_step c cs).0 ≡ true
unfolding is_formatting strip_step
strip_step-plain c cs = ground arith

strip_loop-plain : (fuel : ℕ) (cs : Text) → all is_plain (strip_loop fuel cs) ≡ true
unfolding strip_loop
strip_loop-plain zero cs = refl
strip_loop-plain (suc fuel) [] = refl
strip_loop-plain (suc fuel) (c ∷ cs) =
    all-append is_plain (strip_step c cs).0 (strip_loop fuel (strip_step c cs).1)
    ∙ rw (strip_step-plain c cs, strip_loop-plain fuel (strip_step c cs).1)

all-plain : (cs : Text) → any is_formatting cs ≡ false → all is_plain cs ≡ true
all-plain [] h = refl
all-plain (c ∷ cs) h = ground (arith, all-plain cs)

-- Whatever the line, no formatting code is left in what `strip_formatting` returns.
pub strip_formatting-plain : (line : Text) → all is_plain (cow_text (strip_formatting line)) ≡ true
unfolding strip_formatting
strip_formatting-plain line = elim (Bool-cases (any is_formatting line)) [
  | inl found ↦ rw found (strip_loop-plain (length line) line)
  | inr clean ↦ rw clean (all-plain line clean)
]

-- A line without formatting codes is borrowed as it is.
pub strip_formatting-borrowed :
    (line : Text) → any is_formatting line ≡ false → strip_formatting line ≡ borrowed line
unfolding strip_formatting
strip_formatting-borrowed line h = rw h
