-- ===== src/IrcFormat/Codes.antt =====
-- src/irc_format.rs: which characters go with a formatting code, whatever stands around it.
use irc2torrent.Prelude.{
  ℕ, zero, suc, ◌≤◌, ◌≡◌, refl, ◌∙◌, ap, sym, inl, inr, Bool, true, false, [], ◌∷◌, ◌++◌, arith,
  Text, length, any, is_digit, Bool-cases,
}
use irc2torrent.IrcFormat.{
  colour, is_hex_digit, is_formatting, take_while, skip_background, skip_colour, strip_step,
  strip_loop, cow_text, strip_formatting,
}

length-take_while-le : (n : ℕ) (p : ℕ → Bool) (cs : Text) → length (take_while n p cs).1 ≤ length cs
unfolding take_while
length-take_while-le zero p cs = omega arith
length-take_while-le (suc n) p [] = omega arith
length-take_while-le (suc n) p (c ∷ cs) = ground (arith, length-take_while-le n p cs)

length-skip_background-le : (cs : Text) → length (skip_background cs) ≤ length cs
unfolding skip_background
length-skip_background-le [] = omega arith
length-skip_background-le (c ∷ cs) = ground (arith, length-take_while-le 2 is_digit cs)

length-skip_colour-le : (cs : Text) → length (skip_colour cs) ≤ length cs
unfolding skip_colour
length-skip_colour-le cs = ground (
  arith,
  length-take_while-le 2 is_digit cs,
  length-skip_background-le (take_while 2 is_digit cs).1,
)

length-strip_step-le : (c : ℕ) (cs : Text) → length (strip_step c cs).1 ≤ length cs
unfolding strip_step
length-strip_step-le c cs =
    ground (arith, length-skip_colour-le cs, length-take_while-le 6 is_hex_digit cs)

-- Fuel beyond the length of the line changes nothing.
strip_loop-fuel :
    (f g : ℕ) (cs : Text) → length cs ≤ f → length cs ≤ g → strip_loop f cs ≡ strip_loop g cs
unfolding strip_loop
strip_loop-fuel zero zero cs h k = refl
strip_loop-fuel zero (suc g) [] h k = refl
strip_loop-fuel zero (suc g) (c ∷ cs) h k = absurd (omega arith)
strip_loop-fuel (suc f) zero [] h k = refl
strip_loop-fuel (suc f) zero (c ∷ cs) h k = absurd (omega arith)
strip_loop-fuel (suc f) (suc g) [] h k = refl
strip_loop-fuel (suc f) (suc g) (c ∷ cs) h k =
    ap (λ t. (strip_step c cs).0 ++ t)
      (strip_loop-fuel f g (strip_step c cs).1 (omega (arith, length-strip_step-le c cs))
        (omega (arith, length-strip_step-le c cs)))

-- The text that `strip_formatting` leaves.
abbrev pub stripped : Text → Text
stripped line = cow_text (strip_formatting line)

strip_step-plain_char :
    (c : ℕ) (cs : Text) → is_formatting c ≡ false → strip_step c cs ≡ (c ∷ [], cs)
unfolding strip_step is_formatting
strip_step-plain_char c cs h = ground arith

strip_loop-any : (cs : Text) → any is_formatting cs ≡ false → strip_loop (length cs) cs ≡ cs
unfolding strip_loop
strip_loop-any [] h = refl
strip_loop-any (c ∷ cs) h = elim (Bool-cases (is_formatting c)) [
  | inl code ↦ ground arith
  | inr plain ↦
      rw (strip_step-plain_char c cs plain) (ap (◌∷◌ c) (strip_loop-any cs (ground arith)))
]

stripped-loop : (line : Text) → stripped line ≡ strip_loop (length line) line
unfolding strip_formatting
stripped-loop line = elim (Bool-cases (any is_formatting line)) [
  | inl found ↦ rw found
  | inr clean ↦ rw clean (sym (strip_loop-any line clean))
]

stripped-cons :
    (c : ℕ) (cs : Text) → stripped (c ∷ cs) ≡ (strip_step c cs).0 ++ stripped (strip_step c cs).1
unfolding strip_loop
stripped-cons c cs =
    rw (stripped-loop (c ∷ cs), stripped-loop (strip_step c cs).1)
      (ap (λ t. (strip_step c cs).0 ++ t)
        (strip_loop-fuel (length cs) (length (strip_step c cs).1) (strip_step c cs).1
          (length-strip_step-le c cs) (omega arith)))

-- Characters that are no formatting codes stay in front of whatever the rest becomes.
pub stripped-append :
    (xs ys : Text) → any is_formatting xs ≡ false → stripped (xs ++ ys) ≡ xs ++ stripped ys
stripped-append [] ys h = refl
stripped-append (x ∷ xs) ys h = elim (Bool-cases (is_formatting x)) [
  | inl code ↦ ground arith
  | inr plain ↦
      stripped-cons x (xs ++ ys)
      ∙ rw (strip_step-plain_char x (xs ++ ys) plain)
          (ap (◌∷◌ x) (stripped-append xs ys (ground arith)))
]

strip_step-forms :
    (f₁ f₂ b₁ b₂ x : ℕ) (rest : Text)
    → is_digit f₁ ≡ true
    → is_digit f₂ ≡ true
    → is_digit b₁ ≡ true
    → is_digit b₂ ≡ true
    → is_digit x ≡ false
    → (strip_step colour (f₁ ∷ f₂ ∷ b',' ∷ b₁ ∷ b₂ ∷ rest) ≡ ([], rest))
      × (strip_step colour (f₁ ∷ f₂ ∷ b',' ∷ x ∷ rest) ≡ ([], b',' ∷ x ∷ rest))
      × (strip_step colour (x ∷ rest) ≡ ([], x ∷ rest))
unfolding strip_step skip_colour skip_background take_while
strip_step-forms f₁ f₂ b₁ b₂ x rest hf₁ hf₂ hb₁ hb₂ hx =
    (rw (hf₁, hf₂, hb₁, hb₂), rw (hf₁, hf₂, hx), rw hx)

-- A colour code takes its digits and the background behind a comma; it keeps a comma that no digit
-- follows; and a bare code takes nothing else.
pub stripped-colour :
    (f₁ f₂ b₁ b₂ x : ℕ) (rest : Text)
    → is_digit f₁ ≡ true
    → is_digit f₂ ≡ true
    → is_digit b₁ ≡ true
    → is_digit b₂ ≡ true
    → is_digit x ≡ false
    → (stripped (colour ∷ f₁ ∷ f₂ ∷ b',' ∷ b₁ ∷ b₂ ∷ rest) ≡ stripped rest)
      × (stripped (colour ∷ f₁ ∷ f₂ ∷ b',' ∷ x ∷ rest) ≡ b',' ∷ stripped (x ∷ rest))
      × (stripped (colour ∷ x ∷ rest) ≡ stripped (x ∷ rest))
unfolding is_formatting
stripped-colour f₁ f₂ b₁ b₂ x rest hf₁ hf₂ hb₁ hb₂ hx =
    let (both, comma, bare) = strip_step-forms f₁ f₂ b₁ b₂ x rest hf₁ hf₂ hb₁ hb₂ hx in
    (
      stripped-cons colour (f₁ ∷ f₂ ∷ b',' ∷ b₁ ∷ b₂ ∷ rest) ∙ rw both,
      stripped-cons colour (f₁ ∷ f₂ ∷ b',' ∷ x ∷ rest)
          ∙ rw comma (stripped-append (b',' ∷ []) (x ∷ rest) refl),
      stripped-cons colour (x ∷ rest) ∙ rw bare,
    )
