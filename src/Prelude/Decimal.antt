-- ===== src/Prelude/Decimal.antt =====
-- `{}` of an unsigned integer: its decimal digits. The quotient falls, so the number itself is fuel
-- enough. What `str::parse` makes of digits is the number again.
use Prim.Native.Nat.{ℕ, zero, suc, ◌+◌, ◌-◌, ◌*◌, ◌/◌, ◌%◌, ◌≤◌, ◌<◌}
use mathlib.Core.Path.{◌≡◌, refl}
use mathlib.Core.Logic.{inl, inr}
use mathlib.Core.Bool.{true, false, not, ◌||◌}
use mathlib.Core.Option.{Option, none, some}
use mathlib.Core.List.{[], ◌∷◌, ◌++◌}
use native.Mathlib.Omega.{arith}
use irc2torrent.Prelude.Tests.{ltb, ◌==◌, if◌then◌else◌, Bool-cases, ltb→lt}
use irc2torrent.Prelude.Lists.{all, all-append}
use irc2torrent.Prelude.Strings.{Text, is_digit, is_empty}

pub decimal_loop : ℕ → ℕ → Text
decimal_loop zero n = (48 + n % 10) ∷ []
decimal_loop (suc fuel) n =
    let high = decimal_loop fuel (n / 10) in
    if ltb n 10 then (48 + n) ∷ [] else high ++ (48 + n % 10) ∷ []

unfoldable pub decimal : ℕ → Text
unfolding decimal_loop
decimal n = decimal_loop n n

-- What `str::parse` of an unsigned integer skips
abbrev pub drop_plus : Text → Text
drop_plus [] = []
drop_plus (c ∷ cs) = if c == 43 then cs else c ∷ cs

abbrev pub digits_value : ℕ → Text → ℕ
digits_value n [] = n
digits_value n (c ∷ cs) = digits_value (n * 10 + (c - 48)) cs

-- `str::parse`, of an unsigned integer below a bound
abbrev pub parse_unsigned : ℕ → Text → Option ℕ
parse_unsigned bound t =
    let digits = drop_plus t in
    if is_empty digits || not (all is_digit digits)
    then none
    else if ltb (digits_value 0 digits) bound
    then some (digits_value 0 digits)
    else none

is_empty-append : (t : Text) (c : ℕ) → is_empty (t ++ c ∷ []) ≡ false
is_empty-append [] c = refl
is_empty-append (d ∷ t) c = refl

digits_value-append :
    (n d : ℕ) (t : Text) → digits_value n (t ++ (48 + d) ∷ []) ≡ digits_value n t * 10 + d
digits_value-append n d [] = omega arith
digits_value-append n d (c ∷ t) = digits_value-append (n * 10 + (c - 48)) d t

digits_value-decimal_loop : (fuel n : ℕ) → n ≤ fuel → digits_value 0 (decimal_loop fuel n) ≡ n
unfolding decimal_loop
digits_value-decimal_loop zero n h = omega arith
digits_value-decimal_loop (suc fuel) n h = elim (Bool-cases (ltb n 10)) [
  | inl small ↦ rw small (omega arith)
  | inr large ↦
      rw
        (
          large,
          digits_value-append 0 (n % 10) (decimal_loop fuel (n / 10)),
          digits_value-decimal_loop fuel (n / 10) (ground arith),
        )
        (omega arith)
]

pub digits_value-decimal : (n : ℕ) → digits_value 0 (decimal n) ≡ n
unfolding decimal
digits_value-decimal n = digits_value-decimal_loop n n (omega arith)

is_digit-of : (d : ℕ) → d < 10 → is_digit (48 + d) ≡ true
is_digit-of d h = ground arith

all_digits-decimal_loop : (fuel n : ℕ) → n ≤ fuel → all is_digit (decimal_loop fuel n) ≡ true
unfolding decimal_loop
all_digits-decimal_loop zero n h = rw (is_digit-of (n % 10) (omega arith)) refl
all_digits-decimal_loop (suc fuel) n h = elim (Bool-cases (ltb n 10)) [
  | inl small ↦ rw small (rw (is_digit-of n (ltb→lt n 10 small)) refl)
  | inr large ↦
      rw
        (
          large,
          all-append is_digit (decimal_loop fuel (n / 10)) ((48 + n % 10) ∷ []),
          all_digits-decimal_loop fuel (n / 10) (ground arith),
          is_digit-of (n % 10) (omega arith),
        )
        refl
]

pub all_digits-decimal : (n : ℕ) → all is_digit (decimal n) ≡ true
unfolding decimal
all_digits-decimal n = all_digits-decimal_loop n n (omega arith)

not_empty-decimal_loop : (fuel n : ℕ) → is_empty (decimal_loop fuel n) ≡ false
unfolding decimal_loop
not_empty-decimal_loop zero n = refl
not_empty-decimal_loop (suc fuel) n = elim (Bool-cases (ltb n 10)) [
  | inl small ↦ rw small refl
  | inr large ↦ rw large (is_empty-append (decimal_loop fuel (n / 10)) (48 + n % 10))
]

pub not_empty-decimal : (n : ℕ) → is_empty (decimal n) ≡ false
unfolding decimal
not_empty-decimal n = not_empty-decimal_loop n n
