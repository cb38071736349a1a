-- ===== src/Configuration/Summary/Clock.antt =====
-- src/config.rs: a time that is accepted is a time of day, and every time of day is.
use irc2torrent.Prelude.{
  split_once, ℕ, ◌≤◌, ◌≡◌, refl, arith, true, false, not, [], ◌∷◌, ◌++◌, Text, Option, none, some,
  ok, ◌==◌, trim, all, all-append, is_digit, is_space, decimal, all_digits-decimal, trim_nothing,
}
use irc2torrent.Clients.Qbittorrent.Version.{parse_u32}
use irc2torrent.Clients.Qbittorrent.Version.Numeric.{parse_u32-decimal, solid}
use irc2torrent.Configuration.Summary.{in_range, time_parts, parse_summary_time}

in_range-bounds :
    (value : Text) (h m : Option ℕ) (hour minute : ℕ)
    → in_range value h m ≡ ok (hour, minute)
    → (hour ≤ 23) × (minute ≤ 59)
in_range-bounds value none m hour minute e = cc
in_range-bounds value (some h) none hour minute e = cc
in_range-bounds value (some h) (some m) hour minute e = ground arith

split_once-digits :
    (t rest : Text) → all is_digit t ≡ true → split_once b':' (t ++ b':' ∷ rest) ≡ some (t, rest)
split_once-digits [] rest h = refl
split_once-digits (c ∷ t) rest h =
    let other : (c == b':') ≡ false = ground arith in
    rw (other, split_once-digits t rest (ground arith)) refl

trim-decimal : (n : ℕ) → trim (decimal n) ≡ decimal n
trim-decimal n = trim_nothing (decimal n) (solid (decimal n) (all_digits-decimal n))

in_range-small :
    (value : Text) (hour minute : ℕ)
    → hour ≤ 23
    → minute ≤ 59
    → in_range value (some hour) (some minute) ≡ ok (hour, minute)
in_range-small value hour minute hh hm = ground arith

time_parts-bounds :
    (value : Text) (o : Option (Text × Text)) (hour minute : ℕ)
    → time_parts value o ≡ ok (hour, minute)
    → (hour ≤ 23) × (minute ≤ 59)
time_parts-bounds value none hour minute e = cc
time_parts-bounds value (some (h, m)) hour minute e =
    in_range-bounds value (parse_u32 (trim h)) (parse_u32 (trim m)) hour minute e

-- Whatever text is accepted gives an hour of at most 23 and a minute of at most 59.
pub parse_summary_time-bounds :
    (value : Text) (hour minute : ℕ)
    → parse_summary_time value ≡ ok (hour, minute)
    → (hour ≤ 23) × (minute ≤ 59)
unfolding parse_summary_time
parse_summary_time-bounds value hour minute h =
    time_parts-bounds value (split_once b':' (trim value)) hour minute h

-- An hour and a minute of the day, printed with a colon between them, are read back.
pub parse_summary_time-decimal :
    (hour minute : ℕ)
    → hour ≤ 23
    → minute ≤ 59
    → parse_summary_time (decimal hour ++ (b':' ∷ decimal minute)) ≡ ok (hour, minute)
unfolding parse_summary_time
parse_summary_time-decimal hour minute hh hm =
    let whole : all (λ c. not (is_space c)) (decimal hour ++ (b':' ∷ decimal minute)) ≡ true =
      rw
        (
          all-append (λ c. not (is_space c)) (decimal hour) (b':' ∷ decimal minute),
          solid (decimal hour) (all_digits-decimal hour),
          solid (decimal minute) (all_digits-decimal minute),
        )
        refl in
    rw
      (
        trim_nothing (decimal hour ++ (b':' ∷ decimal minute)) whole,
        split_once-digits (decimal hour) (decimal minute) (all_digits-decimal hour),
        trim-decimal hour,
        trim-decimal minute,
        parse_u32-decimal hour (omega arith),
        parse_u32-decimal minute (omega arith),
      )
      (in_range-small (decimal hour ++ (b':' ∷ decimal minute)) hour minute hh hm)
