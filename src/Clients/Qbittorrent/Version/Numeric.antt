-- ===== src/Clients/Qbittorrent/Version/Numeric.antt =====
-- src/clients/qbittorrent.rs: the version gate compares numbers, not text.
use irc2torrent.Prelude.{
  ℕ, ◌^◌, ◌≤◌, ◌<◌, ◌≡◌, ◌↔◌, ◌⊎◌, refl, arith, Bool, true, false, not, [], ◌∷◌, ◌++◌, Text, some,
  ◌==◌, all, all-append, is_digit, is_space, split_char, decimal, drop_plus, digits_value-decimal,
  all_digits-decimal, not_empty-decimal, lt→ltb, trim_nothing,
}
use irc2torrent.Clients.Qbittorrent.Version.{parse_u32, at_least, api_at_least}

drop_plus-digits : (t : Text) → all is_digit t ≡ true → drop_plus t ≡ t
drop_plus-digits [] h = refl
drop_plus-digits (c ∷ t) h = ground arith

pub parse_u32-decimal : (n : ℕ) → n < 2 ^ 32 → parse_u32 (decimal n) ≡ some n
unfolding parse_u32
parse_u32-decimal n h =
    rw
      (
        drop_plus-digits (decimal n) (all_digits-decimal n),
        all_digits-decimal n,
        not_empty-decimal n,
        digits_value-decimal n,
        lt→ltb n (2 ^ 32) h,
      )
      refl

split_char-digits :
    (t rest : Text)
    → all is_digit t ≡ true
    → split_char b'.' (t ++ b'.' ∷ rest) ≡ t ∷ split_char b'.' rest
split_char-digits [] rest h = refl
split_char-digits (c ∷ t) rest h =
    let same : (c == b'.') ≡ false = ground arith in
    rw (same, split_char-digits t rest (ground arith)) refl

split_char-last : (t : Text) → all is_digit t ≡ true → split_char b'.' t ≡ t ∷ []
split_char-last [] h = refl
split_char-last (c ∷ t) h =
    let same : (c == b'.') ≡ false = ground arith in
    rw (same, split_char-last t (ground arith)) refl

pub solid : (t : Text) → all is_digit t ≡ true → all (λ c. not (is_space c)) t ≡ true
solid [] h = refl
solid (c ∷ t) h = ground (arith, solid t)

at_least_iff :
    (a b major minor : ℕ)
    → (at_least (some a) (some b) major minor ≡ true) ↔ ((major < a) ⊎ ((major ≡ a) × (minor ≤ b)))
at_least_iff a b major minor = ground arith

-- A version `a.b.c`, its numbers below 2 ^ 32, is at least `major.minor` just when `a` is above
-- `major`, or equal to it with `b` not below `minor`.
pub api_at_least_iff :
    (a b major minor : ℕ) (patch : Text)
    → a < 2 ^ 32
    → b < 2 ^ 32
    → all is_digit patch ≡ true
    → (api_at_least (decimal a ++ (b'.' ∷ decimal b ++ (b'.' ∷ patch))) major minor ≡ true)
      ↔ ((major < a) ⊎ ((major ≡ a) × (minor ≤ b)))
unfolding api_at_least
api_at_least_iff a b major minor patch ha hb hp =
    let version : Text = decimal a ++ (b'.' ∷ decimal b ++ (b'.' ∷ patch)) in
    let dotless : (t : Text) → Bool = all (λ c. not (is_space c)) in
    let whole : dotless version ≡ true =
      rw
        (
          all-append (λ c. not (is_space c)) (decimal a) (b'.' ∷ decimal b ++ (b'.' ∷ patch)),
          all-append (λ c. not (is_space c)) (decimal b) (b'.' ∷ patch),
          solid (decimal a) (all_digits-decimal a),
          solid (decimal b) (all_digits-decimal b),
          solid patch hp,
        )
        refl in
    rw
      (
        trim_nothing version whole,
        split_char-digits (decimal a) (decimal b ++ (b'.' ∷ patch)) (all_digits-decimal a),
        split_char-digits (decimal b) patch (all_digits-decimal b),
        parse_u32-decimal a ha,
        parse_u32-decimal b hb,
      )
      (at_least_iff a b major minor)
