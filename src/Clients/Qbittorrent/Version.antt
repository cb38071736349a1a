-- ===== src/Clients/Qbittorrent/Version.antt =====
-- src/clients/qbittorrent.rs: which spelling of the API a server speaks.
pub mod Numeric
use irc2torrent.Prelude.{
  parse_unsigned, ℕ, zero, suc, ◌+◌, ◌-◌, ◌*◌, ◌/◌, ◌%◌, ◌^◌, ◌≤◌, ◌<◌, ◌≡◌, refl, arith, Bool,
  true, false, not, ◌&&◌, ◌||◌, List, [], ◌∷◌, ◌++◌, Text, Option, none, some, if◌then◌else◌, ltb,
  leb, ◌==◌, all, is_digit, is_empty, is_space, trim, trim_end_of, trim_start_of, split_char,
  onto_first, decimal, Bool-cases, ap, drop_plus, digits_value,
}

-- `str::parse::<u32>`
unfoldable pub parse_u32 : Text → Option ℕ
parse_u32 t = parse_unsigned (2 ^ 32) t

-- The order on pairs
abbrev pub at_least : Option ℕ → Option ℕ → ℕ → ℕ → Bool
at_least (some found_major) (some found_minor) major minor =
    ltb major found_major || (found_major == major && leb minor found_minor)
at_least _ _ major minor = false

abbrev pub parts_at_least : List Text → ℕ → ℕ → Bool
parts_at_least (first ∷ second ∷ rest) major minor =
    at_least (parse_u32 first) (parse_u32 second) major minor
parts_at_least _ major minor = false

unfoldable pub api_at_least : Text → ℕ → ℕ → Bool
api_at_least version major minor = parts_at_least (split_char b'.' (trim version)) major minor
