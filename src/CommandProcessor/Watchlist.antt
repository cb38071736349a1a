-- ===== src/CommandProcessor/Watchlist.antt =====
-- src/config.rs, src/torrent_processor.rs: the watchlist that commands change. Compiling a pattern
-- and checking a whole configuration are arguments; writing the file may fail, which the program
-- passes over.
pub mod Removal
use irc2torrent.Prelude.{
  ℕ, zero, suc, Bool, true, false, List, [], ◌∷◌, ◌++◌, map, Text, codes, Option, none, some,
  Result, ok, err, if◌then◌else◌, ltb, length, take, drop, get_elem?, decimal,
}

pub record FieldFilter : Type 0 where
  pub matches : Option Text
  pub reject_matching : Option Text

pub data WatchEntry : Type 0 where
  pattern_entry : Text → WatchEntry
  detailed :
      (pattern : Text) (require_fields : List Text) (field_filters : List (Text × FieldFilter))
      → WatchEntry

unfoldable pub pattern : WatchEntry → Text
pattern (pattern_entry p) = p
pattern (detailed p require_fields field_filters) = p

-- The watches as configured, those whose compiled form is in use, and those last sent to the file.
pub record Options : Type 0 where
  pub data_watches : List WatchEntry
  pub loaded : List WatchEntry
  pub written : List WatchEntry

unfoldable pub get_dl_patterns : Options → List Text
unfolding pattern
get_dl_patterns o = map pattern o.data_watches

-- `Vec::remove`
abbrev pub remove_at {ℓ} : {A : Type ℓ} → ℕ → List A → List A
remove_at i [] = []
remove_at zero (x ∷ xs) = xs
remove_at (suc i) (x ∷ xs) = x ∷ remove_at i xs

-- The regex crate's error for a pattern, and whether the options with these watches are accepted.
module _ (regex_error : Text → Option Text) (from_data : List WatchEntry → Bool) where
  unfoldable pub mutate_options : (List WatchEntry → List WatchEntry) → Options → Options
  mutate_options apply o =
      let changed = apply o.data_watches in
      if from_data changed
      then record { data_watches = changed; loaded = changed; written = changed }
      else record o { data_watches = changed }

  unfoldable pub add_compiled : Text → Option Text → Options → Result Text (Unit {0}) × Options
  unfolding mutate_options
  add_compiled regex (some e) o =
      (err (codes "'" ++ regex ++ codes "' is not a valid regex: " ++ e), o)
  add_compiled regex none o =
      (ok tt, mutate_options (λ watches. watches ++ (pattern_entry regex ∷ [])) o)

  unfoldable pub add_dl_regex : Text → Options → Result Text (Unit {0}) × Options
  unfolding add_compiled
  add_dl_regex regex o = add_compiled regex (regex_error regex) o

  unfoldable pub remove_watch : ℕ → List WatchEntry → List WatchEntry
  remove_watch index watches =
      if ltb index (length watches) then remove_at index watches else watches

  unfoldable pub remove_dl_regex : ℕ → Options → Options
  unfolding mutate_options remove_watch
  remove_dl_regex index o = mutate_options (remove_watch index) o

  pub added_reply : Text → Result Text (Unit {0}) × Options → Result Text Text × Options
  added_reply argument (ok _, o) = (ok (codes "Added to watch list: " ++ argument), o)
  added_reply argument (err e, o) = (err e, o)

  unfoldable pub add_torrent_to_watchlist : Text → Options → Result Text Text × Options
  unfolding added_reply
  add_torrent_to_watchlist argument o = added_reply argument (add_dl_regex argument o)

  pub remove_found : ℕ → Option Text → Options → Result Text Text × Options
  remove_found index none o = (
    err (
        codes "No pattern at index "
        ++ decimal index
        ++ codes ". Use cmd:watchlist to see the current list."),
    o,
  )
  remove_found index (some removed) o =
      (ok (codes "Removed [" ++ decimal index ++ codes "] " ++ removed), remove_dl_regex index o)

  unfoldable pub remove_torrent_from_watchlist : ℕ → Options → Result Text Text × Options
  unfolding remove_found
  remove_torrent_from_watchlist index o = remove_found index (get_elem? (get_dl_patterns o) index) o
