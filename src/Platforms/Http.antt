-- ===== src/Platforms/Http.antt =====
-- src/platforms/http.rs: the file name a download is written under, and the download itself.
mod Tests
pub mod Names
pub mod Download
use irc2torrent.Prelude.{
  ℕ, Bool, true, false, not, ◌&&◌, ◌||◌, List, [], ◌∷◌, ◌++◌, map, Text, Option, none, some, Result,
  ok, err, length, take, leb, ltb, ◌==◌, if◌then◌else◌, is_empty, is_alphanumeric, codes, text_eq,
  trim_start_of, trim_end_of,
}
use irc2torrent.Announce.{Announce}
use irc2torrent.Announce
use irc2torrent.Template.{FieldSource}
use irc2torrent.Platforms.UrlTemplate.{UrlLib, UrlTemplate, UrlError}
use irc2torrent.Platforms.UrlTemplate

abbrev pub max_stem_len : ℕ
max_stem_len = 200

abbrev pub is_safe_char : ℕ → Bool
is_safe_char c = is_alphanumeric c || (c == b'-' || (c == b'_' || c == b'.'))

abbrev pub is_dot : ℕ → Bool
is_dot c = c == b'.'

pub safe_char : ℕ → ℕ
safe_char c = if is_safe_char c then c else b'.'

-- `truncate` counts bytes, which are characters here: every character left is ASCII.
pub truncate_stem : Text → Text
truncate_stem stem = if ltb max_stem_len (length stem) then take max_stem_len stem else stem

pub default_stem : Text → Text
default_stem stem = if is_empty stem then codes "torrent" else stem

pub sanitize_torrent_filename : Text → Text
unfolding safe_char truncate_stem default_stem
sanitize_torrent_filename name =
    let stem = trim_end_of is_dot (trim_start_of is_dot (map safe_char name)) in
    default_stem (truncate_stem stem) ++ codes ".torrent"

-- `Path`: whether it begins at the root, and its components.
pub record FilePath : Type 0 where
  pub rooted : Bool
  pub components : List Text

-- The components of a text: what stands between its slashes, without empty and `.` pieces.
pub pieces : Text → Text → List Text
pieces piece [] = piece ∷ []
pieces piece (c ∷ cs) =
    let next = pieces (if c == b'/' then [] else piece ++ c ∷ []) cs in
    if c == b'/' then piece ∷ next else next

abbrev pub is_normal : Text → Bool
is_normal p = not (is_empty p) && not (text_eq p (codes "."))

pub normal_pieces : List Text → List Text
normal_pieces [] = []
normal_pieces (p ∷ ps) = if is_normal p then p ∷ normal_pieces ps else normal_pieces ps

pub is_rooted : Text → Bool
is_rooted [] = false
is_rooted (c ∷ cs) = c == b'/'

pub path_of : Text → FilePath
unfolding pieces normal_pieces is_rooted
path_of t = record { rooted = is_rooted t; components = normal_pieces (pieces [] t) }

-- `Path::join`: a rooted argument replaces the base.
pub join_path : FilePath → FilePath → FilePath
join_path dir p = if p.rooted then p else record dir { components = dir.components ++ p.components }

pub join : FilePath → Text → FilePath
unfolding path_of join_path
join dir t = join_path dir (path_of t)

pub all_but_last : List Text → List Text
all_but_last [] = []
all_but_last (p ∷ []) = []
all_but_last (p ∷ q ∷ ps) = p ∷ all_but_last (q ∷ ps)

-- `Path::parent`
pub parent : FilePath → Option FilePath
unfolding all_but_last
parent p = elim p.components [
  | [] ↦ none
  | c ∷ cs ↦ some (record p { components = all_but_last p.components })
]

unfoldable pub equal_components : List Text → List Text → Bool
equal_components [] [] = true
equal_components (p ∷ ps) (q ∷ qs) = text_eq p q && equal_components ps qs
equal_components _ _ = false

pub equal_paths : FilePath → FilePath → Bool
unfolding equal_components
equal_paths a b =
    (if a.rooted then b.rooted else not b.rooted) && equal_components a.components b.components

pub is_parent : Option FilePath → FilePath → Bool
unfolding equal_paths
is_parent none dir = false
is_parent (some p) dir = equal_paths p dir

-- `assert_within`: whether the write may go ahead.
pub assert_within : FilePath → FilePath → Bool
unfolding is_parent parent
assert_within dir candidate = is_parent (parent candidate) dir

-- `DownloadFields`, through the `FieldSource` trait's default `values`.
pub download_get : Announce → Text → Text → Text → Option Text
download_get announce file key name =
    if text_eq name (codes "file")
    then some file
    else if text_eq name (codes "key")
    then some key
    else Announce.get announce name

pub option_list : Option Text → List Text
option_list none = []
option_list (some t) = t ∷ []

pub download_fields : Announce → Text → Text → FieldSource
unfolding download_get option_list
download_fields announce file key = record {
  get = download_get announce file key;
  values = λ name. option_list (download_get announce file key name);
}
