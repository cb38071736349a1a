-- ===== src/Announce.antt =====
-- src/announce.rs: what a matched announce line carries. The match itself is the regex crate's: the
-- declared capture names and the captured texts are arguments.
mod Tests
pub mod Lookup
use irc2torrent.Prelude.{
  ℕ, zero, suc, ◌+◌, Bool, true, false, not, ◌&&◌, ◌||◌, List, [], ◌∷◌, ◌++◌, map, Text, Option,
  none, some, length, drop, keep_if, contains, lookup, insert, ◌==◌, if◌then◌else◌, is_empty, trim,
  codes, text_eq,
}

abbrev pub reserved_names : List Text
reserved_names = codes "file" ∷ codes "key" ∷ []

abbrev pub required_names : List Text
required_names = codes "name" ∷ codes "id" ∷ []

pub record CaptureOptions : Type 0 where
  pub split : Option Text

pub record Field : Type 0 where
  pub raw : Text
  pub values : List Text

pub record Announce : Type 0 where
  pub name : Text
  pub id : Text
  pub fields : List (Text × Field)

-- `Captures`: the text of a named group that took part in the match.
abbrev pub Captures : Type 0
Captures = Text → Option Text

abbrev pub starts_with : Text → Text → Bool
starts_with [] t = true
starts_with (p ∷ ps) [] = false
starts_with (p ∷ ps) (c ∷ cs) = p == c && starts_with ps cs

-- `str::split` at a non-empty delimiter, with the piece read so far.
pub split_loop : ℕ → Text → Text → Text → List Text
split_loop zero delim piece cs = piece ∷ []
split_loop (suc fuel) delim piece [] = piece ∷ []
split_loop (suc fuel) delim piece (c ∷ cs) = elim (starts_with delim (c ∷ cs)) [
  | true ↦ piece ∷ split_loop fuel delim [] (drop (length delim) (c ∷ cs))
  | false ↦ split_loop fuel delim (piece ++ c ∷ []) cs
]

pub split_text : Text → Text → List Text
unfolding split_loop
split_text delim t = split_loop (length t + 1) delim [] t

-- `options.get(name).and_then(|o| o.split.as_deref())`
pub delimiter : Option CaptureOptions → Option Text
delimiter none = none
delimiter (some o) = o.split

pub field_values : Text → Option Text → List Text
unfolding split_text
field_values raw none = raw ∷ []
field_values raw (some delim) =
    if is_empty delim
    then raw ∷ []
    else keep_if (λ v. not (is_empty v)) (map trim (split_text delim raw))

abbrev pub is_skipped : Text → Bool
is_skipped n = contains required_names n || contains reserved_names n

pub field_of : List (Text × CaptureOptions) → Text → Text → Field
unfolding delimiter field_values
field_of options n raw = record {
  raw = raw;
  values = field_values raw (delimiter (lookup n options));
}

pub insert_capture :
    List (Text × CaptureOptions) → Text → Option Text → List (Text × Field) → List (Text × Field)
unfolding field_of
insert_capture options n none fields = fields
insert_capture options n (some raw) fields = insert n (field_of options n raw) fields

-- The loop over `re.capture_names().flatten()`.
pub collect :
    List (Text × CaptureOptions) → Captures → List Text → List (Text × Field) → List (Text × Field)
unfolding insert_capture
collect options caps [] fields = fields
collect options caps (n ∷ ns) fields =
    collect options caps ns
      (if is_skipped n then fields else insert_capture options n (caps n) fields)

pub build : List (Text × Field) → Option Text → Option Text → Option Announce
build fields (some n) (some i) = some (record { name = n; id = i; fields = fields })
build fields _ _ = none

pub from_captures : List Text → Captures → List (Text × CaptureOptions) → Option Announce
unfolding collect build
from_captures names caps options =
    build (collect options caps names []) (caps (codes "name")) (caps (codes "id"))

pub new : Text → Text → Announce
new name id = record { name = name; id = id; fields = [] }

pub bare : Text → Announce
unfolding new
bare id = new (codes "torrent-" ++ id) id

pub raw_of : Option Field → Option Text
raw_of none = none
raw_of (some f) = some f.raw

pub values_of : Option Field → List Text
values_of none = []
values_of (some f) = f.values

pub get : Announce → Text → Option Text
unfolding raw_of
get a key =
    if text_eq key (codes "name")
    then some a.name
    else if text_eq key (codes "id")
    then some a.id
    else raw_of (lookup key a.fields)

pub values : Announce → Text → List Text
unfolding values_of
values a key =
    if text_eq key (codes "name")
    then a.name ∷ []
    else if text_eq key (codes "id")
    then a.id ∷ []
    else values_of (lookup key a.fields)

pub is_some {ℓ} : {A : Type ℓ} → Option A → Bool
is_some none = false
is_some (some a) = true

pub has : Announce → Text → Bool
unfolding is_some
has a key = is_some (get a key)
