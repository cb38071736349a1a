-- ===== src/Announce/Tests.antt =====
-- src/announce.rs: the theorems at an announce line with a split capture.
use irc2torrent.Prelude.{
  ◌≡◌, refl, Text, codes, List, [], ◌∷◌, none, some, text_eq, if◌then◌else◌, lookup, insert,
  contains,
}
use irc2torrent.Announce.{
  CaptureOptions, Announce, Captures, from_captures, collect, insert_capture, field_of, build,
  delimiter, field_values, split_text, split_loop, values, required_names,
}
use irc2torrent.Announce.Lookup.{captured, split_capture, values-from_captures}

abbrev group_names : List Text
group_names = codes "name" ∷ codes "id" ∷ codes "tags" ∷ []

abbrev groups : Captures
groups k =
    if text_eq k (codes "name")
    then some (codes "Release")
    else if text_eq k (codes "id")
    then some (codes "241813706")
    else if text_eq k (codes "tags")
    then some (codes "a,b")
    else none

abbrev split_tags : List (Text × CaptureOptions)
split_tags = (codes "tags", record { split = some (codes ",") }) ∷ []

abbrev announce : Announce
announce = record {
  name = codes "Release";
  id = codes "241813706";
  fields = (codes "tags", record { raw = codes "a,b"; values = codes "a" ∷ codes "b" ∷ [] }) ∷ [];
}

matched : from_captures group_names groups split_tags ≡ some announce
unfolding from_captures collect insert_capture field_of build delimiter field_values split_text
    split_loop lookup insert
matched = refl

values-from_captures_example : values announce (codes "tags") ≡ (
    if contains required_names (codes "tags")
    then split_capture [] (codes "tags") (captured group_names groups (codes "tags"))
    else split_capture split_tags (codes "tags") (captured group_names groups (codes "tags")))
values-from_captures_example =
    values-from_captures group_names groups split_tags announce matched (codes "tags")
