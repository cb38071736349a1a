-- ===== src/Announce/Lookup.antt =====
-- src/announce.rs: what `get` and `values` answer after `from_captures`.
use irc2torrent.Prelude.{
  ◌≡◌, ◌⊎◌, ◌↔◌, refl, ◌∙◌, sym, ap, inl, inr, Bool, true, false, not, ◌&&◌, ◌||◌, List, [], ◌∷◌,
  arith, Text, Option, none, some, contains, lookup, lookup-insert, if◌then◌else◌, codes, text_eq,
  text_eq_iff, text_eq_refl, text_eq_comm, Bool-cases,
}
use irc2torrent.Announce.{
  reserved_names, required_names, CaptureOptions, Field, Announce, Captures, delimiter,
  field_values, is_skipped, field_of, insert_capture, collect, build, from_captures, raw_of,
  values_of, get, values, is_some,
}

-- No announce without the two required captures, and one whenever both took part.
pub from_captures-none :
    (names : List Text) (caps : Captures) (options : List (Text × CaptureOptions))
    → (from_captures names caps options ≡ none)
      ↔ ((caps (codes "name") ≡ none) ⊎ (caps (codes "id") ≡ none))
unfolding from_captures build
from_captures-none names caps options = ground arith

abbrev as_field : List (Text × CaptureOptions) → Text → Option Text → Option Field
as_field options k none = none
as_field options k (some raw) = some (field_of options k raw)

-- The value that the loop leaves at `k`, given what was there before.
abbrev collected :
    List (Text × CaptureOptions) → Captures → Bool → Text → Option Field → Option Field
collected options caps declared k before =
    if declared && (not (is_skipped k) && is_some (caps k))
    then as_field options k (caps k)
    else before

lookup-insert_capture :
    (options : List (Text × CaptureOptions)) (n k : Text) (o : Option Text)
    (fields : List (Text × Field))
    → lookup k (insert_capture options n o fields)
      ≡ (if text_eq n k && is_some o then as_field options n o else lookup k fields)
unfolding insert_capture is_some
lookup-insert_capture options n k none fields = ground arith
lookup-insert_capture options n k (some raw) fields =
    lookup-insert n k (field_of options n raw) fields ∙ ground arith

collected_twice :
    (options : List (Text × CaptureOptions)) (caps : Captures) (declared : Bool) (k : Text)
    (before : Option Field)
    → collected options caps declared k (collected options caps true k before)
      ≡ collected options caps true k before
collected_twice options caps declared k before = ground arith

lookup-collect :
    (options : List (Text × CaptureOptions)) (caps : Captures) (names : List Text) (k : Text)
    (fields : List (Text × Field))
    → lookup k (collect options caps names fields)
      ≡ collected options caps (contains names k) k (lookup k fields)
unfolding collect
lookup-collect options caps [] k fields = refl
lookup-collect options caps (n ∷ names) k fields =
    lookup-collect options caps names k _ ∙ (elim (Bool-cases (text_eq n k)) [
      | inl same ↦
          let e = (text_eq_iff n k).0 same in
          rw (e, text_eq_refl k)
            (ap (collected options caps (contains names k) k) (if_insert k (caps k) fields)
              ∙ collected_twice options caps (contains names k) k (lookup k fields))
      | inr other ↦
          rw other
            (ap (collected options caps (contains names k) k) (if_other n k other (caps n) fields))
    ])
  where
    if_insert :
        (k : Text) (o : Option Text) (fields : List (Text × Field))
        → lookup k (if is_skipped k then fields else insert_capture options k o fields)
          ≡ (if not (is_skipped k) && is_some o then as_field options k o else lookup k fields)
    if_insert k o fields =
        ground (arith, lookup-insert_capture options k k o fields, text_eq_refl k)

    if_other :
        (n k : Text)
        → text_eq n k ≡ false
        → (o : Option Text) (fields : List (Text × Field))
        → lookup k (if is_skipped n then fields else insert_capture options n o fields)
          ≡ lookup k fields
    if_other n k h o fields = ground (arith, lookup-insert_capture options n k o fields)

-- What `get` should answer at `k`: a required capture, or a declared one that is not reserved.
abbrev pub captured : List Text → Captures → Text → Option Text
captured names caps k =
    if contains required_names k || (contains names k && not (contains reserved_names k))
    then caps k
    else none

build-some :
    (fields : List (Text × Field)) (n i : Option Text) (a : Announce)
    → build fields n i ≡ some a
    → (n ≡ some a.name) × (i ≡ some a.id) × (a.fields ≡ fields)
unfolding build
build-some fields (some n) (some i) a h = ground arith
build-some fields none i a h = cc
build-some fields (some n) none a h = cc

raw_of-collected :
    (options : List (Text × CaptureOptions)) (k : Text) (d b : Bool) (o : Option Text)
    → raw_of (if d && (b && is_some o) then as_field options k o else none)
      ≡ (if d && b then o else none)
unfolding raw_of is_some field_of
raw_of-collected options k d b none = ground arith
raw_of-collected options k d b (some raw) = ground arith

-- The values of a captured text: split where its options say so.
abbrev pub split_capture : List (Text × CaptureOptions) → Text → Option Text → List Text
split_capture options k none = []
split_capture options k (some raw) = field_values raw (delimiter (lookup k options))

values_of-collected :
    (options : List (Text × CaptureOptions)) (k : Text) (d b : Bool) (o : Option Text)
    → values_of (if d && (b && is_some o) then as_field options k o else none)
      ≡ split_capture options k (if d && b then o else none)
unfolding values_of is_some field_of
values_of-collected options k d b none = ground arith
values_of-collected options k d b (some raw) = ground arith

module _ (names : List Text) (caps : Captures) (options : List (Text × CaptureOptions))
    (a : Announce) (matched : from_captures names caps options ≡ some a) where
  parts :
      (caps (codes "name") ≡ some a.name)
      × (caps (codes "id") ≡ some a.id)
      × (a.fields ≡ collect options caps names [])
  unfolding from_captures
  parts =
      build-some (collect options caps names []) (caps (codes "name")) (caps (codes "id")) a matched

  field_at : (k : Text) → lookup k a.fields ≡ collected options caps (contains names k) k none
  unfolding lookup
  field_at k = rw (parts.2) (lookup-collect options caps names k [])

  -- `get` answers with the capture's text at `name`, at `id` and at every other declared name that
  -- is not reserved, if the capture took part; it answers nothing at any other name, and so never
  -- at `file` or `key`.
  pub get-from_captures : (k : Text) → get a k ≡ captured names caps k
  unfolding get raw_of is_some
  get-from_captures k = elim (Bool-cases (text_eq k (codes "name"))) [
    | inl is_name ↦ rw ((text_eq_iff k (codes "name")).0 is_name) (sym parts.0)
    | inr not_name ↦ elim (Bool-cases (text_eq k (codes "id"))) [
      | inl is_id ↦ rw ((text_eq_iff k (codes "id")).0 is_id) (sym parts.1)
      | inr not_id ↦
          rw
            (
              not_name,
              not_id,
              field_at k,
              text_eq_comm (codes "name") k,
              text_eq_comm (codes "id") k,
            )
            (rw (not_name, not_id)
              (raw_of-collected options k (contains names k) (not (contains reserved_names k))
                (caps k)))
    ]
  ]

  -- `values` answers with one value at `name` and at `id`, and at any other name with the captured
  -- text split by that name's options, or with no value where `get` answers nothing.
  pub values-from_captures :
      (k : Text)
      → values a k ≡ (
          if contains required_names k
          then split_capture [] k (captured names caps k)
          else split_capture options k (captured names caps k))
  unfolding values values_of delimiter field_values lookup
  values-from_captures k = elim (Bool-cases (text_eq k (codes "name"))) [
    | inl is_name ↦ rw ((text_eq_iff k (codes "name")).0 is_name) (rw (parts.0))
    | inr not_name ↦ elim (Bool-cases (text_eq k (codes "id"))) [
      | inl is_id ↦ rw ((text_eq_iff k (codes "id")).0 is_id) (rw (parts.1))
      | inr not_id ↦
          rw
            (
              not_name,
              not_id,
              field_at k,
              text_eq_comm (codes "name") k,
              text_eq_comm (codes "id") k,
            )
            (rw (not_name, not_id)
              (values_of-collected options k (contains names k) (not (contains reserved_names k))
                (caps k)))
    ]
  ]
