-- ===== src/TorrentProcessor/Filters.antt =====
-- src/torrent_processor.rs: which announced releases are wanted. The patterns are compiled by the regex
-- crate: each is its text and its test.
use irc2torrent.Prelude.{
  Bool, not, List, [], ◌∷◌, ◌++◌, map, Text, Option, none, some, if◌then◌else◌, find, any, keep_if,
  contains,
}
use irc2torrent.Announce.{Announce, has, values}

pub record Regex : Type 0 where
  pub as_str : Text
  pub is_match : Text → Bool

pub record CompiledFieldFilter : Type 0 where
  pub matches : Option Regex
  pub reject_matching : Option Regex

pub record CompiledWatch : Type 0 where
  pub regex : Regex
  pub require_fields : List Text
  pub field_filters : List (Text × CompiledFieldFilter)

pub data FieldVeto : Type 0 where
  absent : FieldVeto
  no_value_matched : Text → FieldVeto
  rejected_by : Text → FieldVeto

pub data Decision : Type 0 where
  wanted : Text → Decision
  rejected : Text → Option Text → Decision
  not_wanted : Decision
  field_rejected : Text → FieldVeto → Decision

abbrev pub pattern_of : Option CompiledWatch → Option Text
pattern_of none = none
pattern_of (some w) = some w.regex.as_str

abbrev pub matching : Text → List CompiledWatch → List CompiledWatch
matching name dl = keep_if (λ w. w.regex.is_match name) dl

-- The fields that an entry of the download list names
abbrev pub fields_of : CompiledWatch → List Text
fields_of w = w.require_fields ++ map (λ (f, _). f) w.field_filters

abbrev pub flat_map {ℓ κ} : {A : Type ℓ} {B : Type κ} → (A → List B) → List A → List B
flat_map f [] = []
flat_map f (x ∷ xs) = f x ++ flat_map f xs

unfoldable pub overridden : List CompiledWatch → List Text
overridden matched = flat_map fields_of matched

unfoldable pub required : List Text → List CompiledWatch → List Text
required require_fields matched =
    keep_if (λ f. not (contains (overridden matched) f)) require_fields
    ++ flat_map (λ w. w.require_fields) matched

unfoldable pub filters :
    List (Text × CompiledFieldFilter) → List CompiledWatch → List (Text × CompiledFieldFilter)
filters field_filters matched =
    keep_if (λ (f, _). not (contains (overridden matched) f)) field_filters
    ++ flat_map (λ w. w.field_filters) matched

abbrev pub missing : Announce → List Text → Option Text
missing a fields = find (λ f. not (has a f)) fields

abbrev pub no_match : List Text → Option Regex → Option FieldVeto
no_match vs none = none
no_match vs (some re) = if any re.is_match vs then none else some (no_value_matched re.as_str)

abbrev pub reject_match : List Text → Option Regex → Option FieldVeto
reject_match vs none = none
reject_match vs (some re) = if any re.is_match vs then some (rejected_by re.as_str) else none

abbrev pub or_else : Option FieldVeto → Option FieldVeto → Option FieldVeto
or_else none o = o
or_else (some v) o = some v

-- One turn of the loop over the field rules
unfoldable pub veto_of : Announce → Text → CompiledFieldFilter → Option FieldVeto
veto_of a field f =
    or_else (no_match (values a field) f.matches) (reject_match (values a field) f.reject_matching)

abbrev pub or_continue :
    Text → Option FieldVeto → Option (Text × FieldVeto) → Option (Text × FieldVeto)
or_continue field none rest = rest
or_continue field (some v) rest = some (field, v)

abbrev pub first_veto : Announce → List (Text × CompiledFieldFilter) → Option (Text × FieldVeto)
first_veto a [] = none
first_veto a ((field, f) ∷ fs) = or_continue field (veto_of a field f) (first_veto a fs)

unfoldable pub decide_filters : CompiledWatch → Option (Text × FieldVeto) → Decision
decide_filters first none = wanted first.regex.as_str
decide_filters first (some (field, why)) = field_rejected field why

unfoldable pub decide_required : CompiledWatch → Option Text → Option (Text × FieldVeto) → Decision
unfolding decide_filters
decide_required first (some field) veto = field_rejected field absent
decide_required first none veto = decide_filters first veto

unfoldable pub decide_matched :
    Announce → List CompiledWatch → List Text → List (Text × CompiledFieldFilter) → Decision
unfolding decide_required required filters
decide_matched a [] require_fields field_filters = not_wanted
decide_matched a (first ∷ others) require_fields field_filters =
    decide_required first (missing a (required require_fields (first ∷ others)))
      (first_veto a (filters field_filters (first ∷ others)))

-- The lists of the options, which the decision reads
pub record Lists : Type 0 where
  pub dl_watches : List CompiledWatch
  pub reject_regexes : List Regex
  pub require_fields : List Text
  pub field_filters : List (Text × CompiledFieldFilter)

unfoldable pub decide_reject : Announce → Lists → Option Regex → Decision
unfolding decide_matched
decide_reject a l (some r) =
    rejected r.as_str (pattern_of (find (λ w. w.regex.is_match a.name) l.dl_watches))
decide_reject a l none =
    decide_matched a (matching a.name l.dl_watches) l.require_fields l.field_filters

unfoldable pub decide : Announce → Lists → Decision
unfolding decide_reject
decide a l = decide_reject a l (find (λ r. r.is_match a.name) l.reject_regexes)
