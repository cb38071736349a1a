-- ===== src/TorrentProcessor/Decide.antt =====
-- src/torrent_processor.rs: the decision, against a description of it rule by rule.
use irc2torrent.Prelude.{
  ◌≡◌, refl, sym, ap, ◌∙◌, inl, inr, Bool, true, false, not, ◌&&◌, ◌||◌, List, [], ◌∷◌, ◌++◌, Text,
  Option, none, some, any, all, all-append, find, keep_if, contains, Bool-cases, Option-cases,
  arith,
}
use irc2torrent.Announce.{Announce, has, values}
use irc2torrent.TorrentProcessor.Filters.{
  Regex, CompiledFieldFilter, CompiledWatch, FieldVeto, Decision, wanted, matching, fields_of,
  flat_map, overridden, required, filters, missing, no_match, reject_match, or_else, veto_of,
  or_continue, first_veto, decide_filters, decide_required, decide_matched, Lists, decide_reject,
  decide,
}

-- Whether a matching entry of the download list names the field.
abbrev pub claims : Text → List CompiledWatch → Text → Bool
claims name dl f = any (λ w. w.regex.is_match name && contains (fields_of w) f) dl

-- Whether one rule about the values of a field lets them pass.
abbrev pub passes : Announce → Text × CompiledFieldFilter → Bool
passes a (field, f) =
    elim f.matches [ none ↦ true | some re ↦ any re.is_match (values a field) ]
    && elim f.reject_matching [ none ↦ true | some re ↦ not (any re.is_match (values a field)) ]

-- A release is wanted when nothing rejects its name, an entry matches it, and each field rule lets
-- it pass: those of the matching entries, and the global ones on fields that none of them names.
abbrev pub should_want : Announce → Lists → Bool
should_want a l =
    not (any (λ r. r.is_match a.name) l.reject_regexes)
    && any (λ w. w.regex.is_match a.name) l.dl_watches
    && all (λ f. claims a.name l.dl_watches f || has a f) l.require_fields
    && all (λ w. not (w.regex.is_match a.name) || all (has a) w.require_fields) l.dl_watches
    && all (λ (f, r). claims a.name l.dl_watches f || passes a (f, r)) l.field_filters
    && all (λ w. not (w.regex.is_match a.name) || all (passes a) w.field_filters) l.dl_watches

abbrev pub wants : Decision → Bool
wants (wanted pattern) = true
wants _ = false

abbrev is_none {ℓ} : {A : Type ℓ} → Option A → Bool
is_none none = true
is_none (some a) = false

abbrev is_nil {ℓ} : {A : Type ℓ} → List A → Bool
is_nil [] = true
is_nil (x ∷ xs) = false

module _ {ℓ} {A : Type ℓ} where
  find-is_none : (p : A → Bool) (xs : List A) → is_none (find p xs) ≡ not (any p xs)
  find-is_none p [] = refl
  find-is_none p (x ∷ xs) = elim (Bool-cases (p x)) [
    | inl e ↦ rw e refl
    | inr e ↦ rw e (find-is_none p xs)
  ]

  find-not : (p : A → Bool) (xs : List A) → is_none (find (λ x. not (p x)) xs) ≡ all p xs
  find-not p [] = refl
  find-not p (x ∷ xs) = elim (Bool-cases (p x)) [ inl e ↦ rw e (find-not p xs) | inr e ↦ rw e refl ]

  keep_if-is_nil : (p : A → Bool) (xs : List A) → not (is_nil (keep_if p xs)) ≡ any p xs
  keep_if-is_nil p [] = refl
  keep_if-is_nil p (x ∷ xs) = elim (Bool-cases (p x)) [
    | inl e ↦ rw e refl
    | inr e ↦ rw e (keep_if-is_nil p xs)
  ]

  all-keep_if :
      (p q : A → Bool) (xs : List A) → all q (keep_if p xs) ≡ all (λ x. not (p x) || q x) xs
  all-keep_if p q [] = refl
  all-keep_if p q (x ∷ xs) = elim (Bool-cases (p x)) [
    | inl e ↦ rw e (ap (λ b. q x && b) (all-keep_if p q xs))
    | inr e ↦ rw e (all-keep_if p q xs)
  ]

  any-keep_if : (p q : A → Bool) (xs : List A) → any q (keep_if p xs) ≡ any (λ x. p x && q x) xs
  any-keep_if p q [] = refl
  any-keep_if p q (x ∷ xs) = elim (Bool-cases (p x)) [
    | inl e ↦ rw e (ap (λ b. q x || b) (any-keep_if p q xs))
    | inr e ↦ rw e (any-keep_if p q xs)
  ]

  all_cong : (p q : A → Bool) (xs : List A) → ((x : A) → p x ≡ q x) → all p xs ≡ all q xs
  all_cong p q [] h = refl
  all_cong p q (x ∷ xs) h = rw (h x, all_cong p q xs h) refl

module _ {ℓ κ} {A : Type ℓ} {B : Type κ} where
  all-flat_map :
      (q : B → Bool) (f : A → List B) (xs : List A)
      → all q (flat_map f xs) ≡ all (λ x. all q (f x)) xs
  all-flat_map q f [] = refl
  all-flat_map q f (x ∷ xs) =
      all-append q (f x) (flat_map f xs) ∙ ap (λ b. all q (f x) && b) (all-flat_map q f xs)

contains-append :
    (xs ys : List Text) (t : Text) → contains (xs ++ ys) t ≡ (contains xs t || contains ys t)
contains-append [] ys t = refl
contains-append (x ∷ xs) ys t = ground (arith, contains-append xs ys t)

contains-flat_map :
    (f : CompiledWatch → List Text) (ws : List CompiledWatch) (t : Text)
    → contains (flat_map f ws) t ≡ any (λ w. contains (f w) t) ws
contains-flat_map f [] t = refl
contains-flat_map f (w ∷ ws) t =
    contains-append (f w) (flat_map f ws) t
    ∙ ap (λ b. contains (f w) t || b) (contains-flat_map f ws t)

overridden-claims :
    (name : Text) (dl : List CompiledWatch) (f : Text)
    → contains (overridden (matching name dl)) f ≡ claims name dl f
unfolding overridden
overridden-claims name dl f =
    contains-flat_map fields_of (matching name dl) f
    ∙ any-keep_if (λ w. w.regex.is_match name) (λ w. contains (fields_of w) f) dl

no_match-none :
    (vs : List Text) (o : Option Regex)
    → is_none (no_match vs o) ≡ elim o [ none ↦ true | some re ↦ any re.is_match vs ]
no_match-none vs none = refl
no_match-none vs (some re) = ground arith

reject_match-none :
    (vs : List Text) (o : Option Regex)
    → is_none (reject_match vs o) ≡ elim o [ none ↦ true | some re ↦ not (any re.is_match vs) ]
reject_match-none vs none = refl
reject_match-none vs (some re) = ground arith

or_else-none : (o p : Option FieldVeto) → is_none (or_else o p) ≡ (is_none o && is_none p)
or_else-none none p = refl
or_else-none (some v) p = refl

or_continue-none :
    (field : Text) (o : Option FieldVeto) (rest : Option (Text × FieldVeto))
    → is_none (or_continue field o rest) ≡ (is_none o && is_none rest)
or_continue-none field none rest = refl
or_continue-none field (some v) rest = refl

veto_of-none :
    (a : Announce) (field : Text) (f : CompiledFieldFilter)
    → is_none (veto_of a field f) ≡ passes a (field, f)
unfolding veto_of
veto_of-none a field f =
    rw
      (
        or_else-none (no_match (values a field) f.matches)
            (reject_match (values a field) f.reject_matching),
        no_match-none (values a field) f.matches,
        reject_match-none (values a field) f.reject_matching,
      )
      refl

first_veto-none :
    (a : Announce) (fs : List (Text × CompiledFieldFilter))
    → is_none (first_veto a fs) ≡ all (passes a) fs
first_veto-none a [] = refl
first_veto-none a ((field, f) ∷ fs) =
    or_continue-none field (veto_of a field f) (first_veto a fs)
    ∙ ap (λ b. b && is_none (first_veto a fs)) (veto_of-none a field f)
    ∙ ap (λ b. passes a (field, f) && b) (first_veto-none a fs)

decide_required-wants :
    (first : CompiledWatch) (o : Option Text) (v : Option (Text × FieldVeto))
    → wants (decide_required first o v) ≡ (is_none o && is_none v)
unfolding decide_required decide_filters
decide_required-wants first none none = refl
decide_required-wants first none (some (field, why)) = refl
decide_required-wants first (some f) v = refl

decide_matched-wants :
    (a : Announce) (m : List CompiledWatch) (rf : List Text)
    (ff : List (Text × CompiledFieldFilter))
    → wants (decide_matched a m rf ff)
      ≡ (not (is_nil m) && (all (has a) (required rf m) && all (passes a) (filters ff m)))
unfolding decide_matched
decide_matched-wants a [] rf ff = refl
decide_matched-wants a (first ∷ others) rf ff =
    let m = first ∷ others in
    decide_required-wants first (missing a (required rf m)) (first_veto a (filters ff m))
    ∙ ap (λ b. b && is_none (first_veto a (filters ff m))) (find-not (has a) (required rf m))
    ∙ ap (λ b. all (has a) (required rf m) && b) (first_veto-none a (filters ff m))

or-kept : (b c : Bool) → (not (not b) || c) ≡ (b || c)
or-kept b c = ground arith

rules-all {ℓ} :
    {A : Type ℓ} (q c d : A → Bool) (xs : List A) (p : CompiledWatch → Bool)
    (f : CompiledWatch → List A) (dl : List CompiledWatch)
    → ((x : A) → c x ≡ d x)
    → all q (keep_if (λ x. not (c x)) xs ++ flat_map f (keep_if p dl))
      ≡ (all (λ x. d x || q x) xs && all (λ w. not (p w) || all q (f w)) dl)
rules-all q c d xs p f dl same =
    all-append q (keep_if (λ x. not (c x)) xs) (flat_map f (keep_if p dl))
    ∙ ap (λ b. b && all q (flat_map f (keep_if p dl)))
        (all-keep_if (λ x. not (c x)) q xs
          ∙ all_cong (λ x. not (not (c x)) || q x) (λ x. d x || q x) xs
              (λ x. or-kept (c x) (q x) ∙ ap (λ b. b || q x) (same x)))
    ∙ ap (λ b. all (λ x. d x || q x) xs && b)
        (all-flat_map q f (keep_if p dl) ∙ all-keep_if p (λ w. all q (f w)) dl)

required-has :
    (a : Announce) (dl : List CompiledWatch) (rf : List Text)
    → all (has a) (required rf (matching a.name dl)) ≡ (
        all (λ f. claims a.name dl f || has a f) rf
        && all (λ w. not (w.regex.is_match a.name) || all (has a) w.require_fields) dl)
unfolding required
required-has a dl rf =
    rules-all (has a) (contains (overridden (matching a.name dl))) (claims a.name dl) rf
      (λ w. w.regex.is_match a.name) (λ w. w.require_fields) dl (overridden-claims a.name dl)

filters-passes :
    (a : Announce) (dl : List CompiledWatch) (ff : List (Text × CompiledFieldFilter))
    → all (passes a) (filters ff (matching a.name dl)) ≡ (
        all (λ (f, r). claims a.name dl f || passes a (f, r)) ff
        && all (λ w. not (w.regex.is_match a.name) || all (passes a) w.field_filters) dl)
unfolding filters
filters-passes a dl ff =
    rules-all (passes a) (λ (f, r). contains (overridden (matching a.name dl)) f)
      (λ (f, r). claims a.name dl f) ff (λ w. w.regex.is_match a.name) (λ w. w.field_filters) dl
      (λ (f, r). overridden-claims a.name dl f)

all_together :
    (w c n m req fil r1 r2 f1 f2 : Bool)
    → w ≡ (n && (req && fil))
    → n ≡ m
    → req ≡ (r1 && r2)
    → fil ≡ (f1 && f2)
    → true ≡ c
    → w ≡ (c && m && r1 && r2 && f1 && f2)
all_together w c n m req fil r1 r2 f1 f2 hw hm hr hf hc = ground arith

-- The decision wants a release just when nothing rejects its name, an entry of the download list
-- matches it, every field that a matching entry requires is present and every field rule of a
-- matching entry passes, and so does each global one on a field that no matching entry names.
pub decide-wants : (a : Announce) (l : Lists) → wants (decide a l) ≡ should_want a l
unfolding decide decide_reject
decide-wants a l =
    let rejects = find-is_none (λ r. r.is_match a.name) l.reject_regexes in
    let matched = keep_if-is_nil (λ w. w.regex.is_match a.name) l.dl_watches in
    let has_required = required-has a l.dl_watches l.require_fields in
    let passes_filters = filters-passes a l.dl_watches l.field_filters in
    elim (Option-cases (find (λ r. r.is_match a.name) l.reject_regexes)) [
      | inl e ↦
          let clear : true ≡ not (any (λ r. r.is_match a.name) l.reject_regexes) =
            sym (ap is_none e) ∙ rejects in
          let split =
            decide_matched-wants a (matching a.name l.dl_watches) l.require_fields
              l.field_filters in
          rw e (all_together _ _ _ _ _ _ _ _ _ _ split matched has_required passes_filters clear)
      | inr (r, e) ↦
          let hit : false ≡ not (any (λ r. r.is_match a.name) l.reject_regexes) =
            sym (ap is_none e) ∙ rejects in
          rw (e, sym hit) refl
    ]
