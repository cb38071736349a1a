-- ===== src/Platforms/Http/Names.antt =====
-- src/platforms/http.rs: a sanitised name is a plain file name inside the torrent directory.
use mathlib.Core.List.{reverse}
use irc2torrent.Prelude.{
  trim_end_of_splits, all-reverse, ℕ, ◌≤◌, ◌≡◌, refl, ◌∙◌, ap, inl, inr, Bool, true, false, List,
  [], ◌∷◌, ◌++◌, map, arith, Text, some, length, length-append, length-take, all, all-append,
  all-take, ltb, ◌==◌, codes, text_eq_refl, trim_start_of, trim_end_of, Bool-cases, subst,
  append-nil, append_assoc,
}
use irc2torrent.Platforms.Http.{
  max_stem_len, is_safe_char, is_dot, safe_char, truncate_stem, default_stem,
  sanitize_torrent_filename, FilePath, pieces, normal_pieces, is_rooted, path_of, join_path, join,
  all_but_last, parent, equal_components, equal_paths, is_parent, assert_within,
}

all-trim_start_of : (p q : ℕ → Bool) (t : Text) → all q t ≡ true → all q (trim_start_of p t) ≡ true
all-trim_start_of p q [] h = refl
all-trim_start_of p q (c ∷ cs) h = ground (arith, all-trim_start_of p q cs)

all-safe_char : (t : Text) → all is_safe_char (map safe_char t) ≡ true
unfolding safe_char
all-safe_char [] = refl
all-safe_char (c ∷ cs) = ground (arith, all-safe_char cs)

trimmed : Text → Text
trimmed name = trim_end_of is_dot (trim_start_of is_dot (map safe_char name))

all-trimmed : (name : Text) → all is_safe_char (trimmed name) ≡ true
unfolding trimmed
all-trimmed name =
    let start = trim_start_of is_dot (map safe_char name) in
    all-reverse is_safe_char (trim_start_of is_dot (reverse start)) (
      all-trim_start_of is_dot is_safe_char (reverse start) (
        all-reverse is_safe_char start
          (all-trim_start_of is_dot is_safe_char (map safe_char name) (all-safe_char name))))

-- The stem that the suffix is added to.
stem_of : Text → Text
stem_of name = default_stem (truncate_stem (trimmed name))

all-default_stem : (t : Text) → all is_safe_char t ≡ true → all is_safe_char (default_stem t) ≡ true
unfolding default_stem
all-default_stem [] h = refl
all-default_stem (c ∷ cs) h = h

all-truncate_stem :
    (t : Text) → all is_safe_char t ≡ true → all is_safe_char (truncate_stem t) ≡ true
unfolding truncate_stem
all-truncate_stem t h = elim (Bool-cases (ltb max_stem_len (length t))) [
  | inl long ↦ rw long (all-take is_safe_char max_stem_len t h)
  | inr short ↦ rw short h
]

all-stem_of : (name : Text) → all is_safe_char (stem_of name) ≡ true
unfolding stem_of
all-stem_of name =
    all-default_stem (truncate_stem (trimmed name))
      (all-truncate_stem (trimmed name) (all-trimmed name))

-- Every character of the file name is a letter, a digit, `-`, `_` or `.`, whatever the release was
-- called; so none is a separator.
pub all-sanitize_torrent_filename :
    (name : Text) → all is_safe_char (sanitize_torrent_filename name) ≡ true
unfolding sanitize_torrent_filename stem_of trimmed
all-sanitize_torrent_filename name =
    all-append is_safe_char (stem_of name) (codes ".torrent") ∙ rw (all-stem_of name)

length-truncate_stem-le : (t : Text) → length (truncate_stem t) ≤ max_stem_len
unfolding truncate_stem
length-truncate_stem-le t = elim (Bool-cases (ltb max_stem_len (length t))) [
  | inl long ↦ rw long (omega (arith, length-take max_stem_len t))
  | inr short ↦ rw short (ground (arith, short))
]

length-default_stem-le :
    (t : Text) → length t ≤ max_stem_len → length (default_stem t) ≤ max_stem_len
unfolding default_stem
length-default_stem-le [] h = omega arith
length-default_stem-le (c ∷ cs) h = h

length-stem_of-le : (name : Text) → length (stem_of name) ≤ max_stem_len
unfolding stem_of
length-stem_of-le name =
    length-default_stem-le (truncate_stem (trimmed name)) (length-truncate_stem-le (trimmed name))

-- The file name is at most 208 characters long, so it fits a file system's 255 bytes.
pub length-sanitize_torrent_filename : (name : Text) → length (sanitize_torrent_filename name) ≤ 208
unfolding sanitize_torrent_filename stem_of trimmed
length-sanitize_torrent_filename name =
    omega (arith, length-append (stem_of name) (codes ".torrent"), length-stem_of-le name)

-- A text whose first character, if any, is no dot.
abbrev pub NoLeadingDot : Text → Type 0
NoLeadingDot [] = Unit
NoLeadingDot (c ∷ cs) = is_dot c ≡ false

trim_start_of-NoLeadingDot : (t : Text) → NoLeadingDot (trim_start_of is_dot t)
trim_start_of-NoLeadingDot [] = tt
trim_start_of-NoLeadingDot (c ∷ cs) = elim (Bool-cases (is_dot c)) [
  | inl dot ↦ rw dot (trim_start_of-NoLeadingDot cs)
  | inr plain ↦ rw plain plain
]

NoLeadingDot-left : (a b : Text) → NoLeadingDot (a ++ b) → NoLeadingDot a
NoLeadingDot-left [] b h = tt
NoLeadingDot-left (c ∷ cs) b h = h

trimmed-NoLeadingDot : (name : Text) → NoLeadingDot (trimmed name)
unfolding trimmed
trimmed-NoLeadingDot name =
    let start = trim_start_of is_dot (map safe_char name) in
    let (d, e, dots) = trim_end_of_splits is_dot start in
    NoLeadingDot-left (trim_end_of is_dot start) d
      (subst NoLeadingDot e (trim_start_of-NoLeadingDot (map safe_char name)))

truncate_stem-NoLeadingDot : (t : Text) → NoLeadingDot t → NoLeadingDot (truncate_stem t)
unfolding truncate_stem
truncate_stem-NoLeadingDot [] h = tt
truncate_stem-NoLeadingDot (c ∷ cs) h = elim (Bool-cases (ltb max_stem_len (length (c ∷ cs)))) [
  | inl long ↦ rw long h
  | inr short ↦ rw short h
]

-- The stem is not empty and begins with no dot.
default_stem-cons :
    (t : Text)
    → NoLeadingDot t
    → (c : ℕ) × (cs : Text) × (default_stem t ≡ c ∷ cs) × (is_dot c ≡ false)
unfolding default_stem
default_stem-cons [] h = (b't', codes "orrent", refl, refl)
default_stem-cons (c ∷ cs) h = (c, cs, refl, h)

sanitize-cons :
    (name : Text)
    → (c : ℕ) × (cs : Text) × (sanitize_torrent_filename name ≡ c ∷ (cs ++ codes ".torrent"))
      × (is_dot c ≡ false)
unfolding sanitize_torrent_filename trimmed
sanitize-cons name =
    let (c, cs, e, h) =
      default_stem-cons (truncate_stem (trimmed name))
        (truncate_stem-NoLeadingDot (trimmed name) (trimmed-NoLeadingDot name)) in
    (c, cs, ap (λ t. t ++ codes ".torrent") e, h)

-- A text of safe characters is one path component.
pieces-safe : (piece t : Text) → all is_safe_char t ≡ true → pieces piece t ≡ (piece ++ t) ∷ []
unfolding pieces
pieces-safe piece [] h = rw append-nil
pieces-safe piece (c ∷ cs) h = elim (Bool-cases (c == b'/')) [
  | inl slash ↦ ground arith
  | inr plain ↦ rw plain (
      pieces-safe (piece ++ c ∷ []) cs (ground arith)
      ∙ ap (λ x. x ∷ []) (append_assoc piece (c ∷ []) cs))
]

path_of-safe :
    (c : ℕ) (cs : Text)
    → all is_safe_char (c ∷ cs) ≡ true
    → is_dot c ≡ false
    → path_of (c ∷ cs) ≡ record { rooted = false; components = (c ∷ cs) ∷ [] }
unfolding path_of is_rooted normal_pieces
path_of-safe c cs h k = rw (pieces-safe [] (c ∷ cs) h) (ground arith)

all_but_last-append : (ps : List Text) (p : Text) → all_but_last (ps ++ p ∷ []) ≡ ps
unfolding all_but_last
all_but_last-append [] p = refl
all_but_last-append (q ∷ []) p = refl
all_but_last-append (q ∷ r ∷ ps) p = ap (◌∷◌ q) (all_but_last-append (r ∷ ps) p)

equal_components_refl : (ps : List Text) → equal_components ps ps ≡ true
unfolding equal_components
equal_components_refl [] = refl
equal_components_refl (p ∷ ps) = rw (text_eq_refl p) (equal_components_refl ps)

parent-append :
    (dir : FilePath) (ps : List Text) (p : Text)
    → parent (record dir { components = ps ++ p ∷ [] }) ≡ some (record dir { components = ps })
unfolding parent
parent-append dir [] p = ap (λ x. some (record dir { components = x })) (all_but_last-append [] p)
parent-append dir (q ∷ ps) p =
    ap (λ x. some (record dir { components = x })) (all_but_last-append (q ∷ ps) p)

join-safe :
    (dir : FilePath) (c : ℕ) (cs : Text)
    → all is_safe_char (c ∷ cs) ≡ true
    → is_dot c ≡ false
    → join dir (c ∷ cs) ≡ record dir { components = dir.components ++ (c ∷ cs) ∷ [] }
unfolding join
join-safe dir c cs h k = ap (join_path dir) (path_of-safe c cs h k)

-- Whatever the release is called, the file is a direct child of the torrent directory: the path
-- joined from the two has that directory as its parent, and the check before the write passes.
pub assert_within-sanitize :
    (dir : FilePath) (name : Text)
    → (parent (join dir (sanitize_torrent_filename name)) ≡ some dir)
      × (assert_within dir (join dir (sanitize_torrent_filename name)) ≡ true)
unfolding assert_within is_parent equal_paths
assert_within-sanitize dir name = (child, rw child (both_ways dir))
  where
    child : parent (join dir (sanitize_torrent_filename name)) ≡ some dir
    child =
        let (c, cs, e, h) = sanitize-cons name in
        let safe = subst (λ t. all is_safe_char t ≡ true) e (all-sanitize_torrent_filename name) in
        rw (e, join-safe dir c (cs ++ codes ".torrent") safe h)
          (parent-append dir dir.components (c ∷ (cs ++ codes ".torrent")))

    both_ways : (d : FilePath) → equal_paths d d ≡ true
    both_ways d = rw (equal_components_refl d.components) (ground arith)
