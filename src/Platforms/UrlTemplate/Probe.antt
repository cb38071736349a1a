-- ===== src/Platforms/UrlTemplate/Probe.antt =====
-- src/platforms/url_template.rs: the probe prefix, and what a parsed template guarantees.
use irc2torrent.Prelude.{
  ℕ, zero, suc, ◌+◌, ◌≤◌, ◌<◌, ◌≡◌, ◌⊎◌, refl, inl, inr, Bool, true, false, not, ◌||◌, List, [],
  ◌∷◌, arith, Text, Option, none, some, ok, ◌>>=◌, bind-eq-ok, ok_or, length, is_empty, trim, codes,
  text_eq, text_eq_iff, Bool-cases, subst,
}
use irc2torrent.Announce.{starts_with}
use irc2torrent.Template.{Part, lex}
use irc2torrent.Platforms.UrlTemplate.{
  UrlLib, probe_for, has_substring, insert_q, probe_prefix_loop, probe_prefix_for, UrlError,
  bad_url, empty_template, from_lex, literals_of, probes_from, fill_probes, find_probe,
  refuse_probe, check, host_missing, UrlTemplate, authority_of, probes_of, validate, parse_probe,
  parse_lexed, parse,
}

length-starts_with-le : (p t : Text) → starts_with p t ≡ true → length p ≤ length t
length-starts_with-le [] t h = omega arith
length-starts_with-le (x ∷ p) [] h = cc
length-starts_with-le (x ∷ p) (c ∷ t) h = ground (arith, length-starts_with-le p t)

length-has_substring-le : (p t : Text) → has_substring p t ≡ true → length p ≤ length t
unfolding has_substring
length-has_substring-le p [] h = length-starts_with-le p [] h
length-has_substring-le p (c ∷ t) h =
    ground (arith, length-starts_with-le p (c ∷ t), length-has_substring-le p t)

probe_prefix_loop-fresh :
    (fuel : ℕ) (literals : Text) (c : ℕ) (prefix : Text)
    → length literals < length (c ∷ prefix) + fuel
    → has_substring (probe_prefix_loop fuel literals (c ∷ prefix)) literals ≡ false
unfolding probe_prefix_loop insert_q
probe_prefix_loop-fresh zero literals c prefix h =
    elim (Bool-cases (has_substring (c ∷ prefix) literals)) [
      | inl found ↦ absurd (omega (arith, length-has_substring-le (c ∷ prefix) literals found))
      | inr fresh ↦ fresh
    ]
probe_prefix_loop-fresh (suc fuel) literals c prefix h =
    elim (Bool-cases (has_substring (c ∷ prefix) literals)) [
      | inl found ↦ rw found (probe_prefix_loop-fresh fuel literals c (b'q' ∷ prefix) (omega arith))
      | inr fresh ↦ rw fresh fresh
    ]

-- The loop that lengthens the probe prefix ends with one that does not occur in the template's
-- literal text.
pub probe_prefix_for-fresh :
    (literals : Text) → has_substring (probe_prefix_for literals) literals ≡ false
unfolding probe_prefix_for
probe_prefix_for-fresh literals =
    probe_prefix_loop-fresh (length literals) literals b'q' (codes "qzzprobe") (omega arith)

find_probe-none :
    (authority prefix : Text) (k : ℕ) (names : List Text) (i j : ℕ)
    → k + i ≡ j
    → find_probe authority (probes_from prefix k (length names)) names ≡ none
    → i < length names
    → has_substring (probe_for prefix j) authority ≡ false
unfolding find_probe probes_from
find_probe-none authority prefix k [] i j e h lt = absurd (omega arith)
find_probe-none authority prefix k (n ∷ names) zero j e h lt =
    let same : k ≡ j = omega arith in rw (← same) (ground arith)
find_probe-none authority prefix k (n ∷ names) (suc i) j e h lt =
    find_probe-none authority prefix (k + 1) names i j (omega arith) (ground arith) (omega arith)

probes_of-none :
    (lexed : List Part × List Text) (authority : Text) (i : ℕ)
    → find_probe authority (probes_of lexed) lexed.1 ≡ none
    → i < length lexed.1
    → has_substring (probe_for (probe_prefix_for (literals_of lexed.0)) i) authority ≡ false
unfolding probes_of
probes_of-none lexed authority i h lt =
    find_probe-none authority (probe_prefix_for (literals_of lexed.0)) 0 lexed.1 i i (omega arith) h
      lt

refuse_probe-ok : (o : Option Text) (u : Unit {0}) → refuse_probe o ≡ ok u → o ≡ none
unfolding refuse_probe
refuse_probe-ok none u h = refl
refuse_probe-ok (some n) u h = cc

pub check-ok : (b : Bool) (e : UrlError) (u : Unit {0}) → check b e ≡ ok u → b ≡ true
check-ok true e u h = refl
check-ok false e u h = cc

pub ok_or-ok :
    {A : Type 0} {E : Type 0} (o : Option A) (e : E) (a : A) → ok_or o e ≡ ok a → o ≡ some a
ok_or-ok none e a h = cc
ok_or-ok (some b) e a h = cc

-- What a template that parses has been checked for: its authority is that of an http or https URL
-- with a host, and holds the stand-in of no placeholder.
pub record IsChecked (lib : UrlLib) (t : UrlTemplate) : Type 0 where
  pub prefix : Text
  pub url : lib.Url
  pub same_authority : t.authority ≡ authority_of lib url
  pub http : (lib.scheme url ≡ codes "http") ⊎ (lib.scheme url ≡ codes "https")
  pub has_host : host_missing (lib.host_str url) ≡ false
  pub no_probe :
      (i : ℕ) → i < length t.names → has_substring (probe_for prefix i) t.authority ≡ false

is_http :
    (s : Text)
    → (text_eq s (codes "http") || text_eq s (codes "https")) ≡ true
    → (s ≡ codes "http") ⊎ (s ≡ codes "https")
is_http s h = elim (Bool-cases (text_eq s (codes "http"))) [
  | inl plain ↦ inl ((text_eq_iff s (codes "http")).0 plain)
  | inr other ↦ inr ((text_eq_iff s (codes "https")).0 (rw other at h))
]

module _ (lib : UrlLib) where
  validate-facts :
      (lexed : List Part × List Text) (url : lib.Url) (t : UrlTemplate)
      → validate lib lexed url ≡ ok t
      → ((text_eq (lib.scheme url) (codes "http") || text_eq (lib.scheme url) (codes "https"))
          ≡ true)
        × (host_missing (lib.host_str url) ≡ false)
        × (find_probe (authority_of lib url) (probes_of lexed) lexed.1 ≡ none)
        × (t.authority ≡ authority_of lib url)
        × (t.names ≡ lexed.1)
  unfolding validate refuse_probe
  validate-facts lexed url t h = ground arith

  validate-IsChecked :
      (lexed : List Part × List Text) (url : lib.Url) (t : UrlTemplate)
      → validate lib lexed url ≡ ok t
      → IsChecked lib t
  validate-IsChecked lexed url t h =
      let (scheme_ok, host_ok, none_found, same, names) = validate-facts lexed url t h in
      record {
        prefix = probe_prefix_for (literals_of lexed.0);
        url = url;
        same_authority = same;
        http = is_http (lib.scheme url) scheme_ok;
        has_host = host_ok;
        no_probe = λ i lt. rw same (
            probes_of-none lexed (authority_of lib url) i none_found
              (subst (λ ns. i < length ns) names lt));
      }

  -- A template that `parse` accepts names an http or https server, and no placeholder reaches its
  -- scheme, user, host or port.
  pub parse-IsChecked :
      (template : Text) (t : UrlTemplate) → parse lib template ≡ ok t → IsChecked lib t
  unfolding parse parse_lexed parse_probe
  parse-IsChecked template t h =
      let (_, _, h₁) =
        bind-eq-ok (check (not (is_empty (trim template))) empty_template)
          (λ _. from_lex (lex template) >>= parse_lexed lib) h in
      let (lexed, _, h₂) = bind-eq-ok (from_lex (lex template)) (parse_lexed lib) h₁ in
      let (probe, _, h₃) =
        bind-eq-ok (fill_probes (probes_of lexed) lexed.0) (parse_probe lib lexed) h₂ in
      let (url, _, h₄) = bind-eq-ok (ok_or (lib.parse_url probe) bad_url) (validate lib lexed) h₃ in
      validate-IsChecked lexed url t h₄
