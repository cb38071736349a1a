-- ===== src/Platforms/UrlTemplate/Tests.antt =====
-- src/platforms/url_template.rs: the theorems at a tracker whose URLs are taken as they stand.
use irc2torrent.Prelude.{
  ℕ, ◌+◌, ◌/◌, ◌%◌, ◌<◌, ◌≡◌, refl, inl, inr, Bool, true, false, not, ◌&&◌, ◌||◌, [], ◌∷◌, ◌++◌,
  Text, codes, none, some, ok, ltb, ◌==◌, if◌then◌else◌, Bool-cases, arith, decimal,
}
use irc2torrent.IrcFormat.{is_hex_digit}
use irc2torrent.Template.{FieldSource, literal, field, lex}
use irc2torrent.Platforms.UrlTemplate.{
  probes_from, probe_for, literals_of, UrlLib, UrlTemplate, has_substring, probe_prefix_for, parse,
  render, authority_of,
}
use irc2torrent.Platforms.UrlTemplate.Probe.{probe_prefix_for-fresh}
use irc2torrent.Platforms.UrlTemplate.Render.{EncodesOutside, Fills, render_target}

abbrev hex : ℕ → ℕ
hex d = if ltb d 10 then 48 + d else 55 + d

abbrev escape : (ℕ → Bool) → Text → Text
escape set [] = []
escape set (c ∷ cs) =
    (if ltb c 128 && not (set c) then c ∷ [] else b'%' ∷ hex (c / 16 % 16) ∷ hex (c % 16) ∷ [])
    ++ escape set cs

hex-is_hex_digit : (d : ℕ) → d < 16 → is_hex_digit (hex d) ≡ true
hex-is_hex_digit d h = ground arith

-- One host, whatever the text.
abbrev lib : UrlLib
lib = record {
  Url = Text;
  parse_url = λ t. some t;
  scheme = λ u. codes "https";
  username = λ u. [];
  password = λ u. none;
  host_str = λ u. some (codes "tracker.example");
  port_or_known_default = λ u. some 443;
  url_text = λ u. u;
  percent_encode = escape;
}

abbrev outside : (ℕ → Bool) → ℕ → Bool
outside set c = c == b'%' || is_hex_digit c || (ltb c 128 && not (set c))

kept_char :
    (set : ℕ → Bool) (c : ℕ) {b : Bool}
    → (ltb c 128 && not (set c)) ≡ true
    → b ≡ true
    → (outside set c && b) ≡ true
kept_char set c e h = ground (arith, e, h)

escaped_char :
    (set : ℕ → Bool) (d e : ℕ) {b : Bool}
    → d < 16
    → e < 16
    → b ≡ true
    → (outside set b'%' && (outside set (hex d) && (outside set (hex e) && b))) ≡ true
escaped_char set d e hd he h = ground (arith, hex-is_hex_digit d hd, hex-is_hex_digit e he, h)

lib-EncodesOutside : EncodesOutside lib
lib-EncodesOutside set [] = refl
lib-EncodesOutside set (c ∷ cs) = elim (Bool-cases (ltb c 128 && not (set c))) [
  | inl e ↦ rw e (kept_char set c e (lib-EncodesOutside set cs))
  | inr e ↦ rw e (
      escaped_char set (c / 16 % 16) (c % 16) (omega arith) (omega arith)
        (lib-EncodesOutside set cs))
]

probe_prefix_for-fresh_example :
    has_substring (probe_prefix_for (codes "https://t/qqzzprobe0q")) (codes "https://t/qqzzprobe0q")
    ≡ false
probe_prefix_for-fresh_example = probe_prefix_for-fresh (codes "https://t/qqzzprobe0q")

abbrev url_template : UrlTemplate
url_template = record {
  parts = literal (codes "https://t/") ∷ field 0 ∷ [];
  names = codes "id" ∷ [];
  authority = codes "https://:@tracker.example:443";
  uses_key = false;
}

abbrev id_field : FieldSource
id_field = record { get = λ name. some (codes "a/b"); values = λ name. [] }

parsed : parse lib (codes "https://t/{id}") ≡ ok url_template
unfolding parse lex decimal probes_from authority_of probe_for probe_prefix_for literals_of
parsed = refl

rendered : render lib url_template id_field ≡ ok (codes "https://t/a%2Fb")
unfolding render decimal
rendered = refl

render_target_example :
    (out : Text) × (url : Text) × Fills lib (codes "id" ∷ []) id_field url_template.parts out
    × (some out ≡ some url)
    × (authority_of lib url ≡ codes "https://:@tracker.example:443")
    × (codes "https://t/a%2Fb" ≡ url)
render_target_example =
    render_target lib url_template id_field (codes "https://t/a%2Fb") lib-EncodesOutside rendered
