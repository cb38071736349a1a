-- ===== src/Platforms/UrlTemplate.antt =====
-- src/platforms/url_template.rs: the download URL. The url and percent-encoding crates are the
-- parameter `UrlLib`.
mod Tests
pub mod Probe
pub mod Render
pub mod Sample
use irc2torrent.Prelude.{
  ℕ, zero, suc, ◌+◌, Bool, true, false, not, ◌&&◌, ◌||◌, List, [], ◌∷◌, ◌++◌, map, Text, Option,
  none, some, Result, ok, err, ◌>>=◌, ok_or, length, get_elem?, any, leb, ltb, ◌==◌, if◌then◌else◌,
  is_empty, trim, codes, text_eq, is_alphanumeric, contains, decimal,
}
use irc2torrent.Announce.{starts_with}
use irc2torrent.Template.{Part, literal, field, LexError, lex, FieldSource}

pub record UrlLib : Type 1 where
  pub Url : Type 0
  pub parse_url : Text → Option Url
  pub scheme : Url → Text
  pub username : Url → Text
  pub password : Url → Option Text
  pub host_str : Url → Option Text
  pub port_or_known_default : Url → Option ℕ
  pub url_text : Url → Text
  -- `utf8_percent_encode`, at the set of ASCII characters to escape
  pub percent_encode : (ℕ → Bool) → Text → Text

-- The members of `UNRESERVED`: what gets escaped.
abbrev pub escapes : ℕ → Bool
escapes c = not (is_alphanumeric c) && not (c == b'-' || (c == b'.' || (c == b'_' || c == b'~')))

abbrev pub reserved : List Text
reserved = codes "file" ∷ codes "key" ∷ []

abbrev pub base_prefix : Text
base_prefix = codes "qqzzprobe"

pub probe_for : Text → ℕ → Text
probe_for prefix idx = prefix ++ decimal idx ++ codes "q"

-- `str::contains` at a `str`
pub has_substring : Text → Text → Bool
has_substring p [] = starts_with p []
has_substring p (c ∷ cs) = starts_with p (c ∷ cs) || has_substring p cs

-- `prefix.insert(1, 'q')`
pub insert_q : Text → Text
insert_q [] = []
insert_q (c ∷ cs) = c ∷ b'q' ∷ cs

-- A prefix longer than the text cannot occur in it, so the length of the text is fuel enough.
pub probe_prefix_loop : ℕ → Text → Text → Text
unfolding has_substring insert_q
probe_prefix_loop zero literals prefix = prefix
probe_prefix_loop (suc fuel) literals prefix =
    let longer = probe_prefix_loop fuel literals (insert_q prefix) in
    if has_substring prefix literals then longer else prefix

pub probe_prefix_for : Text → Text
unfolding probe_prefix_loop
probe_prefix_for literals = probe_prefix_loop (length literals) literals base_prefix

pub data UrlError : Type 0 where
  empty_template bad_url no_host unparseable other_host index_out_of_range : UrlError
  lex_error : LexError → UrlError
  not_http in_authority no_value empty_value dot_value : Text → UrlError

pub from_lex {ℓ} : {A : Type ℓ} → Result LexError A → Result UrlError A
from_lex (ok a) = ok a
from_lex (err e) = err (lex_error e)

pub literals_of : List Part → Text
literals_of [] = []
literals_of (literal t ∷ ps) = t ++ literals_of ps
literals_of (field i ∷ ps) = literals_of ps

-- `(0..n).map(|i| probe_for(&prefix, i))`, from `i`
pub probes_from : Text → ℕ → ℕ → List Text
probes_from prefix i zero = []
probes_from prefix i (suc n) = probe_for prefix i ∷ probes_from prefix (i + 1) n

-- The probes of a lexed template, clear of its literal text.
pub probes_of : List Part × List Text → List Text
probes_of lexed = probes_from (probe_prefix_for (literals_of lexed.0)) 0 (length lexed.1)

pub fill_probes : List Text → List Part → Result UrlError Text
fill_probes probes [] = ok []
fill_probes probes (literal t ∷ ps) = do rest ← fill_probes probes ps; ok (t ++ rest)
fill_probes probes (field i ∷ ps) = do
  p ← ok_or (get_elem? probes i) index_out_of_range
  rest ← fill_probes probes ps
  ok (p ++ rest)

pub or_empty : Option Text → Text
or_empty none = []
or_empty (some t) = t

pub port_text : Option ℕ → Text
port_text none = []
port_text (some p) = decimal p

-- The first name whose probe is in the authority.
pub find_probe : Text → List Text → List Text → Option Text
unfolding has_substring
find_probe authority (p ∷ ps) (n ∷ ns) =
    let rest = find_probe authority ps ns in if has_substring p authority then some n else rest
find_probe authority _ _ = none

pub refuse_probe : Option Text → Result UrlError (Unit {0})
refuse_probe none = ok tt
refuse_probe (some n) = err (in_authority n)

abbrev pub check : Bool → UrlError → Result UrlError (Unit {0})
check true e = ok tt
check false e = err e

abbrev pub host_missing : Option Text → Bool
host_missing none = true
host_missing (some h) = is_empty h

pub record UrlTemplate : Type 0 where
  pub parts : List Part
  pub names : List Text
  pub authority : Text
  pub uses_key : Bool

module _ (lib : UrlLib) where
  open lib use {
    Url, parse_url, scheme, username, password, host_str, port_or_known_default, url_text,
    percent_encode,
  }

  pub authority_of : Url → Text
  unfolding or_empty port_text
  authority_of u =
      scheme u
      ++ codes "://"
      ++ username u
      ++ codes ":"
      ++ or_empty (password u)
      ++ codes "@"
      ++ or_empty (host_str u)
      ++ codes ":"
      ++ port_text (port_or_known_default u)

  -- The checks on the parsed probe URL, in the source's order.
  pub validate : List Part × List Text → Url → Result UrlError UrlTemplate
  unfolding find_probe refuse_probe
  validate lexed url = do
    _ ←
        check (text_eq (scheme url) (codes "http") || text_eq (scheme url) (codes "https"))
          (not_http (scheme url))
    _ ← check (not (host_missing (host_str url))) no_host
    _ ← refuse_probe (find_probe (authority_of url) (probes_of lexed) lexed.1)
    ok (record {
      parts = lexed.0;
      names = lexed.1;
      authority = authority_of url;
      uses_key = any (λ n. text_eq n (codes "key")) lexed.1;
    })

  pub parse_probe : List Part × List Text → Text → Result UrlError UrlTemplate
  unfolding validate
  parse_probe lexed probe = ok_or (parse_url probe) bad_url >>= validate lexed

  pub parse_lexed : List Part × List Text → Result UrlError UrlTemplate
  unfolding probes_of fill_probes parse_probe
  parse_lexed lexed = fill_probes (probes_of lexed) lexed.0 >>= parse_probe lexed

  pub parse : Text → Result UrlError UrlTemplate
  unfolding from_lex parse_lexed
  parse template = do
    _ ← check (not (is_empty (trim template))) empty_template
    lexed ← from_lex (lex template)
    parse_lexed lexed

  -- One placeholder's encoded value, or why the download is refused.
  pub encode_field : Text → Option Text → Result UrlError Text
  encode_field name none = err (no_value name)
  encode_field name (some raw) =
      if is_empty raw
      then err (empty_value name)
      else if text_eq raw (codes ".") || text_eq raw (codes "..")
      then err (dot_value name)
      else ok (percent_encode escapes raw)

  pub fill : List Text → FieldSource → List Part → Result UrlError Text
  unfolding encode_field
  fill names fields [] = ok []
  fill names fields (literal t ∷ ps) = do rest ← fill names fields ps; ok (t ++ rest)
  fill names fields (field i ∷ ps) = do
    name ← ok_or (get_elem? names i) index_out_of_range
    value ← encode_field name (fields.get name)
    rest ← fill names fields ps
    ok (value ++ rest)

  pub render : UrlTemplate → FieldSource → Result UrlError Text
  unfolding fill authority_of
  render t fields = do
    out ← fill t.names fields t.parts
    url ← ok_or (parse_url out) unparseable
    _ ← check (text_eq (authority_of url) t.authority) other_host
    ok (url_text url)
