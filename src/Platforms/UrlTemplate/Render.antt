-- ===== src/Platforms/UrlTemplate/Render.antt =====
-- src/platforms/url_template.rs: what a rendered download URL is made of, and where it leads.
use irc2torrent.Prelude.{
  ℕ, ◌≡◌, ◌≢◌, refl, ◌∙◌, sym, ap, Bool, true, not, ◌&&◌, ◌||◌, List, [], ◌∷◌, ◌++◌, arith, Text,
  Option, none, some, ok, ◌>>=◌, bind-eq-ok, ok_or, get_elem?, all, ltb, ◌==◌, is_alphanumeric,
  codes, text_eq, text_eq_iff, subst,
}
use irc2torrent.IrcFormat.{is_hex_digit}
use irc2torrent.Template.{Part, literal, field, FieldSource}
use irc2torrent.Platforms.UrlTemplate.{
  UrlLib, escapes, index_out_of_range, unparseable, other_host, check, UrlTemplate, authority_of,
  encode_field, fill, render,
}
use irc2torrent.Platforms.UrlTemplate.Probe.{ok_or-ok, check-ok}

-- RFC 3986 unreserved characters, and the percent sign of an escape: no delimiter is among them.
abbrev pub is_url_safe : ℕ → Bool
is_url_safe c =
    is_alphanumeric c || (c == b'-' || (c == b'.' || (c == b'_' || (c == b'~' || c == b'%'))))

-- What percent-encoding promises: an escape is `%` and hexadecimal digits, and what is not escaped
-- is ASCII outside the set.
abbrev pub EncodesOutside : UrlLib → Type 0
EncodesOutside lib =
    (set : ℕ → Bool) (t : Text)
    → all (λ c. c == b'%' || is_hex_digit c || (ltb c 128 && not (set c)))
        (lib.percent_encode set t)
      ≡ true

abbrev pub IsUsable : Text → Type 0
IsUsable raw = (raw ≢ []) × (raw ≢ codes ".") × (raw ≢ codes "..")

module _ (lib : UrlLib) (names : List Text) (fields : FieldSource) where
  -- The text that the parts of a template are filled to.
  pub data Fills : List Part → Text → Type 0 where
    done : Fills [] []
    text :
        {ps : List Part} {out : Text} (t : Text) → Fills ps out → Fills (literal t ∷ ps) (t ++ out)
    value :
        {ps : List Part} {out : Text} {i : ℕ} (name raw : Text)
        → get_elem? names i ≡ some name
        → fields.get name ≡ some raw
        → IsUsable raw
        → all is_url_safe (lib.percent_encode escapes raw) ≡ true
        → Fills ps out
        → Fills (field i ∷ ps) (lib.percent_encode escapes raw ++ out)

all_mono :
    (p q : ℕ → Bool)
    → ((c : ℕ) → p c ≡ true → q c ≡ true)
    → (t : Text) → all p t ≡ true
    → all q t ≡ true
all_mono p q h [] k = refl
all_mono p q h (c ∷ cs) k = ground (arith, h c, all_mono p q h cs)

encoded_safe :
    (lib : UrlLib)
    → EncodesOutside lib
    → (raw : Text) → all is_url_safe (lib.percent_encode escapes raw) ≡ true
encoded_safe lib law raw =
    all_mono _ is_url_safe (λ c h. ground arith) (lib.percent_encode escapes raw) (law escapes raw)

encode_field-ok :
    (lib : UrlLib) (name : Text) (o : Option Text) (v : Text)
    → encode_field lib name o ≡ ok v
    → (raw : Text) × (o ≡ some raw) × IsUsable raw × (v ≡ lib.percent_encode escapes raw)
unfolding encode_field
encode_field-ok lib name none v h = cc
encode_field-ok lib name (some raw) v h = (
  raw,
  refl,
  (
    λ e. absurd (cc (ap (encode_field lib name) (ap some e), h)),
    λ e. absurd (cc (ap (encode_field lib name) (ap some e), h)),
    λ e. absurd (cc (ap (encode_field lib name) (ap some e), h)),
  ),
  ground arith,
)

module _ (lib : UrlLib) (law : EncodesOutside lib) (names : List Text) (fields : FieldSource) where
  fill-Fills :
      (ps : List Part) (out : Text)
      → fill lib names fields ps ≡ ok out
      → Fills lib names fields ps out
  unfolding fill
  fill-Fills [] out h = subst (Fills lib names fields []) (ground arith) done
  fill-Fills (literal t ∷ ps) out h =
      let (rest, filled, e) = bind-eq-ok (fill lib names fields ps) (λ rest. ok (t ++ rest)) h in
      subst (Fills lib names fields (literal t ∷ ps)) (ground arith)
        (text t (fill-Fills ps rest filled))
  fill-Fills (field i ∷ ps) out h =
      let (name, found, h₁) =
        bind-eq-ok (ok_or (get_elem? names i) index_out_of_range)
          (λ name. encode_field lib name (fields.get name) >>= λ v.
            fill lib names fields ps >>= λ rest. ok (v ++ rest))
          h in
      let (v, encoded, h₂) =
        bind-eq-ok (encode_field lib name (fields.get name))
          (λ v. fill lib names fields ps >>= λ rest. ok (v ++ rest)) h₁ in
      let (rest, filled, h₃) = bind-eq-ok (fill lib names fields ps) (λ rest. ok (v ++ rest)) h₂ in
      let (raw, got, usable, e) = encode_field-ok lib name (fields.get name) v encoded in
      subst (Fills lib names fields (field i ∷ ps)) (ap (λ x. x ++ rest) (sym e) ∙ ground arith) (
        value name raw (ok_or-ok (get_elem? names i) index_out_of_range name found) got usable
          (encoded_safe lib law raw) (fill-Fills ps rest filled))

-- A rendered download URL is the text of a URL with the template's own authority; that URL was
-- parsed from the template's literals and, for each placeholder, the percent-encoding of a value
-- that is present and is not empty, `.` or `..`; and no encoded value holds a URL delimiter.
pub render_target :
    (lib : UrlLib) (t : UrlTemplate) (fields : FieldSource) (s : Text)
    → EncodesOutside lib
    → render lib t fields ≡ ok s
    → (out : Text) × (url : lib.Url) × Fills lib t.names fields t.parts out
      × (lib.parse_url out ≡ some url)
      × (authority_of lib url ≡ t.authority)
      × (s ≡ lib.url_text url)
unfolding render
render_target lib t fields s law h =
    let (out, filled, h₁) =
      bind-eq-ok (fill lib t.names fields t.parts)
        (λ out. ok_or (lib.parse_url out) unparseable >>= λ url.
          check (text_eq (authority_of lib url) t.authority) other_host >>= λ _.
          ok (lib.url_text url))
        h in
    let (url, parsed, h₂) =
      bind-eq-ok (ok_or (lib.parse_url out) unparseable)
        (λ url. check (text_eq (authority_of lib url) t.authority) other_host >>= λ _.
          ok (lib.url_text url))
        h₁ in
    let (u, same, h₃) =
      bind-eq-ok (check (text_eq (authority_of lib url) t.authority) other_host)
        (λ _. ok (lib.url_text url)) h₂ in
    (
      out,
      url,
      fill-Fills lib law t.names fields t.parts out filled,
      ok_or-ok (lib.parse_url out) unparseable url parsed,
      (text_eq_iff (authority_of lib url) t.authority).0
          (check-ok (text_eq (authority_of lib url) t.authority) other_host u same),
      cc,
    )
