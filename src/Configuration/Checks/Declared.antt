-- ===== src/Configuration/Checks/Declared.antt =====
-- src/config.rs: every name that an accepted configuration mentions is a group of the announce regex.
use irc2torrent.Prelude.{
  ◌≡◌, ◌⊎◌, refl, inl, inr, arith, Bool, true, false, not, ◌&&◌, ◌||◌, List, [], Text, Option, none,
  some, Result, ok, err, for_each-ok, then-ok, bind-eq-ok, if◌then◌else◌, contains, is_empty, trim,
  All,
}
use irc2torrent.Announce.{CaptureOptions, required_names}
use irc2torrent.Template
use irc2torrent.Template.{LexError, TextTemplate}
use irc2torrent.Platforms.UrlTemplate
use irc2torrent.Platforms.UrlTemplate.{UrlLib, UrlError, UrlTemplate, reserved}
use irc2torrent.CommandProcessor.Watchlist.{FieldFilter, WatchEntry}
use irc2torrent.Configuration.Sections.{PlatformSection, TorrentClientOption}
use irc2torrent.Configuration.Data.{OptionData, entry_require_fields, entry_field_filters}
use irc2torrent.Configuration.Checks.{
  ConfigError, ensure, undeclared_placeholder, check_field, check_required, check_capture,
  check_key, check_filters, check_entry, check_parsed, check_template, templates_of, check_client,
  validate_announce_captures, check_placeholder, url_result, validate_platform,
}

abbrev pub IsDeclared : List Text → Text → Type 0
IsDeclared declared name = contains declared name ≡ true

-- The name of a rule is declared.
abbrev pub IsDeclaredFilter : List Text → Text × FieldFilter → Type 0
IsDeclaredFilter declared (n, f) = IsDeclared declared n

abbrev pub IsDeclaredCapture : List Text → Text × CaptureOptions → Type 0
IsDeclaredCapture declared (n, c) = IsDeclared declared n

abbrev pub filter_names : Option (List (Text × FieldFilter)) → List (Text × FieldFilter)
filter_names none = []
filter_names (some filters) = filters

-- A blank template, or one whose placeholders are all declared
abbrev pub HasDeclaredNames : List Text → Text → Type 0
HasDeclaredNames declared template =
    (is_empty (trim template) ≡ true)
    ⊎ ((t : TextTemplate) × (irc2torrent.Template.parse template ≡ ok t)
        × All (IsDeclared declared) t.names)

abbrev pub IsDeclaredEntry : List Text → WatchEntry → Type 0
IsDeclaredEntry declared w =
    All (IsDeclared declared) (entry_require_fields w)
    × All (IsDeclaredFilter declared) (filter_names (entry_field_filters w))

abbrev pub HasDeclaredTemplates : List Text → TorrentClientOption → Type 0
HasDeclaredTemplates declared c = All (HasDeclaredNames declared) (templates_of c)

pub record AreNamesDeclared (declared : List Text) (o : OptionData) : Type 0 where
  pub required : All (IsDeclared declared) required_names
  pub captures : All (IsDeclaredCapture declared) o.captures
  pub require_fields : All (IsDeclared declared) o.require_fields
  pub field_filters : All (IsDeclaredFilter declared) o.field_filters
  pub watches : All (IsDeclaredEntry declared) o.regex_for_downloads_match
  pub templates : All (HasDeclaredTemplates declared) o.clients

pub ensure-ok : (b : Bool) (e : ConfigError) → ensure b e ≡ ok tt → b ≡ true
ensure-ok true e h = refl
ensure-ok false e h = cc

module _ (declared : List Text) where
  field-ok : (name : Text) → check_field declared name ≡ ok tt → IsDeclared declared name
  unfolding check_field
  field-ok name h = ensure-ok _ _ h

  key-ok :
      (rule : Text × FieldFilter) → check_key declared rule ≡ ok tt → IsDeclaredFilter declared rule
  key-ok (n, f) h = field-ok n h

  filters-ok :
      (filters : Option (List (Text × FieldFilter)))
      → check_filters declared filters ≡ ok tt
      → All (IsDeclaredFilter declared) (filter_names filters)
  filters-ok none h = tt
  filters-ok (some filters) h =
      for_each-ok (IsDeclaredFilter declared) (check_key declared) filters key-ok h

  entry-ok : (w : WatchEntry) → check_entry declared w ≡ ok tt → IsDeclaredEntry declared w
  unfolding check_entry
  entry-ok w h =
      let (first, second) = then-ok _ _ _ h in
      (
        for_each-ok (IsDeclared declared) (check_field declared) (entry_require_fields w) field-ok
            first,
        filters-ok (entry_field_filters w) second,
      )

  parsed-ok :
      (template : Text) (r : Result LexError TextTemplate)
      → irc2torrent.Template.parse template ≡ r
      → check_parsed declared r ≡ ok tt
      → HasDeclaredNames declared template
  parsed-ok template (err e) hp h = absurd cc
  parsed-ok template (ok t) hp h =
      inr (t, hp, for_each-ok (IsDeclared declared) (check_field declared) t.names field-ok h)

  filled-ok :
      (template : Text) (b : Bool)
      → is_empty (trim template) ≡ b
      → (if b then ok tt else check_parsed declared (irc2torrent.Template.parse template)) ≡ ok tt
      → HasDeclaredNames declared template
  filled-ok template true hb h = inl hb
  filled-ok template false hb h = parsed-ok template (irc2torrent.Template.parse template) refl h

  template-ok :
      (template : Text)
      → check_template declared template ≡ ok tt
      → HasDeclaredNames declared template
  unfolding check_template
  template-ok template h = filled-ok template (is_empty (trim template)) refl h

  client-ok :
      (c : TorrentClientOption) → check_client declared c ≡ ok tt → HasDeclaredTemplates declared c
  unfolding check_client
  client-ok c h =
      for_each-ok (HasDeclaredNames declared) (check_template declared) (templates_of c) template-ok
        h

  required-ok : (n : Text) → check_required declared n ≡ ok tt → IsDeclared declared n
  required-ok n h = ensure-ok _ _ h

  capture-ok :
      (c : Text × CaptureOptions) → check_capture declared c ≡ ok tt → IsDeclaredCapture declared c
  capture-ok (n, c) h = ensure-ok _ _ h

  pub validate_announce_captures-ok :
      (o : OptionData) → validate_announce_captures declared o ≡ ok tt → AreNamesDeclared declared o
  unfolding validate_announce_captures
  validate_announce_captures-ok o h =
      let (h1, r1) = then-ok _ _ _ h in
      let (h2, r2) = then-ok _ _ _ r1 in
      let (h3, r3) = then-ok _ _ _ r2 in
      let (h4, r4) = then-ok _ _ _ r3 in
      let (h5, h6) = then-ok _ _ _ r4 in
      record {
        required =
            for_each-ok (IsDeclared declared) (check_required declared) required_names required-ok
              h1;
        captures =
            for_each-ok (IsDeclaredCapture declared) (check_capture declared) o.captures capture-ok
              h2;
        require_fields =
            for_each-ok (IsDeclared declared) (check_field declared) o.require_fields field-ok h3;
        field_filters =
            for_each-ok (IsDeclaredFilter declared) (check_key declared) o.field_filters key-ok h4;
        watches =
            for_each-ok (IsDeclaredEntry declared) (check_entry declared)
              o.regex_for_downloads_match entry-ok h5;
        templates =
            for_each-ok (HasDeclaredTemplates declared) (check_client declared) o.clients client-ok
              h6;
      }

-- A tracker section that can download: its template parses, each placeholder is built in or declared,
-- and the key and the directory that are needed are there.
abbrev pub IsDownloadable : UrlLib → PlatformSection → List Text → Type 0
IsDownloadable lib p declared =
    (t : UrlTemplate) × (irc2torrent.Platforms.UrlTemplate.parse lib p.options.download_url_template
      ≡ ok t)
    × All (λ n. (contains reserved n || contains declared n) ≡ true) t.names
    × ((t.uses_key && is_empty (trim p.options.rss_key)) ≡ false)
    × (is_empty (trim p.options.torrent_dir) ≡ false)

or-ok : (a b : Bool) (e : ConfigError) → (if a then ok tt else ensure b e) ≡ ok tt → (a || b) ≡ true
or-ok true b e h = refl
or-ok false b e h = ensure-ok b e h

placeholder-ok :
    (declared : List Text) (n : Text)
    → check_placeholder declared n ≡ ok tt
    → (contains reserved n || contains declared n) ≡ true
placeholder-ok declared n h =
    or-ok (contains reserved n) (contains declared n) (undeclared_placeholder n) h

not-ok : (b : Bool) (e : ConfigError) → ensure (not b) e ≡ ok tt → b ≡ false
not-ok true e h = cc
not-ok false e h = refl

url-ok : (r : Result UrlError UrlTemplate) (t : UrlTemplate) → url_result r ≡ ok t → r ≡ ok t
url-ok (ok t') t h = ground arith
url-ok (err e) t h = cc

pub validate_platform-ok :
    (lib : UrlLib) (p : PlatformSection) (declared : List Text)
    → validate_platform lib p declared ≡ ok tt
    → IsDownloadable lib p declared
unfolding validate_platform
validate_platform-ok lib p declared h =
    let (_, r1) = then-ok _ _ _ h in
    let (t, ht, r2) = bind-eq-ok _ _ r1 in
    let (h2, r3) = then-ok _ _ _ r2 in
    let (h3, h4) = then-ok _ _ _ r3 in
    (
      t,
      url-ok _ t ht,
      for_each-ok _ (check_placeholder declared) t.names (placeholder-ok declared) h2,
      not-ok _ _ h3,
      not-ok _ _ h4,
    )
