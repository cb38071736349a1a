-- ===== src/Configuration/Loading/Growth.antt =====
-- src/config.rs: editing the watchlist of an accepted configuration.
pub mod Edits
use irc2torrent.Prelude.{
  ℕ, zero, suc, ◌+◌, ◌≡◌, refl, sym, ap, subst, ◌∙◌, arith, inl, inr, Bool, true, false, List, [],
  ◌∷◌, ◌++◌, map, Text, codes, Option, none, some, Result, ok, err, ◌>>=◌, ◌>>◌, bind-eq-ok,
  both-ok, then-ok, for_each, collect_results, if◌then◌else◌, ltb, length, Bool-cases,
}
use irc2torrent.Announce.{required_names}
use irc2torrent.TorrentProcessor.Filters.{CompiledWatch, CompiledFieldFilter, Regex}
use irc2torrent.CommandProcessor.Watchlist.{
  WatchEntry, pattern_entry, pattern, Options, remove_at, mutate_options, add_dl_regex,
  add_compiled, remove_watch, remove_dl_regex,
}
use irc2torrent.Platforms.UrlTemplate.{UrlLib}
use irc2torrent.Configuration.Data.{
  OptionData, NamedRegex, LoadedOptions, entry_require_fields, entry_field_filters,
}
use irc2torrent.Configuration.Checks.{
  ConfigError, check_field, check_required, check_capture, check_key, check_entry, check_client,
  validate_announce_captures, validate_platform,
}
use irc2torrent.Configuration.Summary.{parse_summary_time}
use irc2torrent.Configuration.Loading.{
  named_result, regex_named, regex_at, compile_entry_filters, compile_filters, compile_all,
  compile_watch, from_data,
}

module _ {ℓ κ μ} {E : Type κ} {A : Type ℓ} {B : Type μ} where
  collect_results-cons :
      (f : A → Result E B) (x : A) (xs : List A) (b : B) (bs : List B)
      → f x ≡ ok b
      → collect_results f xs ≡ ok bs
      → collect_results f (x ∷ xs) ≡ ok (b ∷ bs)
  collect_results-cons f x xs b bs h hs = rw (h, hs) refl

  collect_results-uncons :
      (f : A → Result E B) (x : A) (xs : List A) (bs : List B)
      → collect_results f (x ∷ xs) ≡ ok bs
      → (b : B) × (cs : List B) × (f x ≡ ok b) × (collect_results f xs ≡ ok cs)
  collect_results-uncons f x xs bs h =
      let (b, hb, r) = bind-eq-ok (f x) (λ b. collect_results f xs >>= λ bs. ok (b ∷ bs)) h in
      let (cs, hcs, _) = bind-eq-ok (collect_results f xs) (λ bs. ok (b ∷ bs)) r in (b, cs, hb, hcs)

  pub collect_results-append :
      (f : A → Result E B) (xs : List A) (y : A) (bs : List B) (b : B)
      → collect_results f xs ≡ ok bs
      → f y ≡ ok b
      → (cs : List B) × (collect_results f (xs ++ y ∷ []) ≡ ok cs)
  collect_results-append f [] y bs b h hy = (b ∷ [], collect_results-cons f y [] b [] hy refl)
  collect_results-append f (x ∷ xs) y bs b h hy =
      let (c, cs, hc, hcs) = collect_results-uncons f x xs bs h in
      let (ds, hds) = collect_results-append f xs y cs b hcs hy in
      (c ∷ ds, collect_results-cons f x (xs ++ y ∷ []) c ds hc hds)

  pub collect_results-remove_at :
      (f : A → Result E B) (i : ℕ) (xs : List A) (bs : List B)
      → collect_results f xs ≡ ok bs
      → (cs : List B) × (collect_results f (remove_at i xs) ≡ ok cs)
  collect_results-remove_at f i [] bs h = ([], refl)
  collect_results-remove_at f zero (x ∷ xs) bs h =
      let (_, cs, _, hcs) = collect_results-uncons f x xs bs h in (cs, hcs)
  collect_results-remove_at f (suc i) (x ∷ xs) bs h =
      let (c, cs, hc, hcs) = collect_results-uncons f x xs bs h in
      let (ds, hds) = collect_results-remove_at f i xs cs hcs in
      (c ∷ ds, collect_results-cons f x (remove_at i xs) c ds hc hds)

module _ {ℓ κ} {E : Type κ} {A : Type ℓ} where
  pub for_each-append :
      (f : A → Result E (Unit {0})) (xs : List A) (y : A)
      → for_each f xs ≡ ok tt
      → f y ≡ ok tt
      → for_each f (xs ++ y ∷ []) ≡ ok tt
  for_each-append f [] y h hy = both-ok (f y) (ok tt) tt hy refl
  for_each-append f (x ∷ xs) y h hy =
      let (hx, later) = then-ok _ _ _ h in
      both-ok (f x) (for_each f (xs ++ y ∷ [])) tt hx (for_each-append f xs y later hy)

  pub for_each-remove_at :
      (f : A → Result E (Unit {0})) (i : ℕ) (xs : List A)
      → for_each f xs ≡ ok tt
      → for_each f (remove_at i xs) ≡ ok tt
  for_each-remove_at f i [] h = h
  for_each-remove_at f zero (x ∷ xs) h = (then-ok _ _ _ h).1
  for_each-remove_at f (suc i) (x ∷ xs) h =
      let (hx, later) = then-ok _ _ _ h in
      both-ok (f x) (for_each f (remove_at i xs)) tt hx (for_each-remove_at f i xs later)

abbrev pub with_watches : OptionData → List WatchEntry → OptionData
with_watches o watches = record o { regex_for_downloads_match = watches }

pub captures-change :
    (declared : List Text) (o : OptionData) (watches : List WatchEntry)
    → (for_each (check_entry declared) o.regex_for_downloads_match ≡ ok tt
        → for_each (check_entry declared) watches ≡ ok tt)
    → validate_announce_captures declared o ≡ ok tt
    → validate_announce_captures declared (with_watches o watches) ≡ ok tt
unfolding validate_announce_captures
captures-change declared o watches change h =
    let each_required = for_each (check_required declared) required_names in
    let each_capture = for_each (check_capture declared) o.captures in
    let each_field = for_each (check_field declared) o.require_fields in
    let each_key = for_each (check_key declared) o.field_filters in
    let each_client = for_each (check_client declared) o.clients in
    let (h1, r1) = then-ok each_required _ tt h in
    let (h2, r2) = then-ok each_capture _ tt r1 in
    let (h3, r3) = then-ok each_field _ tt r2 in
    let (h4, r4) = then-ok each_key _ tt r3 in
    let (h5, h6) =
      then-ok (for_each (check_entry declared) o.regex_for_downloads_match) each_client tt r4 in
    let edited = for_each (check_entry declared) watches in
    let last = both-ok edited each_client tt (change h5) h6 in
    let fields = both-ok each_key (edited >> each_client) tt h4 last in
    both-ok each_required _ tt h1 (
      both-ok each_capture _ tt h2
        (both-ok each_field (each_key >> (edited >> each_client)) tt h3 fields))

module _ (compile : Text → Result Text NamedRegex) (lib : UrlLib) where
  -- What an accepted configuration was made of
  pub record Parts (o : OptionData) : Type 0 where
    pub announce : NamedRegex
    pub reject_regexes : List Regex
    pub watches : List CompiledWatch
    pub field_filters : List (Text × CompiledFieldFilter)
    pub time : ℕ × ℕ
    pub has_announce :
        regex_named compile (codes "regex_for_announce_match") o.regex_for_announce_match
        ≡ ok announce
    pub has_rejects : compile_all compile o.regex_for_downloads_reject_match ≡ ok reject_regexes
    pub has_watches :
        collect_results (compile_watch compile) o.regex_for_downloads_match ≡ ok watches
    pub has_captures : validate_announce_captures announce.declared o ≡ ok tt
    pub has_filters : compile_filters compile o.field_filters ≡ ok field_filters
    pub has_platform : validate_platform lib o.platform announce.declared ≡ ok tt
    pub has_time : parse_summary_time o.notifications.daily_summary_at ≡ ok time

  pub from_data-Parts :
      (o : OptionData) (l : LoadedOptions) → from_data compile lib o ≡ ok l → Parts o
  unfolding from_data
  from_data-Parts o l h =
      let (announce, h1, r1) = bind-eq-ok _ _ h in
      let (rejects, h2, r2) = bind-eq-ok _ _ r1 in
      let (watches, h3, r3) = bind-eq-ok _ _ r2 in
      let (_, h4, r4) = bind-eq-ok _ _ r3 in
      let (filters, h5, r5) = bind-eq-ok _ _ r4 in
      let (_, h6, r6) = bind-eq-ok _ _ r5 in
      let (time, h7, r7) = bind-eq-ok _ _ r6 in
      record {
        announce = announce;
        reject_regexes = rejects;
        watches = watches;
        field_filters = filters;
        time = time;
        has_announce = h1;
        has_rejects = h2;
        has_watches = h3;
        has_captures = h4;
        has_filters = h5;
        has_platform = h6;
        has_time = h7;
      }

  pub Parts-from_data :
      (o : OptionData) → Parts o → (l : LoadedOptions) × (from_data compile lib o ≡ ok l)
  unfolding from_data
  Parts-from_data o p = (
    record {
      options = o;
      announce_regex = p.announce;
      dl_watches = p.watches;
      reject_regexes = p.reject_regexes;
      field_filters = p.field_filters;
    },
    rw
        (
          p.has_announce, p.has_rejects, p.has_watches, p.has_captures, p.has_filters,
          p.has_platform, p.has_time,
        )
        refl,
  )
