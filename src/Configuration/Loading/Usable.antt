-- ===== src/Configuration/Loading/Usable.antt =====
-- src/config.rs: what the acceptance of a configuration guarantees.
use irc2torrent.Prelude.{
  ℕ, ◌≤◌, ◌≡◌, refl, Text, Result, ok, err, bind-eq-ok, collect_results, ap, subst, codes,
}
use irc2torrent.Platforms.UrlTemplate.{UrlLib}
use irc2torrent.Configuration.Data.{OptionData, NamedRegex, LoadedOptions}
use irc2torrent.Configuration.Checks.{ConfigError}
use irc2torrent.Configuration.Checks.Declared.{
  AreNamesDeclared, IsDownloadable, validate_announce_captures-ok, validate_platform-ok,
}
use irc2torrent.Configuration.Summary.{parse_summary_time}
use irc2torrent.Configuration.Summary.Clock.{parse_summary_time-bounds}
use irc2torrent.Configuration.Loading.{
  named_result, regex_named, compile_all, compile_watch, compile_filters, from_data,
}

-- A time of day that `daily_summary_at` names
abbrev pub IsTimeOfDay : Text → Type 0
IsTimeOfDay value =
    (hour minute : ℕ) × (parse_summary_time value ≡ ok (hour, minute)) × (hour ≤ 23) × (minute ≤ 59)

pub record IsUsable (compile : Text → Result Text NamedRegex) (lib : UrlLib) (l : LoadedOptions)
    : Type 0 where
  pub announce : compile l.options.regex_for_announce_match ≡ ok l.announce_regex
  pub watches :
      collect_results (compile_watch compile) l.options.regex_for_downloads_match ≡ ok l.dl_watches
  pub rejects : compile_all compile l.options.regex_for_downloads_reject_match ≡ ok l.reject_regexes
  pub filters : compile_filters compile l.options.field_filters ≡ ok l.field_filters
  pub names : AreNamesDeclared l.announce_regex.declared l.options
  pub platform : IsDownloadable lib l.options.platform l.announce_regex.declared
  pub summary : IsTimeOfDay l.options.notifications.daily_summary_at

ok-inj : (l m : LoadedOptions) → ◌≡◌ {A = Result ConfigError LoadedOptions} (ok l) (ok m) → l ≡ m
ok-inj l m h = cc

module _ (compile : Text → Result Text NamedRegex) (lib : UrlLib) where
  named-ok :
      (r : Result Text NamedRegex) (re : NamedRegex)
      → named_result compile (codes "regex_for_announce_match") r ≡ ok re
      → r ≡ ok re
  named-ok (ok re') re h = ap (λ x. ok x) cc
  named-ok (err e) re h = cc

  -- An accepted configuration is usable as it stands: its patterns are the ones compiled, every field
  -- that a rule or a template of a client names is a group of the announce regex, `name` and `id`
  -- among them, the download URL's template parses with placeholders that can be filled, its key is
  -- not blank if the template uses the key, its directory is not blank, and the summary has a time of
  -- day.
  pub from_data-IsUsable :
      (o : OptionData) (l : LoadedOptions)
      → from_data compile lib o ≡ ok l
      → (l.options ≡ o) × IsUsable compile lib l
  unfolding from_data regex_named
  from_data-IsUsable o l h =
      let (announce, h1, r1) = bind-eq-ok _ _ h in
      let (rejects, h2, r2) = bind-eq-ok _ _ r1 in
      let (watches, h3, r3) = bind-eq-ok _ _ r2 in
      let (_, h4, r4) = bind-eq-ok _ _ r3 in
      let (filters, h5, r5) = bind-eq-ok _ _ r4 in
      let (_, h6, r6) = bind-eq-ok _ _ r5 in
      let ((hour, minute), h7, r7) = bind-eq-ok _ _ r6 in
      let bounds = parse_summary_time-bounds o.notifications.daily_summary_at hour minute h7 in
      subst (λ l. (l.options ≡ o) × IsUsable compile lib l) (ok-inj _ l r7)
        (
          refl,
          record {
            announce = named-ok (compile o.regex_for_announce_match) announce h1;
            watches = h3;
            rejects = h2;
            filters = h5;
            names = validate_announce_captures-ok announce.declared o h4;
            platform = validate_platform-ok lib o.platform announce.declared h6;
            summary = (hour, minute, h7, bounds.0, bounds.1);
          },
        )
