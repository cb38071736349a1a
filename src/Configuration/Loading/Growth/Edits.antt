-- ===== src/Configuration/Loading/Growth/Edits.antt =====
-- src/config.rs: commands that edit the watchlist never leave it out of step with what is in use.
use irc2torrent.Prelude.{
  ℕ, ◌≡◌, refl, inl, inr, Bool, true, false, List, [], ◌∷◌, ◌++◌, Text, Option, none, some, Result,
  ok, err, collect_results, for_each, ltb, length, Bool-cases,
}
use irc2torrent.TorrentProcessor.Filters.{CompiledWatch}
use irc2torrent.CommandProcessor.Watchlist.{
  WatchEntry, pattern_entry, pattern, Options, remove_at, mutate_options, add_compiled,
  add_dl_regex, remove_watch, remove_dl_regex,
}
use irc2torrent.Platforms.UrlTemplate.{UrlLib}
use irc2torrent.Configuration.Data.{
  OptionData, NamedRegex, entry_require_fields, entry_field_filters,
}
use irc2torrent.Configuration.Checks.{check_entry}
use irc2torrent.Configuration.Loading.{regex_named, regex_at, compile_watch, from_data}
use irc2torrent.Configuration.Loading.Growth.{
  collect_results-append, collect_results-remove_at, for_each-append, for_each-remove_at,
  with_watches, captures-change, from_data-Parts, Parts-from_data,
}

abbrev pub is_ok {ℓ κ} : {E : Type κ} {A : Type ℓ} → Result E A → Bool
is_ok (ok a) = true
is_ok (err e) = false

abbrev pub error_of {ℓ κ} : {E : Type κ} {A : Type ℓ} → Result E A → Option E
error_of (ok a) = none
error_of (err e) = some e

-- What a command changes in the watchlist
pub data Edit : Type 0 where
  append_watch : Text → Edit
  drop_watch : ℕ → Edit

value_of : {E A : Type 0} (r : Result E A) → is_ok r ≡ true → (a : A) × (r ≡ ok a)
value_of (ok a) h = (a, refl)
value_of (err e) h = cc

is_ok-some : {E A : Type 0} (r : Result E A) (a : A) → r ≡ ok a → is_ok r ≡ true
is_ok-some r a h = rw h refl

module _ (compile : Text → Result Text NamedRegex) (lib : UrlLib) (o : OptionData) where
  -- Whether the configuration is accepted with these watches
  abbrev pub accepts : List WatchEntry → Bool
  accepts watches = is_ok (from_data compile lib (with_watches o watches))

  pub apply_edit : Edit → Options → Options
  apply_edit (append_watch regex) w = (add_dl_regex (λ p. error_of (compile p)) accepts regex w).1
  apply_edit (drop_watch index) w = remove_dl_regex (λ p. error_of (compile p)) accepts index w

  pub apply_edits : List Edit → Options → Options
  apply_edits [] w = w
  apply_edits (e ∷ es) w = apply_edits es (apply_edit e w)

  compile_watch-pattern_entry :
      (p : Text) (re : NamedRegex)
      → compile p ≡ ok re
      → (w : CompiledWatch) × (compile_watch compile (pattern_entry p) ≡ ok w)
  unfolding compile_watch pattern entry_require_fields entry_field_filters regex_at regex_named
  compile_watch-pattern_entry p re h =
      (record { regex = re.regex; require_fields = []; field_filters = [] }, rw h refl)

  check_entry-pattern_entry :
      (declared : List Text) (p : Text) → check_entry declared (pattern_entry p) ≡ ok tt
  unfolding check_entry entry_require_fields entry_field_filters
  check_entry-pattern_entry declared p = refl

  accepts-change :
      (watches changed : List WatchEntry)
      → accepts watches ≡ true
      → ((ws : List CompiledWatch)
          → collect_results (compile_watch compile) watches ≡ ok ws
          → (cs : List CompiledWatch) × (collect_results (compile_watch compile) changed ≡ ok cs))
      → ((declared : List Text)
          → for_each (check_entry declared) watches ≡ ok tt
          → for_each (check_entry declared) changed ≡ ok tt)
      → accepts changed ≡ true
  accepts-change watches changed h compiled checked =
      let (l, hl) = value_of (from_data compile lib (with_watches o watches)) h in
      let p = from_data-Parts compile lib (with_watches o watches) l hl in
      let (cs, hcs) = compiled p.watches p.has_watches in
      let (l', hl') = Parts-from_data compile lib (with_watches o changed) (record {
        announce = p.announce;
        reject_regexes = p.reject_regexes;
        watches = cs;
        field_filters = p.field_filters;
        time = p.time;
        has_announce = p.has_announce;
        has_rejects = p.has_rejects;
        has_watches = hcs;
        has_captures =
            captures-change p.announce.declared (with_watches o watches) changed
              (checked p.announce.declared) p.has_captures;
        has_filters = p.has_filters;
        has_platform = p.has_platform;
        has_time = p.has_time;
      }) in
      is_ok-some (from_data compile lib (with_watches o changed)) l' hl'

  -- The watches as configured are the ones in use, and the configuration is accepted with them.
  abbrev pub IsInStep : Options → Type 0
  IsInStep w = (w.data_watches ≡ w.loaded) × (accepts w.data_watches ≡ true)

  accepts-append :
      (watches : List WatchEntry) (p : Text) (re : NamedRegex)
      → accepts watches ≡ true
      → compile p ≡ ok re
      → accepts (watches ++ pattern_entry p ∷ []) ≡ true
  accepts-append watches p re h hp =
      let (w, hw) = compile_watch-pattern_entry p re hp in
      accepts-change watches (watches ++ pattern_entry p ∷ []) h
        (λ ws hws.
          collect_results-append (compile_watch compile) watches (pattern_entry p) ws w hws hw)
        (λ declared hd.
          for_each-append (check_entry declared) watches (pattern_entry p) hd
            (check_entry-pattern_entry declared p))

  accepts-remove_at :
      (watches : List WatchEntry) (i : ℕ)
      → accepts watches ≡ true
      → accepts (remove_at i watches) ≡ true
  accepts-remove_at watches i h =
      accepts-change watches (remove_at i watches) h
        (λ ws hws. collect_results-remove_at (compile_watch compile) i watches ws hws)
        (λ declared hd. for_each-remove_at (check_entry declared) i watches hd)

  mutate_options-IsInStep :
      (f : List WatchEntry → List WatchEntry) (w : Options)
      → accepts (f w.data_watches) ≡ true
      → IsInStep (mutate_options (λ p. error_of (compile p)) accepts f w)
  unfolding mutate_options
  mutate_options-IsInStep f w h = rw h (refl, h)

  append-IsInStep :
      (regex : Text) (w : Options) (r : Result Text NamedRegex)
      → compile regex ≡ r
      → IsInStep w
      → IsInStep (add_compiled (λ p. error_of (compile p)) accepts regex (error_of r) w).1
  unfolding add_compiled
  append-IsInStep regex w (ok re) hr (same, h) =
      mutate_options-IsInStep (λ watches. watches ++ (pattern_entry regex ∷ [])) w
        (accepts-append w.data_watches regex re h hr)
  append-IsInStep regex w (err e) hr h = h

  accepts-remove_watch :
      (index : ℕ) (watches : List WatchEntry)
      → accepts watches ≡ true
      → accepts (remove_watch (λ p. error_of (compile p)) accepts index watches) ≡ true
  unfolding remove_watch
  accepts-remove_watch index watches h = elim (Bool-cases (ltb index (length watches))) [
    | inl inside ↦ rw inside (accepts-remove_at watches index h)
    | inr outside ↦ rw outside h
  ]

  apply_edit-IsInStep : (e : Edit) (w : Options) → IsInStep w → IsInStep (apply_edit e w)
  unfolding apply_edit add_dl_regex remove_dl_regex
  apply_edit-IsInStep (append_watch regex) w h = append-IsInStep regex w (compile regex) refl h
  apply_edit-IsInStep (drop_watch index) w (same, h) =
      mutate_options-IsInStep (remove_watch (λ p. error_of (compile p)) accepts index) w
        (accepts-remove_watch index w.data_watches h)

  -- From an accepted configuration, whatever patterns commands add and whatever indices they remove,
  -- the watches as configured are the ones in use and the configuration is still accepted with them.
  pub apply_edits-IsInStep :
      (es : List Edit) (w : Options) → IsInStep w → IsInStep (apply_edits es w)
  unfolding apply_edits
  apply_edits-IsInStep [] w h = h
  apply_edits-IsInStep (e ∷ es) w h =
      apply_edits-IsInStep es (apply_edit e w) (apply_edit-IsInStep e w h)
