-- ===== src/Configuration/Watching/Reloads.antt =====
-- src/config.rs: the running configuration over any changes of the two files.
use irc2torrent.Prelude.{
  ◌≤◌, ◌≡◌, refl, sym, subst, arith, inl, inr, List, [], ◌∷◌, Text, Option, none, some, Result, ok,
  err, Bool-cases,
}
use irc2torrent.Irc.Outbound.{FloodLimit}
use irc2torrent.Configuration.Data.{OptionData, LoadedOptions}
use irc2torrent.Configuration.Checks.{ConfigError}
use irc2torrent.Configuration.Loading.{from_data}
use irc2torrent.Configuration.Loading.Usable.{IsUsable, from_data-IsUsable}
use irc2torrent.Configuration.Watching.{
  Readers, IrcConfig, StartupError, validate_irc, from_irc, Watched, Burst, options_changed,
  irc_changed, is_seen, all_problems, watching, start_config, adopt_loaded, reload_parsed,
  reload_options, limit_of, report_irc_change, after_options, settle, settle_all,
}

module _ (env : Readers) where
  -- The configuration in use is one that was accepted, and the pacer may send.
  abbrev pub IsRunning : Watched → Type 0
  IsRunning w = IsUsable env.compile env.urls w.running × (1 ≤ w.flood_limit.max_in_burst)

  from_irc-positive : (c : IrcConfig) → 1 ≤ (from_irc c).max_in_burst
  unfolding from_irc
  from_irc-positive c = omega arith

  limit-positive :
      (current : FloodLimit) (r : Option IrcConfig)
      → 1 ≤ current.max_in_burst
      → 1 ≤ (limit_of env current r).max_in_burst
  limit-positive current none h = h
  limit-positive current (some c) h = from_irc-positive c

  started-inj : (v w : Watched) → ◌≡◌ {A = Result (List StartupError) Watched} (ok v) (ok w) → v ≡ w
  started-inj v w h = cc

  adopt-IsUsable :
      (l : LoadedOptions) (o : OptionData) (r : Result ConfigError LoadedOptions)
      → from_data env.compile env.urls o ≡ r
      → IsUsable env.compile env.urls l
      → IsUsable env.compile env.urls (adopt_loaded env l r).0
  adopt-IsUsable l o (ok loaded) hr h = (from_data-IsUsable env.compile env.urls o loaded hr).1
  adopt-IsUsable l o (err e) hr h = h

  parsed-IsUsable :
      (l : LoadedOptions) (r : Result Text OptionData)
      → IsUsable env.compile env.urls l
      → IsUsable env.compile env.urls (reload_parsed env l r).0
  parsed-IsUsable l (err e) h = h
  parsed-IsUsable l (ok o) h = elim (Bool-cases (env.same l.options o)) [
    | inl equal ↦ rw equal h
    | inr other ↦ rw other (adopt-IsUsable l o (from_data env.compile env.urls o) refl h)
  ]

  reload_options-IsUsable :
      (file : Option Text) (l : LoadedOptions)
      → IsUsable env.compile env.urls l
      → IsUsable env.compile env.urls (reload_options env file l).0
  unfolding reload_options
  reload_options-IsUsable none l h = h
  reload_options-IsUsable (some contents) l h = parsed-IsUsable l (env.parse_options contents) h

  report-positive :
      (file : Option Text) (w : Watched)
      → 1 ≤ w.flood_limit.max_in_burst
      → 1 ≤ (report_irc_change env file w).flood_limit.max_in_burst
  unfolding report_irc_change
  report-positive none w h = h
  report-positive (some contents) w h = elim (Bool-cases (is_seen w.last_irc contents)) [
    | inl seen ↦ rw seen h
    | inr other ↦ rw other (limit-positive w.flood_limit (env.parse_irc contents) h)
  ]

  report-running :
      (file : Option Text) (w : Watched) → (report_irc_change env file w).running ≡ w.running
  unfolding report_irc_change
  report-running none w = refl
  report-running (some contents) w = elim (Bool-cases (is_seen w.last_irc contents)) [
    | inl seen ↦ rw seen refl
    | inr other ↦ rw other refl
  ]

  report-IsRunning :
      (file : Option Text) (w : Watched) → IsRunning w → IsRunning (report_irc_change env file w)
  report-IsRunning file w (usable, positive) = (
    subst (IsUsable env.compile env.urls) (sym (report-running file w)) usable,
    report-positive file w positive,
  )

  options-IsRunning : (b : Burst) (w : Watched) → IsRunning w → IsRunning (after_options env b w).0
  options-IsRunning b w (usable, positive) = elim (Bool-cases (options_changed b)) [
    | inl changed ↦ rw changed (reload_options-IsUsable b.options_file w.running usable, positive)
    | inr other ↦ rw other (usable, positive)
  ]

  settle-IsRunning : (b : Burst) (w : Watched) → IsRunning w → IsRunning (settle env b w).0
  unfolding settle
  settle-IsRunning b w h =
      let reloaded = options-IsRunning b w h in
      elim (Bool-cases (irc_changed b)) [
        | inl changed ↦ rw changed (report-IsRunning b.irc_file (after_options env b w).0 reloaded)
        | inr other ↦ rw other reloaded
      ]

  settle_all-IsRunning :
      (bs : List Burst) (w : Watched) → IsRunning w → IsRunning (settle_all env bs w).0
  unfolding settle_all
  settle_all-IsRunning [] w h = h
  settle_all-IsRunning (b ∷ bs) w h =
      settle_all-IsRunning bs (settle env b w).0 (settle-IsRunning b w h)

  problems-ok :
      (o : OptionData) (irc : IrcConfig) (contents : Option Text)
      (r : Result ConfigError LoadedOptions) (v : Result StartupError (Unit {0})) (w : Watched)
      → from_data env.compile env.urls o ≡ r
      → watching env irc contents (all_problems env r v) ≡ ok w
      → IsRunning w
  problems-ok o irc contents (err e) (err f) w hr h = absurd cc
  problems-ok o irc contents (err e) (ok _) w hr h = absurd cc
  problems-ok o irc contents (ok loaded) (err e) w hr h = absurd cc
  problems-ok o irc contents (ok loaded) (ok _) w hr h =
      subst IsRunning (started-inj _ w h)
        ((from_data-IsUsable env.compile env.urls o loaded hr).1, from_irc-positive irc)

  -- When the bot starts and whatever is written to the two files afterwards, the configuration in use
  -- is one that was accepted, and the pacer's limit lets at least one message through.
  pub start_config-IsRunning :
      (o : OptionData) (irc : IrcConfig) (contents : Option Text) (bs : List Burst) (w : Watched)
      → start_config env o irc contents ≡ ok w
      → IsRunning (settle_all env bs w).0
  unfolding start_config
  start_config-IsRunning o irc contents bs w h =
      settle_all-IsRunning bs w
        (problems-ok o irc contents (from_data env.compile env.urls o) (validate_irc irc) w refl h)
