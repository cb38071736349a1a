-- ===== src/Notify/Reload/Backends.antt =====
-- src/notify.rs: `refresh`, and which backends it leaves alone.
use irc2torrent.Prelude.{
  ℕ, ◌≡◌, refl, ◌∙◌, ap, inl, inr, Bool, true, false, not, ◌&&◌, ◌==◌, List, [], ◌++◌, append-nil,
  map, Text, Option, none, some, if◌then◌else◌, contains, Bool-cases,
}
use irc2torrent.Notify.Dispatch.{Dispatcher, in_sections, adopt_targets, new_target, refresh}
use irc2torrent.Configuration.Sections.{NotificationSection}
use irc2torrent.Notify.Reload.{
  Builder, Section, email_name, ntfy_name, irc_name, when_differs, email_targets, ntfy_targets,
  irc_targets, build_section_targets, changed_sections, reload,
}
use irc2torrent.Notify.Reload.Sections.{
  backends_in, as_built, built_in, backends_in-with_cap, backends_in-adopt_targets,
  backends_in-build_section_targets,
}

abbrev names : Bool → Bool → Bool → List Text
names e n i = when_differs e email_name ++ (when_differs n ntfy_name ++ when_differs i irc_name)

contains-names :
    (e n i : Bool)
    → (contains (names e n i) email_name ≡ not e)
      × (contains (names e n i) ntfy_name ≡ not n)
      × (contains (names e n i) irc_name ≡ not i)
contains-names true true true = (refl, refl, refl)
contains-names true true false = (refl, refl, refl)
contains-names true false true = (refl, refl, refl)
contains-names true false false = (refl, refl, refl)
contains-names false true true = (refl, refl, refl)
contains-names false true false = (refl, refl, refl)
contains-names false false true = (refl, refl, refl)
contains-names false false false = (refl, refl, refl)

module _ {A : Type 0} where
  unwanted : (want : Bool) (built : List A) → (if want && false then built else []) ≡ []
  unwanted true built = refl
  unwanted false built = refl

  kept_or_built :
      (same : Bool) (kept built : List A)
      → (if not same then [] else kept) ++ ((if not same && true then built else []) ++ [])
        ≡ (if same then kept else built)
  kept_or_built true kept built = append-nil kept
  kept_or_built false kept built = append-nil built

  kept_or_built_last :
      (same : Bool) (kept built : List A)
      → (if not same then [] else kept) ++ (if not same && true then built else [])
        ≡ (if same then kept else built)
  kept_or_built_last true kept built = append-nil kept
  kept_or_built_last false kept built = refl

module _ (env : Builder) where
  built_in-nothing : (s : Option Text) (o : NotificationSection) → built_in env o [] s ≡ []
  built_in-nothing s o = refl

  backends_in-refresh :
      (s : Option Text) (now : ℕ) (fresh : NotificationSection) (changed : List Text)
      (d : Dispatcher (Section env))
      → backends_in s
          (refresh fresh.options now changed (build_section_targets env fresh changed) d).targets
        ≡ (if in_sections changed s then [] else backends_in s d.targets)
          ++ built_in env fresh changed s
  unfolding refresh
  backends_in-refresh s now fresh changed d =
      let cap = fresh.options.max_per_hour in
      let built = map (new_target cap now) (build_section_targets env fresh changed) in
      let adopted = adopt_targets changed built d.targets in
      let here = backends_in-build_section_targets env s fresh changed cap now in
      let nothing : (changed ≡ [] → backends_in s built ≡ []) =
        λ h. here ∙ ap (λ l. built_in env fresh l s) h in
      let whole =
        backends_in-adopt_targets s changed built d.targets nothing
        ∙ ap (λ l. (if in_sections changed s then [] else backends_in s d.targets) ++ l) here in
      elim (Bool-cases (cap == d.options.max_per_hour)) [
        | inl e ↦ rw e whole
        | inr e ↦ rw e (backends_in-with_cap s cap adopted ∙ whole)
      ]

  -- When the configuration that was read differs from the one adopted, the notifier then has: the same
  -- backends of no section as before; and for each of `email`, `ntfy` and `irc`, the same backends as
  -- before if the section is equal in both configurations, else what is built of the new section alone.
  -- A backend counts with the events it takes and with what it still has to send, which is nothing for
  -- one just built.
  pub reload-backends :
      (now : ℕ) (fresh old : NotificationSection) (d : Dispatcher (Section env))
      → env.same fresh old ≡ false
      → let e = (reload env now fresh (old, d)).1 in
        (backends_in none e.targets ≡ backends_in none d.targets)
        × (backends_in (some email_name) e.targets ≡ (
            if env.same_email fresh.email old.email
            then backends_in (some email_name) d.targets
            else as_built (email_targets env fresh.email)))
        × (backends_in (some ntfy_name) e.targets ≡ (
            if env.same_ntfy fresh.ntfy old.ntfy
            then backends_in (some ntfy_name) d.targets
            else as_built (ntfy_targets env fresh.ntfy)))
        × (backends_in (some irc_name) e.targets ≡ (
            if env.same_irc fresh.irc old.irc
            then backends_in (some irc_name) d.targets
            else as_built (irc_targets env fresh.irc env.irc_owner)))
  unfolding reload changed_sections
  reload-backends now fresh old d h =
      let changed = changed_sections env fresh old in
      let same_email = env.same_email fresh.email old.email in
      let same_ntfy = env.same_ntfy fresh.ntfy old.ntfy in
      let same_irc = env.same_irc fresh.irc old.irc in
      let email = as_built (email_targets env fresh.email) in
      let ntfy = as_built (ntfy_targets env fresh.ntfy) in
      let irc = as_built (irc_targets env fresh.irc env.irc_owner) in
      let (e, n, i) = contains-names same_email same_ntfy same_irc in
      let now_in = λ (s : Option Text). backends_in-refresh s now fresh changed d in
      let kept = λ (s : Option Text). backends_in s d.targets in
      let no_email = unwanted (not same_email) email in
      let no_ntfy = unwanted (not same_ntfy) ntfy in
      let no_irc = unwanted (not same_irc) irc in
      rw h (
        rw (now_in none, e, n, i, no_email, no_ntfy, no_irc) (append-nil _),
        rw (now_in (some email_name), e, n, i, no_ntfy, no_irc)
            (kept_or_built same_email (kept (some email_name)) email),
        rw (now_in (some ntfy_name), e, n, i, no_email, no_irc)
            (kept_or_built same_ntfy (kept (some ntfy_name)) ntfy),
        rw (now_in (some irc_name), e, n, i, no_email, no_ntfy)
            (kept_or_built_last same_irc (kept (some irc_name)) irc),
      )
