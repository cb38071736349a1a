-- ===== src/Notify/Reload/Sections.antt =====
-- src/notify.rs: what a change of the configuration does to each backend.
use irc2torrent.Prelude.{
  ℕ, ◌≡◌, refl, ◌∙◌, ap, inl, inr, Bool, true, false, not, ◌&&◌, List, [], ◌∷◌, ◌++◌, append-nil,
  map, Text, Option, none, some, if◌then◌else◌, text_eq, text_eq_iff, contains, keep_if, Bool-cases,
  arith, All, sym, Option-cases, map-append,
}
use irc2torrent.Notify.Events.{EventFilter}
use irc2torrent.Notify.Hold.{IrcLink}
use irc2torrent.Notify.Senders.{build_email, build_ntfy}
use irc2torrent.Notify.Outbox.{Target, Undelivered}
use irc2torrent.Notify.Dispatch.{Built, in_sections, adopt_targets, with_cap, new_target}
use irc2torrent.Configuration.Sections.{
  EmailOptions, NtfyOptions, IrcNotifyOptions, NotificationSection,
}
use irc2torrent.Notify.Reload.{
  Builder, Section, email_name, ntfy_name, irc_name, email_targets, ntfy_targets, irc_targets,
  usable, when_wanted, build_section_targets,
}

abbrev pub same_section : Option Text → Option Text → Bool
same_section none none = true
same_section none (some b) = false
same_section (some a) none = false
same_section (some a) (some b) = text_eq a b

same_section-in_sections :
    (changed : List Text) (s t : Option Text)
    → same_section s t ≡ true
    → in_sections changed t ≡ in_sections changed s
same_section-in_sections changed none none h = refl
same_section-in_sections changed none (some b) h = cc
same_section-in_sections changed (some a) none h = cc
same_section-in_sections changed (some a) (some b) h =
    ap (contains changed) (sym ((text_eq_iff a b).0 h))

module _ {B : Type 0} where
  -- The backends of a section, each with the events it takes and with what it still has to send
  abbrev pub backends_in : Option Text → List (Target B) → List (B × EventFilter × List Undelivered)
  backends_in s [] = []
  backends_in s (t ∷ ts) =
      let rest = backends_in s ts in
      if same_section s t.section then (t.backend, t.filter, t.outbox) ∷ rest else rest

  -- A backend as it is built, with nothing to send
  abbrev pub as_built : List (Built B) → List (B × EventFilter × List Undelivered)
  as_built [] = []
  as_built (b ∷ built) = (b.backend, b.filter, []) ∷ as_built built

  backends_in-append :
      (s : Option Text) (ts us : List (Target B))
      → backends_in s (ts ++ us) ≡ backends_in s ts ++ backends_in s us
  backends_in-append s [] us = refl
  backends_in-append s (t ∷ ts) us = elim (Bool-cases (same_section s t.section)) [
    | inl e ↦ rw e (ap (◌∷◌ (t.backend, t.filter, t.outbox)) (backends_in-append s ts us))
    | inr e ↦ rw e (backends_in-append s ts us)
  ]

  pub backends_in-with_cap :
      (s : Option Text) (cap : ℕ) (ts : List (Target B))
      → backends_in s (map (with_cap cap) ts) ≡ backends_in s ts
  backends_in-with_cap s cap [] = refl
  backends_in-with_cap s cap (t ∷ ts) = rw (backends_in-with_cap s cap ts) refl

  backends_in-keep_if :
      (s : Option Text) (changed : List Text) (ts : List (Target B))
      → backends_in s (keep_if (λ t. not (in_sections changed t.section)) ts)
        ≡ (if in_sections changed s then [] else backends_in s ts)
  backends_in-keep_if s changed [] = elim (Bool-cases (in_sections changed s)) [
    | inl e ↦ rw e refl
    | inr e ↦ rw e refl
  ]
  backends_in-keep_if s changed (t ∷ ts) =
      let later = backends_in-keep_if s changed ts in
      elim (Bool-cases (same_section s t.section)) [
        | inl e ↦
            let moved = same_section-in_sections changed s t.section e in
            ground (arith, e, moved, later)
        | inr e ↦ ground (arith, e, later)
      ]

  pub backends_in-adopt_targets :
      (s : Option Text) (changed : List Text) (built ts : List (Target B))
      → (changed ≡ [] → backends_in s built ≡ [])
      → backends_in s (adopt_targets changed built ts)
        ≡ (if in_sections changed s then [] else backends_in s ts) ++ backends_in s built
  unfolding adopt_targets
  backends_in-adopt_targets none [] built ts h = rw (h refl) (sym (append-nil _))
  backends_in-adopt_targets (some name) [] built ts h = rw (h refl) (sym (append-nil _))
  backends_in-adopt_targets s (c ∷ changed) built ts h =
      backends_in-append s (keep_if (λ t. not (in_sections (c ∷ changed) t.section)) ts) built
      ∙ ap (λ l. l ++ backends_in s built) (backends_in-keep_if s (c ∷ changed) ts)

  -- Every backend of a list was built for one section.
  abbrev pub IsOf : Text → Built B → Type 0
  IsOf name b = b.section ≡ name

  backends_in-built :
      (s : Option Text) (name : Text) (hourly now : ℕ) (built : List (Built B))
      → All (IsOf name) built
      → backends_in s (map (new_target hourly now) built)
        ≡ (if same_section s (some name) then as_built built else [])
  unfolding new_target
  backends_in-built s name hourly now [] h = elim (Bool-cases (same_section s (some name))) [
    | inl e ↦ rw e refl
    | inr e ↦ rw e refl
  ]
  backends_in-built s name hourly now (b ∷ built) (here, later) =
      let rest = backends_in-built s name hourly now built later in
      let own : same_section s (some b.section) ≡ same_section s (some name) =
        ap (λ n. same_section s (some n)) here in
      ground (arith, own, rest)

  backends_in-when_wanted :
      (s : Option Text) (name : Text) (hourly now : ℕ) (want : List Text) (built : List (Built B))
      → All (IsOf name) built
      → backends_in s (map (new_target hourly now) (when_wanted want name built))
        ≡ (if contains want name && same_section s (some name) then as_built built else [])
  backends_in-when_wanted s name hourly now want built h = elim (Bool-cases (contains want name)) [
    | inl e ↦ rw e (backends_in-built s name hourly now built h)
    | inr e ↦ rw e refl
  ]

module _ (env : Builder) where
  email_targets-IsOf : (o : Option EmailOptions) → All (IsOf email_name) (email_targets env o)
  email_targets-IsOf none = tt
  email_targets-IsOf (some o) =
      elim (Option-cases
        (usable env.has_transport (build_email env.parse_mailbox env.read env.variable o))) [
          | inl e ↦ rw e tt
          | inr (b, e) ↦ rw e (refl, tt)
        ]

  ntfy_targets-IsOf : (o : Option NtfyOptions) → All (IsOf ntfy_name) (ntfy_targets env o)
  ntfy_targets-IsOf none = tt
  ntfy_targets-IsOf (some o) = elim (Option-cases (usable env.has_client (build_ntfy o))) [
    | inl e ↦ rw e tt
    | inr (b, e) ↦ rw e (refl, tt)
  ]

  irc_targets-IsOf :
      (o : Option IrcNotifyOptions) (owner : Option (IrcLink × Text))
      → All (IsOf irc_name) (irc_targets env o owner)
  irc_targets-IsOf none owner = tt
  irc_targets-IsOf (some o) none = tt
  irc_targets-IsOf (some o) (some (link, nick)) = (refl, tt)

  -- What is built of a section, if it is wanted
  abbrev pub built_in :
      NotificationSection
      → List Text
      → Option Text
      → List (Section env × EventFilter × List Undelivered)
  built_in o want s =
      (if contains want email_name && same_section s (some email_name)
        then as_built (email_targets env o.email)
        else [])
      ++ ((if contains want ntfy_name && same_section s (some ntfy_name)
            then as_built (ntfy_targets env o.ntfy)
            else [])
          ++ (if contains want irc_name && same_section s (some irc_name)
              then as_built (irc_targets env o.irc env.irc_owner)
              else []))

  pub backends_in-build_section_targets :
      (s : Option Text) (o : NotificationSection) (want : List Text) (hourly now : ℕ)
      → backends_in s (map (new_target hourly now) (build_section_targets env o want))
        ≡ built_in o want s
  unfolding build_section_targets
  backends_in-build_section_targets s o want hourly now =
      let email = when_wanted want email_name (email_targets env o.email) in
      let ntfy = when_wanted want ntfy_name (ntfy_targets env o.ntfy) in
      let irc = when_wanted want irc_name (irc_targets env o.irc env.irc_owner) in
      let made = new_target hourly now in
      rw
        (
          map-append made email (ntfy ++ irc),
          map-append made ntfy irc,
          backends_in-append s (map made email) (map made ntfy ++ map made irc),
          backends_in-append s (map made ntfy) (map made irc),
          backends_in-when_wanted s email_name hourly now want (email_targets env o.email)
              (email_targets-IsOf o.email),
          backends_in-when_wanted s ntfy_name hourly now want (ntfy_targets env o.ntfy)
              (ntfy_targets-IsOf o.ntfy),
          backends_in-when_wanted s irc_name hourly now want (irc_targets env o.irc env.irc_owner)
              (irc_targets-IsOf o.irc env.irc_owner),
        )
        refl
