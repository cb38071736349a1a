-- ===== src/Notify/Reload.antt =====
-- src/notify.rs: the backends of `[notifications]`, as they are built and as a change of the
-- configuration rebuilds them. The derived equalities are arguments.
pub mod Backends
pub mod Sections
use irc2torrent.Prelude.{
  ℕ, Bool, true, false, not, List, [], ◌∷◌, ◌++◌, map, Text, codes, Option, none, some,
  if◌then◌else◌, contains,
}
use irc2torrent.Notify.Events.{EventFilter}
use irc2torrent.Notify.Hold.{IrcLink, IrcBackend}
use irc2torrent.Notify.Dispatch.{Built, Dispatcher, refresh}
use irc2torrent.Notify.Senders.{EmailSettings, build_email, NtfyBackend, build_ntfy}
use irc2torrent.Configuration.Sections.{
  EmailOptions, NtfyOptions, IrcNotifyOptions, NotificationSection,
}

-- What a backend may be
pub data SectionBackend (Mailbox : Type 0) : Type 0 where
  email_backend : EmailSettings Mailbox → SectionBackend Mailbox
  ntfy_backend : NtfyBackend → SectionBackend Mailbox
  irc_section : IrcBackend → SectionBackend Mailbox

-- The files, the environment's password, the parsing of addresses, whether the SMTP transport and the
-- HTTP client can be set up, the equalities that are derived, and the owner's link and nick, if commands
-- come from a nick
pub record Builder : Type 1 where
  pub Mailbox : Type 0
  pub parse_mailbox : Text → Option Mailbox
  pub read : Text → Option Text
  pub variable : Option Text
  pub has_transport : EmailSettings Mailbox → Bool
  pub has_client : NtfyBackend → Bool
  pub same_email : Option EmailOptions → Option EmailOptions → Bool
  pub same_ntfy : Option NtfyOptions → Option NtfyOptions → Bool
  pub same_irc : Option IrcNotifyOptions → Option IrcNotifyOptions → Bool
  pub same : NotificationSection → NotificationSection → Bool
  pub irc_owner : Option (IrcLink × Text)

abbrev pub email_name : Text
email_name = codes "email"

abbrev pub ntfy_name : Text
ntfy_name = codes "ntfy"

abbrev pub irc_name : Text
irc_name = codes "irc"

abbrev pub when_differs : Bool → Text → List Text
when_differs true name = []
when_differs false name = name ∷ []

abbrev pub usable : {B : Type 0} → (B → Bool) → Option B → Option B
usable is_up none = none
usable is_up (some b) = if is_up b then some b else none

abbrev pub when_wanted : {B : Type 0} → List Text → Text → List (Built B) → List (Built B)
when_wanted want name built = if contains want name then built else []

module _ (env : Builder) where
  abbrev pub Section : Type 0
  Section = SectionBackend env.Mailbox

  abbrev pub built_email : EmailOptions → Option (EmailSettings env.Mailbox) → List (Built Section)
  built_email o none = []
  built_email o (some b) =
      record { backend = email_backend b; filter = o.events; section = email_name } ∷ []

  abbrev pub email_targets : Option EmailOptions → List (Built Section)
  email_targets none = []
  email_targets (some o) =
      built_email o
        (usable env.has_transport (build_email env.parse_mailbox env.read env.variable o))

  abbrev pub built_ntfy : NtfyOptions → Option NtfyBackend → List (Built Section)
  built_ntfy o none = []
  built_ntfy o (some b) =
      record { backend = ntfy_backend b; filter = o.events; section = ntfy_name } ∷ []

  abbrev pub ntfy_targets : Option NtfyOptions → List (Built Section)
  ntfy_targets none = []
  ntfy_targets (some o) = built_ntfy o (usable env.has_client (build_ntfy o))

  abbrev pub irc_targets : Option IrcNotifyOptions → Option (IrcLink × Text) → List (Built Section)
  irc_targets none owner = []
  irc_targets (some o) none = []
  irc_targets (some o) (some (link, nick)) =
      record {
        backend =
            irc_section
              (record { link = link; nick = nick; hold_for = o.hold_seconds; pending = [] });
        filter = o.events;
        section = irc_name;
      }
      ∷ []

  unfoldable pub build_section_targets : NotificationSection → List Text → List (Built Section)
  build_section_targets o want =
      when_wanted want email_name (email_targets o.email)
      ++ (when_wanted want ntfy_name (ntfy_targets o.ntfy)
          ++ when_wanted want irc_name (irc_targets o.irc env.irc_owner))

  -- The sections of `RELOADABLE` in which two configurations differ, in its order
  unfoldable pub changed_sections : NotificationSection → NotificationSection → List Text
  changed_sections fresh old =
      when_differs (env.same_email fresh.email old.email) email_name
      ++ (when_differs (env.same_ntfy fresh.ntfy old.ntfy) ntfy_name
          ++ when_differs (env.same_irc fresh.irc old.irc) irc_name)

  -- `refresh`, of the configuration adopted last and of the dispatcher
  unfoldable pub reload :
      ℕ
      → NotificationSection
      → NotificationSection × Dispatcher Section
      → NotificationSection × Dispatcher Section
  reload now fresh (old, d) = if env.same fresh old then (old, d) else (
    fresh,
    refresh fresh.options now (changed_sections fresh old)
        (build_section_targets fresh (changed_sections fresh old)) d,
  )
