-- ===== src/Notify/Senders.antt =====
-- src/notify.rs: the email and ntfy backends as they are set up. The files, the environment and the
-- parsing of addresses are arguments; sending is I/O.
pub mod Headers
use irc2torrent.Prelude.{
  ℕ, ◌==◌, Bool, true, false, not, ◌&&◌, ◌||◌, List, [], ◌∷◌, ◌++◌, map, Text, codes, Option, none,
  some, if◌then◌else◌, leb, is_empty, trim, trim_end_of, take, to_lower, contains, lookup,
}
use irc2torrent.Announce.{starts_with}
use irc2torrent.Notify.Events.{unwrap_or}
use irc2torrent.Configuration.Sections.{EmailOptions, NtfyOptions}

abbrev pub known_smtp : List (Text × Text)
known_smtp =
    (codes "gmail.com", codes "smtp.gmail.com")
    ∷ (codes "googlemail.com", codes "smtp.gmail.com")
    ∷ (codes "outlook.com", codes "smtp-mail.outlook.com")
    ∷ (codes "hotmail.com", codes "smtp-mail.outlook.com")
    ∷ (codes "live.com", codes "smtp-mail.outlook.com")
    ∷ (codes "yahoo.com", codes "smtp.mail.yahoo.com")
    ∷ (codes "fastmail.com", codes "smtp.fastmail.com")
    ∷ (codes "icloud.com", codes "smtp.mail.me.com")
    ∷ (codes "me.com", codes "smtp.mail.me.com")
    ∷ (codes "gmx.com", codes "mail.gmx.com")
    ∷ (codes "gmx.net", codes "mail.gmx.net")
    ∷ (codes "yandex.com", codes "smtp.yandex.com")
    ∷ (codes "zoho.com", codes "smtp.zoho.com")
    ∷ (codes "proton.me", codes "127.0.0.1")
    ∷ (codes "protonmail.com", codes "127.0.0.1")
    ∷ []

abbrev pub app_password_domains : List Text
app_password_domains =
    codes "gmail.com"
    ∷ codes "googlemail.com"
    ∷ codes "yahoo.com"
    ∷ codes "icloud.com"
    ∷ codes "me.com"
    ∷ []

-- What follows the last `@`
abbrev pub after_at : Text → Option Text
after_at [] = none
after_at (c ∷ cs) = elim (after_at cs) [
  | some rest ↦ some rest
  | none ↦ if c == b'@' then some cs else none
]

abbrev pub unless_empty : Option Text → Option Text
unless_empty none = none
unless_empty (some t) = if is_empty t then none else some t

unfoldable pub domain_of : Text → Option Text
domain_of address = unless_empty (after_at address)

abbrev pub smtp_of : Option Text → Option Text
smtp_of none = none
smtp_of (some domain) = lookup (to_lower domain) known_smtp

unfoldable pub infer_smtp_host : Text → Option Text
unfolding domain_of
infer_smtp_host address = smtp_of (domain_of address)

abbrev pub needs_of : Option Text → Bool
needs_of none = false
needs_of (some domain) = contains app_password_domains (to_lower domain)

unfoldable pub needs_app_password : Text → Bool
unfolding domain_of
needs_app_password address = needs_of (domain_of address)

abbrev pub is_password_end : ℕ → Bool
is_password_end c = c == 10 || c == 13

-- `contents` is what the file holds, if it could be read.
abbrev pub password_from : Option Text → Option Text → Option Text
password_from (some contents) variable = some (trim_end_of is_password_end contents)
password_from none variable = unless_empty variable

abbrev pub file_contents : (Text → Option Text) → Option Text → Option Text
file_contents read none = none
file_contents read (some path) = read path

unfoldable pub resolve_password : (Text → Option Text) → Option Text → EmailOptions → Option Text
resolve_password read variable o =
    if is_empty o.password
    then password_from (file_contents read o.password_file) variable
    else some o.password

-- What the SMTP transport is set up with; `implicit_tls` is `relay` and not `starttls_relay`.
pub record EmailSettings {ℓ} (Mailbox : Type ℓ) : Type ℓ where
  pub host : Text
  pub port : ℕ
  pub implicit_tls : Bool
  pub account : Text
  pub password : Text
  pub from : Mailbox
  pub to : Mailbox

module _ {ℓ} {Mailbox : Type ℓ} (parse_mailbox : Text → Option Mailbox) where
  abbrev pub settings_with :
      EmailOptions → Text → Text → Option Mailbox → Option Mailbox → Option (EmailSettings Mailbox)
  settings_with o password host (some from) (some to) = some (record {
    host = host;
    port = unwrap_or o.port 587;
    implicit_tls = unwrap_or o.port 587 == 465;
    account = o.address;
    password = password;
    from = from;
    to = to;
  })
  settings_with o password host _ _ = none

  abbrev pub settings_of : EmailOptions → Option Text → Option Text → Option (EmailSettings Mailbox)
  settings_of o (some password) (some host) =
      settings_with o password host (parse_mailbox (unwrap_or o.from o.address))
        (parse_mailbox (unwrap_or o.to o.address))
  settings_of o _ _ = none

  abbrev pub host_of : EmailOptions → Option Text → Option Text
  host_of o (some host) = some host
  host_of o none = infer_smtp_host o.address

  -- `EmailBackend::build`, up to the transport
  unfoldable pub build_email :
      (Text → Option Text) → Option Text → EmailOptions → Option (EmailSettings Mailbox)
  build_email read variable o =
      if is_empty (trim o.address)
      then none
      else settings_of o (resolve_password read variable o) (host_of o o.host)

pub record NtfyBackend : Type 0 where
  pub url : Text
  pub token : Option Text

unfoldable pub ntfy_url : Text → Text
ntfy_url topic =
    if starts_with (codes "http://") topic || starts_with (codes "https://") topic
    then topic
    else codes "https://ntfy.sh/" ++ topic

unfoldable pub build_ntfy : NtfyOptions → Option NtfyBackend
build_ntfy o =
    if is_empty (trim o.topic)
    then none
    else some (record { url = ntfy_url (trim o.topic); token = o.token })

-- `char::is_control`
abbrev pub is_control : ℕ → Bool
is_control c = leb c 31 || (leb 127 c && leb c 159)

unfoldable pub sanitize_header : Text → Text
sanitize_header s = take 200 (map (λ c. if is_control c then 32 else c) s)
