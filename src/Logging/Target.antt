-- ===== src/Logging/Target.antt =====
-- src/logging.rs: the target, the level and the facility that the environment names.
use irc2torrent.Prelude.{
  ℕ, zero, suc, ◌+◌, ◌==◌, Bool, false, List, [], ◌∷◌, ◌++◌, Text, codes, Option, none, some,
  Result, ok, err, ◌>>=◌, if◌then◌else◌, is_empty, trim, trim_end_of, to_lower, eq_ignore_case,
  contains, lookup,
}
use irc2torrent.Notify.Events.{strip_prefix, unwrap_or}

-- `unix_socket none` is the platform's default path.
pub data LogTarget : Type 0 where
  udp tcp : Text → LogTarget
  unix_socket : Option Text → LogTarget

pub data LogError : Type 0 where
  unknown_scheme unbracketed_address unknown_level unknown_facility : Text → LogError
  no_host_given : LogError
  not_opened : LogTarget → LogError

abbrev pub default_port : Text
default_port = codes ":514"

-- What follows the last `]`
abbrev pub after_bracket : Text → Option Text
after_bracket [] = none
after_bracket (c ∷ cs) = elim (after_bracket cs) [
  | some rest ↦ some rest
  | none ↦ if c == b']' then some cs else none
]

abbrev pub starts_with_colon : Text → Bool
starts_with_colon [] = false
starts_with_colon (c ∷ cs) = c == b':'

abbrev pub colons : Text → ℕ
colons [] = 0
colons (c ∷ cs) = (if c == b':' then 1 else 0) + colons cs

abbrev pub port_by_colons : Text → ℕ → Result LogError Text
port_by_colons host zero = ok (host ++ default_port)
port_by_colons host (suc zero) = ok host
port_by_colons host (suc (suc n)) = err (unbracketed_address host)

abbrev pub port_by_bracket : Text → Option Text → Result LogError Text
port_by_bracket host none = port_by_colons host (colons host)
port_by_bracket host (some rest) =
    if starts_with_colon rest then ok host else ok (host ++ default_port)

unfoldable pub with_default_port : Text → Result LogError Text
with_default_port given =
    let host = trim_end_of (λ c. c == b'/') (trim given) in
    if is_empty host then err no_host_given else port_by_bracket host (after_bracket host)

-- What stands before `://`
abbrev pub scheme_of : Text → Option Text
scheme_of [] = none
scheme_of (c ∷ cs) = elim (strip_prefix (codes "://") (c ∷ cs)) [
  | some rest ↦ some []
  | none ↦ elim (scheme_of cs) [ some scheme ↦ some (c ∷ scheme) | none ↦ none ]
]

abbrev pub unix_of : Text → LogTarget
unix_of rest = if is_empty (trim rest) then unix_socket none else unix_socket (some (trim rest))

abbrev pub bare_target : Text → Option Text → Result LogError LogTarget
bare_target spec (some scheme) = err (unknown_scheme scheme)
bare_target spec none = with_default_port spec >>= λ host. ok (udp host)

abbrev pub unix_target : Text → Option Text → Option Text → Result LogError LogTarget
unix_target spec (some rest) short = ok (unix_of rest)
unix_target spec none (some rest) = ok (unix_of rest)
unix_target spec none none = bare_target spec (scheme_of spec)

abbrev pub other_target : Text → Result LogError LogTarget
other_target spec =
    if eq_ignore_case spec (codes "unix")
    then ok (unix_socket none)
    else unix_target spec (strip_prefix (codes "unix://") spec) (strip_prefix (codes "unix:") spec)

abbrev pub tcp_target : Text → Option Text → Result LogError LogTarget
tcp_target spec (some rest) = with_default_port rest >>= λ host. ok (tcp host)
tcp_target spec none = other_target spec

abbrev pub udp_target : Text → Option Text → Result LogError LogTarget
udp_target spec (some rest) = with_default_port rest >>= λ host. ok (udp host)
udp_target spec none = tcp_target spec (strip_prefix (codes "tcp://") spec)

unfoldable pub parse_target : Text → Result LogError LogTarget
parse_target given = let spec = trim given in udp_target spec (strip_prefix (codes "udp://") spec)

-- A target, for people
unfoldable pub describe_target : LogTarget → Text
describe_target (udp addr) = codes "udp://" ++ addr
describe_target (tcp addr) = codes "tcp://" ++ addr
describe_target (unix_socket none) = codes "the local syslog socket"
describe_target (unix_socket (some path)) = path

-- `LevelFilter`: how many levels get through
abbrev pub level_names : List (Text × ℕ)
level_names =
    (codes "off", 0)
    ∷ (codes "error", 1)
    ∷ (codes "warn", 2)
    ∷ (codes "warning", 2)
    ∷ (codes "info", 3)
    ∷ (codes "debug", 4)
    ∷ (codes "trace", 5)
    ∷ []

abbrev pub or_unknown {ℓ} : {A : Type ℓ} → LogError → Option A → Result LogError A
or_unknown e none = err e
or_unknown e (some a) = ok a

unfoldable pub parse_level : Text → Result LogError ℕ
parse_level value =
    let name = to_lower (trim value) in or_unknown (unknown_level name) (lookup name level_names)

abbrev pub facility_names : List Text
facility_names =
    codes "kern"
    ∷ codes "user"
    ∷ codes "mail"
    ∷ codes "daemon"
    ∷ codes "auth"
    ∷ codes "syslog"
    ∷ codes "lpr"
    ∷ codes "news"
    ∷ codes "uucp"
    ∷ codes "cron"
    ∷ codes "authpriv"
    ∷ codes "ftp"
    ∷ codes "local0"
    ∷ codes "local1"
    ∷ codes "local2"
    ∷ codes "local3"
    ∷ codes "local4"
    ∷ codes "local5"
    ∷ codes "local6"
    ∷ codes "local7"
    ∷ []

-- A facility is known by its name.
unfoldable pub parse_facility : Text → Result LogError Text
parse_facility value =
    let lower = to_lower (trim value) in
    let name = unwrap_or (strip_prefix (codes "log_") lower) lower in
    if contains facility_names name then ok name else err (unknown_facility name)
