-- ===== src/Logging.antt =====
-- src/logging.rs: the remote syslog sink. The environment, the clock's stamp, the numbers that the
-- syslog crate gives to facilities and severities, and the transport are arguments.
mod Tests
pub mod Framing
pub mod Target
use irc2torrent.Prelude.{
  ℕ, zero, suc, ◌+◌, ◌==◌, Bool, true, false, not, ◌&&◌, ◌||◌, List, [], ◌∷◌, ◌++◌, Text, codes,
  decimal, Option, none, some, Result, ok, err, ◌>>=◌, if◌then◌else◌, leb, is_empty, trim,
  trim_end_of, to_lower, eq_ignore_case, text_eq, contains, lookup,
}
use irc2torrent.Notify.Events.{unwrap_or}
use irc2torrent.Logging.Target.{
  LogTarget, LogError, default_port, after_bracket, starts_with_colon, colons, port_by_colons,
  port_by_bracket, with_default_port, scheme_of, unix_of, bare_target, unix_target, other_target,
  tcp_target, udp_target, parse_target, describe_target, level_names, or_unknown, parse_level,
  facility_names, parse_facility, udp, tcp, unix_socket, unknown_scheme, unbracketed_address,
  unknown_level, unknown_facility, no_host_given, not_opened,
}

unfoldable pub truthy : Text → Bool
truthy value =
    contains (codes "1" ∷ codes "true" ∷ codes "yes" ∷ codes "on" ∷ []) (to_lower (trim value))

abbrev pub spec_env : Text
spec_env = codes "IRC2TORRENT_SYSLOG"

pub data Severity : Type 0 where
  log_err log_warning log_info log_debug : Severity

-- The levels of a record, from 1: error, warn, info, debug and trace
abbrev pub severity_of : ℕ → Severity
severity_of (suc zero) = log_err
severity_of (suc (suc zero)) = log_warning
severity_of (suc (suc (suc zero))) = log_info
severity_of _ = log_debug

pub record Rfc3164 : Type 0 where
  pub facility : Text
  pub hostname : Option Text
  pub process : Text
  pub pid : ℕ

abbrev pub host_field : Option Text → Text
host_field none = []
host_field (some hostname) = hostname ++ codes " "

-- `priority` is the crate's number for a facility and a severity, and `stamp` is the time.
unfoldable pub record_header : (Text → Severity → ℕ) → Rfc3164 → Text → Severity → Text
record_header priority f stamp severity =
    codes "<"
    ++ decimal (priority f.facility severity)
    ++ codes ">"
    ++ stamp
    ++ codes " "
    ++ host_field f.hostname
    ++ f.process
    ++ codes "["
    ++ decimal f.pid
    ++ codes "]: "

unfoldable pub format_record : (Text → Severity → ℕ) → Rfc3164 → Text → Severity → Text → Text
format_record priority f stamp severity text = record_header priority f stamp severity ++ text

pub record SyslogSink : Type 0 where
  pub level : ℕ
  pub frame_with_newline : Bool
  pub formatter : Rfc3164

unfoldable pub connect_sink : LogTarget → Rfc3164 → ℕ → SyslogSink
connect_sink (tcp addr) f level = record { level = level; frame_with_newline = true; formatter = f }
connect_sink _ f level = record { level = level; frame_with_newline = false; formatter = f }

-- `system_hostname` is the machine's name, if it has one.
module _ (env : Text → Option Text) where
  abbrev pub nonblank : Option Text → Option Text
  nonblank none = none
  nonblank (some v) = if is_empty (trim v) then none else some (trim v)

  unfoldable pub env_opt : Text → Option Text
  env_opt key = nonblank (env key)

  unfoldable pub child_logs_via_log : Bool
  child_logs_via_log = truthy (unwrap_or (env (codes "IRC2TORRENT_SYSLOG_CHILD_LOGS")) [])

  abbrev pub formatter_of : Option Text → ℕ → Text → Rfc3164
  formatter_of system_hostname pid facility = record {
    facility = facility;
    hostname = elim (env_opt (codes "IRC2TORRENT_SYSLOG_HOSTNAME")) [
      | some h ↦ some h
      | none ↦ system_hostname
    ];
    process = unwrap_or (env_opt (codes "IRC2TORRENT_SYSLOG_TAG")) (codes "irc2torrent");
    pid = pid;
  }

  -- The target's text, unless it is blank
  abbrev pub unless_blank : Option Text → Option Text
  unless_blank none = none
  unless_blank (some v) = if is_empty (trim v) then none else some v

  -- `opens` is whether the transport of a target can be opened.
  abbrev pub sink_for :
      (LogTarget → Bool) → Option Text → ℕ → Option Text → Result LogError (Option SyslogSink)
  sink_for opens system_hostname pid none = ok none
  sink_for opens system_hostname pid (some spec) = parse_target spec >>= λ target.
      parse_level (unwrap_or (env_opt (codes "IRC2TORRENT_SYSLOG_LEVEL")) (codes "info"))
      >>= λ level.
          parse_facility
            (unwrap_or (env_opt (codes "IRC2TORRENT_SYSLOG_FACILITY")) (codes "daemon"))
          >>= λ facility.
              if opens target
              then ok (some (connect_sink target (formatter_of system_hostname pid facility) level))
              else err (not_opened target)

  unfoldable pub sink : (LogTarget → Bool) → Option Text → ℕ → Result LogError (Option SyslogSink)
  sink opens system_hostname pid = sink_for opens system_hostname pid (unless_blank (env spec_env))

  abbrev pub described : Option Text → Option Text
  described none = none
  described (some spec) = elim (parse_target spec) [
    | ok target ↦ some (describe_target target)
    | err e ↦ none
  ]

  unfoldable pub describe : Option Text
  describe = described (unless_blank (env spec_env))

-- A record of the log: its level, the time and its message
pub record LogRecord : Type 0 where
  pub level : ℕ
  pub stamp : Text
  pub text : Text

abbrev pub is_enabled : SyslogSink → LogRecord → Bool
is_enabled s r = leb r.level s.level

-- What is written for a record, or nothing when its level is filtered
unfoldable pub log_record : (Text → Severity → ℕ) → SyslogSink → LogRecord → Option Text
log_record priority s r =
    if is_enabled s r
    then some (
        format_record priority s.formatter r.stamp (severity_of r.level)
          (if s.frame_with_newline then r.text ++ 10 ∷ [] else r.text))
    else none

-- What a stream carries after some records
abbrev pub written : Option Text → Text
written none = []
written (some t) = t

unfoldable pub stream_of : (Text → Severity → ℕ) → SyslogSink → List LogRecord → Text
stream_of priority s [] = []
stream_of priority s (r ∷ records) =
    written (log_record priority s r) ++ stream_of priority s records
