-- ===== src/Supervisor/Paths.antt =====
-- src/supervisor.rs: paths from the environment, and which rtorrent.rc is loaded. The environment and
-- the files are arguments.
pub mod Separators
use irc2torrent.Prelude.{
  ℕ, ◌+◌, ◌*◌, ◌==◌, Bool, true, false, not, ◌&&◌, ◌||◌, List, [], ◌∷◌, ◌++◌, Text, codes, Option,
  none, some, if◌then◌else◌, leb, is_empty, trim, trim_start_of, trim_end_of, find, any, text_eq,
  split_once, split_char,
}
use irc2torrent.Announce.{starts_with}
use irc2torrent.Notify.Events.{text_lines, unwrap_or}
use irc2torrent.Platforms.UrlTemplate.{has_substring}
use irc2torrent.Platforms.Http.{is_normal, equal_components}
use irc2torrent.CommandProcessor.Process.Context.{parse_usize}

abbrev pub is_slash : ℕ → Bool
is_slash c = c == b'/'

abbrev pub ends_with_slash : Text → Bool
ends_with_slash [] = false
ends_with_slash (c ∷ []) = is_slash c
ends_with_slash (c ∷ d ∷ cs) = ends_with_slash (d ∷ cs)

-- `PathBuf::join`, of a relative path
abbrev pub join_relative : Text → Text → Text
join_relative dir name =
    if is_empty dir || ends_with_slash dir then dir ++ name else dir ++ (b'/' ∷ name)

abbrev pub image_rtorrent_rc : Text
image_rtorrent_rc = codes "/etc/rtorrent/rtorrent.rc"

module _ (env : Text → Option Text) where
  unfoldable pub env_or : Text → Text → Text
  env_or key default = unwrap_or (env key) default

  -- The path, of a trimmed text and what is left of it without the slashes at its end
  abbrev pub normalised : Text → Text → Text → Text
  normalised default trimmed [] = if is_empty trimmed then default else codes "/"
  normalised default trimmed (c ∷ stripped) = c ∷ stripped

  unfoldable pub env_path : Text → Text → Text
  unfolding env_or
  env_path key default =
      normalised default (trim (env_or key default))
        (trim_end_of is_slash (trim (env_or key default)))

  -- Seconds
  unfoldable pub shutdown_grace : ℕ
  shutdown_grace =
      unwrap_or (parse_usize (env_or (codes "IRC2TORRENT_SHUTDOWN_GRACE") (codes "8"))) 8

  unfoldable pub raw_child_logs : Bool
  raw_child_logs =
      any (text_eq (env_or (codes "IRC2TORRENT_RAW_CHILD_LOGS") (codes "0")))
        (codes "1" ∷ codes "true" ∷ codes "yes" ∷ codes "on" ∷ [])

  abbrev pub xdg_candidate : Option Text → List Text
  xdg_candidate none = []
  xdg_candidate (some xdg) = join_relative xdg (codes "rtorrent/rtorrent.rc") ∷ []

  unfoldable pub rc_candidates : List Text
  rc_candidates =
      let home = env_path (codes "HOME") (codes "/config") in
      xdg_candidate (env (codes "XDG_CONFIG_HOME"))
      ++ (join_relative home (codes ".config/rtorrent/rtorrent.rc")
          ∷ join_relative home (codes ".rtorrent.rc")
          ∷ [])

  abbrev pub rc_of : (Text → Bool) → Option Text → Text
  rc_of is_file (some explicit) = env_path (codes "RTORRENT_RC") image_rtorrent_rc
  rc_of is_file none = unwrap_or (find is_file rc_candidates) image_rtorrent_rc

  unfoldable pub resolve_rtorrent_rc : (Text → Bool) → Text
  resolve_rtorrent_rc is_file = rc_of is_file (env (codes "RTORRENT_RC"))

-- A line of an rc: nothing of interest, the socket or that it cannot be told, or an import
pub data RcLine : Type 0 where
  other_line : RcLine
  socket_line : Option Text → RcLine
  import_line : Text → RcLine

abbrev pub is_quote : ℕ → Bool
is_quote c = c == b'"'

abbrev pub unquoted : Text → Text
unquoted value = trim_end_of is_quote (trim_start_of is_quote (trim value))

abbrev pub rc_setting : Text → Text → RcLine
rc_setting key value =
    if text_eq key (codes "network.scgi.open_local") || text_eq key (codes "scgi_local")
    then socket_line (if starts_with (codes "(") value then none else some value)
    else if text_eq key (codes "import") || text_eq key (codes "try_import")
    then import_line value
    else other_line

abbrev pub rc_pair : Option (Text × Text) → RcLine
rc_pair none = other_line
rc_pair (some (key, value)) = rc_setting (trim key) (unquoted value)

unfoldable pub rc_line : Text → RcLine
rc_line line =
    if starts_with (codes "#") (trim line)
    then other_line
    else rc_pair (split_once b'=' (trim line))

-- The loop over the lines: the socket if a line gives it, or the imports
abbrev pub rc_lines : List RcLine → Option (Option Text) × List Text
rc_lines [] = (none, [])
rc_lines (other_line ∷ lines) = rc_lines lines
rc_lines (socket_line socket ∷ lines) = (some socket, [])
rc_lines (import_line path ∷ lines) = let later = rc_lines lines in (later.0, path ∷ later.1)

abbrev pub rc_lines_of : List Text → List RcLine
rc_lines_of [] = []
rc_lines_of (l ∷ ls) = rc_line l ∷ rc_lines_of ls

-- `Path::components`: what stands between separators, without the empty ones and, but at the start of
-- a relative path, the current directory
abbrev pub later_components : List Text → List Text
later_components [] = []
later_components (part ∷ parts) =
    let later = later_components parts in if is_normal part then part ∷ later else later

abbrev pub components_of : List Text → List Text
components_of [] = []
components_of (part ∷ parts) =
    if is_empty part then later_components parts else part ∷ later_components parts

unfoldable pub components : Text → List Text
components path = components_of (split_char b'/' path)

-- `PathBuf::eq`
unfoldable pub path_eq : Text → Text → Bool
unfolding components
path_eq a b =
    (if starts_with (codes "/") a
      then starts_with (codes "/") b
      else not (starts_with (codes "/") b))
    && equal_components (components a) (components b)

module _ (read : Text → Option Text) where
  -- With `follow_imports` false, and below with it true
  abbrev pub socket_alone : Option Text → Option Text
  socket_alone none = none
  socket_alone (some contents) = unwrap_or (rc_lines (rc_lines_of (text_lines contents))).0 none

  -- `find_map`
  abbrev pub first_socket : List Text → Option Text
  first_socket [] = none
  first_socket (path ∷ paths) = elim (socket_alone (read path)) [
    | some socket ↦ some socket
    | none ↦ first_socket paths
  ]

  abbrev pub socket_or_import : Option (Option Text) × List Text → Option Text
  socket_or_import (some socket, imports) = socket
  socket_or_import (none, imports) = first_socket imports

  abbrev pub socket_followed : Option Text → Option Text
  socket_followed none = none
  socket_followed (some contents) = socket_or_import (rc_lines (rc_lines_of (text_lines contents)))

  unfoldable pub scgi_socket_in_rc : Text → Option Text
  scgi_socket_in_rc path = socket_followed (read path)

  abbrev pub differs_from : Text → Option Text → Bool
  differs_from expected none = false
  differs_from expected (some socket) = not (path_eq (trim_end_of is_slash socket) expected)

  -- Whether the warning is given
  unfoldable pub warn_if_socket_disagrees_with_rc : Text → Text → Bool
  warn_if_socket_disagrees_with_rc rc expected = differs_from expected (scgi_socket_in_rc rc)

abbrev pub imports_defaults : Text → Bool
imports_defaults line =
    not (starts_with (codes "#") (trim line))
    && has_substring (codes "import") (trim line)
    && has_substring image_rtorrent_rc (trim line)

unfoldable pub warn_if_defaults_not_imported : Option Text → Bool
warn_if_defaults_not_imported none = false
warn_if_defaults_not_imported (some contents) = not (any imports_defaults (text_lines contents))

-- Whether the log is rolled, of its length if there is one
unfoldable pub rotates_log : Option ℕ → Bool
rotates_log none = false
rotates_log (some bytes) = leb (16 * 1024 * 1024) bytes

-- Whether the default is copied
unfoldable pub seeds : (source_exists target_exists : Bool) → Bool
seeds source_exists target_exists = source_exists && not target_exists
