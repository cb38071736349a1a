-- ===== src/Supervisor/Tests.antt =====
-- src/supervisor.rs: the theorems at two services.
use irc2torrent.Prelude.{
  true, ℕ, ◌≡◌, refl, Text, text_eq, if◌then◌else◌, [], ◌∷◌, ◌++◌, codes, Option, none, some, arith,
}
use irc2torrent.Supervisor.Services.{Service, Supervisor, restart, here}
use irc2torrent.Supervisor.Services.Abandoned.{IsAbandoned, IsUnknown, restart-IsAbandoned}
use irc2torrent.Platforms.Http.{equal_components}
use irc2torrent.Supervisor.Paths.{path_eq, components, scgi_socket_in_rc, rc_line}

abbrev flood : Service
flood = record { name = codes "flood"; child = none; backoff = 2; restart_at = some 10 }

abbrev rtorrent : Service
rtorrent = record { name = codes "rtorrent"; child = some 7; backoff = 1; restart_at = none }

abbrev supervisor : Supervisor
supervisor = record { services = flood ∷ rtorrent ∷ []; by_pid = (7, 1) ∷ [] }

abbrev no_program : ℕ → Option ℕ
no_program index = none

flood-IsUnknown : IsUnknown 0 supervisor.by_pid
flood-IsUnknown pid found = ground arith

restart-IsAbandoned_example : IsAbandoned 0 (restart no_program 12 supervisor)
restart-IsAbandoned_example =
    restart-IsAbandoned no_program 12 0 supervisor (restart no_program 12 supervisor)
      (flood, refl, refl, refl) refl flood-IsUnknown here

abbrev only_home : Text → Option Text
only_home key = if text_eq key (codes "HOME") then some (codes " /home/me// ") else none

abbrev rc_files : Text → Option Text
rc_files path =
    if text_eq path (codes "/rc")
    then some (codes "# import = /etc/other.rc" ++ 10 ∷ codes "import = /base.rc")
    else if text_eq path (codes "/base.rc")
    then some (codes " network.scgi.open_local = \"/run/rtorrent.sock\"")
    else none

imported_socket : scgi_socket_in_rc rc_files (codes "/rc") ≡ some (codes "/run/rtorrent.sock")
unfolding scgi_socket_in_rc rc_line
imported_socket = refl

same_path : path_eq (codes "/run//rtorrent/./a.sock") (codes "/run/rtorrent/a.sock") ≡ true
unfolding path_eq components equal_components
same_path = refl
