-- ===== src/Irc/Presence.antt =====
-- src/irc_processor.rs: whether the owner is on the network, as ISON answers, and what NickServ says of
-- users. The regex of a STATUS reply, the clock and the pacer of a new connection are arguments.
pub mod Latest
use irc2torrent.Prelude.{
  ℕ, ◌^◌, Bool, true, false, not, List, [], ◌∷◌, ◌++◌, Text, codes, Option, none, some,
  if◌then◌else◌, is_empty, is_space, keep_if, any, eq_ignore_case, onto_first, put, parse_unsigned,
}
use irc2torrent.Auth.{SecurityMode, irc_user_name, password}
use irc2torrent.Platforms.UrlTemplate.{has_substring}
use irc2torrent.Irc.Outbound.{Outbound}
use irc2torrent.Notify.Hold.{IrcLink, IrcBackend, connected, deliver, retry_pending}

-- `str::split_whitespace`
abbrev pub split_spaces : Text → List Text
split_spaces [] = [] ∷ []
split_spaces (c ∷ cs) =
    let rest = split_spaces cs in if is_space c then [] ∷ rest else onto_first c rest

unfoldable pub split_whitespace : Text → List Text
split_whitespace t = keep_if (λ piece. not (is_empty piece)) (split_spaces t)

-- The nick that an ISON asks for, if one is sent
unfoldable pub probe_owner_presence : SecurityMode → (has_client : Bool) → Option Text
probe_owner_presence (irc_user_name owner) true = some owner
probe_owner_presence (irc_user_name owner) false = none
probe_owner_presence (password secret) has_client = none

abbrev pub is_listed : Text → Text → Bool
is_listed owner online_list = any (λ n. eq_ignore_case n owner) (split_whitespace online_list)

unfoldable pub note_owner_presence : SecurityMode → Text → IrcLink → IrcLink
note_owner_presence (irc_user_name owner) online_list link = record link {
  owner_online = is_listed owner online_list;
}
note_owner_presence (password secret) online_list link = link

-- `args.last().unwrap_or("")`
abbrev pub last_arg : List Text → Text
last_arg [] = []
last_arg (t ∷ []) = t
last_arg (t ∷ u ∷ ts) = last_arg (u ∷ ts)

-- What changes the link, or goes through it: a connection is made or dropped, an ISON is answered, and
-- the notifier has a message or retries what is held.
pub data LinkEvent : Type 0 where
  joined : Outbound → LinkEvent
  dropped : LinkEvent
  ison : (args : List Text) → LinkEvent
  message : (now : ℕ) (subject body : Text) → LinkEvent
  tick : (now : ℕ) → LinkEvent

unfoldable pub on_link : SecurityMode → LinkEvent → IrcBackend → IrcBackend
unfolding note_owner_presence
on_link mode (joined pacer) s = record s { link = connected pacer }
on_link mode dropped s = record s { link = record { sender = s.link.sender; owner_online = false } }
on_link mode (ison args) s = record s { link = note_owner_presence mode (last_arg args) s.link }
on_link mode (message now subject body) s = (deliver now subject body s).1
on_link mode (tick now) s = retry_pending now s

abbrev pub after_events : SecurityMode → List LinkEvent → IrcBackend → IrcBackend
after_events mode [] s = s
after_events mode (e ∷ events) s = after_events mode events (on_link mode e s)

pub record UserStatus : Type 0 where
  pub nick : Text
  pub status : ℕ
  pub time_of_check : ℕ

unfoldable pub user_status_report :
    Text → ℕ → ℕ → List (Text × UserStatus) → List (Text × UserStatus)
user_status_report nick status time users =
    put nick (record { nick = nick; status = status; time_of_check = time }) users

abbrev pub report_parsed : Text → Option ℕ → ℕ → List (Text × UserStatus) → List (Text × UserStatus)
report_parsed nick none time users = users
report_parsed nick (some status) time users = user_status_report nick status time users

abbrev pub report_captured :
    Option (Text × Text) → ℕ → List (Text × UserStatus) → List (Text × UserStatus)
report_captured none time users = users
report_captured (some (nick, status)) time users =
    report_parsed nick (parse_unsigned (2 ^ 8) status) time users

-- `captures` is `nick` and `status` of the STATUS pattern.
unfoldable pub nickserv_msg_process :
    (Text → Option (Text × Text)) → ℕ → Text → List (Text × UserStatus) → List (Text × UserStatus)
nickserv_msg_process captures time text users =
    if has_substring (codes "STATUS") text
    then report_captured (captures text) time users
    else users

-- `update_user_status`: what NickServ is asked
unfoldable pub status_question : Text → Text
status_question nick = codes "STATUS " ++ nick
