-- ===== src/Irc/Presence/Latest.antt =====
-- src/irc_processor.rs: what the presence that was heard last does to the notifications over IRC.
use irc2torrent.Prelude.{
  ℕ, ◌≡◌, refl, Bool, true, false, List, [], ◌∷◌, Text, Option, none, some, ◌∙◌, ap,
}
use irc2torrent.Auth.{SecurityMode, irc_user_name, password}
use irc2torrent.Notify.Hold.{IrcBackend, connected}
use irc2torrent.Notify.Hold.Reach.{
  deliver-owner_online, retry_pending-owner_online, IsReached, link-IsReached,
}
use irc2torrent.Irc.Presence.{
  is_listed, note_owner_presence, last_arg, LinkEvent, joined, dropped, ison, message, tick,
  on_link, after_events,
}

-- What an event says of the owner, if anything
abbrev pub news : SecurityMode → LinkEvent → Option Bool
news mode (joined pacer) = some true
news mode dropped = some false
news (irc_user_name owner) (ison args) = some (is_listed owner (last_arg args))
news (password secret) (ison args) = none
news mode (message now subject body) = none
news mode (tick now) = none

abbrev pub or_known : Bool → Option Bool → Bool
or_known known none = known
or_known known (some b) = b

-- The latest news, or what was known before
abbrev pub latest : SecurityMode → Bool → List LinkEvent → Bool
latest mode known [] = known
latest mode known (e ∷ events) = latest mode (or_known known (news mode e)) events

on_link-news :
    (mode : SecurityMode) (e : LinkEvent) (s : IrcBackend)
    → (on_link mode e s).link.owner_online ≡ or_known s.link.owner_online (news mode e)
unfolding on_link note_owner_presence connected
on_link-news mode (joined pacer) s = refl
on_link-news mode dropped s = refl
on_link-news (irc_user_name owner) (ison args) s = refl
on_link-news (password secret) (ison args) s = refl
on_link-news mode (message now subject body) s = deliver-owner_online now subject body s
on_link-news mode (tick now) s = retry_pending-owner_online now s

after_events-latest :
    (mode : SecurityMode) (events : List LinkEvent) (s : IrcBackend)
    → (after_events mode events s).link.owner_online ≡ latest mode s.link.owner_online events
after_events-latest mode [] s = refl
after_events-latest mode (e ∷ events) s =
    after_events-latest mode events (on_link mode e s)
    ∙ ap (λ b. latest mode b events) (on_link-news mode e s)

-- However connections and the owner have come and gone, and whatever was sent meanwhile, the latest news
-- of the owner decides what a notification does next: when it says that they are there and there is a
-- connection, what is held and not too old is queued, then the message, and nothing stays held; when it
-- says that they are away, or there is no connection yet, the message fails and a retry changes
-- nothing, and it is held with the latest before it, up to twenty, unless the time to hold is zero,
-- where what is held stays as it was. A new connection is good news, a dropped one bad, and an ISON says whether the
-- owner's nick is in it.
pub after_events-IsReached :
    (mode : SecurityMode) (events : List LinkEvent) (s : IrcBackend) (now : ℕ) (subject body : Text)
    → IsReached
        (latest mode s.link.owner_online events)
        (after_events mode events s).link.sender
        now
        subject
        body
        (after_events mode events s)
after_events-IsReached mode events s now subject body =
    link-IsReached (latest mode s.link.owner_online events) (after_events mode events s).link.sender
      now subject body (after_events mode events s) (after_events-latest mode events s) refl
