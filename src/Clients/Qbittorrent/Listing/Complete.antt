-- ===== src/Clients/Qbittorrent/Listing/Complete.antt =====
-- src/clients/qbittorrent.rs: the reply and the poller agree on what is complete.
use irc2torrent.Prelude.{
  ◌≡◌, refl, arith, Bool, true, false, ◌&&◌, ◌||◌, Text, ltb, leb, contains, if◌then◌else◌,
}
use irc2torrent.Auth.{ℤ, pos, negsuc}
use irc2torrent.CommandProcessor.Replies.{at_least_zero, is_complete}
use irc2torrent.Clients.Qbittorrent.Listing.{
  FloatLib, int_leb, is_positive, up_states, QbtTorrent, to_info, is_torrent_complete,
}

-- The test on bytes of the poller is the one that a reply makes on its clamped numbers.
bytes_complete :
    (size completed : ℤ)
    → (is_positive size && int_leb size completed)
      ≡ (ltb 0 (at_least_zero size) && leb (at_least_zero size) (at_least_zero completed))
bytes_complete (pos a) (pos b) = refl
bytes_complete (pos a) (negsuc b) = ground arith
bytes_complete (negsuc a) b = refl

if-or : (p q : Bool) → (if p then true else q) ≡ (p || q)
if-or true q = refl
if-or false q = refl

size_complete :
    (a b : ℤ) (t : Text)
    → (if is_positive a && int_leb a b then true else contains up_states t) ≡ (
        (ltb 0 (at_least_zero a) && leb (at_least_zero a) (at_least_zero b))
        || contains up_states t)
size_complete a b t = rw (bytes_complete a b) (
    if-or (ltb 0 (at_least_zero a) && leb (at_least_zero a) (at_least_zero b))
      (contains up_states t))

-- The poller takes a torrent as finished just when a reply shows it as done or its state is one of
-- the seven after the download, whatever its numbers.
pub is_torrent_complete-to_info :
    (lib : FloatLib) (t : QbtTorrent lib)
    → is_torrent_complete lib t ≡ (is_complete (to_info lib t) || contains up_states t.state)
unfolding is_torrent_complete is_complete to_info
is_torrent_complete-to_info lib t = size_complete t.size t.completed t.state
