-- ===== src/TorrentProcessor/Fetch.antt =====
-- src/torrent_processor.rs: what is asked of the tracker and the client, and what is reported.
use irc2torrent.Prelude.{
  ◌≡◌, refl, Bool, true, false, List, [], ◌∷◌, Text, none, some, if◌then◌else◌, any, Result, ok,
  err,
}
use irc2torrent.Announce.{Announce}
use irc2torrent.TorrentProcessor.Filters.{
  Lists, Decision, wanted, rejected, not_wanted, field_rejected, decide,
}
use irc2torrent.TorrentProcessor.{
  Trigger, announcement, explicit_command, consults_filters, TorrentOutcome, added, download_failed,
  add_failed, torrent_added, could_not_add, Action, download, add_torrent_and_start, notify,
  filter_of, do_we_want_this_torrent, Remotes, add_result, download_result, fetch_wanted, prepend,
  fetch_filtered, fetch_and_add,
}

abbrev pub is_request : Action → Bool
is_request (download a) = true
is_request (add_torrent_and_start b64 a) = true
is_request (notify e) = false

abbrev pub is_wanted_decision : Decision → Bool
is_wanted_decision (wanted pattern) = true
is_wanted_decision _ = false

filtered-requests :
    (io : Remotes) (a : Announce) (d : Decision)
    → any is_request (prepend (filter_of a d).1 (fetch_filtered io a (filter_of a d).0)).1
      ≡ is_wanted_decision d
unfolding filter_of fetch_filtered fetch_wanted
filtered-requests io a (wanted pattern) = refl
filtered-requests io a (rejected by none) = refl
filtered-requests io a (rejected by (some pattern)) = refl
filtered-requests io a not_wanted = refl
filtered-requests io a (field_rejected field why) = refl

-- The tracker or the client is asked for anything just when the filters want the release or the
-- release was named by an explicit command.
pub fetch_and_add-requests :
    (io : Remotes) (l : Lists) (a : Announce) (t : Trigger)
    → any is_request (fetch_and_add io l a t).1
      ≡ (if consults_filters t then is_wanted_decision (decide a l) else true)
unfolding fetch_and_add consults_filters do_we_want_this_torrent fetch_wanted
fetch_and_add-requests io l a announcement = filtered-requests io a (decide a l)
fetch_and_add-requests io l a explicit_command = refl

-- What a fetch must report: success is announced once, after both remotes agreed, and each failure
-- once with its reason.
abbrev pub IsReported : Remotes → Announce → TorrentOutcome → List Action → Type 0
IsReported io a added actions =
    (b64 : Text) × (io.fetch a ≡ ok b64)
    × (io.start b64 a ≡ ok tt)
    × (actions ≡ download a ∷ add_torrent_and_start b64 a ∷ notify (torrent_added a.name) ∷ [])
IsReported io a (download_failed e) actions =
    (io.fetch a ≡ err e) × (actions ≡ download a ∷ notify (could_not_add a.name e) ∷ [])
IsReported io a (add_failed e) actions =
    (b64 : Text) × (io.fetch a ≡ ok b64)
    × (io.start b64 a ≡ err e)
    × (actions ≡ download a ∷ add_torrent_and_start b64 a ∷ notify (could_not_add a.name e) ∷ [])
IsReported io a _ actions = any is_request actions ≡ false

start-IsReported :
    (io : Remotes) (a : Announce) (b64 : Text) (r : Result Text (Unit {0}))
    → io.fetch a ≡ ok b64
    → io.start b64 a ≡ r
    → IsReported io a
        (add_result a r).0
        (download a ∷ add_torrent_and_start b64 a ∷ (add_result a r).1)
unfolding add_result
start-IsReported io a b64 (ok tt) hf hs = (b64, hf, hs, refl)
start-IsReported io a b64 (err e) hf hs = (b64, hf, hs, refl)

fetch-IsReported :
    (io : Remotes) (a : Announce) (r : Result Text Text)
    → io.fetch a ≡ r
    → IsReported io a (download_result io a r).0 (download a ∷ (download_result io a r).1)
unfolding download_result
fetch-IsReported io a (ok b64) h = start-IsReported io a b64 (io.start b64 a) h refl
fetch-IsReported io a (err e) h = (h, refl)

filtered-IsReported :
    (io : Remotes) (a : Announce) (d : Decision)
    → IsReported io a
        (prepend (filter_of a d).1 (fetch_filtered io a (filter_of a d).0)).0
        (prepend (filter_of a d).1 (fetch_filtered io a (filter_of a d).0)).1
unfolding filter_of fetch_filtered fetch_wanted
filtered-IsReported io a (wanted pattern) = fetch-IsReported io a (io.fetch a) refl
filtered-IsReported io a (rejected by none) = refl
filtered-IsReported io a (rejected by (some pattern)) = refl
filtered-IsReported io a not_wanted = refl
filtered-IsReported io a (field_rejected field why) = refl

-- Whatever sets a fetch off, its outcome is what happened: `Added` when the tracker gave the file
-- and the client took it, and each failure with the reason of the remote that failed; the requests
-- are made in that order, and success and failure are each notified once, with their reason.
pub fetch_and_add-IsReported :
    (io : Remotes) (l : Lists) (a : Announce) (t : Trigger)
    → IsReported io a (fetch_and_add io l a t).0 (fetch_and_add io l a t).1
unfolding fetch_and_add consults_filters do_we_want_this_torrent fetch_wanted
fetch_and_add-IsReported io l a announcement = filtered-IsReported io a (decide a l)
fetch_and_add-IsReported io l a explicit_command = fetch-IsReported io a (io.fetch a) refl
