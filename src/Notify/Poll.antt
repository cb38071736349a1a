-- ===== src/Notify/Poll.antt =====
-- src/notify.rs: watching for finished torrents and for the disk filling up. Of a `HashSet`, a list
-- here, only what it contains counts. The torrent client's listing and the file system's free space
-- are given, as is the comparison of the latter with the threshold, which is in floating point.
pub mod News
use irc2torrent.Prelude.{
  ℕ, Bool, true, false, not, ◌&&◌, ◌||◌, List, [], ◌∷◌, ◌++◌, map, Text, Option, none, some,
  if◌then◌else◌, keep_if, contains,
}
use irc2torrent.Notify.Events.{Event, download_finished, disk_low, Switches}

pub record Poller : Type 0 where
  pub finished : List Text
  pub seeded : Bool
  pub disk_warned : Bool

-- A completed torrent's hash with its name
abbrev pub Rows : Type 0
Rows = List (Text × Text)

abbrev pub hashes : Rows → List Text
hashes [] = []
hashes ((hash, name) ∷ rows) = hash ∷ hashes rows

-- The events for the rows whose hash is new, and the hashes with those added.
abbrev pub insert_each : Rows → List Text → List Event × List Text
insert_each [] finished = ([], finished)
insert_each ((hash, name) ∷ rows) finished =
    let old = insert_each rows finished in
    let new = insert_each rows (hash ∷ finished) in
    if contains finished hash then old else (download_finished name ∷ new.0, new.1)

unfoldable pub poll_rows : Rows → Poller → List Event × Poller
poll_rows rows p =
    let inserted = insert_each rows p.finished in
    if not p.seeded
    then ([], record p { finished = hashes rows; seeded = true })
    else (inserted.0, record p { finished = keep_if (contains (hashes rows)) inserted.1 })

-- `get_completed` may fail.
unfoldable pub poll_finished : Option Rows → Poller → List Event × Poller
unfolding poll_rows
poll_finished none p = ([], p)
poll_finished (some rows) p = poll_rows rows p

unfoldable pub poll_disk : Text → (ℕ → Bool) → Option (ℕ × ℕ) → Poller → List Event × Poller
poll_disk path is_below none p = ([], record p { disk_warned = true })
poll_disk path is_below (some (percent, gib)) p =
    if is_below percent
    then (
      if p.disk_warned then [] else disk_low path percent gib ∷ [],
      record p { disk_warned = true },
    )
    else ([], record p { disk_warned = false })

-- What a tick finds.
pub record Found : Type 0 where
  pub switches : Switches
  pub completed : Option Rows
  pub disk_path : Text
  pub is_below : ℕ → Bool
  pub free_space : Option (ℕ × ℕ)

unfoldable pub poll_tick : Found → Poller → List Event × Poller
unfolding poll_finished poll_disk
poll_tick found p =
    let rows =
      if found.switches.on_download_finished then poll_finished found.completed p else ([], p) in
    let disk =
      if found.switches.on_disk_low
      then poll_disk found.disk_path found.is_below found.free_space rows.1
      else ([], rows.1) in
    (rows.0 ++ disk.0, disk.1)
