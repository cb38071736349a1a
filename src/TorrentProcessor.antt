-- ===== src/TorrentProcessor.antt =====
-- src/torrent_processor.rs: fetching the announced releases that are wanted. The tracker and the torrent
-- client are arguments, and what the processor asks of them is a list of actions.
mod Tests
pub mod Decide
pub mod Fetch
pub mod Filters
pub use irc2torrent.Notify.Events.{Event, torrent_added, could_not_add, rejected_despite_match}
use irc2torrent.Prelude.{
  ℕ, Bool, true, false, not, ◌&&◌, ◌||◌, List, [], ◌∷◌, ◌++◌, map, Text, codes, Option, none, some,
  if◌then◌else◌, find, any, keep_if, contains, Result, ok, err,
}
use irc2torrent.Announce.{Announce, has, values}
use irc2torrent.TorrentProcessor.Filters.{
  Regex, CompiledFieldFilter, CompiledWatch, FieldVeto, Decision, pattern_of, matching, fields_of,
  flat_map, overridden, required, filters, missing, no_match, reject_match, or_else, veto_of,
  or_continue, first_veto, decide_filters, decide_required, decide_matched, Lists, decide_reject,
  decide, absent, no_value_matched, rejected_by, wanted, rejected, not_wanted, field_rejected,
}

pub data Trigger : Type 0 where
  announcement explicit_command : Trigger

pub consults_filters : Trigger → Bool
consults_filters announcement = true
consults_filters explicit_command = false

pub data Filter : Type 0 where
  is_wanted is_not_wanted is_rejected : Filter
  is_field_rejected : Text → Filter

pub data TorrentOutcome : Type 0 where
  added not_matched reject_matched : TorrentOutcome
  vetoed : Text → TorrentOutcome
  download_failed : Text → TorrentOutcome
  add_failed : Text → TorrentOutcome

-- A file asked of the tracker, a torrent given to the client, and an event sent to the notifier.
pub data Action : Type 0 where
  download : Announce → Action
  add_torrent_and_start : Text → Announce → Action
  notify : Event → Action

unfoldable pub why_text : FieldVeto → Text
why_text absent = codes "it is not on the announce line"
why_text (no_value_matched p) = codes "no value matches '" ++ p ++ codes "'"
why_text (rejected_by p) = codes "a value matches '" ++ p ++ codes "'"

unfoldable pub outcome_text : TorrentOutcome → Text
outcome_text added = codes "Torrent added to client."
outcome_text not_matched =
    codes "Ignored: the name matches none of your regex_for_downloads_match patterns."
outcome_text reject_matched = codes "Ignored: the name matches regex_for_downloads_reject_match."
outcome_text (vetoed why) = codes "Ignored: " ++ why
outcome_text (download_failed e) = codes "Could not download the torrent file: " ++ e
outcome_text (add_failed e) = codes "Could not add torrent to client: " ++ e

pub filter_of : Announce → Decision → Filter × List Action
unfolding why_text
filter_of a (rejected by (some pattern)) =
    (is_rejected, notify (rejected_despite_match a.name pattern by) ∷ [])
filter_of a (rejected by none) = (is_rejected, [])
filter_of a (wanted pattern) = (is_wanted, [])
filter_of a (field_rejected field why) =
    (is_field_rejected (codes "`" ++ field ++ codes "` vetoed it: " ++ why_text why), [])
filter_of a not_wanted = (is_not_wanted, [])

unfoldable pub do_we_want_this_torrent : Announce → Lists → Filter × List Action
unfolding filter_of
do_we_want_this_torrent a l = filter_of a (decide a l)

-- The tracker and the torrent client, which answer with the file in base64 and with nothing; an
-- error is its text.
pub record Remotes : Type 0 where
  pub fetch : Announce → Result Text Text
  pub start : Text → Announce → Result Text (Unit {0})

pub add_result : Announce → Result Text (Unit {0}) → TorrentOutcome × List Action
add_result a (ok _) = (added, notify (torrent_added a.name) ∷ [])
add_result a (err e) = (add_failed e, notify (could_not_add a.name e) ∷ [])

abbrev pub after {ℓ} : {A : Type ℓ} → Action → A × List Action → A × List Action
after action (a, actions) = (a, action ∷ actions)

pub download_result : Remotes → Announce → Result Text Text → TorrentOutcome × List Action
unfolding add_result
download_result io a (ok b64) = after (add_torrent_and_start b64 a) (add_result a (io.start b64 a))
download_result io a (err e) = (download_failed e, notify (could_not_add a.name e) ∷ [])

pub fetch_wanted : Remotes → Announce → TorrentOutcome × List Action
unfolding download_result
fetch_wanted io a = after (download a) (download_result io a (io.fetch a))

abbrev pub prepend {ℓ} : {A : Type ℓ} → List Action → A × List Action → A × List Action
prepend before (a, actions) = (a, before ++ actions)

pub fetch_filtered : Remotes → Announce → Filter → TorrentOutcome × List Action
unfolding fetch_wanted
fetch_filtered io a is_wanted = fetch_wanted io a
fetch_filtered io a is_not_wanted = (not_matched, [])
fetch_filtered io a is_rejected = (reject_matched, [])
fetch_filtered io a (is_field_rejected why) = (vetoed why, [])

unfoldable pub fetch_and_add : Remotes → Lists → Announce → Trigger → TorrentOutcome × List Action
unfolding consults_filters fetch_filtered
fetch_and_add io l a trigger =
    let verdict = do_we_want_this_torrent a l in
    if consults_filters trigger
    then prepend verdict.1 (fetch_filtered io a verdict.0)
    else fetch_wanted io a

unfoldable pub process_torrent : Remotes → Lists → Announce → TorrentOutcome × List Action
process_torrent io l a = fetch_and_add io l a announcement

unfoldable pub add_reply : Text → TorrentOutcome → Result Text Text
add_reply name added = ok (codes "Torrent " ++ name ++ codes " added.")
add_reply name not_matched = err (outcome_text not_matched)
add_reply name reject_matched = err (outcome_text reject_matched)
add_reply name (vetoed why) = err (outcome_text (vetoed why))
add_reply name (download_failed e) = err (outcome_text (download_failed e))
add_reply name (add_failed e) = err (outcome_text (add_failed e))

unfoldable pub add_torrent : Remotes → Lists → Announce → Result Text Text × List Action
add_torrent io l a =
    let done = fetch_and_add io l a explicit_command in (add_reply a.name done.0, done.1)

pub record CompletionRow : Type 0 where
  pub hash : Text
  pub name : Text
  pub complete : Bool

unfoldable pub completed_rows : Result Text (List CompletionRow) → Option (List (Text × Text))
completed_rows (ok rows) = some (map (λ r. (r.hash, r.name)) (keep_if (λ r. r.complete) rows))
completed_rows (err e) = none
