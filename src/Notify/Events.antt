-- ===== src/Notify/Events.antt =====
-- src/notify.rs: the events, which backend wants them, and the digest of a buffer of them.
pub mod Groups
pub mod Digest
use irc2torrent.Prelude.{
  ℕ, suc, ◌+◌, ◌==◌, Bool, true, false, ◌&&◌, not, List, [], ◌∷◌, ◌++◌, map, Text, codes, Option,
  none, some, if◌then◌else◌, ltb, length, text_eq, keep_if, lookup, put, decimal,
}

-- `AddFailed` is `could_not_add`.
pub data Event : Type 0 where
  torrent_added download_finished service_restarted config_rejected : Text → Event
  could_not_add : (name reason : Text) → Event
  irc_disconnected irc_reconnected : (secs : ℕ) → Event
  started : (version integrations : Text) → Event
  disk_low : (path : Text) (percent_free free_gib : ℕ) → Event
  rejected_despite_match : (name wanted reject : Text) → Event
  test : Event

-- The switches of `[notifications]`.
pub record Switches : Type 0 where
  pub on_failure : Bool
  pub on_torrent_added : Bool
  pub on_download_finished : Bool
  pub on_disk_low : Bool
  pub on_warning : Bool
  pub on_start : Bool
  pub daily_summary : Bool

pub record EventFilter : Type 0 where
  pub on_failure : Option Bool
  pub on_torrent_added : Option Bool
  pub on_download_finished : Option Bool
  pub on_disk_low : Option Bool
  pub on_warning : Option Bool
  pub on_start : Option Bool
  pub daily_summary : Option Bool

abbrev pub unwrap_or {ℓ} : {A : Type ℓ} → Option A → A → A
unwrap_or none a = a
unwrap_or (some b) a = b

unfoldable pub enabled_by : Switches → EventFilter → Event → Bool
enabled_by global filter test = true
enabled_by global filter (torrent_added name) =
    unwrap_or filter.on_torrent_added global.on_torrent_added
enabled_by global filter (download_finished name) =
    unwrap_or filter.on_download_finished global.on_download_finished
enabled_by global filter (disk_low path percent gib) =
    unwrap_or filter.on_disk_low global.on_disk_low
enabled_by global filter (rejected_despite_match name wanted reject) =
    unwrap_or filter.on_warning global.on_warning
enabled_by global filter (started version integrations) = unwrap_or filter.on_start global.on_start
enabled_by global filter (irc_reconnected secs) = unwrap_or filter.on_start global.on_start
enabled_by global filter (could_not_add name reason) = unwrap_or filter.on_failure global.on_failure
enabled_by global filter (service_restarted name) = unwrap_or filter.on_failure global.on_failure
enabled_by global filter (irc_disconnected secs) = unwrap_or filter.on_failure global.on_failure
enabled_by global filter (config_rejected reason) = unwrap_or filter.on_failure global.on_failure

unfoldable pub dedup_key : Event → Text
dedup_key (torrent_added n) = codes "added:" ++ n
dedup_key (download_finished n) = codes "done:" ++ n
dedup_key (could_not_add name reason) = codes "failed:" ++ name
dedup_key (service_restarted s) = codes "restart:" ++ s
dedup_key (irc_disconnected secs) = codes "irc"
dedup_key (irc_reconnected secs) = codes "irc-back"
dedup_key (started version integrations) = codes "started:" ++ version
dedup_key (config_rejected r) = codes "config:" ++ r
dedup_key (disk_low path percent gib) = codes "disk:" ++ path
dedup_key (rejected_despite_match name wanted reject) =
    codes "rejected:" ++ wanted ++ codes ":" ++ reject
dedup_key test = codes "test"

unfoldable pub line : Event → Text
line (torrent_added n) = codes "Added: " ++ n
line (download_finished n) = codes "Finished: " ++ n
line (could_not_add name reason) = codes "Failed to add " ++ name ++ codes ": " ++ reason
line (service_restarted s) = s ++ codes " was restarted"
line (irc_disconnected secs) = codes "IRC has been disconnected for " ++ decimal secs ++ codes "s"
line (irc_reconnected secs) = codes "IRC is back (was down " ++ decimal secs ++ codes "s)"
line (started version integrations) =
    codes "irc2torrent " ++ version ++ codes " is up (" ++ integrations ++ codes ")"
line (config_rejected reason) = codes "Config reload rejected: " ++ reason
line (disk_low path percent gib) =
    codes "Low disk space on "
    ++ path
    ++ codes ": "
    ++ decimal percent
    ++ codes "% free ("
    ++ decimal gib
    ++ codes " GiB)"
line (rejected_despite_match name wanted reject) =
    codes "Rejected: "
    ++ name
    ++ codes " (matched '"
    ++ wanted
    ++ codes "', rejected by '"
    ++ reject
    ++ codes "')"
line test = codes "Test notification -- if you are reading this, it works."

unfoldable pub summary_bucket : Event → Option Text
summary_bucket (torrent_added n) = some (codes "added")
summary_bucket (download_finished n) = some (codes "finished")
summary_bucket (could_not_add name reason) = some (codes "failed")
summary_bucket (service_restarted s) = some (codes "restarts")
summary_bucket (rejected_despite_match name wanted reject) = some (codes "rejected")
summary_bucket (irc_disconnected secs) = none
summary_bucket (irc_reconnected secs) = none
summary_bucket (started version integrations) = none
summary_bucket (config_rejected r) = none
summary_bucket (disk_low path percent gib) = none
summary_bucket test = none

-- The first event under a key, with how many came.
pub record Counted : Type 0 where
  pub event : Event
  pub count : ℕ

-- The keys in the order they came, and what is counted under each.
pub record Tally : Type 0 where
  pub order : List Text
  pub counts : List (Text × Counted)

pub tally_at : Tally → Text → Event → Option Counted → Tally
tally_at t key e (some c) = record {
  order = t.order;
  counts = put key (record { event = c.event; count = c.count + 1 }) t.counts;
}
tally_at t key e none = record {
  order = t.order ++ (key ∷ []);
  counts = put key (record { event = e; count = 1 }) t.counts;
}

unfoldable pub tally : Tally → Event → Tally
unfolding tally_at
tally t e = tally_at t (dedup_key e) e (lookup (dedup_key e) t.counts)

abbrev pub tally_all : Tally → List Event → Tally
tally_all t [] = t
tally_all t (e ∷ events) = tally_all (tally t e) events

abbrev pub no_events : Tally
no_events = record { order = []; counts = [] }

unfoldable pub counted_line : Event → ℕ → Text
counted_line e n = if ltb 1 n then line e ++ codes " (x" ++ decimal n ++ codes ")" else line e

-- `counts[key]`, which panics on a missing key; the keys asked for are those of the order.
unfoldable pub line_at : Option Counted → Text
unfolding counted_line
line_at none = []
line_at (some c) = counted_line c.event c.count

-- `join("\n")`
abbrev pub join_lines : List Text → Text
join_lines [] = []
join_lines (l ∷ []) = l
join_lines (l ∷ m ∷ ls) = l ++ (10 ∷ join_lines (m ∷ ls))

unfoldable pub subject_prefix : Text
subject_prefix = codes "irc2torrent: "

unfoldable pub digest_lines : Tally → List Text
unfolding line_at
digest_lines t = map (λ key. line_at (lookup key t.counts)) t.order

-- The subject of a number of events, at their tally's order.
unfoldable pub subject_of : Tally → List Text → ℕ → Text
unfolding line_at subject_prefix
subject_of t (key ∷ []) n = subject_prefix ++ line_at (lookup key t.counts)
subject_of t _ n = subject_prefix ++ decimal n ++ codes " events"

pub render_tally : Tally → ℕ → Text × Text
unfolding digest_lines subject_of
render_tally t n = (subject_of t t.order n, join_lines (digest_lines t))

unfoldable pub render : List Event → Text × Text
unfolding render_tally
render events = render_tally (tally_all no_events events) (length events)

-- `str::strip_prefix`
abbrev pub strip_prefix : Text → Text → Option Text
strip_prefix [] t = some t
strip_prefix (p ∷ ps) [] = none
strip_prefix (p ∷ ps) (c ∷ cs) = if p == c then strip_prefix ps cs else none

abbrev pub cons_first : ℕ → List Text → List Text
cons_first c [] = (c ∷ []) ∷ []
cons_first c (l ∷ ls) = (c ∷ l) ∷ ls

abbrev pub starts_with_newline : Text → Bool
starts_with_newline [] = false
starts_with_newline (c ∷ cs) = c == 10

-- `str::lines`: a newline ends a line, with the carriage return before it.
abbrev pub text_lines : Text → List Text
text_lines [] = []
text_lines (c ∷ cs) =
    let rest = text_lines cs in
    if c == 10
    then [] ∷ rest
    else if (c == 13) && starts_with_newline cs
    then rest
    else cons_first c rest

abbrev pub is_same : Option Text → Text → Bool
is_same none l = false
is_same (some carried) l = text_eq carried l

unfoldable pub flat_lines : Text → Text → List Text
unfolding subject_prefix
flat_lines subject body =
    subject ∷ keep_if (λ l. not (is_same (strip_prefix subject_prefix subject) l)) (text_lines body)
