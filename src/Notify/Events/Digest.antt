-- ===== src/Notify/Events/Digest.antt =====
-- src/notify.rs: what the digest of a buffer of events says.
use irc2torrent.Prelude.{
  ℕ, ◌≡◌, refl, ap, ◌∙◌, Bool, true, not, List, [], ◌∷◌, ◌++◌, map, Text, codes, decimal, Option,
  some, length, keep_if, text_eq_refl, all, ◌==◌, lookup, arith,
}
use irc2torrent.Notify.Events.{
  Event, line_at, tally_all, no_events, digest_lines, join_lines, subject_of, render, render_tally,
  subject_prefix, strip_prefix, text_lines, flat_lines, is_same,
}
use irc2torrent.Notify.Events.Groups.{
  first_keys, group_line, order-tally_all, lookup-tally_all, unseen-nil, line_at-count_more,
  map_cong,
}

-- The subject of a digest: its one line, or the number of events.
abbrev pub subject_for : List Event → List Text → Text
subject_for events (key ∷ []) = subject_prefix ++ group_line events key
subject_for events _ = subject_prefix ++ decimal (length events) ++ codes " events"

tally-start : (events : List Event) → (tally_all no_events events).order ≡ first_keys events
unfolding lookup
tally-start events = order-tally_all no_events events (λ key. refl) ∙ unseen-nil (first_keys events)

line-start :
    (events : List Event) (key : Text)
    → line_at (lookup key (tally_all no_events events).counts) ≡ group_line events key
unfolding lookup
line-start events key =
    ap line_at (lookup-tally_all no_events events key) ∙ line_at-count_more events key

subject-start :
    (events : List Event) (keys : List Text)
    → subject_of (tally_all no_events events) keys (length events) ≡ subject_for events keys
unfolding subject_of
subject-start events [] = refl
subject-start events (key ∷ []) = ap (λ t. subject_prefix ++ t) (line-start events key)
subject-start events (key ∷ j ∷ keys) = refl

-- The digest of a buffer has one line for each distinct key, in the order in which the keys first
-- came: the line of the first event under that key, followed by how many came under it when that is
-- more than one. Its subject carries the only line, or else the number of events.
pub render-groups :
    (events : List Event)
    → render events ≡ (
      subject_for events (first_keys events),
      join_lines (map (group_line events) (first_keys events)),
    )
unfolding render render_tally digest_lines
render-groups events =
    let keys = tally-start events in
    let lines =
      map_cong (λ key. line_at (lookup key (tally_all no_events events).counts)) (group_line events)
        (first_keys events) (line-start events) in
    let subject = subject-start events (first_keys events) in rw (keys, subject, lines) refl

strip_prefix-append : (p t : Text) → strip_prefix p (p ++ t) ≡ some t
strip_prefix-append [] t = refl
strip_prefix-append (c ∷ p) t = ground (arith, strip_prefix-append p t)

abbrev is_inline : ℕ → Bool
is_inline c = not (c == 10)

-- A text as its only line, unless it is empty.
abbrev only_line : Text → List Text
only_line [] = []
only_line (c ∷ cs) = (c ∷ cs) ∷ []

text_lines-inline : (t : Text) → all is_inline t ≡ true → text_lines t ≡ only_line t
text_lines-inline [] h = refl
text_lines-inline (c ∷ []) h = ground arith
text_lines-inline (c ∷ d ∷ cs) h =
    let rest = text_lines-inline (d ∷ cs) (ground arith) in rw rest (ground arith)

keep-only_line : (t : Text) → keep_if (λ l. not (is_same (some t) l)) (only_line t) ≡ []
keep-only_line [] = refl
keep-only_line (c ∷ cs) = rw (text_eq_refl (c ∷ cs)) refl

-- Where all events of a digest have one key, and the line for it has no line break, the one-message
-- form of the digest is its subject alone: the line is not said twice.
pub flat_lines-render :
    (events : List Event) (key : Text)
    → first_keys events ≡ key ∷ []
    → all is_inline (group_line events key) ≡ true
    → flat_lines (render events).0 (render events).1 ≡ (render events).0 ∷ []
unfolding flat_lines
flat_lines-render events key one inline =
    let t = group_line events key in
    let kept : Option Text → List Text = λ o. keep_if (λ l. not (is_same o l)) (only_line t) in
    let rest = ap kept (strip_prefix-append subject_prefix t) ∙ keep-only_line t in
    rw (render-groups events, one, text_lines-inline t inline) (ap (◌∷◌ (subject_prefix ++ t)) rest)
