-- ===== src/Notify/Poll/News.antt =====
-- src/notify.rs: which torrents are announced as finished.
use irc2torrent.Prelude.{
  ◌≡◌, refl, ap, sym, ◌∙◌, inl, inr, true, false, ◌&&◌, ◌||◌, List, [], ◌∷◌, ◌++◌, Text, Option,
  none, some, if◌then◌else◌, keep_if, contains, text_eq, text_eq_iff, text_eq_comm, lookup,
  IsDistinct, arith, Bool-cases, All,
}
use irc2torrent.Notify.Events.{Event, download_finished}
use irc2torrent.Notify.Poll.{Poller, Rows, hashes, insert_each, poll_rows, poll_finished}

-- The rows whose hash is not among those seen, as events.
abbrev pub news : List Text → Rows → List Event
news seen [] = []
news seen ((hash, name) ∷ rows) =
    let rest = news seen rows in if contains seen hash then rest else download_finished name ∷ rest

contains-keep_if :
    (current xs : List Text) (k : Text)
    → contains (keep_if (contains current) xs) k ≡ (contains xs k && contains current k)
contains-keep_if current [] k = refl
contains-keep_if current (x ∷ xs) k = elim (Bool-cases (text_eq x k)) [
  | inl e ↦
      let same = ap (contains current) ((text_eq_iff x k).0 e) in
      ground (arith, same, contains-keep_if current xs k)
  | inr e ↦ ground (arith, contains-keep_if current xs k)
]

contains-insert_each :
    (rows : Rows) (finished : List Text) (k : Text)
    → contains (insert_each rows finished).1 k ≡ (contains finished k || contains (hashes rows) k)
contains-insert_each [] finished k = ground arith
contains-insert_each ((hash, name) ∷ rows) finished k = elim (Bool-cases (contains finished hash)) [
  | inl e ↦
      let same = ap (contains finished) in
      elim (Bool-cases (text_eq hash k)) [
        | inl here ↦
            let at_k = sym (same ((text_eq_iff hash k).0 here)) ∙ e in
            rw e (ground (arith, contains-insert_each rows finished k, at_k))
        | inr other ↦ rw e (ground (arith, contains-insert_each rows finished k, other))
      ]
  | inr e ↦ rw e (ground (arith, contains-insert_each rows (hash ∷ finished) k))
]

-- A hash that does not come again makes no difference.
news-cons :
    (rows : Rows) (hash : Text) (seen : List Text)
    → lookup hash rows ≡ none
    → news (hash ∷ seen) rows ≡ news seen rows
unfolding lookup
news-cons [] hash seen h = refl
news-cons ((j, name) ∷ rows) hash seen h =
    ground (arith, text_eq_comm j hash, news-cons rows hash seen)

insert_each-news :
    (rows : Rows) (finished : List Text)
    → IsDistinct rows
    → (insert_each rows finished).0 ≡ news finished rows
insert_each-news [] finished h = refl
insert_each-news ((hash, name) ∷ rows) finished h = elim (Bool-cases (contains finished hash)) [
  | inl e ↦ rw e (insert_each-news rows finished h.1)
  | inr e ↦ rw e (
      ap (◌∷◌ (download_finished name))
        (insert_each-news rows (hash ∷ finished) h.1 ∙ news-cons rows hash finished h.0))
]

news_cong :
    (a b : List Text) (rows : Rows)
    → ((k : Text) → contains a k ≡ contains b k)
    → news a rows ≡ news b rows
news_cong a b [] same = refl
news_cong a b ((hash, name) ∷ rows) same = ground (arith, same hash, news_cong a b rows same)

-- What the poller stands for: the hashes that the last successful listing had, if there was one.
abbrev Represents : Option (List Text) → Poller → Type 0
Represents none p = p.seeded ≡ false
Represents (some seen) p =
    (p.seeded ≡ true) × ((k : Text) → contains p.finished k ≡ contains seen k)

-- One listing, told against the last.
abbrev news_since : Option (List Text) → Rows → List Event
news_since none rows = []
news_since (some seen) rows = news seen rows

poll_rows-Represents :
    (last : Option (List Text)) (rows : Rows) (p : Poller)
    → IsDistinct rows
    → Represents last p
    → ((poll_rows rows p).0 ≡ news_since last rows)
      × Represents (some (hashes rows)) (poll_rows rows p).1
unfolding poll_rows
poll_rows-Represents none rows p distinct fresh = rw fresh (refl, (refl, λ k. refl))
poll_rows-Represents (some seen) rows p distinct (seeded, same) = rw seeded (
  insert_each-news rows p.finished distinct ∙ news_cong p.finished seen rows same,
  (
    refl,
    λ k. ground (
      arith,
      contains-keep_if (hashes rows) (insert_each rows p.finished).1 k,
      contains-insert_each rows p.finished k,
    ),
  ),
)

-- The events of a series of listings, some of which fail.
abbrev pub polls : List (Option Rows) → Poller → List Event
polls [] p = []
polls (rows ∷ listings) p = let polled = poll_finished rows p in polled.0 ++ polls listings polled.1

abbrev pub told : Option (List Text) → List (Option Rows) → List Event
told last [] = []
told last (none ∷ listings) = told last listings
told last (some rows ∷ listings) = news_since last rows ++ told (some (hashes rows)) listings

abbrev pub HasDistinctRows : Option Rows → Type 0
HasDistinctRows none = Unit
HasDistinctRows (some rows) = IsDistinct rows

polls-Represents :
    (last : Option (List Text)) (listings : List (Option Rows)) (p : Poller)
    → All HasDistinctRows listings
    → Represents last p
    → polls listings p ≡ told last listings
unfolding poll_finished
polls-Represents last [] p distinct h = refl
polls-Represents last (none ∷ listings) p distinct h = polls-Represents last listings p distinct.1 h
polls-Represents last (some rows ∷ listings) p distinct h =
    let (events, after) = poll_rows-Represents last rows p distinct.0 h in
    rw
      (events, polls-Represents (some (hashes rows)) listings (poll_rows rows p).1 distinct.1 after)
      refl

-- From the start, the torrents that a series of listings announces as finished are those that a
-- successful listing has and the successful one before it had not, in order; the first one announces
-- none, and a failed one changes nothing. No listing names a torrent twice.
pub polls-told :
    (listings : List (Option Rows)) (p : Poller)
    → p.seeded ≡ false
    → All HasDistinctRows listings
    → polls listings p ≡ told none listings
polls-told listings p start distinct = polls-Represents none listings p distinct start
