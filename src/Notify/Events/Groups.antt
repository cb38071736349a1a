-- ===== src/Notify/Events/Groups.antt =====
-- src/notify.rs: the tally of a buffer of events, as groups of events under one key.
use irc2torrent.Prelude.{
  ℕ, ◌+◌, ◌≡◌, refl, ap, sym, ◌∙◌, Bool, true, false, not, ◌&&◌, ◌||◌, List, [], ◌∷◌, ◌++◌, map,
  append_assoc, append-nil, Text, Option, none, some, if◌then◌else◌, keep_if, text_eq, text_eq_iff,
  contains, lookup, lookup-put, arith, Bool-cases, Option-cases, inl, inr,
}
use irc2torrent.Notify.Events.{
  Event, Counted, Tally, dedup_key, line_at, counted_line, tally, tally_at, tally_all,
}

-- The events under a key.
abbrev pub occurrences : Text → List Event → ℕ
occurrences key [] = 0
occurrences key (e ∷ events) =
    let rest = occurrences key events in if text_eq (dedup_key e) key then 1 + rest else rest

abbrev pub first_under : Text → List Event → Option Event
first_under key [] = none
first_under key (e ∷ events) = if text_eq (dedup_key e) key then some e else first_under key events

abbrev without : Text → List Text → List Text
without key = keep_if (λ k. not (text_eq key k))

-- Each key once, in the order in which the keys first come.
abbrev pub first_keys : List Event → List Text
first_keys [] = []
first_keys (e ∷ events) = dedup_key e ∷ without (dedup_key e) (first_keys events)

abbrev pub line_with : ℕ → Option Event → Text
line_with n none = []
line_with n (some e) = counted_line e n

-- A key's line: that of the first event under it, with the number of events under it.
abbrev pub group_line : List Event → Text → Text
group_line events key = line_with (occurrences key events) (first_under key events)

abbrev counted_from : ℕ → Option Event → Option Counted
counted_from n none = none
counted_from n (some e) = some (record { event = e; count = n })

-- What is counted under a key after more events.
abbrev count_more : Option Counted → Text → List Event → Option Counted
count_more (some c) key events =
    some (record { event = c.event; count = c.count + occurrences key events })
count_more none key events = counted_from (occurrences key events) (first_under key events)

abbrev has_value {ℓ} : {A : Type ℓ} → Option A → Bool
has_value none = false
has_value (some a) = true

-- The order holds the keys that are counted.
abbrev pub HasOrder : Tally → Type 0
HasOrder t = (key : Text) → contains t.order key ≡ has_value (lookup key t.counts)

abbrev bumped : Event → Option Counted → Counted
bumped e none = record { event = e; count = 1 }
bumped e (some c) = record { event = c.event; count = c.count + 1 }

lookup-tally_at :
    (t : Tally) (e : Event) (k key : Text) (o : Option Counted)
    → lookup key (tally_at t k e o).counts
      ≡ (if text_eq k key then some (bumped e o) else lookup key t.counts)
unfolding tally_at
lookup-tally_at t e k key none = lookup-put k key (bumped e none) t.counts
lookup-tally_at t e k key (some c) = lookup-put k key (bumped e (some c)) t.counts

count_more-step :
    (events : List Event) (e : Event) (key : Text) (o : Option Counted)
    → count_more (if text_eq (dedup_key e) key then some (bumped e o) else o) key events
      ≡ count_more o key (e ∷ events)
count_more-step events e key none = elim (Bool-cases (text_eq (dedup_key e) key)) [
  | inl h ↦ rw h refl
  | inr h ↦ rw h refl
]
count_more-step events e key (some c) = elim (Bool-cases (text_eq (dedup_key e) key)) [
  | inl h ↦ rw h (ap (λ n. some (record { event = c.event; count = n })) (omega arith))
  | inr h ↦ rw h refl
]

lookup-tally :
    (t : Tally) (e : Event) (key : Text)
    → lookup key (tally t e).counts ≡ (
        if text_eq (dedup_key e) key
        then some (bumped e (lookup key t.counts))
        else lookup key t.counts)
unfolding tally
lookup-tally t e key = elim (Bool-cases (text_eq (dedup_key e) key)) [
  | inl h ↦
      let found = lookup-tally_at t e (dedup_key e) key (lookup (dedup_key e) t.counts) in
      let same = (text_eq_iff (dedup_key e) key).0 h in
      rw (found, h) (ap (λ k. some (bumped e (lookup k t.counts))) same)
  | inr h ↦ rw (lookup-tally_at t e (dedup_key e) key (lookup (dedup_key e) t.counts), h) refl
]

pub lookup-tally_all :
    (t : Tally) (events : List Event) (key : Text)
    → lookup key (tally_all t events).counts ≡ count_more (lookup key t.counts) key events
lookup-tally_all t [] key = elim (Option-cases (lookup key t.counts)) [
  | inl h ↦ rw h refl
  | inr (c, h) ↦ rw h (ap (λ n. some (record { event = c.event; count = n })) (omega arith))
]
lookup-tally_all t (e ∷ events) key =
    lookup-tally_all (tally t e) events key
    ∙ ap (λ o. count_more o key events) (lookup-tally t e key)
    ∙ count_more-step events e key (lookup key t.counts)

keep_if-keep_if {ℓ} :
    {A : Type ℓ} (p q : A → Bool) (xs : List A)
    → keep_if p (keep_if q xs) ≡ keep_if (λ x. p x && q x) xs
keep_if-keep_if p q [] = refl
keep_if-keep_if p q (x ∷ xs) = elim (Bool-cases (q x)) [
  | inl h ↦ ground (arith, keep_if-keep_if p q xs)
  | inr h ↦ ground (arith, keep_if-keep_if p q xs)
]

keep_if_cong {ℓ} :
    {A : Type ℓ} (p q : A → Bool) (xs : List A)
    → ((x : A) → p x ≡ q x)
    → keep_if p xs ≡ keep_if q xs
keep_if_cong p q [] h = refl
keep_if_cong p q (x ∷ xs) h = ground (arith, h x, keep_if_cong p q xs h)

-- The keys that do not stand among those seen.
abbrev unseen : List Text → List Text → List Text
unseen seen = keep_if (λ k. not (contains seen k))

contains-snoc :
    (seen : List Text) (key k : Text)
    → contains (seen ++ (key ∷ [])) k ≡ (contains seen k || text_eq key k)
contains-snoc [] key k = ground arith
contains-snoc (s ∷ seen) key k = ground (arith, contains-snoc seen key k)

order-tally_at :
    (t : Tally) (e : Event) (key : Text) (o : Option Counted)
    → (tally_at t key e o).order ≡ (if has_value o then t.order else t.order ++ (key ∷ []))
unfolding tally_at
order-tally_at t e key none = refl
order-tally_at t e key (some c) = refl

tally_at-HasOrder :
    (t : Tally) (e : Event) (k key : Text) (o : Option Counted)
    → lookup k t.counts ≡ o
    → contains t.order k ≡ has_value (lookup k t.counts)
    → contains t.order key ≡ has_value (lookup key t.counts)
    → contains (tally_at t k e o).order key ≡ has_value (lookup key (tally_at t k e o).counts)
unfolding tally_at
tally_at-HasOrder t e k key none found at_k at_key = elim (Bool-cases (text_eq k key)) [
  | inl same ↦
      rw (contains-snoc t.order k key, lookup-put k key (bumped e none) t.counts, same)
        (ground arith)
  | inr other ↦
      rw (contains-snoc t.order k key, lookup-put k key (bumped e none) t.counts, other, at_key)
        (ground arith)
]
tally_at-HasOrder t e k key (some c) found at_k at_key = elim (Bool-cases (text_eq k key)) [
  | inl same ↦
      let moved = ap (λ j. contains t.order j) ((text_eq_iff k key).0 same) in
      rw (lookup-put k key (bumped e (some c)) t.counts, same)
        (sym moved ∙ at_k ∙ ap has_value found)
  | inr other ↦ rw (lookup-put k key (bumped e (some c)) t.counts, other) at_key
]

tally-HasOrder : (t : Tally) (e : Event) → HasOrder t → HasOrder (tally t e)
unfolding tally
tally-HasOrder t e h key =
    tally_at-HasOrder t e (dedup_key e) key (lookup (dedup_key e) t.counts) refl (h (dedup_key e))
      (h key)

-- A key that is seen anyway need not be left out first.
unseen-without :
    (seen : List Text) (key : Text) (keys : List Text)
    → contains seen key ≡ true
    → unseen seen (without key keys) ≡ unseen seen keys
unseen-without seen key [] h = refl
unseen-without seen key (k ∷ keys) h = elim (Bool-cases (text_eq key k)) [
  | inl same ↦
      let moved = ap (λ j. contains seen j) ((text_eq_iff key k).0 same) in
      ground (arith, unseen-without seen key keys h, moved)
  | inr other ↦ ground (arith, unseen-without seen key keys h)
]

unseen-snoc :
    (seen : List Text) (key : Text) (keys : List Text)
    → unseen (seen ++ (key ∷ [])) keys ≡ unseen seen (without key keys)
unseen-snoc seen key [] = refl
unseen-snoc seen key (k ∷ keys) =
    ground (arith, unseen-snoc seen key keys, contains-snoc seen key k)

order-step :
    (t : Tally) (e : Event) (keys : List Text) (o : Option Counted)
    → contains t.order (dedup_key e) ≡ has_value o
    → (tally_at t (dedup_key e) e o).order ++ unseen (tally_at t (dedup_key e) e o).order keys
      ≡ t.order ++ unseen t.order (dedup_key e ∷ without (dedup_key e) keys)
unfolding tally_at
order-step t e keys none h =
    rw (h, unseen-snoc t.order (dedup_key e) keys)
      (append_assoc t.order (dedup_key e ∷ []) (unseen t.order (without (dedup_key e) keys)))
order-step t e keys (some c) h = rw (h, unseen-without t.order (dedup_key e) keys h) refl

pub order-tally_all :
    (t : Tally) (events : List Event)
    → HasOrder t
    → (tally_all t events).order ≡ t.order ++ unseen t.order (first_keys events)
unfolding tally
order-tally_all t [] h = sym (append-nil t.order)
order-tally_all t (e ∷ events) h =
    order-tally_all (tally t e) events (tally-HasOrder t e h)
    ∙ order-step t e (first_keys events) (lookup (dedup_key e) t.counts) (h (dedup_key e))

pub unseen-nil : (keys : List Text) → unseen [] keys ≡ keys
unseen-nil [] = refl
unseen-nil (k ∷ keys) = ap (◌∷◌ k) (unseen-nil keys)

pub line_at-count_more :
    (events : List Event) (key : Text)
    → line_at (count_more none key events) ≡ group_line events key
unfolding line_at
line_at-count_more events key = elim (Option-cases (first_under key events)) [
  | inl h ↦ rw h refl
  | inr (e, h) ↦ rw h refl
]

pub map_cong {ℓ κ} :
    {A : Type ℓ} {B : Type κ} (f g : A → B) (xs : List A)
    → ((x : A) → f x ≡ g x)
    → map f xs ≡ map g xs
map_cong f g [] h = refl
map_cong f g (x ∷ xs) h = ground (arith, h x, map_cong f g xs h)
