-- ===== src/CommandProcessor/Watchlist/Removal.antt =====
-- src/config.rs, src/torrent_processor.rs: which pattern an index removes.
use irc2torrent.Prelude.{
  ℕ, zero, suc, ◌<◌, ◌≡◌, refl, ap, ◌∙◌, inl, inr, Bool, List, [], ◌∷◌, ◌++◌, map, Text, codes,
  Option, none, some, ok, if◌then◌else◌, lt→ltb, length, get_elem?, decimal, arith, Bool-cases,
}
use irc2torrent.CommandProcessor.Watchlist.{
  WatchEntry, pattern_entry, pattern, Options, get_dl_patterns, remove_at, mutate_options,
  add_compiled, add_dl_regex, remove_watch, remove_dl_regex, added_reply, add_torrent_to_watchlist,
  remove_found, remove_torrent_from_watchlist,
}

module _ {ℓ κ} {A : Type ℓ} {B : Type κ} (f : A → B) where
  map-remove_at : (i : ℕ) (xs : List A) → map f (remove_at i xs) ≡ remove_at i (map f xs)
  map-remove_at i [] = refl
  map-remove_at zero (x ∷ xs) = refl
  map-remove_at (suc i) (x ∷ xs) = ap (◌∷◌ (f x)) (map-remove_at i xs)

  get_elem?-map-lt : (xs : List A) (i : ℕ) (b : B) → get_elem? (map f xs) i ≡ some b → i < length xs
  get_elem?-map-lt [] i b h = absurd cc
  get_elem?-map-lt (x ∷ xs) zero b h = omega arith
  get_elem?-map-lt (x ∷ xs) (suc i) b h = omega (arith, get_elem?-map-lt xs i b h)

  map-snoc : (xs : List A) (x : A) → map f (xs ++ (x ∷ [])) ≡ map f xs ++ (f x ∷ [])
  map-snoc [] x = refl
  map-snoc (y ∷ ys) x = ap (◌∷◌ (f y)) (map-snoc ys x)

module _ {ℓ} {A : Type ℓ} where
  get_elem?-last : (xs : List A) (x : A) → get_elem? (xs ++ (x ∷ [])) (length xs) ≡ some x
  get_elem?-last [] x = refl
  get_elem?-last (y ∷ ys) x = get_elem?-last ys x

  remove_at-last : (xs : List A) (x : A) → remove_at (length xs) (xs ++ (x ∷ [])) ≡ xs
  remove_at-last [] x = refl
  remove_at-last (y ∷ ys) x = ap (◌∷◌ y) (remove_at-last ys x)

added-patterns :
    (regex : Text) (o : Options)
    → map pattern (o.data_watches ++ (pattern_entry regex ∷ [])) ≡ get_dl_patterns o ++ (regex ∷ [])
unfolding get_dl_patterns pattern
added-patterns regex o = map-snoc pattern o.data_watches (pattern_entry regex)

module _ (regex_error : Text → Option Text) (from_data : List WatchEntry → Bool) where
  mutate-patterns :
      (apply : List WatchEntry → List WatchEntry) (o : Options)
      → get_dl_patterns (mutate_options regex_error from_data apply o)
        ≡ map pattern (apply o.data_watches)
  unfolding get_dl_patterns mutate_options
  mutate-patterns apply o = elim (Bool-cases (from_data (apply o.data_watches))) [
    | inl e ↦ rw e refl
    | inr e ↦ rw e refl
  ]

  remove-reply :
      (i : ℕ) (o : Options) (p : Text)
      → get_elem? (get_dl_patterns o) i ≡ some p
      → get_dl_patterns (remove_dl_regex regex_error from_data i o)
        ≡ remove_at i (get_dl_patterns o)
  unfolding get_dl_patterns remove_dl_regex remove_watch
  remove-reply i o p h =
      let there =
        lt→ltb i (length o.data_watches) (get_elem?-map-lt pattern o.data_watches i p h) in
      let removal =
        ap (λ b. map pattern (if b then remove_at i o.data_watches else o.data_watches)) there in
      mutate-patterns (remove_watch regex_error from_data i) o
      ∙ removal
      ∙ map-remove_at pattern i o.data_watches

  -- Removing a watch by an index that is in the list names the pattern that stands there in the
  -- reply, and takes exactly that one out of the list.
  pub remove-indexed :
      (i : ℕ) (o : Options) (p : Text)
      → get_elem? (get_dl_patterns o) i ≡ some p
      → ((remove_torrent_from_watchlist regex_error from_data i o).0
          ≡ ok (codes "Removed [" ++ decimal i ++ codes "] " ++ p))
        × (get_dl_patterns (remove_torrent_from_watchlist regex_error from_data i o).1
            ≡ remove_at i (get_dl_patterns o))
  unfolding remove_torrent_from_watchlist remove_found
  remove-indexed i o p h = rw h (refl, remove-reply i o p h)

  -- A pattern that the regex crate accepts is added at the end of the watchlist, and removing the
  -- index at which it then stands restores the list.
  pub add-remove :
      (regex : Text) (o : Options)
      → regex_error regex ≡ none
      → (get_dl_patterns (add_torrent_to_watchlist regex_error from_data regex o).1
          ≡ get_dl_patterns o ++ (regex ∷ []))
        × (get_dl_patterns
              (remove_torrent_from_watchlist regex_error from_data
                (length (get_dl_patterns o))
                (add_torrent_to_watchlist regex_error from_data regex o).1).1
            ≡ get_dl_patterns o)
  unfolding add_torrent_to_watchlist add_dl_regex add_compiled added_reply
  add-remove regex o valid =
      let grow : List WatchEntry → List WatchEntry =
        λ watches. watches ++ (pattern_entry regex ∷ []) in
      let after = mutate_options regex_error from_data grow o in
      let grown : get_dl_patterns after ≡ get_dl_patterns o ++ (regex ∷ []) =
        mutate-patterns grow o ∙ added-patterns regex o in
      let n = length (get_dl_patterns o) in
      let last : get_elem? (get_dl_patterns after) n ≡ some regex =
        ap (λ l. get_elem? l n) grown ∙ get_elem?-last (get_dl_patterns o) regex in
      let (_, removed) = remove-indexed n after regex last in
      rw valid (grown, removed ∙ ap (remove_at n) grown ∙ remove_at-last (get_dl_patterns o) regex)
