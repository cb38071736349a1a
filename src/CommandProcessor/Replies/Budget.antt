-- ===== src/CommandProcessor/Replies/Budget.antt =====
-- src/command_processor.rs: how long a reply is, and that its indices are the watchlist's.
use irc2torrent.Prelude.{
  ℕ, zero, suc, ◌+◌, ◌-◌, ◌≤◌, ◌<◌, ◌≡◌, refl, ap, ◌∙◌, inl, inr, List, [], ◌∷◌, ◌++◌, map, Text,
  codes, Option, none, some, ltb, leb, length, take, get_elem?, utf8_len, utf8_width, decimal,
  arith, All, Bool-cases, length-append, length-take,
}
use irc2torrent.CommandProcessor.Replies.{
  take_bytes, fit_line, ReplyLimits, irc_limits, cut_lines, fit_all, cap_lines, number_from,
  watch_lines, format_watchlist,
}

utf8_len-append : (a b : Text) → utf8_len (a ++ b) ≡ utf8_len a + utf8_len b
utf8_len-append [] b = omega arith
utf8_len-append (c ∷ a) b = omega (arith, utf8_len-append a b)

utf8_len-take_bytes : (n : ℕ) (t : Text) → utf8_len (take_bytes n t) ≤ n
utf8_len-take_bytes n [] = omega arith
utf8_len-take_bytes n (c ∷ cs) = elim (Bool-cases (leb (utf8_width c) n)) [
  | inl e ↦ rw e (ground (arith, utf8_len-take_bytes (n - utf8_width c) cs))
  | inr e ↦ rw e (omega arith)
]

utf8_len-fit_line : (line : Text) (budget : ℕ) → utf8_len (fit_line line budget) ≤ budget + 3
unfolding fit_line
utf8_len-fit_line line budget = elim (Bool-cases (leb (utf8_len line) budget)) [
  | inl e ↦ rw e (ground arith)
  | inr e ↦ rw e (
      omega (
        arith,
        utf8_len-append (take_bytes budget line) (0x2026 ∷ []),
        utf8_len-take_bytes budget line,
      ))
]

length-map {ℓ κ} :
    {A : Type ℓ} {B : Type κ} (f : A → B) (xs : List A) → length (map f xs) ≡ length xs
length-map f [] = refl
length-map f (x ∷ xs) = omega (arith, length-map f xs)

length-cut_lines : (lines : List Text) (n : ℕ) → length (cut_lines lines n) ≤ n + 1
unfolding cut_lines
length-cut_lines lines n = elim (Bool-cases (ltb n (length lines))) [
  | inl e ↦ rw e (omega (arith, length-append (take n lines) (_ ∷ []), length-take n lines))
  | inr e ↦ rw e (ground arith)
]

fit_each :
    (lines : List Text) (budget : ℕ)
    → All (λ l. utf8_len l ≤ budget + 3) (map (λ l. fit_line l budget) lines)
fit_each [] budget = tt
fit_each (l ∷ lines) budget = (utf8_len-fit_line l budget, fit_each lines budget)

-- A listing for IRC has at most one line more than its cap, and no line of it is longer than 383
-- bytes: 380, and an ellipsis.
pub cap_lines-irc :
    (lines : List Text) (max_lines : ℕ)
    → (length (cap_lines lines (irc_limits max_lines)) ≤ max_lines + 1)
      × All (λ l. utf8_len l ≤ 383) (cap_lines lines (irc_limits max_lines))
unfolding cap_lines irc_limits fit_all
cap_lines-irc lines max_lines =
    let kept = cut_lines lines max_lines in
    (
      omega (arith, length-map (λ l. fit_line l 380) kept, length-cut_lines lines max_lines),
      fit_each kept 380,
    )

-- A line as a transport carries it.
abbrev pub carried : Option ℕ → Text → Text
carried none l = l
carried (some budget) l = fit_line l budget

map-get_elem? {ℓ κ} :
    {A : Type ℓ} {B : Type κ} (f : A → B) (xs : List A) (i : ℕ) (a : A)
    → get_elem? xs i ≡ some a
    → get_elem? (map f xs) i ≡ some (f a)
map-get_elem? f [] i a h = absurd cc
map-get_elem? f (x ∷ xs) zero a h = ground (arith, h)
map-get_elem? f (x ∷ xs) (suc i) a h = map-get_elem? f xs i a h

fit_all-get_elem? :
    (budget : Option ℕ) (lines : List Text) (i : ℕ) (l : Text)
    → get_elem? lines i ≡ some l
    → get_elem? (fit_all budget lines) i ≡ some (carried budget l)
unfolding fit_all
fit_all-get_elem? none lines i l h = h
fit_all-get_elem? (some budget) lines i l h = map-get_elem? (λ m. fit_line m budget) lines i l h

take-get_elem? {ℓ} :
    {A : Type ℓ} (n i : ℕ) (xs ys : List A) (a : A)
    → i < n
    → get_elem? xs i ≡ some a
    → get_elem? (take n xs ++ ys) i ≡ some a
take-get_elem? zero i xs ys a less h = absurd (omega arith)
take-get_elem? (suc n) i [] ys a less h = absurd cc
take-get_elem? (suc n) zero (x ∷ xs) ys a less h = h
take-get_elem? (suc n) (suc i) (x ∷ xs) ys a less h = take-get_elem? n i xs ys a (omega arith) h

cut_lines-get_elem? :
    (lines : List Text) (n i : ℕ) (l : Text)
    → i < n
    → get_elem? lines i ≡ some l
    → get_elem? (cut_lines lines n) i ≡ some l
unfolding cut_lines
cut_lines-get_elem? lines n i l less h = elim (Bool-cases (ltb n (length lines))) [
  | inl e ↦ rw e (take-get_elem? n i lines (_ ∷ []) l less h)
  | inr e ↦ rw e h
]

abbrev pub numbered : ℕ → Text → Text
numbered i l = codes "[" ++ decimal i ++ codes "] " ++ l

number_from-get_elem? :
    (lines : List Text) (k i : ℕ) (l : Text)
    → get_elem? lines i ≡ some l
    → get_elem? (number_from k lines) i ≡ some (numbered (k + i) l)
number_from-get_elem? [] k i l h = absurd cc
number_from-get_elem? (m ∷ lines) k zero l h = ground (arith, h)
number_from-get_elem? (m ∷ lines) k (suc i) l h =
    number_from-get_elem? lines (suc k) i l h ∙ ap (λ j. some (numbered j l)) (omega arith)

-- In a listing of the watchlist each pattern stands, on its own line after the header, with the
-- index that it has in the whole list, as far as the transport's cap of lines lets it be shown.
pub format_watchlist-index :
    (patterns : List Text) (limits : ReplyLimits) (i : ℕ) (p : Text)
    → get_elem? patterns i ≡ some p
    → suc i < limits.max_lines
    → get_elem? (format_watchlist patterns limits) (suc i)
      ≡ some (carried limits.line_budget (numbered i p))
unfolding format_watchlist cap_lines watch_lines
format_watchlist-index [] limits i p h shown = absurd cc
format_watchlist-index (q ∷ patterns) limits i p h shown =
    let numbering : get_elem? (watch_lines (q ∷ patterns)) (suc i) ≡ some (numbered i p) =
      number_from-get_elem? (q ∷ patterns) 0 i p h ∙ ap (λ j. some (numbered j p)) (omega arith) in
    let lines = watch_lines (q ∷ patterns) in
    fit_all-get_elem? limits.line_budget (cut_lines lines limits.max_lines) (suc i) (numbered i p)
      (cut_lines-get_elem? lines limits.max_lines (suc i) (numbered i p) shown numbering)
