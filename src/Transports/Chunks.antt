-- ===== src/Transports/Chunks.antt =====
-- src/transports/mod.rs: the size and the content of the messages.
use irc2torrent.Prelude.{
  ℕ, ◌+◌, ◌-◌, ◌≤◌, max, ◌≡◌, refl, ap, ◌∙◌, inl, inr, Bool, true, not, ◌&&◌, List, [], ◌∷◌, ◌++◌,
  append_assoc, Text, ltb, leb, leb→le, length, length-append, length-take, take, is_empty, all,
  All, All-append, Bool-cases, arith,
}
use irc2torrent.Transports.{
  truncate_chars, fit, add_line, flush, chunk_loop, chunk_lines, chunk_reply,
}

fit-length : (budget : ℕ) (line : Text) → 1 ≤ budget → length (fit budget line) ≤ budget
unfolding fit truncate_chars
fit-length budget line h = elim (Bool-cases (ltb budget (length line))) [
  | inl e ↦ rw e (
      omega (
        arith,
        length-append (take (budget - 1) line) (0x2026 ∷ []),
        length-take (budget - 1) line,
      ))
  | inr e ↦ rw e (ground arith)
]

flush-length : (budget : ℕ) (t : Text) → length t ≤ budget → All (λ c. length c ≤ budget) (flush t)
flush-length budget [] h = tt
flush-length budget (c ∷ t) h = (h, tt)

add_line-length :
    (budget : ℕ) (current line : Text)
    → length current ≤ budget
    → length line ≤ budget
    → All (λ c. length c ≤ budget) (add_line budget current line).0
      × (length (add_line budget current line).1 ≤ budget)
unfolding add_line
add_line-length budget current line hc hl = elim (Bool-cases (is_empty current)) [
  | inl e ↦ rw e (tt, hl)
  | inr e ↦ elim (Bool-cases (ltb budget (length current + 1 + length line))) [
    | inl over ↦ rw (e, over) ((hc, tt), hl)
    | inr fits ↦ rw (e, fits) (tt, ground (arith, length-append current (10 ∷ line)))
  ]
]

chunk_loop-length :
    (budget : ℕ) (current : Text) (lines : List Text)
    → 1 ≤ budget
    → length current ≤ budget
    → All (λ c. length c ≤ budget) (chunk_loop budget current lines)
chunk_loop-length budget current [] pos h = flush-length budget current h
chunk_loop-length budget current (line ∷ lines) pos h =
    let (pushed, filled) =
      add_line-length budget current (fit budget line) h (fit-length budget line pos) in
    let turn = add_line budget current (fit budget line) in
    All-append (λ c. length c ≤ budget) turn.0 (chunk_loop budget turn.1 lines) pushed
      (chunk_loop-length budget turn.1 lines pos filled)

-- No message is longer than the budget, or than sixteen characters where that is more.
pub chunk_lines-length :
    (lines : List Text) (budget : ℕ)
    → All (λ c. length c ≤ max budget 16) (chunk_lines lines budget)
unfolding chunk_lines
chunk_lines-length lines budget =
    chunk_loop-length (max budget 16) [] lines (omega arith) (omega arith)

take-one : (n : ℕ) (ts : List Text) (note : Text) → length (take n ts ++ (note ∷ [])) ≤ n + 1
take-one n ts note = omega (arith, length-append (take n ts) (note ∷ []), length-take n ts)

-- A reply is never more than one message over the limit, the note on what is left out.
pub chunk_reply-length :
    (lines : List Text) (budget max_chunks : ℕ)
    → length (chunk_reply lines budget max_chunks) ≤ max_chunks + 1
unfolding chunk_reply
chunk_reply-length lines budget max_chunks =
    elim (Bool-cases (leb (length (chunk_lines lines budget)) max_chunks)) [
      | inl e ↦ rw e (omega (arith, leb→le (length (chunk_lines lines budget)) max_chunks e))
      | inr e ↦ rw e (take-one max_chunks (chunk_lines lines budget) _)
    ]

-- Lines joined by newlines.
abbrev pub join_lines : List Text → Text
join_lines [] = []
join_lines (l ∷ []) = l
join_lines (l ∷ m ∷ ls) = l ++ (10 ∷ join_lines (m ∷ ls))

abbrev pub is_ordinary : ℕ → Text → Bool
is_ordinary budget l = not (is_empty l) && leb (length l) budget

join-glue :
    (current line : Text) (lines : List Text)
    → join_lines ((current ++ (10 ∷ line)) ∷ lines) ≡ join_lines (current ∷ line ∷ lines)
join-glue current line [] = refl
join-glue current line (m ∷ ms) = append_assoc current (10 ∷ line) (10 ∷ join_lines (m ∷ ms))

abbrev starts : Text → List Text → Text
starts t [] = t
starts t (l ∷ ls) = t ++ (10 ∷ join_lines (l ∷ ls))

join-starts : (t : Text) (ls : List Text) → join_lines (t ∷ ls) ≡ starts t ls
join-starts t [] = refl
join-starts t (l ∷ ls) = refl

fit-ordinary : (budget : ℕ) (l : Text) → leb (length l) budget ≡ true → fit budget l ≡ l
unfolding fit
fit-ordinary budget l h = ground arith

-- A chunk that holds something comes out with something behind it or alone.
chunk_loop-starts :
    (budget c : ℕ) (current : Text) (lines : List Text)
    → (t : Text) × (ts : List Text) × (chunk_loop budget (c ∷ current) lines ≡ t ∷ ts)
unfolding add_line
chunk_loop-starts budget c current [] = (c ∷ current, [], refl)
chunk_loop-starts budget c current (line ∷ lines) =
    elim (Bool-cases (ltb budget (length (c ∷ current) + 1 + length (fit budget line)))) [
      | inl over ↦ (c ∷ current, chunk_loop budget (fit budget line) lines, rw over refl)
      | inr fits ↦
          let (t, ts, e) = chunk_loop-starts budget c (current ++ (10 ∷ fit budget line)) lines in
          (t, ts, rw fits e)
    ]

chunk_loop-join :
    (budget : ℕ) (current : Text) (lines : List Text)
    → all (is_ordinary budget) lines ≡ true
    → join_lines (chunk_loop budget current lines) ≡ join_lines (flush current ++ lines)
unfolding add_line
chunk_loop-join budget [] [] h = refl
chunk_loop-join budget (c ∷ current) [] h = refl
chunk_loop-join budget current ([] ∷ lines) h = absurd (ground arith)
chunk_loop-join budget [] ((d ∷ line) ∷ lines) h =
    let same = fit-ordinary budget (d ∷ line) (ground arith) in
    rw same (chunk_loop-join budget (d ∷ line) lines (ground arith))
chunk_loop-join budget (c ∷ current) ((d ∷ line) ∷ lines) h =
    let same = fit-ordinary budget (d ∷ line) (ground arith) in
    let rest : all (is_ordinary budget) lines ≡ true = ground arith in
    elim (Bool-cases (ltb budget (length (c ∷ current) + 1 + length (d ∷ line)))) [
      | inl over ↦
          let (t, ts, e) = chunk_loop-starts budget d line lines in
          let later = chunk_loop-join budget (d ∷ line) lines rest in
          let glued : join_lines ((c ∷ current) ∷ chunk_loop budget (d ∷ line) lines)
              ≡ (c ∷ current) ++ (10 ∷ join_lines (chunk_loop budget (d ∷ line) lines)) =
            rw e refl in
          rw (same, over) (glued ∙ ap (λ t. (c ∷ current) ++ (10 ∷ t)) later)
      | inr fits ↦
          rw (same, fits)
            (chunk_loop-join budget (c ∷ (current ++ (10 ∷ d ∷ line))) lines rest
              ∙ join-glue (c ∷ current) (d ∷ line) lines)
    ]

-- Lines that are neither empty nor over the budget are neither lost nor split nor put in another
-- order: the messages, joined by newlines, are the lines joined by newlines.
pub chunk_lines-join :
    (lines : List Text) (budget : ℕ)
    → all (is_ordinary (max budget 16)) lines ≡ true
    → join_lines (chunk_lines lines budget) ≡ join_lines lines
unfolding chunk_lines
chunk_lines-join lines budget h = chunk_loop-join (max budget 16) [] lines h
