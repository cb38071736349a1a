-- ===== src/Transports.antt =====
-- src/transports/mod.rs: packing the lines of a reply into messages.
mod Tests
pub mod Chunks
pub mod Json
pub mod Telegram
pub mod Slack
use irc2torrent.Prelude.{
  ℕ, ◌+◌, ◌-◌, max, Bool, true, false, not, ◌&&◌, List, [], ◌∷◌, ◌++◌, Text, codes, Option, none,
  some, if◌then◌else◌, ltb, leb, ◌==◌, length, take, drop, is_empty, decimal,
}

-- The characters kept, and an ellipsis.
unfoldable pub truncate_chars : Text → ℕ → Text
truncate_chars s budget = take (budget - 1) s ++ (0x2026 ∷ [])

unfoldable pub fit : ℕ → Text → Text
unfolding truncate_chars
fit budget line = if ltb budget (length line) then truncate_chars line budget else line

-- One turn of the loop: what is pushed to the chunks, and the chunk that is being filled.
unfoldable pub add_line : ℕ → Text → Text → List Text × Text
add_line budget current line =
    if is_empty current
    then ([], line)
    else if ltb budget (length current + 1 + length line)
    then (current ∷ [], line)
    else ([], current ++ (10 ∷ line))

abbrev pub flush : Text → List Text
flush [] = []
flush (c ∷ cs) = (c ∷ cs) ∷ []

abbrev pub chunk_loop : ℕ → Text → List Text → List Text
chunk_loop budget current [] = flush current
chunk_loop budget current (line ∷ lines) =
    let turn = add_line budget current (fit budget line) in turn.0 ++ chunk_loop budget turn.1 lines

unfoldable pub chunk_lines : List Text → ℕ → List Text
unfolding fit add_line
chunk_lines lines budget = chunk_loop (max budget 16) [] lines

-- `str::lines().count()`: a newline at the end opens no line of its own.
abbrev pub line_count : Text → ℕ
line_count [] = 0
line_count (c ∷ []) = 1
line_count (c ∷ d ∷ cs) = (if c == 10 then 1 else 0) + line_count (d ∷ cs)

abbrev pub total_lines : List Text → ℕ
total_lines [] = 0
total_lines (c ∷ cs) = line_count c + total_lines cs

unfoldable pub chunk_reply : List Text → ℕ → ℕ → List Text
chunk_reply lines budget max_chunks =
    let chunks = chunk_lines lines budget in
    if leb (length chunks) max_chunks
    then chunks
    else take max_chunks chunks
      ++ ((0x2026 ∷ codes " and "
            ++ decimal (length lines - total_lines (take max_chunks chunks))
            ++ codes " more (not shown)")
          ∷ [])
