-- ===== src/Transports/Telegram/Fences.antt =====
-- src/transports/telegram.rs: a message's code block ends where the bot closes it.
use irc2torrent.Prelude.{
  ℕ, ◌==◌, ◌≡◌, refl, arith, inl, inr, Bool, true, false, ◌||◌, [], ◌∷◌, ◌++◌, Text, Option, none,
  some, if◌then◌else◌, Bool-cases,
}
use irc2torrent.Transports.Telegram.{escape_code_block, fence, fenced, message_text}

abbrev pub onto_block : ℕ → Option (Text × Text) → Option (Text × Text)
onto_block c none = none
onto_block c (some (block, rest)) = some (c ∷ block, rest)

-- The content of a code block in MarkdownV2, up to the first backtick that no backslash precedes, and
-- what follows. The flag tells that a backslash was read.
pub read_block : Bool → Text → Option (Text × Text)
read_block escaped [] = none
read_block true (c ∷ cs) = onto_block c (read_block false cs)
read_block false (c ∷ cs) =
    if c == b'\\'
    then read_block true cs
    else if c == b'`'
    then some ([], c ∷ cs)
    else onto_block c (read_block false cs)

read_block-escape :
    (t rest block more : Text)
    → read_block false rest ≡ some (block, more)
    → read_block false (escape_code_block t ++ rest) ≡ some (t ++ block, more)
unfolding read_block escape_code_block
read_block-escape [] rest block more h = h
read_block-escape (c ∷ t) rest block more h = elim (Bool-cases (c == b'\\' || c == b'`')) [
  | inl special ↦ rw (special, read_block-escape t rest block more h) refl
  | inr plain ↦
      let back : (c == b'\\') ≡ false = ground arith in
      let tick : (c == b'`') ≡ false = ground arith in
      rw (plain, back, tick, read_block-escape t rest block more h) refl
]

-- Whatever a message holds, backticks and backslashes included, a reader of its code block reads the
-- text itself with its line end, and stops at the fence that the bot put last.
pub read_block-message_text :
    (t : Text)
    → (block : Text) × (message_text t ≡ fence ++ block)
      × (read_block false block ≡ some (10 ∷ (t ++ 10 ∷ []), fence))
unfolding message_text fenced read_block
read_block-message_text t = (
  10 ∷ (escape_code_block t ++ (10 ∷ fence)),
  refl,
  rw (read_block-escape t (10 ∷ fence) (10 ∷ []) fence refl) refl,
)
