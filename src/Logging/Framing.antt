-- ===== src/Logging/Framing.antt =====
-- src/logging.rs: how a collector splits the stream of a TCP sink.
use irc2torrent.Prelude.{
  ℕ, suc, ◌+◌, ◌≡◌, refl, arith, inl, inr, ◌==◌, true, false, List, [], ◌∷◌, ◌++◌, Text,
  if◌then◌else◌, length, ltb, split_char, onto_first, Bool-cases, All,
}
use irc2torrent.Logging.{
  Severity, severity_of, record_header, format_record, SyslogSink, LogRecord, is_enabled,
  log_record, written, stream_of,
}

abbrev pub feeds : Text → ℕ
feeds [] = 0
feeds (c ∷ cs) = (if c == 10 then 1 else 0) + feeds cs

feeds-append : (a b : Text) → feeds (a ++ b) ≡ feeds a + feeds b
feeds-append [] b = omega arith
feeds-append (c ∷ a) b = omega (arith, feeds-append a b)

length-onto_first :
    (c : ℕ) (ls : List Text) (n : ℕ) → length ls ≡ suc n → length (onto_first c ls) ≡ suc n
length-onto_first c [] n h = absurd (omega arith)
length-onto_first c (l ∷ ls) n h = h

length-split_char : (t : Text) → length (split_char 10 t) ≡ suc (feeds t)
length-split_char [] = refl
length-split_char (c ∷ cs) = elim (Bool-cases (c == 10)) [
  | inl feed ↦ rw feed (omega (arith, length-split_char cs))
  | inr other ↦
      rw other
        (omega (arith, length-onto_first c (split_char 10 cs) (feeds cs) (length-split_char cs)))
]

-- The lines that records of the sink's level or a more urgent one, which is a lower number, were meant to
-- be, and those that line feeds in their messages add
abbrev pub lines_of_records : SyslogSink → List LogRecord → ℕ
lines_of_records s [] = 0
lines_of_records s (r ∷ records) =
    (if ltb s.level r.level then 0 else 1 + feeds r.text) + lines_of_records s records

-- The header of a record is one line.
abbrev pub IsOneLine : (Text → Severity → ℕ) → SyslogSink → LogRecord → Type 0
IsOneLine priority s r =
    feeds (record_header priority s.formatter r.stamp (severity_of r.level)) ≡ 0

module _ (priority : Text → Severity → ℕ) (s : SyslogSink) where
  feeds-log_record :
      (r : LogRecord)
      → s.frame_with_newline ≡ true
      → IsOneLine priority s r
      → feeds (written (log_record priority s r))
        ≡ (if ltb s.level r.level then 0 else 1 + feeds r.text)
  unfolding log_record format_record
  feeds-log_record r framed h = elim (Bool-cases (is_enabled s r)) [
    | inl enabled ↦
        let let_through : ltb s.level r.level ≡ false = ground (arith, enabled) in
        rw (enabled, let_through, framed)
          (omega (
            arith,
            h,
            feeds-append (record_header priority s.formatter r.stamp (severity_of r.level))
                (r.text ++ 10 ∷ []),
            feeds-append r.text (10 ∷ []),
          ))
    | inr filtered ↦
        let less_urgent : ltb s.level r.level ≡ true = ground (arith, filtered) in
        rw (filtered, less_urgent) refl
  ]

  feeds-stream_of :
      (records : List LogRecord)
      → s.frame_with_newline ≡ true
      → All (IsOneLine priority s) records
      → feeds (stream_of priority s records) ≡ lines_of_records s records
  unfolding stream_of
  feeds-stream_of [] framed h = refl
  feeds-stream_of (r ∷ records) framed (here, later) = omega (
    arith,
    feeds-append (written (log_record priority s r)) (stream_of priority s records),
    feeds-log_record r framed here,
    feeds-stream_of records framed later,
  )

-- When no record's header, with the host, the process and the stamp in it, has a line feed, a collector
-- that splits a TCP sink's stream at line feeds reads, besides what is unfinished at the end, one line
-- for each record that is as urgent as the sink's level or more, one more for each line feed inside
-- such a record's message, and none for a less urgent record.
pub length-split_char-stream_of :
    (priority : Text → Severity → ℕ) (s : SyslogSink) (records : List LogRecord)
    → s.frame_with_newline ≡ true
    → All (IsOneLine priority s) records
    → length (split_char 10 (stream_of priority s records)) ≡ suc (lines_of_records s records)
length-split_char-stream_of priority s records framed h = omega (
  arith,
  length-split_char (stream_of priority s records),
  feeds-stream_of priority s records framed h,
)
