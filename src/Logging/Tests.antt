-- ===== src/Logging/Tests.antt =====
-- src/logging.rs: the theorems at a sink over TCP.
use irc2torrent.Prelude.{
  ℕ, suc, ◌≡◌, refl, true, List, [], ◌∷◌, ◌++◌, Text, codes, some, ok, length, split_char, decimal,
}
use irc2torrent.Logging.{
  Severity, log_err, log_debug, SyslogSink, LogRecord, tcp, record_header, parse_target,
  with_default_port, stream_of,
}
use irc2torrent.Logging.Target.{tcp, parse_target, with_default_port}
use irc2torrent.Logging.Framing.{feeds, lines_of_records, length-split_char-stream_of}

parsed_tcp : parse_target (codes " tcp://nas ") ≡ ok (tcp (codes "nas:514"))
unfolding parse_target with_default_port
parsed_tcp = refl

abbrev priority : Text → Severity → ℕ
priority facility severity = 30

abbrev tcp_sink : SyslogSink
tcp_sink = record {
  level = 3;
  frame_with_newline = true;
  formatter = record {
    facility = codes "daemon";
    hostname = some (codes "nas");
    process = codes "irc2torrent";
    pid = 7;
  };
}

-- A message of two lines, and one that the level filters
abbrev records : List LogRecord
records =
    record { level = 1; stamp = codes "Sep  1 00:00:00"; text = codes "bad" ++ 10 ∷ codes "file" }
    ∷ record { level = 4; stamp = codes "Sep  1 00:00:01"; text = codes "detail" }
    ∷ []

headers_are_one_line :
    (feeds (record_header priority tcp_sink.formatter (codes "Sep  1 00:00:00") log_err) ≡ 0)
    × (feeds (record_header priority tcp_sink.formatter (codes "Sep  1 00:00:01") log_debug) ≡ 0)
unfolding record_header decimal
headers_are_one_line = (refl, refl)

length-split_char-stream_of_example :
    length (split_char 10 (stream_of priority tcp_sink records))
    ≡ suc (lines_of_records tcp_sink records)
length-split_char-stream_of_example =
    length-split_char-stream_of priority tcp_sink records refl
      (headers_are_one_line.0, (headers_are_one_line.1, tt))
