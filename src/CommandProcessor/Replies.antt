-- ===== src/CommandProcessor/Replies.antt =====
-- src/command_processor.rs, src/clients/mod.rs: the lines of a reply, and how much of them the asking
-- transport carries. Numbers in floating point are formatted by arguments.
pub mod Budget
use irc2torrent.Prelude.{
  ℕ, zero, suc, ◌+◌, ◌-◌, ◌*◌, ◌/◌, ◌^◌, min, max, ◌==◌, Bool, true, false, ◌&&◌, List, [], ◌∷◌,
  ◌++◌, map, Text, codes, Option, none, some, if◌then◌else◌, ltb, leb, length, take, keep_if,
  is_empty, utf8_len, utf8_width, decimal,
}
use irc2torrent.Auth.{ℤ, pos, negsuc}

abbrev pub line_budget : ℕ
line_budget = 380

-- The longest prefix within a number of bytes.
abbrev pub take_bytes : ℕ → Text → Text
take_bytes n [] = []
take_bytes n (c ∷ cs) =
    let rest = take_bytes (n - utf8_width c) cs in if leb (utf8_width c) n then c ∷ rest else []

unfoldable pub fit_line : Text → ℕ → Text
fit_line line budget =
    if leb (utf8_len line) budget then line else take_bytes budget line ++ (0x2026 ∷ [])

pub record ReplyLimits : Type 0 where
  pub max_lines : ℕ
  pub line_budget : Option ℕ

unfoldable pub irc_limits : ℕ → ReplyLimits
irc_limits max_lines = record { max_lines = max_lines; line_budget = some line_budget }

unfoldable pub unconstrained : ReplyLimits
unconstrained = record { max_lines = 2 ^ 64 - 1; line_budget = none }

unfoldable pub cut_lines : List Text → ℕ → List Text
cut_lines lines max_lines =
    if ltb max_lines (length lines)
    then take max_lines lines
      ++ ((0x2026 ∷ codes " and "
            ++ decimal (length lines - max_lines)
            ++ codes " more (not shown)")
          ∷ [])
    else lines

unfoldable pub fit_all : Option ℕ → List Text → List Text
unfolding fit_line
fit_all none lines = lines
fit_all (some budget) lines = map (λ l. fit_line l budget) lines

unfoldable pub cap_lines : List Text → ReplyLimits → List Text
unfolding cut_lines fit_all
cap_lines lines limits = fit_all limits.line_budget (cut_lines lines limits.max_lines)

pub record CommandInfo : Type 0 where
  pub short : Text
  pub full : Text
  pub arg : Text
  pub help : Text

abbrev pub info : Text → Text → Text → Text → CommandInfo
info short full arg help = record { short = short; full = full; arg = arg; help = help }

unfoldable pub commands : List CommandInfo
commands =
    info (codes "at") (codes "addtorrent") (codes "<link | id | announce line>")
      (codes "add a torrent, ignoring the filters")
    ∷ info (codes "lt") (codes "torrentlist") [] (codes "list torrents: size, progress, ratio")
    ∷ info (codes "lw") (codes "watchlist") [] (codes "list watch patterns, numbered")
    ∷ info (codes "aw") (codes "addtowatchlist") (codes "<regex>") (codes "add a watch pattern")
    ∷ info (codes "rw") (codes "removewatch") (codes "<index>")
        (codes "remove the watch pattern at that index")
    ∷ info (codes "tn") (codes "testnotify") [] (codes "send a test notification")
    ∷ info (codes "s") (codes "stop") [] (codes "discard replies still queued (alerts are kept)")
    ∷ info (codes "h") (codes "help") [] (codes "this list")
    ∷ []

unfoldable pub short_form : CommandInfo → Text
short_form c = if is_empty c.arg then c.short ++ codes "!" else c.short ++ codes "! " ++ c.arg

unfoldable pub long_form : CommandInfo → Text
long_form c =
    if is_empty c.arg
    then codes "cmd:" ++ c.full
    else codes "cmd:" ++ c.full ++ codes " params:(" ++ (0x2026 ∷ codes ")")

abbrev pub longest : List Text → ℕ
longest [] = 0
longest (t ∷ texts) = max (length t) (longest texts)

abbrev pub spaces : ℕ → Text
spaces zero = []
spaces (suc n) = 32 ∷ spaces n

-- `{:<width$}`
abbrev pub pad : ℕ → Text → Text
pad width t = t ++ spaces (width - length t)

unfoldable pub help_row : ℕ → ℕ → CommandInfo → Text
unfolding short_form long_form
help_row short_width long_width c =
    pad short_width (short_form c)
    ++ codes "  "
    ++ pad long_width (long_form c)
    ++ codes "  "
    ++ (0x2014 ∷ codes " " ++ c.help)

unfoldable pub help_lines : ReplyLimits → List Text
unfolding commands help_row cap_lines
help_lines limits =
    let short_width = longest (map short_form commands) in
    let long_width = longest (map long_form commands) in
    cap_lines
      (map (help_row short_width long_width) commands
        ++ (codes "aliases: downloadlist = torrentlist, listwatch = watchlist, commands = help"
            ∷ []))
      limits

pub record TorrentInfo : Type 0 where
  pub name : Text
  pub size_bytes : ℤ
  pub completed_bytes : ℤ
  pub ratio_permille : ℤ

-- `max(0)`
abbrev pub at_least_zero : ℤ → ℕ
at_least_zero (pos n) = n
at_least_zero (negsuc n) = 0

unfoldable pub percent_done : TorrentInfo → ℕ
percent_done t =
    let size = at_least_zero t.size_bytes in
    if size == 0 then 0 else min (at_least_zero t.completed_bytes * 100 / size) 100

unfoldable pub is_complete : TorrentInfo → Bool
is_complete t =
    let size = at_least_zero t.size_bytes in
    ltb 0 size && leb size (at_least_zero t.completed_bytes)

-- `human_bytes` and `{:.2}` of a ratio per mille.
pub record FloatText : Type 0 where
  pub human_bytes : ℤ → Text
  pub ratio : ℤ → Text

unfoldable pub summary : FloatText → TorrentInfo → Text
unfolding percent_done
summary show t =
    let start = t.name ++ codes " " ++ (0x2014 ∷ codes " ") ++ show.human_bytes t.size_bytes in
    let state =
      if is_complete t
      then codes ", done"
      else codes ", " ++ decimal (percent_done t) ++ codes "%" in
    start ++ state ++ codes ", ratio " ++ show.ratio t.ratio_permille

-- `enumerate`, with each index before its line
abbrev pub number_from : ℕ → List Text → List Text
number_from i [] = []
number_from i (l ∷ lines) = (codes "[" ++ decimal i ++ codes "] " ++ l) ∷ number_from (suc i) lines

abbrev pub plural : ℕ → Text
plural n = if n == 1 then [] else codes "s"

unfoldable pub download_lines : FloatText → List TorrentInfo → List Text
unfolding summary is_complete
download_lines show list =
    (decimal (length list)
      ++ codes " torrent"
      ++ plural (length list)
      ++ codes " ("
      ++ decimal (length (keep_if is_complete list))
      ++ codes " complete):")
    ∷ number_from 0 (map (summary show) list)

unfoldable pub format_download_list : FloatText → List TorrentInfo → ReplyLimits → List Text
unfolding download_lines cap_lines
format_download_list show [] limits = codes "No torrents." ∷ []
format_download_list show (t ∷ list) limits = cap_lines (download_lines show (t ∷ list)) limits

unfoldable pub watch_lines : List Text → List Text
watch_lines patterns =
    (decimal (length patterns) ++ codes " pattern" ++ plural (length patterns) ++ codes ":")
    ∷ number_from 0 patterns

unfoldable pub format_watchlist : List Text → ReplyLimits → List Text
unfolding watch_lines cap_lines
format_watchlist [] limits =
    codes "Watchlist is empty. Add one with cmd:addtowatchlist params:(<regex>)" ∷ []
format_watchlist (p ∷ patterns) limits = cap_lines (watch_lines (p ∷ patterns)) limits
