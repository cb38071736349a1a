-- ===== src/Lib.antt =====
-- irc2torrent: a bot that watches IRC announce channels, fetches the torrents that its filters want
-- and hands them to a torrent client, and that its owner commands over IRC and other chats.
--
-- The parts, and the files that model them (paths from the repository's root):
--   IrcFormat         src/irc_format.rs: formatting codes, stripped from each message first.
--   Announce          src/announce.rs: the fields of a matched announce line. The regex crate's match
--                     is an argument.
--   Auth              src/auth.rs: whose announcements and commands are taken.
--   Template          src/template.rs: the placeholder templates that URLs and labels share.
--   Platforms         src/platforms/: UrlTemplate is url_template.rs, Http is http.rs, its Download the
--                     request and the writing of the file. The url and percent-encoding crates are the
--                     parameter UrlLib, with EncodesOutside as the one hypothesis about them.
--   Irc               src/irc_processor.rs: Whois holds the limits on identity checks, Outbound the
--                     queue, `stop!` and the pacer, Identity the commands that wait for a check,
--                     Connection the reconnect loop, Presence whether the owner is there, Routing
--                     where a message goes.
--   Notify            src/notify.rs: Events are the events and their digest, Limit the hourly cap, Outbox
--                     what a backend could not take, Hold what the IRC backend keeps for an absent
--                     owner, Dispatch the task that owns the backends, Poll what it watches for,
--                     Schedule when the summary is due, Senders how the email and ntfy backends are set
--                     up, Reload which backends a changed configuration rebuilds.
--   CommandProcessor  src/command_processor.rs: Process is the dispatch of a command, Replies the lines
--                     it answers with, Watchlist the list in src/config.rs that commands change.
--   TorrentProcessor  src/torrent_processor.rs: Filters the decision; fetching, adding, what is notified.
--   Transports        src/transports/: packing a reply into messages (mod.rs), Telegram the bot and its
--                     polls (telegram.rs), Slack its conversation and its socket (slack.rs).
--   Clients           src/clients/qbittorrent.rs: Session holds the login and what is sent again, Version
--                     the versions, Multipart the body of an upload, Listing the lists of torrents,
--                     Adding connecting and uploading.
--   Configuration     src/config.rs: Sections are the tables and their defaults, Data the two files, Checks
--                     what is refused, Summary the time of the summary, Loading the options that a
--                     file gives and how commands change them, Watching what a change of a file does.
--   Supervisor        src/supervisor.rs: Services the exits and restarts of child processes, Shutdown the
--                     signals at the end and the lock that a session leaves behind, Paths the
--                     environment's paths and which rtorrent.rc is loaded.
--   Logging           src/logging.rs: the remote syslog sink, its target, its filter and its framing.
--   Prelude           tests, lists, text, results and maps that the parts share.
--
-- A message goes from Irc, through IrcFormat, either to Irc.Identity, which asks Auth and hands what
-- may run to CommandProcessor, or through Announce to TorrentProcessor, which decides, renders a
-- URL with Platforms and gives the file to the client. Both TorrentProcessor and the connection send
-- events to Notify, whose IRC backend writes to the queue of Irc.Outbound, as CommandProcessor's `stop`
-- does. The chat transports bring commands to CommandProcessor in the same way, and pack its replies.
-- Configuration gives every part its options, and CommandProcessor's watchlist commands change them.
--
-- Conventions. A character is its code point and text is a list of them; times are numbers of seconds
-- that are passed in. State is passed explicitly, and what a handler sends, runs or asks for is a list
-- of effects, in order. Counters of a machine word wrap at 2 ^ 64. A BTreeMap keeps its keys in order,
-- a HashMap keeps them as they came. Each module has a child Tests that applies its theorems to
-- concrete values.
--
-- Fuel. strip_loop and lex_loop are given the length of what they read, and each round reads at least
-- one character. split_loop is given one more than that. probe_prefix_loop is given the length of the
-- literals, which a longer prefix cannot occur in.
--
-- What an external library answers is an argument, a record of operations such as JsonLib, FloatLib or
-- AddLib. A server is a function of the requests sent to it so far, and Readers are how the two files
-- are parsed, compared and reported.
--
-- Backends of Notify are an argument, a record of operations on a state of their own, and the IRC
-- backend is one such record. What the dispatcher does in one wake-up happens at one instant, and which
-- wake-up comes next is any step of a relation.
--
-- Not modelled: the rTorrent and Flood clients, which are calls of XML-RPC and HTTP; the files and
-- sockets that the supervisor prepares; sending by email, ntfy, Telegram and Slack, opening a log's
-- transport, the connection itself, watching files, processes and the disk, which are I/O; the
-- program's entry; the formatting of floating-point numbers; and
-- dxr, a copy of another project's library.
pub mod Prelude
pub mod IrcFormat
pub mod Template
pub mod Announce
pub mod Platforms
pub mod Auth
pub mod Irc
pub mod Notify
pub mod TorrentProcessor
pub mod CommandProcessor
pub mod Clients
pub mod Configuration
pub mod Transports
pub mod Supervisor
pub mod Logging
