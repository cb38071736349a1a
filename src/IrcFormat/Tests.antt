-- ===== src/IrcFormat/Tests.antt =====
-- src/irc_format.rs: the theorems at a coloured line.
use irc2torrent.Prelude.{Text, codes, ◌∷◌}
use irc2torrent.IrcFormat.{colour}

abbrev plain_line : Text
plain_line = codes "New Torrent"

abbrev coloured_line : Text
coloured_line = colour ∷ codes "00,04New"
