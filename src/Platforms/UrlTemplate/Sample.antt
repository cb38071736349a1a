-- ===== src/Platforms/UrlTemplate/Sample.antt =====
-- src/platforms/url_template.rs: a tracker with one host, for the tests of what parses templates.
use irc2torrent.Prelude.{◌≡◌, refl, false, Text, [], ◌∷◌, codes, none, some, ok, decimal}
use irc2torrent.Template.{literal, field, lex}
use irc2torrent.Platforms.UrlTemplate.{
  probes_from, probe_for, literals_of, UrlLib, UrlTemplate, probe_prefix_for, parse, authority_of,
}

abbrev pub one_host : UrlLib
one_host = record {
  Url = Text;
  parse_url = λ t. some t;
  scheme = λ u. codes "https";
  username = λ u. [];
  password = λ u. none;
  host_str = λ u. some (codes "tracker.example");
  port_or_known_default = λ u. some 443;
  url_text = λ u. u;
  percent_encode = λ set t. t;
}

abbrev pub sample_template : UrlTemplate
sample_template = record {
  parts = literal (codes "https://t/") ∷ field 0 ∷ [];
  names = codes "id" ∷ [];
  authority = codes "https://:@tracker.example:443";
  uses_key = false;
}

pub parse-sample_template : parse one_host (codes "https://t/{id}") ≡ ok sample_template
unfolding parse lex decimal probes_from authority_of probe_for probe_prefix_for literals_of
parse-sample_template = refl
