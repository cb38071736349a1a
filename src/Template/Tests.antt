-- ===== src/Template/Tests.antt =====
-- src/template.rs: the theorems at a template of two placeholders.
use irc2torrent.Prelude.{
  ◌≡◌, ◌≢◌, refl, codes, List, [], ◌∷◌, none, some, ok, text_eq, if◌then◌else◌, arith,
}
use irc2torrent.Template.{FieldSource, TextTemplate, parse, render}
use irc2torrent.Template.Substitution.{Token, text, hole, print, HasNames, substitute, render-parse}
use irc2torrent.Template.Accepted.{check_name_iff}

abbrev tokens : List Token
tokens = text (codes "movies/") ∷ hole (codes "category") ∷ text (codes "{x}") ∷ []

abbrev fields : FieldSource
fields = record {
  get = λ name. if text_eq name (codes "category") then some (codes "4K") else none;
  values = λ name. codes "4K" ∷ [];
}

non_empty : codes "category" ≢ []
non_empty h = cc

names : HasNames tokens
names = ((check_name_iff (codes "category")).1 (non_empty, omega arith, refl), tt)

render-parse_example :
    (t : TextTemplate) × (parse (print tokens) ≡ ok t)
    × (render t fields ≡ some (substitute fields tokens))
render-parse_example = render-parse tokens fields names
