-- ===== src/Template/Accepted.antt =====
-- src/template.rs: the templates that `lex` accepts, and the placeholder names in them.
use irc2torrent.Prelude.{
  ℕ, zero, suc, ◌≤◌, ◌≡◌, refl, ◌∙◌, ap, sym, inl, inr, Bool, true, false, ◌||◌, List, [], ◌∷◌,
  ◌++◌, arith, Text, Option, none, some, ok, err, bind-eq-ok, length, find, ◌==◌, all, ◌↔◌, ◌≢◌,
  ◌||◌, is_alphanumeric, ltb, ==_iff, if◌then◌else◌, Bool-cases, append-nil, append_assoc, utf8_len,
  subst,
}
use irc2torrent.Template.{
  name_too_long, Lexer, is_bad_name_char, max_name, check_chars, check_name, read_name, push_name,
  next_is, tail_of, lex_name, lex_step, initial, lex, TextTemplate, parse,
}
use irc2torrent.Template.Run.{lex_rest, lex-rest, lex_rest-cons, length-lex_step-le}
use irc2torrent.Template.Substitution.{Token, text, hole, print, HasNames}

print-append : (t : Token) (ts : List Token) → print (t ∷ ts) ≡ print (t ∷ []) ++ print ts
print-append (text t) ts = rw append-nil
print-append (hole name) ts = ap (◌∷◌ b'{') (sym (append_assoc name (b'}' ∷ []) (print ts)))

-- One round of the loop reads one token.
ReadsToken : Text → Text → Type 0
ReadsToken cs rest = (t : Token) × HasNames (t ∷ []) × (print (t ∷ []) ++ rest ≡ cs)

read_name-some :
    (cs name rest : Text) → read_name cs ≡ (name, some rest) → name ++ (b'}' ∷ rest) ≡ cs
unfolding read_name
read_name-some [] name rest h = ground arith
read_name-some (c ∷ cs) [] rest h = ground (arith, ==_iff c b'}')
read_name-some (c ∷ cs) (n ∷ ns) rest h = ground (arith, read_name-some cs ns rest)

lex_name-ReadsToken :
    (s : Lexer) (cs : Text) (r : Text × Option Text) (p : Lexer × Text)
    → read_name cs ≡ r
    → lex_name s r ≡ ok p
    → ReadsToken (b'{' ∷ cs) p.1
unfolding lex_name ReadsToken
lex_name-ReadsToken s cs (name, none) p e h = cc
lex_name-ReadsToken s cs (name, some rest) p e h =
    let (_, valid, same) = bind-eq-ok (check_name name) (λ _. ok (push_name s name, rest)) h in
    (
      hole name,
      (valid, tt),
      ap (◌∷◌ b'{') (append_assoc name (b'}' ∷ []) p.1 ∙ read_name-some cs name p.1 (e ∙ cc)),
    )

next_is_lem : (c : ℕ) (cs : Text) → next_is c cs ≡ true → cs ≡ c ∷ tail_of cs
unfolding next_is
next_is_lem c [] h = cc
next_is_lem c (d ∷ cs) h = ap (λ x. x ∷ cs) ((==_iff d c).0 h)

ReadsToken-char :
    (c : ℕ) (cs : Text) → (c == b'{') ≡ false → (c == b'}') ≡ false → ReadsToken (c ∷ cs) cs
unfolding ReadsToken
ReadsToken-char c cs h k = (text (c ∷ []), tt, rw (h, k))

HasNames-cons : (t : Token) (ts : List Token) → HasNames (t ∷ []) → HasNames ts → HasNames (t ∷ ts)
HasNames-cons (text t) ts h k = k
HasNames-cons (hole name) ts h k = (h.0, k)

lex_step-ReadsToken :
    (s : Lexer) (c : ℕ) (cs : Text) (p : Lexer × Text)
    → lex_step s c cs ≡ ok p
    → ReadsToken (c ∷ cs) p.1
unfolding lex_step ReadsToken
lex_step-ReadsToken s c cs p h = elim (Bool-cases (c == b'{')) [
  | inl open_brace ↦ elim (Bool-cases (next_is b'{' cs)) [
    | inl doubled ↦ (text (b'{' ∷ []), tt, ground (arith, next_is_lem b'{' cs doubled))
    | inr single ↦
        subst (λ x. ReadsToken (x ∷ cs) p.1) (sym ((==_iff c b'{').0 open_brace))
          (lex_name-ReadsToken s cs (read_name cs) p refl (ground arith))
  ]
  | inr other ↦ elim (Bool-cases (c == b'}')) [
    | inl close_brace ↦ elim (Bool-cases (next_is b'}' cs)) [
      | inl doubled ↦ (text (b'}' ∷ []), tt, ground (arith, next_is_lem b'}' cs doubled))
      | inr single ↦ ground arith
    ]
    | inr plain ↦
        subst (λ rest. ReadsToken (c ∷ cs) rest) (ground arith) (ReadsToken-char c cs other plain)
  ]
]

lex_rest-tokens :
    (fuel : ℕ) (cs : Text) (s s' : Lexer)
    → length cs ≤ fuel
    → lex_rest s cs ≡ ok s'
    → (ts : List Token) × HasNames ts × (print ts ≡ cs)
unfolding ReadsToken
lex_rest-tokens fuel [] s s' h e = ([], tt, refl)
lex_rest-tokens zero (c ∷ cs) s s' h e = absurd (omega arith)
lex_rest-tokens (suc fuel) (c ∷ cs) s s' h e =
    let (p, stepped, later) =
      bind-eq-ok (lex_step s c cs) (λ p. lex_rest p.0 p.1) (sym (lex_rest-cons s c cs) ∙ e) in
    let (ts, valid, printed) =
      lex_rest-tokens fuel p.1 p.0 s' (omega (arith, length-lex_step-le s c cs p stepped)) later in
    let (t, valid_t, same) = lex_step-ReadsToken s c cs p stepped in
    (t ∷ ts, HasNames-cons t ts valid_t valid, print-append t ts ∙ rw printed same)

-- A template that `parse` accepts spells out some list of literals and valid placeholder names.
pub parse-print :
    (template : Text) (t : TextTemplate)
    → parse template ≡ ok t
    → (ts : List Token) × HasNames ts × (print ts ≡ template)
unfolding parse
parse-print template t e =
    let (p, lexed, _) =
      bind-eq-ok (lex template) (λ p. ok (record { parts = p.0; names = p.1 })) e in
    let (s, run, _) =
      bind-eq-ok (lex_rest initial template) (λ s. ok (s.parts, s.names))
        (sym (lex-rest template) ∙ lexed) in
    lex_rest-tokens (length template) template initial s (omega arith) run

-- A name character: an ASCII letter, digit or underscore.
abbrev pub is_name_char : ℕ → Bool
is_name_char c = is_alphanumeric c || c == b'_'

find-all : (name : Text) → (find is_bad_name_char name ≡ none) ↔ (all is_name_char name ≡ true)
find-all [] = (λ _. refl, λ _. refl)
find-all (c ∷ cs) = ground (arith, find-all cs)

guarded-ok :
    (b : Bool) (name : Text) (o : Option ℕ)
    → ((if b then err name_too_long else check_chars name o) ≡ ok tt) ↔ ((b ≡ false) × (o ≡ none))
guarded-ok true name o = (λ h. cc, λ h. cc)
guarded-ok false name none = (λ _. (refl, refl), λ _. refl)
guarded-ok false name (some c) = (λ h. cc, λ h. cc)

-- A placeholder name is accepted exactly when it is not empty, takes at most 64 bytes, and holds
-- only ASCII letters, digits and underscores.
pub check_name_iff :
    (name : Text)
    → (check_name name ≡ ok tt)
      ↔ ((name ≢ []) × (utf8_len name ≤ max_name) × (all is_name_char name ≡ true))
unfolding check_name
check_name_iff [] = (λ h. cc, λ h. absurd (h.0 refl))
check_name_iff (c ∷ cs) =
    let name = c ∷ cs in
    let guards = guarded-ok (ltb max_name (utf8_len name)) name (find is_bad_name_char name) in
    (
      λ h.
          let (short, clean) = guards.0 h in
          (λ e. cc, ground (arith, short), (find-all name).0 clean),
      λ (_, short, clean). guards.1 (ground (arith, short), (find-all name).1 clean),
    )
