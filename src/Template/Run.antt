-- ===== src/Template/Run.antt =====
-- src/template.rs: `lex` run over one piece of a template, with any text behind it.
use irc2torrent.Prelude.{
  ℕ, zero, suc, ◌≤◌, ◌≡◌, refl, ◌∙◌, ◌||◌, [], ◌∷◌, ◌++◌, arith, Text, Option, none, some, Result,
  ok, ◌>>=◌, bind_cong, length, find, ◌==◌, if◌then◌else◌, append-nil, append_assoc,
}
use irc2torrent.Template.{
  LexError, Lexer, is_bad_name_char, check_name, read_name, flush_literal, push_name, push_char,
  next_is, lex_name, lex_step, lex_loop, initial, lex,
}

-- The name reader leaves less than it was given.
length-read_name-le : (cs rest : Text) → (read_name cs).1 ≡ some rest → length rest ≤ length cs
unfolding read_name
length-read_name-le [] rest h = cc
length-read_name-le (c ∷ cs) rest h = ground (arith, length-read_name-le cs rest)

length-lex_name-le :
    (s : Lexer) (r : Text × Option Text) (p : Lexer × Text) → lex_name s r ≡ ok p → r.1 ≡ some p.1
unfolding lex_name
length-lex_name-le s (name, none) p h = cc
length-lex_name-le s (name, some rest) p h = ground arith

pub length-lex_step-le :
    (s : Lexer) (c : ℕ) (cs : Text) (p : Lexer × Text)
    → lex_step s c cs ≡ ok p
    → length p.1 ≤ length cs
unfolding lex_step next_is
length-lex_step-le s c [] p h =
    ground (arith, length-lex_name-le s (read_name []) p, length-read_name-le [] p.1)
length-lex_step-le s c (d ∷ cs) p h =
    ground (arith, length-lex_name-le s (read_name (d ∷ cs)) p, length-read_name-le (d ∷ cs) p.1)

-- Fuel beyond the length of the template changes nothing.
lex_loop-fuel :
    (f g : ℕ) (s : Lexer) (cs : Text)
    → length cs ≤ f
    → length cs ≤ g
    → lex_loop f s cs ≡ lex_loop g s cs
unfolding lex_loop
lex_loop-fuel zero zero s cs h k = refl
lex_loop-fuel zero (suc g) s [] h k = refl
lex_loop-fuel zero (suc g) s (c ∷ cs) h k = absurd (omega arith)
lex_loop-fuel (suc f) zero s [] h k = refl
lex_loop-fuel (suc f) zero s (c ∷ cs) h k = absurd (omega arith)
lex_loop-fuel (suc f) (suc g) s [] h k = refl
lex_loop-fuel (suc f) (suc g) s (c ∷ cs) h k =
    bind_cong (lex_step s c cs) (λ p. lex_loop f p.0 p.1) (λ p. lex_loop g p.0 p.1)
      (λ p e.
        lex_loop-fuel f g p.0 p.1 (omega (arith, length-lex_step-le s c cs p e))
          (omega (arith, length-lex_step-le s c cs p e)))

-- The loop with the fuel that `lex` gives it.
pub lex_rest : Lexer → Text → Result LexError Lexer
lex_rest s cs = lex_loop (length cs) s cs

pub lex-rest :
    (template : Text) → lex template ≡ (lex_rest initial template >>= λ s. ok (s.parts, s.names))
unfolding lex lex_rest
lex-rest template = refl

pub lex_rest-nil : (s : Lexer) → lex_rest s [] ≡ ok (flush_literal s)
unfolding lex_rest lex_loop
lex_rest-nil s = refl

pub lex_rest-cons :
    (s : Lexer) (c : ℕ) (cs : Text)
    → lex_rest s (c ∷ cs) ≡ (lex_step s c cs >>= λ p. lex_rest p.0 p.1)
unfolding lex_rest lex_loop
lex_rest-cons s c cs =
    bind_cong (lex_step s c cs) (λ p. lex_loop (length cs) p.0 p.1) (λ p. lex_rest p.0 p.1)
      (λ p e.
        lex_loop-fuel (length cs) (length p.1) p.0 p.1 (length-lex_step-le s c cs p e)
          (omega arith))

-- Literal text as a template spells it: with its braces doubled.
abbrev pub escape_char : ℕ → Text
escape_char c = if c == b'{' || c == b'}' then c ∷ c ∷ [] else c ∷ []

abbrev pub escape : Text → Text
escape [] = []
escape (c ∷ cs) = escape_char c ++ escape cs

abbrev pub push_text : Lexer → Text → Lexer
push_text s t = record s { literal_text = s.literal_text ++ t }

lex_rest-escape_char :
    (s : Lexer) (c : ℕ) (rest : Text)
    → lex_rest s (escape_char c ++ rest) ≡ lex_rest (push_char s c) rest
unfolding lex_step next_is
lex_rest-escape_char s c rest = ground (arith, lex_rest-cons s c (c ∷ rest), lex_rest-cons s c rest)

pub lex_rest-escape :
    (t : Text) (s : Lexer) (rest : Text)
    → lex_rest s (escape t ++ rest) ≡ lex_rest (push_text s t) rest
lex_rest-escape [] s rest = rw append-nil
lex_rest-escape (c ∷ t) s rest = rw (append_assoc (escape_char c) (escape t) rest) (
    lex_rest-escape_char s c (escape t ++ rest)
    ∙ lex_rest-escape t (push_char s c) rest
    ∙ rw (append_assoc s.literal_text (c ∷ []) t))

read_name-append :
    (name rest : Text)
    → find is_bad_name_char name ≡ none
    → read_name (name ++ (b'}' ∷ rest)) ≡ (name, some rest)
unfolding read_name
read_name-append [] rest h = refl
read_name-append (c ∷ cs) rest h = ground (arith, read_name-append cs rest)

abbrev pub IsName : Text → Type 0
IsName name = check_name name ≡ ok tt

lex_step-name :
    (s : Lexer) (name rest : Text)
    → IsName name
    → lex_step s b'{' (name ++ (b'}' ∷ rest)) ≡ ok (push_name s name, rest)
unfolding lex_step next_is lex_name check_name
lex_step-name s [] rest h = cc
lex_step-name s (c ∷ cs) rest h = ground (arith, read_name-append (c ∷ cs) rest)

pub lex_rest-name :
    (s : Lexer) (name rest : Text)
    → IsName name
    → lex_rest s (b'{' ∷ (name ++ (b'}' ∷ rest))) ≡ lex_rest (push_name s name) rest
lex_rest-name s name rest h =
    lex_rest-cons s b'{' (name ++ (b'}' ∷ rest)) ∙ rw (lex_step-name s name rest h)
