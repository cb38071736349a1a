-- ===== src/Template.antt =====
-- src/template.rs: the `{placeholder}` lexer and the plain-text template.
mod Tests
mod Run
pub mod Substitution
pub mod Accepted
use irc2torrent.Prelude.{
  ℕ, zero, suc, ◌+◌, ◌-◌, Bool, true, false, not, ◌&&◌, ◌||◌, List, [], ◌∷◌, ◌++◌, Text, Option,
  none, some, Result, ok, err, ◌>>=◌, ◌>>◌, length, get_elem?, any, find, ltb, ◌==◌, if◌then◌else◌,
  is_empty, is_alphanumeric, text_eq, utf8_len, codes,
}

abbrev pub max_name : ℕ
max_name = 64

pub data Part : Type 0 where
  literal : Text → Part
  field : ℕ → Part

-- The messages of `check_name` and `lex`, without their wording.
pub data LexError : Type 0 where
  empty_name name_too_long stray_close : LexError
  bad_char : Text → ℕ → LexError
  unterminated : Text → LexError

-- The characters that a placeholder name may not hold.
abbrev pub is_bad_name_char : ℕ → Bool
is_bad_name_char c = not (is_alphanumeric c) && not (c == b'_')

abbrev pub check_chars : Text → Option ℕ → Result LexError (Unit {0})
check_chars name (some c) = err (bad_char name c)
check_chars name none = ok tt

pub check_name : Text → Result LexError (Unit {0})
check_name name =
    if is_empty name
    then err empty_name
    else if ltb max_name (utf8_len name)
    then err name_too_long
    else check_chars name (find is_bad_name_char name)

-- The locals of `lex`.
pub record Lexer : Type 0 where
  pub parts : List Part
  pub names : List Text
  pub literal_text : Text

-- `names.iter().position(|n| *n == name)`
pub position : Text → List Text → Option ℕ
position name [] = none
position name (n ∷ ns) =
    let rest = position name ns in
    if text_eq n name then some 0 else elim rest [ some i ↦ some (suc i) | none ↦ none ]

-- The inner `for`: the name read, and what follows the `}` if there is one.
pub read_name : Text → Text × Option Text
read_name [] = ([], none)
read_name (c ∷ cs) =
    let rest = read_name cs in if c == b'}' then ([], some cs) else (c ∷ rest.0, rest.1)

-- `if !literal.is_empty() { parts.push(Literal(take(literal))) }`
pub flush_literal : Lexer → Lexer
flush_literal s =
    if is_empty s.literal_text
    then s
    else record s { parts = s.parts ++ literal s.literal_text ∷ []; literal_text = [] }

pub push_field : Lexer → ℕ → Lexer
push_field s i = record s { parts = s.parts ++ field i ∷ [] }

-- The index of a name, which is stored the first time it is used.
pub intern : Lexer → Text → Option ℕ → Lexer × ℕ
intern s name (some i) = (s, i)
intern s name none = (record s { names = s.names ++ name ∷ [] }, length s.names)

pub push_name : Lexer → Text → Lexer
unfolding position flush_literal push_field intern
push_name s name =
    let (s', i) = intern s name (position name s.names) in push_field (flush_literal s') i

abbrev pub push_char : Lexer → ℕ → Lexer
push_char s c = record s { literal_text = s.literal_text ++ c ∷ [] }

pub next_is : ℕ → Text → Bool
next_is c [] = false
next_is c (d ∷ ds) = d == c

abbrev pub tail_of : Text → Text
tail_of [] = []
tail_of (c ∷ cs) = cs

-- After a `{` that no second `{` follows.
pub lex_name : Lexer → Text × Option Text → Result LexError (Lexer × Text)
unfolding check_name push_name
lex_name s (name, none) = err (unterminated name)
lex_name s (name, some rest) = do check_name name; ok (push_name s name, rest)

-- One round of the `while let`, at `c` with `cs` still unread.
pub lex_step : Lexer → ℕ → Text → Result LexError (Lexer × Text)
unfolding next_is read_name lex_name
lex_step s c cs =
    if c == b'{' && next_is b'{' cs
    then ok (push_char s b'{', tail_of cs)
    else if c == b'}' && next_is b'}' cs
    then ok (push_char s b'}', tail_of cs)
    else if c == b'}'
    then err stray_close
    else if c == b'{'
    then lex_name s (read_name cs)
    else ok (push_char s c, cs)

-- Each round reads at least one character, so the length is fuel enough.
pub lex_loop : ℕ → Lexer → Text → Result LexError Lexer
unfolding lex_step flush_literal
lex_loop fuel s [] = ok (flush_literal s)
lex_loop zero s (c ∷ cs) = ok s
lex_loop (suc fuel) s (c ∷ cs) = lex_step s c cs >>= λ p. lex_loop fuel p.0 p.1

abbrev pub initial : Lexer
initial = record { parts = []; names = []; literal_text = [] }

unfoldable pub lex : Text → Result LexError (List Part × List Text)
unfolding lex_loop
lex template = lex_loop (length template) initial template >>= λ s. ok (s.parts, s.names)

-- The `FieldSource` trait.
pub record FieldSource : Type 0 where
  pub get : Text → Option Text
  pub values : Text → List Text

pub record TextTemplate : Type 0 where
  pub parts : List Part
  pub names : List Text

pub parse : Text → Result LexError TextTemplate
unfolding lex
parse template = lex template >>= λ p. ok (record { parts = p.0; names = p.1 })

-- `values.join(",")`
pub join : List Text → Text
join [] = []
join (v ∷ []) = v
join (v ∷ w ∷ vs) = v ++ (b',' ∷ join (w ∷ vs))

-- `none` is the panic of an index out of range.
pub render_part : List Text → FieldSource → Part → Option Text
unfolding join
render_part names fields (literal t) = some t
render_part names fields (field i) = elim (get_elem? names i) [
  | some name ↦ some (join (fields.values name))
  | none ↦ none
]

pub append_text : Option Text → Option Text → Option Text
append_text (some a) (some b) = some (a ++ b)
append_text _ _ = none

pub render_parts : List Text → FieldSource → List Part → Option Text
unfolding render_part append_text
render_parts names fields [] = some []
render_parts names fields (p ∷ ps) =
    append_text (render_part names fields p) (render_parts names fields ps)

pub render : TextTemplate → FieldSource → Option Text
unfolding render_parts
render t fields = render_parts t.names fields t.parts
