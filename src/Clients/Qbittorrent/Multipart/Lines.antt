-- ===== src/Clients/Qbittorrent/Multipart/Lines.antt =====
-- src/clients/qbittorrent.rs: an upload's body, read line by line.
use irc2torrent.Prelude.{
  ℕ, ◌==◌, ◌≡◌, refl, ◌∙◌, ap, arith, Bool, true, false, not, ◌&&◌, List, [], ◌∷◌, ◌++◌,
  append_assoc, Text, codes, keep_if, all, all-append, all-take, All,
}
use irc2torrent.Clients.Qbittorrent.Multipart.{
  max_field_len, sanitize_field, utf8, as_bytes, crlf, part_mark, field_header, field_part,
  file_header, file_type, file_part, body_end, multipart_body,
}

-- No carriage return and no line feed
abbrev pub is_inline : ℕ → Bool
is_inline c = not (c == 13) && not (c == 10)

abbrev pub add_to_line : ℕ → List (List ℕ) → List (List ℕ)
add_to_line b [] = (b ∷ []) ∷ []
add_to_line b (l ∷ ls) = (b ∷ l) ∷ ls

-- The lines of a message: a carriage return with a line feed after it ends one.
abbrev pub message_lines : List ℕ → List (List ℕ)
message_lines [] = [] ∷ []
message_lines (b ∷ []) = (b ∷ []) ∷ []
message_lines (b ∷ c ∷ bs) = elim (b == 13 && c == 10) [
  | true ↦ [] ∷ message_lines bs
  | false ↦ add_to_line b (message_lines (c ∷ bs))
]

message_lines-line :
    (l rest : List ℕ)
    → all is_inline l ≡ true
    → message_lines (l ++ 13 ∷ 10 ∷ rest) ≡ l ∷ message_lines rest
message_lines-line [] rest h = refl
message_lines-line (b ∷ []) rest h =
    let other : (b == 13) ≡ false = ground arith in rw (other, message_lines) refl
message_lines-line (b ∷ c ∷ l) rest h =
    let other : (b == 13) ≡ false = ground arith in
    rw (message_lines, other, message_lines-line (c ∷ l) rest (ground arith)) refl

as_bytes-append : (a b : Text) → as_bytes (a ++ b) ≡ as_bytes a ++ as_bytes b
as_bytes-append [] b = refl
as_bytes-append (c ∷ a) b =
    rw (as_bytes-append a b, append_assoc (utf8 c) (as_bytes a) (as_bytes b)) refl

all-utf8 : (c : ℕ) → is_inline c ≡ true → all is_inline (utf8 c) ≡ true
all-utf8 c h = ground arith

all-as_bytes : (t : Text) → all is_inline t ≡ true → all is_inline (as_bytes t) ≡ true
all-as_bytes [] h = refl
all-as_bytes (c ∷ t) h =
    all-append is_inline (utf8 c) (as_bytes t) ∙ ground (arith, all-utf8 c, all-as_bytes t)

message_lines-text :
    (t rest : Text) (more : List ℕ)
    → all is_inline t ≡ true
    → message_lines (as_bytes (t ++ (crlf ++ rest)) ++ more)
      ≡ as_bytes t ∷ message_lines (as_bytes rest ++ more)
message_lines-text t rest more h =
    rw (as_bytes-append t (crlf ++ rest), append_assoc (as_bytes t) (as_bytes (crlf ++ rest)) more)
      (message_lines-line (as_bytes t) (as_bytes rest ++ more) (all-as_bytes t h))

abbrev pub field_lines : Text → Text × Text → List (List ℕ)
field_lines boundary (key, value) =
    as_bytes (part_mark boundary) ∷ as_bytes (field_header key) ∷ [] ∷ as_bytes value ∷ []

abbrev pub lines_of_fields : Text → List (Text × Text) → List (List ℕ)
lines_of_fields boundary [] = []
lines_of_fields boundary (f ∷ fields) = field_lines boundary f ++ lines_of_fields boundary fields

abbrev pub IsInlineField : Text × Text → Type 0
IsInlineField (key, value) = (all is_inline key ≡ true) × (all is_inline value ≡ true)

inline-append :
    (a b : Text) → all is_inline a ≡ true → all is_inline b ≡ true → all is_inline (a ++ b) ≡ true
inline-append a b ha hb = all-append is_inline a b ∙ ground (arith, ha, hb)

inline-part_mark : (b : Text) → all is_inline b ≡ true → all is_inline (part_mark b) ≡ true
unfolding part_mark
inline-part_mark b h = h

inline-field_header : (k : Text) → all is_inline k ≡ true → all is_inline (field_header k) ≡ true
unfolding field_header
inline-field_header k h = inline-append k (codes "\"") h refl

message_lines-field :
    (boundary : Text) (f : Text × Text) (more : List ℕ)
    → all is_inline boundary ≡ true
    → IsInlineField f
    → message_lines (as_bytes (field_part boundary f) ++ more)
      ≡ field_lines boundary f ++ message_lines more
unfolding field_part
message_lines-field boundary (key, value) more hb (hk, hv) =
    let first : List ℕ = as_bytes (part_mark boundary) in
    let second : List ℕ = as_bytes (field_header key) in
    message_lines-text (part_mark boundary)
      (field_header key ++ (crlf ++ (crlf ++ (value ++ crlf)))) more (inline-part_mark boundary hb)
    ∙ ap (◌∷◌ first) (
        message_lines-text (field_header key) (crlf ++ (value ++ crlf)) more
          (inline-field_header key hk)
        ∙ ap (λ ls. second ∷ [] ∷ ls) (message_lines-text value [] more hv))

abbrev pub file_lines : Text → List (List ℕ)
file_lines boundary =
    as_bytes (part_mark boundary) ∷ as_bytes file_header ∷ as_bytes file_type ∷ [] ∷ []

inline-file_header : all is_inline file_header ≡ true
unfolding file_header
inline-file_header = refl

inline-file_type : all is_inline file_type ≡ true
unfolding file_type
inline-file_type = refl

message_lines-file :
    (boundary : Text) (more : List ℕ)
    → all is_inline boundary ≡ true
    → message_lines (as_bytes (file_part boundary) ++ more)
      ≡ file_lines boundary ++ message_lines more
unfolding file_part
message_lines-file boundary more hb =
    let first : List ℕ = as_bytes (part_mark boundary) in
    let second : List ℕ = as_bytes file_header in
    message_lines-text (part_mark boundary) (file_header ++ (crlf ++ (file_type ++ (crlf ++ crlf))))
      more (inline-part_mark boundary hb)
    ∙ ap (◌∷◌ first) (
        message_lines-text file_header (file_type ++ (crlf ++ crlf)) more inline-file_header
        ∙ ap (◌∷◌ second) (message_lines-text file_type crlf more inline-file_type))

-- When the boundary and every field are free of carriage returns and line feeds, the lines of the body
-- are four for each field, its value alone on the last, then the four before the file, and no value
-- starts a part of its own.
pub message_lines-multipart_body :
    (boundary : Text) (torrent : List ℕ) (fields : List (Text × Text))
    → all is_inline boundary ≡ true
    → All IsInlineField fields
    → message_lines (multipart_body boundary torrent fields)
      ≡ lines_of_fields boundary fields
        ++ (file_lines boundary ++ message_lines (torrent ++ as_bytes (body_end boundary)))
unfolding multipart_body
message_lines-multipart_body boundary torrent [] hb h =
    message_lines-file boundary (torrent ++ as_bytes (body_end boundary)) hb
message_lines-multipart_body boundary torrent (f ∷ fields) hb (hf, h) =
    message_lines-field boundary f (multipart_body boundary torrent fields) hb hf
    ∙ ap (λ ls. field_lines boundary f ++ ls)
        (message_lines-multipart_body boundary torrent fields hb h)

inline-keep_if : (t : Text) → all is_inline (keep_if is_inline t) ≡ true
inline-keep_if [] = refl
inline-keep_if (c ∷ t) = ground (arith, inline-keep_if t)

pub inline-sanitize_field : (value : Text) → all is_inline (sanitize_field value) ≡ true
unfolding sanitize_field
inline-sanitize_field value =
    all-take is_inline max_field_len (keep_if is_inline value) (inline-keep_if value)
