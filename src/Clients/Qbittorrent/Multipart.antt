-- ===== src/Clients/Qbittorrent/Multipart.antt =====
-- src/clients/qbittorrent.rs: the body of an upload, in bytes.
pub mod Lines
use irc2torrent.Prelude.{
  ℕ, zero, suc, ◌+◌, ◌-◌, ◌/◌, ◌%◌, ◌==◌, Bool, not, ◌&&◌, List, [], ◌∷◌, ◌++◌, Text, codes,
  if◌then◌else◌, ltb, take, keep_if,
}

abbrev pub max_field_len : ℕ
max_field_len = 128

-- No carriage return and no line feed, and 128 characters at most
unfoldable pub sanitize_field : Text → Text
sanitize_field value = take max_field_len (keep_if (λ c. not (c == 13) && not (c == 10)) value)

-- `as_bytes`: UTF-8
abbrev pub utf8 : ℕ → List ℕ
utf8 c =
    if ltb c 128
    then c ∷ []
    else if ltb c 2048
    then (192 + c / 64) ∷ (128 + c % 64) ∷ []
    else if ltb c 65536
    then (224 + c / 4096) ∷ (128 + c / 64 % 64) ∷ (128 + c % 64) ∷ []
    else (240 + c / 262144) ∷ (128 + c / 4096 % 64) ∷ (128 + c / 64 % 64) ∷ (128 + c % 64) ∷ []

abbrev pub as_bytes : Text → List ℕ
as_bytes [] = []
as_bytes (c ∷ cs) = utf8 c ++ as_bytes cs

abbrev pub crlf : Text
crlf = 13 ∷ 10 ∷ []

-- `{:016x}`
abbrev pub hex_digit : ℕ → ℕ
hex_digit d = if ltb d 10 then 48 + d else 87 + d

abbrev pub hex_digits : ℕ → ℕ → Text
hex_digits zero n = []
hex_digits (suc width) n = hex_digits width (n / 16) ++ hex_digit (n % 16) ∷ []

unfoldable pub boundary_of : ℕ → ℕ → Text
boundary_of first second = codes "----irc2torrent" ++ hex_digits 16 first ++ hex_digits 16 second

-- The line before each part
unfoldable pub part_mark : Text → Text
part_mark boundary = codes "--" ++ boundary

-- The header of a field's part
unfoldable pub field_header : Text → Text
field_header key = codes "Content-Disposition: form-data; name=\"" ++ key ++ codes "\""

unfoldable pub file_header : Text
file_header = codes "Content-Disposition: form-data; name=\"torrents\"; filename=\"torrent\""

unfoldable pub file_type : Text
file_type = codes "Content-Type: application/x-bittorrent"

unfoldable pub field_part : Text → Text × Text → Text
field_part boundary (key, value) =
    part_mark boundary ++ (crlf ++ (field_header key ++ (crlf ++ (crlf ++ (value ++ crlf)))))

unfoldable pub file_part : Text → Text
file_part boundary =
    part_mark boundary ++ (crlf ++ (file_header ++ (crlf ++ (file_type ++ (crlf ++ crlf)))))

unfoldable pub body_end : Text → Text
body_end boundary = crlf ++ part_mark boundary ++ codes "--" ++ crlf

unfoldable pub multipart_body : Text → List ℕ → List (Text × Text) → List ℕ
multipart_body boundary torrent [] =
    as_bytes (file_part boundary) ++ (torrent ++ as_bytes (body_end boundary))
multipart_body boundary torrent (f ∷ fields) =
    as_bytes (field_part boundary f) ++ multipart_body boundary torrent fields
