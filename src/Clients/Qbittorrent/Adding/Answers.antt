-- ===== src/Clients/Qbittorrent/Adding/Answers.antt =====
-- src/clients/qbittorrent.rs: when an upload counts as added, and what an announce can put in it.
use irc2torrent.Transports.Json.{JsonLib}
use irc2torrent.Prelude.{
  ℕ, ◌/◌, ◌%◌, zero, suc, ◌≡◌, ◌⊎◌, refl, ap, subst, arith, inl, inr, Bool, true, false, not, List,
  [], ◌∷◌, ◌++◌, Text, codes, Option, none, some, if◌then◌else◌, is_empty, trim, eq_ignore_case,
  all, all-append, Result, ok, err, Bool-cases, All, All-append,
}
use irc2torrent.Announce.{Announce}
use irc2torrent.Template.{TextTemplate}
use irc2torrent.Platforms.Http.Download.{is_success}
use irc2torrent.Clients.Qbittorrent.Version.{api_at_least}
use irc2torrent.Clients.Qbittorrent.Multipart.{
  as_bytes, hex_digit, hex_digits, boundary_of, body_end,
}
use irc2torrent.Clients.Qbittorrent.Multipart.Lines.{
  is_inline, message_lines, lines_of_fields, file_lines, IsInlineField, inline-sanitize_field,
  message_lines-multipart_body,
}
use irc2torrent.Clients.Qbittorrent.Session.{
  Request, login, Response, Server, ClientError, Call, ◌>>=◌, or_unreachable, send_authed,
}
use irc2torrent.Clients.Qbittorrent.Session.Retries.{IsSettled, send_authed-IsSettled}
use irc2torrent.Clients.Qbittorrent.Adding.{
  added_empty, QBittorrent, rendered_template, start_field, field_unless_empty, first_or,
  add_fields, AddLib, body_answer, read_answer, add_answer, parsed_file, decoded_file, upload_body,
  upload, send_file, qbt_add,
}

inline-hex_digits : (width n : ℕ) → all is_inline (hex_digits width n) ≡ true
inline-hex_digits zero n = refl
inline-hex_digits (suc width) n =
    rw
      (
        all-append is_inline (hex_digits width (n / 16)) (hex_digit (n % 16) ∷ []),
        inline-hex_digits width (n / 16),
      )
      (ground arith)

inline-boundary_of : (first second : ℕ) → all is_inline (boundary_of first second) ≡ true
unfolding boundary_of
inline-boundary_of first second =
    rw
      (
        all-append is_inline (hex_digits 16 first) (hex_digits 16 second),
        inline-hex_digits 16 first,
        inline-hex_digits 16 second,
      )
      refl

inline-rendered_template :
    (a : Announce) (t : Option TextTemplate) → all is_inline (rendered_template a t) ≡ true
unfolding rendered_template
inline-rendered_template a none = refl
inline-rendered_template a (some t) = inline-sanitize_field _

inline-field :
    (key value : Text)
    → all is_inline key ≡ true
    → all is_inline value ≡ true
    → All IsInlineField (field_unless_empty key value)
inline-field key value hk hv = elim (Bool-cases (is_empty value)) [
  | inl empty ↦ rw empty tt
  | inr full ↦ rw full ((hk, hv), tt)
]

inline-first_or :
    (fallback t : Text)
    → all is_inline fallback ≡ true
    → all is_inline t ≡ true
    → all is_inline (first_or fallback t) ≡ true
inline-first_or fallback t hf h = elim (Bool-cases (is_empty t)) [
  | inl empty ↦ rw empty hf
  | inr full ↦ rw full h
]

inline-start_field : (version : Text) → all is_inline (start_field version) ≡ true
unfolding start_field
inline-start_field version = elim (Bool-cases (api_at_least version 2 11)) [
  | inl recent ↦ rw recent refl
  | inr older ↦ rw older refl
]

inline-add_fields :
    (c : QBittorrent) (a : Announce)
    → all is_inline c.save_path ≡ true
    → all is_inline c.category ≡ true
    → All IsInlineField (add_fields c a)
unfolding add_fields
inline-add_fields c a hs hc =
    let tags = field_unless_empty (codes "tags") (rendered_template a c.tags_template) in
    let category =
      field_unless_empty (codes "category")
        (first_or c.category (rendered_template a c.category_template)) in
    (
      (inline-start_field c.api_version, refl),
      All-append IsInlineField (field_unless_empty (codes "savepath") c.save_path)
          (category ++ tags) (inline-field (codes "savepath") c.save_path refl hs)
          (All-append IsInlineField category tags
            (inline-field (codes "category")
              (first_or c.category (rendered_template a c.category_template)) refl
              (inline-first_or c.category (rendered_template a c.category_template) hc
                (inline-rendered_template a c.category_template)))
            (inline-field (codes "tags") (rendered_template a c.tags_template) refl
              (inline-rendered_template a c.tags_template))),
    )

-- Whatever an announce holds, and whatever the templates make of it, the body of an upload has four
-- lines for each field that the client meant to send, each value alone on its line, and then the file:
-- when the configured save path and category are free of carriage returns and line feeds, no release
-- can add a line of its own, and so, short of a value that is the random boundary itself, no field or
-- part either.
pub message_lines-upload :
    (lib : AddLib) (c : QBittorrent) (a : Announce) (bytes : List ℕ)
    → all is_inline c.save_path ≡ true
    → all is_inline c.category ≡ true
    → message_lines (upload_body lib c a bytes)
      ≡ lines_of_fields (boundary_of lib.random.0 lib.random.1) (add_fields c a)
        ++ (file_lines (boundary_of lib.random.0 lib.random.1)
            ++ message_lines (bytes ++ as_bytes (body_end (boundary_of lib.random.0 lib.random.1))))
unfolding upload_body
message_lines-upload lib c a bytes hs hc =
    message_lines-multipart_body (boundary_of lib.random.0 lib.random.1) bytes (add_fields c a)
      (inline-boundary_of lib.random.0 lib.random.1) (inline-add_fields c a hs hc)

-- A body that is JSON and says that no torrent was added
abbrev pub AddsNothing : JsonLib → Text → Type 0
AddsNothing json body =
    (value ids : json.Value) × (json.from_str body ≡ some value)
    × (json.field (codes "added_torrent_ids") value ≡ some ids)
    × (json.as_array ids ≡ some [])

added_empty-AddsNothing :
    (json : JsonLib) (body : Text) → added_empty json body ≡ false → ¬ AddsNothing json body
unfolding added_empty
added_empty-AddsNothing json body h (value, ids, parsed, listed, empty) =
    let is_empty : added_empty json body ≡ true = rw (parsed, listed, empty) refl in absurd cc

-- What an upload that counts as added must have met: the file was a torrent, it went out once, or
-- again after a login, and the server's answer to it is a success that does not say otherwise.
unfoldable pub IsAdded :
    AddLib → Server → QBittorrent → Text → Announce → List Request → List Request → Type 0
IsAdded lib server c file a sent out =
    (bytes : List ℕ) × (response : Response) × (body : Text) × (lib.decode_base64 file ≡ some bytes)
    × (lib.torrent_error bytes ≡ none)
    × (server out ≡ some response)
    × (is_success response.status ≡ true)
    × (response.body ≡ some body)
    × (eq_ignore_case (trim body) (codes "fails.") ≡ false)
    × ¬ AddsNothing lib.json body
    × ((out ≡ upload lib c a bytes ∷ sent)
        ⊎ (out
            ≡ upload lib c a bytes
              ∷ login c.credentials.username c.credentials.password
              ∷ upload lib c a bytes
              ∷ sent))

guard-ok :
    (b : Bool) (e : ClientError) (rest : Result ClientError (Unit {0}))
    → (if b then err e else rest) ≡ ok tt
    → (b ≡ false) × (rest ≡ ok tt)
guard-ok true e rest h = cc
guard-ok false e rest h = (refl, h)

body_answer-ok :
    (json : JsonLib) (status : ℕ) (body : Text)
    → body_answer json status body ≡ ok tt
    → (not (is_success status) ≡ false)
      × (eq_ignore_case (trim body) (codes "fails.") ≡ false)
      × (added_empty json body ≡ false)
body_answer-ok json status body h =
    let (_, later) = guard-ok _ _ _ h in
    let (success, read) = guard-ok _ _ _ later in
    let (accepted, last) = guard-ok _ _ _ read in (success, accepted, (guard-ok _ _ _ last).0)

answer-ok :
    (json : JsonLib) (status : ℕ) (o : Option Text)
    → read_answer json status (or_unreachable o) ≡ ok tt
    → (body : Text) × (o ≡ some body) × (body_answer json status body ≡ ok tt)
answer-ok json status none h = cc
answer-ok json status (some body) h = (body, refl, h)

not-false : (b : Bool) → not b ≡ false → b ≡ true
not-false true h = refl
not-false false h = cc

once_or_twice :
    (server : Server) (c : QBittorrent) (r : Request) (sent out : List Request)
    (response : Response)
    → IsSettled server c.credentials r sent (ok response, out)
    → (server out ≡ some response)
      × ((out ≡ r ∷ sent)
          ⊎ (out ≡ r ∷ login c.credentials.username c.credentials.password ∷ r ∷ sent))
unfolding IsSettled
once_or_twice server c r sent out response (h, _, inl e) = (h, inl e)
once_or_twice server c r sent out response (h, _, inr (_, _, _, _, _, _, e)) = (h, inr e)

sent-IsAdded :
    (lib : AddLib) (server : Server) (c : QBittorrent) (file : Text) (a : Announce)
    (sent out : List Request) (bytes : List ℕ) (call : Call Response)
    → lib.decode_base64 file ≡ some bytes
    → lib.torrent_error bytes ≡ none
    → IsSettled server c.credentials (upload lib c a bytes) sent call
    → (call >>= λ response later. (add_answer lib.json response, later)) ≡ (ok tt, out)
    → IsAdded lib server c file a sent out
unfolding IsAdded add_answer
sent-IsAdded lib server c file a sent out bytes (err e, o) hb ht hs h = absurd cc
sent-IsAdded lib server c file a sent out bytes (ok response, o) hb ht hs h =
    let (_, read) = guard-ok _ _ _ (ap (λ p. p.0) h) in
    let (body, hr, answered) = answer-ok lib.json response.status response.body read in
    let (success, accepted, added) = body_answer-ok lib.json response.status body answered in
    let (hs', shape) = once_or_twice server c (upload lib c a bytes) sent o response hs in
    subst (λ sent'. IsAdded lib server c file a sent sent') (ap (λ p. p.1) h)
      (
        bytes,
        response,
        body,
        hb,
        ht,
        hs',
        not-false (is_success response.status) success,
        hr,
        accepted,
        added_empty-AddsNothing lib.json body added,
        shape,
      )

module _ (lib : AddLib) (server : Server) (c : QBittorrent) (file : Text) (a : Announce)
    (sent out : List Request) where
  parsed-IsAdded :
      (bytes : List ℕ) (e : Option Text)
      → lib.decode_base64 file ≡ some bytes
      → lib.torrent_error bytes ≡ e
      → send_file lib server c a sent (parsed_file a.name bytes e) ≡ (ok tt, out)
      → IsAdded lib server c file a sent out
  parsed-IsAdded bytes none hb ht h =
      sent-IsAdded lib server c file a sent out bytes
        (send_authed server c.credentials (upload lib c a bytes) sent) hb ht
        (send_authed-IsSettled server c.credentials (upload lib c a bytes) sent) h
  parsed-IsAdded bytes (some e) hb ht h = absurd cc

  decoded-IsAdded :
      (bytes : Option (List ℕ))
      → lib.decode_base64 file ≡ bytes
      → send_file lib server c a sent (decoded_file lib a.name bytes) ≡ (ok tt, out)
      → IsAdded lib server c file a sent out
  decoded-IsAdded none hb h = absurd cc
  decoded-IsAdded (some bytes) hb h = parsed-IsAdded bytes (lib.torrent_error bytes) hb refl h

-- An upload is reported as added only when the file decoded and parsed, the server's last answer is a
-- success with a body that is neither `Fails.` nor an empty list of torrents, and the file went out
-- once, or a second time after a login.
pub qbt_add-IsAdded :
    (lib : AddLib) (server : Server) (c : QBittorrent) (file : Text) (a : Announce)
    (sent out : List Request)
    → qbt_add lib server c file a sent ≡ (ok tt, out)
    → IsAdded lib server c file a sent out
unfolding qbt_add
qbt_add-IsAdded lib server c file a sent out h =
    decoded-IsAdded lib server c file a sent out (lib.decode_base64 file) refl h
