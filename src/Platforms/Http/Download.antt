-- ===== src/Platforms/Http/Download.antt =====
-- src/platforms/http.rs: downloading a torrent file. The network, the disk and base64 answer as the
-- argument says; what is asked of them is a list of actions. The wording of errors is left out.
pub mod Contained
use irc2torrent.Prelude.{
  ℕ, Bool, true, false, not, ◌&&◌, List, [], ◌∷◌, ◌++◌, Text, Option, none, some, Result, ok, err,
  if◌then◌else◌, leb, ltb,
}
use irc2torrent.Announce.{Announce}
use irc2torrent.Platforms.UrlTemplate.{UrlLib, UrlTemplate, UrlError}
use irc2torrent.Platforms.UrlTemplate
use irc2torrent.Platforms.Http.{
  FilePath, sanitize_torrent_filename, join, assert_within, download_fields,
}

pub record HttpTracker : Type 0 where
  pub template : UrlTemplate
  pub rss_key : Text
  pub torrent_dir : FilePath

pub data DownloadError : Type 0 where
  bad_url : UrlError → DownloadError
  request_failed body_failed : DownloadError
  http_status : ℕ → DownloadError
  outside_directory : DownloadError
  disk_failed : DownloadError

pub data DownloadEffect : Type 0 where
  get_url : Text → DownloadEffect
  create_dir_all : FilePath → DownloadEffect
  create_file flush_file : FilePath → DownloadEffect
  write_bytes : FilePath → List ℕ → DownloadEffect

abbrev pub Answer : Type 0
Answer = Result (Unit {0}) (Unit {0})

-- A response is its status, and its body if that can be read.
pub record World : Type 0 where
  pub respond : Text → Option (ℕ × Option (List ℕ))
  pub dir_exists : FilePath → Bool
  pub disk : DownloadEffect → Answer
  pub encode : List ℕ → Text

-- `StatusCode::is_success`
abbrev pub is_success : ℕ → Bool
is_success status = leb 200 status && ltb status 300

abbrev pub Done : Type 0
Done = Result DownloadError Text × List DownloadEffect

-- An action on the disk, and what follows when it succeeds.
pub then_disk : Answer → DownloadEffect → Done → Done
then_disk (ok _) a (result, actions) = (result, a ∷ actions)
then_disk (err _) a next = (err disk_failed, a ∷ [])

unfoldable pub write_file : World → FilePath → List ℕ → Done
unfolding then_disk
write_file w path bytes = then_disk (w.disk (create_file path)) (create_file path) (
    then_disk (w.disk (write_bytes path bytes)) (write_bytes path bytes)
      (then_disk (w.disk (flush_file path)) (flush_file path) (ok (w.encode bytes), [])))

unfoldable pub write_within : World → FilePath → FilePath → List ℕ → Done
write_within w dir path bytes =
    if assert_within dir path then write_file w path bytes else (err outside_directory, [])

unfoldable pub save : World → FilePath → Text → List ℕ → Done
unfolding then_disk
save w dir file bytes =
    let written = write_within w dir (join dir file) bytes in
    if w.dir_exists dir
    then written
    else then_disk (w.disk (create_dir_all dir)) (create_dir_all dir) written

pub take_body : World → FilePath → Text → Option (List ℕ) → Done
take_body w dir file none = (err body_failed, [])
take_body w dir file (some bytes) = save w dir file bytes

pub take_response : World → FilePath → Text → Option (ℕ × Option (List ℕ)) → Done
unfolding take_body
take_response w dir file none = (err request_failed, [])
take_response w dir file (some (status, body)) =
    if not (is_success status) then (err (http_status status), []) else take_body w dir file body

abbrev pub asked : Text → Done → Done
asked url (result, actions) = (result, get_url url ∷ actions)

pub request_torrent : World → FilePath → Text → Result UrlError Text → Done
unfolding take_response
request_torrent w dir file (err e) = (err (bad_url e), [])
request_torrent w dir file (ok url) = asked url (take_response w dir file (w.respond url))

unfoldable pub download_torrent : UrlLib → World → HttpTracker → Announce → Done
unfolding request_torrent
download_torrent lib w t announce =
    let file = sanitize_torrent_filename announce.name in
    request_torrent w t.torrent_dir file
      (UrlTemplate.render lib t.template (download_fields announce file t.rss_key))
