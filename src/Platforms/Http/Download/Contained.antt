-- ===== src/Platforms/Http/Download/Contained.antt =====
-- src/platforms/http.rs: where a download writes, and what a successful one has done.
use irc2torrent.Prelude.{
  ℕ, ◌≡◌, refl, ap, true, inl, inr, List, [], ◌∷◌, ◌++◌, Text, Option, none, some, Result, ok, err,
  Bool-cases, All,
}
use irc2torrent.Announce.{Announce}
use irc2torrent.Platforms.UrlTemplate.{UrlLib, UrlTemplate, UrlError}
use irc2torrent.Platforms.UrlTemplate
use irc2torrent.Platforms.Http.{
  FilePath, parent, join, assert_within, sanitize_torrent_filename, download_fields,
}
use irc2torrent.Platforms.Http.Names.{assert_within-sanitize}
use irc2torrent.Platforms.Http.Download.{
  HttpTracker, DownloadEffect, get_url, create_dir_all, create_file, flush_file, write_bytes,
  Answer, World, is_success, Done, then_disk, write_file, write_within, save, take_body,
  take_response, asked, request_torrent, download_torrent,
}

-- What is done to the disk is done to the directory, or to a file that is a direct child of it.
abbrev pub IsInside : FilePath → DownloadEffect → Type 0
IsInside dir (get_url url) = Unit
IsInside dir (create_dir_all path) = path ≡ dir
IsInside dir (create_file path) = parent path ≡ some dir
IsInside dir (flush_file path) = parent path ≡ some dir
IsInside dir (write_bytes path bytes) = parent path ≡ some dir

-- A success ends with the creation, the writing and the flushing of one file, each of which
-- succeeded, and answers with what was written.
abbrev pub IsWritten : World → FilePath → List ℕ → Done → Type 0
IsWritten w path bytes (err e, effects) = Unit
IsWritten w path bytes (ok text, effects) =
    (before : List DownloadEffect) × (text ≡ w.encode bytes)
    × (effects ≡ before ++ (create_file path ∷ write_bytes path bytes ∷ flush_file path ∷ []))
    × (w.disk (create_file path) ≡ ok tt)
    × (w.disk (write_bytes path bytes) ≡ ok tt)
    × (w.disk (flush_file path) ≡ ok tt)

-- Both of these.
abbrev pub IsSaved : World → FilePath → FilePath → List ℕ → Done → Type 0
IsSaved w dir path bytes done = All (IsInside dir) done.1 × IsWritten w path bytes done

-- What a success has saved is the body of a response that was a success.
abbrev pub IsTaken : World → FilePath → FilePath → Option (ℕ × Option (List ℕ)) → Done → Type 0
IsTaken w dir path response (err e, effects) = All (IsInside dir) effects
IsTaken w dir path response (ok text, effects) =
    (status : ℕ) × (bytes : List ℕ) × (response ≡ some (status, some bytes))
    × (is_success status ≡ true)
    × (IsSaved w dir path bytes (ok text, effects))

-- And that response is the one to the URL that was rendered.
abbrev pub IsSound : World → FilePath → FilePath → Result UrlError Text → Done → Type 0
IsSound w dir path rendered (err e, effects) = All (IsInside dir) effects
IsSound w dir path rendered (ok text, effects) =
    (url : Text) × (rendered ≡ ok url) × (IsTaken w dir path (w.respond url) (ok text, effects))

module _ (w : World) (dir path : FilePath) (child : parent path ≡ some dir) where
  write_file-IsSaved : (bytes : List ℕ) → IsSaved w dir path bytes (write_file w path bytes)
  unfolding write_file then_disk
  write_file-IsSaved bytes =
      go (w.disk (create_file path)) refl (w.disk (write_bytes path bytes)) refl
        (w.disk (flush_file path)) refl
    where
      go :
          (a : Answer)
          → w.disk (create_file path) ≡ a
          → (b : Answer) → w.disk (write_bytes path bytes) ≡ b
          → (c : Answer) → w.disk (flush_file path) ≡ c
          → IsSaved w dir path bytes (
              then_disk a (create_file path) (
                then_disk b
                  (write_bytes path bytes)
                  (then_disk c (flush_file path) (ok (w.encode bytes), []))))
      go (err _) p b q c r = ((child, tt), tt)
      go (ok _) p (err _) q c r = ((child, (child, tt)), tt)
      go (ok _) p (ok _) q (err _) r = ((child, (child, (child, tt))), tt)
      go (ok _) p (ok _) q (ok _) r = ((child, (child, (child, tt))), ([], refl, refl, p, q, r))

  write_within-IsSaved : (bytes : List ℕ) → IsSaved w dir path bytes (write_within w dir path bytes)
  unfolding write_within
  write_within-IsSaved bytes = elim (Bool-cases (assert_within dir path)) [
    | inl e ↦ rw e (write_file-IsSaved bytes)
    | inr e ↦ rw e (tt, tt)
  ]

  -- One more effect inside the directory before the rest.
  then-IsSaved :
      (bytes : List ℕ) (answer : Answer) (a : DownloadEffect) (done : Done)
      → IsInside dir a
      → IsSaved w dir path bytes done
      → IsSaved w dir path bytes (then_disk answer a done)
  unfolding then_disk
  then-IsSaved bytes (err _) a done inside h = ((inside, tt), tt)
  then-IsSaved bytes (ok _) a (err e, effects) inside h = ((inside, h.0), tt)
  then-IsSaved bytes (ok _) a (ok text, effects) inside
        (all_inside, (before, same, form, p, q, r)) =
      ((inside, all_inside), (a ∷ before, same, ap (◌∷◌ a) form, p, q, r))

module _ (w : World) (dir : FilePath) (file : Text)
    (child : parent (join dir file) ≡ some dir) where
  save-IsSaved : (bytes : List ℕ) → IsSaved w dir (join dir file) bytes (save w dir file bytes)
  unfolding save
  save-IsSaved bytes =
      let written = write_within-IsSaved w dir (join dir file) child bytes in
      elim (Bool-cases (w.dir_exists dir)) [
        | inl e ↦ rw e written
        | inr e ↦ rw e (
            then-IsSaved w dir (join dir file) child bytes (w.disk (create_dir_all dir))
              (create_dir_all dir) (write_within w dir (join dir file) bytes) refl written)
      ]

  saved-IsTaken :
      (status : ℕ) (bytes : List ℕ) (done : Done)
      → is_success status ≡ true
      → IsSaved w dir (join dir file) bytes done
      → IsTaken w dir (join dir file) (some (status, some bytes)) done
  saved-IsTaken status bytes (err e, effects) success h = h.0
  saved-IsTaken status bytes (ok text, effects) success h = (status, bytes, refl, success, h)

  take_response-IsTaken :
      (response : Option (ℕ × Option (List ℕ)))
      → IsTaken w dir (join dir file) response (take_response w dir file response)
  unfolding take_response take_body
  take_response-IsTaken none = tt
  take_response-IsTaken (some (status, none)) = elim (Bool-cases (is_success status)) [
    | inl e ↦ rw e tt
    | inr e ↦ rw e tt
  ]
  take_response-IsTaken (some (status, some bytes)) = elim (Bool-cases (is_success status)) [
    | inl e ↦
        let taken = saved-IsTaken status bytes (save w dir file bytes) e (save-IsSaved bytes) in
        rw e taken
    | inr e ↦ rw e tt
  ]

  asked-IsSound :
      (url : Text) (done : Done)
      → IsTaken w dir (join dir file) (w.respond url) done
      → IsSound w dir (join dir file) (ok url) (asked url done)
  asked-IsSound url (err e, effects) inside = (tt, inside)
  asked-IsSound url (ok text, effects)
        (status, bytes, answered, success, (inside, (before, same, form, p, q, r))) =
      (
        url,
        refl,
        (
          status,
          bytes,
          answered,
          success,
          ((tt, inside), (get_url url ∷ before, same, ap (◌∷◌ (get_url url)) form, p, q, r)),
        ),
      )

  request_torrent-IsSound :
      (rendered : Result UrlError Text)
      → IsSound w dir (join dir file) rendered (request_torrent w dir file rendered)
  unfolding request_torrent
  request_torrent-IsSound (err e) = tt
  request_torrent-IsSound (ok url) =
      asked-IsSound url (take_response w dir file (w.respond url))
        (take_response-IsTaken (w.respond url))

-- Whatever the release is called and whatever the tracker and the disk answer, a download touches
-- nothing on the disk but the torrent directory itself and one direct child of it; and a success means
-- that the URL was rendered, that the response to it was a success with a body, that the file was
-- created, written with exactly that body, and flushed, each without an error, and that the result is
-- the encoding of that body.
pub download_torrent-IsSound :
    (lib : UrlLib) (w : World) (t : HttpTracker) (a : Announce)
    → IsSound w t.torrent_dir
        (join t.torrent_dir (sanitize_torrent_filename a.name))
        (UrlTemplate.render lib t.template
          (download_fields a (sanitize_torrent_filename a.name) t.rss_key))
        (download_torrent lib w t a)
unfolding download_torrent
download_torrent-IsSound lib w t a =
    let file = sanitize_torrent_filename a.name in
    request_torrent-IsSound w t.torrent_dir file (assert_within-sanitize t.torrent_dir a.name).0
      (UrlTemplate.render lib t.template (download_fields a file t.rss_key))
