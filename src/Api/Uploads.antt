-- ===== src/Api/Uploads.antt =====
-- internal/api/handlers_media.go, `handleUpload`: the form of an upload, and its file within the limit.
pub mod Cases
pub mod Served
mod Tests
use ialbum.Base.{
  ℕ, ◌+◌, Bool, true, false, not, ◌||◌, List, [], ◌∷◌, Option, none, some, if◌then◌else◌, ltb,
  length, take,
}
use ialbum.Text.{Text, codes, text_eq, is_empty, byte_length, replace_all, trim_space}
use ialbum.Time.{Time}
use ialbum.Storage.Path.{slash, backslash}
use ialbum.Media.Types.{
  Error, unsupported_media, nil_dereference, Result, ok, err, Media, Db, Env, Stores,
}
use ialbum.Media.Names.{base}
use ialbum.Media.Transfer.{upload}

-- A part of the form: its names, the bytes that can be copied of it, and whether the copy breaks off
-- behind them, where a read of the part or a write to the temporary file fails.
pub record Part : Type 0 where
  pub form_name : Text
  pub file_name : Text
  pub bytes : List ℕ
  pub breaks : Bool

-- The body: whether it is a form of parts, its parts, and whether the search for a next part fails
-- behind them, as it does behind the limit of `MaxBytesReader`.
pub record Form : Type 0 where
  pub is_multipart : Bool
  pub parts : List Part
  pub breaks : Bool

-- The temporary file: its path, if it can be made, and whether Close fails.
pub record TempFile : Type 0 where
  pub path : Option Text
  pub close_fails : Bool

pub data Reply : Type 0 where
  created : Media → Reply
  refused : ℕ → Text → Reply
  panicked : Reply

abbrev pub is_file : Part → Bool
is_file p = text_eq p.form_name (codes "file")

pub data Found : Type 0 where
  no_file broken_form : Found
  file_part : Part → Found

-- The loop over the parts.
unfoldable pub find_file : List Part → Bool → Found
find_file [] breaks = if breaks then broken_form else no_file
find_file (p ∷ ps) breaks =
    let rest = find_file ps breaks in if is_file p then file_part p else rest

pub data CopyError : Type 0 where
  too_large broken_copy : CopyError

-- copyLimited: what is written, and the error
unfoldable pub copy_limited : ℕ → Part → List ℕ × Option CopyError
copy_limited max p =
    if ltb max (length p.bytes)
    then (take (max + 1) p.bytes, some too_large)
    else (p.bytes, if p.breaks then some broken_copy else none)

abbrev pub name_of : Part → Text
name_of p = base (replace_all p.file_name backslash slash)

abbrev pub upload_failed : Text
upload_failed = codes "upload_failed"

-- The answer to what `Upload` returns.
unfoldable pub reply_to : Result Media → Reply
reply_to (ok m) = created m
reply_to (err unsupported_media) = refused 415 (codes "unsupported_media")
reply_to (err nil_dereference) = panicked
reply_to (err e) = refused 422 upload_failed

-- What is no idempotency key.
abbrev pub is_bad_key : Text → Bool
is_bad_key key = is_empty key || ltb 200 (byte_length key)

module _ {W : Type 0} (stores : Stores W) (env : Env) where
  -- From the copy of the file on.
  unfoldable pub upload_part :
      ℕ → Time → Text → Text → Text → TempFile → Part → Db × W → (Db × W) × Reply
  unfolding copy_limited
  upload_part max now album key tmp temp p s =
      if is_empty (name_of p)
      then (s, refused 422 (codes "file_required"))
      else let (written, error) = copy_limited max p in
        elim error [
          | some too_large ↦ (s, refused 413 upload_failed)
          | some broken_copy ↦ (s, refused 500 upload_failed)
          | none ↦
              if temp.close_fails
              then (s, refused 500 upload_failed)
              else let (s', r) = upload stores env now album (name_of p) tmp key written s in
                (s', reply_to r)
        ]

  -- From the temporary file on.
  unfoldable pub upload_form : ℕ → Time → Text → Text → Form → TempFile → Db × W → (Db × W) × Reply
  unfolding find_file
  upload_form max now album key form temp s = elim (temp.path) [
    | none ↦ (s, refused 500 (codes "temp_file_failed"))
    | some tmp ↦ elim (find_file form.parts form.breaks) [
      | broken_form ↦ (s, refused 400 upload_failed)
      | no_file ↦ (s, refused 422 (codes "file_required"))
      | file_part p ↦ upload_part max now album key tmp temp p s
    ]
  ]

  -- handleUpload, with MaxUploadBytes and the header Idempotency-Key
  unfoldable pub handle_upload :
      ℕ → Time → Text → Text → Form → TempFile → Db × W → (Db × W) × Reply
  handle_upload max now album header form temp s =
      let key = trim_space header in
      if is_bad_key key
      then (s, refused 422 (codes "idempotency_key_required"))
      else if not form.is_multipart
      then (s, refused 400 (codes "invalid_multipart"))
      else upload_form max now album key form temp s
