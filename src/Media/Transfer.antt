-- ===== src/Media/Transfer.antt =====
-- internal/media/catalog.go: `Backup`, `Upload` and `availableName`.
pub mod Backups
pub mod OnDisk
pub mod Uploads
pub mod Stored
use ialbum.Base.{
  ℕ, zero, suc, ◌+◌, ◌-◌, Bool, true, false, not, ◌&&◌, ◌||◌, List, [], ◌∷◌, ◌++◌, Option, none,
  some, if◌then◌else◌, ltb, ◌==◌, length,
}
use ialbum.Text.{Text, codes, text_eq, replace_all, itoa}
use ialbum.Time.{Time, unix}
use ialbum.Sql.{find, update, insert}
use ialbum.Storage
use ialbum.Storage.{Object}
use ialbum.Storage.Path.{slash, backslash}
use ialbum.Media.Types.{
  Error, no_rows, unsupported_media, waiting_auth, nil_dereference, size_changed, version_changed,
  no_free_name, storage_error, Result, ok, err, Binding, Media, Replica, ReplicaStatus, ready,
  Upload, UploadStatus, uploading, upload_succeeded, upload_failed, Kind, Db, Env, Stores,
}
use ialbum.Media.Names.{base, ext, without_ext, classify, fingerprint, join_path}
use ialbum.Media.Index.{
  View, get_album, get_media, is_missing, enqueue, media_payload, upsert_object,
}
use ialbum.Media.Mirror.{is_replica, is_gone}

abbrev pub is_ready : ReplicaStatus → Bool
is_ready ready = true
is_ready s = false

-- The replica holds the version that the index knows.
abbrev pub is_current : Media → Replica → Bool
is_current m r = text_eq r.source_version m.source_version && is_ready r.status

abbrev pub has_current : Binding → Media → Db → Bool
has_current backup m db = elim (find (is_replica m.id backup.storage_id) db.replicas) [
  | none ↦ false
  | some r ↦ is_current m r
]

-- The error that a job returns, where authorization is missing.
abbrev pub job_error : Storage.Error → Error
job_error Storage.unauthorized = waiting_auth
job_error e = storage_error e

pub new_replica : Text → ℕ → Binding → Media → Object → Replica
new_replica id now backup m stored = record {
  id = id;
  media_id = m.id;
  storage_id = backup.storage_id;
  relative_path = m.relative_path;
  object_id = stored.id;
  source_version = m.source_version;
  status = ready;
  verified_at = some now;
  delete_after = none;
  delete_suppressed = false;
  created_at = now;
  updated_at = now;
}

pub renew : ℕ → Media → Object → Replica → Replica
renew now m stored r = record r {
  relative_path = m.relative_path;
  object_id = stored.id;
  source_version = m.source_version;
  status = ready;
  verified_at = some now;
  delete_after = none;
  delete_suppressed = false;
  updated_at = now;
}

-- INSERT INTO media_replicas ... ON CONFLICT(media_id,storage_id) DO UPDATE
unfoldable pub upsert_replica : Env → Time → Binding → Media → Object → Db → Db
unfolding new_replica renew
upsert_replica env now backup m stored db =
    elim (find (is_replica m.id backup.storage_id) db.replicas) [
      | none ↦ record db {
        replicas =
            insert (new_replica (env.new_id db.issued) (unix now) backup m stored) db.replicas;
        issued = suc db.issued;
      }
      | some r ↦ record db {
        replicas =
            update (is_replica m.id backup.storage_id) (renew (unix now) m stored) db.replicas;
        issued = suc db.issued;
      }
    ]

module _ {W : Type 0} (stores : Stores W) (env : Env) where
  -- The checks of the copy in the temporary file: its size, then the version of the source.
  abbrev pub copy_check : Media → Object → List ℕ → Option Error
  copy_check m obj bytes =
      if not (length bytes == obj.size)
      then some size_changed
      else if not (text_eq (fingerprint env obj) m.source_version)
      then some version_changed
      else none

  -- The upload of the copy to the backup storage, and the replica's row.
  unfoldable pub store_copy :
      Time → Binding → Media → List ℕ → Db × W → (Db × W) × Result (Unit {0})
  store_copy now backup m bytes (db, w) =
      let (w', put) =
        stores.put backup.storage_id (join_path (backup.root_path ∷ m.relative_path ∷ [])) bytes
          true w in
      elim put [
        | Storage.err e ↦ ((db, w'), err (job_error e))
        | Storage.ok stored ↦ ((upsert_replica env now backup m stored db, w'), ok tt)
      ]

  -- From the opening of the source on.
  unfoldable pub copy_media :
      Time → Binding → Binding → Media → Db × W → (Db × W) × Result (Unit {0})
  copy_media now primary backup m s =
      elim (stores.open_file primary.storage_id
        (join_path (primary.root_path ∷ m.relative_path ∷ [])) s.1) [
          | Storage.err e ↦ (s, err (job_error e))
          | Storage.ok (obj, content) ↦ elim content [
            | Storage.err e ↦ (s, err (storage_error e))
            | Storage.ok bytes ↦ elim (copy_check m obj bytes) [
              | some e ↦ (s, err e)
              | none ↦ store_copy now backup m bytes s
            ]
          ]
        ]

  -- The providers of the two storages.
  unfoldable pub backup_media :
      Time → Option Binding → Binding → Media → Db × W → (Db × W) × Result (Unit {0})
  backup_media now none backup m s = (s, err nil_dereference)
  backup_media now (some primary) backup m s = elim (stores.provide primary.storage_id s.1) [
    | Storage.err e ↦ (s, err (storage_error e))
    | Storage.ok _ ↦ elim (stores.provide backup.storage_id s.1) [
      | Storage.err e ↦ (s, err (storage_error e))
      | Storage.ok _ ↦ copy_media now primary backup m s
    ]
  ]

  -- Backup
  unfoldable pub backup : Time → Text → Text → Db × W → (Db × W) × Result (Unit {0})
  backup now album_id media_id s = elim (get_album album_id s.0) [
    | err e ↦ (s, err e)
    | ok album ↦ elim (album.backup) [
      | none ↦ (s, ok tt)
      | some target ↦
          if album.backup_enabled
          then elim (get_media media_id s.0) [
            | err e ↦ (s, err e)
            | ok m ↦
                if is_missing m || has_current target m s.0
                then (s, ok tt)
                else backup_media now album.primary target m s
          ]
          else (s, ok tt)
    ]
  ]

  -- "%s (%d)%s" from the second try on
  abbrev pub candidate : Text → ℕ → Text
  candidate name zero = name
  candidate name (suc i) =
      without_ext name ++ codes " (" ++ (itoa (suc i) ++ (codes ")" ++ ext name))

  -- The tries from `i` on, `left` of them.
  unfoldable pub try_names : Text → Text → Text → ℕ → ℕ → W → Result Text
  try_names storage root name i zero w = err no_free_name
  try_names storage root name i (suc left) w =
      elim (stores.stat storage (join_path (root ∷ candidate name i ∷ [])) w) [
        | Storage.ok _ ↦ try_names storage root name (suc i) left w
        | Storage.err e ↦ if is_gone stores e then ok (candidate name i) else err (storage_error e)
      ]

  -- availableName
  unfoldable pub available_name : Text → Text → Text → W → Result Text
  unfolding try_names
  available_name storage root filename =
      try_names storage root (base (replace_all filename backslash slash)) 0 10_000

  abbrev pub is_request : Text → Text → Upload → Bool
  is_request album key u = text_eq u.album_id album && text_eq u.idempotency_key key

  abbrev pub is_succeeded : UploadStatus → Bool
  is_succeeded upload_succeeded = true
  is_succeeded s = false

  abbrev pub is_done : Text → Text → Upload → Bool
  is_done album key u = is_request album key u && is_succeeded u.status

  pub new_upload : Text → ℕ → Text → Text → Text → Text → Text → ℕ → Upload
  new_upload id now album key filename target temp size = record {
    id = id;
    album_id = album;
    idempotency_key = key;
    original_filename = filename;
    target_path = target;
    temp_path = temp;
    byte_size = size;
    status = uploading;
    media_id = none;
    error_message = none;
    created_at = now;
    updated_at = now;
  }

  touch_upload : ℕ → Upload → Upload
  touch_upload now u = record u { updated_at = now }

  fail_upload : Error → ℕ → Upload → Upload
  fail_upload e now u = record u {
    status = upload_failed;
    error_message = some e;
    updated_at = now;
  }

  pub complete_upload : Text → ℕ → Upload → Upload
  complete_upload media now u = record u {
    status = upload_succeeded;
    media_id = some media;
    temp_path = [];
    updated_at = now;
  }

  -- INSERT INTO upload_requests ... ON CONFLICT(album_id,idempotency_key) DO UPDATE
  unfoldable pub begin_upload : Time → Text → Text → Text → Text → Text → ℕ → Db → Db
  unfolding new_upload touch_upload
  begin_upload now album key filename target temp size db =
      elim (find (is_request album key) db.uploads) [
        | none ↦ record db {
          uploads =
              insert
                (new_upload (env.new_id db.issued) (unix now) album key filename target temp size)
                db.uploads;
          issued = suc db.issued;
        }
        | some u ↦ record db {
          uploads = update (is_request album key) (touch_upload (unix now)) db.uploads;
          issued = suc db.issued;
        }
      ]

  abbrev pub wants_backup : View → Bool
  wants_backup v = elim (v.backup) [ none ↦ false | some b ↦ v.backup_enabled && v.sync_on_upload ]

  -- The jobs behind an upload.
  unfoldable pub enqueue_uploaded : Time → View → Text → Object → Db → Db
  enqueue_uploaded now v media obj db =
      let thumbs : Db =
        enqueue env now (codes "thumbnail")
          (codes "thumb:" ++ (media ++ b':' ∷ fingerprint env obj)) (media_payload env v.id media)
          now db in
      if wants_backup v
      then enqueue env now (codes "backup")
          (codes "backup:" ++ (media ++ b':' ∷ fingerprint env obj)) (media_payload env v.id media)
          now thumbs
      else thumbs

  -- The rows of an object that was stored: the media, the request, the jobs.
  unfoldable pub record_upload : Time → View → Text → Text → Kind → Text → Object → Db → Db × Text
  unfolding complete_upload
  record_upload now v key target kind mime stored db =
      let obj : Object = record stored { relative_path = target } in
      let (indexed, outcome) = upsert_object env now v.id target kind mime obj db in
      let done : Db = record indexed {
        uploads =
            update (is_request v.id key) (complete_upload (outcome.1) (unix now)) indexed.uploads;
      } in
      (enqueue_uploaded now v (outcome.1) obj done, outcome.1)

  -- From the request's row on: the object is stored where no object is, and indexed.
  unfoldable pub store_upload :
      Time
      → View
      → Binding
      → Text
      → Text
      → Text
      → Text
      → List ℕ
      → Kind
      → Text
      → Db × W
      → (Db × W) × Result Media
  unfolding fail_upload
  store_upload now v primary key filename target temp bytes kind mime (db, w) =
      let begun = begin_upload now v.id key filename target temp (length bytes) db in
      let (w', put) =
        stores.put primary.storage_id (join_path (primary.root_path ∷ target ∷ [])) bytes false w in
      elim put [
        | Storage.err e ↦ (
          (
            record begun {
              uploads =
                  update (is_request v.id key) (fail_upload (storage_error e) (unix now))
                    begun.uploads;
            },
            w',
          ),
          err (storage_error e),
        )
        | Storage.ok stored ↦
            let (indexed, media) = record_upload now v key target kind mime stored begun in
            ((indexed, w'), get_media media indexed)
      ]

  -- From the album on, with a request that is not done.
  unfoldable pub upload_new :
      Time → Text → Text → Text → Text → List ℕ → Kind → Text → Db × W → (Db × W) × Result Media
  upload_new now album_id key filename temp bytes kind mime s = elim (get_album album_id s.0) [
    | err e ↦ (s, err e)
    | ok v ↦ elim (v.primary) [
      | none ↦ (s, err nil_dereference)
      | some primary ↦ elim (stores.provide primary.storage_id s.1) [
        | Storage.err e ↦ (s, err (storage_error e))
        | Storage.ok _ ↦
            elim (available_name primary.storage_id primary.root_path (base filename) s.1) [
              | err e ↦ (s, err e)
              | ok target ↦ store_upload now v primary key filename target temp bytes kind mime s
            ]
      ]
    ]
  ]

  -- The media of the request, where it is done.
  abbrev pub done_media : Text → Text → Db → Option Text
  done_media album key db = elim (find (is_done album key) db.uploads) [
    | none ↦ none
    | some u ↦ u.media_id
  ]

  -- Upload, of a temporary file with these bytes
  unfoldable pub upload :
      Time → Text → Text → Text → Text → List ℕ → Db × W → (Db × W) × Result Media
  upload now album_id filename temp key bytes s = elim (done_media album_id key s.0) [
    | some media ↦ (s, get_media media s.0)
    | none ↦ elim (classify env filename) [
      | none ↦ (s, err unsupported_media)
      | some (kind, mime) ↦ upload_new now album_id key filename temp bytes kind mime s
    ]
  ]
