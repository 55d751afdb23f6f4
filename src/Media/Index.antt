-- ===== src/Media/Index.antt =====
-- internal/media/catalog.go: the index in the database. Album and media rows, `upsertObject`, and
-- the scans that are enqueued.
use ialbum.Base.{
  ℕ, suc, ◌+◌, ◌*◌, ◌/◌, Bool, true, false, not, ◌&&◌, List, [], ◌∷◌, ◌++◌, Option, none, some,
  if◌then◌else◌, ltb,
}
use ialbum.Text.{Text, codes, text_eq, itoa}
use ialbum.Time.{Time, unix, second, minute}
use ialbum.Sql.{find, select, update, insert}
use ialbum.Storage.{Object}
use ialbum.Jobs
use ialbum.Jobs.{Payload}
use ialbum.Media.Types.{
  no_rows, nil_dereference, Result, ok, err, ◌>>=◌, or_no_rows, Role, primary_role, backup_role,
  Kind, to_process, Album, Binding, Media, Db, Env,
}
use ialbum.Media.Names.{fingerprint, normalize_path}

abbrev pub is_active : Option ℕ → Bool
is_active none = true
is_active (some t) = false

-- albums WHERE id=? AND removed_at IS NULL
abbrev pub is_album : Text → Album → Bool
is_album id a = text_eq a.id id && is_active a.removed_at

abbrev pub is_primary : Role → Bool
is_primary primary_role = true
is_primary backup_role = false

abbrev pub binds : Bool → Text → Binding → Bool
binds primary album b =
    text_eq b.album_id album && (if primary then is_primary b.role else not (is_primary b.role))

-- What `GetAlbum` reads: the row and its bindings. Tags and the count of media are not modelled.
pub record View : Type 0 where
  pub album : Album
  pub open album use *
  pub primary : Option Binding
  pub backup : Option Binding

unfoldable pub get_album : Text → Db → Result View
get_album id db = do
  album ← or_no_rows (find (is_album id) db.albums)
  ok (record {
    album = album;
    primary = find (binds true id) db.bindings;
    backup = find (binds false id) db.bindings;
  })

-- `album.Primary`, a pointer that is nil where there is no such binding
abbrev pub deref {ℓ} : {A : Type ℓ} → Option A → Result A
deref none = err nil_dereference
deref (some a) = ok a

abbrev pub has_media_id : Text → Media → Bool
has_media_id id m = text_eq m.id id

unfoldable pub get_media : Text → Db → Result Media
get_media id db = or_no_rows (find (has_media_id id) db.media)

abbrev pub is_missing : Media → Bool
is_missing m = ltb 0 m.missing_scans

module _ (env : Env) where
  -- `queue.Enqueue`, with a new id.
  unfoldable pub enqueue : Time → Text → Text → Payload → Time → Db → Db
  enqueue now kind dedupe payload run_at db = record db {
    jobs = (Jobs.enqueue (env.new_id db.issued) now kind dedupe payload run_at db.jobs).0;
    issued = suc db.issued;
  }

  abbrev pub media_payload : Text → Text → Payload
  media_payload album media = record {
    album_id = some album;
    media_id = some media;
    generation = none;
  }

  abbrev pub at_path : Text → Text → Media → Bool
  at_path album path m = text_eq m.album_id album && text_eq m.normalized_path path

  unfoldable pub new_media : Text → ℕ → Text → Text → Kind → Text → Object → Media
  new_media id now album rel kind mime obj = record {
    id = id;
    album_id = album;
    relative_path = rel;
    normalized_path = normalize_path env rel;
    object_id = obj.id;
    kind = kind;
    mime_type = mime;
    size = obj.size;
    modified_at = unix obj.modified_at;
    taken_at = none;
    etag = obj.etag;
    native_checksum = obj.native_checksum;
    source_version = fingerprint env obj;
    processing_status = to_process;
    missing_scans = 0;
    first_missing_at = none;
    delete_suppressed = false;
    created_at = now;
    updated_at = now;
  }

  unfoldable pub refresh : ℕ → Text → Kind → Text → Object → Media → Media
  refresh now rel kind mime obj m = record m {
    relative_path = rel;
    object_id = obj.id;
    kind = kind;
    mime_type = mime;
    size = obj.size;
    modified_at = unix obj.modified_at;
    etag = obj.etag;
    native_checksum = obj.native_checksum;
    source_version = fingerprint env obj;
    processing_status =
        if text_eq m.source_version (fingerprint env obj) then m.processing_status else to_process;
    missing_scans = 0;
    first_missing_at = none;
    updated_at = now;
  }

  -- upsertObject: whether the object is new or changed, and the id of its row.
  unfoldable pub upsert_object : Time → Text → Text → Kind → Text → Object → Db → Db × (Bool × Text)
  unfolding new_media refresh
  upsert_object now album rel kind mime obj db =
      elim (find (at_path album (normalize_path env rel)) db.media) [
        | none ↦
            let id = env.new_id db.issued in
            (
              record db {
                media = insert (new_media id (unix now) album rel kind mime obj) db.media;
                issued = suc db.issued;
              },
              (true, id),
            )
        | some old ↦ (
          record db {
            media = update (has_media_id old.id) (refresh (unix now) rel kind mime obj) db.media;
          },
          (not (text_eq old.source_version (fingerprint env obj)), old.id),
        )
      ]

  -- EnqueueScan
  unfoldable pub enqueue_scan : Time → Text → Bool → Db → Db × Result (Unit {0})
  unfolding enqueue
  enqueue_scan now album immediate db = elim (find (is_album album) db.albums) [
    | none ↦ (db, err no_rows)
    | some a ↦
        let run_at : Time = if immediate then now else now + minute in
        (
          enqueue now (codes "scan")
              (codes "scan:"
                ++ (album ++ b':' ∷ (itoa a.generation ++ b':' ∷ itoa (unix run_at / 60))))
              (record { album_id = some album; media_id = none; generation = some a.generation })
              run_at db,
          ok tt,
        )
  ]

  -- last.Add(interval seconds).Before(now), or never scanned
  abbrev pub scan_due : Time → Option ℕ → ℕ → Bool
  scan_due now none interval = true
  scan_due now (some last) interval = ltb (last * second + interval * second) now

  abbrev pub is_due_album : Time → Album → Bool
  is_due_album now a = is_active a.removed_at && elim (a.scan_interval) [
    | none ↦ false
    | some interval ↦ scan_due now a.last_scan_at interval
  ]

  enqueue_each : Time → List Album → Db → Db
  unfolding enqueue_scan
  enqueue_each now [] db = db
  enqueue_each now (a ∷ as') db = enqueue_each now as' (enqueue_scan now a.id true db).0

  -- ScheduleDueScans
  unfoldable pub schedule_due_scans : Time → Db → Db
  unfolding enqueue_each
  schedule_due_scans now db = enqueue_each now (select (is_due_album now) db.albums) db
