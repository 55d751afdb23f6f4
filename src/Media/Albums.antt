-- ===== src/Media/Albums.antt =====
-- internal/media/catalog.go: albums. `CreateAlbum`, `UpdateAlbum`, `SetCover`, `RemoveAlbum`,
-- `ListMedia`, the tags and the directory of a backup.
pub mod Create
pub mod Change
pub mod Roots
use ialbum.Base.{
  ℕ, zero, suc, ◌+◌, ◌-◌, ◌*◌, Bool, true, false, not, ◌&&◌, ◌||◌, List, [], ◌∷◌, ◌++◌, Option,
  none, some, if◌then◌else◌, ltb, leb, ◌==◌, length, take, drop,
}
use ialbum.Text.{Text, codes, text_eq, is_empty, byte_length, trim_space, itoa}
use ialbum.Time.{Time, unix}
use ialbum.Sql.{find, select, update, insert, count, delete, order_by}
use ialbum.Storage
use ialbum.Storage.{Object, Page}
use ialbum.Storage.Path.{normalize_relative}
use ialbum.Jobs
use ialbum.Media.Types.{
  Error, no_rows, nil_dereference, storage_error, invalid, Result, ok, err, ◌>>=◌, BackupMode, safe,
  mirror, Role, primary_role, backup_role, scan_pending, Kind, image, Album, Binding, Media,
  Replica, ReplicaStatus, cancelled, Tag, Db, Env, Stores,
}
use ialbum.Media.Names.{base, paths_overlap, normalize_tag, join_path}
use ialbum.Media.Index.{View, get_album, is_album, is_active, enqueue_scan, has_media_id}
use ialbum.Media.Mirror.{unplan}

pub record CreateInput : Type 0 where
  pub name : Text
  pub description : Text
  pub primary_storage : Text
  pub primary_path : Text
  pub backup_storage : Text
  pub backup_path : Text
  pub backup_mode : Text
  pub tags : List Text
  pub backup_enabled : Bool
  pub sync_on_upload : Bool
  pub scan_interval : Option ℕ

pub record UpdateInput : Type 0 where
  pub name : Option Text
  pub description : Option Text
  pub backup_mode : Text
  pub tags : Option (List Text)
  pub backup_enabled : Option Bool
  pub sync_on_upload : Option Bool
  pub scan_interval : Option ℕ
  pub clear_scan_interval : Bool

abbrev pub name_error : Error
name_error = invalid (codes "album name is required and must not exceed 120 characters")

abbrev pub name_fits : Text → Bool
name_fits name = not (is_empty name || ltb 120 (byte_length name))

-- "safe" and "mirror", the empty text being left to the caller
abbrev pub read_mode : Text → Option BackupMode
read_mode t =
    if text_eq t (codes "safe")
    then some safe
    else if text_eq t (codes "mirror")
    then some mirror
    else none

abbrev pub interval_fits : Option ℕ → Bool
interval_fits none = true
interval_fits (some n) = not (ltb n 900 || ltb 604_800 n)

-- The bindings of active albums on a storage. `a.id` is a primary key, so an album's row is joined
-- once.
abbrev pub is_live : List Album → Binding → Bool
is_live albums b = ltb 0 (count (λ a. text_eq a.id b.album_id && is_active a.removed_at) albums)

abbrev pub on_storage : List Album → Text → Text → Binding → Bool
on_storage albums storage exclude b =
    text_eq b.storage_id storage && is_live albums b && not (text_eq b.album_id exclude)

module _ (env : Env) where
  unfoldable pub first_overlap : Text → List Binding → Option Binding
  first_overlap root [] = none
  first_overlap root (b ∷ bs) =
      let rest = first_overlap root bs in
      if paths_overlap env root b.root_path then some b else rest

  -- ensureNoOverlap
  unfoldable pub ensure_no_overlap : Text → Text → Text → Db → Result (Unit {0})
  ensure_no_overlap storage root exclude db =
      elim (first_overlap root (select (on_storage db.albums storage exclude) db.bindings)) [
        | none ↦ ok tt
        | some b ↦ err (invalid (codes "storage path overlaps album " ++ b.album_id))
      ]

  abbrev pub has_name : Text → Tag → Bool
  has_name normalized t = text_eq t.normalized_name normalized

  -- INSERT INTO tags ... ON CONFLICT keeps the name that is there; then its id is read.
  abbrev pub insert_tag : Time → Text → Db → Db × Text
  insert_tag now name db =
      let id = env.new_id db.issued in
      let issued : Db = record db { issued = suc db.issued } in
      elim (find (has_name (normalize_tag env name)) db.tags) [
        | some t ↦ (issued, t.id)
        | none ↦ (
          record issued {
            tags =
                insert
                  (record {
                    id = id;
                    name = name;
                    normalized_name = normalize_tag env name;
                    created_at = unix now;
                  })
                  db.tags;
          },
          id,
        )
      ]

  -- INSERT OR IGNORE INTO album_tags
  abbrev pub link_tag : Text → Db × Text → Db
  link_tag album (db, tag) =
      if ltb 0 (count (λ l. text_eq l.0 album && text_eq l.1 tag) db.album_tags)
      then db
      else record db { album_tags = insert (album, tag) db.album_tags }

  unfoldable pub add_tags : Time → Text → List Text → Db → Result Db
  add_tags now album [] db = ok db
  add_tags now album (tag ∷ tags) db =
      let name = trim_space (env.nfc tag) in
      let rest =
        add_tags now album tags
          (if is_empty name then db else link_tag album (insert_tag now name db)) in
      if not (is_empty name) && ltb 40 (byte_length name)
      then err (invalid (codes "tag must not exceed 40 characters"))
      else rest

  -- setTagsTx; an error rolls the transaction back
  unfoldable pub set_tags : Time → Text → List Text → Db → Result Db
  set_tags now album tags db =
      if ltb 20 (length tags)
      then err (invalid (codes "an album can have at most 20 tags"))
      else add_tags now album tags
          (record db { album_tags = delete (λ l. text_eq l.0 album) db.album_tags })

  pub new_album : Text → ℕ → CreateInput → BackupMode → Album
  new_album id now input mode = record {
    id = id;
    name = trim_space input.name;
    description = input.description;
    cover_media_id = none;
    backup_enabled = input.backup_enabled;
    backup_mode = mode;
    sync_on_upload = input.sync_on_upload;
    scan_interval = input.scan_interval;
    last_scan_at = none;
    scan_status = scan_pending;
    scan_error = none;
    generation = 1;
    created_at = now;
    updated_at = now;
    removed_at = none;
  }

  pub new_binding : Text → Text → Text → Role → Text → Binding
  new_binding id album storage role root = record {
    id = id;
    album_id = album;
    storage_id = storage;
    role = role;
    root_path = root;
  }

  -- The rows of a new album: the album, the binding of the primary storage, and that of the backup.
  unfoldable pub insert_rows : Time → Text → CreateInput → BackupMode → Text → Text → Db → Db
  unfolding new_album new_binding
  insert_rows now id input mode primary_path backup_path db =
      let first =
        insert
          (new_binding (env.new_id db.issued) id input.primary_storage primary_role primary_path)
          db.bindings in
      let base : Db = record db {
        albums = insert (new_album id (unix now) input mode) db.albums;
        bindings = first;
        issued = suc db.issued;
      } in
      if is_empty input.backup_storage then base else record base {
        bindings =
            insert
              (new_binding (env.new_id (suc db.issued)) id input.backup_storage backup_role
                backup_path)
              first;
        issued = suc (suc db.issued);
      }

  -- The input that passed the checks: the paths and the mode.
  pub record Checked : Type 0 where
    pub primary_path : Text
    pub backup_path : Text
    pub mode : BackupMode

  abbrev pub check_storage : CreateInput → Text → Text → Result Checked
  check_storage input primary_path backup_path =
      if is_empty input.primary_storage
      then err (invalid (codes "primary storage is required"))
      else elim (if is_empty input.backup_mode then some safe else read_mode input.backup_mode) [
        | none ↦ err (invalid (codes "invalid backup mode"))
        | some mode ↦
            if interval_fits input.scan_interval
            then ok (record { primary_path = primary_path; backup_path = backup_path; mode = mode })
            else err (invalid (codes "scan interval must be between 15 minutes and 7 days"))
      ]

  -- The checks of the input that come before everything else.
  unfoldable pub check_input : CreateInput → Result Checked
  check_input input =
      if not (name_fits (trim_space input.name))
      then err name_error
      else if ltb 2000 (byte_length input.description)
      then err (invalid (codes "description must not exceed 2000 characters"))
      else elim (normalize_relative input.primary_path) [
        | Storage.err e ↦ err (storage_error e)
        | Storage.ok primary ↦ elim (normalize_relative input.backup_path) [
          | Storage.err e ↦ err (storage_error e)
          | Storage.ok backup ↦ check_storage input primary backup
        ]
      ]
