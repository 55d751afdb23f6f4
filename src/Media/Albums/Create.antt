-- ===== src/Media/Albums/Create.antt =====
-- internal/media/catalog.go: `CreateAlbum` and `prepareBackupRoot`.
use ialbum.Base.{
  ℕ, suc, Bool, true, false, ◌&&◌, ◌||◌, List, [], ◌∷◌, Option, none, some, if◌then◌else◌, take,
}
use ialbum.Text.{Text, codes, text_eq, is_empty}
use ialbum.Time.{Time}
use ialbum.Storage
use ialbum.Storage.{Object, Page}
use ialbum.Media.Types.{storage_error, invalid, Result, ok, err, Db, Env, Stores}
use ialbum.Media.Names.{base, paths_overlap, join_path}
use ialbum.Media.Index.{View, get_album, enqueue_scan}
use ialbum.Media.Albums.{
  CreateInput, Checked, check_input, ensure_no_overlap, insert_rows, set_tags,
}

-- The JSON of the marker file: the text for an album, and the album that a text names.
pub record Marker : Type 0 where
  pub write : Text → List ℕ
  pub owner : List ℕ → Option Text

abbrev pub marker_name : Text
marker_name = codes ".ialbum-album.json"

module _ {W : Type 0} (stores : Stores W) (env : Env) (marker : Marker) where
  abbrev pub marker_path : Text → Text
  marker_path root = join_path (root ∷ marker_name ∷ [])

  abbrev pub is_marker : Text → Object → Bool
  is_marker root obj =
      text_eq obj.relative_path (marker_path root) || text_eq (base obj.relative_path) marker_name

  abbrev pub owned_by : Text → Option Text → Bool
  owned_by album none = false
  owned_by album (some a) = text_eq a album

  -- The first 4096 bytes of the marker; what fails to be read names no album.
  abbrev pub owner_of : Storage.Result (List ℕ) → Option Text
  owner_of (Storage.ok bytes) = marker.owner (take 4096 bytes)
  owner_of (Storage.err e) = none

  -- The loop over the objects of a directory that is not empty.
  unfoldable pub find_owner : Text → Text → Text → List Object → W → Result (Unit {0})
  find_owner storage root album [] w =
      err (invalid (codes "backup directory must be empty or owned by this album"))
  find_owner storage root album (o ∷ os) w =
      let rest = find_owner storage root album os w in
      if is_marker root o
      then elim (stores.open_file storage (marker_path root) w) [
        | Storage.err e ↦ err (storage_error e)
        | Storage.ok (obj, content) ↦ if owned_by album (owner_of content) then ok tt else rest
      ]
      else rest

  -- From the listing of the directory on.
  unfoldable pub claim_root : Text → Text → Text → W → W × Result (Unit {0})
  claim_root storage root album w = elim (stores.list_dir storage root [] 3 w) [
    | Storage.err e ↦ (w, err (storage_error e))
    | Storage.ok page ↦ elim (page.objects) [
      | o ∷ os ↦ (w, find_owner storage root album (o ∷ os) w)
      | [] ↦
          let (w', put) = stores.put storage (marker_path root) (marker.write album) false w in
          elim put [ Storage.err e ↦ (w', err (storage_error e)) | Storage.ok _ ↦ (w', ok tt) ]
    ]
  ]

  -- prepareBackupRoot
  unfoldable pub prepare_backup_root : Text → Text → Text → W → W × Result (Unit {0})
  prepare_backup_root storage root album w =
      let (w', made) = stores.make_dir storage root w in
      elim made [
        | Storage.err e ↦ (w', err (storage_error e))
        | Storage.ok _ ↦ claim_root storage root album w'
      ]

  -- The checks and the directory of the backup, where one is asked for.
  unfoldable pub prepare_backup : Text → CreateInput → Checked env → Db → W → W × Result (Unit {0})
  prepare_backup id input c db w =
      if is_empty input.backup_storage
      then (w, ok tt)
      else if text_eq input.backup_storage input.primary_storage
          && paths_overlap env c.primary_path c.backup_path
      then (w, err (invalid (codes "primary and backup paths overlap")))
      else elim (ensure_no_overlap env input.backup_storage c.backup_path [] db) [
        | err e ↦ (w, err e)
        | ok _ ↦ elim (stores.provide input.backup_storage w) [
          | Storage.err e ↦ (w, err (storage_error e))
          | Storage.ok _ ↦ prepare_backup_root input.backup_storage c.backup_path id w
        ]
      ]

  -- The transaction, the first scan, and the album as it is read back.
  unfoldable pub store_album :
      Time → Text → CreateInput → Checked env → Db × W → (Db × W) × Result View
  store_album now id input c (db, w) =
      elim (set_tags env now id input.tags
        (insert_rows env now id input c.mode c.primary_path c.backup_path db)) [
          | err e ↦ ((db, w), err e)
          | ok tagged ↦
              let scanned : Db = (enqueue_scan env now id true tagged).0 in
              ((scanned, w), get_album id scanned)
        ]

  -- From the directory of the primary storage on, with the id of the album.
  unfoldable pub create_checked : Time → CreateInput → Checked env → Db × W → (Db × W) × Result View
  create_checked now input c (db, w) =
      let (w', made) = stores.make_dir input.primary_storage c.primary_path w in
      let id = env.new_id db.issued in
      let named : Db = record db { issued = suc db.issued } in
      elim made [
        | Storage.err e ↦ ((db, w'), err (storage_error e))
        | Storage.ok _ ↦
            let (w'', prepared) = prepare_backup id input c named w' in
            elim prepared [
              | err e ↦ ((named, w''), err e)
              | ok _ ↦ store_album now id input c (named, w'')
            ]
      ]

  -- CreateAlbum, where no other request runs between its checks and its transaction
  unfoldable pub create_album : Time → CreateInput → Db × W → (Db × W) × Result View
  create_album now input s = elim (check_input env input) [
    | err e ↦ (s, err e)
    | ok c ↦ elim (ensure_no_overlap env input.primary_storage c.primary_path [] s.0) [
      | err e ↦ (s, err e)
      | ok _ ↦ elim (stores.provide input.primary_storage s.1) [
        | Storage.err e ↦ (s, err (storage_error e))
        | Storage.ok _ ↦ create_checked now input c s
      ]
    ]
  ]
