-- ===== src/Media/Albums/Change.antt =====
-- internal/media/catalog.go: `UpdateAlbum`, `SetCover`, `RemoveAlbum` and `ListMedia`.
pub mod Removal
use ialbum.Base.{
  ℕ, suc, ◌+◌, Bool, true, false, not, ◌&&◌, ◌||◌, List, [], ◌∷◌, Option, none, some, if◌then◌else◌,
  ltb, leb, ◌==◌, length, take, drop,
}
use ialbum.Text.{Text, codes, text_eq, is_empty, byte_length, trim_space, itoa}
use ialbum.Time.{Time, unix}
use ialbum.Sql.{find, select, update, count, order_by}
use ialbum.Jobs
use ialbum.Media.Types.{
  Error, no_rows, invalid, Result, ok, err, ◌>>=◌, BackupMode, safe, mirror, Kind, image, Album,
  Media, Replica, ReplicaStatus, cancelled, Tag, Db, Env,
}
use ialbum.Media.Names.{normalize_tag}
use ialbum.Media.Index.{View, get_album, is_album, is_active, has_media_id}
use ialbum.Media.Mirror.{unplan, is_mirror}
use ialbum.Media.Albums.{
  UpdateInput, name_error, name_fits, read_mode, interval_fits, set_tags, has_name,
}

abbrev pub or_else {ℓ} : {A : Type ℓ} → Option A → A → A
or_else none a = a
or_else (some b) a = b

module _ (env : Env) where
  abbrev pub set_name : Option Text → Album → Result Album
  set_name none a = ok a
  set_name (some name) a =
      if name_fits (trim_space name)
      then ok (record a { name = trim_space name })
      else err name_error

  abbrev pub set_description : Option Text → Album → Result Album
  set_description none a = ok a
  set_description (some d) a =
      if ltb 2000 (byte_length d)
      then err (invalid (codes "description must not exceed 2000 characters"))
      else ok (record a { description = d })

  abbrev pub set_mode : Text → Album → Result Album
  set_mode t a = if is_empty t then ok a else elim (read_mode t) [
    | none ↦ err (invalid (codes "invalid backup mode"))
    | some m ↦ ok (record a { backup_mode = m })
  ]

  abbrev pub set_interval : Bool → Option ℕ → Album → Result Album
  set_interval true n a = ok (record a { scan_interval = none })
  set_interval false none a = ok a
  set_interval false (some n) a =
      if interval_fits (some n)
      then ok (record a { scan_interval = some n })
      else err (invalid (codes "invalid scan interval"))

  abbrev pub set_flags : UpdateInput → Album → Album
  set_flags input a = record a {
    backup_enabled = or_else input.backup_enabled a.backup_enabled;
    sync_on_upload = or_else input.sync_on_upload a.sync_on_upload;
  }

  -- The fields of the input, each with its check, in the order of the source.
  unfoldable pub change_album : UpdateInput → Album → Result Album
  change_album input album = do
    a ← set_name input.name album
    b ← set_description input.description a
    c ← set_mode input.backup_mode b
    set_interval input.clear_scan_interval input.scan_interval (set_flags input c)

  assign : ℕ → Album → Album → Album
  assign now new a = record a {
    name = new.name;
    description = new.description;
    backup_enabled = new.backup_enabled;
    backup_mode = new.backup_mode;
    sync_on_upload = new.sync_on_upload;
    scan_interval = new.scan_interval;
    updated_at = now;
  }

  abbrev pub change_tags : Time → Text → Option (List Text) → Db → Result Db
  change_tags now id none db = ok db
  change_tags now id (some tags) db = set_tags env now id tags db

  -- media_id IN (SELECT id FROM media_items WHERE album_id=?)
  abbrev pub of_album : Text → Db → Replica → Bool
  of_album id db r = ltb 0 (count (λ m. text_eq m.album_id id && text_eq m.id r.media_id) db.media)

  pub unschedule : Replica → Replica
  unschedule r = record r { delete_after = none; status = unplan r.status }

  abbrev pub call_off_deletions : Text → BackupMode → Db → Db
  call_off_deletions id mode db =
      if is_mirror mode
      then db
      else record db { replicas = update (of_album id db) unschedule db.replicas }

  -- UpdateAlbum; an error in the tags rolls the transaction back
  unfoldable pub update_album : Time → Text → UpdateInput → Db → Db × Result View
  unfolding assign unschedule
  update_album now id input db = elim (get_album id db) [
    | err e ↦ (db, err e)
    | ok view ↦ elim (change_album input view.album) [
      | err e ↦ (db, err e)
      | ok new ↦
          elim (change_tags now id input.tags
            (record db { albums = update (is_album id) (assign (unix now) new) db.albums })) [
              | err e ↦ (db, err e)
              | ok changed ↦
                  let after : Db = call_off_deletions id new.backup_mode changed in
                  (after, get_album id after)
            ]
    ]
  ]

  abbrev pub is_image : Kind → Bool
  is_image image = true
  is_image k = false

  abbrev pub is_present : Media → Bool
  is_present m = m.missing_scans == 0

  abbrev pub can_cover : Text → Text → Media → Bool
  can_cover album media m =
      has_media_id media m && text_eq m.album_id album && is_image m.kind && is_present m

  pub set_cover_of : Option Text → ℕ → Album → Album
  set_cover_of cover now a = record a { cover_media_id = cover; updated_at = now }

  abbrev pub assign_cover : Time → Text → Option Text → Db → Db
  assign_cover now album cover db = record db {
    albums = update (λ a. text_eq a.id album) (set_cover_of cover (unix now)) db.albums;
  }

  -- SetCover
  unfoldable pub set_cover : Time → Text → Text → Db → Db × Result (Unit {0})
  unfolding set_cover_of
  set_cover now album media db =
      if is_empty media
      then (assign_cover now album none db, ok tt)
      else if count (can_cover album media) db.media == 1
      then (assign_cover now album (some media) db, ok tt)
      else (db, err (invalid (codes "cover must be an available image from this album")))

  pub retire : ℕ → Album → Album
  retire now a = record a { removed_at = some now; generation = a.generation + 1; updated_at = now }

  pub cancel_replica : Replica → Replica
  cancel_replica r = record r { status = cancelled; delete_after = none }

  -- RemoveAlbum
  unfoldable pub remove_album : Time → Text → Db → Db × Result (Unit {0})
  unfolding retire cancel_replica
  remove_album now id db = if count (is_album id) db.albums == 0 then (db, err no_rows) else (
    record db {
      albums = update (is_album id) (retire (unix now)) db.albums;
      jobs = Jobs.cancel_album now id db.jobs;
      replicas = update (of_album id db) cancel_replica db.replicas;
    },
    ok tt,
  )

-- COALESCE(taken_at, modified_at)
abbrev pub shown_at : Media → ℕ
shown_at m = or_else m.taken_at m.modified_at

-- ORDER BY the time, the latest first, then by id; `before` is the order of texts in the database
abbrev pub shows_before : (Text → Text → Bool) → Media → Media → Bool
shows_before before m n =
    ltb (shown_at n) (shown_at m) || shown_at n == shown_at m && before m.id n.id

abbrev pub page_limit : ℕ → ℕ
page_limit limit = if limit == 0 || ltb 200 limit then 60 else limit

abbrev pub listed : (Text → Text → Bool) → Text → Db → List Media
listed before album db =
    order_by (shows_before before)
      (select (λ m. text_eq m.album_id album && m.missing_scans == 0) db.media)

-- ListMedia, from the offset that the cursor gives; a cursor that is not a number gives 0
unfoldable pub list_media : (Text → Text → Bool) → Text → ℕ → ℕ → Db → List Media × Text
list_media before album offset limit db =
    let rows = take (page_limit limit + 1) (drop offset (listed before album db)) in
    if ltb (page_limit limit) (length rows)
    then (take (page_limit limit) rows, itoa (offset + page_limit limit))
    else (rows, [])
