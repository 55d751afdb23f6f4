-- ===== src/Media/Tests.antt =====
-- The theorems on scans, uploads, backups and mirror deletion at inputs that meet their hypotheses.
use ialbum.Base.{
  ℕ, ◌+◌, ◌*◌, ◌≡◌, ◌⊎◌, ◌≢◌, All, refl, Bool, true, false, ◌&&◌, List, [], ◌∷◌, map, none, some,
  length,
}
use ialbum.Text.{Text, codes, text_eq, trim, has_prefix, join, split}
use ialbum.Storage.Path.{clean}
use ialbum.Text.Laws.{ne-of_test}
use ialbum.Time.{Time, second, hour}
use ialbum.Sql.{find, delete, select}
use ialbum.Storage
use ialbum.Storage.{Object, Page}
use ialbum.Jobs
use ialbum.Media.Types.{
  Error, no_rows, ok, err, Db, Env, Stores, Album, Binding, Media, mirror, primary_role,
  backup_role, scan_ready, image, processed, to_process,
}
use ialbum.Media.Names.{join_path, fingerprint}
use ialbum.Media.Index.{View, get_album, get_media, has_media_id}
use ialbum.Media.Mirror.{execute_mirror_delete, delete_replica, delete_if_gone}
use ialbum.Media.Mirror.Removal.{Removed, Failed}
use ialbum.Media.Mirror.Guards.{Checked, execute_mirror_delete-Checked}
use ialbum.Media.Scan.{scan, scan_with, walk_provider, walk, has_text, sweep}
use ialbum.Media.Scan.Failure.{scan_failed_keeps}
use ialbum.Media.Scan.Missing.{sweep_row}
use ialbum.Media.Albums.Change.{remove_album}
use ialbum.Media.Albums.Change.Removal.{remove_album_cases}
use ialbum.Media.Transfer.{backup}
use ialbum.Media.Transfer.Backups.{Copied, Due, backup_cases}

-- A file of a storage.
pub record File : Type 0 where
  storage : Text
  path : Text
  content : List ℕ

abbrev is_file : Text → Text → File → Bool
is_file storage path f = text_eq f.storage storage && text_eq f.path path

abbrev object : Text → List ℕ → Object
object path bytes = record {
  id = path;
  relative_path = path;
  mime_type = [];
  etag = [];
  native_checksum = [];
  size = length bytes;
  modified_at = 0;
  is_dir = false;
  range_applied = false;
}

-- Storages that are always there, over the files that they hold.
abbrev pub disks : Stores (List File)
disks = record {
  provide = λ id w. Storage.ok tt;
  validate = λ id w. Storage.ok tt;
  list_dir = λ id dir cursor n w.
      Storage.ok (record { objects = map (λ f. object f.path f.content) w; next_cursor = [] });
  stat = λ id path w. elim (find (is_file id path) w) [
    | none ↦ Storage.err Storage.not_found
    | some f ↦ Storage.ok (object path f.content)
  ];
  open_file = λ id path w. elim (find (is_file id path) w) [
    | none ↦ Storage.err Storage.not_found
    | some f ↦ Storage.ok (object path f.content, Storage.ok f.content)
  ];
  put = λ id path bytes overwrite w.
      (record { storage = id; path = path; content = bytes } ∷ w, Storage.ok (object path bytes));
  make_dir = λ id path w. (w, Storage.ok tt);
  remove = λ id path w. (delete (is_file id path) w, Storage.ok tt);
}

abbrev pub env : Env
env = record {
  new_id = λ n. (n + 65) ∷ [];
  digest = λ t. codes "v";
  lower = λ c. c;
  nfc = λ t. t;
  mirror_grace = 24 * hour;
}

abbrev album : Album
album = record {
  id = codes "A";
  name = codes "trip";
  description = [];
  cover_media_id = none;
  backup_enabled = true;
  backup_mode = mirror;
  sync_on_upload = true;
  scan_interval = some 3600;
  last_scan_at = none;
  scan_status = scan_ready;
  scan_error = none;
  generation = 1;
  created_at = 0;
  updated_at = 0;
  removed_at = none;
}

abbrev pub binds_primary : Binding
binds_primary = record {
  id = codes "b1";
  album_id = codes "A";
  storage_id = codes "P";
  role = primary_role;
  root_path = codes "in";
}

abbrev pub binds_backup : Binding
binds_backup = record {
  id = codes "b2";
  album_id = codes "A";
  storage_id = codes "B";
  role = backup_role;
  root_path = codes "out";
}

abbrev pub photo : Media
photo = record {
  id = codes "m";
  album_id = codes "A";
  relative_path = codes "x.jpg";
  normalized_path = codes "x.jpg";
  object_id = [];
  kind = image;
  mime_type = codes "image/jpeg";
  size = 2;
  modified_at = 0;
  taken_at = none;
  etag = [];
  native_checksum = [];
  source_version = codes "v";
  processing_status = processed;
  missing_scans = 0;
  first_missing_at = none;
  delete_suppressed = false;
  created_at = 0;
  updated_at = 0;
}

-- A photo that two scans have missed, first in second 10.
abbrev lost : Media
lost = record photo {
  id = codes "l";
  relative_path = codes "l.jpg";
  normalized_path = codes "l.jpg";
  missing_scans = 2;
  first_missing_at = some 10;
}

abbrev pub db : Db
db = record {
  albums = album ∷ [];
  bindings = binds_primary ∷ binds_backup ∷ [];
  media = photo ∷ lost ∷ [];
  replicas = [];
  scan_runs = [];
  uploads = [];
  jobs = [];
  tags = [];
  album_tags = [];
  issued = 0;
}

abbrev pub state : Db × List File
state = (db, record { storage = codes "P"; path = codes "in/x.jpg"; content = 1 ∷ 2 ∷ [] } ∷ [])

abbrev pub view : View
view = record { album = album; primary = some binds_primary; backup = some binds_backup }

sweep_row_example :
    find (has_media_id (codes "l")) (sweep env (20 * second) view (codes "x.jpg" ∷ []) db).media
    ≡ some (record lost { missing_scans = 3; updated_at = 20 })
unfolding find text_eq has_text
sweep_row_example =
    sweep_row env (20 * second) view (codes "x.jpg" ∷ []) db lost
      ((ne-of_test (codes "l") (codes "m") refl, tt), (tt, tt)) refl refl

execute_mirror_delete-Checked_example :
    ((execute_mirror_delete disks env (48 * hour) (codes "A") (codes "l") state).0 ≡ state)
    ⊎ ((c : Checked disks env (48 * hour) (codes "A") (codes "l") state) × (Removed disks c.backup
            c.media state
            (execute_mirror_delete disks env (48 * hour) (codes "A") (codes "l") state)
          ⊎ Failed disks c.backup c.media state
              (execute_mirror_delete disks env (48 * hour) (codes "A") (codes "l") state)))
execute_mirror_delete-Checked_example =
    execute_mirror_delete-Checked disks env (48 * hour) (codes "A") (codes "l") state

backup_cases_example :
    ((t : Time) → backup disks env t (codes "A") (codes "m") state ≡ (state, ok tt))
    ⊎ (((e : Error) × ((backup disks env second (codes "A") (codes "m") state).1 ≡ err e)
          × ((backup disks env second (codes "A") (codes "m") state).0.0 ≡ db))
        ⊎ ((d : Due disks env (codes "A") (codes "m") state) × ((backup disks env second
                (codes "A")
                (codes "m")
                state).1
              ≡ ok tt)
            × Copied disks env second d.album.primary d.target d.media state
                (backup disks env second (codes "A") (codes "m") state).0))
backup_cases_example = backup_cases disks env second (codes "A") (codes "m") state

-- The removal of a copy of the lost photo, a day and more after the first miss.
deletes_copy :
    (execute_mirror_delete disks env
      (48 * hour)
      (codes "A")
      (codes "l")
      (db, record { storage = codes "B"; path = codes "out/l.jpg"; content = [] } ∷ [])).0.1
    ≡ []
unfolding execute_mirror_delete delete_if_gone delete_replica find delete select text_eq get_album
    get_media join_path trim clean has_prefix join split fingerprint
deletes_copy = refl

-- The media of an upload of x.jpg, for which the name is taken.
abbrev pub uploaded : Media
uploaded = record photo {
  id = 66 ∷ [];
  relative_path = codes "x (1).jpg";
  normalized_path = codes "x (1).jpg";
  object_id = codes "in/x (1).jpg";
  size = 1;
  processing_status = to_process;
  created_at = 1;
  updated_at = 1;
}

remove_album_cases_example :
    ((get_album (codes "A") db ≡ err no_rows)
      × (remove_album env second (codes "A") db ≡ (db, err no_rows)))
    ⊎ (((v : View) × (get_album (codes "A") db ≡ ok v))
        × ((remove_album env second (codes "A") db).1 ≡ ok tt)
        × (get_album (codes "A") (remove_album env second (codes "A") db).0 ≡ err no_rows)
        × All
            (λ j. Jobs.is_of_album (codes "A") j ≡ true → Jobs.is_waiting j.state ≡ false)
            (remove_album env second (codes "A") db).0.jobs
        × ((other : Text)
            → other ≢ codes "A"
            → get_album other (remove_album env second (codes "A") db).0 ≡ get_album other db))
remove_album_cases_example = remove_album_cases env second (codes "A") db

-- The storages, with no directory that can be listed.
abbrev offline : Stores (List File)
offline = record disks { list_dir = λ id dir cursor n w. Storage.err Storage.transient }

scan_failed_keeps_example : (photo ∷ lost ∷ [] ≡ db.media) × ([] ≡ db.replicas) × ([] ≡ db.jobs)
unfolding scan scan_with walk_provider walk get_album find text_eq
scan_failed_keeps_example =
    scan_failed_keeps offline (record { upsert = λ k. none; rows = none }) (λ k. refl) refl env 9
      second (codes "A") 1 state refl
