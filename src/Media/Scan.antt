-- ===== src/Media/Scan.antt =====
-- internal/media/catalog.go: `walkProvider` and `Scan`.
pub mod Missing
pub mod Failure
use ialbum.Base.{
  ℕ, zero, suc, ◌+◌, ◌*◌, Bool, true, false, not, ◌&&◌, ◌||◌, List, [], ◌∷◌, ◌++◌, Option, none,
  some, if◌then◌else◌, ltb, leb, ◌==◌, length,
}
use ialbum.Text.{Text, codes, text_eq, is_empty, trim_prefix}
use ialbum.Time.{Time, unix, second}
use ialbum.Sql.{find, update, select, insert, count}
use ialbum.Storage
use ialbum.Storage.{Object, Page}
use ialbum.Storage.Path.{slash}
use ialbum.Media.Types.{
  Error, no_rows, nil_dereference, storage_error, Result, ok, err, Kind, Binding, Media, Album,
  ScanRun, scan_running, scan_failed, scan_ready, scan_succeeded, Db, Env, Stores,
}
use ialbum.Media.Names.{classify, normalize_path, fingerprint}
use ialbum.Media.Index.{
  View, get_album, has_media_id, is_missing, enqueue, media_payload, upsert_object,
}
use ialbum.Media.Mirror.{is_mirror, schedule_mirror_delete}

-- The loops of `walkProvider`: a page at a time, the directory in hand first, the directories found
-- behind those that wait. `none` is fuel that ran out.
abbrev pub dirs_of : List Object → List (Text × Text)
dirs_of [] = []
dirs_of (o ∷ os) = let rest = dirs_of os in if o.is_dir then (o.relative_path, []) ∷ rest else rest

abbrev pub files_of : List Object → List Object
files_of [] = []
files_of (o ∷ os) = let rest = files_of os in if o.is_dir then rest else o ∷ rest

abbrev pub next_work : Text → Page → List (Text × Text) → List (Text × Text)
next_work dir page rest =
    if is_empty page.next_cursor
    then rest ++ dirs_of page.objects
    else (dir, page.next_cursor) ∷ (rest ++ dirs_of page.objects)

unfoldable pub walk :
    (Text → Text → Storage.Result Page)
    → ℕ
    → List (Text × Text)
    → List Object
    → Option (Storage.Result (List Object))
walk list_dir fuel [] found = some (Storage.ok found)
walk list_dir zero ((dir, cursor) ∷ rest) found = none
walk list_dir (suc fuel) ((dir, cursor) ∷ rest) found = elim (list_dir dir cursor) [
  | Storage.err e ↦ some (Storage.err e)
  | Storage.ok page ↦ walk list_dir fuel (next_work dir page rest) (found ++ files_of page.objects)
]

unfoldable pub walk_provider :
    {W : Type 0} → Stores W → ℕ → Text → Text → W → Option (Storage.Result (List Object))
unfolding walk
walk_provider stores fuel storage root w =
    walk (λ dir cursor. stores.list_dir storage dir cursor 200 w) fuel ((root, []) ∷ []) []

pub record Progress : Type 0 where
  pub db : Db
  pub seen : List Text
  pub discovered : ℕ

-- The path of an object below the album's root.
abbrev pub below : Text → Object → Text
below root obj = trim_prefix (trim_prefix obj.relative_path root) (slash ∷ [])

unfoldable pub has_text : Text → List Text → Bool
has_text t [] = false
has_text t (x ∷ xs) = text_eq x t || has_text t xs

-- Where a statement of the database fails: the upsert of an object, by the number of those before it,
-- and the query of the album's rows.
pub record Faults : Type 0 where
  pub upsert : ℕ → Option Error
  pub rows : Option Error

module _ (env : Env) (now : Time) (view : View) where
  -- The jobs of a new or changed object.
  follow_up : Text → Object → Db → Db
  follow_up media obj db =
      let payload = media_payload env view.id media in
      let thumbs : Db =
        enqueue env now (codes "thumbnail")
          (codes "thumb:" ++ (media ++ b':' ∷ fingerprint env obj)) payload now db in
      elim (view.backup) [
        | none ↦ thumbs
        | some b ↦
            if view.backup_enabled
            then enqueue env now (codes "backup")
                (codes "backup:" ++ (media ++ b':' ∷ fingerprint env obj)) payload now thumbs
            else thumbs
      ]

  -- One object of a supported kind at a path below the root.
  unfoldable pub index_object : Text → Kind → Text → Object → Progress → Progress
  unfolding follow_up
  index_object rel kind mime obj p =
      let (db, outcome) = upsert_object env now view.id rel kind mime obj p.db in
      let (changed, media) = outcome in
      record {
        db = if changed then follow_up media obj db else db;
        seen = normalize_path env rel ∷ p.seen;
        discovered = p.discovered + 1;
      }

  -- A turn of the loop over the objects, with the error that ends `Scan`.
  unfoldable pub scan_object : Faults → Binding → Object → Progress → Progress × Option Error
  unfolding index_object
  scan_object faults primary obj p = elim (classify env obj.relative_path) [
    | none ↦ (p, none)
    | some (kind, mime) ↦
        if is_empty (below primary.root_path obj)
        then (p, none)
        else elim (faults.upsert p.discovered) [
          | some e ↦ (p, some e)
          | none ↦ (index_object (below primary.root_path obj) kind mime obj p, none)
        ]
  ]

  unfoldable pub scan_objects : Faults → Binding → List Object → Progress → Progress × Option Error
  unfolding scan_object
  scan_objects faults primary [] p = (p, none)
  scan_objects faults primary (o ∷ os) p =
      let (q, stopped) = scan_object faults primary o p in
      elim stopped [ some e ↦ (q, some e) | none ↦ scan_objects faults primary os q ]

  pub reset_missing : Media → Media
  reset_missing m = record m {
    missing_scans = 0;
    first_missing_at = none;
    delete_suppressed = false;
    updated_at = unix now;
  }

  -- The first pass over the album's rows: those seen are reset.
  unfoldable pub reset_seen : List Text → List Media → Db → Db
  unfolding reset_missing
  reset_seen seen [] db = db
  reset_seen seen (m ∷ ms) db = reset_seen seen ms (
      if has_text m.normalized_path seen
      then record db { media = update (has_media_id m.id) reset_missing db.media }
      else db)

  -- COALESCE(first_missing_at, ?)
  abbrev pub coalesce : Option ℕ → ℕ → Option ℕ
  coalesce none t = some t
  coalesce (some u) t = some u

  -- `first`: the moment of the first miss, or now
  abbrev pub first_miss : Media → Time
  first_miss m = elim (m.first_missing_at) [ none ↦ now | some t ↦ t * second ]

  pub mark_missing : ℕ → ℕ → Media → Media
  mark_missing n first m = record m {
    missing_scans = n;
    first_missing_at = coalesce m.first_missing_at first;
    updated_at = unix now;
  }

  miss : Media → Db → Db
  unfolding mark_missing
  miss m db =
      let marked : Db = record db {
        media =
            update (has_media_id m.id) (mark_missing (m.missing_scans + 1) (unix (first_miss m)))
              db.media;
      } in
      elim (view.backup) [
        | none ↦ marked
        | some b ↦
            if is_mirror view.backup_mode && leb 2 (m.missing_scans + 1)
            then (schedule_mirror_delete env now view m.id (first_miss m) marked).0
            else marked
      ]

  -- The second pass: the rows read before the first, those not seen.
  unfoldable pub miss_unseen : List Text → List Media → Db → Db
  unfolding miss
  miss_unseen seen [] db = db
  miss_unseen seen (m ∷ ms) db =
      miss_unseen seen ms (if has_text m.normalized_path seen then db else miss m db)

  -- media_items WHERE album_id=?
  abbrev pub in_album : Media → Bool
  in_album m = text_eq m.album_id view.id

  -- Both passes over the album's rows as they were read.
  unfoldable pub sweep : List Text → Db → Db
  sweep seen db =
      let rows = select in_album db.media in miss_unseen seen rows (reset_seen seen rows db)

  abbrev pub covers_missing : Db → Album → Bool
  covers_missing db a = text_eq a.id view.id && elim (a.cover_media_id) [
    | none ↦ false
    | some c ↦ ltb 0 (count (λ m. text_eq m.id c && in_album m && is_missing m) db.media)
  ]

  clear_cover : Album → Album
  clear_cover a = record a { cover_media_id = none }

  abbrev pub is_run : Text → ScanRun → Bool
  is_run run r = text_eq r.id run

  set_ready : Album → Album
  set_ready a = record a {
    scan_status = scan_ready;
    scan_error = none;
    last_scan_at = some (unix now);
    updated_at = unix now;
  }

  complete_run : ℕ → ℕ → ScanRun → ScanRun
  complete_run discovered missing r = record r {
    status = scan_succeeded;
    discovered_count = discovered;
    missing_count = missing;
    completed_at = some (unix now);
  }

  -- From the query of the album's rows to the end of `Scan`.
  unfoldable pub complete_scan : Text → Progress → Db
  unfolding clear_cover set_ready complete_run
  complete_scan run p =
      let missed =
        select (λ m. not (has_text m.normalized_path p.seen)) (select in_album p.db.media) in
      let swept : Db = sweep p.seen p.db in
      let albums = update (covers_missing swept) clear_cover swept.albums in
      record swept {
        albums = update (λ a. text_eq a.id view.id) set_ready albums;
        scan_runs = update (is_run run) (complete_run p.discovered (length missed)) swept.scan_runs;
      }

  -- From the objects of a finished walk to the end of `Scan`. After an error of a statement the run
  -- stands as it was begun.
  unfoldable pub apply_scan : Faults → Text → Binding → List Object → Db → Db × Result (Unit {0})
  unfolding scan_objects complete_scan
  apply_scan faults run primary objects db =
      let (p, stopped) =
        scan_objects faults primary objects (record { db = db; seen = []; discovered = 0 }) in
      elim stopped [
        | some e ↦ (p.db, err e)
        | none ↦ elim faults.rows [ some e ↦ (p.db, err e) | none ↦ (complete_scan run p, ok tt) ]
      ]

  pub new_run : Text → ScanRun
  new_run id = record {
    id = id;
    album_id = view.id;
    status = scan_running;
    discovered_count = 0;
    missing_count = 0;
    error_message = none;
    started_at = unix now;
    completed_at = none;
  }

  pub set_running : Album → Album
  set_running a = record a { scan_status = scan_running; scan_error = none }

  abbrev pub begin_scan : Db → Db
  begin_scan db = record db {
    albums = update (λ a. text_eq a.id view.id) set_running db.albums;
    scan_runs = insert (new_run (env.new_id db.issued)) db.scan_runs;
    issued = suc db.issued;
  }

  pub set_failed : Error → Album → Album
  set_failed e a = record a {
    scan_status = scan_failed;
    scan_error = some e;
    updated_at = unix now;
  }

  pub fail_run : Error → ScanRun → ScanRun
  fail_run e r = record r {
    status = scan_failed;
    error_message = some e;
    completed_at = some (unix now);
  }

  abbrev pub fail_scan : Text → Error → Db → Db
  fail_scan run e db = record db {
    albums = update (λ a. text_eq a.id view.id) (set_failed e) db.albums;
    scan_runs = update (is_run run) (fail_run e) db.scan_runs;
  }

  -- From the record of the run on, with the outcome of the walk.
  unfoldable pub scan_with :
      Faults → Binding → Storage.Result (List Object) → Db → Db × Result (Unit {0})
  unfolding set_running new_run set_failed fail_run apply_scan
  scan_with faults primary (Storage.err e) db =
      (fail_scan (env.new_id db.issued) (storage_error e) (begin_scan db), err (storage_error e))
  scan_with faults primary (Storage.ok objects) db =
      apply_scan faults (env.new_id db.issued) primary objects (begin_scan db)

-- Scan; `none` where the walk takes more pages than `fuel`.
unfoldable pub scan :
    {W : Type 0}
    → Stores W
    → Env
    → Faults
    → ℕ
    → Time
    → Text
    → ℕ
    → Db × W
    → Option (Db × Result (Unit {0}))
scan stores env faults fuel now album_id generation (db, w) = elim (get_album album_id db) [
  | err e ↦ some (db, err e)
  | ok view ↦
      if view.generation == generation
      then elim (view.primary) [
        | none ↦ some (db, err nil_dereference)
        | some primary ↦ elim (stores.provide primary.storage_id w) [
          | Storage.err e ↦ some (db, err (storage_error e))
          | Storage.ok _ ↦ elim (walk_provider stores fuel primary.storage_id primary.root_path w) [
            | none ↦ none
            | some walked ↦ some (scan_with env now view faults primary walked db)
          ]
        ]
      ]
      else some (db, ok tt)
]
