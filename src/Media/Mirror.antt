-- ===== src/Media/Mirror.antt =====
-- internal/media/catalog.go: the mirror deletion of replicas, its schedule, cancellation and
-- resumption.
pub mod Removal
pub mod Guards
use ialbum.Base.{
  ℕ, ◌+◌, ◌-◌, ◌*◌, Bool, true, false, not, ◌&&◌, ◌||◌, [], ◌∷◌, ◌++◌, Option, none, some,
  if◌then◌else◌, ltb, leb, ◌==◌,
}
use ialbum.Text.{Text, codes, text_eq}
use ialbum.Time.{Time, unix, second}
use ialbum.Sql.{find, update}
use ialbum.Storage
use ialbum.Jobs
use ialbum.Media.Types.{
  Error, no_rows, nil_dereference, storage_error, Result, ok, err, ◌>>=◌, or_no_rows, from_storage,
  BackupMode, safe, mirror, Binding, Media, Replica, ReplicaStatus, ready, pending_delete, deleted,
  Db, Env, Stores,
}
use ialbum.Media.Names.{join_path}
use ialbum.Media.Index.{View, get_album, get_media, deref, has_media_id, enqueue, media_payload}

-- "mirror-delete:" + mediaID
abbrev pub mirror_key : Text → Text
mirror_key media = codes "mirror-delete:" ++ media

abbrev pub is_mirror : BackupMode → Bool
is_mirror mirror = true
is_mirror safe = false

abbrev pub is_replica : Text → Text → Replica → Bool
is_replica media storage r = text_eq r.media_id media && text_eq r.storage_id storage

-- CASE WHEN status='pending-delete' THEN 'ready' ELSE status END
abbrev pub unplan : ReplicaStatus → ReplicaStatus
unplan pending_delete = ready
unplan s = s

pub plan_delete : ℕ → ℕ → Replica → Replica
plan_delete now at r = record r {
  status = pending_delete;
  delete_after = some at;
  updated_at = now;
}

-- executeAt: `first` plus the grace, but not in the past
abbrev pub execute_at : Time → Time → Time
execute_at now at = if ltb at now then now else at

unfoldable pub schedule_on : Env → Time → View → Binding → Text → Time → Db → Db
unfolding plan_delete
schedule_on env now album backup media first db =
    let at : Time = execute_at now (first + env.mirror_grace) in
    enqueue env now (codes "mirror-delete") (mirror_key media) (media_payload env album.id media) at
      (record db {
        replicas =
            update (is_replica media backup.storage_id) (plan_delete (unix now) (unix at))
              db.replicas;
      })

-- A row that is not there leaves `suppressed` at 0.
abbrev pub is_suppressed : Option Media → Bool
is_suppressed none = false
is_suppressed (some m) = m.delete_suppressed

-- scheduleMirrorDelete. `album.Backup` is dereferenced once the deletion is not suppressed.
unfoldable pub schedule_mirror_delete :
    Env → Time → View → Text → Time → Db → Db × Result (Unit {0})
unfolding schedule_on
schedule_mirror_delete env now album media first db =
    if is_suppressed (find (has_media_id media) db.media)
    then (db, ok tt)
    else elim (album.backup) [
      | none ↦ (db, err nil_dereference)
      | some backup ↦ (schedule_on env now album backup media first db, ok tt)
    ]

suppress : Bool → Media → Media
suppress b m = record m { delete_suppressed = b }

call_off : Replica → Replica
call_off r = record r { delete_suppressed = true; delete_after = none; status = unplan r.status }

cancel_job : ℕ → Jobs.Job → Jobs.Job
cancel_job now j = record j { state = Jobs.State.cancelled; lease_until = none; updated_at = now }

abbrev pub has_waiting_key : Text → Jobs.Job → Bool
has_waiting_key key j = Jobs.has_key key j && Jobs.is_waiting j.state

-- CancelMirrorDelete
unfoldable pub cancel_mirror_delete : Time → Text → Db → Db
unfolding suppress call_off cancel_job
cancel_mirror_delete now media db = record db {
  media = update (has_media_id media) (suppress true) db.media;
  replicas = update (λ r. text_eq r.media_id media) call_off db.replicas;
  jobs = update (has_waiting_key (mirror_key media)) (cancel_job (unix now)) db.jobs;
}

-- ResumeMirrorDelete
unfoldable pub resume_mirror_delete : Env → Time → Text → Db → Db × Result (Unit {0})
unfolding suppress
resume_mirror_delete env now media db =
    let freed : Db = record db { media = update (has_media_id media) (suppress false) db.media } in
    elim (do m ← get_media media freed; get_album m.album_id freed) [
      | err e ↦ (freed, err e)
      | ok album ↦ schedule_mirror_delete env now album media (now - env.mirror_grace) freed
    ]

-- first.Add(grace) is past
abbrev pub grace_over : Env → Time → Option ℕ → Bool
grace_over env now none = false
grace_over env now (some first) = not (ltb now (first * second + env.mirror_grace))

-- The row's part of the guard of `executeMirrorDelete`.
abbrev pub may_delete : Env → Time → Media → Bool
may_delete env now m =
    leb 2 m.missing_scans && not m.delete_suppressed && grace_over env now m.first_missing_at

pub mark_deleted : ℕ → Replica → Replica
mark_deleted now r = record r { status = deleted; delete_after = none; updated_at = now }

module _ {W : Type 0} (stores : Stores W) where
  abbrev pub is_gone : Storage.Error → Bool
  is_gone Storage.not_found = true
  is_gone e = false

  -- The removal of the backup's object and the mark on the replica.
  unfoldable pub delete_replica : Time → Binding → Media → Db × W → (Db × W) × Result (Unit {0})
  unfolding mark_deleted
  delete_replica now backup m (db, w) =
      let (w', removed) =
        stores.remove backup.storage_id (join_path (backup.root_path ∷ m.relative_path ∷ [])) w in
      let marked : (Db × W) × Result (Unit {0}) = (
        (
          record db {
            replicas =
                update (is_replica m.id backup.storage_id) (mark_deleted (unix now)) db.replicas;
          },
          w',
        ),
        ok tt,
      ) in
      elim removed [
        | Storage.ok _ ↦ marked
        | Storage.err e ↦ if is_gone e then marked else ((db, w'), err (storage_error e))
      ]

  -- The checks of the primary storage: it must be there and healthy, and the object absent.
  -- `some` is an early return.
  abbrev pub primary_check : Binding → Media → W → Option (Result (Unit {0}))
  primary_check primary m w = elim (stores.provide primary.storage_id w) [
    | Storage.err e ↦ some (err (storage_error e))
    | Storage.ok _ ↦ elim (stores.validate primary.storage_id w) [
      | Storage.err e ↦ some (err (storage_error e))
      | Storage.ok _ ↦
          elim (stores.stat primary.storage_id
            (join_path (primary.root_path ∷ m.relative_path ∷ [])) w) [
              | Storage.ok _ ↦ some (ok tt)
              | Storage.err e ↦ if is_gone e then none else some (err (storage_error e))
            ]
    ]
  ]

  -- From the checks of the primary storage on.
  unfoldable pub delete_if_gone :
      Time → Option Binding → Binding → Media → Db × W → (Db × W) × Result (Unit {0})
  delete_if_gone now none backup m s = (s, err nil_dereference)
  delete_if_gone now (some primary) backup m s = elim (primary_check primary m s.1) [
    | some r ↦ (s, r)
    | none ↦ elim (stores.provide backup.storage_id s.1) [
      | Storage.err e ↦ (s, err (storage_error e))
      | Storage.ok _ ↦ delete_replica now backup m s
    ]
  ]

  -- executeMirrorDelete
  unfoldable pub execute_mirror_delete :
      Env → Time → Text → Text → Db × W → (Db × W) × Result (Unit {0})
  execute_mirror_delete env now album_id media_id s = elim (get_album album_id s.0) [
    | err e ↦ (s, err e)
    | ok album ↦ elim (album.backup) [
      | none ↦ (s, ok tt)
      | some backup ↦
          if is_mirror album.backup_mode
          then elim (get_media media_id s.0) [
            | err e ↦ (s, err e)
            | ok m ↦
                if may_delete env now m
                then delete_if_gone now album.primary backup m s
                else (s, ok tt)
          ]
          else (s, ok tt)
    ]
  ]
