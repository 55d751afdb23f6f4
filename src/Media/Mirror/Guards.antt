-- ===== src/Media/Mirror/Guards.antt =====
-- internal/media/catalog.go, `executeMirrorDelete`: when a replica may be removed.
use ialbum.Base.{
  ℕ, ◌+◌, ◌*◌, ◌≤◌, ◌≡◌, refl, ◌⊎◌, inl, inr, true, false, [], ◌∷◌, Option, none, some, arith,
  Bool-cases, Option-cases,
}
use ialbum.Text.{Text}
use ialbum.Time.{Time, second}
use ialbum.Storage
use ialbum.Media.Types.{ok, Result-cases, Binding, Media, Db, Env, Stores}
use ialbum.Media.Names.{join_path}
use ialbum.Media.Index.{View, get_album, get_media}
use ialbum.Media.Mirror.{
  is_mirror, may_delete, primary_check, delete_replica, delete_if_gone, execute_mirror_delete,
}
use ialbum.Media.Mirror.Removal.{Removed, Failed, delete_replica_cases}

module _ {W : Type 0} (stores : Stores W) where
  -- What the code has seen before it removes a replica.
  pub record Checked (env : Env) (now : Time) (album_id media_id : Text) (s : Db × W) : Type 0 where
    pub album : View
    pub primary : Binding
    pub backup : Binding
    pub media : Media
    pub first : ℕ
    pub found_album : get_album album_id s.0 ≡ ok album
    pub found_primary : album.primary ≡ some primary
    pub found_backup : album.backup ≡ some backup
    pub found_media : get_media media_id s.0 ≡ ok media
    pub mirrored : is_mirror album.backup_mode ≡ true
    pub missed_twice : 2 ≤ media.missing_scans
    pub not_suppressed : media.delete_suppressed ≡ false
    pub missed_since : media.first_missing_at ≡ some first
    pub grace_past : first * second + env.mirror_grace ≤ now
    pub healthy : stores.validate primary.storage_id s.1 ≡ Storage.ok tt
    pub gone :
        stores.stat primary.storage_id
          (join_path (primary.root_path ∷ media.relative_path ∷ []))
          s.1
        ≡ Storage.err Storage.not_found

  primary_check-none :
      (p : Binding) (m : Media) (w : W)
      → primary_check stores p m w ≡ none
      → (stores.validate p.storage_id w ≡ Storage.ok tt)
        × (stores.stat p.storage_id (join_path (p.root_path ∷ m.relative_path ∷ [])) w
            ≡ Storage.err Storage.not_found)
  primary_check-none p m w h = ground arith

  delete_if_gone_cases :
      (now : Time) (primary : Option Binding) (backup : Binding) (m : Media) (s : Db × W)
      → ((delete_if_gone stores now primary backup m s).0 ≡ s)
        ⊎ ((p : Binding) × (primary ≡ some p)
            × (primary_check stores p m s.1 ≡ none)
            × (delete_if_gone stores now primary backup m s ≡ delete_replica stores now backup m s))
  unfolding delete_if_gone
  delete_if_gone_cases now none backup m s = inl refl
  delete_if_gone_cases now (some p) backup m s =
      elim (Option-cases (primary_check stores p m s.1)) [
        | inr (r, e) ↦ inl (ground (arith, e))
        | inl e ↦ elim (Storage.Result-cases (stores.provide backup.storage_id s.1)) [
          | inl (u, f) ↦ inr (p, refl, e, ground (arith, e, f))
          | inr (x, f) ↦ inl (ground (arith, e, f))
        ]
      ]

  may_delete_facts :
      (env : Env) (now : Time) (m : Media)
      → may_delete env now m ≡ true
      → (2 ≤ m.missing_scans)
        × (m.delete_suppressed ≡ false)
        × (first : ℕ) × (m.first_missing_at ≡ some first)
        × (first * second + env.mirror_grace ≤ now)
  may_delete_facts env now m h = elim (Option-cases m.first_missing_at) [
    | inl e ↦ absurd (ground (arith, e))
    | inr (first, e) ↦ (ground arith, ground arith, first, e, ground (arith, e))
  ]

  -- With the album, its backup and the media at hand.
  with_media :
      (env : Env) (now : Time) (album_id media_id : Text) (s : Db × W) (v : View) (b : Binding)
      (m : Media)
      → get_album album_id s.0 ≡ ok v
      → v.backup ≡ some b
      → get_media media_id s.0 ≡ ok m
      → is_mirror v.backup_mode ≡ true
      → may_delete env now m ≡ true
      → ((delete_if_gone stores now v.primary b m s).0 ≡ s)
        ⊎ ((c : Checked env now album_id media_id s) × (delete_if_gone stores now v.primary b m s
              ≡ delete_replica stores now c.backup c.media s))
  with_media env now album_id media_id s v b m fv fb fm im md =
      elim (delete_if_gone_cases now v.primary b m s) [
        | inl same ↦ inl same
        | inr (p, fp, pc, run) ↦
            let (twice, unsuppressed, first, since, past) = may_delete_facts env now m md in
            let (healthy, gone) = primary_check-none p m s.1 pc in
            inr (
              record {
                album = v;
                primary = p;
                backup = b;
                media = m;
                first = first;
                found_album = fv;
                found_primary = fp;
                found_backup = fb;
                found_media = fm;
                mirrored = im;
                missed_twice = twice;
                not_suppressed = unsuppressed;
                missed_since = since;
                grace_past = past;
                healthy = healthy;
                gone = gone;
              },
              run,
            )
      ]

  delete_cases :
      (env : Env) (now : Time) (album_id media_id : Text) (s : Db × W)
      → ((execute_mirror_delete stores env now album_id media_id s).0 ≡ s)
        ⊎ ((c : Checked env now album_id media_id s) × (execute_mirror_delete stores env now
                album_id media_id s
              ≡ delete_replica stores now c.backup c.media s))
  unfolding execute_mirror_delete
  delete_cases env now album_id media_id s = elim (Result-cases (get_album album_id s.0)) [
    | inr (e, fv) ↦ inl (ground (arith, fv))
    | inl (v, fv) ↦ elim (Option-cases v.backup) [
      | inl fb ↦ inl (ground (arith, fv, fb))
      | inr (b, fb) ↦ elim (Bool-cases (is_mirror v.backup_mode)) [
        | inr im ↦ inl (ground (arith, fv, fb, im))
        | inl im ↦ elim (Result-cases (get_media media_id s.0)) [
          | inr (e, fm) ↦ inl (ground (arith, fv, fb, im, fm))
          | inl (m, fm) ↦ elim (Bool-cases (may_delete env now m)) [
            | inr md ↦ inl (ground (arith, fv, fb, im, fm, md))
            | inl md ↦
                rw (fv, execute_mirror_delete)
                  (rw fb (
                    rw im (
                      rw fm (rw md (with_media env now album_id media_id s v b m fv fb fm im md)))))
          ]
        ]
      ]
    ]
  ]

  -- A mirror-delete job either changes neither the database nor a storage, or it asks the backup
  -- storage, once, to remove its object of the media: then the album is in mirror mode, the media was
  -- missing in two scans at least, for as long as the grace, its deletion is not suppressed, and the
  -- primary storage is healthy and has no such object now. Where the object was removed or was not
  -- there, the replicas of this media on this storage are deleted and all else in the database is as
  -- it was; where the removal failed, the whole database is as it was and the error is returned.
  pub execute_mirror_delete-Checked :
      (env : Env) (now : Time) (album_id media_id : Text) (s : Db × W)
      → ((execute_mirror_delete stores env now album_id media_id s).0 ≡ s)
        ⊎ ((c : Checked env now album_id media_id s) × (Removed stores c.backup c.media s
                (execute_mirror_delete stores env now album_id media_id s)
              ⊎ Failed stores c.backup c.media s
                  (execute_mirror_delete stores env now album_id media_id s)))
  execute_mirror_delete-Checked env now album_id media_id s =
      elim (delete_cases env now album_id media_id s) [
        | inl same ↦ inl same
        | inr (c, run) ↦ inr (c, rw run (delete_replica_cases stores now c.backup c.media s))
      ]
