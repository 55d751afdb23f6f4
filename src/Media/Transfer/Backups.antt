-- ===== src/Media/Transfer/Backups.antt =====
-- internal/media/catalog.go, `Backup`: what a backup did.
use ialbum.Base.{
  ℕ, ◌≡◌, refl, ap, ◌∙◌, ◌⊎◌, true, false, ◌||◌, List, [], ◌∷◌, Option, none, some, arith, ◌==◌,
  Bool-cases, Option-cases, inl, inr, length,
}
use ialbum.Text.{Text, text_eq}
use ialbum.Text.Laws.{text_eq_iff, text_eq_refl}
use ialbum.Time.{Time, unix}
use ialbum.Sql.{find}
use ialbum.Sql.Laws.{find-update, find-append_none, find-none, find-passes}
use ialbum.Storage
use ialbum.Storage.{Object}
use ialbum.Media.Types.{
  Error, Result, Result-cases, ok, err, Binding, Media, Db, Env, Stores, nil_dereference,
  storage_error,
}
use ialbum.Media.Names.{fingerprint, join_path}
use ialbum.Media.Index.{View, get_album, get_media, is_missing}
use ialbum.Media.Mirror.{is_replica}
use ialbum.Media.Transfer.{
  has_current, upsert_replica, new_replica, renew, copy_check, store_copy, copy_media, backup_media,
  backup, job_error,
}

module _ {W : Type 0} (stores : Stores W) (env : Env) where
  -- What a backup wrote: the source on the primary storage as it was opened, whole and of the version in the index, to the
  -- place of the media on the backup storage, and a row that says so.
  pub record Copied (now : Time) (from : Option Binding) (target : Binding) (m : Media)
      (s s' : Db × W) : Type 0 where
    pub primary : Binding
    pub from_primary : from ≡ some primary
    pub source : Object
    pub bytes : List ℕ
    pub stored : Object
    pub opened :
        stores.open_file primary.storage_id
          (join_path (primary.root_path ∷ m.relative_path ∷ []))
          s.1
        ≡ Storage.ok (source, Storage.ok bytes)
    pub whole : length bytes ≡ source.size
    pub same_version : fingerprint env source ≡ m.source_version
    pub put :
        stores.put target.storage_id
          (join_path (target.root_path ∷ m.relative_path ∷ []))
          bytes
          true
          s.1
        ≡ (s'.1, Storage.ok stored)
    pub row : s'.0 ≡ upsert_replica env now target m stored s.0
    pub current : has_current target m s'.0 ≡ true

  -- The row of the replica is current once it is written.
  has_current-upsert_replica :
      (now : Time) (target : Binding) (m : Media) (stored : Object) (db : Db)
      → has_current target m (upsert_replica env now target m stored db) ≡ true
  unfolding upsert_replica new_replica renew find
  has_current-upsert_replica now target m stored db =
      elim (Option-cases (find (is_replica m.id target.storage_id) db.replicas)) [
        | inl f ↦
            rw (f, upsert_replica)
              (rw
                (
                  find-append_none (is_replica m.id target.storage_id) db.replicas _
                      (find-none _ db.replicas f),
                  has_current,
                )
                (rw
                  (text_eq_refl m.id, text_eq_refl target.storage_id, text_eq_refl m.source_version)
                  refl))
        | inr (r, f) ↦
            rw (f, upsert_replica)
              (rw
                (
                  find-update (is_replica m.id target.storage_id)
                      (is_replica m.id target.storage_id) (renew (unix now) m stored) (λ x. refl)
                      db.replicas,
                  has_current,
                )
                (rw f (
                  rw (find-passes (is_replica m.id target.storage_id) db.replicas f)
                    (rw (text_eq_refl m.source_version) refl))))
      ]

  copy_check-none :
      (m : Media) (obj : Object) (bytes : List ℕ)
      → copy_check stores env m obj bytes ≡ none
      → (length bytes ≡ obj.size) × (fingerprint env obj ≡ m.source_version)
  copy_check-none m obj bytes e = elim (Bool-cases (length bytes == obj.size)) [
    | inr l ↦ absurd (cc (rw (l, copy_check) at e))
    | inl l ↦ elim (Bool-cases (text_eq (fingerprint env obj) m.source_version)) [
      | inr v ↦ absurd (cc (rw v at (rw (l, copy_check) at e)))
      | inl v ↦ (ground (arith, l), (text_eq_iff (fingerprint env obj) m.source_version).0 v)
    ]
  ]

  -- What a call did that did not fail before it had anything to copy.
  abbrev pub Outcome :
      Time → Option Binding → Binding → Media → Db × W → (Db × W) × Result (Unit {0}) → Type 0
  Outcome now from target m s out =
      ((e : Error) × (out.1 ≡ err e) × (out.0.0 ≡ s.0))
      ⊎ ((out.1 ≡ ok tt) × Copied now from target m s out.0)

  store_copy-Outcome :
      (now : Time) (primary target : Binding) (m : Media) (s : Db × W) {source : Object}
      {bytes : List ℕ}
      → stores.open_file primary.storage_id
          (join_path (primary.root_path ∷ m.relative_path ∷ []))
          s.1
        ≡ Storage.ok (source, Storage.ok bytes)
      → copy_check stores env m source bytes ≡ none
      → Outcome now (some primary) target m s (store_copy stores env now target m bytes s)
  unfolding store_copy
  store_copy-Outcome now primary target m s {source = source} {bytes = bytes} o c =
      elim (Storage.Result-cases put.1) [
        | inr (e, f) ↦ rw (f, store_copy) (inl (job_error e, refl, refl))
        | inl (stored, f) ↦
            rw (f, store_copy)
              (inr (
                refl,
                record {
                  primary = primary;
                  from_primary = refl;
                  source = source;
                  bytes = bytes;
                  stored = stored;
                  opened = o;
                  whole = (copy_check-none m source bytes c).0;
                  same_version = (copy_check-none m source bytes c).1;
                  put = ap (λ r. (put.0, r)) f;
                  row = refl;
                  current = has_current-upsert_replica now target m stored s.0;
                },
              ))
      ]
    where
      put : W × Storage.Result Object
      put =
          stores.put target.storage_id (join_path (target.root_path ∷ m.relative_path ∷ [])) bytes
            true s.1

  copy_media-Outcome :
      (now : Time) (primary target : Binding) (m : Media) (s : Db × W)
      → Outcome now (some primary) target m s (copy_media stores env now primary target m s)
  unfolding copy_media
  copy_media-Outcome now primary target m s =
      elim (Storage.Result-cases (
        stores.open_file primary.storage_id (join_path (primary.root_path ∷ m.relative_path ∷ []))
          s.1)) [
            | inr (e, o) ↦ rw (o, copy_media) (inl (job_error e, refl, refl))
            | inl ((source, content), o) ↦ elim (Storage.Result-cases content) [
              | inr (e, f) ↦ rw (o, copy_media) (rw f (inl (storage_error e, refl, refl)))
              | inl (bytes, f) ↦ elim (Option-cases (copy_check stores env m source bytes)) [
                | inr (e, c) ↦ rw (o, copy_media) (rw f (rw c (inl (e, refl, refl))))
                | inl c ↦
                    rw (o, copy_media)
                      (rw f (
                        rw c (
                          store_copy-Outcome now primary target m s
                            (o ∙ ap (λ r. Storage.ok (source, r)) f) c)))
              ]
            ]
          ]

  pub backup_media-Outcome :
      (now : Time) (primary : Option Binding) (target : Binding) (m : Media) (s : Db × W)
      → Outcome now primary target m s (backup_media stores env now primary target m s)
  unfolding backup_media
  backup_media-Outcome now none target m s = inl (nil_dereference, refl, refl)
  backup_media-Outcome now (some primary) target m s =
      elim (Storage.Result-cases (stores.provide primary.storage_id s.1)) [
        | inr (e, f) ↦ rw (f, backup_media) (inl (storage_error e, refl, refl))
        | inl (u, f) ↦ elim (Storage.Result-cases (stores.provide target.storage_id s.1)) [
          | inr (e, g) ↦ rw (f, backup_media) (rw g (inl (storage_error e, refl, refl)))
          | inl (v, g) ↦ rw (f, backup_media) (rw g (copy_media-Outcome now primary target m s))
        ]
      ]

  -- A backup that had something to do: the album has a backup that is enabled, the media is not
  -- missing, and its replica was not current.
  pub record Due (album_id media_id : Text) (s : Db × W) : Type 0 where
    pub album : View
    pub target : Binding
    pub media : Media
    pub found_album : get_album album_id s.0 ≡ ok album
    pub has_target : album.backup ≡ some target
    pub enabled : album.backup_enabled ≡ true
    pub found_media : get_media media_id s.0 ≡ ok media
    pub pending : is_missing media || has_current target media s.0 ≡ false

  -- A backup has nothing to do and changes nothing, then as at any other time, or fails and leaves the database as it was, or
  -- it copies the media, whole and in the version of the index, and marks its replica current.
  pub backup_cases :
      (now : Time) (album_id media_id : Text) (s : Db × W)
      → ((t : Time) → backup stores env t album_id media_id s ≡ (s, ok tt))
        ⊎ (((e : Error) × ((backup stores env now album_id media_id s).1 ≡ err e)
              × ((backup stores env now album_id media_id s).0.0 ≡ s.0))
            ⊎ ((d : Due album_id media_id s) × ((backup stores env now album_id media_id s).1
                  ≡ ok tt)
                × Copied now d.album.primary d.target d.media s
                    (backup stores env now album_id media_id s).0))
  unfolding backup
  backup_cases now album_id media_id s = elim (Result-cases (get_album album_id s.0)) [
    | inr (e, fv) ↦ inr (inl (rw (fv, backup) (e, refl, refl)))
    | inl (v, fv) ↦ elim (Option-cases v.backup) [
      | inl fb ↦ inl (λ t. rw (fv, backup) (rw fb refl))
      | inr (b, fb) ↦ elim (Bool-cases v.backup_enabled) [
        | inr en ↦ inl (λ t. rw (fv, backup) (rw fb (rw en refl)))
        | inl en ↦ elim (Result-cases (get_media media_id s.0)) [
          | inr (e, fm) ↦ inr (inl (rw (fv, backup) (rw fb (rw en (rw fm (e, refl, refl))))))
          | inl (m, fm) ↦ elim (Bool-cases (is_missing m || has_current b m s.0)) [
            | inl q ↦ inl (λ t. rw (fv, backup) (rw fb (rw en (rw fm (rw q refl)))))
            | inr q ↦ inr (
                rw (fv, backup)
                  (rw fb (
                    rw en (
                      rw fm (
                        rw q (elim (backup_media-Outcome now v.primary b m s) [
                          | inl f ↦ inl f
                          | inr c ↦ inr (
                            record {
                              album = v;
                              target = b;
                              media = m;
                              found_album = fv;
                              has_target = fb;
                              enabled = en;
                              found_media = fm;
                              pending = q;
                            },
                            c.0,
                            c.1,
                          )
                        ]))))))
          ]
        ]
      ]
    ]
  ]

  get_album-upsert_replica :
      (id : Text) (now : Time) (target : Binding) (m : Media) (stored : Object) (db : Db)
      → get_album id (upsert_replica env now target m stored db) ≡ get_album id db
  unfolding get_album upsert_replica
  get_album-upsert_replica id now target m stored db =
      elim (Option-cases (find (is_replica m.id target.storage_id) db.replicas)) [
        | inl f ↦ rw (f, upsert_replica) refl
        | inr (r, f) ↦ rw (f, upsert_replica) refl
      ]

  get_media-upsert_replica :
      (id : Text) (now : Time) (target : Binding) (m : Media) (stored : Object) (db : Db)
      → get_media id (upsert_replica env now target m stored db) ≡ get_media id db
  unfolding get_media upsert_replica
  get_media-upsert_replica id now target m stored db =
      elim (Option-cases (find (is_replica m.id target.storage_id) db.replicas)) [
        | inl f ↦ rw (f, upsert_replica) refl
        | inr (r, f) ↦ rw (f, upsert_replica) refl
      ]

  finished :
      (t : Time) (album_id media_id : Text) (s : Db × W) {v : View} {b : Binding} {m : Media}
      → get_album album_id s.0 ≡ ok v
      → v.backup ≡ some b
      → v.backup_enabled ≡ true
      → get_media media_id s.0 ≡ ok m
      → has_current b m s.0 ≡ true
      → backup stores env t album_id media_id s ≡ (s, ok tt)
  unfolding backup
  finished t album_id media_id s {b = b} {m = m} fv fb en fm hc =
      rw (fv, backup) (rw fb (rw en (rw fm (rw (done hc) refl))))
    where
      done : has_current b m s.0 ≡ true → (is_missing m || has_current b m s.0) ≡ true
      done h = rw h (ground arith)

  -- Once a backup has succeeded, the same backup has nothing left to do, at any later time: it
  -- succeeds and changes neither the database nor a storage.
  pub backup_again :
      (now later : Time) (album_id media_id : Text) (s : Db × W)
      → (backup stores env now album_id media_id s).1 ≡ ok tt
      → backup stores env later album_id media_id (backup stores env now album_id media_id s).0
        ≡ ((backup stores env now album_id media_id s).0, ok tt)
  backup_again now later album_id media_id s e = elim (backup_cases now album_id media_id s) [
    | inl idle ↦ rw (idle now) (idle later)
    | inr (inl (x, f, k)) ↦ absurd (cc)
    | inr (inr (d, f, c)) ↦
        let s1 = (backup stores env now album_id media_id s).0 in
        finished later album_id media_id s1
          (ap (get_album album_id) c.row
            ∙ get_album-upsert_replica album_id now d.target d.media c.stored s.0
            ∙ d.found_album)
          d.has_target d.enabled
          (ap (get_media media_id) c.row
            ∙ get_media-upsert_replica media_id now d.target d.media c.stored s.0
            ∙ d.found_media)
          c.current
  ]
