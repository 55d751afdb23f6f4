-- ===== src/Media/Mirror/Removal.antt =====
-- internal/media/catalog.go, `executeMirrorDelete`: the removal of the backup's object and the mark.
use ialbum.Base.{not, ◌&&◌, All, ◌≡◌, refl, ◌⊎◌, inl, inr, [], ◌∷◌, none, arith, Bool-cases}
use ialbum.Text.{text_eq}
use ialbum.Text.Laws.{text_eq_iff}
use ialbum.Sql.{select, update}
use ialbum.Sql.Laws.{select-update_apart, All-update-All}
use ialbum.Time.{Time, unix}
use ialbum.Storage
use ialbum.Media.Types.{Result, ok, err, storage_error, deleted, Binding, Media, Db, Stores}
use ialbum.Media.Names.{join_path}
use ialbum.Media.Mirror.{is_replica, is_gone, mark_deleted, delete_replica}

module _ {W : Type 0} (stores : Stores W) where
  -- What the backup storage answers to the removal of its object of the media.
  abbrev pub removal : Binding → Media → W → W × Storage.Result (Unit {0})
  removal backup m w =
      stores.remove backup.storage_id (join_path (backup.root_path ∷ m.relative_path ∷ [])) w

  -- The object was removed, or was not there: of the database only the replicas of the media on this
  -- storage have changed, and they are deleted.
  pub record Removed (backup : Binding) (m : Media) (s : Db × W) (r : (Db × W) × Result (Unit {0}))
      : Type 0 where
    pub removed :
        ((removal backup m s.1).1 ≡ Storage.ok tt)
        ⊎ ((removal backup m s.1).1 ≡ Storage.err Storage.not_found)
    pub world : r.0.1 ≡ (removal backup m s.1).0
    pub succeeded : r.1 ≡ ok tt
    pub only_replicas : r.0.0 ≡ record s.0 { replicas = r.0.0.replicas }
    pub others :
        select
          (λ x. not (text_eq x.media_id m.id && text_eq x.storage_id backup.storage_id))
          r.0.0.replicas
        ≡ select
            (λ x. not (text_eq x.media_id m.id && text_eq x.storage_id backup.storage_id))
            s.0.replicas
    pub marked :
        All
          (λ x.
            x.media_id ≡ m.id
            → x.storage_id ≡ backup.storage_id
            → (x.status ≡ deleted) × (x.delete_after ≡ none))
          r.0.0.replicas

  -- The removal failed: the database is as it was and the error is returned.
  pub record Failed (backup : Binding) (m : Media) (s : Db × W) (r : (Db × W) × Result (Unit {0}))
      : Type 0 where
    pub error : Storage.Error
    pub failed : (removal backup m s.1).1 ≡ Storage.err error
    pub world : r.0.1 ≡ (removal backup m s.1).0
    pub returned : r.1 ≡ err (storage_error error)
    pub kept : r.0.0 ≡ s.0

  marked_Removed :
      (now : Time) (backup : Binding) (m : Media) (s : Db × W)
      → ((removal backup m s.1).1 ≡ Storage.ok tt)
        ⊎ ((removal backup m s.1).1 ≡ Storage.err Storage.not_found)
      → delete_replica stores now backup m s ≡ (
        (
          record s.0 {
            replicas =
                update (is_replica m.id backup.storage_id) (mark_deleted (unix now)) s.0.replicas;
          },
          (removal backup m s.1).0,
        ),
        ok tt,
      )
      → Removed backup m s (delete_replica stores now backup m s)
  unfolding mark_deleted
  marked_Removed now backup m s answer e = rw e (record {
    removed = answer;
    world = refl;
    succeeded = refl;
    only_replicas = refl;
    others =
        select-update_apart _ (is_replica m.id backup.storage_id) (mark_deleted (unix now))
          (λ x h. (ground (arith, h), ground (arith, h))) s.0.replicas;
    marked =
        All-update-All _ (is_replica m.id backup.storage_id) (mark_deleted (unix now))
          (λ x h p q. (refl, refl))
          (λ x h p q. absurd (
            ground (
              arith,
              h,
              text_eq_iff x.media_id m.id,
              text_eq_iff x.storage_id backup.storage_id,
              p,
              q,
            )))
          s.0.replicas;
  })

  pub delete_replica_cases :
      (now : Time) (backup : Binding) (m : Media) (s : Db × W)
      → Removed backup m s (delete_replica stores now backup m s)
        ⊎ Failed backup m s (delete_replica stores now backup m s)
  unfolding delete_replica
  delete_replica_cases now backup m s = elim (Storage.Result-cases (removal backup m s.1).1) [
    | inl (u, e) ↦ inl (marked_Removed now backup m s (inl e) (ground (arith, e)))
    | inr (x, e) ↦ elim (Bool-cases (is_gone stores x)) [
      | inl g ↦
          inl (marked_Removed now backup m s (inr (ground (arith, e, g))) (ground (arith, e, g)))
      | inr g ↦ inr (record {
        error = x;
        failed = e;
        world = ground (arith, e, g);
        returned = ground (arith, e, g);
        kept = ground (arith, e, g);
      })
    ]
  ]
