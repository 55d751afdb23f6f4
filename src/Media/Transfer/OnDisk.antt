-- ===== src/Media/Transfer/OnDisk.antt =====
-- internal/media/catalog.go, `Backup`, over storages that are local directories
-- (internal/storage/local/local.go).
pub mod Tests
use mathlib.Core.Path.{subst}
use ialbum.Base.{
  ℕ, Bool, true, false, not, ◌||◌, List, [], ◌∷◌, ◌++◌, append-nil, Option, none, some, inl, inr,
  ◌≡◌, refl, sym, ap, ◌∙◌, if◌then◌else◌, length,
}
use ialbum.Text.{Text, codes, text_eq}
use ialbum.Text.Laws.{text_eq_refl}
use ialbum.Time.{Time}
use ialbum.Storage.{Error, Result, Result-cases, ok, err, ◌>>=◌, other, Object, Page}
use ialbum.Storage.Disk.{Disk, Names}
use ialbum.Storage.Disk.Laws.{IsTree}
use ialbum.Storage.Local.{Call, Source, clean, object_of, to_slash, ranged, stat_object, open_file}
use ialbum.Storage.Local.Change.{put, mkdir, delete}
use ialbum.Storage.Local.Listing.{list}
use ialbum.Storage.Local.Reads.{open_file-put}
use ialbum.Media.Types as Types
use ialbum.Media.Types.{Binding, Media, Db, Env, Stores}
use ialbum.Media.Names.{join_path, fingerprint}
use ialbum.Media.Transfer.{backup, backup_media}
use ialbum.Media.Transfer.Backups.{Copied, Due, Outcome, backup_media-Outcome}

-- The directories of the storages, each its own.
abbrev pub Disks : Type 0
Disks = Text → Disk

abbrev set : Text → Disk → Disks → Disks
set id d w k = if text_eq k id then d else w k

abbrev whole_source : List ℕ → Source
whole_source bytes = record { open_error = none; reads = bytes ∷ []; read_error = none }

abbrev on_disk {ℓ} : {A : Type ℓ} → Text → Disks → Disk × A → Disks × A
on_disk id w r = (set id r.0 w, r.1)

abbrev as_opened : Result (List ℕ × Object) → Result (Object × Result (List ℕ))
as_opened (ok (bytes, obj)) = ok (obj, ok bytes)
as_opened (err e) = err e

-- The panic of a page behind the end is an error here.
abbrev or_panic {ℓ} : {A : Type ℓ} → Option (Result A) → Result A
or_panic none = err (other (codes "slice bounds out of range"))
or_panic (some r) = r

-- The local provider as the storage that the catalog calls.
unfoldable pub local_stores : Call → Stores Disks
unfolding list stat_object open_file put mkdir delete
local_stores c = record {
  provide = λ id w. ok tt;
  validate = λ id w. ok tt;
  list_dir = λ id dir cursor limit w. or_panic (list c dir cursor limit (w id));
  stat = λ id name w. stat_object c name (w id);
  open_file = λ id name w. as_opened (open_file c name none (w id));
  put = λ id name bytes overwrite w.
      on_disk id w (put c name (whole_source bytes) (not overwrite) (w id));
  make_dir = λ id name w. on_disk id w (mkdir name (w id));
  remove = λ id name w. on_disk id w (delete name (w id));
}

-- With something to do, Backup goes on to the providers.
backup-Due :
    {W : Type 0} (stores : Stores W) (env : Env) (now : Time) (album media : Text) (s : Db × W)
    (d : Due stores env album media s)
    → backup stores env now album media s
      ≡ backup_media stores env now d.album.primary d.target d.media s
unfolding backup
backup-Due stores env now album media s d =
    rw (d.found_album, backup)
      (rw d.has_target (rw d.enabled (rw d.found_media (rw d.pending refl))))

-- What a local provider gives, read through the interface.
opened_bytes :
    (c : Call) (id name : Text) (w : Disks) {obj : Object} {bytes : List ℕ}
    → (local_stores c).open_file id name w ≡ ok (obj, ok bytes)
    → open_file c name none (w id) ≡ ok (bytes, obj)
unfolding local_stores
opened_bytes c id name w {obj = obj} {bytes = bytes} h = found (open_file c name none (w id)) h
  where
    found : (r : Result (List ℕ × Object)) → as_opened r ≡ ok (obj, ok bytes) → r ≡ ok (bytes, obj)
    found (ok (b, o)) q = cc q
    found (err e) q = absurd (cc q)

-- A name that is refused stores nothing.
refused_name :
    (c : Call) (name : Text) (source : Source) (fail : Bool) (d : Disk) {e : Error} {obj : Object}
    → clean name ≡ err e
    → (put c name source fail d).1 ≡ ok obj
    → ⊥
unfolding put
refused_name c name source fail d v h = cc (rw (put, v) at h)

-- A copy that a local provider has stored is there.
pub put_bytes :
    (c c' : Call) (id name : Text) (bytes : List ℕ) (overwrite : Bool) (w w' : Disks)
    {stored : Object}
    → IsTree (w id)
    → (local_stores c).put id name bytes overwrite w ≡ (w', ok stored)
    → (obj : Object) × (open_file c' name none (w' id) ≡ ok (bytes, obj))
unfolding local_stores ranged
put_bytes c c' id name bytes overwrite w w' t h =
    let r = put c name (whole_source bytes) (not overwrite) (w id) in
    let there : r.0 ≡ w' id =
      sym (ap (λ b. if b then r.0 else w id) (text_eq_refl id)) ∙ ap (λ p. p.0 id) h in
    elim (Result-cases (clean name)) [
      | inr (e, v) ↦
          absurd
            (refused_name c name (whole_source bytes) (not overwrite) (w id) v (ap (λ p. p.1) h))
      | inl (rel, v) ↦
          let copy : Object = object_of c' (to_slash rel) (length (bytes ++ [])) c.now false in
          let opens : Disk → Type 0 = λ d. open_file c' name none d ≡ ok (bytes ++ [], copy) in
          (
            copy,
            subst opens there (
                  open_file-put c c' name (whole_source bytes) (not overwrite) (w id) none t v
                    (ap (λ p. p.1) h))
                ∙ ap (λ b. ok (b, copy)) (append-nil bytes),
          )
    ]

-- The media on the primary storage in the directories `w`, and its copy on the backup storage in `w'`.
pub record Restored (c c' : Call) (env : Env) (from : Option Binding) (target : Binding) (m : Media)
    (w w' : Disks) : Type 0 where
  pub primary : Binding
  pub from_primary : from ≡ some primary
  pub bytes : List ℕ
  pub source : Object
  pub copy : Object
  pub opened :
      open_file c (join_path (primary.root_path ∷ m.relative_path ∷ [])) none (w primary.storage_id)
      ≡ ok (bytes, source)
  pub whole : length bytes ≡ source.size
  pub same_version : fingerprint env source ≡ m.source_version
  pub restored :
      open_file c' (join_path (target.root_path ∷ m.relative_path ∷ [])) none (w' target.storage_id)
      ≡ ok (bytes, copy)

module _ (c : Call) (env : Env) where
  Outcome-Restored :
      (c' : Call) (now : Time) (from : Option Binding) (target : Binding) (m : Media)
      (s : Db × Disks) (out : (Db × Disks) × Types.Result (Unit {0}))
      → ((id : Text) → IsTree (s.1 id))
      → Outcome (local_stores c) env now from target m s out
      → out.1 ≡ Types.ok tt
      → Restored c c' env from target m s.1 out.0.1
  Outcome-Restored c' now from target m s out trees (inl (e, f, k)) h = absurd (cc (f, h))
  Outcome-Restored c' now from target m s out trees (inr (f, d)) h =
      let (copy, there) =
        put_bytes c c' target.storage_id (join_path (target.root_path ∷ m.relative_path ∷ []))
          d.bytes true s.1 out.0.1 (trees target.storage_id) d.put in
      record {
        primary = d.primary;
        from_primary = d.from_primary;
        bytes = d.bytes;
        source = d.source;
        copy = copy;
        opened =
            opened_bytes c d.primary.storage_id
              (join_path (d.primary.root_path ∷ m.relative_path ∷ [])) s.1 d.opened;
        whole = d.whole;
        same_version = d.same_version;
        restored = there;
      }

  -- Over local directories: a Backup that has something to do and succeeds leaves, at the place of the
  -- media on the backup storage, a file that opens with the very bytes that the media had on the
  -- primary storage, whole and in the version of the index.
  pub backup-Restored :
      (c' : Call) (now : Time) (album media : Text) (s : Db × Disks)
      → ((id : Text) → IsTree (s.1 id))
      → (d : Due (local_stores c) env album media s)
      → (backup (local_stores c) env now album media s).1 ≡ Types.ok tt
      → Restored c c' env d.album.primary d.target d.media s.1
          (backup (local_stores c) env now album media s).0.1
  backup-Restored c' now album media s trees d h =
      let e = backup-Due (local_stores c) env now album media s d in
      subst (λ out. Restored c c' env d.album.primary d.target d.media s.1 out.0.1) (sym e)
        (Outcome-Restored c' now d.album.primary d.target d.media s
          (backup_media (local_stores c) env now d.album.primary d.target d.media s) trees
          (backup_media-Outcome (local_stores c) env now d.album.primary d.target d.media s)
          (sym (ap (λ out. out.1) e) ∙ h))
