-- ===== src/Media/Transfer/Stored.antt =====
-- internal/media/catalog.go, `Upload`: what a first upload with its key has stored.
use ialbum.Base.{
  ◌≤◌, ℕ, ◌≡◌, refl, sym, ap, ◌∙◌, true, false, ◌&&◌, List, [], ◌∷◌, ◌++◌, map, none, some,
  some_inj, arith, NotIn, Distinct, Option-cases, inl, inr, length,
}
use mathlib.Core.Path.{subst}
use ialbum.Text.{Text, text_eq}
use ialbum.Text.Laws.{text_eq_iff, text_eq_refl}
use ialbum.Time.{Time, unix}
use ialbum.Sql.{find, update}
use ialbum.Sql.Laws.{find-append_none, find-passes, find-update, find-Elem}
use ialbum.Sql.Keys.{absent, find-by_key}
use ialbum.Storage
use ialbum.Storage.{Object}
use ialbum.Media.Types.{Result-cases, ok, Binding, Media, Kind, Db, Env, Stores}
use ialbum.Media.Names.{base, join_path, classify, normalize_path}
use ialbum.Media.Index.{
  View, get_album, get_media, has_media_id, at_path, new_media, refresh, upsert_object, enqueue,
}
use ialbum.Media.Transfer.Uploads.{get_album-id}
use ialbum.Media.Transfer.{
  available_name, begin_upload, enqueue_uploaded, is_request, record_upload, store_upload,
  upload_new, upload, done_media,
}

-- The row of an object after its upsert.
pub record Indexed (id album rel : Text) (m : Media) : Type 0 where
  pub has_id : m.id ≡ id
  pub of_album : m.album_id ≡ album
  pub at_rel : m.relative_path ≡ rel

module _ (env : Env) (now : Time) (album rel : Text) (kind : Kind) (mime : Text) (obj : Object)
    (db : Db) (d : Distinct (map (λ m. m.id) db.media)) where
  new-Indexed :
      (id : Text) {m : Media}
      → NotIn id (map (λ x. x.id) db.media)
      → find
          (has_media_id id)
          (db.media ++ new_media env id (unix now) album rel kind mime obj ∷ [])
        ≡ some m
      → Indexed id album rel m
  unfolding find new_media
  new-Indexed id {m = m} fresh g =
      let row = new_media env id (unix now) album rel kind mime obj in
      let alone : find (has_media_id id) (row ∷ []) ≡ some row = rw (text_eq_refl id) refl in
      let same : row ≡ m = some_inj (
        sym alone
        ∙ sym (
            find-append_none (has_media_id id) db.media (row ∷ [])
              (absent (λ x. x.id) id db.media fresh))
        ∙ g) in
      record {
        has_id = ap (λ x. x.id) (sym same);
        of_album = ap (λ x. x.album_id) (sym same);
        at_rel = ap (λ x. x.relative_path) (sym same);
      }

  old-Indexed :
      (old : Media) {m : Media}
      → find (at_path env album (normalize_path env rel)) db.media ≡ some old
      → find
          (has_media_id old.id)
          (update (has_media_id old.id) (refresh env (unix now) rel kind mime obj) db.media)
        ≡ some m
      → Indexed old.id album rel m
  unfolding refresh
  old-Indexed old {m = m} f g =
      let step = refresh env (unix now) rel kind mime obj in
      let at' : (text_eq old.album_id album && text_eq old.normalized_path (normalize_path env rel))
          ≡ true =
        find-passes (at_path env album (normalize_path env rel)) db.media f in
      let here' =
        find-by_key (λ x. x.id) db.media d
          (find-Elem (at_path env album (normalize_path env rel)) db.media f) in
      let same : step old ≡ m = some_inj (
        sym (
          find-update (has_media_id old.id) (has_media_id old.id) step (λ x. refl) db.media
          ∙ rw here' (rw (text_eq_refl old.id) refl))
        ∙ g) in
      record {
        has_id = ap (λ x. x.id) (sym same);
        of_album =
            ap (λ x. x.album_id) (sym same)
            ∙ (text_eq_iff old.album_id album).0 (ground (arith, at'));
        at_rel = ap (λ x. x.relative_path) (sym same);
      }

  upsert_object-Indexed :
      {m : Media}
      → NotIn (env.new_id db.issued) (map (λ m. m.id) db.media)
      → find
          (has_media_id (upsert_object env now album rel kind mime obj db).1.1)
          (upsert_object env now album rel kind mime obj db).0.media
        ≡ some m
      → Indexed (upsert_object env now album rel kind mime obj db).1.1 album rel m
  unfolding upsert_object
  upsert_object-Indexed fresh g =
      elim (Option-cases (find (at_path env album (normalize_path env rel)) db.media)) [
        | inl f ↦
            rw (f, upsert_object)
              (new-Indexed (env.new_id db.issued) fresh (rw (f, upsert_object) at g))
        | inr (old, f) ↦ rw (f, upsert_object) (old-Indexed old f (rw (f, upsert_object) at g))
      ]

-- A row that is read is the one that is found.
get_media-find :
    (id : Text) (db : Db) {m : Media}
    → get_media id db ≡ ok m
    → find (has_media_id id) db.media ≡ some m
unfolding get_media
get_media-find id db g = elim (Option-cases (find (has_media_id id) db.media)) [
  | inl f ↦ absurd (cc (rw (f, get_media) at g))
  | inr (x, f) ↦ rw f (cc (rw (f, get_media) at g))
]

-- What a first upload of `bytes` to the album has stored, and the row `m` that it returns.
pub record Stored {W : Type 0} (stores : Stores W) (album : Text) (bytes : List ℕ) (s s' : Db × W)
    (m : Media) : Type 0 where
  pub view : View
  pub primary : Binding
  pub object : Object
  pub found_album : get_album album s'.0 ≡ ok view
  pub has_primary : view.primary ≡ some primary
  pub put :
      stores.put primary.storage_id
        (join_path (primary.root_path ∷ m.relative_path ∷ []))
        bytes
        false
        s.1
      ≡ (s'.1, Storage.ok object)
  pub of_album : m.album_id ≡ album
  pub has_media : get_media m.id s'.0 ≡ ok m

module _ {W : Type 0} (stores : Stores W) (env : Env) where
  get_album-begin_upload :
      (id : Text) (now : Time) (album key filename target temp : Text) (size : ℕ) (db : Db)
      → get_album id (begin_upload stores env now album key filename target temp size db)
        ≡ get_album id db
  unfolding begin_upload get_album
  get_album-begin_upload id now album key filename target temp size db =
      elim (Option-cases (find (is_request stores env album key) db.uploads)) [
        | inl f ↦ rw (f, begin_upload) refl
        | inr (u, f) ↦ rw (f, begin_upload) refl
      ]

  media-begin_upload :
      (now : Time) (album key filename target temp : Text) (size : ℕ) (db : Db)
      → (begin_upload stores env now album key filename target temp size db).media ≡ db.media
  unfolding begin_upload
  media-begin_upload now album key filename target temp size db = ground arith

  issued-begin_upload :
      (now : Time) (album key filename target temp : Text) (size : ℕ) (db : Db)
      → db.issued ≤ (begin_upload stores env now album key filename target temp size db).issued
  unfolding begin_upload
  issued-begin_upload now album key filename target temp size db = ground arith

  albums-record_upload :
      (now : Time) (v : View) (key target : Text) (kind : Kind) (mime : Text) (stored : Object)
      (db : Db)
      → (record_upload stores env now v key target kind mime stored db).0.albums ≡ db.albums
  unfolding record_upload upsert_object enqueue_uploaded enqueue
  albums-record_upload now v key target kind mime stored db = ground arith

  bindings-record_upload :
      (now : Time) (v : View) (key target : Text) (kind : Kind) (mime : Text) (stored : Object)
      (db : Db)
      → (record_upload stores env now v key target kind mime stored db).0.bindings ≡ db.bindings
  unfolding record_upload upsert_object enqueue_uploaded enqueue
  bindings-record_upload now v key target kind mime stored db = ground arith

  get_album-same :
      (id : Text) (a b : Db)
      → a.albums ≡ b.albums
      → a.bindings ≡ b.bindings
      → get_album id a ≡ get_album id b
  unfolding get_album
  get_album-same id a b p q = rw (p, q) refl

  media-record_upload :
      (now : Time) (v : View) (key target : Text) (kind : Kind) (mime : Text) (stored : Object)
      (db : Db)
      → (record_upload stores env now v key target kind mime stored db).0.media
        ≡ (upsert_object env now v.id target kind mime
            (record stored { relative_path = target })
            db).0.media
  unfolding record_upload enqueue_uploaded enqueue
  media-record_upload now v key target kind mime stored db = ground arith

  record_upload-Indexed :
      (now : Time) (v : View) (key target : Text) (kind : Kind) (mime : Text) (stored : Object)
      (db : Db) {m : Media}
      → Distinct (map (λ x. x.id) db.media)
      → NotIn (env.new_id db.issued) (map (λ x. x.id) db.media)
      → get_media
          (record_upload stores env now v key target kind mime stored db).1
          (record_upload stores env now v key target kind mime stored db).0
        ≡ ok m
      → Indexed (record_upload stores env now v key target kind mime stored db).1 v.id target m
  unfolding record_upload
  record_upload-Indexed now v key target kind mime stored db d fresh g =
      let after = record_upload stores env now v key target kind mime stored db in
      upsert_object-Indexed env now v.id target kind mime (record stored { relative_path = target })
        db d fresh
        (ap (find (has_media_id after.1))
            (sym (media-record_upload now v key target kind mime stored db))
          ∙ get_media-find after.1 after.0 g)

  store_upload-Stored :
      (now : Time) (v : View) (primary : Binding) (key filename target temp : Text) (bytes : List ℕ)
      (kind : Kind) (mime : Text) (s : Db × W) {m : Media}
      → Distinct (map (λ x. x.id) s.0.media)
      → ((n : ℕ) → s.0.issued ≤ n → NotIn (env.new_id n) (map (λ x. x.id) s.0.media))
      → get_album v.id s.0 ≡ ok v
      → v.primary ≡ some primary
      → (store_upload stores env now v primary key filename target temp bytes kind mime s).1 ≡ ok m
      → Stored stores v.id bytes s
          (store_upload stores env now v primary key filename target temp bytes kind mime s).0
          m
  unfolding store_upload
  store_upload-Stored now v primary key filename target temp bytes kind mime s {m = m} d fresh fv fp
        h =
      let put =
        stores.put primary.storage_id (join_path (primary.root_path ∷ target ∷ [])) bytes false
          s.1 in
      let begun = begin_upload stores env now v.id key filename target temp (length bytes) s.0 in
      let kept = media-begin_upload now v.id key filename target temp (length bytes) s.0 in
      elim (Storage.Result-cases put.1) [
        | inr (e, f) ↦ absurd (cc (rw (f, store_upload) at h))
        | inl (stored, f) ↦
            let after = record_upload stores env now v key target kind mime stored begun in
            let g : get_media after.1 after.0 ≡ ok m = rw (f, store_upload) at h in
            let row : Indexed after.1 v.id target m =
              record_upload-Indexed now v key target kind mime stored begun
                (subst (λ ms. Distinct (map (λ x. x.id) ms)) (sym kept) d)
                (subst (λ ms. NotIn (env.new_id begun.issued) (map (λ x. x.id) ms)) (sym kept)
                  (fresh begun.issued
                    (issued-begin_upload now v.id key filename target temp (length bytes) s.0)))
                g in
            rw (f, store_upload)
              (record {
                view = v;
                primary = primary;
                object = stored;
                found_album =
                    get_album-same v.id after.0 begun
                      (albums-record_upload now v key target kind mime stored begun)
                      (bindings-record_upload now v key target kind mime stored begun)
                    ∙ get_album-begin_upload v.id now v.id key filename target temp (length bytes)
                        s.0
                    ∙ fv;
                has_primary = fp;
                put =
                    ap
                      (λ t.
                        stores.put primary.storage_id (join_path (primary.root_path ∷ t ∷ [])) bytes
                          false s.1)
                      row.at_rel
                    ∙ ap (λ r. (put.0, r)) f;
                of_album = row.of_album;
                has_media = ap (λ i. get_media i after.0) row.has_id ∙ g;
              })
      ]

  upload_new-Stored :
      (now : Time) (album key filename temp : Text) (bytes : List ℕ) (kind : Kind) (mime : Text)
      (s : Db × W) {m : Media}
      → Distinct (map (λ x. x.id) s.0.media)
      → ((n : ℕ) → s.0.issued ≤ n → NotIn (env.new_id n) (map (λ x. x.id) s.0.media))
      → (upload_new stores env now album key filename temp bytes kind mime s).1 ≡ ok m
      → Stored stores album bytes s
          (upload_new stores env now album key filename temp bytes kind mime s).0
          m
  unfolding upload_new store_upload record_upload enqueue_uploaded
  upload_new-Stored now album key filename temp bytes kind mime s {m = m} d fresh h =
      elim (Result-cases (get_album album s.0)) [
        | inr (e, fv) ↦ absurd (cc (rw (fv, upload_new) at h))
        | inl (v, fv) ↦ elim (Option-cases v.primary) [
          | inl fp ↦ absurd (cc (rw fp at (rw (fv, upload_new) at h)))
          | inr (p, fp) ↦ elim (Storage.Result-cases (stores.provide p.storage_id s.1)) [
            | inr (e, f) ↦ absurd (cc (rw f at (rw fp at (rw (fv, upload_new) at h))))
            | inl (u, f) ↦
                elim (Result-cases
                  (available_name stores env p.storage_id p.root_path (base filename) s.1)) [
                    | inr (e, g) ↦
                        absurd (cc (rw g at (rw f at (rw fp at (rw (fv, upload_new) at h)))))
                    | inl (target, g) ↦
                        let same : upload_new stores env now album key filename temp bytes kind mime
                              s
                            ≡ store_upload stores env now v p key filename target temp bytes kind
                                mime s =
                          rw (fv, upload_new) (rw fp (rw f (rw g refl))) in
                        let is_it = get_album-id stores env album s.0 fv in
                        subst (λ o. Stored stores album bytes s o.0 m) (sym same)
                          (subst
                            (λ a.
                              Stored stores a bytes s
                                (store_upload stores env now v p key filename target temp bytes kind
                                  mime s).0
                                m)
                            is_it
                            (store_upload-Stored now v p key filename target temp bytes kind mime s
                              d fresh (ap (λ a. get_album a s.0) is_it ∙ fv) fp
                              (sym (ap (λ o. o.1) same) ∙ h)))
                  ]
          ]
        ]
      ]

  -- A first upload with its key that succeeds has stored its bytes.
  pub upload-Stored :
      (now : Time) (album filename temp key : Text) (bytes : List ℕ) (s : Db × W) {m : Media}
      → Distinct (map (λ x. x.id) s.0.media)
      → ((n : ℕ) → s.0.issued ≤ n → NotIn (env.new_id n) (map (λ x. x.id) s.0.media))
      → done_media stores env album key s.0 ≡ none
      → (upload stores env now album filename temp key bytes s).1 ≡ ok m
      → Stored stores album bytes s (upload stores env now album filename temp key bytes s).0 m
  unfolding upload
  upload-Stored now album filename temp key bytes s {m = m} d fresh first h =
      elim (Option-cases (classify env filename)) [
        | inl c ↦ absurd (cc (rw c at (rw (first, upload) at h)))
        | inr ((kind, mime), c) ↦
            let same : upload stores env now album filename temp key bytes s
                ≡ upload_new stores env now album key filename temp bytes kind mime s =
              rw (first, upload) (rw c refl) in
            subst (λ o. Stored stores album bytes s o.0 m) (sym same)
              (upload_new-Stored now album key filename temp bytes kind mime s d fresh
                (sym (ap (λ o. o.1) same) ∙ h))
      ]
