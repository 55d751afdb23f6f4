-- ===== src/Media/Transfer/Uploads.antt =====
-- internal/media/catalog.go, `Upload`: the name that is free, and the request that is done once.
use ialbum.Base.{
  ℕ, suc, zero, ◌≡◌, refl, sym, ap, ◌∙◌, ◌⊎◌, true, false, ◌&&◌, List, [], ◌∷◌, some, arith,
  if◌then◌else◌, Bool-cases, Option-cases, inl, inr, length,
}
use mathlib.Core.Option
use mathlib.Core.Path.{subst}
use ialbum.Text.{Text, text_eq}
use ialbum.Text.Laws.{text_eq_refl, text_eq_iff}
use ialbum.Time.{Time, unix}
use ialbum.Sql.{find, update}
use ialbum.Sql.Laws.{find-append_none, find-none, find-passes, find-update}
use ialbum.Storage
use ialbum.Storage.{Object}
use ialbum.Media.Types.{
  Error, Result, Result-cases, ok, err, Binding, Media, Upload, Kind, Db, Env, Stores,
  storage_error, nil_dereference, unsupported_media,
}
use ialbum.Media.Names.{base, join_path, classify}
use ialbum.Media.Index.{View, is_album, is_active, get_album, get_media, enqueue, upsert_object}
use ialbum.Media.Mirror.{is_gone}
use ialbum.Media.Transfer.{
  candidate, try_names, available_name, is_request, is_done, begin_upload, complete_upload,
  enqueue_uploaded, record_upload, store_upload, upload_new, upload, done_media, new_upload,
}

module _ {W : Type 0} (stores : Stores W) (env : Env) where
  gone : (x : Storage.Error) → is_gone stores x ≡ true → x ≡ Storage.not_found
  gone Storage.not_found e = refl
  gone Storage.conflict e = absurd (cc e)
  gone Storage.unauthorized e = absurd (cc e)
  gone Storage.rate_limited e = absurd (cc e)
  gone Storage.unsupported e = absurd (cc e)
  gone Storage.transient e = absurd (cc e)
  gone (Storage.other t) e = absurd (cc e)

  -- A name that was found names nothing on the storage.
  try_names_free :
      (storage root name : Text) (i left : ℕ) (w : W) {target : Text}
      → try_names stores env storage root name i left w ≡ ok target
      → stores.stat storage (join_path (root ∷ target ∷ [])) w ≡ Storage.err Storage.not_found
  unfolding try_names
  try_names_free storage root name i zero w e = absurd (cc e)
  try_names_free storage root name i (suc left) w {target = target} e =
      go (stores.stat storage (join_path (root ∷ candidate stores env name i ∷ [])) w) refl
        (λ d. try_names_free storage root name (suc i) left w d) e
    where
      go :
          (r : Storage.Result Object)
          → stores.stat storage (join_path (root ∷ candidate stores env name i ∷ [])) w ≡ r
          → (try_names stores env storage root name (suc i) left w ≡ ok target
              → stores.stat storage (join_path (root ∷ target ∷ [])) w
                ≡ Storage.err Storage.not_found)
          → (elim r [
            | Storage.ok _ ↦ try_names stores env storage root name (suc i) left w
            | Storage.err x ↦
                if is_gone stores x then ok (candidate stores env name i) else err (storage_error x)
          ])
            ≡ ok target
          → stores.stat storage (join_path (root ∷ target ∷ [])) w ≡ Storage.err Storage.not_found
      go (Storage.ok _) f rest e = rest e
      go (Storage.err x) f rest e = elim (Bool-cases (is_gone stores x)) [
        | inr g ↦ absurd (cc (rw g at e))
        | inl g ↦
            let same : candidate stores env name i ≡ target = cc (rw g at e) in
            rw (← same) (f ∙ ap Storage.err (gone x g))
      ]

  -- The name of an upload is one at which the storage has nothing.
  available_name_free :
      (storage root filename : Text) (w : W) {target : Text}
      → available_name stores env storage root filename w ≡ ok target
      → stores.stat storage (join_path (root ∷ target ∷ [])) w ≡ Storage.err Storage.not_found
  unfolding available_name
  available_name_free storage root filename w e = try_names_free storage root _ 0 10_000 w e

  uploads-upsert_object :
      (now : Time) (album rel : Text) (kind : Kind) (mime : Text) (obj : Object) (db : Db)
      → (upsert_object env now album rel kind mime obj db).0.uploads ≡ db.uploads
  unfolding upsert_object
  uploads-upsert_object now album rel kind mime obj db = ground arith

  uploads-enqueue_uploaded :
      (now : Time) (v : View) (media : Text) (obj : Object) (db : Db)
      → (enqueue_uploaded stores env now v media obj db).uploads ≡ db.uploads
  unfolding enqueue_uploaded enqueue
  uploads-enqueue_uploaded now v media obj db = ground arith

  requested :
      (now : Time) (album key filename target temp : Text) (size : ℕ) (db : Db)
      → (u : Upload) × (find
            (is_request stores env album key)
            (begin_upload stores env now album key filename target temp size db).uploads
          ≡ some u)
  unfolding begin_upload new_upload find
  requested now album key filename target temp size db =
      elim (Option-cases (find (is_request stores env album key) db.uploads)) [
        | inl f ↦
            rw (f, begin_upload)
              (
                new_upload stores env (env.new_id db.issued) (unix now) album key filename target
                    temp size,
                find-append_none (is_request stores env album key) db.uploads _
                      (find-none _ db.uploads f)
                    ∙ rw (text_eq_refl album, text_eq_refl key) refl,
              )
        | inr (u, f) ↦
            rw (f, begin_upload)
              (
                _,
                find-update (is_request stores env album key) (is_request stores env album key) _
                      (λ x. refl) db.uploads
                    ∙ ap (Option.map _) f,
              )
      ]

  completed :
      (album key media : Text) (now : ℕ) (rows : List Upload) {u : Upload}
      → find (is_request stores env album key) rows ≡ some u
      → (c : Upload) × (find
            (is_done stores env album key)
            (update (is_request stores env album key) (complete_upload stores env media now) rows)
          ≡ some c)
        × (c.media_id ≡ some media)
  unfolding find update complete_upload
  completed album key media now [] f = absurd (cc f)
  completed album key media now (x ∷ xs) f = elim (Bool-cases (is_request stores env album key x)) [
    | inl t ↦ (complete_upload stores env media now x, rw t (rw t refl), refl)
    | inr t ↦ let (c, g, h) = completed album key media now xs (rw t at f) in (c, rw t (rw t g), h)
  ]

  pub get_album-id : (id : Text) (db : Db) {v : View} → get_album id db ≡ ok v → v.id ≡ id
  unfolding get_album
  get_album-id id db {v = v} e = elim (Option-cases (find (is_album id) db.albums)) [
    | inl f ↦ absurd (cc (rw (f, get_album) at e))
    | inr (a, f) ↦
        let same = rw (f, get_album) at e in
        let named : (text_eq a.id id && is_active a.removed_at) ≡ true =
          find-passes (is_album id) db.albums f in
        ap (λ r. id_of r) (sym same) ∙ (text_eq_iff a.id id).0 (ground (arith, named))
  ]
    where
      id_of : Result View → Text
      id_of (ok x) = x.id
      id_of (err x) = id

  -- What is left of an upload that succeeded: the request is done, with the media that is returned.
  abbrev Left : Text → Text → (Db × W) × Result Media → Type 0
  Left album key out =
      ((e : Error) × (out.1 ≡ err e))
      ⊎ ((m : Media) × (media : Text) × (out.1 ≡ ok m)
          × (done_media stores env album key out.0.0 ≡ some media)
          × (get_media media out.0.0 ≡ ok m))

  done-record_upload :
      (now : Time) (v : View) (key target : Text) (kind : Kind) (mime : Text) (stored : Object)
      (db : Db) {u : Upload}
      → find (is_request stores env v.id key) db.uploads ≡ some u
      → done_media stores env v.id key
          (record_upload stores env now v key target kind mime stored db).0
        ≡ some ((record_upload stores env now v key target kind mime stored db).1)
  unfolding record_upload
  done-record_upload now v key target kind mime stored db f =
      let upserted =
        upsert_object env now v.id target kind mime (record stored { relative_path = target }) db in
      let (c, g, h) = completed v.id key (upserted.1.1) (unix now) db.uploads f in
      found (record_upload stores env now v key target kind mime stored db).0
        (ap (find (is_done stores env v.id key)) (
            uploads-enqueue_uploaded now v (upserted.1.1) (record stored { relative_path = target })
              (record upserted.0 {
                uploads =
                    update (is_request stores env v.id key)
                      (complete_upload stores env (upserted.1.1) (unix now)) upserted.0.uploads;
              })
            ∙ ap
                (update (is_request stores env v.id key)
                  (complete_upload stores env (upserted.1.1) (unix now)))
                (uploads-upsert_object now v.id target kind mime
                  (record stored { relative_path = target }) db))
          ∙ g)
        h
    where
      found :
          (after : Db) {c : Upload} {x : Text}
          → find (is_done stores env v.id key) after.uploads ≡ some c
          → c.media_id ≡ some x
          → done_media stores env v.id key after ≡ some x
      found after g h = rw (g, done_media) h

  store_upload-Left :
      (now : Time) (v : View) (primary : Binding) (key filename target temp : Text) (bytes : List ℕ)
      (kind : Kind) (mime : Text) (s : Db × W)
      → Left v.id key
          (store_upload stores env now v primary key filename target temp bytes kind mime s)
  unfolding store_upload
  store_upload-Left now v primary key filename target temp bytes kind mime s =
      elim (Storage.Result-cases
        (stores.put primary.storage_id (join_path (primary.root_path ∷ target ∷ [])) bytes false
          s.1).1) [
            | inr (e, f) ↦ rw (f, store_upload) (inl (storage_error e, refl))
            | inl (stored, f) ↦
                let begun =
                  begin_upload stores env now v.id key filename target temp (length bytes) s.0 in
                let after = record_upload stores env now v key target kind mime stored begun in
                elim (Result-cases (get_media (after.1) (after.0))) [
                  | inr (e, g) ↦ rw (f, store_upload) (inl (e, g))
                  | inl (m, g) ↦
                      rw (f, store_upload)
                        (inr (
                          m,
                          after.1,
                          g,
                          done-record_upload now v key target kind mime stored begun
                              (requested now v.id key filename target temp (length bytes) s.0).1,
                          g,
                        ))
                ]
          ]

  upload_new-Left :
      (now : Time) (album key filename temp : Text) (bytes : List ℕ) (kind : Kind) (mime : Text)
      (s : Db × W)
      → Left album key (upload_new stores env now album key filename temp bytes kind mime s)
  unfolding upload_new
  upload_new-Left now album key filename temp bytes kind mime s =
      elim (Result-cases (get_album album s.0)) [
        | inr (e, fv) ↦ rw (fv, upload_new) (inl (e, refl))
        | inl (v, fv) ↦ elim (Option-cases v.primary) [
          | inl fp ↦ rw (fv, upload_new) (rw fp (inl (nil_dereference, refl)))
          | inr (p, fp) ↦ elim (Storage.Result-cases (stores.provide p.storage_id s.1)) [
            | inr (e, f) ↦ rw (fv, upload_new) (rw fp (rw f (inl (storage_error e, refl))))
            | inl (u, f) ↦
                elim (Result-cases
                  (available_name stores env p.storage_id p.root_path (base filename) s.1)) [
                    | inr (e, g) ↦ rw (fv, upload_new) (rw fp (rw f (rw g (inl (e, refl)))))
                    | inl (target, g) ↦
                        rw (fv, upload_new)
                          (rw fp (
                            rw f (
                              rw g (
                                subst
                                  (λ a. Left a key (
                                    store_upload stores env now v p key filename target temp bytes
                                      kind mime s))
                                  (get_album-id album s.0 fv)
                                  (store_upload-Left now v p key filename target temp bytes kind
                                    mime s)))))
                  ]
          ]
        ]
      ]

  upload-Left :
      (now : Time) (album filename temp key : Text) (bytes : List ℕ) (s : Db × W)
      → Left album key (upload stores env now album filename temp key bytes s)
  unfolding upload
  upload-Left now album filename temp key bytes s =
      elim (Option-cases (done_media stores env album key s.0)) [
        | inr (media, f) ↦ elim (Result-cases (get_media media s.0)) [
          | inr (e, g) ↦ rw (f, upload) (inl (e, g))
          | inl (m, g) ↦ rw (f, upload) (inr (m, media, g, f, g))
        ]
        | inl f ↦ elim (Option-cases (classify env filename)) [
          | inl c ↦ rw (f, upload) (rw c (inl (unsupported_media, refl)))
          | inr ((kind, mime), c) ↦
              rw (f, upload) (rw c (upload_new-Left now album key filename temp bytes kind mime s))
        ]
      ]

  done_again :
      (later : Time) (album filename temp key : Text) (bytes : List ℕ) (s1 : Db × W) {media : Text}
      {m : Media}
      → done_media stores env album key s1.0 ≡ some media
      → get_media media s1.0 ≡ ok m
      → upload stores env later album filename temp key bytes s1 ≡ (s1, ok m)
  unfolding upload
  done_again later album filename temp key bytes s1 d g = rw (d, upload) (rw g refl)

  -- Once an upload with a key has succeeded, a later upload to the album with that key, of any file,
  -- returns the same media and changes neither the database nor a storage.
  pub upload_again :
      (now later : Time) (album filename filename' temp temp' key : Text) (bytes bytes' : List ℕ)
      (s : Db × W) {m : Media}
      → (upload stores env now album filename temp key bytes s).1 ≡ ok m
      → upload stores env later album filename' temp' key bytes'
          (upload stores env now album filename temp key bytes s).0
        ≡ ((upload stores env now album filename temp key bytes s).0, ok m)
  upload_again now later album filename filename' temp temp' key bytes bytes' s {m = m} e =
      elim (upload-Left now album filename temp key bytes s) [
        | inl (x, f) ↦ absurd (cc)
        | inr (m', media, f, d, g) ↦
            done_again later album filename' temp' key bytes'
              (upload stores env now album filename temp key bytes s).0 d (g ∙ sym f ∙ e)
      ]
