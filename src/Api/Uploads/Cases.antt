-- ===== src/Api/Uploads/Cases.antt =====
-- internal/api/handlers_media.go, `handleUpload`: which uploads are let through.
use mathlib.Core.Path.{subst}
use ialbum.Base.{
  ℕ, ◌≤◌, ◌≡◌, refl, sym, ap, ◌∙◌, ◌⊎◌, inl, inr, Bool, true, false, List, [], ◌∷◌, Option, none,
  some, some_inj, arith, if◌then◌else◌, ltb, length, Bool-cases, Option-cases,
}
use ialbum.Text.{Text, codes, is_empty, byte_length, replace_all, trim_space}
use ialbum.Time.{Time}
use ialbum.Sql.{find}
use ialbum.Storage.Path.{slash, backslash}
use ialbum.Media.Types.{
  Error, no_rows, unsupported_media, waiting_auth, nil_dereference, size_changed, version_changed,
  no_free_name, invalid, storage_error, Result, ok, err, Media, Db, Env, Stores,
}
use ialbum.Media.Names.{base}
use ialbum.Media.Transfer.{upload}
use ialbum.Media.Transfer.Uploads.{upload_again}
use ialbum.Api.Uploads.{
  Part, Form, TempFile, Reply, created, refused, is_file, Found, no_file, broken_form, file_part,
  find_file, copy_limited, name_of, upload_failed, reply_to, upload_part, upload_form, is_bad_key,
  handle_upload,
}

-- An upload with the key `key` whose form has the file `p`, within the limit and copied to `tmp`.
pub record Accepted (max : ℕ) (key : Text) (form : Form) (temp : TempFile) (tmp : Text) (p : Part)
    : Type 0 where
  pub has_key : is_empty key ≡ false
  pub key_fits : byte_length key ≤ 200
  pub multipart : form.is_multipart ≡ true
  pub made : temp.path ≡ some tmp
  pub first_file : find is_file form.parts ≡ some p
  pub fits : length p.bytes ≤ max
  pub copied : p.breaks ≡ false
  pub closed : temp.close_fails ≡ false

or_slash : (last : Text) → is_empty (if is_empty last then slash ∷ [] else last) ≡ false
or_slash [] = refl
or_slash (c ∷ t) = refl

base-is_empty : (t : Text) → is_empty (base t) ≡ false
unfolding base
base-is_empty [] = refl
base-is_empty (c ∷ t) = or_slash _

abbrev found_file : Bool → Option Part → Found
found_file breaks none = if breaks then broken_form else no_file
found_file breaks (some p) = file_part p

find_file-find :
    (ps : List Part) (breaks : Bool) → find_file ps breaks ≡ found_file breaks (find is_file ps)
unfolding find find_file
find_file-find [] breaks = refl
find_file-find (x ∷ ps) breaks = ground (arith, find_file-find ps breaks)

-- The file of a form is the one that is let through.
Accepted-first :
    {max : ℕ} {key tmp : Text} {form : Form} {temp : TempFile} {p q : Part}
    → find is_file form.parts ≡ some p
    → Accepted max key form temp tmp q
    → q ≡ p
Accepted-first f a = some_inj (sym a.first_file ∙ f)

copy_limited-fits :
    (max : ℕ) (p : Part)
    → ltb max (length p.bytes) ≡ false
    → p.breaks ≡ false
    → copy_limited max p ≡ (p.bytes, none)
unfolding copy_limited
copy_limited-fits max p small whole = rw (small, copy_limited) (rw whole refl)

module _ {W : Type 0} (stores : Stores W) (env : Env) where
  -- The upload is let through, and `Upload` gets the bytes of the file; or it is refused, and nothing
  -- changes.
  pub Outcome : ℕ → Time → Text → Text → Form → TempFile → Db × W → (Db × W) × Reply → Type 0
  Outcome max now album key form temp s out =
      ((tmp : Text) × (p : Part) × Accepted max key form temp tmp p
        × (out ≡ (
          (upload stores env now album (name_of p) tmp key p.bytes s).0,
          reply_to (upload stores env now album (name_of p) tmp key p.bytes s).1,
        )))
      ⊎ ((¬ ((tmp : Text) × (p : Part) × Accepted max key form temp tmp p))
          × (status : ℕ) × (code : Text) × (out ≡ (s, refused status code)))

  module _ (max : ℕ) (now : Time) (album key : Text) (form : Form) (temp : TempFile)
      (s : Db × W) where
    refuse :
        {out : (Db × W) × Reply} (status : ℕ) (code : Text)
        → ¬ ((tmp : Text) × (p : Part) × Accepted max key form temp tmp p)
        → out ≡ (s, refused status code)
        → Outcome max now album key form temp s out
    unfolding Outcome
    refuse status code n e = inr (n, status, code, e)

    upload_part-Outcome :
        (tmp : Text) (p : Part)
        → is_bad_key key ≡ false
        → form.is_multipart ≡ true
        → temp.path ≡ some tmp
        → find is_file form.parts ≡ some p
        → Outcome max now album key form temp s
            (upload_part stores env max now album key tmp temp p s)
    unfolding Outcome upload_part copy_limited
    upload_part-Outcome tmp p k m t f =
        let named : is_empty (name_of p) ≡ false =
          base-is_empty (replace_all p.file_name backslash slash) in
        elim (Bool-cases (ltb max (length p.bytes))) [
          | inl large ↦
              refuse 413 upload_failed
                (λ a. absurd (
                  ground (arith, large, ap (λ q. length q.bytes) (Accepted-first f a.2), a.2.fits)))
                (rw (upload_part, named) (rw large refl))
          | inr small ↦ elim (Bool-cases p.breaks) [
            | inl broken ↦
                refuse 500 upload_failed
                  (λ a. cc (broken, ap (λ q. q.breaks) (Accepted-first f a.2), a.2.copied))
                  (rw (upload_part, named) (rw small (rw broken refl)))
            | inr whole ↦ elim (Bool-cases temp.close_fails) [
              | inl stuck ↦
                  refuse 500 upload_failed (λ a. cc (stuck, a.2.closed))
                    (rw (upload_part, named) (rw small (rw whole (rw stuck refl))))
              | inr closed ↦ inl (
                tmp,
                p,
                record {
                  has_key = ground (arith, k);
                  key_fits = ground (arith, k);
                  multipart = m;
                  made = t;
                  first_file = f;
                  fits = ground (arith, small);
                  copied = whole;
                  closed = closed;
                },
                rw (upload_part, named)
                    (rw small (
                      rw whole (
                        rw closed (
                          ap {B = (Db × W) × Reply}
                            (λ b. (
                              (upload stores env now album (name_of p) tmp key b s).0,
                              reply_to (upload stores env now album (name_of p) tmp key b s).1,
                            ))
                            (ap (λ r. r.0) (copy_limited-fits max p small whole)))))),
              )
            ]
          ]
        ]

    upload_form-Outcome :
        is_bad_key key ≡ false
        → form.is_multipart ≡ true
        → Outcome max now album key form temp s
            (upload_form stores env max now album key form temp s)
    unfolding upload_form upload_part
    upload_form-Outcome k m = elim (Option-cases temp.path) [
      | inl t ↦
          refuse 500 (codes "temp_file_failed") (λ a. cc (t, a.2.made)) (rw (t, upload_form) refl)
      | inr (tmp, t) ↦ elim (Option-cases (find is_file form.parts)) [
        | inr (p, f) ↦
            subst (Outcome max now album key form temp s)
              (sym (rw (t, upload_form) (rw (find_file-find form.parts form.breaks) (rw f refl))))
              (upload_part-Outcome tmp p k m t f)
        | inl f ↦ elim (Bool-cases form.breaks) [
          | inl b ↦
              refuse 400 upload_failed (λ a. cc (f, a.2.first_file))
                (rw (t, upload_form)
                  (rw (find_file-find form.parts form.breaks) (rw f (rw b refl))))
          | inr b ↦
              refuse 422 (codes "file_required") (λ a. cc (f, a.2.first_file))
                (rw (t, upload_form)
                  (rw (find_file-find form.parts form.breaks) (rw f (rw b refl))))
        ]
      ]
    ]

  -- An upload with a key of 1 to 200 bytes, whose form has a file that is copied whole within the
  -- limit, gets the answer and the changes of `Upload` of exactly its bytes. Any other is refused with
  -- an error, and neither the database nor a storage changes.
  pub handle_upload-Outcome :
      (max : ℕ) (now : Time) (album header : Text) (form : Form) (temp : TempFile) (s : Db × W)
      → Outcome max now album
          (trim_space header)
          form
          temp
          s
          (handle_upload stores env max now album header form temp s)
  unfolding handle_upload
  handle_upload-Outcome max now album header form temp s =
      elim (Bool-cases (is_bad_key (trim_space header))) [
        | inl k ↦
            refuse max now album (trim_space header) form temp s 422
              (codes "idempotency_key_required") (λ a. ground (arith, k, a.2.has_key, a.2.key_fits))
              (rw (k, handle_upload) refl)
        | inr k ↦ elim (Bool-cases form.is_multipart) [
          | inr m ↦
              refuse max now album (trim_space header) form temp s 400 (codes "invalid_multipart")
                (λ a. cc (m, a.2.multipart)) (rw (k, handle_upload) (rw m refl))
          | inl m ↦
              subst (Outcome max now album (trim_space header) form temp s)
                (sym (rw (k, handle_upload) (rw m refl)))
                (upload_form-Outcome max now album (trim_space header) form temp s k m)
        ]
      ]

  -- An upload that is let through is one of `Upload`.
  pub handle_upload-Accepted :
      (max : ℕ) (now : Time) (album header : Text) (form : Form) (temp : TempFile) (s : Db × W)
      {tmp : Text} {p : Part}
      → Accepted max (trim_space header) form temp tmp p
      → handle_upload stores env max now album header form temp s ≡ (
        (upload stores env now album (name_of p) tmp (trim_space header) p.bytes s).0,
        reply_to (upload stores env now album (name_of p) tmp (trim_space header) p.bytes s).1,
      )
  unfolding Outcome
  handle_upload-Accepted max now album header form temp s {tmp = tmp} {p = p} a =
      elim (handle_upload-Outcome max now album header form temp s) [
        | inr (n, status, code, e) ↦ absurd (n (tmp, p, a))
        | inl (tmp', p', a', e) ↦
            let key = trim_space header in
            e
            ∙ ap {A = Part × Text} {B = (Db × W) × Reply}
                (λ q. (
                  (upload stores env now album (name_of q.0) q.1 key q.0.bytes s).0,
                  reply_to (upload stores env now album (name_of q.0) q.1 key q.0.bytes s).1,
                ))
                (ap (λ q. (q, tmp')) (Accepted-first a.first_file a')
                  ∙ ap (λ t. (p, t)) (some_inj (sym a'.made ∙ a.made)))
      ]

  pub reply_to-created : (r : Result Media) {m : Media} → reply_to r ≡ created m → r ≡ ok m
  unfolding reply_to
  reply_to-created (ok m) h = cc h
  reply_to-created (err e) h = absurd (not_created e h)
    where
      not_created : (e : Error) {m : Media} → reply_to (err e) ≡ created m → ⊥
      not_created no_rows q = cc q
      not_created unsupported_media q = cc q
      not_created waiting_auth q = cc q
      not_created nil_dereference q = cc q
      not_created size_changed q = cc q
      not_created version_changed q = cc q
      not_created no_free_name q = cc q
      not_created (invalid t) q = cc q
      not_created (storage_error x) q = cc q

  -- After an upload that was answered with a media item, an upload to the album with the same key that
  -- is let through, of any file, is answered with the same item, and neither the database nor a
  -- storage changes.
  pub handle_upload_again :
      (max : ℕ) (now later : Time) (album header : Text) (form form' : Form) (temp temp' : TempFile)
      (s : Db × W) {m : Media} {tmp : Text} {p : Part}
      → (handle_upload stores env max now album header form temp s).1 ≡ created m
      → Accepted max (trim_space header) form' temp' tmp p
      → handle_upload stores env max later album header form' temp'
          (handle_upload stores env max now album header form temp s).0
        ≡ ((handle_upload stores env max now album header form temp s).0, created m)
  unfolding Outcome reply_to
  handle_upload_again max now later album header form form' temp temp' s {m = m} {tmp = tmp} {p = p}
        h a =
      elim (handle_upload-Outcome max now album header form temp s) [
        | inr (n, status, code, e) ↦ absurd (cc (e, h))
        | inl (tmp1, p1, a1, e) ↦
            let key = trim_space header in
            let after = (handle_upload stores env max now album header form temp s).0 in
            let first =
              upload_again stores env now later album (name_of p1) (name_of p) tmp1 tmp key p1.bytes
                p.bytes s
                (reply_to-created (upload stores env now album (name_of p1) tmp1 key p1.bytes s).1
                  (sym (ap (λ o. o.1) e) ∙ h)) in
            let same : ◌≡◌ {A = (Db × W) × Result Media}
                (upload stores env later album (name_of p) tmp key p.bytes after) (after, ok m) =
              subst
                (λ x.
                  ◌≡◌ {A = (Db × W) × Result Media}
                    (upload stores env later album (name_of p) tmp key p.bytes x) (x, ok m))
                (sym (ap (λ o. o.0) e)) first in
            handle_upload-Accepted max later album header form' temp' after a
            ∙ ap {B = (Db × W) × Reply} (λ o. (o.0, reply_to o.1)) same
      ]
