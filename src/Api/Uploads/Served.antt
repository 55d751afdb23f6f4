-- ===== src/Api/Uploads/Served.antt =====
-- internal/api/handlers_media.go, `handleUpload` and then `handleMediaContent`.
use ialbum.Base.{◌≤◌, ℕ, Bool, false, List, [], ◌∷◌, map, NotIn, Distinct, none, ◌≡◌, sym, ap, ◌∙◌}
use mathlib.Core.Path.{subst}
use ialbum.Text.{Text, trim_space}
use ialbum.Time.{Time}
use ialbum.Storage.Disk.Laws.{IsTree}
use ialbum.Storage.Local.{Call}
use ialbum.Media.Types.{Media, Db, Env}
use ialbum.Media.Names.{join_path}
use ialbum.Media.Index.{get_album}
use ialbum.Media.Transfer.{upload, done_media}
use ialbum.Media.Transfer.Stored.{Stored, upload-Stored}
use ialbum.Media.Transfer.OnDisk.{Disks, local_stores, put_bytes}
use ialbum.Api.{parse_range}
use ialbum.Api.Content.{handle_media_content}
use ialbum.Api.Content.OnDisk.{local_readers, IsReply, handle_media_content-IsReply}
use ialbum.Api.Uploads.{Part, Form, TempFile, created, name_of, handle_upload}
use ialbum.Api.Uploads.Cases.{Accepted, handle_upload-Accepted, reply_to-created}

module _ (c c' : Call) (env : Env) (path_escape : Text → Text) (download head : Bool) where
  -- A file that a local directory has stored for the row is what the content handler opens.
  Stored-IsReply :
      (album range : Text) (bytes : List ℕ) (s s' : Db × Disks) {m : Media}
      → ((id : Text) → IsTree (s.1 id))
      → Stored (local_stores c) album bytes s s' m
      → IsReply head m bytes
          (parse_range range m.size)
          (handle_media_content (local_readers c') path_escape download head m.id range s')
  Stored-IsReply album range bytes s s' {m = m} trees d =
      let (copy, there) =
        put_bytes c c' d.primary.storage_id (join_path (d.primary.root_path ∷ m.relative_path ∷ []))
          bytes false s.1 s'.1 (trees d.primary.storage_id) d.put in
      handle_media_content-IsReply c' path_escape download head m.id s' d.has_media
        (ap (λ a. get_album a s'.0) d.of_album ∙ d.found_album) d.has_primary there range

  -- Over local directories, where the rows of the media have distinct ids and no id that is still to
  -- be drawn is among them: a first upload with its key that is answered with a media item can be had
  -- right after as its content, whole or in ranges, with the very bytes of the file of the form.
  pub handle_upload-IsReply :
      (max : ℕ) (now : Time) (album header range : Text) (form : Form) (temp : TempFile)
      (s : Db × Disks) {m : Media} {tmp : Text} {p : Part}
      → ((id : Text) → IsTree (s.1 id))
      → Distinct (map (λ x. x.id) s.0.media)
      → ((n : ℕ) → s.0.issued ≤ n → NotIn (env.new_id n) (map (λ x. x.id) s.0.media))
      → done_media (local_stores c) env album (trim_space header) s.0 ≡ none
      → Accepted max (trim_space header) form temp tmp p
      → (handle_upload (local_stores c) env max now album header form temp s).1 ≡ created m
      → IsReply head m p.bytes (parse_range range m.size) (
          handle_media_content
            (local_readers c')
            path_escape
            download
            head
            m.id
            range
            (handle_upload (local_stores c) env max now album header form temp s).0)
  handle_upload-IsReply max now album header range form temp s {m = m} {tmp = tmp} {p = p} trees d
        fresh first a h =
      let e = handle_upload-Accepted (local_stores c) env max now album header form temp s a in
      let out =
        upload (local_stores c) env now album (name_of p) tmp (trim_space header) p.bytes s in
      Stored-IsReply album range p.bytes s
        (handle_upload (local_stores c) env max now album header form temp s).0 trees
        (subst (λ x. Stored (local_stores c) album p.bytes s x m) (sym (ap (λ o. o.0) e))
          (upload-Stored (local_stores c) env now album (name_of p) tmp (trim_space header) p.bytes
            s d fresh first
            (reply_to-created (local_stores c) env out.1 (sym (ap (λ o. o.1) e) ∙ h))))
