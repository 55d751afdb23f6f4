-- ===== src/Api/Uploads/Tests.antt =====
-- The upload of a picture, and again with its key.
use ialbum.Text.{text_eq}
use ialbum.Text.Laws.{ne-of_test}
use ialbum.Base.{
  NotIn, Distinct, map, ap, ◌≤◌, ℕ, ◌*◌, ◌≡◌, refl, arith, true, false, List, [], ◌∷◌, some,
}
use ialbum.Text.{codes, trim_space}
use ialbum.Time.{second}
use ialbum.Media.Types.{Media, Db}
use ialbum.Media.Tests.{disks, env, state, uploaded, db, photo}
use ialbum.Media.Transfer.OnDisk.{Disks, local_stores}
use ialbum.Media.Transfer.OnDisk.Tests.{call, disks-IsTree}
use ialbum.Media.Transfer.OnDisk.Tests.{disks as local_disks}
use ialbum.Api.{parse_range}
use ialbum.Api.Content.{handle_media_content}
use ialbum.Api.Content.OnDisk.{local_readers, IsReply}
use ialbum.Api.Uploads.Served.{handle_upload-IsReply}
use ialbum.Api.Uploads.{Part, Form, TempFile, Reply, created, handle_upload}
use ialbum.Api.Uploads.Cases.{Outcome, handle_upload-Outcome, handle_upload_again}

abbrev file_of : List ℕ → Form
file_of bytes = record {
  is_multipart = true;
  parts =
      record { form_name = codes "note"; file_name = []; bytes = []; breaks = false }
      ∷ record {
        form_name = codes "file";
        file_name = codes "x.jpg";
        bytes = bytes;
        breaks = false;
      }
      ∷ [];
  breaks = false;
}

abbrev temp : TempFile
temp = record { path = some []; close_fails = false }

handle_upload-Outcome_example :
    Outcome disks env 4 second
      (codes "A")
      (trim_space (codes " k"))
      (file_of (3 ∷ []))
      temp
      state
      (handle_upload disks env 4 second (codes "A") (codes " k") (file_of (3 ∷ [])) temp state)
handle_upload-Outcome_example =
    handle_upload-Outcome disks env 4 second (codes "A") (codes " k") (file_of (3 ∷ [])) temp state

handle_upload_again_example :
    handle_upload disks env 4
      (9 * second)
      (codes "A")
      (codes "k")
      (file_of (4 ∷ []))
      temp
      (handle_upload disks env 4 second (codes "A") (codes "k") (file_of (3 ∷ [])) temp state).0
    ≡ (
      (handle_upload disks env 4 second (codes "A") (codes "k") (file_of (3 ∷ [])) temp state).0,
      created uploaded,
    )
unfolding handle_upload ialbum.Text.trim_space ialbum.Text.trim ialbum.Text.trim_left
    ialbum.Text.byte_length ialbum.Api.Uploads.upload_form ialbum.Api.Uploads.find_file
    ialbum.Api.Uploads.upload_part ialbum.Api.Uploads.copy_limited ialbum.Api.Uploads.reply_to
    ialbum.Media.Names.base ialbum.Media.Transfer.upload ialbum.Sql.find ialbum.Text.text_eq
    ialbum.Media.Index.get_album ialbum.Media.Index.get_media ialbum.Media.Names.join_path
    ialbum.Storage.Path.clean ialbum.Text.has_prefix ialbum.Text.join ialbum.Text.split
    ialbum.Media.Names.fingerprint ialbum.Media.Names.ext ialbum.Media.Names.without_ext
    ialbum.Text.replace_all ialbum.Text.itoa ialbum.Text.trim_prefix
    ialbum.Media.Transfer.upload_new ialbum.Media.Transfer.available_name
    ialbum.Media.Transfer.try_names ialbum.Media.Transfer.store_upload
    ialbum.Media.Transfer.record_upload ialbum.Media.Transfer.begin_upload
    ialbum.Media.Transfer.enqueue_uploaded ialbum.Media.Names.classify ialbum.Media.Names.lookup
    ialbum.Media.Names.normalize_path ialbum.Media.Index.upsert_object ialbum.Media.Index.enqueue
    ialbum.Jobs.enqueue ialbum.Sql.update
handle_upload_again_example =
    handle_upload_again disks env 4 second (9 * second) (codes "A") (codes "k") (file_of (3 ∷ []))
      (file_of (4 ∷ [])) temp temp state refl
      (record {
        has_key = refl;
        key_fits = omega arith;
        multipart = refl;
        made = refl;
        first_file = refl;
        fits = omega arith;
        copied = refl;
        closed = refl;
      })

-- The album with two media, after fifty ids were drawn.
abbrev two_media : Db × Disks
two_media = (record db { issued = 50 }, local_disks)

-- The ids of the two are not drawn any more.
fresh_ids : (n : ℕ) → 50 ≤ n → NotIn (env.new_id n) (map (λ x. x.id) two_media.0.media)
fresh_ids n l = (λ q. omega (arith, l, head_eq q), (λ q. omega (arith, l, head_eq q), tt))
  where
    head_or : List ℕ → ℕ
    head_or [] = 0
    head_or (x ∷ xs) = x

    head_eq : {x y : ℕ} → ◌≡◌ {A = List ℕ} (x ∷ []) (y ∷ []) → x ≡ y
    head_eq q = ap head_or q

two_ids : Distinct (map (λ x. x.id) two_media.0.media)
unfolding text_eq
two_ids = ((ne-of_test (codes "l") (codes "m") refl, tt), (tt, tt))

abbrev uploaded_to : (Db × Disks) × Reply
uploaded_to =
    handle_upload (local_stores call) env 4 second (codes "A") (codes "k") (file_of (3 ∷ 4 ∷ []))
      temp two_media

abbrev media_of : Reply → Media
media_of (created m) = m
media_of reply = photo

handle_upload-IsReply_example :
    IsReply false
      (media_of uploaded_to.1)
      (3 ∷ 4 ∷ [])
      (parse_range (codes "bytes=1-") (media_of uploaded_to.1).size)
      (handle_media_content
        (local_readers call)
        (λ t. t)
        false
        false
        (media_of uploaded_to.1).id
        (codes "bytes=1-")
        uploaded_to.0)
unfolding handle_upload ialbum.Text.trim_space ialbum.Text.trim ialbum.Text.trim_left
    ialbum.Text.byte_length ialbum.Api.Uploads.upload_form ialbum.Api.Uploads.find_file
    ialbum.Api.Uploads.upload_part ialbum.Api.Uploads.copy_limited ialbum.Api.Uploads.reply_to
    ialbum.Media.Names.base ialbum.Media.Transfer.upload ialbum.Sql.find ialbum.Text.text_eq
    ialbum.Media.Index.get_album ialbum.Media.Index.get_media ialbum.Media.Names.join_path
    ialbum.Storage.Path.clean ialbum.Text.has_prefix ialbum.Text.join ialbum.Text.split
    ialbum.Media.Names.fingerprint ialbum.Media.Names.ext ialbum.Media.Names.without_ext
    ialbum.Text.replace_all ialbum.Text.itoa ialbum.Text.trim_prefix
    ialbum.Media.Transfer.upload_new ialbum.Media.Transfer.available_name
    ialbum.Media.Transfer.try_names ialbum.Media.Transfer.store_upload
    ialbum.Media.Transfer.record_upload ialbum.Media.Transfer.begin_upload
    ialbum.Media.Transfer.enqueue_uploaded ialbum.Media.Names.classify ialbum.Media.Names.lookup
    ialbum.Media.Names.normalize_path ialbum.Media.Index.upsert_object ialbum.Media.Index.enqueue
    ialbum.Jobs.enqueue ialbum.Sql.update ialbum.Media.Transfer.OnDisk.local_stores
    ialbum.Storage.Local.stat_object ialbum.Storage.Local.from_info ialbum.Storage.Local.object_of
    ialbum.Storage.Local.Change.put ialbum.Storage.Local.clean
    ialbum.Storage.Path.normalize_relative ialbum.Storage.Path.accept_cleaned ialbum.Text.contains
    ialbum.Storage.Local.Change.put_at ialbum.Storage.Disk.names_eq ialbum.Storage.Disk.lookup
    ialbum.Storage.Disk.look ialbum.Storage.Disk.lstat_below ialbum.Storage.Local.to_slash
    ialbum.Storage.Local.hex
handle_upload-IsReply_example =
    handle_upload-IsReply call call env (λ t. t) false false 4 second (codes "A") (codes "k")
      (codes "bytes=1-") (file_of (3 ∷ 4 ∷ [])) temp two_media disks-IsTree two_ids fresh_ids refl
      (record {
        has_key = refl;
        key_fits = omega arith;
        multipart = refl;
        made = refl;
        first_file = refl;
        fits = omega arith;
        copied = refl;
        closed = refl;
      })
      refl
