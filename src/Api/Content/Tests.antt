-- ===== src/Api/Content/Tests.antt =====
-- A range of a file in a local directory.
use ialbum.Base.{◌≡◌, refl, [], ◌∷◌, false}
use ialbum.Text.{codes}
use ialbum.Storage.Local.{object_of}
use ialbum.Media.Tests.{db, photo, view, binds_primary}
use ialbum.Media.Transfer.OnDisk.Tests.{call, disks}
use ialbum.Api.{parse_range}
use ialbum.Api.Content.{handle_media_content, content_disposition}
use ialbum.Api.Content.OnDisk.{local_readers, IsReply, handle_media_content-IsReply}

handle_media_content-IsReply_example :
    IsReply false photo (1 ∷ 2 ∷ []) (parse_range (codes "bytes=1-") photo.size) (
      handle_media_content
        (local_readers call)
        (λ t. t)
        false
        false
        (codes "m")
        (codes "bytes=1-")
        (db, disks))
unfolding ialbum.Media.Index.get_album ialbum.Sql.find ialbum.Text.text_eq
    ialbum.Media.Index.get_media ialbum.Storage.Local.open_file ialbum.Storage.Local.stat_object
    ialbum.Storage.Local.open_bytes ialbum.Storage.Local.ranged ialbum.Storage.Local.from_info
    ialbum.Storage.Path.normalize_relative ialbum.Storage.Path.accept_cleaned ialbum.Text.contains
    ialbum.Text.replace_all ialbum.Text.trim_space ialbum.Text.trim_prefix
    ialbum.Media.Names.join_path ialbum.Text.trim ialbum.Storage.Path.clean ialbum.Text.has_prefix
    ialbum.Text.join ialbum.Text.split ialbum.Storage.Local.Change.put_at
    ialbum.Storage.Disk.names_eq ialbum.Storage.Disk.lookup ialbum.Storage.Disk.look
handle_media_content-IsReply_example =
    handle_media_content-IsReply call (λ t. t) false false (codes "m") (db, disks) {v = view}
      {primary = binds_primary} {obj = object_of call (codes "in/x.jpg") 2 7 false} refl refl refl
      refl (codes "bytes=1-")

-- A plus in a file name, which `url.PathEscape` leaves, becomes a space.
plus_is_lost :
    content_disposition (λ t. t) (codes "inline") (codes "a+b")
    ≡ codes "inline; filename=\"a+b\"; filename*=UTF-8''a%20b"
unfolding content_disposition ialbum.Text.replace_all
plus_is_lost = refl
