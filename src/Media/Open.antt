-- ===== src/Media/Open.antt =====
-- internal/media/catalog.go, `OpenMedia`: the file behind a media item.
use ialbum.Base.{ℕ, List, [], ◌∷◌, Option}
use ialbum.Text.{Text}
use ialbum.Storage
use ialbum.Storage.{ByteRange, Object}
use ialbum.Media.Types.{Result, ok, ◌>>=◌, from_storage, Media, Db}
use ialbum.Media.Names.{join_path}
use ialbum.Media.Index.{get_album, get_media, deref}

-- The providers by the id of their storage: `Provider`, and its `Open` with all that the reader gives.
pub record Readers (W : Type 0) : Type 0 where
  pub provide : Text → W → Storage.Result (Unit {0})
  pub open_file : Text → Text → Option ByteRange → W → Storage.Result (List ℕ × Object)

-- OpenMedia
unfoldable pub open_media :
    {W : Type 0} → Readers W → Text → Option ByteRange → Db × W → Result ((List ℕ × Object) × Media)
open_media readers id br (db, w) = do
  m ← get_media id db
  album ← get_album m.album_id db
  primary ← deref album.primary
  _ ← from_storage (readers.provide primary.storage_id w)
  opened ← from_storage (
      readers.open_file primary.storage_id (join_path (primary.root_path ∷ m.relative_path ∷ [])) br
        w)
  ok (opened, m)
