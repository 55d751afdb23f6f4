-- ===== src/Api/Downloads/Complete.antt =====
-- internal/api/handlers_media.go, `handleDownload`: the media of a ticket and what is in its archive.
use ialbum.Base.{ℕ, ◌≡◌, ◌⊎◌, List, none, All, Elem, take}
use ialbum.Text.{Text}
use ialbum.Storage.{Object}
use ialbum.Media.Types as Types
use ialbum.Media.Types.{Media, Db}
use ialbum.Media.Index.{get_media}
use ialbum.Media.Open.{Readers, open_media}
use ialbum.Api.{safe_zip_name}
use ialbum.Time.{Time}
use ialbum.Api.Tickets.{ok}
use ialbum.Api.Downloads.{Zip, Entry, Archive, line}

module _ {W : Type 0} (readers : Readers W) (zip : Zip) (s : Db × W) where
  -- The bytes of a media item as they are opened.
  pub Opened : Text → List ℕ → Type 0
  Opened id bytes =
      (obj : Object) × (m : Media) × (open_media readers id none s ≡ Types.ok ((bytes, obj), m))

  -- What a line of the errors calls a media item: its id where it is not in the index, else its path
  -- or the name of its entry.
  pub Calls : Text → Text → Type 0
  Calls id what =
      (what ≡ id)
      ⊎ ((m : Media) × (get_media id s.0 ≡ Types.ok m)
          × ((what ≡ m.relative_path)
              ⊎ ((used : List (Text × ℕ)) × (what
                    ≡ (safe_zip_name zip.lower m.relative_path used).0))))

  -- The media item is whole in the archive, or a line of the errors is about it.
  pub IsPacked : Archive → Text → Type 0
  IsPacked a id =
      ((name : Text) × (bytes : List ℕ) × Opened id bytes
        × Elem (record { name = name; content = bytes }) a.entries)
      ⊎ ((what : Text) × (why : Text) × Calls id what × Elem (line what why) a.failures)

  -- The entry has bytes of a media item of the list, from the first on.
  pub IsOf : List Text → Entry → Type 0
  IsOf ids e =
      (id : Text) × (bytes : List ℕ) × Elem id ids
      × Opened id bytes
      × ((e.content ≡ bytes) ⊎ ((n : ℕ) × (e.content ≡ take n bytes)))

  abbrev Complete : List Text → Archive → Type 0
  Complete ids a = All (IsPacked a) ids × All (IsOf ids) a.entries
