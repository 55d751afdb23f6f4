-- ===== src/Api/Tests.antt =====
-- Runs of the ranges and of the names in archives, and the theorems at inputs.
use ialbum.Base.{some, true, false, ◌*◌, ◌≡◌, refl, [], ◌∷◌, none}
use ialbum.Text.{
  codes, text_eq, has_prefix, trim_prefix, contains, replace_all, split, join, itoa, trim,
}
use ialbum.Time.{second}
use ialbum.Sql.{find, select, order_by}
use ialbum.Storage.Path.{clean}
use ialbum.Media.Types.{Album, Media, Db, mirror, scan_ready, image, processed}
use ialbum.Media.Index.{get_album, get_media}
use ialbum.Media.Albums.Change.{list_media}
use ialbum.Media.Names.{ext, without_ext}
use ialbum.Api.{
  part, refused, invalid_range, unsupported_range, digits, parse_int, cut, range_from, range_parts,
  parse_range, entry_name, safe_zip_name, sanitize_filename,
}
use ialbum.Api.Ranges.{IsInFile, parse_range-IsInFile}
use ialbum.Api.Tickets.{
  create_ticket, issue, album_ids, check_ids, Ticket, err, download_ticket_invalid, find_ticket,
  consume_ticket, ok,
}
use ialbum.Api.Tickets.Once.{take_ticket_once}

ranges :
    (parse_range (codes "bytes=2-5") 10 ≡ part (record { start = 2; length = 4 }))
    × (parse_range (codes "bytes=2-") 10 ≡ part (record { start = 2; length = 8 }))
    × (parse_range (codes "bytes=2-99") 10 ≡ part (record { start = 2; length = 8 }))
    × (parse_range (codes "bytes=-5") 10 ≡ refused invalid_range)
    × (parse_range (codes "bytes=0-1,3-4") 10 ≡ refused unsupported_range)
unfolding parse_range range_parts range_from parse_int digits cut has_prefix trim_prefix contains
ranges = (refl, refl, refl, refl, refl)

parse_range-IsInFile_example : IsInFile 10 (parse_range (codes "bytes=2-99") 10)
parse_range-IsInFile_example = parse_range-IsInFile (codes "bytes=2-99") 10

-- The third entry gets the name that the second has.
same_names :
    ((safe_zip_name (λ c. c) (codes "a.jpg") ((codes "a.jpg", 1) ∷ [])).0 ≡ codes "a (1).jpg")
    × ((safe_zip_name (λ c. c) (codes "a (1).jpg") ((codes "a.jpg", 2) ∷ (codes "a.jpg", 1) ∷ [])).0
        ≡ codes "a (1).jpg")
unfolding safe_zip_name entry_name text_eq has_prefix trim_prefix contains replace_all split join
    clean ext without_ext itoa
same_names = (refl, refl)

abbrev ticket : Ticket
ticket = record {
  id = codes "i";
  token_hash = codes "h";
  session_id = codes "s";
  album_id = none;
  media_ids = codes "m" ∷ [];
  filename = codes "trip.zip";
  expires_at = 300;
  consumed_at = none;
}

take_ticket_once_example :
    ((consume_ticket (10 * second) (codes "i") (ticket ∷ [])).1 ≡ ok tt)
    × (consume_ticket
          (11 * second)
          (codes "i")
          (consume_ticket (10 * second) (codes "i") (ticket ∷ [])).0
        ≡ ((consume_ticket (10 * second) (codes "i") (ticket ∷ [])).0, err download_ticket_invalid))
    × (find_ticket
          (20 * second)
          (codes "h")
          (codes "s")
          (consume_ticket (10 * second) (codes "i") (ticket ∷ [])).0
        ≡ err download_ticket_invalid)
unfolding find_ticket find text_eq
take_ticket_once_example =
    take_ticket_once (10 * second) (11 * second) (20 * second) (codes "h") (codes "s") (ticket ∷ [])
      {t = ticket} (tt, tt) (tt, tt) refl refl

abbrev album : Album
album = record {
  id = codes "A";
  name = codes "trip";
  description = [];
  cover_media_id = none;
  backup_enabled = true;
  backup_mode = mirror;
  sync_on_upload = true;
  scan_interval = some 3600;
  last_scan_at = none;
  scan_status = scan_ready;
  scan_error = none;
  generation = 1;
  created_at = 0;
  updated_at = 0;
  removed_at = none;
}

abbrev photo : Media
photo = record {
  id = codes "m";
  album_id = codes "A";
  relative_path = codes "x.jpg";
  normalized_path = codes "x.jpg";
  object_id = [];
  kind = image;
  mime_type = codes "image/jpeg";
  size = 2;
  modified_at = 0;
  taken_at = none;
  etag = [];
  native_checksum = [];
  source_version = codes "v";
  processing_status = processed;
  missing_scans = 0;
  first_missing_at = none;
  delete_suppressed = false;
  created_at = 0;
  updated_at = 0;
}

abbrev db : Db
db = record {
  albums = album ∷ [];
  bindings = [];
  media = photo ∷ [];
  replicas = [];
  scan_runs = [];
  uploads = [];
  jobs = [];
  tags = [];
  album_tags = [];
  issued = 0;
}

-- The ticket of an album that holds one photo.
one_photo :
    create_ticket (λ a b. true) second (codes "i") (codes "h") (codes "s") (codes "A") [] db []
    ≡ some (record ticket { album_id = some (codes "A"); expires_at = 301 } ∷ [], ok tt)
unfolding create_ticket issue album_ids check_ids sanitize_filename list_media find select order_by
    text_eq get_album get_media replace_all trim
one_photo = refl
