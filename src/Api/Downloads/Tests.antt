-- ===== src/Api/Downloads/Tests.antt =====
-- The download of a media item that is there and of one that is not.
use ialbum.Base.{false, [], ◌∷◌, none}
use ialbum.Text.{Text, codes}
use ialbum.Api.Tickets.{Ticket}
use ialbum.Api.Downloads.{Zip, Archive}

abbrev zip : Zip
zip = record {
  lower = λ c. c;
  error_text = λ e. codes "sql: no rows in result set";
  refuses = λ name. none;
  breaks = λ name. none;
}

abbrev ticket : Ticket
ticket = record {
  id = codes "i";
  token_hash = codes "h";
  session_id = codes "s";
  album_id = none;
  media_ids = codes "m" ∷ codes "gone" ∷ [];
  filename = codes "trip.zip";
  expires_at = 300;
  consumed_at = none;
}

abbrev expected : Archive
expected = record {
  entries = record { name = codes "x.jpg"; content = 1 ∷ 2 ∷ [] } ∷ [];
  failures = codes "gone: sql: no rows in result set" ∷ [];
  panics = false;
}
