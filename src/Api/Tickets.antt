-- ===== src/Api/Tickets.antt =====
-- internal/api/handlers_media.go: download tickets, `handleCreateDownloadTicket` and the part of
-- `handleDownload` that takes a ticket.
pub mod Once
pub mod Total
use ialbum.Base.{
  ℕ, zero, suc, ◌+◌, ◌*◌, Bool, true, false, not, ◌&&◌, List, [], ◌∷◌, ◌++◌, map, Option, none,
  some, if◌then◌else◌, ltb, ◌==◌, length,
}
use ialbum.Text.{Text, codes, text_eq, is_empty}
use ialbum.Time.{Time, unix, minute}
use ialbum.Sql.{find, update, insert, count}
use ialbum.Media.Types.{Media, Db}
use ialbum.Media.Types as Types
use ialbum.Media.Index.{View, get_album, get_media}
use ialbum.Media.Albums.Change.{list_media}
use ialbum.Api.{sanitize_filename}

-- download_tickets
pub record Ticket : Type 0 where
  pub id : Text
  pub token_hash : Text
  pub session_id : Text
  pub album_id : Option Text
  pub media_ids : List Text
  pub filename : Text
  pub expires_at : ℕ
  pub consumed_at : Option ℕ

pub data Refusal : Type 0 where
  resource : Types.Error → Refusal
  selection_required empty_download too_many_items invalid_selection : Refusal
  download_ticket_invalid : Refusal

pub data Result {ℓ} (A : Type ℓ) : Type ℓ where
  ok : A → Result A
  err : Refusal → Result A

abbrev pub id_of : Media → Text
id_of m = m.id

-- The loop over the pages of an album, of 200 media each. The cursor is the offset that it writes.
unfoldable pub album_ids : (Text → Text → Bool) → Text → Db → ℕ → ℕ → List Text → Option (List Text)
album_ids before album db zero offset found = none
album_ids before album db (suc fuel) offset found =
    let (page, next) = list_media before album offset 200 db in
    if is_empty next
    then some (found ++ map id_of page)
    else album_ids before album db fuel (offset + 200) (found ++ map id_of page)

-- The check of every media that is asked for.
unfoldable pub check_ids : Text → Db → List Text → Result (Unit {0})
check_ids album db [] = ok tt
check_ids album db (id ∷ ids) =
    let rest = check_ids album db ids in
    elim (get_media id db) [
      | Types.err e ↦ err (resource e)
      | Types.ok m ↦
          if not (is_empty album) && not (text_eq m.album_id album)
          then err invalid_selection
          else rest
    ]

abbrev pub is_empty_list : List Text → Bool
is_empty_list [] = true
is_empty_list (id ∷ ids) = false

abbrev pub check_selection : Text → Db → List Text → Result (List Text)
check_selection album db ids =
    if is_empty_list ids
    then err empty_download
    else if ltb 100_000 (length ids)
    then err too_many_items
    else elim (check_ids album db ids) [ err e ↦ err e | ok _ ↦ ok ids ]

abbrev pub new_ticket : Text → Text → Text → Text → List Text → Text → Time → Ticket
new_ticket id hash session album ids filename now = record {
  id = id;
  token_hash = hash;
  session_id = session;
  album_id = if is_empty album then none else some album;
  media_ids = ids;
  filename = (if is_empty filename then codes "ialbum-selection" else filename) ++ codes ".zip";
  expires_at = unix (now + 5 * minute);
  consumed_at = none;
}

-- The media that are asked for: those named, or all of the album.
abbrev pub wanted : (Text → Text → Bool) → Text → List Text → Db → Option (Result (List Text))
wanted before album (id ∷ ids) db = some (ok (id ∷ ids))
wanted before album [] db =
    if is_empty album
    then some (err selection_required)
    else elim (album_ids before album db (suc (length db.media)) 0 []) [
      | none ↦ none
      | some ids ↦ some (ok ids)
    ]

-- From the name of the album on; `none` where the pages take more than the fuel.
unfoldable pub issue :
    (Text → Text → Bool)
    → Time
    → Text
    → Text
    → Text
    → Text
    → List Text
    → Text
    → Db
    → List Ticket
    → Option (List Ticket × Result (Unit {0}))
issue before now id hash session album ids name db tickets = elim (wanted before album ids db) [
  | none ↦ none
  | some (err e) ↦ some (tickets, err e)
  | some (ok ids') ↦ elim (check_selection album db ids') [
    | err e ↦ some (tickets, err e)
    | ok chosen ↦ some (
      insert (new_ticket id hash session album chosen (sanitize_filename name) now) tickets,
      ok tt,
    )
  ]
]

-- handleCreateDownloadTicket, with the id and the hash of the token that it draws
unfoldable pub create_ticket :
    (Text → Text → Bool)
    → Time
    → Text
    → Text
    → Text
    → Text
    → List Text
    → Db
    → List Ticket
    → Option (List Ticket × Result (Unit {0}))
create_ticket before now id hash session album ids db tickets =
    if is_empty album
    then issue before now id hash session album ids [] db tickets
    else elim (get_album album db) [
      | Types.err e ↦ some (tickets, err (resource e))
      | Types.ok v ↦ issue before now id hash session album ids v.name db tickets
    ]

abbrev pub is_unused : Ticket → Bool
is_unused t = elim (t.consumed_at) [ none ↦ true | some c ↦ false ]

abbrev pub is_open : Text → Text → Ticket → Bool
is_open hash session t = text_eq t.token_hash hash && text_eq t.session_id session && is_unused t

pub consume : ℕ → Ticket → Ticket
consume now t = record t { consumed_at = some now }

-- The SELECT of `handleDownload`: an open ticket of the session, in time.
unfoldable pub find_ticket : Time → Text → Text → List Ticket → Result Ticket
find_ticket now hash session tickets = elim (find (is_open hash session) tickets) [
  | none ↦ err download_ticket_invalid
  | some t ↦ if ltb t.expires_at (unix now) then err download_ticket_invalid else ok t
]

abbrev pub is_consumable : Text → Ticket → Bool
is_consumable id u = text_eq u.id id && is_unused u

-- The UPDATE of `handleDownload`, with its RowsAffected.
unfoldable pub consume_ticket : Time → Text → List Ticket → List Ticket × Result (Unit {0})
unfolding consume
consume_ticket now id tickets = (
  update (is_consumable id) (consume (unix now)) tickets,
  if count (is_consumable id) tickets == 1 then ok tt else err download_ticket_invalid,
)

-- `handleDownload` up to the list of media, where no other request comes between the two statements
unfoldable pub take_ticket : Time → Text → Text → List Ticket → List Ticket × Result (List Text)
unfolding find_ticket consume_ticket
take_ticket now hash session tickets = elim (find_ticket now hash session tickets) [
  | err e ↦ (tickets, err e)
  | ok t ↦
      let (tickets', consumed) = consume_ticket now t.id tickets in
      elim consumed [ err e ↦ (tickets', err e) | ok u ↦ (tickets', ok t.media_ids) ]
]
