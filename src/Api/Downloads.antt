-- ===== src/Api/Downloads.antt =====
-- internal/api/handlers_media.go, `handleDownload`: the archive of the media of a ticket.
pub mod Complete
mod Tests
use ialbum.Base.{ℕ, Bool, true, false, List, [], ◌∷◌, ◌++◌, Option, none, some, if◌then◌else◌, take}
use ialbum.Text.{Text, codes}
use ialbum.Time.{Time}
use ialbum.Media.Types as Types
use ialbum.Media.Types.{Error, nil_dereference, Media, Db}
use ialbum.Media.Index.{get_media}
use ialbum.Media.Open.{Readers, open_media}
use ialbum.Api.{safe_zip_name}
use ialbum.Api.Tickets.{Ticket, ok, err, Result, Refusal, take_ticket}

-- What the archive meets: the lower case of a character, the texts of errors, whether `CreateHeader`
-- refuses a name, and after how many bytes the copy into an entry breaks off, if it does.
pub record Zip : Type 0 where
  pub lower : ℕ → ℕ
  pub error_text : Error → Text
  pub refuses : Text → Option Text
  pub breaks : Text → Option (ℕ × Text)

pub record Entry : Type 0 where
  pub name : Text
  pub content : List ℕ

-- The entries in their order, the lines of ialbum-download-errors.txt, which is added where there is
-- one, and whether the handler panics behind them.
pub record Archive : Type 0 where
  pub entries : List Entry
  pub failures : List Text
  pub panics : Bool

pub data Reply : Type 0 where
  busy : Reply
  refused : Refusal → Reply
  archive : Archive → Reply

-- A line of the errors
abbrev pub line : Text → Text → Text
line what why = what ++ (codes ": " ++ why)

abbrev pub add_failure : Text → Archive → Archive
add_failure l a = record a { failures = l ∷ a.failures }

abbrev pub add_entry : Text → List ℕ → Archive → Archive
add_entry name content a = record a {
  entries = record { name = name; content = content } ∷ a.entries;
}

-- The entry of a media item that is open, in front of the rest.
unfoldable pub write_entry : Zip → Text → List ℕ → Archive → Archive
write_entry zip name bytes rest = elim (zip.refuses name) [
  | some why ↦ add_failure (line name why) rest
  | none ↦ elim (zip.breaks name) [
    | some (n, why) ↦ add_entry name (take n bytes) (add_failure (line name why) rest)
    | none ↦ add_entry name bytes rest
  ]
]

module _ {W : Type 0} (readers : Readers W) (zip : Zip) (s : Db × W) where
  -- What is left of the archive where a media item does not open; without a primary storage it panics.
  abbrev pub not_opened : Media → Error → Archive → Archive
  not_opened m nil_dereference rest = record { entries = []; failures = []; panics = true }
  not_opened m e rest = add_failure (line m.relative_path (zip.error_text e)) rest

  -- The loop over the ids, with the names that are used.
  unfoldable pub pack : List Text → List (Text × ℕ) → Archive
  unfolding write_entry
  pack [] used = record { entries = []; failures = []; panics = false }
  pack (id ∷ ids) used = elim (get_media id s.0) [
    | Types.err e ↦ add_failure (line id (zip.error_text e)) (pack ids used)
    | Types.ok m ↦ elim (open_media readers id none s) [
      | Types.err e ↦ not_opened m e (pack ids used)
      | Types.ok ((bytes, obj), _) ↦
          let (name, used') = safe_zip_name zip.lower m.relative_path used in
          write_entry zip name bytes (pack ids used')
    ]
  ]

  abbrev pub reply_to : Result (List Text) → Reply
  reply_to (err e) = refused e
  reply_to (ok ids) = archive (pack ids [])

  -- handleDownload, where `is_busy` if no slot is free
  unfoldable pub handle_download : Bool → Time → Text → Text → List Ticket → List Ticket × Reply
  unfolding pack
  handle_download is_busy now hash session tickets =
      if is_busy
      then (tickets, busy)
      else let (tickets', taken) = take_ticket now hash session tickets in
        (tickets', reply_to taken)
