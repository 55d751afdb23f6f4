-- ===== src/Api.antt =====
-- internal/api/handlers_media.go: byte ranges and names in archives. Content has the
-- content of a media item, Uploads the uploads, Tickets and Downloads the downloads, and Guards the
-- checks of internal/api/server.go.
pub mod Guards
pub mod Ranges
pub mod Content
pub mod Uploads
pub mod Downloads
pub mod Tickets
mod Tests
use ialbum.Base.{
  ℕ, zero, suc, ◌+◌, ◌-◌, ◌*◌, ◌^◌, Bool, true, false, not, ◌&&◌, ◌||◌, List, [], ◌∷◌, ◌++◌, map,
  Option, none, some, if◌then◌else◌, ltb, leb, ◌==◌, length,
}
use ialbum.Text.{
  Text, codes, text_eq, is_empty, has_prefix, trim_prefix, contains, replace_all, trim, itoa,
}
use ialbum.Time.{Time, unix, minute}
use ialbum.Sql.{find, update, insert, count}
use ialbum.Storage.{ByteRange}
use ialbum.Storage.Path.{clean, slash, backslash}
use ialbum.Media.Types.{Media, Db}
use ialbum.Media.Types
use ialbum.Media.Names.{ext, without_ext}
use ialbum.Media.Index.{View, get_album, get_media}
use ialbum.Media.Albums.Change.{list_media}

abbrev pub is_digit : ℕ → Bool
is_digit c = leb 0x30 c && leb c 0x39

unfoldable pub digits : Text → ℕ → Option ℕ
digits [] n = some n
digits (c ∷ s) n = let rest = digits s (n * 10 + (c - 0x30)) in if is_digit c then rest else none

-- A number of 63 bits, from one digit at least.
abbrev pub in_range : Option ℕ → Option ℕ
in_range none = none
in_range (some n) = if ltb n (2 ^ 63) then some n else none

abbrev pub magnitude : Text → Option ℕ
magnitude s = if is_empty s then none else in_range (digits s 0)

abbrev pub only_zero : Option ℕ → Option ℕ
only_zero none = none
only_zero (some n) = if n == 0 then some 0 else none

-- strconv.ParseInt(s, 10, 64), where a negative number is refused as an error is: both callers
-- refuse it.
unfoldable pub parse_int : Text → Option ℕ
parse_int [] = none
parse_int (c ∷ s) =
    if c == b'-'
    then only_zero (magnitude s)
    else if c == b'+'
    then magnitude s
    else magnitude (c ∷ s)

-- strings.SplitN(s, sep, 2), where there are two parts
unfoldable pub cut : Text → ℕ → Option (Text × Text)
cut [] sep = none
cut (c ∷ s) sep = elim (cut s sep) [
  | none ↦ if c == sep then some ([], s) else none
  | some (a, b) ↦ if c == sep then some ([], s) else some (c ∷ a, b)
]

pub data RangeError : Type 0 where
  unsupported_range invalid_range : RangeError

pub data Parsed : Type 0 where
  whole : Parsed
  part : ByteRange → Parsed
  refused : RangeError → Parsed

-- The end that is asked for, but not behind the last byte.
abbrev pub clip : ℕ → ℕ → ℕ
clip size end = if leb size end then size - 1 else end

-- From the start on: the rest of the file, or up to the end.
unfoldable pub range_from : ℕ → Text → ℕ → Parsed
range_from start rest size =
    if is_empty rest
    then part (record { start = start; length = size - start })
    else elim (parse_int rest) [
      | none ↦ refused invalid_range
      | some end ↦
          if ltb end start
          then refused invalid_range
          else part (record { start = start; length = clip size end - start + 1 })
    ]

unfoldable pub range_parts : Text → ℕ → Parsed
range_parts value size = elim (cut value b'-') [
  | none ↦ refused invalid_range
  | some (first, rest) ↦ elim (parse_int first) [
    | none ↦ refused invalid_range
    | some start ↦ if leb size start then refused invalid_range else range_from start rest size
  ]
]

-- parseRange
unfoldable pub parse_range : Text → ℕ → Parsed
parse_range value size =
    if is_empty value
    then whole
    else if not (has_prefix value (codes "bytes=")) || contains value b','
    then refused unsupported_range
    else range_parts (trim_prefix value (codes "bytes=")) size

-- sanitizeFilename
unfoldable pub sanitize_filename : Text → Text
sanitize_filename value =
    trim (λ c. c == 0x20 || c == b'.')
      (replace_all (replace_all (replace_all value slash b'_') backslash b'_') 0 b'_')

-- The map of `safeZipName`, from a lower case name to its uses.
abbrev pub uses : Text → List (Text × ℕ) → ℕ
uses key [] = 0
uses key ((k, n) ∷ l) = if text_eq k key then n else uses key l

-- The name of an entry before it is told apart from the others.
unfoldable pub entry_name : Text → Text
entry_name value =
    let name = trim_prefix (clean (slash ∷ replace_all value backslash slash)) (slash ∷ []) in
    if is_empty name || text_eq name (b'.' ∷ []) then codes "media" else name

-- safeZipName
unfoldable pub safe_zip_name : (ℕ → ℕ) → Text → List (Text × ℕ) → Text × List (Text × ℕ)
safe_zip_name lower value used =
    let name = entry_name value in
    let key = map lower name in
    let n = uses key used in
    (
      if ltb 0 n
          then without_ext name ++ codes " (" ++ (itoa n ++ (codes ")" ++ ext name))
          else name,
      (key, n + 1) ∷ used,
    )
