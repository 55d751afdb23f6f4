-- ===== src/Storage/Local.antt =====
-- internal/storage/local/local.go. The provider has no state but the files below its root.
pub mod Change
pub mod Files
pub mod Put
pub mod Reads
pub mod Refine
pub mod Listing
pub mod Pages
use mathlib.Core.List.{reverse}
use ialbum.Base.{
  ℕ, zero, suc, ◌+◌, ◌-◌, ◌/◌, ◌%◌, Bool, true, false, not, ◌&&◌, ◌||◌, List, [], ◌∷◌, ◌++◌, Option,
  none, some, ltb, leb, ◌==◌, if◌then◌else◌, length, take, drop,
}
use ialbum.Text.{Text, codes, has_prefix, split, join, itoa, is_empty}
use ialbum.Time.{Time}
use ialbum.Sql.{order_by}
use ialbum.Storage.{
  Result, ok, err, ◌>>=◌, Error, not_found, conflict, unauthorized, unsupported, other, Object,
  Page, ByteRange,
}
use ialbum.Storage.Path.{slash, normalize_relative}
use ialbum.Storage.Disk.{
  Names, Disk, Node, file, folder, link, OsError, not_exist, permission, exist, not_dir, is_a_dir,
  not_empty, path_escapes, invalid_name, OsResult, done, failed, lstat, lstat_below, stat, create,
  insert, remove, rename, read_dir, parent, exists,
}

-- The text of an error of package os, less the operation and the path.
unfoldable pub os_text : OsError → Text
os_text not_exist = codes "file does not exist"
os_text permission = codes "permission denied"
os_text exist = codes "file already exists"
os_text not_dir = codes "not a directory"
os_text is_a_dir = codes "is a directory"
os_text not_empty = codes "directory not empty"
os_text path_escapes = codes "path escapes from parent"
os_text invalid_name = codes "invalid argument"

abbrev pub raw : OsError → Error
raw e = other (os_text e)

-- mapError
unfoldable pub map_error : OsError → Error
unfolding os_text
map_error not_exist = not_found
map_error permission = unauthorized
map_error e = raw e

-- What a call meets: the clock, `randomSuffix`, whether the context is done at a turn of a loop, the
-- error of a write at a turn, the size and time of directories, and `MIMEFromName`.
pub record Call : Type 0 where
  pub now : Time
  pub suffix : Text
  pub cancelled : ℕ → Bool
  pub write_fault : ℕ → Option Error
  pub folder_size : Names → ℕ
  pub folder_time : Names → Time
  pub mime_from_name : Text → Text

abbrev pub canceled : Error
canceled = other (codes "context canceled")

-- Source: the error of its `Open`, and what the reads give, up to the end or to an error.
pub record Source : Type 0 where
  pub open_error : Option Error
  pub reads : List (List ℕ)
  pub read_error : Option Error

-- New, with what os.Stat and os.OpenRoot say of the root
unfoldable pub new : Text → OsResult Node → OsResult (Unit {0}) → Result (Unit {0})
unfolding os_text
new root_path info root =
    if not (has_prefix root_path (slash ∷ []))
    then err (other (codes "local storage root must be absolute"))
    else elim info [
      | failed e ↦ err (raw e)
      | done (file b t) ↦ err (other (codes "local storage root is not a directory"))
      | done (link e) ↦ err (raw e)
      | done folder ↦ elim root [ failed e ↦ err (raw e) | done u ↦ ok tt ]
    ]

abbrev pub names_of : Text → Names
names_of [] = []
names_of (c ∷ s) = split (c ∷ s) slash

-- clean, where a path is the list of its names
unfoldable pub clean : Text → Result Names
clean value = elim (normalize_relative value) [ err e ↦ err e | ok rel ↦ ok (names_of rel) ]

abbrev or_dot : Text → Text
or_dot [] = codes "."
or_dot (c ∷ s) = c ∷ s

-- The path with slashes, `.` for the root
unfoldable pub to_slash : Names → Text
to_slash rel = or_dot (join rel slash)

abbrev hex_digit : ℕ → ℕ
hex_digit n = if ltb n 10 then b'0' + n else b'a' + (n - 10)

unfoldable pub hex_fuel : ℕ → ℕ → Text → Text
hex_fuel zero n out = out
hex_fuel (suc f) n out =
    let rest = hex_fuel f (n / 16) (hex_digit (n % 16) ∷ out) in
    if ltb n 16 then hex_digit n ∷ out else rest

-- The verb %x
unfoldable pub hex : ℕ → Text
unfolding hex_fuel
hex n = hex_fuel (suc n) n []

unfoldable pub object_of : Call → Text → ℕ → Time → Bool → Object
unfolding hex
object_of c rel size at' is_dir = record {
  id = rel;
  relative_path = rel;
  mime_type = c.mime_from_name rel;
  etag = hex at' ++ codes "-" ++ hex size;
  native_checksum = [];
  size = size;
  modified_at = at';
  is_dir = is_dir;
  range_applied = false;
}

-- fromInfo, of what is no link
unfoldable pub from_info : Call → Names → Node → Result Object
unfolding object_of to_slash
from_info c rel (file b t) = ok (object_of c (to_slash rel) (length b) t false)
from_info c rel folder =
    ok (object_of c (to_slash rel) (c.folder_size rel) (c.folder_time rel) true)
from_info c rel (link e) = err unsupported

-- Stat
unfoldable pub stat_object : Call → Text → Disk → Result Object
unfolding clean lstat_below from_info map_error
stat_object c name d = clean name >>= λ rel. elim (lstat rel d) [
  | failed e ↦ err (map_error e)
  | done x ↦ from_info c rel x
]

-- The bytes of a section of a file.
unfoldable pub section : ByteRange → Object → List ℕ → Result (List ℕ × Object)
section br obj content =
    if leb obj.size br.start
    then err (other (codes "invalid range"))
    else let length' =
        if br.length == 0 || ltb obj.size (br.start + br.length)
        then obj.size - br.start
        else br.length in
      ok (take length' (drop br.start content), record obj { range_applied = true })

unfoldable pub ranged : Option ByteRange → Object → List ℕ → Result (List ℕ × Object)
unfolding section
ranged none obj content = ok (content, obj)
ranged (some br) obj content = section br obj content

-- Root.Open of a file, and the bytes it has
unfoldable pub open_bytes : Text → Disk → Result (List ℕ)
unfolding clean lstat_below map_error
open_bytes name d = clean name >>= λ rel. elim (stat rel d) [
  | failed e ↦ err (map_error e)
  | done (file b t) ↦ ok b
  | done folder ↦ err unsupported
  | done (link e) ↦ err (map_error e)
]

-- Open, with all that the reader gives
unfoldable pub open_file : Call → Text → Option ByteRange → Disk → Result (List ℕ × Object)
unfolding stat_object open_bytes ranged
open_file c name br d = stat_object c name d >>= λ obj.
    if obj.is_dir then err unsupported else (open_bytes name d >>= ranged br obj)
