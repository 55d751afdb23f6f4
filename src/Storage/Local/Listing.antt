-- ===== src/Storage/Local/Listing.antt =====
-- internal/storage/local/local.go, `List`: a directory in pages.
use ialbum.Base.{
  ℕ, suc, ◌+◌, ◌-◌, ◌*◌, Bool, true, false, ◌&&◌, ◌||◌, List, [], ◌∷◌, ◌++◌, Option, none, some,
  ltb, leb, ◌==◌, if◌then◌else◌, length, take, drop,
}
use ialbum.Text.{Text, itoa}
use ialbum.Sql.{order_by}
use ialbum.Storage.{Result, ok, err, Object, Page}
use ialbum.Storage.Disk.{Names, Disk, Node, file, folder, link, done, failed, read_dir}
use ialbum.Storage.Local.{Call, canceled, clean, map_error, object_of, to_slash}

abbrev pub is_digit : ℕ → Bool
is_digit c = leb b'0' c && leb c b'9'

unfoldable pub digits : ℕ → Text → Option ℕ
digits n [] = some n
digits n (c ∷ s) = if is_digit c then digits (n * 10 + (c - b'0')) s else none

abbrev pub max_int : ℕ
max_int = 0x7fffffffffffffff

-- A number that does not fit is cut off.
abbrev saturate : Option ℕ → ℕ
saturate none = 0
saturate (some n) = if ltb max_int n then max_int else n

-- strconv.Atoi with its error ignored, where a negative number counts as 0, as in `List`.
unfoldable pub atoi : Text → ℕ
unfolding digits
atoi [] = 0
atoi (c ∷ []) = saturate (digits 0 (c ∷ []))
atoi (c ∷ d ∷ s) =
    if c == b'-'
    then 0
    else if c == b'+'
    then saturate (digits 0 (d ∷ s))
    else saturate (digits 0 (c ∷ d ∷ s))

-- The texts in the order of their characters, as Go compares strings in UTF-8.
unfoldable pub text_le : Text → Text → Bool
text_le [] t = true
text_le (c ∷ s) [] = false
text_le (c ∷ s) (d ∷ t) = if c == d then text_le s t else ltb c d

unfoldable pub by_name : Text × Node → Text × Node → Bool
unfolding text_le
by_name a b = text_le a.0 b.0

-- The objects of some entries of a directory. A link is left out.
unfoldable pub objects_of : Call → Names → List (Text × Node) → List Object
unfolding object_of to_slash
objects_of c dir [] = []
objects_of c dir ((n, file b t) ∷ rest) =
    object_of c (to_slash (dir ++ n ∷ [])) (length b) t false ∷ objects_of c dir rest
objects_of c dir ((n, folder) ∷ rest) =
    object_of c (to_slash (dir ++ n ∷ [])) (c.folder_size (dir ++ n ∷ []))
      (c.folder_time (dir ++ n ∷ [])) true
    ∷ objects_of c dir rest
objects_of c dir ((n, link e) ∷ rest) = objects_of c dir rest

-- The loop over a part of the entries, which asks the context before each.
unfoldable pub is_cancelled : Call → ℕ → List (Text × Node) → Bool
is_cancelled c turn [] = false
is_cancelled c turn (e ∷ rest) = c.cancelled turn || is_cancelled c (suc turn) rest

abbrev pub page_limit : ℕ → ℕ
page_limit limit = if limit == 0 || ltb 500 limit then 200 else limit

abbrev pub min : ℕ → ℕ → ℕ
min a b = if ltb b a then b else a

-- A page of the sorted entries. `none` is the panic of the slice where the offset is past the end.
unfoldable pub page_of : Call → Names → List (Text × Node) → ℕ → ℕ → Option (Result Page)
unfolding objects_of is_cancelled
page_of c dir entries offset limit =
    let end = min (offset + limit) (length entries) in
    let part = take (end - offset) (drop offset entries) in
    if ltb end offset
    then none
    else if is_cancelled c 0 part
    then some (err canceled)
    else some (
        ok (record {
          objects = objects_of c dir part;
          next_cursor = if ltb end (length entries) then itoa end else [];
        }))

-- List
unfoldable pub list : Call → Text → Text → ℕ → Disk → Option (Result Page)
unfolding clean read_dir map_error by_name page_of atoi
list c dir cursor limit d = elim (clean dir) [
  | err e ↦ some (err e)
  | ok rel ↦ elim (read_dir rel d) [
    | failed e ↦ some (err (map_error e))
    | done entries ↦ page_of c rel (order_by by_name entries) (atoi cursor) (page_limit limit)
  ]
]
