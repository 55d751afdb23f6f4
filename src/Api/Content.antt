-- ===== src/Api/Content.antt =====
-- internal/api/handlers_media.go, `handleMediaContent`: the bytes of a media item, or a range of them.
pub mod Parts
pub mod OnDisk
mod Tests
use ialbum.Base.{
  ℕ, zero, suc, ◌+◌, ◌-◌, Bool, true, false, ◌||◌, List, [], ◌∷◌, ◌++◌, Option, none, some,
  if◌then◌else◌, ltb, ◌==◌,
}
use ialbum.Text.{Text, codes, replace_all, itoa}
use ialbum.Storage
use ialbum.Storage.{ByteRange, Object}
use ialbum.Media.Types.{Error, no_rows, nil_dereference, storage_error, ok, err, Media, Db}
use ialbum.Media.Names.{base}
use ialbum.Media.Index.{get_media}
use ialbum.Media.Open.{Readers, open_media}
use ialbum.Api.{Parsed, whole, part, refused, parse_range}

-- An answer with the bytes of a file, and the headers that speak of them.
pub record Served : Type 0 where
  pub status : ℕ
  pub content_type : Text
  pub etag : Text
  pub content_disposition : Text
  pub content_range : Option Text
  pub content_length : Text
  pub body : List ℕ

-- What the client gets: the bytes, an error with its status and code, the answer 416 with its
-- `Content-Range`, or the answer 500 of `middleware.Recoverer` to a panic.
pub data Reply : Type 0 where
  served : Served → Reply
  failed : ℕ → Text → Reply
  unsatisfiable : Text → Reply
  panicked : Reply

-- resourceError
unfoldable pub resource_error : Error → Reply
resource_error no_rows = failed 404 (codes "not_found")
resource_error (storage_error Storage.not_found) = failed 404 (codes "not_found")
resource_error (storage_error Storage.conflict) = failed 409 (codes "conflict")
resource_error (storage_error Storage.unauthorized) = failed 503 (codes "storage_unauthorized")
resource_error nil_dereference = panicked
resource_error e = failed 500 (codes "internal_error")

-- strings.ReplaceAll(s, "+", "%20")
unfoldable pub escape_plus : Text → Text
escape_plus [] = []
escape_plus (c ∷ s) = if c == b'+' then codes "%20" ++ escape_plus s else c ∷ escape_plus s

abbrev quote : ℕ
quote = 0x22

-- The file name between the quotes of the header.
unfoldable pub safe_name : Text → Text
safe_name filename = replace_all (replace_all (replace_all filename quote b'_') 0x0D b'_') 0x0A b'_'

-- contentDisposition, with url.PathEscape as an argument
unfoldable pub content_disposition : (Text → Text) → Text → Text → Text
unfolding safe_name escape_plus
content_disposition path_escape kind filename =
    kind
    ++ codes "; filename="
    ++ quote ∷ safe_name filename
    ++ quote ∷ codes "; filename*=UTF-8''"
    ++ escape_plus (path_escape filename)

-- The text of a - b, which may be negative.
abbrev pub difference : ℕ → ℕ → Text
difference a b = if ltb a b then b'-' ∷ itoa (b - a) else itoa (a - b)

-- The range asks for more than there is.
abbrev pub is_cut : ByteRange → ℕ → Bool
is_cut br size = br.length == 0 || ltb size (br.start + br.length)

-- The number of bytes that are sent of a range, and the place of the last of them.
abbrev pub part_length : ByteRange → ℕ → Text
part_length br size = if is_cut br size then difference size br.start else itoa br.length

abbrev pub part_last : ByteRange → ℕ → Text
part_last br size =
    if is_cut br size then difference size 1 else difference (br.start + br.length) 1

abbrev pub range_text : Text → Text → Text → Text
range_text first last total = codes "bytes " ++ (first ++ b'-' ∷ (last ++ b'/' ∷ total))

module _ {W : Type 0} (readers : Readers W) (path_escape : Text → Text) where
  -- The headers, and the body unless the method is HEAD.
  unfoldable pub serve : Bool → Bool → Option ByteRange → Media → List ℕ → Object → Served
  unfolding content_disposition
  serve download head br m bytes obj =
      let full : Served = record {
        status = 200;
        content_type = m.mime_type;
        etag = quote ∷ (m.source_version ++ quote ∷ []);
        content_disposition =
            content_disposition path_escape
              (if download then codes "attachment" else codes "inline") (base m.relative_path);
        content_range = none;
        content_length = itoa obj.size;
        body = if head then [] else bytes;
      } in
      elim br [
        | none ↦ full
        | some r ↦
            if obj.range_applied
            then record full {
              status = 206;
              content_range =
                  some (range_text (itoa r.start) (part_last r obj.size) (itoa obj.size));
              content_length = part_length r obj.size;
            }
            else full
      ]

  -- From the opening of the file on.
  unfoldable pub open_and_serve : Bool → Bool → Text → Option ByteRange → Media → Db × W → Reply
  open_and_serve download head id br m s = elim (open_media readers id br s) [
    | err e ↦ resource_error e
    | ok ((bytes, obj), _) ↦ served (serve download head br m bytes obj)
  ]

  abbrev pub reply_to : Bool → Bool → Text → Media → Db × W → Parsed → Reply
  reply_to download head id m s (refused e) = unsatisfiable (codes "bytes */" ++ itoa m.size)
  reply_to download head id m s whole = open_and_serve download head id none m s
  reply_to download head id m s (part br) = open_and_serve download head id (some br) m s

  -- handleMediaContent, with the Range header, the query `download=1` and the method HEAD or GET
  unfoldable pub handle_media_content : Bool → Bool → Text → Text → Db × W → Reply
  unfolding resource_error open_and_serve serve
  handle_media_content download head id range s = elim (get_media id s.0) [
    | err e ↦ resource_error e
    | ok m ↦ reply_to download head id m s (parse_range range m.size)
  ]
