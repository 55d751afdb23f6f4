-- ===== src/Storage/Baidu/Reads.antt =====
-- internal/storage/baidu/baidu.go: `List`, `Stat` and `Open`.
use ialbum.Base.{
  ℕ, zero, suc, ◌+◌, ◌-◌, Bool, not, ◌&&◌, ◌||◌, List, [], ◌∷◌, ◌++◌, map, Option, none, some,
  is_some, ltb, ◌==◌, if◌then◌else◌, length,
}
use ialbum.Text.{Text, codes, text_eq, is_empty, contains, itoa}
use ialbum.Sql.{find}
use ialbum.Storage.{Result, ok, err, not_found, other, Object, Page, ByteRange}
use ialbum.Storage.Path.{dot, normalize_relative}
use ialbum.Storage.Webdav.{dir_of}
use ialbum.Storage.Local.Listing.{digits}
use ialbum.Storage.Baidu.Calls.{ℤ, pos, ◌+ℤ◌, itoa_ℤ, atoi, Call, pure, raise, lift, ◌>>=◌, ◌>>◌}
use ialbum.Storage.Baidu.{
  list_files, file_metas, download, Response, Item, Env, Net, map_http, map_errno, failure,
  remote_path, object_of, request, json_request, access_token,
}

abbrev pub page_limit : ℕ → ℕ
page_limit limit = if limit == 0 || ltb 1000 limit then 200 else limit

-- A page from the answer to a request from a start on.
unfoldable pub page_of : Env → ℤ → ℕ → List Item → Page
unfolding object_of
page_of env start limit items = record {
  objects = map (object_of env) items;
  next_cursor = if length items == limit then itoa_ℤ (start +ℤ pos limit) else [];
}

abbrev pub check : ℤ → Result (Unit {0})
check errno = failure tt (map_errno errno)

abbrev pub directory : Text → Text
directory dir = if text_eq dir dot then [] else dir

abbrev pub is_at : Text → Object → Bool
is_at rel obj = text_eq obj.relative_path rel

-- What Open gives. `no_reader` is a nil reader with a nil error, `unfinished` is no fuel left.
pub data Opened : Type 0 where
  unfinished no_reader : Opened
  reader : (content : List ℕ) → Object → Opened

-- The Range header
unfoldable pub range_header : ByteRange → Text
range_header b =
    codes "bytes="
    ++ itoa b.start
    ++ codes "-"
    ++ (if ltb 0 b.length then itoa (b.start + b.length - 1) else [])

abbrev range_of : Option ByteRange → Option Text
range_of none = none
range_of (some b) = some (range_header b)

abbrev with_token : Env → Text → Text → Text
with_token env dlink token =
    dlink
    ++ (if contains dlink b'?' then codes "&" else codes "?")
    ++ codes "access_token="
    ++ env.query_escape token

-- strconv.ParseInt of the id of an object
abbrev id_number : Object → Result ℕ
id_number obj =
    let bad = err (other (codes "strconv.ParseInt: invalid syntax")) in
    if is_empty obj.id then bad else elim (digits 0 obj.id) [ none ↦ bad | some n ↦ ok n ]

abbrev opened_of : Option ByteRange → Object → Response → Result Opened
opened_of br obj r =
    if not (r.status == 200 || r.status == 206)
    then err (map_http r.status)
    else ok (reader r.content (record obj { range_applied = is_some br && r.status == 206 }))

module _ (env : Env) {W : Type 0} (net : Net W) where
  unfoldable pub list_page : Text → ℤ → ℕ → Text → Call W Page
  unfolding json_request page_of map_errno
  list_page rel start limit token = do
    result ←
        json_request env net env.read_listed
          (list_files token (remote_path env.root rel) start limit)
    lift (check result.errno)
    pure (page_of env start limit result.items)

  -- List
  unfoldable pub list : Text → Text → ℕ → Call W Page
  unfolding access_token list_page atoi
  list dir cursor limit = do
    token ← access_token env net
    rel ← lift (normalize_relative dir)
    list_page rel (atoi cursor) (page_limit limit) token

  -- A turn of the loop of Stat behind a page.
  abbrev pub on_page :
      Option Object → Text → (Text → Call W (Option Object)) → Call W (Option Object)
  on_page (some obj) next more = pure (some obj)
  on_page none [] more = raise not_found
  on_page none (c ∷ next) more = more (c ∷ next)

  -- The loop of Stat, where `none` is no fuel left.
  unfoldable pub find_object : ℕ → Text → Text → Text → Call W (Option Object)
  unfolding list
  find_object zero dir rel cursor = pure none
  find_object (suc fuel) dir rel cursor = do
    page ← list dir cursor 200
    on_page (find (is_at rel) page.objects) page.next_cursor (find_object fuel dir rel)

  -- Stat
  unfoldable pub stat : ℕ → Text → Call W (Option Object)
  unfolding find_object
  stat fuel name = do
    rel ← lift (normalize_relative name)
    find_object fuel (directory (dir_of rel)) rel []

  unfoldable pub fetch : Option ByteRange → Object → Text → List Text → Call W Opened
  unfolding request map_http
  fetch br obj token [] = pure no_reader
  fetch br obj token (dlink ∷ rest) = do
    r ← request env net (download (with_token env dlink token) (range_of br))
    lift (opened_of br obj r)

  unfoldable pub open_found : Option ByteRange → Object → Call W Opened
  unfolding access_token json_request fetch
  open_found br obj = do
    fs_id ← lift (id_number obj)
    token ← access_token env net
    meta ← json_request env net env.read_metas (file_metas token fs_id)
    lift (check meta.errno)
    fetch br obj token meta.dlinks

  -- Open
  unfoldable pub open_file : ℕ → Text → Option ByteRange → Call W Opened
  unfolding stat open_found
  open_file fuel name br = do
    found ← stat fuel name
    elim found [ none ↦ pure unfinished | some obj ↦ open_found br obj ]
