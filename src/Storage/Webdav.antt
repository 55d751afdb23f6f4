-- ===== src/Storage/Webdav.antt =====
-- internal/storage/webdav/webdav.go, over a server that is a parameter. The path of a request is the
-- list of its names.
pub mod Below
mod Tests
use ialbum.Base.{
  ℕ, zero, suc, ◌+◌, ◌-◌, Bool, true, false, not, ◌&&◌, ◌||◌, List, [], ◌∷◌, ◌++◌, Option, none,
  some, is_some, ltb, leb, ◌==◌, if◌then◌else◌, length, take, drop,
}
use ialbum.Text.{Text, codes, text_eq, is_empty, trim, trim_prefix, split, contains, itoa}
use ialbum.Time.{Time}
use ialbum.Storage.{
  Result, ok, err, ◌>>=◌, Error, not_found, conflict, unauthorized, rate_limited, transient, other,
  Object, Page, ByteRange,
}
use ialbum.Storage.Path
use ialbum.Storage.Path.{slash, normalize_relative}
use ialbum.Storage.Disk.{Names}
use ialbum.Storage.Local.{Source, names_of}
use ialbum.Storage.Local.Put.{concat}
use ialbum.Storage.Local.Listing.{digits, atoi, page_limit, min}

pub data Verb : Type 0 where
  propfind get put mkcol move delete : Verb

pub record Request : Type 0 where
  pub verb : Verb
  pub path : Names
  pub destination : Option (Names × Bool)
  pub depth : ℕ
  pub range : Option ByteRange
  pub body : List ℕ
  pub complete : Bool

-- davResponse; of a propstat the code reads the properties
pub record DavProp : Type 0 where
  pub content_length : ℕ
  pub modified : Text
  pub etag : Text
  pub content_type : Text
  pub collection : Bool

pub record DavResponse : Type 0 where
  pub href : Text
  pub props : List DavProp

-- A response: its status, the multistatus in its body if that is well formed, and the body.
pub record Response : Type 0 where
  pub status : ℕ
  pub multistatus : Result (List DavResponse)
  pub content : List ℕ

-- The base URL's path, as names and as a text, and what the code takes from packages url and http.
pub record Env : Type 0 where
  pub base : Names
  pub base_path : Text
  pub path_unescape : Text → Option Text
  pub parse_time : Text → Time

-- A parsed URL.
pub record Url : Type 0 where
  pub scheme : Text
  pub host : Text
  pub path : Text

-- path.Join of two elements, the second one not empty
abbrev join_paths : Text → Text → Text
join_paths [] b = Path.clean b
join_paths (c ∷ a) b = Path.clean ((c ∷ a) ++ slash ∷ b)

-- New: the path of the base URL
unfoldable pub new : Result Url → Text → Result Text
new parsed root = parsed >>= λ u.
    if not (text_eq u.scheme (codes "http") || text_eq u.scheme (codes "https"))
    then err (other (codes "webdav URL must use http or https"))
    else if is_empty u.host
    then err (other (codes "webdav URL requires a host"))
    else normalize_relative root >>= λ rel. ok (join_paths u.path (slash ∷ rel) ++ slash ∷ [])

-- mapStatus
unfoldable pub map_status : ℕ → Error
map_status code =
    if code == 401 || code == 403
    then unauthorized
    else if code == 404
    then not_found
    else if code == 409 || code == 412
    then conflict
    else if code == 429
    then rate_limited
    else if code == 500 || code == 502 || code == 503 || code == 504
    then transient
    else other (codes "webdav returned HTTP " ++ itoa code)

abbrev relative : Text → Names
relative name = elim (normalize_relative name) [ err e ↦ [] | ok rel ↦ names_of rel ]

-- objectURL, which takes a name that is refused for the root
unfoldable pub object_url : Env → Text → Names
object_url env name = env.base ++ relative name

abbrev unquote : Text → Text
unquote = trim (λ c. c == b'"')

abbrev pub trim_slash : Text → Text
trim_slash [] = []
trim_slash (c ∷ []) = if c == slash then [] else c ∷ []
trim_slash (c ∷ d ∷ s) = c ∷ trim_slash (d ∷ s)

unfoldable pub dav_object : Env → Text → Text → DavProp → Object
dav_object env href rel p = record {
  id = href;
  relative_path = rel;
  mime_type = p.content_type;
  etag = unquote p.etag;
  native_checksum = unquote p.etag;
  size = p.content_length;
  modified_at = env.parse_time p.modified;
  is_dir = p.collection;
  range_applied = false;
}

abbrev relative_href : Env → Text → Text
relative_href env href = trim_slash (trim_prefix (trim_prefix href env.base_path) (slash ∷ []))

-- The objects of the responses behind the first one, which is the directory.
unfoldable pub dav_objects : Env → List DavResponse → List Object
unfolding dav_object
dav_objects env [] = []
dav_objects env (r ∷ rs) =
    let rest = dav_objects env rs in
    elim r.props [
      | [] ↦ rest
      | p ∷ ps ↦ elim (env.path_unescape r.href) [
        | none ↦ rest
        | some href ↦
            if is_empty (relative_href env href)
            then rest
            else dav_object env r.href (relative_href env href) p ∷ rest
      ]
    ]

abbrev behind_first : List DavResponse → List DavResponse
behind_first [] = []
behind_first (r ∷ rs) = rs

unfoldable pub dav_page : List Object → ℕ → ℕ → Page
dav_page objects offset limit =
    let start = min offset (length objects) in
    let end = min (start + limit) (length objects) in
    record {
      objects = take (end - start) (drop start objects);
      next_cursor = if ltb end (length objects) then itoa end else [];
    }

abbrev pub ask : Verb → Names → Request
ask verb path = record {
  verb = verb;
  path = path;
  destination = none;
  depth = 0;
  range = none;
  body = [];
  complete = true;
}

abbrev is_success : ℕ → Bool
is_success status = leb 200 status && ltb status 300

-- The end of a call by the status of its response.
abbrev by_status : (ℕ → Bool) → Result Response → Result (Unit {0})
by_status p (err e) = err e
by_status p (ok r) = if p r.status then ok tt else err (map_status r.status)

-- A body that ends with an error fails the request.
abbrev sent : Option Error → Result Response → Result Response
sent none r = r
sent (some e) r = err e

abbrev stat_of : Env → Text → Response → Result Object
stat_of env name r =
    if not (r.status == 207)
    then err (map_status r.status)
    else r.multistatus >>= λ m. elim m [
      | [] ↦ err not_found
      | d ∷ ds ↦ elim d.props [
        | [] ↦ err not_found
        | p ∷ ps ↦
            ok (
              dav_object env d.href (elim (normalize_relative name) [ err e ↦ [] | ok rel ↦ rel ])
                p)
      ]
    ]

abbrev is_pos : Option ℕ → Bool
is_pos none = false
is_pos (some n) = ltb 0 n

abbrev is_negative : Text → Bool
is_negative [] = false
is_negative (c ∷ s) = c == b'-' && is_pos (digits 0 s)

-- The slice panics on a negative cursor; the panic is an error here.
abbrev list_of : Env → Text → ℕ → Response → Result Page
list_of env cursor limit r =
    if not (r.status == 207)
    then err (map_status r.status)
    else r.multistatus >>= λ m.
        if is_negative cursor
        then err (other (codes "slice bounds out of range"))
        else ok (dav_page (dav_objects env (behind_first m)) (atoi cursor) (page_limit limit))

abbrev opened_of : Option ByteRange → Object → Response → Result (List ℕ × Object)
opened_of br obj r =
    if not (r.status == 200 || r.status == 206)
    then err (map_status r.status)
    else ok (
      r.content,
      record obj { range_applied = elim br [ none ↦ false | some b ↦ r.status == 206 ] },
    )

unfoldable pub upload : Env → Text → Source → Request
unfolding object_url
upload env name source = record (ask put (object_url env name)) {
  body = concat source.reads;
  complete = not (is_some source.read_error);
}

-- What stands before the last slash, with it.
unfoldable pub upto_slash : Text → Text
upto_slash [] = []
upto_slash (c ∷ s) = if contains (c ∷ s) slash then c ∷ upto_slash s else []

-- path.Dir
unfoldable pub dir_of : Text → Text
unfolding upto_slash
dir_of name = Path.clean (upto_slash name)

module _ (env : Env) {W : Type 0} (serve : Request → W → W × Result Response) where
  -- Stat
  unfoldable pub stat : Text → W → W × Result Object
  unfolding object_url dav_object map_status
  stat name w =
      let (v, r) = serve (ask propfind (object_url env name)) w in (v, r >>= stat_of env name)

  -- List
  unfoldable pub list : Text → Text → ℕ → W → W × Result Page
  unfolding object_url dav_objects dav_page map_status
  list dir cursor limit w =
      let (v, r) = serve (record (ask propfind (object_url env dir)) { depth = 1 }) w in
      (v, r >>= list_of env cursor limit)

  unfoldable pub open_found : Text → Option ByteRange → W → Object → W × Result (List ℕ × Object)
  unfolding object_url map_status
  open_found name br w obj =
      let (v, r) = serve (record (ask get (object_url env name)) { range = br }) w in
      (v, r >>= opened_of br obj)

  -- Open
  unfoldable pub open_file : Text → Option ByteRange → W → W × Result (List ℕ × Object)
  unfolding stat open_found
  open_file name br w =
      let (v, found) = stat name w in
      elim found [ err e ↦ (v, err e) | ok obj ↦ open_found name br v obj ]

  abbrev is_made : ℕ → Bool
  is_made status = status == 201 || status == 200 || status == 405

  -- Mkdir, from a directory that is there on
  unfoldable pub mkdir_below : Names → Names → W → W × Result (Unit {0})
  unfolding map_status
  mkdir_below current [] w = (w, ok tt)
  mkdir_below current (part ∷ parts) w =
      let here = current ++ part ∷ [] in
      let (v, r) = serve (ask mkcol (env.base ++ here)) w in
      elim (by_status is_made r) [ err e ↦ (v, err e) | ok u ↦ mkdir_below here parts v ]

  -- Mkdir
  unfoldable pub mkdir : Text → W → W × Result (Unit {0})
  unfolding mkdir_below
  mkdir name w = elim (normalize_relative name) [
    | err e ↦ (w, err e)
    | ok rel ↦ mkdir_below [] (names_of rel) w
  ]

  -- Move
  unfoldable pub move_to : Text → Text → Bool → W → W × Result (Unit {0})
  unfolding object_url map_status
  move_to from to overwrite w =
      let request = record (ask move (object_url env from)) {
        destination = some (object_url env to, overwrite);
      } in
      let (v, r) = serve request w in (v, by_status is_success r)

  -- Delete
  unfoldable pub remove : Text → W → W × Result (Unit {0})
  unfolding object_url map_status
  remove name w =
      let (v, r) = serve (ask delete (object_url env name)) w in (v, by_status is_success r)

  abbrev temp_name : Text → Text
  temp_name name = name ++ codes ".ialbum.tmp"

  unfoldable pub rename_temp : Text → W → W × Result Object
  unfolding move_to stat
  rename_temp name w =
      let (v, r) = move_to (temp_name name) name true w in
      elim r [ err e ↦ (v, err e) | ok u ↦ stat name v ]

  -- Put behind Mkdir
  unfoldable pub send : Text → Source → W → W × Result Object
  unfolding upload rename_temp map_status
  send name source w = elim source.open_error [
    | some e ↦ (w, err e)
    | none ↦
        let (v, r) = serve (upload env (temp_name name) source) w in
        elim (by_status is_success (sent source.read_error r)) [
          | err e ↦ (v, err e)
          | ok u ↦ rename_temp name v
        ]
  ]

  unfoldable pub put_in : Text → Source → W → W × Result Object
  unfolding mkdir dir_of send
  put_in name source w =
      let (v, r) = mkdir (dir_of name) w in
      elim r [ err e ↦ (v, err e) | ok u ↦ send name source v ]

  -- Put, where `fail` is a conflict policy of "fail"
  unfoldable pub store : Text → Source → Bool → W → W × Result Object
  unfolding stat put_in
  store name source fail w =
      if not fail
      then put_in name source w
      else let (v, found) = stat name w in
        elim found [ ok obj ↦ (v, err conflict) | err e ↦ put_in name source v ]
