-- ===== src/Storage/Baidu.antt =====
-- internal/storage/baidu/baidu.go: what goes over the network, the token and the reads. Upload has
-- the changes, Device the authorization of a device.
pub mod Calls
mod Wire
pub use Wire.*
pub mod Device
pub mod Reads
pub mod Upload
pub mod Runs
pub mod Keeps
pub mod Find
pub mod Blocks
mod Tests
use ialbum.Base.{
  ℕ, zero, suc, ◌+◌, ◌-◌, ◌*◌, Bool, true, false, not, ◌&&◌, ◌||◌, List, [], ◌∷◌, ◌++◌, Option,
  none, some, ltb, leb, ◌==◌, if◌then◌else◌, length, take,
}
use ialbum.Text.{Text, codes, text_eq, is_empty, trim, trim_prefix, contains, join, itoa}
use ialbum.Time.{Time, second, minute}
use ialbum.Storage.{
  Result, ok, err, Error, not_found, conflict, unauthorized, rate_limited, transient, other, Object,
  Page, ByteRange,
}
use ialbum.Storage.Path
use ialbum.Storage.Path.{slash, normalize_relative}
use ialbum.Storage.Local.Listing.{digits, max_int}
use ialbum.Storage.Webdav.{trim_slash}
use ialbum.Storage.Baidu.Calls.{
  ℤ, pos, negsuc, ◌+ℤ◌, itoa_ℤ, Session, Call, pure, raise, lift, ◌>>=◌,
}
use ialbum.Manager.{Token}

-- The configuration less the token, and what the code takes from outside: JSON by the type that is
-- read, MD5 in hexadecimal digits, `url.QueryEscape`, `MIMEFromName`, and whether the context is
-- done at a turn of the loop over blocks.
pub record Env : Type 0 where
  pub app_key : Text
  pub secret_key : Text
  pub root : Text
  pub read_token : List ℕ → Result TokenResponse
  pub read_listed : List ℕ → Result Listed
  pub read_metas : List ℕ → Result Metas
  pub read_precreated : List ℕ → Result Precreated
  pub read_created : List ℕ → Result Created
  pub read_errno : List ℕ → Result ℤ
  pub md5 : List ℕ → Text
  pub query_escape : Text → Text
  pub mime_from_name : Text → Text
  pub cancelled : ℕ → Bool

-- The world that a call meets: its clock, Baidu, and `SaveToken` where the configuration has one.
pub record Net (W : Type 0) : Type 0 where
  pub now : W → Time
  pub serve : Request → W → W × Result Response
  pub save_token : Option (Token → W → W × Result (Unit {0}))

-- mapHTTP
unfoldable pub map_http : ℕ → Error
map_http code =
    if code == 401 || code == 403
    then unauthorized
    else if code == 404
    then not_found
    else if code == 409
    then conflict
    else if code == 429
    then rate_limited
    else if code == 500 || code == 502 || code == 503 || code == 504
    then transient
    else other (codes "baidu returned HTTP " ++ itoa code)

-- mapErrno, where `none` is no error
unfoldable pub map_errno : ℤ → Option Error
map_errno (pos n) =
    if n == 0
    then none
    else if n == 31034
    then some rate_limited
    else some (other (codes "baidu errno " ++ itoa_ℤ (pos n)))
map_errno (negsuc n) =
    if n == 5
    then some unauthorized
    else if n == 7
    then some conflict
    else if n == 8
    then some not_found
    else some (other (codes "baidu errno " ++ itoa_ℤ (negsuc n)))

abbrev pub failure {ℓ} : {A : Type ℓ} → A → Option Error → Result A
failure a none = ok a
failure a (some e) = err e

abbrev non_empty : List Text → List Text
non_empty [] = []
non_empty (s ∷ ss) = if is_empty s then non_empty ss else s ∷ non_empty ss

abbrev rooted : Text → Text
rooted root =
    if is_empty (trim (λ c. c == slash) root) then [] else slash ∷ trim (λ c. c == slash) root

-- remotePath, which takes a name that is refused for the root
unfoldable pub remote_path : Text → Text → Text
remote_path root name =
    let rel : Text = elim (normalize_relative name) [ ok rel ↦ rel | err e ↦ [] ] in
    Path.clean (join (non_empty ((slash ∷ []) ∷ rooted root ∷ rel ∷ [])) slash)

abbrev pub mebibyte : ℕ
mebibyte = 1048576

abbrev pub is_success : ℕ → Bool
is_success status = leb 200 status && ltb status 300

-- The answer of a request, by its status and its body, of which so many bytes are read.
unfoldable pub read_answer {ℓ} : {A : Type ℓ} → ℕ → (List ℕ → Result A) → Response → Result A
unfolding map_http
read_answer most read r =
    if is_success r.status then read (take most r.content) else err (map_http r.status)

unfoldable pub object_of : Env → Item → Object
unfolding remote_path
object_of env i = record {
  id = itoa i.fs_id;
  relative_path = trim_prefix i.path (trim_slash (remote_path env.root []) ++ slash ∷ []);
  mime_type = env.mime_from_name i.name;
  etag = i.md5;
  native_checksum = i.md5;
  size = i.size;
  modified_at = i.mtime * second;
  is_dir = i.is_dir == 1;
  range_applied = false;
}

module _ (env : Env) {W : Type 0} (net : Net W) where
  unfoldable pub request : Request → Call W Response
  request r s = let (w, answer) = net.serve r s.world in (record s { world = w }, answer)

  -- jsonRequest and formJSON
  unfoldable pub json_request : {A : Type 0} → (List ℕ → Result A) → Request → Call W A
  unfolding request read_answer
  json_request read r = do answer ← request r; lift (read_answer (8 * mebibyte) read answer)

  -- SaveToken, where there is one, and then the token of the provider
  unfoldable pub adopt : Token → Call W Text
  adopt t s = elim net.save_token [
    | none ↦ (record s { token = t }, ok t.access_token)
    | some save ↦
        let (w, saved) = save t s.world in
        elim saved [
          | err e ↦ (record s { world = w }, err e)
          | ok u ↦ (record s { token = t; world = w }, ok t.access_token)
        ]
  ]

  abbrev renewed : Token → TokenResponse → Time → Token
  renewed old answer now = record {
    access_token = answer.access_token;
    refresh_token =
        if is_empty answer.refresh_token then old.refresh_token else answer.refresh_token;
    expires_at = now + answer.expires_in * second;
  }

  unfoldable pub accept_token : TokenResponse → Call W Text
  unfolding adopt
  accept_token answer s =
      if not (is_empty answer.error) || is_empty answer.access_token
      then (s, err unauthorized)
      else adopt (renewed s.token answer (net.now s.world)) s

  abbrev pub is_fresh : Session W → Bool
  is_fresh s =
      not (is_empty s.token.access_token) && ltb (net.now s.world + 2 * minute) s.token.expires_at

  -- accessToken
  unfoldable pub access_token : Call W Text
  unfolding json_request accept_token
  access_token s =
      if is_fresh s
      then (s, ok s.token.access_token)
      else if is_empty s.token.refresh_token
      then (s, err unauthorized)
      else (json_request env.read_token (refresh s.token.refresh_token env.app_key env.secret_key)
            >>= accept_token)
          s
