-- ===== src/Manager/Connections.antt =====
-- internal/storage/manager/manager.go: the changes of connections.
use ialbum.Base.{
  ℕ, suc, Bool, not, ◌&&◌, List, [], Option, none, some, is_some, leb, ◌==◌, if◌then◌else◌,
}
use ialbum.Text.{Text, codes, text_eq, is_empty, byte_length, trim_space}
use ialbum.Time.{Time, unix}
use ialbum.Sql.{find, update, insert, count}
use ialbum.Storage
use ialbum.Media.Types.{Album, Binding}
use ialbum.Manager.{
  Error, constraint_failed, no_rows, bad_json, invalid, storage_error, Result, ok, err, ◌>>=◌,
  or_error, Kind, local, webdav, baidu, unknown, ready, in_error, Config, Envelope, Token, Settings,
  local_settings, webdav_settings, baidu_settings, Row, Db, Env, seal, open_sealed, aad_of,
  string_value, entry, or_else, is_active, has_id, active_id, Connection, get,
}

-- The sealed secret of a row.
unfoldable pub envelope_of : Env → Row → Result Envelope
unfolding aad_of
envelope_of env r =
    open_sealed env r.secret_ciphertext r.secret_nonce (aad_of r.id r.kind) >>= λ plaintext.
    or_error bad_json (env.unmarshal_secret plaintext)

abbrev pub token_of : Envelope → Token
token_of s = record {
  access_token = s.access_token;
  refresh_token = s.refresh_token;
  expires_at = s.expires_at;
}

unfoldable pub settings_for : Kind → Config → Envelope → Settings
unfolding string_value
settings_for local config s = local_settings (string_value config (codes "root"))
settings_for webdav config s =
    webdav_settings (string_value config (codes "url")) (string_value config (codes "root"))
      s.username s.password
settings_for baidu config s =
    baidu_settings s.app_key s.secret_key (string_value config (codes "root")) (token_of s)

-- Provider, up to the call of `New`
unfoldable pub settings_of : Env → Text → Db → Result Settings
unfolding envelope_of settings_for
settings_of env id db = or_error no_rows (find (active_id id) db.connections) >>= λ r.
    or_error bad_json (env.unmarshal_config r.config_json) >>= λ config.
    envelope_of env r >>= λ s. ok (settings_for r.kind config s)

abbrev pub failure : Option Storage.Error → Result (Unit {0})
failure none = ok tt
failure (some e) = err (storage_error e)

-- Provider
unfoldable pub provider : Env → Text → Db → Result Settings
unfolding settings_of
provider env id db = settings_of env id db >>= λ s. (failure (env.construct s) >>= λ u. ok s)

abbrev pub with_token : Token → Envelope → Envelope
with_token t s = record s {
  access_token = t.access_token;
  refresh_token = t.refresh_token;
  expires_at = t.expires_at;
}

unfoldable pub assign_token : Env → Time → Envelope → ℕ → Row → Row
unfolding aad_of
assign_token env now s drawn r = record r {
  secret_ciphertext = seal env (env.marshal_secret s) (aad_of r.id baidu) drawn;
  secret_nonce = env.nonce drawn;
  status = ready;
  status_message = [];
  updated_at = unix now;
}

-- saveBaiduToken, with the secret that the provider was made from
unfoldable pub save_token : Env → Time → Text → Envelope → Token → Db → Db
unfolding assign_token
save_token env now id s t db = record db {
  connections = update (has_id id) (assign_token env now (with_token t s) db.drawn) db.connections;
  drawn = suc db.drawn;
}

-- The secret that the closure `SaveToken` holds; only Baidu has one.
abbrev pub save_renewed : Env → Time → Row → Envelope → Option Token → Db → Db
save_renewed env now r s none db = db
save_renewed env now r s (some t) db = elim r.kind [
  | local ↦ db
  | webdav ↦ db
  | baidu ↦ save_token env now r.id s t db
]

unfoldable pub save_for : Env → Time → Text → Option Token → Db → Db
unfolding envelope_of save_token
save_for env now id t db = elim (find (active_id id) db.connections) [
  | none ↦ db
  | some r ↦ elim (envelope_of env r) [ err e ↦ db | ok s ↦ save_renewed env now r s t db ]
]

-- Provider and Validate, and what goes wrong
unfoldable pub check : Env → Time → Text → Db → Db × Result (Unit {0})
unfolding provider save_for
check env now id db = elim (provider env id db) [
  | err e ↦ (db, err e)
  | ok s ↦ (save_for env now id (env.validate s).0 db, failure (env.validate s).1)
]

unfoldable pub assign_status : Env → Time → Result (Unit {0}) → Row → Row
assign_status env now outcome r = record r {
  status = elim outcome [ ok u ↦ ready | err e ↦ in_error ];
  status_message = elim outcome [ ok u ↦ [] | err e ↦ env.error_text e ];
  last_checked_at = some (unix now);
  updated_at = unix now;
}

unfoldable pub set_status : Env → Time → Text → Db × Result (Unit {0}) → Db
unfolding assign_status
set_status env now id (db, outcome) = record db {
  connections = update (has_id id) (assign_status env now outcome) db.connections;
}

pub record CreateInput : Type 0 where
  pub name : Text
  pub kind : Option Kind
  pub config : Config
  pub secrets : List (Text × Text)

abbrev pub name_required : Error
name_required = invalid (codes "storage name is required and must not exceed 80 characters")

abbrev pub name_ok : Text → Bool
name_ok name = not (is_empty name) && leb (byte_length name) 80

abbrev secret_text : List (Text × Text) → Text → Text
secret_text secrets key = or_else (entry secrets key) []

unfoldable pub new_envelope : Env → List (Text × Text) → Envelope
unfolding entry
new_envelope env secrets = record {
  username = secret_text secrets (codes "username");
  password = secret_text secrets (codes "password");
  app_key = secret_text secrets (codes "appKey");
  secret_key = secret_text secrets (codes "secretKey");
  access_token = secret_text secrets (codes "accessToken");
  refresh_token = secret_text secrets (codes "refreshToken");
  expires_at =
      let raw = secret_text secrets (codes "expiresAt") in
      if is_empty raw then 0 else env.parse_time raw;
}

unfoldable pub new_row : Env → Time → Text → Text → Kind → Text → Envelope → ℕ → Row
unfolding aad_of
new_row env now id name kind config_json s drawn = record {
  id = id;
  name = name;
  kind = kind;
  config_json = config_json;
  secret_ciphertext = seal env (env.marshal_secret s) (aad_of id kind) drawn;
  secret_nonce = env.nonce drawn;
  status = unknown;
  status_message = [];
  last_checked_at = none;
  created_at = unix now;
  updated_at = unix now;
  removed_at = none;
}

unfoldable pub insert_row : Env → Time → Text → Text → Kind → Text → Envelope → Db → Db
unfolding new_row
insert_row env now id name kind config_json s db = record db {
  connections = insert (new_row env now id name kind config_json s db.drawn) db.connections;
  issued = suc db.issued;
  drawn = suc db.drawn;
}

-- The check of a connection, its status and what `Get` says.
unfoldable pub checked : Env → Time → Text → Db → Db × Result (Unit {0})
unfolding check set_status
checked env now id db =
    let outcome = check env now id db in (set_status env now id outcome, outcome.1)

-- Create behind the INSERT
unfoldable pub recheck : Env → Time → Text → Db → Db × Result Connection
unfolding checked get
recheck env now id db = let tested = checked env now id db in (tested.0, get env id tested.0)

-- Create. The id is a primary key.
unfoldable pub create : Env → Time → CreateInput → Db → Db × Result Connection
unfolding new_envelope insert_row recheck
create env now input db =
    let name = trim_space input.name in
    if not (name_ok name) then (db, err name_required) else elim input.kind [
      | none ↦ (db, err (invalid (codes "unsupported storage type")))
      | some kind ↦ elim (env.marshal_config input.config) [
        | none ↦ (record db { issued = suc db.issued }, err bad_json)
        | some config_json ↦
            let id = env.new_id db.issued in
            if is_some (find (has_id id) db.connections)
            then (record db { issued = suc db.issued; drawn = suc db.drawn }, err constraint_failed)
            else recheck env now id
                (insert_row env now id name kind config_json (new_envelope env input.secrets) db)
      ]
    ]

-- Test
unfoldable pub test : Env → Time → Text → Db → Db × Result Connection
unfolding checked get
test env now id db =
    let tested = checked env now id db in
    (tested.0, elim tested.1 [ err e ↦ err e | ok u ↦ get env id tested.0 ])

pub record UpdateInput : Type 0 where
  pub name : Option Text
  pub config : Option Config
  pub secrets : List (Text × Text)

unfoldable pub new_name : Option Text → Text → Result Text
new_name none current = ok current
new_name (some raw) current =
    let name = trim_space raw in if name_ok name then ok name else err name_required

-- The secrets that a request names; the tokens stay.
unfoldable pub changed_envelope : List (Text × Text) → Envelope → Envelope
unfolding entry
changed_envelope secrets s = record s {
  username = or_else (entry secrets (codes "username")) s.username;
  password = or_else (entry secrets (codes "password")) s.password;
  app_key = or_else (entry secrets (codes "appKey")) s.app_key;
  secret_key = or_else (entry secrets (codes "secretKey")) s.secret_key;
}

unfoldable pub assign_change : Env → Time → Text → Text → Envelope → ℕ → Row → Row
unfolding aad_of
assign_change env now name config_json s drawn r = record r {
  name = name;
  config_json = config_json;
  secret_ciphertext = seal env (env.marshal_secret s) (aad_of r.id r.kind) drawn;
  secret_nonce = env.nonce drawn;
  status = unknown;
  status_message = [];
  updated_at = unix now;
}

-- What Update writes: the name, the settings and the secrets.
unfoldable pub prepare : Env → UpdateInput → Row → Result (Text × Text × Envelope)
unfolding new_name envelope_of changed_envelope
prepare env input r = new_name input.name r.name >>= λ name.
    or_error bad_json
      (env.marshal_config (or_else input.config (or_else (env.unmarshal_config r.config_json) [])))
    >>= λ config_json.
        envelope_of env r >>= λ s. ok (name, config_json, changed_envelope input.secrets s)

unfoldable pub store_change : Env → Time → Text → Text × Text × Envelope → Db → Db
unfolding assign_change
store_change env now id (name, config_json, s) db = record db {
  connections =
      update (active_id id) (assign_change env now name config_json s db.drawn) db.connections;
  drawn = suc db.drawn;
}

-- Update
unfoldable pub change : Env → Time → Text → UpdateInput → Db → Db × Result Connection
unfolding prepare store_change test
change env now id input db = elim (find (active_id id) db.connections) [
  | none ↦ (db, err no_rows)
  | some r ↦ elim (prepare env input r) [
    | err e ↦ (db, err e)
    | ok w ↦ test env now id (store_change env now id w db)
  ]
]

abbrev is_album : Text → Album → Bool
is_album id a = text_eq a.id id && is_active a.removed_at

-- An active album is bound to the storage.
unfoldable pub bound_to : Text → List Album → Binding → Bool
bound_to id albums b = text_eq b.storage_id id && not (count (is_album b.album_id) albums == 0)

unfoldable pub remove_row : Time → Row → Row
remove_row now r = record r { removed_at = some (unix now); updated_at = unix now }

-- Delete
unfoldable pub delete : Time → Text → Db → Db × Result (Unit {0})
unfolding bound_to remove_row
delete now id db =
    if not (count (bound_to id db.albums) db.bindings == 0)
    then (db, err (storage_error Storage.conflict))
    else if count (active_id id) db.connections == 0
    then (db, err no_rows)
    else (record db { connections = update (active_id id) (remove_row now) db.connections }, ok tt)
