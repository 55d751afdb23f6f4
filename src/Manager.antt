-- ===== src/Manager.antt =====
-- internal/storage/manager/manager.go: the storage connections, whose secrets are sealed
-- (internal/auth/secrets.go). Flows has the device flow of Baidu.
pub mod Connections
pub mod Flows
pub mod Readable
pub mod Tokens
mod Tests
use ialbum.Base.{
  ℕ, suc, ◌+◌, Bool, true, false, not, ◌&&◌, ◌||◌, List, [], ◌∷◌, ◌++◌, Option, none, some, ltb,
  leb, ◌==◌, if◌then◌else◌, ◌≡◌, refl, ◌⊎◌, inl, inr,
}
use ialbum.Text.{Text, codes, text_eq, is_empty, byte_length, trim_space}
use ialbum.Time.{Time, unix}
use ialbum.Sql.{find, update, insert, select, count, order_by}
use ialbum.Storage
use ialbum.Media.Types.{Album, Binding}

pub data Error : Type 0 where
  no_rows undecryptable bad_json constraint_failed : Error
  invalid : Text → Error
  storage_error : Storage.Error → Error

pub data Result {ℓ} (A : Type ℓ) : Type ℓ where
  ok : A → Result A
  err : Error → Result A

infixl 5 ◌>>=◌
abbrev pub ◌>>=◌ {ℓ κ} : {A : Type ℓ} {B : Type κ} → Result A → (A → Result B) → Result B
ok a >>= f = f a
err e >>= f = err e

pub Result-cases {ℓ} :
    {A : Type ℓ} (r : Result A) → ((a : A) × (r ≡ ok a)) ⊎ ((e : Error) × (r ≡ err e))
Result-cases (ok a) = inl (a, refl)
Result-cases (err e) = inr (e, refl)

abbrev pub or_error {ℓ} : {A : Type ℓ} → Error → Option A → Result A
or_error e none = err e
or_error e (some a) = ok a

-- Type
pub data Kind : Type 0 where
  local webdav baidu : Kind

abbrev pub kind_text : Kind → Text
kind_text local = codes "local"
kind_text webdav = codes "webdav"
kind_text baidu = codes "baidu"

pub data Status : Type 0 where
  unknown ready in_error : Status

-- A `map[string]any` of settings: a text, or another value of JSON.
pub data Value : Type 0 where
  string : Text → Value
  other_value : Text → Value

abbrev pub Config : Type 0
Config = List (Text × Value)

-- secretEnvelope
pub record Envelope : Type 0 where
  pub username : Text
  pub password : Text
  pub app_key : Text
  pub secret_key : Text
  pub access_token : Text
  pub refresh_token : Text
  pub expires_at : Time

pub record Token : Type 0 where
  pub access_token : Text
  pub refresh_token : Text
  pub expires_at : Time

-- What a provider is made from.
pub data Settings : Type 0 where
  local_settings : (root : Text) → Settings
  webdav_settings : (url root username password : Text) → Settings
  baidu_settings : (app_key secret_key root : Text) → Token → Settings

-- storage_connections
pub record Row : Type 0 where
  pub id : Text
  pub name : Text
  pub kind : Kind
  pub config_json : Text
  pub secret_ciphertext : List ℕ
  pub secret_nonce : List ℕ
  pub status : Status
  pub status_message : Text
  pub last_checked_at : Option ℕ
  pub created_at : ℕ
  pub updated_at : ℕ
  pub removed_at : Option ℕ

pub data FlowStatus : Type 0 where
  pending expired declined flow_error authorized cancelled : FlowStatus

-- baidu_device_flows
pub record FlowRow : Type 0 where
  pub id : Text
  pub name : Text
  pub config_json : Text
  pub secret_ciphertext : List ℕ
  pub secret_nonce : List ℕ
  pub code_ciphertext : List ℕ
  pub code_nonce : List ℕ
  pub user_code : Text
  pub verification_url : Text
  pub qr_url : Text
  pub poll_interval_seconds : ℕ
  pub status : FlowStatus
  pub error_message : Text
  pub expires_at : ℕ
  pub next_poll_at : ℕ
  pub created_at : ℕ
  pub updated_at : ℕ

-- The tables, and how many ids and nonces were given out.
pub record Db : Type 0 where
  pub connections : List Row
  pub flows : List FlowRow
  pub albums : List Album
  pub bindings : List Binding
  pub issued : ℕ
  pub drawn : ℕ

-- What the code takes from outside: AES-GCM (by nonce, text and additional data), random nonces, ids,
-- JSON, RFC 3339, `err.Error()`, the bytes of a string, and the providers' `New` and `Validate`. A
-- validation also says whether Baidu gave a new token, which is then saved.
pub record Env : Type 0 where
  pub aead_seal : List ℕ → List ℕ → Text → List ℕ
  pub aead_open : List ℕ → List ℕ → Text → Option (List ℕ)
  pub nonce : ℕ → List ℕ
  pub new_id : ℕ → Text
  pub marshal_secret : Envelope → List ℕ
  pub unmarshal_secret : List ℕ → Option Envelope
  pub marshal_config : Config → Option Text
  pub unmarshal_config : Text → Option Config
  pub parse_time : Text → Time
  pub format_time : Time → Text
  pub error_text : Error → Text
  pub bytes : Text → List ℕ
  pub text : List ℕ → Text
  pub construct : Settings → Option Storage.Error
  pub validate : Settings → Option Token × Option Storage.Error

-- Sealer.Seal: the text under a new nonce
abbrev pub seal : Env → List ℕ → Text → ℕ → List ℕ
seal env plaintext aad drawn = env.aead_seal (env.nonce drawn) plaintext aad

-- Sealer.Open
abbrev pub open_sealed : Env → List ℕ → List ℕ → Text → Result (List ℕ)
open_sealed env ciphertext nonce aad = or_error undecryptable (env.aead_open nonce ciphertext aad)

-- aad
unfoldable pub aad_of : Text → Kind → Text
aad_of id kind = codes "storage:" ++ id ++ codes ":" ++ kind_text kind ++ codes ":v1"

-- stringValue
unfoldable pub string_value : Config → Text → Text
string_value [] key = []
string_value ((k, string s) ∷ config) key = if text_eq k key then s else string_value config key
string_value ((k, other_value s) ∷ config) key =
    if text_eq k key then [] else string_value config key

-- An entry of a `map[string]string`
unfoldable pub entry : List (Text × Text) → Text → Option Text
entry [] key = none
entry ((k, v) ∷ rest) key = if text_eq k key then some v else entry rest key

abbrev pub or_else {ℓ} : {A : Type ℓ} → Option A → A → A
or_else none b = b
or_else (some a) b = a

abbrev pub is_active : Option ℕ → Bool
is_active none = true
is_active (some t) = false

abbrev pub has_id : Text → Row → Bool
has_id id r = text_eq r.id id

abbrev pub active_id : Text → Row → Bool
active_id id r = text_eq r.id id && is_active r.removed_at

pub record Connection : Type 0 where
  pub id : Text
  pub name : Text
  pub kind : Kind
  pub config : Config
  pub status : Status
  pub status_message : Text
  pub last_checked_at : Option ℕ
  pub created_at : ℕ
  pub updated_at : ℕ

unfoldable pub connection_of : Env → Row → Connection
connection_of env r = record {
  id = r.id;
  name = r.name;
  kind = r.kind;
  config = or_else (env.unmarshal_config r.config_json) [];
  status = r.status;
  status_message = r.status_message;
  last_checked_at = r.last_checked_at;
  created_at = r.created_at;
  updated_at = r.updated_at;
}

-- Get
unfoldable pub get : Env → Text → Db → Result Connection
unfolding connection_of
get env id db = elim (find (active_id id) db.connections) [
  | none ↦ err no_rows
  | some r ↦ ok (connection_of env r)
]

abbrev newer : Row → Row → Bool
newer r s = leb s.created_at r.created_at

abbrev show_all : Env → List Row → List Connection
show_all env [] = []
show_all env (r ∷ rs) = connection_of env r ∷ show_all env rs

-- List
unfoldable pub list : Env → Db → List Connection
unfolding connection_of
list env db = show_all env (order_by newer (select (λ r. is_active r.removed_at) db.connections))
