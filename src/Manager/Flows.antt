-- ===== src/Manager/Flows.antt =====
-- internal/storage/manager/manager.go: the device flow by which Baidu authorizes a connection.
pub mod Answers
pub mod Ends
pub mod Steps
use ialbum.Base.{
  ℕ, zero, suc, ◌+◌, ◌*◌, Bool, true, false, not, ◌&&◌, ◌||◌, List, [], ◌∷◌, ◌++◌, Option, none,
  some, is_some, ltb, leb, ◌==◌, if◌then◌else◌,
}
use ialbum.Text.{Text, codes, text_eq, is_empty, trim_space}
use ialbum.Time.{Time, unix, second}
use ialbum.Sql.{find, update, insert, count}
use ialbum.Storage
use ialbum.Manager.{
  Error, constraint_failed, no_rows, undecryptable, invalid, storage_error, Result, ok, err, ◌>>=◌,
  or_error, Kind, baidu, Config, string, Token, Db, Env, seal, open_sealed, string_value, or_else,
  FlowStatus, FlowRow, pending, expired, declined, flow_error, authorized, cancelled, Connection,
}
use ialbum.Manager.Connections.{CreateInput, create}

pub record DeviceFlow : Type 0 where
  pub id : Text
  pub name : Text
  pub user_code : Text
  pub verification_url : Text
  pub qr_code_url : Text
  pub status : FlowStatus
  pub error_message : Text
  pub poll_interval_seconds : ℕ
  pub expires_at : ℕ
  pub created_at : ℕ
  pub updated_at : ℕ
  pub storage_id : Text

-- The column `error_message` holds the id of the storage once a flow is authorized.
abbrev storage_id_of : FlowStatus → Text → Text × Text
storage_id_of authorized message = (message, [])
storage_id_of status message = ([], message)

-- loadFlow
unfoldable pub shown : FlowRow → DeviceFlow
shown f = record {
  id = f.id;
  name = f.name;
  user_code = f.user_code;
  verification_url = f.verification_url;
  qr_code_url = f.qr_url;
  status = f.status;
  error_message = (storage_id_of f.status f.error_message).1;
  poll_interval_seconds = f.poll_interval_seconds;
  expires_at = f.expires_at;
  created_at = f.created_at;
  updated_at = f.updated_at;
  storage_id = (storage_id_of f.status f.error_message).0;
}

abbrev pub is_pending : FlowStatus → Bool
is_pending pending = true
is_pending status = false

abbrev pub has_flow : Text → FlowRow → Bool
has_flow id f = text_eq f.id id

abbrev pub secret_aad : Text → Text
secret_aad id = codes "baidu-flow-secret:" ++ id

abbrev pub code_aad : Text → Text
code_aad id = codes "baidu-flow-code:" ++ id

-- What `PollDeviceAuthorization` says: a token, a state, and an error.
pub record Answer : Type 0 where
  pub token : Token
  pub state : Text
  pub error : Option Storage.Error

-- `StartDeviceAuthorization`
pub record Authorization : Type 0 where
  pub device_code : Text
  pub user_code : Text
  pub verification_url : Text
  pub qr_code_url : Text
  pub expires_in : ℕ
  pub interval : ℕ

unfoldable pub assign_status : FlowStatus → Text → Time → FlowRow → FlowRow
assign_status status message now f = record f {
  status = status;
  error_message = message;
  updated_at = unix now;
}

unfoldable pub assign_poll : ℕ → Time → FlowRow → FlowRow
assign_poll interval now f = record f {
  poll_interval_seconds = interval;
  next_poll_at = unix (now + interval * second);
  updated_at = unix now;
}

unfoldable pub on_flow : Text → (FlowRow → FlowRow) → Db → Db
on_flow id g db = record db { flows = update (has_flow id) g db.flows }

-- The flow is over: its status with a message.
unfoldable pub finish_flow : Text → FlowStatus → Text → Time → Db → Db
unfolding on_flow assign_status
finish_flow id status message now = on_flow id (assign_status status message now)

abbrev pub message_of : Env → Option Storage.Error → Text
message_of env none = []
message_of env (some e) = env.error_text (storage_error e)

-- The connection that an authorized flow makes.
unfoldable pub flow_input : Env → FlowRow → Text → Token → CreateInput
unfolding string_value
flow_input env f secret_key t =
    let config = or_else (env.unmarshal_config f.config_json) [] in
    record {
      name = f.name;
      kind = some baidu;
      config = (codes "root", string (string_value config (codes "root"))) ∷ [];
      secrets =
          (codes "appKey", string_value config (codes "appKey"))
          ∷ (codes "secretKey", secret_key)
          ∷ (codes "accessToken", t.access_token)
          ∷ (codes "refreshToken", t.refresh_token)
          ∷ (codes "expiresAt", env.format_time t.expires_at)
          ∷ [];
    }

-- Behind `Create`
unfoldable pub close_flow : Env → Text → Time → Db × Result Connection → Db
unfolding finish_flow
close_flow env id now (db, err e) = finish_flow id flow_error (env.error_text e) now db
close_flow env id now (db, ok c) = finish_flow id authorized c.id now db

unfoldable pub authorize : Env → Time → FlowRow → Text → Token → Db → Db
unfolding create flow_input close_flow
authorize env now f secret_key t db =
    close_flow env f.id now (create env now (flow_input env f secret_key t) db)

-- What an answer does to a flow.
unfoldable pub apply_answer : Env → Time → FlowRow → Text → Answer → Db → Db
unfolding on_flow assign_poll finish_flow authorize
apply_answer env now f secret_key answer db =
    if text_eq answer.state (codes "authorization_pending")
      || text_eq answer.state (codes "pending")
    then on_flow f.id (assign_poll f.poll_interval_seconds now) db
    else if text_eq answer.state (codes "slow_down")
    then on_flow f.id (assign_poll (f.poll_interval_seconds + 5) now) db
    else if text_eq answer.state (codes "authorization_declined")
        || text_eq answer.state (codes "access_denied")
    then finish_flow f.id declined (message_of env answer.error) now db
    else if text_eq answer.state (codes "expired_token")
    then finish_flow f.id expired (message_of env answer.error) now db
    else elim answer.error [
      | some e ↦ finish_flow f.id flow_error (env.error_text (storage_error e)) now db
      | none ↦ authorize env now f secret_key answer.token db
    ]

abbrev pub Poll : Type 0
Poll = Text → Text → Text → Answer

unfoldable pub open_flow : Env → FlowRow → Result (Text × Text)
open_flow env f = open_sealed env f.secret_ciphertext f.secret_nonce (secret_aad f.id) >>= λ secret.
    open_sealed env f.code_ciphertext f.code_nonce (code_aad f.id) >>= λ code.
    ok (env.text secret, env.text code)

-- One turn of GetBaiduDeviceFlow: a flow past its time expires, and else Baidu is asked.
unfoldable pub turn_flow : Env → Time → Poll → FlowRow → Db → Db × Result (Unit {0})
unfolding finish_flow open_flow string_value apply_answer assign_status on_flow
turn_flow env now poll f db =
    if ltb (f.expires_at * second) now
    then (on_flow f.id (λ g. record g { status = expired; updated_at = unix now }) db, ok tt)
    else elim (open_flow env f) [
      | err e ↦ (db, err e)
      | ok (secret, code) ↦
          let config = or_else (env.unmarshal_config f.config_json) [] in
          (
            apply_answer env now f secret (poll (string_value config (codes "appKey")) secret code)
                db,
            ok tt,
          )
    ]

abbrev pub waits : Time → FlowRow → Bool
waits now f = not (is_pending f.status) || ltb now (f.next_poll_at * second)

-- GetBaiduDeviceFlow, which calls itself after each turn, with the clock and the answers by turn.
unfoldable pub get_flow :
    Env → ℕ → (ℕ → Time) → (ℕ → Poll) → ℕ → Text → Db → Option (Db × Result DeviceFlow)
unfolding shown turn_flow
get_flow env zero clock polls turn id db = none
get_flow env (suc fuel) clock polls turn id db = elim (find (has_flow id) db.flows) [
  | none ↦ some (db, err no_rows)
  | some f ↦ elim (waits (clock turn) f) [
    | true ↦ some (db, ok (shown f))
    | false ↦ elim (turn_flow env (clock turn) (polls turn) f db).1 [
      | err e ↦ some ((turn_flow env (clock turn) (polls turn) f db).0, err e)
      | ok u ↦
          get_flow env fuel clock polls (suc turn) id
            (turn_flow env (clock turn) (polls turn) f db).0
    ]
  ]
]

unfoldable pub new_flow : Env → Time → Text → Text → Text → Text → Authorization → ℕ → FlowRow
new_flow env now id name config_json secret_key a drawn = record {
  id = id;
  name = name;
  config_json = config_json;
  secret_ciphertext = seal env (env.bytes secret_key) (secret_aad id) drawn;
  secret_nonce = env.nonce drawn;
  code_ciphertext = seal env (env.bytes a.device_code) (code_aad id) (suc drawn);
  code_nonce = env.nonce (suc drawn);
  user_code = a.user_code;
  verification_url = a.verification_url;
  qr_url = a.qr_code_url;
  poll_interval_seconds = a.interval;
  status = pending;
  error_message = [];
  expires_at = unix (now + a.expires_in * second);
  next_poll_at = unix (now + a.interval * second);
  created_at = unix now;
  updated_at = unix now;
}

unfoldable pub insert_flow : Env → Time → Text → Text → Text → Text → Authorization → Db → Db
unfolding new_flow
insert_flow env now name app_key secret_key root a db =
    let config = (codes "appKey", string app_key) ∷ (codes "root", string root) ∷ [] in
    record db {
      flows =
          insert
            (new_flow env now (env.new_id db.issued) name (or_else (env.marshal_config config) [])
              secret_key a db.drawn)
            db.flows;
      issued = suc db.issued;
      drawn = suc (suc db.drawn);
    }

-- StartBaiduDeviceFlow, up to the first look at the flow; the id of the flow
unfoldable pub start_flow :
    Env → Time → Text → Text → Text → Text → Storage.Result Authorization → Db → Db × Result Text
unfolding insert_flow
start_flow env now name app_key secret_key root started db =
    if is_empty (trim_space name) || is_empty app_key || is_empty secret_key
    then (db, err (invalid (codes "name, appKey and secretKey are required")))
    else elim started [
      | Storage.err e ↦ (db, err (storage_error e))
      | Storage.ok a ↦
          if is_some (find (has_flow (env.new_id db.issued)) db.flows)
          then (
            record db { issued = suc db.issued; drawn = suc (suc db.drawn) },
            err constraint_failed,
          )
          else (insert_flow env now name app_key secret_key root a db, ok (env.new_id db.issued))
    ]

-- CancelBaiduDeviceFlow
unfoldable pub cancel_flow : Time → Text → Db → Db × Result (Unit {0})
unfolding on_flow
cancel_flow now id db =
    if count (λ f. has_flow id f && is_pending f.status) db.flows == 0 then (db, err no_rows) else (
      record db {
        flows =
            update (λ f. has_flow id f && is_pending f.status)
              (λ f. record f { status = cancelled; updated_at = unix now }) db.flows;
      },
      ok tt,
    )
