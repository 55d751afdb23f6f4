-- ===== src/Manager/Tests.antt =====
-- A connection and a device flow, with a cipher and encodings that are simple functions.
use ialbum.Base.{
  Option, if◌then◌else◌, ltb, ℕ, false, ◌*◌, List, [], ◌∷◌, ◌++◌, none, some, ◌≡◌, refl, ap, length,
  take, drop,
}
use ialbum.Text.{Text, codes, text_eq}
use ialbum.Time.{Time, second}
use ialbum.Sql.{find}
use ialbum.Storage
use ialbum.Manager.{
  Env, Db, Row, local, string, string_value, Envelope, Token, Settings, Result, ok, active_id,
  FlowRow, baidu, baidu_settings,
}
use ialbum.Manager.Connections.{create, CreateInput, settings_of, new_row, token_of, envelope_of}
use ialbum.Manager.Tokens.{baidu_net, Stores, settings_of-perform_all}
use ialbum.Storage.Baidu
use ialbum.Storage.Baidu.{Request, Response}
use ialbum.Storage.Baidu.Calls.{pos, Session}
use ialbum.Storage.Baidu.Keeps.{list_call, delete_call, perform_all}
use ialbum.Manager.Flows.{
  Authorization, Poll, start_flow, turn_flow, get_flow, DeviceFlow, has_flow, new_flow,
}
use ialbum.Manager.Flows.Steps.{
  Reach, create_step, start_step, turn_step, stop, go_on, validate_secrets-Reach,
}
use ialbum.Manager.Flows.Ends.{get_flow_returns}
use ialbum.Manager.Readable.{IsReadable, validate_secrets}

-- A text with its length in front.
pack : Text → List ℕ → List ℕ
pack t rest = length t ∷ t ++ rest

unpack : List ℕ → Text × List ℕ
unpack [] = ([], [])
unpack (n ∷ xs) = (take n xs, drop n xs)

take-front : (t rest : List ℕ) → take (length t) (t ++ rest) ≡ t
take-front [] rest = refl
take-front (c ∷ t) rest = ap (λ z. c ∷ z) (take-front t rest)

drop-front : (t rest : List ℕ) → drop (length t) (t ++ rest) ≡ rest
drop-front [] rest = refl
drop-front (c ∷ t) rest = drop-front t rest

unpack-pack : (t : Text) (rest : List ℕ) → unpack (pack t rest) ≡ (t, rest)
unfolding pack unpack
unpack-pack t rest = rw (take-front t rest, drop-front t rest)

write_secret : Envelope → List ℕ
write_secret s = pack s.username (
    pack s.password (
      pack s.app_key
        (pack s.secret_key (pack s.access_token (pack s.refresh_token (s.expires_at ∷ []))))))

head_of : List ℕ → ℕ
head_of [] = 0
head_of (n ∷ ns) = n

read_secret : List ℕ → Envelope
read_secret xs =
    let (a, xs1) = unpack xs in
    let (b, xs2) = unpack xs1 in
    let (c, xs3) = unpack xs2 in
    let (d, xs4) = unpack xs3 in
    let (e, xs5) = unpack xs4 in
    let (f, xs6) = unpack xs5 in
    record {
      username = a;
      password = b;
      app_key = c;
      secret_key = d;
      access_token = e;
      refresh_token = f;
      expires_at = head_of xs6;
    }

read_secret-write_secret : (s : Envelope) → read_secret (write_secret s) ≡ s
unfolding read_secret write_secret head_of
read_secret-write_secret s =
    let r6 : List ℕ = s.expires_at ∷ [] in
    let r5 : List ℕ = pack s.refresh_token r6 in
    let r4 : List ℕ = pack s.access_token r5 in
    let r3 : List ℕ = pack s.secret_key r4 in
    let r2 : List ℕ = pack s.app_key r3 in
    let r1 : List ℕ = pack s.password r2 in
    rw (
      unpack-pack s.username r1,
      unpack-pack s.password r2,
      unpack-pack s.app_key r3,
      unpack-pack s.secret_key r4,
      unpack-pack s.access_token r5,
      unpack-pack s.refresh_token r6,
    )

abbrev env : Env
unfolding write_secret read_secret string_value
env = record {
  aead_seal = λ nonce p a. p;
  aead_open = λ nonce c a. some c;
  nonce = λ n. n ∷ [];
  new_id = λ n. n ∷ [];
  marshal_secret = write_secret;
  unmarshal_secret = λ xs. some (read_secret xs);
  marshal_config = λ c. some (string_value c (codes "root"));
  unmarshal_config = λ j. some ((codes "root", string j) ∷ []);
  parse_time = λ t. length t;
  format_time = λ t. codes "t";
  error_text = λ e. codes "failed";
  bytes = λ t. t;
  text = λ t. t;
  construct = λ s. none;
  validate = λ s. (none, none);
}

abbrev empty : Db
empty = record { connections = []; flows = []; albums = []; bindings = []; issued = 0; drawn = 0 }

abbrev shares : CreateInput
shares = record {
  name = codes "NAS";
  kind = some local;
  config = (codes "root", string (codes "/srv")) ∷ [];
  secrets = [];
}

abbrev authorization : Authorization
authorization = record {
  device_code = codes "dc";
  user_code = codes "1234";
  verification_url = codes "https://u";
  qr_code_url = [];
  expires_in = 300;
  interval = 5;
}

abbrev token : Token
token = record { access_token = codes "at"; refresh_token = codes "rt"; expires_at = 9 }

abbrev granted : Poll
granted k s c = record { token = token; state = []; error = none }

abbrev waiting : Poll
waiting k s c = record { token = token; state = codes "pending"; error = some Storage.unsupported }

abbrev first : Db
first = (create env second shares empty).0

abbrev begun : Db
begun =
    (start_flow env second (codes "Pan") (codes "ak") (codes "sk") [] (Storage.ok authorization)
      first).0

abbrev flow_row : FlowRow
flow_row = new_flow env second (1 ∷ []) (codes "Pan") [] (codes "sk") authorization 1

-- A turn of a flow whose row was read before; the answer is a token.
abbrev done : Db
done = (turn_flow env (20 * second) granted flow_row begun).0

calls : Reach env empty done
calls = go_on (create_step second shares empty) (
    go_on
      (start_step second (codes "Pan") (codes "ak") (codes "sk") [] (Storage.ok authorization)
        first)
      (go_on (turn_step (20 * second) granted flow_row begun) (stop done)))

empty-IsReadable : IsReadable env empty
empty-IsReadable = record { rows = (tt, tt); pending_flows = tt }

validate_secrets-Reach_example :
    (validate_secrets env done ≡ ok tt)
    × ((id : Text) (r : Row)
        → find (active_id id) done.connections ≡ some r
        → (s : Settings) × (settings_of env id done ≡ ok s))
unfolding env
validate_secrets-Reach_example =
    validate_secrets-Reach env (λ n p a. refl) (λ s. ap some (read_secret-write_secret s))
      (λ c j e. ((codes "root", string j) ∷ [], refl)) empty-IsReadable calls

there :
    find (has_flow (1 ∷ [])) begun.flows
    ≡ some (new_flow env second (1 ∷ []) (codes "Pan") [] (codes "sk") authorization 1)
unfolding find start_flow ialbum.Text.trim_space create ialbum.Text.byte_length env text_eq
there = refl

-- The flow expires at its third look, whatever Baidu says.
get_flow_returns_example :
    (r : Db × Result DeviceFlow) × (get_flow env 4
        (λ n. (n * 200) * second)
        (λ n. waiting)
        0
        (1 ∷ [])
        begun
      ≡ some r)
unfolding new_flow
get_flow_returns_example =
    get_flow_returns env (λ n. (n * 200) * second) (λ n. waiting) (1 ∷ []) 2 begun there refl

abbrev secret : Envelope
secret = record {
  username = [];
  password = [];
  app_key = codes "ak";
  secret_key = codes "sk";
  access_token = codes "old";
  refresh_token = codes "rt";
  expires_at = 0;
}

abbrev pan : Db
unfolding new_row
pan = record empty {
  connections = new_row env second (codes "b") (codes "Pan") baidu (codes "/albums") secret 0 ∷ [];
}

-- Baidu renews each token, and lists nothing.
abbrev baidu_env : Baidu.Env
baidu_env = record {
  app_key = codes "ak";
  secret_key = codes "sk";
  root = codes "/albums";
  read_token = λ b. Storage.ok (record {
    access_token = codes "new";
    refresh_token = [];
    expires_in = 3600;
    error = [];
    error_description = [];
  });
  read_listed = λ b. Storage.ok (record { errno = pos 0; items = [] });
  read_metas = λ b. Storage.ok (record { errno = pos 0; dlinks = [] });
  read_precreated = λ b. Storage.ok (record { errno = pos 0; upload_id = []; blocks = [] });
  read_created = λ b.
      Storage.ok (record { errno = pos 0; fs_id = 1; path = []; size = 0; md5 = []; mtime = 0 });
  read_errno = λ b. Storage.ok (pos 0);
  md5 = λ b. b;
  query_escape = λ t. t;
  mime_from_name = λ t. t;
  cancelled = λ n. false;
}

abbrev answers : Request → Time → Time × Storage.Result Response
answers r w = (w, Storage.ok (record { status = 200; content = [] }))

-- The saving of a token fails from second 2 on.
abbrev fails_late : Db × Time → Option Storage.Error
fails_late x = if ltb x.1 (2 * second) then none else some Storage.transient

abbrev after_calls : Session (Db × Time)
after_calls =
    perform_all baidu_env (baidu_net env (codes "b") secret (λ w. w) answers fails_late)
      (list_call [] [] 0 ∷ delete_call (codes "a.jpg") ∷ [])
      (record { token = token_of secret; world = (pan, second) })

pan-Stores : Stores env (codes "b") secret ((codes "root", string (codes "/albums")) ∷ []) pan
unfolding find text_eq envelope_of pan env unpack head_of pack
pan-Stores = record {
  row = new_row env second (codes "b") (codes "Pan") baidu (codes "/albums") secret 0;
  found = refl;
  of_baidu = refl;
  config_read = refl;
  secret_read = refl;
}

settings_of-perform_all_example :
    settings_of env (codes "b") after_calls.world.0
    ≡ ok (baidu_settings (codes "ak") (codes "sk") (codes "/albums") after_calls.token)
unfolding string_value text_eq env
settings_of-perform_all_example =
    settings_of-perform_all env (λ n p a. refl) (λ s. ap some (read_secret-write_secret s))
      (codes "b") secret ((codes "root", string (codes "/albums")) ∷ []) pan (λ w. w) answers
      fails_late baidu_env (list_call [] [] 0 ∷ delete_call (codes "a.jpg") ∷ []) second pan-Stores
