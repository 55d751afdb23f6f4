-- ===== src/Api/Guards/Tests.antt =====
-- A request of a browser with an open session.
use ialbum.Base.{◌*◌, false, [], ◌∷◌, some, none, Option, ◌≡◌, refl, if◌then◌else◌}
use ialbum.Text.{Text, codes, text_eq}
use ialbum.Time.{second, hour}
use ialbum.Sql.{find}
use ialbum.Auth.{User, Row, Service, Session, authenticate, validate_csrf, session_of}
use ialbum.Auth.Password.{Crypto}
use ialbum.Auth.Sessions.{Opened}
use ialbum.Api.Guards.{Request, Net, Url, handler, require_session}
use ialbum.Text.Laws.{ne-of_test}
use ialbum.Api.Guards.Trust.{Trusted, HasToken, Changes, require_session-Opened}

abbrev crypto : Crypto
crypto = record {
  random = λ n. n ∷ [];
  sha256 = λ t. 0 ∷ t;
  id_key = λ p salt m t n l. p;
  encode = λ t. t;
  decode = λ t. some t;
  scan_parameters = λ t. some (64 * 1024, 3, 2);
  lower = λ c. c;
  same_name = text_eq;
}

abbrev admin : User
admin = record {
  id = codes "u1";
  username = codes "admin";
  password_hash = [];
  created_at = 0;
  updated_at = 0;
}

abbrev row : Row
row = record {
  id = codes "s1";
  user_id = codes "u1";
  token_hash = 0 ∷ codes "t";
  csrf_hash = 0 ∷ codes "c";
  created_at = 100;
  last_seen_at = 100;
  expires_at = 90_000;
}

abbrev service : Service
service = record {
  setup_token = [];
  setup_expires = none;
  idle_ttl = 2 * hour;
  absolute_ttl = 24 * hour;
  attempts = [];
  users = admin ∷ [];
  sessions = row ∷ [];
  drawn = 3;
}

abbrev parse : Text → Option Url
parse t =
    if text_eq t (codes "http://h")
    then some (record { scheme = codes "http"; host = codes "h" })
    else none

abbrev net : Net
net = record { public_url = []; parse_url = parse; split_host = λ t. []; loopback_ip = λ t. false }

abbrev post : Request
post = record {
  method = codes "POST";
  cookie = some (codes "t");
  csrf_token = codes "c";
  origin = codes "http://h";
  referer = [];
  host = codes "h";
  tls = false;
}

abbrev session : Session
session = session_of crypto row admin (100 * second)

reaches : (require_session crypto net (110 * second) post service).1 ≡ handler session
unfolding require_session authenticate find text_eq validate_csrf
reaches = refl

post-Changes : Changes crypto net (codes "POST")
unfolding text_eq
post-Changes = (
  ne-of_test (codes "POST") (codes "GET") refl,
  ne-of_test (codes "POST") (codes "HEAD") refl,
  ne-of_test (codes "POST") (codes "OPTIONS") refl,
)

require_session-Opened_example :
    (token : Text) × (post.cookie ≡ some token)
    × Opened crypto (110 * second) token service session
    × HasToken crypto net session post (require_session crypto net (110 * second) post service).0
    × Trusted crypto net post
require_session-Opened_example =
    require_session-Opened crypto net (110 * second) post service session post-Changes reaches
