-- ===== src/Auth/Tests.antt =====
-- The theorems on logins and sessions at inputs that meet their hypotheses.
use ialbum.Base.{
  ℕ, zero, suc, length, ◌+◌, ◌-◌, ◌*◌, ◌≡◌, ◌≢◌, refl, [], ◌∷◌, none, some, arith, All,
  if◌then◌else◌, ltb,
}
use ialbum.Text.{Text, codes, text_eq, split, join, byte_length, trim_space, itoa}
use ialbum.Time.{second, hour}
use ialbum.Sql.{find, count, update, delete, select}
use ialbum.Auth.Password.{
  Crypto, ok, hash_password, verify_password, derive, pieces, dollar, validate_password,
}
use ialbum.Auth.Password.Verify.{IsFaithful, verify-hash}
use ialbum.Auth.{
  Service, Session, User, Row, Attempt, login, authenticate, change_password, is_blocked,
  new_session, logout,
}
use ialbum.Auth.Sessions.{Opened, authenticate-Opened, change_password_revokes, logout_ends}
use ialbum.Auth.Logins.{authenticate-login}

-- The first `n` of the characters, filled up with zeros.
abbrev fit : Text → ℕ → Text
fit t zero = []
fit [] (suc n) = 0 ∷ fit [] n
fit (c ∷ t) (suc n) = c ∷ fit t n

abbrev shift : Text → Text
shift [] = []
shift (c ∷ t) = (if ltb c 36 then c else suc c) ∷ shift t

abbrev unshift : Text → Text
unshift [] = []
unshift (c ∷ t) = (if ltb c 37 then c else c - 1) ∷ unshift t

-- Tokens are one character, their hashes two.
abbrev crypto : Crypto
crypto = record {
  random = λ n. (n + 65) ∷ [];
  sha256 = λ t. 0 ∷ t;
  id_key = λ p salt m t n l. fit p l;
  encode = shift;
  decode = λ t. some (unshift t);
  scan_parameters = λ t. some (64 * 1024, 3, 2);
  lower = λ c. c;
  same_name = text_eq;
}

unshift-shift : (t : Text) → unshift (shift t) ≡ t
unshift-shift [] = refl
unshift-shift (c ∷ t) = ground (arith, unshift-shift t)

plain_shift : (t : Text) → All (λ c. c ≢ 36) (shift t)
plain_shift [] = tt
plain_shift (c ∷ t) = (ground arith, plain_shift t)

length-fit : (t : Text) (n : ℕ) → length (fit t n) ≡ n
length-fit t zero = refl
length-fit [] (suc n) = ground (arith, length-fit [] n)
length-fit (c ∷ t) (suc n) = ground (arith, length-fit t n)

crypto-IsFaithful : IsFaithful crypto
crypto-IsFaithful = record {
  decoded = λ t. rw (unshift-shift t) refl;
  plain = plain_shift;
  scanned = refl;
  full = λ p s m t n l. length-fit p l;
}

abbrev secret : Text
secret = codes "correct horse"

verify-hash_example :
    verify_password crypto (join (pieces crypto (codes "salt") secret) dollar) secret
    ≡ text_eq (derive crypto (codes "salt") secret) (derive crypto (codes "salt") secret)
unfolding hash_password validate_password byte_length
verify-hash_example = verify-hash crypto crypto-IsFaithful (codes "salt") secret secret refl

abbrev admin : User
admin = record {
  id = codes "u1";
  username = codes "admin";
  password_hash = join (pieces crypto (codes "salt") secret) dollar;
  created_at = 0;
  updated_at = 0;
}

-- A session that began in second 100.
abbrev row : Row
row = record {
  id = codes "s1";
  user_id = codes "u1";
  token_hash = 0 ∷ codes "t";
  csrf_hash = 0 ∷ codes "c";
  created_at = 100;
  last_seen_at = 100;
  expires_at = 90_000;
}

-- Five failures, the last in second 100.
abbrev failures : Attempt
failures = record {
  key = codes "admin|ip";
  tries = 5;
  blocked_until = some (160 * second);
  last_attempt = some (100 * second);
}

abbrev service : Service
service = record {
  setup_token = [];
  setup_expires = none;
  idle_ttl = 2 * hour;
  absolute_ttl = 24 * hour;
  attempts = failures ∷ [];
  users = admin ∷ [];
  sessions = row ∷ [];
  drawn = 3;
}

-- What a login of the administrator gives.
abbrev began : Session
began = record {
  id = 70 ∷ [];
  user_id = codes "u1";
  username = codes "admin";
  token = 68 ∷ [];
  csrf_token = 69 ∷ [];
  created_at = 200 * second;
  last_seen_at = 200 * second;
  expires_at = 200 * second + 24 * hour;
}

logged_in : (login crypto (200 * second) (codes "admin") secret (codes "ip") service).1 ≡ ok began
unfolding login new_session is_blocked find count text_eq join split verify_password trim_space itoa
logged_in = refl

authenticate-login_example :
    (y : Session) × ((authenticate crypto
        (300 * second)
        (68 ∷ [])
        (login crypto (200 * second) (codes "admin") secret (codes "ip") service).0).1
      ≡ ok y)
    × (y.id ≡ 70 ∷ [])
    × (y.user_id ≡ codes "u1")
authenticate-login_example =
    authenticate-login crypto (200 * second) (300 * second) (codes "admin") secret (codes "ip")
      service began logged_in refl (ground arith) (ground arith)

abbrev seen : Session
seen = record {
  id = codes "s1";
  user_id = codes "u1";
  username = codes "admin";
  token = [];
  csrf_token = [];
  created_at = 100 * second;
  last_seen_at = 100 * second;
  expires_at = 90_000 * second;
}

is_seen : (authenticate crypto (200 * second) (codes "t") service).1 ≡ ok seen
unfolding authenticate find text_eq
is_seen = refl

authenticate-Opened_example : Opened crypto (200 * second) (codes "t") service seen
authenticate-Opened_example =
    authenticate-Opened crypto (200 * second) (codes "t") service seen is_seen

-- The session of another user, which stays.
abbrev other : Row
other = record row { id = codes "s2"; user_id = codes "u2"; token_hash = 0 ∷ codes "o" }

abbrev two_users : Service
two_users = record service {
  users = admin ∷ record admin { id = codes "u2"; username = codes "guest" } ∷ [];
  sessions = row ∷ other ∷ [];
}

abbrev guest : Session
guest = record seen { id = codes "s2"; user_id = codes "u2"; username = codes "guest" }

change_password_revokes_example : codes "u2" ≢ codes "u1"
unfolding change_password authenticate find text_eq join split verify_password hash_password
    validate_password byte_length update delete select itoa
change_password_revokes_example =
    change_password_revokes crypto (150 * second) (200 * second) (codes "u1") secret
      (codes "another password") (codes "o") two_users guest refl refl

logout_ends_example : codes "s2" ≢ codes "s1"
unfolding logout authenticate find text_eq delete select
logout_ends_example =
    logout_ends crypto (200 * second) (codes "s1") (codes "o") two_users guest refl
