-- ===== src/Auth.antt =====
-- internal/auth/service.go: the administrator, logins with their throttle, and sessions.
pub mod Password
pub mod Throttle
pub mod Sessions
pub mod Setup
pub mod Logins
mod Tests
use ialbum.Base.{
  ℕ, suc, ◌+◌, ◌-◌, ◌*◌, Bool, true, false, not, ◌&&◌, ◌||◌, List, [], ◌∷◌, ◌++◌, map, Option, none,
  some, if◌then◌else◌, ltb, leb, ◌==◌,
}
use ialbum.Text.{Text, text_eq, is_empty, byte_length, trim_space}
use ialbum.Time.{Time, Duration, unix, second, minute}
use ialbum.Sql.{find, update, count, delete, insert}
use ialbum.Auth.Password.{Crypto, Error, Result, ok, err, hash_password, verify_password}
use ialbum.Auth.Password

-- users
pub record User : Type 0 where
  pub id : Text
  pub username : Text
  pub password_hash : Text
  pub created_at : ℕ
  pub updated_at : ℕ

-- sessions
pub record Row : Type 0 where
  pub id : Text
  pub user_id : Text
  pub token_hash : Text
  pub csrf_hash : Text
  pub created_at : ℕ
  pub last_seen_at : ℕ
  pub expires_at : ℕ

-- What a login gives to the browser, and what a request is authenticated as.
pub record Session : Type 0 where
  pub id : Text
  pub user_id : Text
  pub username : Text
  pub token : Text
  pub csrf_token : Text
  pub created_at : Time
  pub last_seen_at : Time
  pub expires_at : Time

-- loginAttempt; `none` is the zero time, before every other.
pub record Attempt : Type 0 where
  pub key : Text
  pub tries : ℕ
  pub blocked_until : Option Time
  pub last_attempt : Option Time

-- The fields of Service, the two tables, and how many random values have been drawn.
pub record Service : Type 0 where
  pub setup_token : Text
  pub setup_expires : Option Time
  pub idle_ttl : Duration
  pub absolute_ttl : Duration
  pub attempts : List Attempt
  pub users : List User
  pub sessions : List Row
  pub drawn : ℕ

-- now.After(t) for a time that may be the zero time
abbrev pub is_after : Time → Option Time → Bool
is_after now none = true
is_after now (some t) = ltb t now

-- now.Before(t)
abbrev pub is_before : Time → Option Time → Bool
is_before now none = false
is_before now (some t) = ltb now t

-- now.Sub(t) > d; from the zero time on it is the longest duration.
abbrev pub longer_since : Duration → Time → Option Time → Bool
longer_since d now none = true
longer_since d now (some t) = ltb d (now - t)

abbrev pub has_user : Service → Bool
has_user s = elim (s.users) [ [] ↦ false | u ∷ us ↦ true ]

module _ (crypto : Crypto) where
  -- NewService, on the tables that the database holds
  unfoldable pub new_service :
      Time → Duration → Duration → Duration → List User → List Row → ℕ → Service
  new_service now setup_ttl idle absolute users sessions drawn = elim users [
    | [] ↦ record {
      setup_token = crypto.random drawn;
      setup_expires = some (now + setup_ttl);
      idle_ttl = idle;
      absolute_ttl = absolute;
      attempts = [];
      users = [];
      sessions = sessions;
      drawn = suc drawn;
    }
    | u ∷ us ↦ record {
      setup_token = [];
      setup_expires = none;
      idle_ttl = idle;
      absolute_ttl = absolute;
      attempts = [];
      users = u ∷ us;
      sessions = sessions;
      drawn = drawn;
    }
  ]

  pub new_user : Text → Time → Text → Text → User
  new_user id now name hash = record {
    id = id;
    username = name;
    password_hash = hash;
    created_at = unix now;
    updated_at = unix now;
  }

  abbrev pub name_fits : Text → Bool
  name_fits name = not (ltb (byte_length name) 3 || ltb 64 (byte_length name))

  -- The salt is the next random value, the id the one behind it.
  abbrev pub create_user : Time → Text → Text → Service → Service × Result User
  create_user now name password s = elim (hash_password crypto (crypto.random s.drawn) password) [
    | err e ↦ (s, err e)
    | ok hash ↦
        let user : User = new_user (crypto.random (suc s.drawn)) now name hash in
        (
          record s {
            users = insert user s.users;
            setup_token = [];
            setup_expires = none;
            drawn = suc (suc s.drawn);
          },
          ok user,
        )
  ]

  -- Setup, where no other request runs between its statements
  unfoldable pub setup : Time → Text → Text → Text → Service → Service × Result User
  unfolding new_user
  setup now token username password s =
      if has_user s
      then (s, err Password.setup_closed)
      else if is_after now s.setup_expires || not (text_eq token s.setup_token)
      then (s, err Password.invalid_setup_token)
      else if name_fits (trim_space username)
      then create_user now (trim_space username) password s
      else (s, err Password.bad_username)

  abbrev pub has_attempt_key : Text → Attempt → Bool
  has_attempt_key key a = text_eq a.key key

  -- A key that the map lacks gives the zero value.
  abbrev pub attempt_of : Text → List Attempt → Attempt
  attempt_of key attempts = elim (find (has_attempt_key key) attempts) [
    | none ↦ record { key = key; tries = 0; blocked_until = none; last_attempt = none }
    | some a ↦ a
  ]

  -- isBlocked
  unfoldable pub is_blocked : Time → Text → List Attempt → Bool
  is_blocked now key attempts = is_before now (attempt_of key attempts).blocked_until

  abbrev pub forget : Time → Attempt → ℕ
  forget now a = if longer_since (15 * minute) now a.last_attempt then 0 else a.tries

  unfoldable pub note_failure : Time → Text → Attempt → Attempt
  note_failure now key a =
      let n = forget now a + 1 in
      record {
        key = key;
        tries = n;
        last_attempt = some now;
        blocked_until = if leb 5 n then some (now + (n - 4) * minute) else a.blocked_until;
      }

  -- recordFailure
  unfoldable pub record_failure : Time → Text → List Attempt → List Attempt
  unfolding note_failure
  record_failure now key attempts =
      note_failure now key (attempt_of key attempts) ∷ delete (has_attempt_key key) attempts

  -- clearFailure
  abbrev pub clear_failure : Text → List Attempt → List Attempt
  clear_failure key attempts = delete (has_attempt_key key) attempts

  abbrev pub login_key : Text → Text → Text
  login_key username remote = map crypto.lower (trim_space username) ++ b'|' ∷ remote

  abbrev pub has_token_hash : Text → Row → Bool
  has_token_hash h r = text_eq r.token_hash h

  -- newSession: the token, the CSRF token and the id are the next random values.
  unfoldable pub new_session : Time → User → Service → Service × Result Session
  new_session now user s =
      let token = crypto.random s.drawn in
      let csrf = crypto.random (suc s.drawn) in
      let id = crypto.random (suc (suc s.drawn)) in
      let drew : Service = record s { drawn = suc (suc (suc s.drawn)) } in
      if leb 1 (count (λ r. has_token_hash (crypto.sha256 token) r || text_eq r.id id) s.sessions)
      then (drew, err Password.save_session)
      else (
        record drew {
          sessions =
              insert
                (record {
                  id = id;
                  user_id = user.id;
                  token_hash = crypto.sha256 token;
                  csrf_hash = crypto.sha256 csrf;
                  created_at = unix now;
                  last_seen_at = unix now;
                  expires_at = unix (now + s.absolute_ttl);
                })
                s.sessions;
        },
        ok (record {
          id = id;
          user_id = user.id;
          username = user.username;
          token = token;
          csrf_token = csrf;
          created_at = now;
          last_seen_at = now;
          expires_at = now + s.absolute_ttl;
        }),
      )

  abbrev pub is_named : Text → User → Bool
  is_named name u = crypto.same_name u.username name

  abbrev pub credentials : Text → Text → Service → Option User
  credentials username password s = elim (find (is_named (trim_space username)) s.users) [
    | none ↦ none
    | some u ↦ if verify_password crypto u.password_hash password then some u else none
  ]

  -- Login, where no other request runs between its statements
  unfoldable pub login : Time → Text → Text → Text → Service → Service × Result Session
  login now username password remote s =
      if is_blocked now (login_key username remote) s.attempts
      then (s, err Password.rate_limited)
      else elim (credentials username password s) [
        | none ↦ (
          record s { attempts = record_failure now (login_key username remote) s.attempts },
          err Password.invalid_credentials,
        )
        | some u ↦
            new_session now u
              (record s { attempts = clear_failure (login_key username remote) s.attempts })
      ]

  abbrev pub has_session_id : Text → Row → Bool
  has_session_id id r = text_eq r.id id

  abbrev pub has_user_id : Text → User → Bool
  has_user_id id u = text_eq u.id id

  -- The two rows of the join.
  abbrev pub joined : Text → Service → Option (Row × User)
  joined token s = elim (find (has_token_hash (crypto.sha256 token)) s.sessions) [
    | none ↦ none
    | some r ↦ elim (find (has_user_id r.user_id) s.users) [ none ↦ none | some u ↦ some (r, u) ]
  ]

  abbrev pub is_over : Service → Time → Row → Bool
  is_over s now r =
      ltb (r.expires_at * second) now || ltb s.idle_ttl (now - r.last_seen_at * second)

  touch : ℕ → Row → Row
  touch t r = record r { last_seen_at = t }

  abbrev pub session_of : Row → User → Time → Session
  session_of r u seen = record {
    id = r.id;
    user_id = r.user_id;
    username = u.username;
    token = [];
    csrf_token = [];
    created_at = r.created_at * second;
    last_seen_at = seen;
    expires_at = r.expires_at * second;
  }

  abbrev pub is_stale : Time → Row → Bool
  is_stale now r = ltb (5 * minute) (now - r.last_seen_at * second)

  -- Authenticate
  unfoldable pub authenticate : Time → Text → Service → Service × Result Session
  unfolding touch
  authenticate now token s =
      if is_empty token then (s, err Password.invalid_session) else elim (joined token s) [
        | none ↦ (s, err Password.invalid_session)
        | some (r, u) ↦
            if is_over s now r
            then (
              record s { sessions = delete (has_session_id r.id) s.sessions },
              err Password.invalid_session,
            )
            else if is_stale now r
            then (
              record s { sessions = update (has_session_id r.id) (touch (unix now)) s.sessions },
              ok (session_of r u now),
            )
            else (s, ok (session_of r u (r.last_seen_at * second)))
      ]

  -- ValidateCSRF
  unfoldable pub validate_csrf : Text → Text → Service → Result (Unit {0})
  validate_csrf id token s = elim (find (has_session_id id) s.sessions) [
    | none ↦ err Password.invalid_csrf
    | some r ↦
        if text_eq (crypto.sha256 token) r.csrf_hash then ok tt else err Password.invalid_csrf
  ]

  rotate : Text → Row → Row
  rotate h r = record r { csrf_hash = h }

  abbrev pub is_session : Text → Text → Row → Bool
  is_session id raw r = has_session_id id r && has_token_hash (crypto.sha256 raw) r

  -- CSRFToken
  unfoldable pub csrf_token : Text → Text → Service → Service × Result Text
  unfolding rotate
  csrf_token id raw s =
      let csrf = crypto.random s.drawn in
      (
        record s {
          sessions = update (is_session id raw) (rotate (crypto.sha256 csrf)) s.sessions;
          drawn = suc s.drawn;
        },
        if count (is_session id raw) s.sessions == 1 then ok csrf else err Password.invalid_session,
      )

  -- Logout
  unfoldable pub logout : Text → Service → Service
  logout id s = record s { sessions = delete (has_session_id id) s.sessions }

  set_password : Text → ℕ → User → User
  set_password hash now u = record u { password_hash = hash; updated_at = now }

  abbrev pub of_user : Text → Row → Bool
  of_user id r = text_eq r.user_id id

  -- ChangePassword
  unfoldable pub change_password : Time → Text → Text → Text → Service → Service × Result (Unit {0})
  unfolding set_password
  change_password now id current next s = elim (find (has_user_id id) s.users) [
    | none ↦ (s, err Password.no_rows)
    | some u ↦
        if verify_password crypto u.password_hash current
        then elim (hash_password crypto (crypto.random s.drawn) next) [
          | err e ↦ (s, err e)
          | ok hash ↦ (
            record s {
              users = update (has_user_id id) (set_password hash (unix now)) s.users;
              sessions = delete (of_user id) s.sessions;
              drawn = suc s.drawn;
            },
            ok tt,
          )
        ]
        else (s, err Password.invalid_credentials)
  ]

  -- ResetPassword: the transaction is rolled back unless it meets one user.
  unfoldable pub reset_password : Time → Text → Text → Service → Service × Result (Unit {0})
  unfolding set_password
  reset_password now username password s =
      elim (hash_password crypto (crypto.random s.drawn) password) [
        | err e ↦ (s, err e)
        | ok hash ↦
            if count (is_named username) s.users == 1
            then (
              record s {
                users = update (is_named username) (set_password hash (unix now)) s.users;
                sessions = [];
                drawn = suc s.drawn;
              },
              ok tt,
            )
            else (s, err Password.no_rows)
      ]
