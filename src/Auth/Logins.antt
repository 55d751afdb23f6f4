-- ===== src/Auth/Logins.antt =====
-- internal/auth/service.go: from `Login` to `Authenticate`.
use ialbum.Base.{
  ℕ, suc, ◌+◌, ◌-◌, ◌*◌, ◌≤◌, ◌≡◌, refl, sym, ap, ◌∙◌, ◌⊎◌, Bool, false, ◌||◌, List, [], ◌∷◌, ◌++◌,
  some, arith, All-imp, All-Elem, Elem, leb, Bool-cases, Option-cases, some_inj, inl, inr,
}
use mathlib.Core.Path.{subst}
use ialbum.Text.{Text, text_eq, is_empty, trim_space}
use ialbum.Text.Laws.{text_eq_refl, text_eq_iff}
use ialbum.Time.{Time, second, unix}
use ialbum.Sql.{find, count}
use ialbum.Sql.Laws.{find-none, find-Elem, find-append_none, count_pos}
use ialbum.Auth.Password.{
  Crypto, Error, ok, err, save_session, rate_limited, invalid_credentials, verify_password,
}
use ialbum.Auth.{
  Row, User, Session, Service, is_over, is_stale, session_of, authenticate, has_token_hash,
  has_user_id, new_session, login, login_key, is_blocked, credentials, clear_failure, is_named,
}

module _ (crypto : Crypto) where
  -- The row of a session that a login began.
  row_of : Time → Service → User → Row
  row_of now s u = record {
    id = crypto.random (suc (suc s.drawn));
    user_id = u.id;
    token_hash = crypto.sha256 (crypto.random s.drawn);
    csrf_hash = crypto.sha256 (crypto.random (suc s.drawn));
    created_at = unix now;
    last_seen_at = unix now;
    expires_at = unix (now + s.absolute_ttl);
  }

  abbrev clashes : Service → Row → Bool
  clashes s r =
      has_token_hash crypto (crypto.sha256 (crypto.random s.drawn)) r
      || text_eq r.id (crypto.random (suc (suc s.drawn)))

  find-new_row :
      (now : Time) (s : Service) (u : User)
      → leb 1 (count (clashes s) s.sessions) ≡ false
      → find
          (has_token_hash crypto (crypto.sha256 (crypto.random s.drawn)))
          (s.sessions ++ row_of now s u ∷ [])
        ≡ some (row_of now s u)
  unfolding row_of find
  find-new_row now s u c = elim (Option-cases (find (clashes s) s.sessions)) [
    | inr (r, f) ↦ absurd (ground (arith, c, count_pos (clashes s) s.sessions f))
    | inl f ↦
        find-append_none (has_token_hash crypto (crypto.sha256 (crypto.random s.drawn))) s.sessions
          _ (All-imp (λ x h. ground (arith, h)) s.sessions (find-none (clashes s) s.sessions f))
        ∙ rw (text_eq_refl (crypto.sha256 (crypto.random s.drawn))) refl
  ]

  -- What a login that succeeds leaves.
  pub record LoggedIn (now absolute idle : ℕ) (before : List User) (s' : Service) (x : Session)
      : Type 0 where
    pub user : User
    pub known : Elem user before
    pub row : Row
    pub stored : find (has_token_hash crypto (crypto.sha256 x.token)) s'.sessions ≡ some row
    pub same_id : row.id ≡ x.id
    pub same_user : (row.user_id ≡ user.id) × (x.user_id ≡ user.id)
    pub seen : row.last_seen_at ≡ unix now
    pub end : row.expires_at ≡ unix (now + absolute)
    pub users : s'.users ≡ before
    pub same_idle : s'.idle_ttl ≡ idle

  new_session-LoggedIn :
      (now : Time) (u : User) (s : Service)
      → Elem u s.users
      → ((new_session crypto now u s).1 ≡ err save_session)
        ⊎ ((x : Session) × ((new_session crypto now u s).1 ≡ ok x)
            × LoggedIn now s.absolute_ttl s.idle_ttl s.users (new_session crypto now u s).0 x)
  unfolding new_session row_of
  new_session-LoggedIn now u s el = elim (Bool-cases (leb 1 (count (clashes s) s.sessions))) [
    | inl c ↦ inl (rw (c, new_session) refl)
    | inr c ↦
        rw (c, new_session)
          (inr (
            _,
            refl,
            record {
              user = u;
              known = el;
              row = row_of now s u;
              stored = find-new_row now s u c;
              same_id = refl;
              same_user = (refl, refl);
              seen = refl;
              end = refl;
              users = refl;
              same_idle = refl;
            },
          ))
  ]

  credentials_known :
      (username password : Text) (s : Service) {u : User}
      → credentials crypto username password s ≡ some u
      → Elem u s.users
  credentials_known username password s {u = u} e =
      elim (Option-cases (find (is_named crypto (trim_space username)) s.users)) [
        | inl f ↦ absurd (cc (rw (f, credentials) at e))
        | inr (v, f) ↦ elim (Bool-cases (verify_password crypto v.password_hash password)) [
          | inr p ↦ absurd (cc (rw p at (rw (f, credentials) at e)))
          | inl p ↦
              let q = rw p at (rw (f, credentials) at e) in
              subst (λ z. Elem z s.users) (some_inj q) (find-Elem _ s.users f)
        ]
      ]

  login-LoggedIn :
      (now : Time) (username password remote : Text) (s : Service)
      → ((e : Error) × ((login crypto now username password remote s).1 ≡ err e))
        ⊎ ((x : Session) × ((login crypto now username password remote s).1 ≡ ok x)
            × LoggedIn now s.absolute_ttl s.idle_ttl s.users
                (login crypto now username password remote s).0
                x)
  unfolding login
  login-LoggedIn now username password remote s =
      elim (Bool-cases (is_blocked crypto now (login_key crypto username remote) s.attempts)) [
        | inl b ↦ inl (rate_limited, rw (b, login) refl)
        | inr b ↦ elim (Option-cases (credentials crypto username password s)) [
          | inl c ↦ inl (invalid_credentials, rw (b, login) (rw c refl))
          | inr (u, c) ↦
              rw (b, login)
                (rw c
                  (elim (new_session-LoggedIn now u
                    (record s {
                      attempts = clear_failure crypto (login_key crypto username remote) s.attempts;
                    })
                    (credentials_known username password s c)) [
                      | inl e ↦ inl (save_session, e)
                      | inr x ↦ inr x
                    ]))
        ]
      ]

  user_found :
      (id : Text) (us : List User) {u : User}
      → Elem u us
      → u.id ≡ id
      → (v : User) × (find (has_user_id crypto id) us ≡ some v)
  user_found id us {u = u} el e = elim (Option-cases (find (has_user_id crypto id) us)) [
    | inr (v, f) ↦ (v, f)
    | inl f ↦
        let (y, q, h) = All-Elem {P = λ x. has_user_id crypto id x ≡ false} (find-none _ us f) el in
        absurd (ground (arith, h, q, text_eq_iff y.id id, ap (λ z. z.id) q, e))
  ]

  -- The token of a login opens its session, for its user, up to the second in which the session ends
  -- and while no more than the idle time has passed since the second of the login.
  pub authenticate-login :
      (now later : Time) (username password remote : Text) (s : Service) (x : Session)
      → (login crypto now username password remote s).1 ≡ ok x
      → is_empty x.token ≡ false
      → later ≤ unix (now + s.absolute_ttl) * second
      → later - unix now * second ≤ s.idle_ttl
      → (y : Session) × ((authenticate crypto later x.token
            (login crypto now username password remote s).0).1
          ≡ ok y)
        × (y.id ≡ x.id)
        × (y.user_id ≡ x.user_id)
  unfolding authenticate
  authenticate-login now later username password remote s x e ne alive busy =
      elim (login-LoggedIn now username password remote s) [
        | inl (e', f) ↦ absurd (cc)
        | inr (y, f, l) ↦
            opens (login crypto now username password remote s).0
              (subst (LoggedIn now s.absolute_ttl s.idle_ttl s.users _) (cc) l)
      ]
    where
      opens :
          (s' : Service)
          → LoggedIn now s.absolute_ttl s.idle_ttl s.users s' x
          → (y : Session) × ((authenticate crypto later x.token s').1 ≡ ok y)
            × (y.id ≡ x.id)
            × (y.user_id ≡ x.user_id)
      opens s' l =
          let (v, fv) =
            user_found l.row.user_id s'.users (subst (Elem l.user) (sym l.users) l.known)
              (sym l.same_user.0) in
          let over : is_over crypto s' later l.row ≡ false =
            ground (arith, l.seen, l.end, l.same_idle, alive, busy) in
          elim (Bool-cases (is_stale crypto later l.row)) [
            | inl st ↦ (
              session_of crypto l.row v later,
              rw (ne, authenticate) (rw l.stored (rw fv (rw over (rw st refl)))),
              l.same_id,
              cc,
            )
            | inr st ↦ (
              session_of crypto l.row v (l.row.last_seen_at * second),
              rw (ne, authenticate) (rw l.stored (rw fv (rw over (rw st refl)))),
              l.same_id,
              cc,
            )
          ]
