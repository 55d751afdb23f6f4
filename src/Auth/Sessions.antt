-- ===== src/Auth/Sessions.antt =====
-- internal/auth/service.go: what a session token opens, and what ends it.
use ialbum.Base.{
  ◌-◌, ◌*◌, ◌≤◌, ◌≡◌, ◌≢◌, refl, sym, ◌∙◌, ◌⊎◌, Bool, true, false, not, List, map, some, arith,
  Elem, All-Elem, All-imp, if◌then◌else◌, ◌==◌, Bool-cases, Option-cases, inl, inr, Distinct,
}
use mathlib.Core.Path.{subst}
use ialbum.Text.{Text, text_eq, is_empty}
use ialbum.Text.Laws.{text_eq_iff}
use ialbum.Time.{Time, second}
use ialbum.Sql.{find, delete, count}
use ialbum.Sql.Laws.{find-passes, find-Elem, find-update, find-none, count_none}
use ialbum.Sql.Keys.{count-by_key}
use ialbum.Sql.Order.{All-select_test}
use ialbum.Auth.Password.{
  Crypto, Error, Result-cases, ok, err, invalid_csrf, invalid_session, invalid_credentials, no_rows,
  hash_password, verify_password,
}
use ialbum.Auth.{
  Row, User, Session, Service, is_over, is_stale, session_of, authenticate, has_token_hash,
  has_user_id, has_session_id, of_user, change_password, logout, csrf_token, validate_csrf, rotate,
  is_session,
}

module _ (crypto : Crypto) where
  -- What a request that is let in rests on: a row with the token's hash that is not past its end nor
  -- idle for too long, and its user.
  pub record Opened (now : Time) (token : Text) (s : Service) (x : Session) : Type 0 where
    pub row : Row
    pub user : User
    pub stored : Elem row s.sessions
    pub known : Elem user s.users
    pub hashed : row.token_hash ≡ crypto.sha256 token
    pub owner : user.id ≡ row.user_id
    pub not_expired : now ≤ row.expires_at * second
    pub not_idle : now - row.last_seen_at * second ≤ s.idle_ttl
    pub same_session : x.id ≡ row.id
    pub same_user : x.user_id ≡ row.user_id
    pub same_name : x.username ≡ user.username

  opened :
      (now : Time) (token : Text) (s : Service) {r : Row} {u : User} (seen : Time)
      → find (has_token_hash crypto (crypto.sha256 token)) s.sessions ≡ some r
      → find (has_user_id crypto r.user_id) s.users ≡ some u
      → is_over crypto s now r ≡ false
      → Opened now token s (session_of crypto r u seen)
  opened now token s {r = r} {u = u} seen fr fu o = record {
    row = r;
    user = u;
    stored = find-Elem (has_token_hash crypto (crypto.sha256 token)) s.sessions fr;
    known = find-Elem (has_user_id crypto r.user_id) s.users fu;
    hashed = (text_eq_iff r.token_hash (crypto.sha256 token)).0 (find-passes _ s.sessions fr);
    owner = (text_eq_iff u.id r.user_id).0 (find-passes _ s.users fu);
    not_expired = ground (arith, o);
    not_idle = ground (arith, o);
    same_session = refl;
    same_user = refl;
    same_name = refl;
  }

  authenticate_cases :
      (now : Time) (token : Text) (s : Service)
      → ((authenticate crypto now token s).1 ≡ err invalid_session)
        ⊎ ((x : Session) × ((authenticate crypto now token s).1 ≡ ok x) × Opened now token s x)
  unfolding authenticate
  authenticate_cases now token s = elim (Bool-cases (is_empty token)) [
    | inl t ↦ inl (rw (t, authenticate) refl)
    | inr t ↦ elim (Option-cases (find (has_token_hash crypto (crypto.sha256 token)) s.sessions)) [
      | inl fr ↦ inl (rw (t, authenticate) (rw fr refl))
      | inr (r, fr) ↦ elim (Option-cases (find (has_user_id crypto r.user_id) s.users)) [
        | inl fu ↦ inl (rw (t, authenticate) (rw fr (rw fu refl)))
        | inr (u, fu) ↦ elim (Bool-cases (is_over crypto s now r)) [
          | inl o ↦ inl (rw (t, authenticate) (rw fr (rw fu (rw o refl))))
          | inr o ↦ elim (Bool-cases (is_stale crypto now r)) [
            | inl st ↦ inr (
              _,
              rw (t, authenticate) (rw fr (rw fu (rw o (rw st refl)))),
              opened now token s now fr fu o,
            )
            | inr st ↦ inr (
              _,
              rw (t, authenticate) (rw fr (rw fu (rw o (rw st refl)))),
              opened now token s (r.last_seen_at * second) fr fu o,
            )
          ]
        ]
      ]
    ]
  ]

  -- A request is let in only by a row with the token's hash that is neither past its end nor idle for
  -- longer than allowed, as the user of that row.
  pub authenticate-Opened :
      (now : Time) (token : Text) (s : Service) (x : Session)
      → (authenticate crypto now token s).1 ≡ ok x
      → Opened now token s x
  authenticate-Opened now token s x e = elim (authenticate_cases now token s) [
    | inl n ↦ absurd (cc)
    | inr (y, f, o) ↦ subst (Opened now token s) (cc) o
  ]

  sessions-change_password :
      (now : Time) (id current next : Text) (s : Service)
      → ((e : Error) × (change_password crypto now id current next s ≡ (s, err e)))
        ⊎ ((change_password crypto now id current next s).0.sessions
            ≡ delete (of_user crypto id) s.sessions)
  unfolding change_password
  sessions-change_password now id current next s =
      elim (Option-cases (find (has_user_id crypto id) s.users)) [
        | inl f ↦ inl (no_rows, rw (f, change_password) refl)
        | inr (u, f) ↦ elim (Bool-cases (verify_password crypto u.password_hash current)) [
          | inr v ↦ inl (invalid_credentials, rw (f, change_password) (rw v refl))
          | inl v ↦ elim (Result-cases (hash_password crypto (crypto.random s.drawn) next)) [
            | inr (e, h) ↦ inl (e, rw (f, change_password) (rw v (rw h refl)))
            | inl (t, h) ↦ inr (rw (f, change_password) (rw v (rw h refl)))
          ]
        ]
      ]

  none_left : (p : Row → Bool) (rows : List Row) {r : Row} → Elem r (delete p rows) → p r ≡ false
  unfolding delete
  none_left p rows {r = r} el =
      let (y, q, h) =
        All-Elem {P = λ x. not (p x) ≡ true} (All-select_test (λ x. not (p x)) rows) el in
      rw q (ground (arith, h))

  -- Once a password was changed, no token that was given out before lets a request in as that user,
  -- at any time and whichever sessions there were.
  pub change_password_revokes :
      (now later : Time) (id current next token : Text) (s : Service) (x : Session)
      → (change_password crypto now id current next s).1 ≡ ok tt
      → (authenticate crypto later token (change_password crypto now id current next s).0).1 ≡ ok x
      → x.user_id ≢ id
  change_password_revokes now later id current next token s x c a =
      elim (sessions-change_password now id current next s) [
        | inl (e, f) ↦ absurd (cc)
        | inr f ↦
            let o = authenticate-Opened later token _ x a in
            revoked (of_user crypto id) (λ r. (text_eq_iff r.user_id id).1) f o.stored o.same_user
      ]
    where
      revoked :
          {rows : List Row} {r : Row} (p : Row → Bool)
          → ((y : Row) → y.user_id ≡ id → p y ≡ true)
          → rows ≡ delete p s.sessions
          → Elem r rows
          → x.user_id ≡ r.user_id
          → x.user_id ≢ id
      revoked {rows = rows} {r = r} p sound f el same q =
          ground (arith, none_left p s.sessions (subst (Elem r) f el), sound r (sym same ∙ q))

  -- After a logout no token opens the session that ended, at any later time.
  pub logout_ends :
      (later : Time) (id token : Text) (s : Service) (x : Session)
      → (authenticate crypto later token (logout crypto id s)).1 ≡ ok x
      → x.id ≢ id
  unfolding logout
  logout_ends later id token s x a q =
      let o = authenticate-Opened later token (logout crypto id s) x a in
      ground (
        arith,
        none_left (has_session_id crypto id) s.sessions o.stored,
        text_eq_iff o.row.id id,
        o.same_session,
      )

  one_session :
      (id raw : Text) (s : Service) {fresh : Text}
      → (csrf_token crypto id raw s).1 ≡ ok fresh
      → (count (is_session crypto id raw) s.sessions ≡ 1) × (fresh ≡ crypto.random s.drawn)
  unfolding csrf_token
  one_session id raw s e = elim (Bool-cases (count (is_session crypto id raw) s.sessions == 1)) [
    | inl t ↦ (ground (arith, t), cc (rw (t, csrf_token) at e))
    | inr t ↦ absurd (cc (rw (t, csrf_token) at e))
  ]

  -- With distinct ids of sessions, the token that CSRFToken returns is accepted for its session and
  -- every token with another hash, the one before included, is refused.
  validate-csrf_token :
      (id raw token : Text) (s : Service) {fresh : Text}
      → Distinct (map (λ r. r.id) s.sessions)
      → (csrf_token crypto id raw s).1 ≡ ok fresh
      → validate_csrf crypto id token (csrf_token crypto id raw s).0
        ≡ (if text_eq (crypto.sha256 token) (crypto.sha256 fresh) then ok tt else err invalid_csrf)
  unfolding csrf_token validate_csrf rotate
  validate-csrf_token id raw token s {fresh = fresh} d e =
      elim (Option-cases (find (has_session_id crypto id) s.sessions)) [
        | inl f ↦ absurd (
            ground (
              arith,
              one.0,
              count_none (is_session crypto id raw) s.sessions
                  (All-imp (λ x h. ground (arith, h)) s.sessions (find-none _ s.sessions f)),
            ))
        | inr (r, f) ↦ elim (Bool-cases (has_token_hash crypto (crypto.sha256 raw) r)) [
          | inl h ↦
              rw
                (
                  find-update (has_session_id crypto id) (is_session crypto id raw)
                      (rotate crypto (crypto.sha256 (crypto.random s.drawn))) (λ x. refl)
                      s.sessions,
                  validate_csrf,
                )
                (rw f (rw (find-passes (has_session_id crypto id) s.sessions f, h, one.1) refl))
          | inr h ↦ absurd (
              ground (
                arith,
                one.0,
                h,
                count-by_key (λ r. r.id) (has_token_hash crypto (crypto.sha256 raw)) id s.sessions d
                    f,
              ))
        ]
      ]
    where
      one : (count (is_session crypto id raw) s.sessions ≡ 1) × (fresh ≡ crypto.random s.drawn)
      one = one_session id raw s e
