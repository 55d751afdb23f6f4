-- ===== src/Auth/Setup.antt =====
-- internal/auth/service.go: the creation of the administrator, `Setup`.
use ialbum.Base.{
  suc, ◌≤◌, ◌≡◌, refl, true, false, not, ◌||◌, List, [], ◌∷◌, none, arith, Bool-cases, inl, inr,
  ◌⊎◌,
}
use ialbum.Text.{Text, text_eq, trim_space, byte_length}
use ialbum.Text.Laws.{text_eq_iff}
use ialbum.Time.{Time}
use ialbum.Auth.Password.{
  Crypto, Error, Result-cases, ok, err, hash_password, setup_closed, invalid_setup_token,
  bad_username,
}
use ialbum.Auth.{User, Service, setup, create_user, new_user, has_user, name_fits, is_after}

module _ (crypto : Crypto) where
  -- What the one successful call of Setup had and did.
  pub record Created (now : Time) (token username password : Text) (s s' : Service) (u : User)
      : Type 0 where
    pub first : s.users ≡ []
    pub token_given : token ≡ s.setup_token
    pub in_time : is_after now s.setup_expires ≡ false
    pub name_length :
        (3 ≤ byte_length (trim_space username)) × (byte_length (trim_space username) ≤ 64)
    pub name : u.username ≡ trim_space username
    pub hashed : hash_password crypto (crypto.random s.drawn) password ≡ ok u.password_hash
    pub alone : s'.users ≡ u ∷ []
    pub closed :
        (later : Time) (t n p : Text) → setup crypto later t n p s' ≡ (s', err setup_closed)

  users-has_user : (s : Service) → has_user s ≡ false → s.users ≡ []
  users-has_user s e = go s.users e
    where
      go : (us : List User) → (elim us [ [] ↦ false | u ∷ us ↦ true ]) ≡ false → us ≡ []
      go [] e = refl
      go (u ∷ us) e = absurd (cc)

  -- A Setup that runs alone either changes nothing and fails, or it creates the administrator: with the right token in
  -- time, under a name of 3 to 64 bytes and a password that was hashed, where there was no user. There is
  -- one user then, and every later Setup is refused.
  setup_once :
      (now : Time) (token username password : Text) (s : Service)
      → ((e : Error) × (setup crypto now token username password s ≡ (s, err e)))
        ⊎ ((s' : Service) × (u : User) × (setup crypto now token username password s ≡ (s', ok u))
            × Created now token username password s s' u)
  unfolding setup new_user
  setup_once now token username password s = elim (Bool-cases (has_user s)) [
    | inl h ↦ inl (setup_closed, rw (h, setup) refl)
    | inr h ↦
        elim (Bool-cases (is_after now s.setup_expires || not (text_eq token s.setup_token))) [
          | inl t ↦ inl (invalid_setup_token, rw (h, setup) (rw t refl))
          | inr t ↦ elim (Bool-cases (name_fits crypto (trim_space username))) [
            | inr n ↦ inl (bad_username, rw (h, setup) (rw t (rw n refl)))
            | inl n ↦ elim (Result-cases (hash_password crypto (crypto.random s.drawn) password)) [
              | inr (e, p) ↦ inl (e, rw (h, setup) (rw t (rw n (rw (p, create_user) refl))))
              | inl (hash, p) ↦ inr (
                after hash,
                admin hash,
                rw (h, setup) (rw t (rw n (rw (p, create_user, users-has_user s h) refl))),
                record {
                  first = users-has_user s h;
                  token_given = ground (arith, t, text_eq_iff token s.setup_token);
                  in_time = ground (arith, t);
                  name_length = (ground (arith, n), ground (arith, n));
                  name = refl;
                  hashed = p;
                  alone = refl;
                  closed = λ later t n p. refl;
                },
              )
            ]
          ]
        ]
  ]
    where
      admin : Text → User
      admin hash = new_user crypto (crypto.random (suc s.drawn)) now (trim_space username) hash

      after : Text → Service
      after hash = record s {
        users = admin hash ∷ [];
        setup_token = [];
        setup_expires = none;
        drawn = suc (suc s.drawn);
      }
