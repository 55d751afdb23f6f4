-- ===== src/Api/Guards/Trust.antt =====
-- internal/api/server.go, `requireSession`, `requireCSRF`, `validOrigin`: what a request that changes
-- something shows.
use ialbum.Base.{
  ℕ, Bool, true, false, not, ◌&&◌, ◌||◌, [], ◌∷◌, ◌++◌, ◌≢◌, ◌⊎◌, inl, inr, some, some_inj, ◌≡◌,
  refl, sym, ap, ◌∙◌, arith, ◌==◌, if◌then◌else◌, Bool-cases, Option-cases, ==_iff,
}
use ialbum.Text.{Text, codes, text_eq, is_empty, has_prefix}
use ialbum.Text.Laws.{text_eq_iff}
use mathlib.Core.Path.{subst}
use ialbum.Time.{Time}
use ialbum.Auth.{Service, Session, authenticate, validate_csrf}
use ialbum.Auth.Password
use ialbum.Auth.Password.{Crypto}
use ialbum.Auth.Sessions.{Opened, authenticate-Opened}
use ialbum.Sql.{find}
use ialbum.Auth.{Row, has_session_id}
use ialbum.Api.Guards.{
  Request, Url, Net, handler, expected_origin, is_loopback, origin_matches, same_origin,
  valid_origin, is_safe, require_csrf, require_session, trim_slash,
}

or_split : (a b : Bool) → (a || b) ≡ true → (a ≡ true) ⊎ (b ≡ true)
or_split true b h = inl refl
or_split false b h = inr h

and_split : (a b : Bool) → (a && b) ≡ true → (a ≡ true) × (b ≡ true)
and_split true b h = (refl, h)
and_split false b h = absurd (cc h)

empty_text : (t : Text) → is_empty t ≡ true → t ≡ []
empty_text [] h = refl
empty_text (c ∷ t) h = absurd (cc h)

-- A text without the slash that it may end with.
pub IsTrimmed : Text → Text → Type 0
IsTrimmed t o = (t ≡ o ++ codes "/") ⊎ ((t ≡ o) × ((p : Text) → t ≢ p ++ codes "/"))

head_or : Text → ℕ
head_or [] = 0
head_or (c ∷ t) = c

head_eq : {c d : ℕ} {s t : Text} → c ∷ s ≡ d ∷ t → c ≡ d
unfolding head_or
head_eq q = ap head_or q

short : (p : Text) → [] ≢ p ++ codes "/"
short [] q = cc q
short (x ∷ p) q = cc q

tail_or : Text → Text
tail_or [] = []
tail_or (c ∷ t) = t

trimmed : (t : Text) → IsTrimmed t (trim_slash t)
unfolding IsTrimmed tail_or
trimmed [] = inr (refl, short)
trimmed (c ∷ []) = elim (Bool-cases (c == b'/')) [
  | inl e ↦ rw e (inl (ap (λ x. x ∷ []) ((==_iff c b'/').0 e)))
  | inr e ↦ rw e (inr (refl, (λ p q. ends p q e)))
]
  where
    ends : (p : Text) → c ∷ [] ≡ p ++ codes "/" → (c == b'/') ≡ false → ⊥
    ends [] q e = cc ((==_iff c b'/').1 (head_eq q), e)
    ends (x ∷ p) q e = short p (ap tail_or q)
trimmed (c ∷ d ∷ s) = elim (trimmed (d ∷ s)) [
  | inl e ↦ inl (ap (λ z. c ∷ z) e)
  | inr both ↦ inr (ap (λ z. c ∷ z) both.0, longer both.1)
]
  where
    longer : ((p : Text) → d ∷ s ≢ p ++ codes "/") → (p : Text) → c ∷ d ∷ s ≢ p ++ codes "/"
    longer other [] q = cc (ap tail_or q)
    longer other (x ∷ p) q = other p (ap tail_or q)

-- A text that starts with another goes on with some rest.
prefix_rest : (s p : Text) → has_prefix s p ≡ true → (rest : Text) × (s ≡ p ++ rest)
unfolding has_prefix
prefix_rest s [] h = (s, refl)
prefix_rest [] (d ∷ p) h = absurd (cc h)
prefix_rest (c ∷ s) (d ∷ p) h =
    let (e, t) = and_split (c == d) (has_prefix s p) h in
    let (rest, q) = prefix_rest s p t in
    (rest, ap (λ z. c ∷ z) q ∙ ap (λ x. x ∷ p ++ rest) ((==_iff c d).0 e))

by_tls :
    (b : Bool) (host : Text)
    → ((b ≡ true)
        × ((if b then codes "https" else codes "http") ++ codes "://" ++ host
            ≡ codes "https://" ++ host))
      ⊎ ((b ≡ false)
          × ((if b then codes "https" else codes "http") ++ codes "://" ++ host
              ≡ codes "http://" ++ host))
by_tls true host = inl (refl, refl)
by_tls false host = inr (refl, refl)

module _ (crypto : Crypto) (net : Net) where
  -- The origin of the server: the public URL that is configured, without a slash at its end, or else
  -- the scheme of the connection and the host that the request names.
  pub IsOrigin : Request → Text → Type 0
  IsOrigin r o =
      ((net.public_url ≢ []) × IsTrimmed net.public_url o)
      ⊎ (((net.public_url ≡ []) × (r.tls ≡ true) × (o ≡ codes "https://" ++ r.host))
          ⊎ ((net.public_url ≡ []) × (r.tls ≡ false) × (o ≡ codes "http://" ++ r.host)))

  -- A host that means the machine itself.
  pub IsLoopback : Text → Type 0
  IsLoopback host = (host ≢ []) × ((host ≡ codes "localhost") ⊎ (net.loopback_ip host ≡ true))

  -- Where the request comes from: neither Origin nor Referer; no Origin and a Referer that starts
  -- with the server's origin; an Origin of the server's scheme and host; or loopback hosts on both
  -- sides.
  pub Trusted : Request → Type 0
  Trusted r =
      ((r.origin ≡ [])
        × ((r.referer ≡ [])
            ⊎ ((o : Text) × IsOrigin r o × (rest : Text) × (r.referer ≡ o ++ rest))))
      ⊎ ((parsed : Url) × (expected : Url) × (o : Text) × (net.parse_url r.origin ≡ some parsed)
          × IsOrigin r o
          × (net.parse_url o ≡ some expected)
          × (((parsed.host ≡ expected.host) × (parsed.scheme ≡ expected.scheme))
              ⊎ (IsLoopback (net.split_host parsed.host)
                  × IsLoopback (net.split_host expected.host))))

  -- The stored row of the session has the hash of the token that the request shows.
  pub HasToken : Session → Request → Service → Type 0
  HasToken x r s =
      (row : Row) × (find (has_session_id crypto x.id) s.sessions ≡ some row)
      × (row.csrf_hash ≡ crypto.sha256 r.csrf_token)

  -- The method is none of those that change nothing.
  abbrev pub Changes : Text → Type 0
  Changes method = (method ≢ codes "GET") × (method ≢ codes "HEAD") × (method ≢ codes "OPTIONS")

  not_safe : (method : Text) → Changes method → is_safe method ≡ false
  not_safe method n = ground (
    arith,
    n.0,
    n.1,
    n.2,
    text_eq_iff method (codes "GET"),
    text_eq_iff method (codes "HEAD"),
    text_eq_iff method (codes "OPTIONS"),
  )

  expected_origin-IsOrigin : (r : Request) → IsOrigin r (expected_origin net r)
  unfolding IsOrigin expected_origin
  expected_origin-IsOrigin r = elim (Bool-cases (is_empty net.public_url)) [
    | inr e ↦ rw (expected_origin, e) (inl ((λ q. cc (ap is_empty q, e)), trimmed net.public_url))
    | inl e ↦
        rw (expected_origin, e)
          (elim (by_tls r.tls r.host) [
            | inl q ↦ inr (inl (empty_text net.public_url e, q.0, q.1))
            | inr q ↦ inr (inr (empty_text net.public_url e, q.0, q.1))
          ])
  ]

  loopback : (host : Text) → is_loopback net host ≡ true → IsLoopback host
  unfolding IsLoopback is_loopback
  loopback host h =
      let (e, either) = and_split (not (is_empty host)) _ h in
      (
        (λ q. cc (ap is_empty q, e)),
        elim (or_split (text_eq host (codes "localhost")) _ either) [
          | inl t ↦ inl ((text_eq_iff host (codes "localhost")).0 t)
          | inr t ↦ inr t
        ],
      )

  has_token :
      (x : Session) (r : Request) (s : Service)
      → validate_csrf crypto x.id r.csrf_token s ≡ Password.ok tt
      → HasToken x r s
  unfolding HasToken validate_csrf
  has_token x r s h = elim (Option-cases (find (has_session_id crypto x.id) s.sessions)) [
    | inl f ↦ absurd (cc (rw (validate_csrf, f) at h))
    | inr (row, f) ↦ elim (Bool-cases (text_eq (crypto.sha256 r.csrf_token) row.csrf_hash)) [
      | inl t ↦ (row, f, sym ((text_eq_iff _ _).0 t))
      | inr t ↦ absurd (cc (rw (validate_csrf, f, t) at h))
    ]
  ]

  matching :
      (p q : Url)
      → origin_matches net p q ≡ true
      → ((p.host ≡ q.host) × (p.scheme ≡ q.scheme))
        ⊎ (IsLoopback (net.split_host p.host) × IsLoopback (net.split_host q.host))
  unfolding origin_matches
  matching p q h = elim (or_split (same_origin p q) _ h) [
    | inl e ↦
        let (a, b) = and_split (text_eq p.host q.host) (text_eq p.scheme q.scheme) e in
        inl ((text_eq_iff p.host q.host).0 a, (text_eq_iff p.scheme q.scheme).0 b)
    | inr e ↦
        let (a, b) = and_split _ _ e in
        inr (loopback (net.split_host p.host) a, loopback (net.split_host q.host) b)
  ]

  trusted : (r : Request) → valid_origin net r ≡ some true → Trusted r
  unfolding valid_origin Trusted
  trusted r h = elim (Bool-cases (is_empty r.origin)) [
    | inl v ↦
        let either : (is_empty r.referer || has_prefix r.referer (expected_origin net r)) ≡ true =
          some_inj (rw (valid_origin, v) at h) in
        inl (
          empty_text r.origin v,
          elim (or_split _ _ either) [
            | inl w ↦ inl (empty_text r.referer w)
            | inr w ↦ inr (
                let (rest, q) = prefix_rest r.referer (expected_origin net r) w in
                (expected_origin net r, expected_origin-IsOrigin r, rest, q))
          ],
        )
    | inr v ↦ elim (Option-cases (net.parse_url r.origin)) [
      | inl w ↦ absurd (cc (rw (valid_origin, v, w) at h))
      | inr (p, w) ↦ elim (Option-cases (net.parse_url (expected_origin net r))) [
        | inl u ↦ absurd (cc (rw (valid_origin, v, w, u) at h))
        | inr (q, u) ↦ inr (
          p,
          q,
          expected_origin net r,
          w,
          expected_origin-IsOrigin r,
          u,
          matching p q (some_inj (rw (valid_origin, v, w, u) at h)),
        )
      ]
    ]
  ]

  guarded :
      (r : Request) (s : Service) (y x : Session)
      → is_safe r.method ≡ false
      → require_csrf crypto net r s y ≡ handler x
      → (y ≡ x) × HasToken x r s × Trusted r
  unfolding require_csrf
  guarded r s y x safe h = elim (Password.Result-cases (validate_csrf crypto y.id r.csrf_token s)) [
    | inr (e, a) ↦ absurd (cc (rw (require_csrf, safe, a) at h))
    | inl (u, a) ↦ elim (Option-cases (valid_origin net r)) [
      | inl o ↦ absurd (cc (rw (require_csrf, safe, a, o) at h))
      | inr (false, o) ↦ absurd (cc (rw (require_csrf, safe, a, o) at h))
      | inr (true, o) ↦
          let same : y ≡ x = cc (rw (require_csrf, safe, a, o) at h) in
          (
            same,
            has_token x r s
                (subst (λ z. validate_csrf crypto z.id r.csrf_token s ≡ Password.ok tt) same (a)),
            trusted r o,
          )
    ]
  ]

  -- A request with a method other than GET, HEAD and OPTIONS reaches its handler only with the cookie
  -- of a session that is open, a CSRF token with the hash that the stored row of that session has, and
  -- from a place as `Trusted` says: with no Origin and no Referer, with no Origin and a Referer of
  -- which the server's origin is a prefix, with an Origin of the server's scheme and host, or from a
  -- loopback host to one.
  pub require_session-Opened :
      (now : Time) (r : Request) (s : Service) (x : Session)
      → Changes r.method
      → (require_session crypto net now r s).1 ≡ handler x
      → (token : Text) × (r.cookie ≡ some token)
        × Opened crypto now token s x
        × HasToken x r (require_session crypto net now r s).0
        × Trusted r
  unfolding require_session require_csrf
  require_session-Opened now r s x changes h = elim (Option-cases r.cookie) [
    | inl c ↦ absurd (cc (rw (require_session, c) at h))
    | inr (token, c) ↦ elim (Password.Result-cases (authenticate crypto now token s).1) [
      | inr (e, a) ↦ absurd (cc (rw (require_session, c, a) at h))
      | inl (y, a) ↦
          let (same, csrf, origin) =
            guarded r (authenticate crypto now token s).0 y x (not_safe r.method changes)
              (rw (require_session, c, a) at h) in
          (
            token,
            c,
            authenticate-Opened crypto now token s x (a ∙ ap Password.ok same),
            subst (HasToken x r) (sym (left token c)) csrf,
            origin,
          )
    ]
  ]
    where
      left :
          (token : Text)
          → r.cookie ≡ some token
          → (require_session crypto net now r s).0 ≡ (authenticate crypto now token s).0
      left token c = rw (require_session, c) refl
