-- ===== src/Api/Guards.antt =====
-- internal/api/server.go: what a request passes before its handler.
pub mod Trust
mod Tests
use ialbum.Base.{
  ℕ, zero, suc, ◌+◌, ◌-◌, ◌*◌, ◌/◌, ◌%◌, ◌≤◌, ◌<◌, Bool, true, false, not, ◌&&◌, ◌||◌, List, [],
  ◌∷◌, ◌++◌, map, append-nil, append_assoc, ◌≢◌, ◌↔◌, ◌⊎◌, inl, inr, Option, none, some, is_some,
  some_inj, ◌≡◌, refl, sym, ap, ◌∙◌, arith, ltb, leb, ◌==◌, if◌then◌else◌, Bool-cases, Option-cases,
  ==_iff, length, take, drop, length-append, length-take_le, All, All-append, All-take, All-imp,
  All-Elem, Elem, here, there, NotIn, Distinct,
}
use ialbum.Text.{Text, codes, text_eq, is_empty, has_prefix}
use ialbum.Text.Laws.{text_eq_iff}
use mathlib.Core.Path.{subst}
use ialbum.Time.{Time}
use ialbum.Auth.{Service, Session, authenticate, validate_csrf}
use ialbum.Auth.Password
use ialbum.Auth.Password.{Crypto}
use ialbum.Auth.Sessions.{Opened, authenticate-Opened}

pub record Request : Type 0 where
  pub method : Text
  pub cookie : Option Text
  pub csrf_token : Text
  pub origin : Text
  pub referer : Text
  pub host : Text
  pub tls : Bool

pub record Url : Type 0 where
  pub scheme : Text
  pub host : Text

-- The configured public URL, and what the code takes from package net: `url.Parse`, the host that
-- `SplitHostPort` gives (empty on an error), and whether `ParseIP` gives a loopback address.
pub record Net : Type 0 where
  pub public_url : Text
  pub parse_url : Text → Option Url
  pub split_host : Text → Text
  pub loopback_ip : Text → Bool

-- What a request comes to: its handler, with the session, or an error, or a panic of the code.
pub data Reply : Type 0 where
  handler : Session → Reply
  refuse : (status : ℕ) (code : Text) → Reply
  panic : Reply

abbrev pub trim_slash : Text → Text
trim_slash [] = []
trim_slash (c ∷ []) = if c == b'/' then [] else c ∷ []
trim_slash (c ∷ d ∷ s) = c ∷ trim_slash (d ∷ s)

-- expectedOrigin
unfoldable pub expected_origin : Net → Request → Text
expected_origin net r =
    if not (is_empty net.public_url)
    then trim_slash net.public_url
    else (if r.tls then codes "https" else codes "http") ++ codes "://" ++ r.host

-- isLoopback
unfoldable pub is_loopback : Net → Text → Bool
is_loopback net host =
    not (is_empty host) && (text_eq host (codes "localhost") || net.loopback_ip host)

abbrev pub same_origin : Url → Url → Bool
same_origin a b = text_eq a.host b.host && text_eq a.scheme b.scheme

unfoldable pub origin_matches : Net → Url → Url → Bool
unfolding is_loopback
origin_matches net parsed expected =
    same_origin parsed expected
    || is_loopback net (net.split_host parsed.host)
      && is_loopback net (net.split_host expected.host)

-- validOrigin; `none` is the panic where the expected origin is no URL.
unfoldable pub valid_origin : Net → Request → Option Bool
unfolding expected_origin origin_matches
valid_origin net r =
    if is_empty r.origin
    then some (is_empty r.referer || has_prefix r.referer (expected_origin net r))
    else elim (net.parse_url r.origin) [
      | none ↦ some false
      | some parsed ↦ elim (net.parse_url (expected_origin net r)) [
        | none ↦ none
        | some expected ↦ some (origin_matches net parsed expected)
      ]
    ]

abbrev pub is_safe : Text → Bool
is_safe method =
    text_eq method (codes "GET")
    || text_eq method (codes "HEAD")
    || text_eq method (codes "OPTIONS")

abbrev on_origin : Session → Option Bool → Reply
on_origin x none = panic
on_origin x (some false) = refuse 403 (codes "invalid_origin")
on_origin x (some true) = handler x

module _ (crypto : Crypto) (net : Net) where
  -- requireCSRF
  unfoldable pub require_csrf : Request → Service → Session → Reply
  unfolding valid_origin
  require_csrf r s x =
      if is_safe r.method then handler x else elim (validate_csrf crypto x.id r.csrf_token s) [
        | Password.err e ↦ refuse 403 (codes "invalid_csrf")
        | Password.ok u ↦ on_origin x (valid_origin net r)
      ]

  -- requireSession, and requireCSRF for the routes that stand below it
  unfoldable pub require_session : Time → Request → Service → Service × Reply
  unfolding require_csrf
  require_session now r s = elim r.cookie [
    | none ↦ (s, refuse 401 (codes "unauthorized"))
    | some token ↦
        let (s', found) = authenticate crypto now token s in
        (
          s',
          elim found [
            | Password.err e ↦ refuse 401 (codes "unauthorized")
            | Password.ok x ↦ require_csrf r s' x
          ],
        )
  ]
