-- ===== src/Auth/Password/Verify.antt =====
-- internal/auth/password.go: what `VerifyPassword` accepts of what `HashPassword` keeps.
use ialbum.Base.{ℕ, ◌≡◌, ◌≢◌, refl, ap, ◌∙◌, [], some, All, length}
use ialbum.Text.{Text, codes, text_eq, split, join, itoa, itoa_fuel, contains}
use ialbum.Text.Chars.{split-join, All-contains}
use ialbum.Auth.Password.{
  Crypto, Result, ok, err, hash_password, verify_password, verify_pieces, pieces, derive, dollar,
  parameters, validate_password, argon_memory, argon_iterations, argon_parallelism,
  argon_key_length,
}

-- What the code relies on of base64, of `fmt.Sscanf` and of the length that `argon2.IDKey` returns.
pub record IsFaithful (crypto : Crypto) : Type 0 where
  pub decoded : (t : Text) → crypto.decode (crypto.encode t) ≡ some t
  pub plain : (t : Text) → All (λ c. c ≢ dollar) (crypto.encode t)
  pub scanned :
      crypto.scan_parameters (parameters argon_memory argon_iterations argon_parallelism)
      ≡ some (argon_memory, argon_iterations, argon_parallelism)
  pub full : (p s : Text) (m t n l : ℕ) → length (crypto.id_key p s m t n l) ≡ l

parameters_plain :
    All (λ c. c ≢ dollar) (parameters argon_memory argon_iterations argon_parallelism)
unfolding itoa itoa_fuel contains
parameters_plain =
    All-contains (parameters argon_memory argon_iterations argon_parallelism) dollar refl

kept :
    (r : Result (Unit {0})) (text : Text) {encoded : Text}
    → (elim r [ err e ↦ err e | ok _ ↦ ok text ]) ≡ ok encoded
    → encoded ≡ text
kept (err x) text e = absurd (cc e)
kept (ok _) text e = cc

-- The text kept is the join of the pieces, if the password has a length that is allowed.
pub hash-pieces :
    (crypto : Crypto) (salt p : Text) {encoded : Text}
    → hash_password crypto salt p ≡ ok encoded
    → encoded ≡ join (pieces crypto salt p) dollar
unfolding hash_password
hash-pieces crypto salt p e = kept (validate_password p) _ e

split-pieces :
    (crypto : Crypto) (faithful : IsFaithful crypto) (salt p : Text)
    → split (join (pieces crypto salt p) dollar) dollar ≡ pieces crypto salt p
unfolding contains
split-pieces crypto faithful salt p = split-join dollar [] _ (
  tt,
  (
    All-contains (codes "argon2id") dollar refl,
    (
      All-contains (codes "v=19") dollar refl,
      (parameters_plain, (faithful.plain salt, (faithful.plain (derive crypto salt p), tt))),
    ),
  ),
)

-- A password that was hashed is accepted where it derives the same key under the same salt, and
-- no other is: so the password itself is accepted.
pub verify-hash :
    (crypto : Crypto) (faithful : IsFaithful crypto) (salt p q : Text) {encoded : Text}
    → hash_password crypto salt p ≡ ok encoded
    → verify_password crypto encoded q ≡ text_eq (derive crypto salt q) (derive crypto salt p)
unfolding verify_password text_eq
verify-hash crypto faithful salt p q e =
    ap (λ t. verify_pieces crypto (split t dollar) q) (hash-pieces crypto salt p e)
    ∙ ap (λ ps. verify_pieces crypto ps q) (split-pieces crypto faithful salt p)
    ∙ rw (faithful.scanned, faithful.decoded salt, faithful.decoded (derive crypto salt p))
        (rw (faithful.full p salt argon_iterations argon_memory argon_parallelism argon_key_length)
          refl)
