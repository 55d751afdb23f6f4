-- ===== src/Auth/Password.antt =====
-- internal/auth/password.go: the text that a password is kept as.
pub mod Verify
use ialbum.Base.{
  ℕ, ◌*◌, ◌≡◌, refl, sym, ◌∙◌, ◌⊎◌, Bool, true, false, not, ◌&&◌, ◌||◌, List, [], ◌∷◌, ◌++◌, Option,
  none, some, arith, if◌then◌else◌, ltb, length, Bool-cases, inl, inr,
}
use ialbum.Text.{Text, codes, text_eq, byte_length, split, join, contains, itoa}
use ialbum.Text.Laws.{text_eq_refl, text_eq_iff}

pub data Error : Type 0 where
  invalid_credentials setup_closed invalid_setup_token invalid_session invalid_csrf : Error
  rate_limited bad_username short_password long_password no_rows save_session : Error

pub data Result {ℓ} (A : Type ℓ) : Type ℓ where
  ok : A → Result A
  err : Error → Result A

pub Result-cases {ℓ} :
    {A : Type ℓ} (r : Result A) → ((a : A) × (r ≡ ok a)) ⊎ ((e : Error) × (r ≡ err e))
Result-cases (ok a) = inl (a, refl)
Result-cases (err e) = inr (e, refl)

-- What the code takes from outside: the source of random tokens, ids and salts, SHA-256,
-- `argon2.IDKey` (password, salt, iterations, memory, threads, length), the raw base64 of a text,
-- `fmt.Sscanf` with the format of the parameters, `unicode.ToLower`, and SQLite's NOCASE.
pub record Crypto : Type 0 where
  pub random : ℕ → Text
  pub sha256 : Text → Text
  pub id_key : Text → Text → ℕ → ℕ → ℕ → ℕ → Text
  pub encode : Text → Text
  pub decode : Text → Option Text
  pub scan_parameters : Text → Option (ℕ × ℕ × ℕ)
  pub lower : ℕ → ℕ
  pub same_name : Text → Text → Bool

abbrev pub argon_memory : ℕ
argon_memory = 64 * 1024

abbrev pub argon_iterations : ℕ
argon_iterations = 3

abbrev pub argon_parallelism : ℕ
argon_parallelism = 2

abbrev pub argon_key_length : ℕ
argon_key_length = 32

-- The length limits are in bytes.
unfoldable pub validate_password : Text → Result (Unit {0})
validate_password p =
    if ltb (byte_length p) 12
    then err short_password
    else if ltb 256 (byte_length p)
    then err long_password
    else ok tt

abbrev pub dollar : ℕ
dollar = b'$'

-- "m=%d,t=%d,p=%d"
abbrev pub parameters : ℕ → ℕ → ℕ → Text
parameters m t p = codes "m=" ++ (itoa m ++ (codes ",t=" ++ (itoa t ++ (codes ",p=" ++ itoa p))))

module _ (crypto : Crypto) where
  abbrev pub derive : Text → Text → Text
  derive salt p =
      crypto.id_key p salt argon_iterations argon_memory argon_parallelism argon_key_length

  -- The pieces between the dollar signs.
  abbrev pub pieces : Text → Text → List Text
  pieces salt p =
      []
      ∷ codes "argon2id"
      ∷ codes "v=19"
      ∷ parameters argon_memory argon_iterations argon_parallelism
      ∷ crypto.encode salt
      ∷ crypto.encode (derive salt p)
      ∷ []

  -- HashPassword, with the salt that it draws
  unfoldable pub hash_password : Text → Text → Result Text
  hash_password salt p = elim (validate_password p) [
    | err e ↦ err e
    | ok _ ↦ ok (join (pieces salt p) dollar)
  ]

  -- The comparison, once the parts have been read.
  abbrev pub matches : Text → Option (ℕ × ℕ × ℕ) → Option Text → Option Text → Bool
  matches p none salt want = false
  matches p (some _) none want = false
  matches p (some _) (some s) none = false
  matches p (some (m, t, n)) (some s) (some want) =
      text_eq (crypto.id_key p s t m n (length want)) want

  abbrev pub verify_pieces : List Text → Text → Bool
  verify_pieces (a ∷ b ∷ c ∷ d ∷ e ∷ f ∷ []) p =
      text_eq b (codes "argon2id")
      && text_eq c (codes "v=19")
      && matches p (crypto.scan_parameters d) (crypto.decode e) (crypto.decode f)
  verify_pieces _ p = false

  -- VerifyPassword
  unfoldable pub verify_password : Text → Text → Bool
  verify_password encoded p = verify_pieces (split encoded dollar) p
