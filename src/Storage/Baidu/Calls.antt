-- ===== src/Storage/Baidu/Calls.antt =====
-- internal/storage/baidu/baidu.go: a call of the provider changes its token and the world, also where
-- it fails.
use ialbum.Base.{ℕ, zero, suc, ◌+◌, ◌-◌, [], ◌∷◌, Option, none, some, ltb, leb, ◌==◌, if◌then◌else◌}
use ialbum.Text.{Text, itoa}
use ialbum.Storage.{Result, ok, err, Error}
use ialbum.Storage.Local.Listing.{digits, max_int}
use ialbum.Manager.{Token}

-- `negsuc n` is -(n + 1).
pub data ℤ : Type 0 where
  pos : ℕ → ℤ
  negsuc : ℕ → ℤ

-- a - b
abbrev sub_ℕ : ℕ → ℕ → ℤ
sub_ℕ a b = if leb b a then pos (a - b) else negsuc (b - a - 1)

infixl 65 ◌+ℤ◌
unfoldable pub ◌+ℤ◌ : ℤ → ℤ → ℤ
pos a +ℤ pos b = pos (a + b)
pos a +ℤ negsuc b = sub_ℕ a (suc b)
negsuc a +ℤ pos b = sub_ℕ b (suc a)
negsuc a +ℤ negsuc b = negsuc (suc (a + b))

-- strconv.Itoa
unfoldable pub itoa_ℤ : ℤ → Text
itoa_ℤ (pos n) = itoa n
itoa_ℤ (negsuc n) = b'-' ∷ itoa (suc n)

abbrev cut_off : ℕ → Option ℕ → ℕ
cut_off most none = 0
cut_off most (some n) = if ltb most n then most else n

abbrev negate : ℕ → ℤ
negate zero = pos 0
negate (suc n) = negsuc n

-- strconv.Atoi with its error ignored: 0 for what is no number, the nearest that fits otherwise
unfoldable pub atoi : Text → ℤ
unfolding digits
atoi [] = pos 0
atoi (c ∷ []) = pos (cut_off max_int (digits 0 (c ∷ [])))
atoi (c ∷ d ∷ s) =
    if c == b'-'
    then negate (cut_off (suc max_int) (digits 0 (d ∷ s)))
    else if c == b'+'
    then pos (cut_off max_int (digits 0 (d ∷ s)))
    else pos (cut_off max_int (digits 0 (c ∷ d ∷ s)))

-- The token of the provider, under its lock, and the world.
pub record Session (W : Type 0) : Type 0 where
  pub token : Token
  pub world : W

abbrev pub Call {ℓ} : Type 0 → Type ℓ → Type ℓ
Call W A = Session W → Session W × Result A

module _ {W : Type 0} {A : Type 0} where
  unfoldable pub pure : A → Call W A
  pure a s = (s, ok a)

  unfoldable pub raise : Error → Call W A
  raise e s = (s, err e)

  unfoldable pub lift : Result A → Call W A
  lift r s = (s, r)

module _ {W : Type 0} {A B : Type 0} where
  abbrev pub proceed : (A → Call W B) → Session W → Result A → Session W × Result B
  proceed f s (ok a) = f a s
  proceed f s (err e) = (s, err e)

  infixl 5 ◌>>=◌ ◌>>◌
  unfoldable pub ◌>>=◌ : Call W A → (A → Call W B) → Call W B
  unfolding pure raise lift
  ◌>>=◌ m f s = let (s', r) = m s in proceed f s' r

  unfoldable pub ◌>>◌ : Call W A → Call W B → Call W B
  unfolding ◌>>=◌
  m >> n = m >>= λ a. n
