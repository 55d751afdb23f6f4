-- ===== src/Storage.antt =====
-- internal/storage/storage.go: the objects, errors and logical paths that all drivers share.
pub mod Path
pub mod Disk
pub mod Local
pub mod Webdav
pub mod Baidu
use ialbum.Base.{ℕ, Bool, List, ◌≡◌, refl, ◌⊎◌, inl, inr}
use ialbum.Text.{Text}
use ialbum.Time.{Time}

-- The sentinel errors, and all other errors with their text.
pub data Error : Type 0 where
  not_found conflict unauthorized rate_limited unsupported transient : Error
  other : Text → Error

pub data Result {ℓ} (A : Type ℓ) : Type ℓ where
  ok : A → Result A
  err : Error → Result A

infixl 5 ◌>>=◌
abbrev pub ◌>>=◌ {ℓ κ} : {A : Type ℓ} {B : Type κ} → Result A → (A → Result B) → Result B
ok a >>= f = f a
err e >>= f = err e

pub record ByteRange : Type 0 where
  pub start : ℕ
  pub length : ℕ

pub record Object : Type 0 where
  pub id : Text
  pub relative_path : Text
  pub mime_type : Text
  pub etag : Text
  pub native_checksum : Text
  pub size : ℕ
  pub modified_at : Time
  pub is_dir : Bool
  pub range_applied : Bool

pub record Page : Type 0 where
  pub objects : List Object
  pub next_cursor : Text

pub Result-cases {ℓ} :
    {A : Type ℓ} (r : Result A) → ((a : A) × (r ≡ ok a)) ⊎ ((e : Error) × (r ≡ err e))
Result-cases (ok a) = inl (a, refl)
Result-cases (err e) = inr (e, refl)
