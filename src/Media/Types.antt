-- ===== src/Media/Types.antt =====
-- The rows of internal/db/migrations/001_initial.sql that internal/media/catalog.go reads and
-- writes, the storage interface that it uses, and what it takes from outside.
use ialbum.Base.{ℕ, Bool, List, Option, some, none, ◌≡◌, refl, ◌⊎◌, inl, inr}
use ialbum.Text.{Text}
use ialbum.Time.{Duration}
use ialbum.Storage
use ialbum.Storage.{Object, Page}
use ialbum.Jobs

pub data Error : Type 0 where
  no_rows unsupported_media waiting_auth nil_dereference : Error
  size_changed version_changed no_free_name : Error
  invalid : Text → Error
  storage_error : Storage.Error → Error

pub data Result {ℓ} (A : Type ℓ) : Type ℓ where
  ok : A → Result A
  err : Error → Result A

infixl 5 ◌>>=◌
abbrev pub ◌>>=◌ {ℓ κ} : {A : Type ℓ} {B : Type κ} → Result A → (A → Result B) → Result B
ok a >>= f = f a
err e >>= f = err e

abbrev pub from_storage {ℓ} : {A : Type ℓ} → Storage.Result A → Result A
from_storage (Storage.ok a) = ok a
from_storage (Storage.err e) = err (storage_error e)

abbrev pub or_no_rows {ℓ} : {A : Type ℓ} → Option A → Result A
or_no_rows none = err no_rows
or_no_rows (some a) = ok a

pub data BackupMode : Type 0 where
  safe mirror : BackupMode

pub data Role : Type 0 where
  primary_role backup_role : Role

pub data ScanStatus : Type 0 where
  scan_pending scan_running scan_ready scan_failed scan_succeeded : ScanStatus

pub data Kind : Type 0 where
  image video : Kind

pub data ProcessingStatus : Type 0 where
  to_process processed processing_failed unavailable : ProcessingStatus

pub data ReplicaStatus : Type 0 where
  ready pending_delete cancelled deleted : ReplicaStatus

-- albums
pub record Album : Type 0 where
  pub id : Text
  pub name : Text
  pub description : Text
  pub cover_media_id : Option Text
  pub backup_enabled : Bool
  pub backup_mode : BackupMode
  pub sync_on_upload : Bool
  pub scan_interval : Option ℕ
  pub last_scan_at : Option ℕ
  pub scan_status : ScanStatus
  pub scan_error : Option Error
  pub generation : ℕ
  pub created_at : ℕ
  pub updated_at : ℕ
  pub removed_at : Option ℕ

-- album_storage_bindings
pub record Binding : Type 0 where
  pub id : Text
  pub album_id : Text
  pub storage_id : Text
  pub role : Role
  pub root_path : Text

-- media_items
pub record Media : Type 0 where
  pub id : Text
  pub album_id : Text
  pub relative_path : Text
  pub normalized_path : Text
  pub object_id : Text
  pub kind : Kind
  pub mime_type : Text
  pub size : ℕ
  pub modified_at : ℕ
  pub taken_at : Option ℕ
  pub etag : Text
  pub native_checksum : Text
  pub source_version : Text
  pub processing_status : ProcessingStatus
  pub missing_scans : ℕ
  pub first_missing_at : Option ℕ
  pub delete_suppressed : Bool
  pub created_at : ℕ
  pub updated_at : ℕ

-- media_replicas
pub record Replica : Type 0 where
  pub id : Text
  pub media_id : Text
  pub storage_id : Text
  pub relative_path : Text
  pub object_id : Text
  pub source_version : Text
  pub status : ReplicaStatus
  pub verified_at : Option ℕ
  pub delete_after : Option ℕ
  pub delete_suppressed : Bool
  pub created_at : ℕ
  pub updated_at : ℕ

-- scan_runs
pub record ScanRun : Type 0 where
  pub id : Text
  pub album_id : Text
  pub status : ScanStatus
  pub discovered_count : ℕ
  pub missing_count : ℕ
  pub error_message : Option Error
  pub started_at : ℕ
  pub completed_at : Option ℕ

pub data UploadStatus : Type 0 where
  uploading upload_succeeded upload_failed : UploadStatus

-- upload_requests
pub record Upload : Type 0 where
  pub id : Text
  pub album_id : Text
  pub idempotency_key : Text
  pub original_filename : Text
  pub target_path : Text
  pub temp_path : Text
  pub byte_size : ℕ
  pub status : UploadStatus
  pub media_id : Option Text
  pub error_message : Option Error
  pub created_at : ℕ
  pub updated_at : ℕ

-- tags
pub record Tag : Type 0 where
  pub id : Text
  pub name : Text
  pub normalized_name : Text
  pub created_at : ℕ

-- The tables, and how many ids `newID` has given out.
pub record Db : Type 0 where
  pub albums : List Album
  pub bindings : List Binding
  pub media : List Media
  pub replicas : List Replica
  pub scan_runs : List ScanRun
  pub uploads : List Upload
  pub jobs : Jobs.Table
  pub tags : List Tag
  pub album_tags : List (Text × Text)
  pub issued : ℕ

-- What the code takes from outside: `newID`, the SHA-256 of a text in hexadecimal,
-- `unicode.ToLower`, `norm.NFC.String`, and the configured grace before a mirror deletion.
pub record Env : Type 0 where
  pub new_id : ℕ → Text
  pub digest : Text → Text
  pub lower : ℕ → ℕ
  pub nfc : Text → Text
  pub mirror_grace : Duration

-- `Manager.Provider` and the provider's methods, by the id of the storage connection, over the
-- state `W` of all storages.
pub record Stores (W : Type 0) : Type 0 where
  pub provide : Text → W → Storage.Result (Unit {0})
  pub validate : Text → W → Storage.Result (Unit {0})
  pub list_dir : Text → Text → Text → ℕ → W → Storage.Result Page
  pub stat : Text → Text → W → Storage.Result Object
  pub open_file : Text → Text → W → Storage.Result (Object × Storage.Result (List ℕ))
  pub put : Text → Text → List ℕ → Bool → W → W × Storage.Result Object
  pub make_dir : Text → Text → W → W × Storage.Result (Unit {0})
  pub remove : Text → Text → W → W × Storage.Result (Unit {0})

pub Result-cases {ℓ} :
    {A : Type ℓ} (r : Result A) → ((a : A) × (r ≡ ok a)) ⊎ ((e : Error) × (r ≡ err e))
Result-cases (ok a) = inl (a, refl)
Result-cases (err e) = inr (e, refl)
