-- ===== src/Storage/Baidu/Wire.antt =====
-- internal/storage/baidu/baidu.go: requests to Baidu and the answers that are read.
use ialbum.Base.{ℕ, Bool, List, Option}
use ialbum.Text.{Text}
use ialbum.Storage.Baidu.Calls.{ℤ}

-- The requests, by the values that the code puts into their URL and their form.
pub data Request : Type 0 where
  refresh : (refresh_token app_key secret_key : Text) → Request
  list_files : (access_token dir : Text) → (start : ℤ) → (limit : ℕ) → Request
  file_metas : (access_token : Text) → (fs_id : ℕ) → Request
  download : (url : Text) → (range : Option Text) → Request
  precreate :
      (access_token path : Text) → (size : ℕ) → (block_list : List Text) → (rename : Bool) → Request
  upload_part : (access_token path upload_id : Text) → (partseq : ℕ) → (block : List ℕ) → Request
  create_file :
      (access_token path : Text)
      → (size : ℕ) → (upload_id : Text) → (block_list : List Text) → (rename : Bool) → Request
  create_dir : (access_token path : Text) → Request
  move_file : (access_token path dest newname : Text) → (overwrite : Bool) → Request
  delete_file : (access_token path : Text) → Request

pub record Response : Type 0 where
  pub status : ℕ
  pub content : List ℕ

-- tokenResponse, less the scope, which the code does not read
pub record TokenResponse : Type 0 where
  pub access_token : Text
  pub refresh_token : Text
  pub expires_in : ℕ
  pub error : Text
  pub error_description : Text

-- A file in the answer to `list_files`
pub record Item : Type 0 where
  pub fs_id : ℕ
  pub path : Text
  pub name : Text
  pub size : ℕ
  pub is_dir : ℕ
  pub mtime : ℕ
  pub md5 : Text

pub record Listed : Type 0 where
  pub errno : ℤ
  pub items : List Item

pub record Metas : Type 0 where
  pub errno : ℤ
  pub dlinks : List Text

pub record Precreated : Type 0 where
  pub errno : ℤ
  pub upload_id : Text
  pub blocks : List ℤ

pub record Created : Type 0 where
  pub errno : ℤ
  pub fs_id : ℕ
  pub path : Text
  pub size : ℕ
  pub md5 : Text
  pub mtime : ℕ
