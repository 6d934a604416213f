-- ===== src/Guest/State.antt =====
-- internal/init/init.go: the state of the agent that its transfers use.
use goship.Base.{Text, ℕ, Bool, List, Option, ℤ}
use goship.Entities.Name.{NameError}
use goship.Guest.Files.{Files}

-- `path` is the name of `tmpFile`, which stays open between the calls.
pub record UpdateState : Type 0 where
  pub path : Text
  pub total_size : ℤ
  pub checksum : Text
  pub received : ℕ

pub record UploadState : Type 0 where
  pub path : Text
  pub dest_dir : Text
  pub file_name : Text
  pub size : ℤ
  pub checksum : Text
  pub received : ℕ

pub record ImageUploadState : Type 0 where
  pub path : Text
  pub image_ref : Text
  pub size : ℤ
  pub checksum : Text
  pub received : ℕ

pub record Agent : Type 0 where
  pub init_dir : Text
  pub files : Files
  pub update : Option UpdateState
  pub upload : Option UploadState
  pub image_upload : Option ImageUploadState
  pub docker : Bool  -- whether the Docker daemon was reached
  pub loaded : List Text  -- the archives that Docker has loaded

pub data Failure : Type 0 where
  unknown_phase size_not_positive checksum_required image_ref_required : Failure
  bad_app_name bad_file_name : NameError → Failure
  no_transfer mkdir_failed open_failed decode_failed write_failed : Failure
  close_failed read_failed checksum_mismatch backup_failed install_failed : Failure
  no_docker open_image_failed load_failed : Failure

-- The response: its status, and the error or the count of bytes.
pub data Reply : Type 0 where
  ok : Reply
  progress : ℕ → Reply
  error : Failure → Reply

-- What the system answers to the calls of one command whose errors the code looks at.
pub record System : Type 0 where
  pub mkdir_works : Bool
  pub open_works : Bool
  pub write_works : Bool
  pub close_works : Bool
  pub read_works : Bool
  pub backup_works : Bool
  pub install_works : Bool
  pub restore_works : Bool
  pub image_opens : Bool
  pub image_loads : Bool

-- base64.StdEncoding.DecodeString and the hexadecimal SHA-256 of a text.
pub record Coding : Type 0 where
  pub decode : Text → Option Text
  pub sha256 : Text → Text
