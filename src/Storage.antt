-- ===== src/Storage.antt =====
-- storage/storage.go, storage/local.go and storage/s3.go. The operating system's files, the paths
-- of path/filepath and the S3 client are parameters; sessions, timing and logging are left out.
pub mod Files
pub mod Build
use content_service.Prelude.{
  ℕ, ◌≡◌, String, false, [], Option, none, some, nat_eq, ◌==◌, if◌then◌else◌,
}
use content_service.Prelude.Text.{◌+++◌}
use content_service.Go.{
  GoError, not_found, internal, plain, Result, ok, Exec, pure, raise, ◌>>=◌, ◌>>◌, on_error,
}
use content_service.Auth.{Bytes}

-- An io.Reader: what reading it to the end gives.
abbrev pub Reader : Type 0
Reader = Result Bytes

-- Files and paths of the operating system. os.Create makes an empty file, io.Copy fills it, and
-- neither touches the file at another path that filepath.Join cleaned (there are no links);
-- `stat_size` is none for os.IsNotExist. An opened file is the bytes that it has then.
pub record FileSystem (D : Type 0) : Type 0 where
  pub join : String → String → String
  pub dir : String → String
  pub base : String → String
  pub file_at : D → String → Option Bytes
  pub mkdir_all : String → Exec D Unit
  pub create : String → Exec D Unit
  pub copy : String → Reader → Exec D Unit
  pub open_file : String → Exec D Reader
  pub stat_size : String → Exec D (Option ℕ)
  pub remove_all : String → Exec D Unit
  pub join-dir-base : (a b : String) → join (dir (join a b)) (base (join a b)) ≡ join a b
  pub create_ok : (p : String) (s t : D) → create p s ≡ (ok tt, t) → file_at t p ≡ some []
  pub copy_ok :
      (p : String) (r : Reader) (s t : D)
      → file_at s p ≡ some []
      → copy p r s ≡ (ok tt, t)
      → (b : Bytes) × (r ≡ ok b) × (file_at t p ≡ some b)
  pub create_others :
      (a b c d : String) (s t : D)
      → (join a b == join c d) ≡ false
      → create (join a b) s ≡ (ok tt, t)
      → file_at t (join c d) ≡ file_at s (join c d)
  pub copy_others :
      (a b c d : String) (r : Reader) (s t : D)
      → (join a b == join c d) ≡ false
      → copy (join a b) r s ≡ (ok tt, t)
      → file_at t (join c d) ≡ file_at s (join c d)
  pub open_file_ok :
      (p : String) (s t : D) (r : Reader)
      → open_file p s ≡ (ok r, t)
      → (b : Bytes) → r ≡ ok b
      → file_at s p ≡ some b

-- The interface of storage.go.
pub record Storage (D : Type 0) : Type 0 where
  pub get_file : String → String
  pub save_file : String → Reader → String → Exec D String
  pub download_file : String → String → Exec D Unit
  pub file_size : String → Exec D ℕ

module _ {D : Type 0} (fs : FileSystem D) where
  open fs use {join, dir, base, mkdir_all, create, copy, open_file, stat_size}

  module _ (root : String) where
    unfoldable pub local_get_file : String → String
    local_get_file cid = root +++ cid

    unfoldable pub local_save_file : String → Reader → String → Exec D String
    local_save_file filename file_desc content_type = do
      create (join root filename)
      copy (join root filename) file_desc
      pure (join root filename)

    -- The file is read as it was when it was opened, which is right where the target is another path.
    unfoldable pub local_download_file : String → String → Exec D Unit
    local_download_file cid file_name = do
      file ← on_error (open_file (join root cid)) λ e. raise (not_found ("Not found: " +++ cid))
      mkdir_all (dir file_name)
      create (join (dir file_name) (base file_name))
      copy (join (dir file_name) (base file_name)) file

    abbrev local_size : String → Option ℕ → Exec D ℕ
    local_size cid none = raise (not_found ("Not found: " +++ cid))
    local_size cid (some n) = pure n

    unfoldable pub local_file_size : String → Exec D ℕ
    local_file_size cid = do found ← stat_size (join root cid); local_size cid found

    -- CreateLocalDir
    unfoldable pub create_local_dir : Exec D Unit
    create_local_dir = mkdir_all root

    abbrev pub local_storage : Storage D
    local_storage = record {
      get_file = local_get_file;
      save_file = local_save_file;
      download_file = local_download_file;
      file_size = local_file_size;
    }

-- An error of the AWS client: a failed request with its HTTP status, or another one.
pub data AwsError : Type 0 where
  request_failure : ℕ → String → AwsError
  other_error : String → AwsError

pub data Aws (A : Type 0) : Type 0 where
  done : A → Aws A
  failed : AwsError → Aws A

unfoldable pub handle_s3_error : AwsError → GoError
handle_s3_error (request_failure status message) =
    if nat_eq status 404 then not_found "file not found" else plain message
handle_s3_error (other_error message) = internal message

-- `if err != nil { return handleS3Error(err) }`
abbrev aws_result : {D A : Type 0} → Aws A → Exec D A
aws_result (done a) = pure a
aws_result (failed e) = raise (handle_s3_error e)

-- The calls of the S3 client on the bucket. `download` writes the object into an open file.
pub record S3Client (D : Type 0) : Type 0 where
  pub object_url : String → String
  pub upload : String → Reader → String → Exec D (Aws String)
  pub download : String → String → Exec D (Aws ℕ)
  pub head_object : String → Exec D (Aws ℕ)

module _ {D : Type 0} (fs : FileSystem D) (s3 : S3Client D) where
  open fs use {join, dir, base, mkdir_all, create}
  open s3 use {object_url, upload, download, head_object}

  unfoldable pub s3_get_file : String → String
  s3_get_file cid = object_url cid

  unfoldable pub s3_save_file : String → Reader → String → Exec D String
  s3_save_file filename file_desc content_type = do
    result ← upload filename file_desc content_type
    aws_result result

  unfoldable pub s3_download_file : String → String → Exec D Unit
  s3_download_file cid file_path = do
    mkdir_all (dir file_path)
    on_error (create (join (dir file_path) (base file_path)))
        λ e. raise (internal "failed to create file")
    n ← download cid (join (dir file_path) (base file_path))
    _ ← aws_result n
    pure tt

  unfoldable pub s3_file_size : String → Exec D ℕ
  s3_file_size cid = do res ← head_object cid; aws_result res

  abbrev pub s3_storage : Storage D
  s3_storage = record {
    get_file = s3_get_file;
    save_file = s3_save_file;
    download_file = s3_download_file;
    file_size = s3_file_size;
  }
