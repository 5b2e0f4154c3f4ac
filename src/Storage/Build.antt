-- ===== src/Storage/Build.antt =====
-- storage/storage.go: NewStorage, which chooses the storage of the configuration. The constructor of
-- the S3 client is a parameter; log.Fatal ends the process, which is an error here.
use Prim.Native.Char.{code}
use Prim.Native.String.{String}
use content_service.Prelude.{
  ℕ, ◌-◌, ◌≡◌, refl, ap, ◌∙◌, Bool, true, false, ◌&&◌, some, leb, nat_eq, if◌then◌else◌,
}
use content_service.Prelude.Text.{◌+++◌}
use content_service.Go.{plain, ok, Exec, pure, raise, ◌>>◌, inspect}
use content_service.Go.Inversion.{>>=-eq-ok, pure-eq-ok}
use content_service.Http.{file, status_ok}
use content_service.Auth.{Bytes}
use content_service.Redis.{RedisServer}
use content_service.Config.{StorageConfig, RemoteStorage}
use content_service.Contents.{StorageKind, s3_kind, local_kind, get_contents}
use content_service.Storage.{
  Reader, FileSystem, Storage, S3Client, create_local_dir, local_get_file, local_storage,
  s3_storage,
}
use content_service.Storage.Files.{local_save_file-file_at}

-- The letters a to z; the upper case of no other character is one of the letters of a storage type.
unfoldable pub upper_code : ℕ → ℕ
upper_code n = if leb 97 n && leb n 122 then n - 32 else n

-- strings.ToUpper(s) == t
unfoldable pub is_upper_of : String → String → Bool
unfolding upper_code
is_upper_of String.[] String.[] = true
is_upper_of String.[] (String.◌∷◌ d t) = false
is_upper_of (String.◌∷◌ c s) String.[] = false
is_upper_of (String.◌∷◌ c s) (String.◌∷◌ d t) =
    nat_eq (upper_code (code c)) (code d) && is_upper_of s t

module _ {D : Type 0} (fs : FileSystem D) (new_s3 : RemoteStorage → S3Client D) where
  unfoldable pub build_local_storage : StorageConfig → Exec D (StorageKind × Storage D)
  build_local_storage conf = do
    create_local_dir fs conf.local_path
    pure (local_kind, local_storage fs conf.local_path)

  unfoldable pub new_storage : StorageConfig → Exec D (StorageKind × Storage D)
  new_storage conf =
      if is_upper_of conf.storage_type "LOCAL"
      then build_local_storage conf
      else if is_upper_of conf.storage_type "REMOTE"
      then pure (s3_kind, s3_storage fs (new_s3 conf.remote_config))
      else raise (plain ("Invalid Storage Type: " +++ conf.storage_type))

  new_storage-local :
      (conf : StorageConfig) (s t : D) (built : StorageKind × Storage D)
      → is_upper_of conf.storage_type "LOCAL" ≡ true
      → new_storage conf s ≡ (ok built, t)
      → (local_kind, local_storage fs conf.local_path) ≡ built
  unfolding new_storage build_local_storage
  new_storage-local conf s t built local h =
      let (_, u, _, k) =
        >>=-eq-ok (create_local_dir fs conf.local_path)
          (λ _. pure (local_kind, local_storage fs conf.local_path)) s (rw local at h) in
      (pure-eq-ok _ built u t k).0

  module _ {R : Type 0} (srv : RedisServer R) where
    -- If NewStorage built a storage for the type LOCAL, in upper or lower case, its path ends so that the
    -- paths of SaveFile and of GetFile agree, and the file system answers for a file that is there,
    -- then GetContents answers for a file that was saved with status 200 and this file.
    pub get_contents-save_file :
        (conf : StorageConfig) (s0 s1 s t : D) (kind : StorageKind) (sto : Storage D)
        (name : String) (r : Reader) (content_type location : String)
        → ((p : String) (x : D) (b : Bytes)
            → fs.file_at x p ≡ some b
            → (n : ℕ) × (y : D) × (fs.stat_size p x ≡ (ok (some n), y)))
        → is_upper_of conf.storage_type "LOCAL" ≡ true
        → fs.join conf.local_path name ≡ conf.local_path +++ name
        → new_storage conf s0 ≡ (ok (kind, sto), s1)
        → sto.save_file name r content_type s ≡ (ok location, t)
        → (u : D) × (get_contents srv sto fs kind name t
            ≡ (ok (record { status = status_ok; body = file (conf.local_path +++ name) }), u))
    unfolding get_contents local_get_file inspect
    get_contents-save_file conf s0 s1 s t kind sto name r content_type location stat local path
          built saved =
        let same = new_storage-local conf s0 s1 (kind, sto) local built in
        let kinds : local_kind ≡ kind = ap (λ x. x.0) same in
        let stores : local_storage fs conf.local_path ≡ sto = ap (λ x. x.1) same in
        let saved' : (local_storage fs conf.local_path).save_file name r content_type s
            ≡ (ok location, t) =
          ap (λ (x : Storage D). x.save_file name r content_type s) stores ∙ saved in
        let (b, _, there) =
          local_save_file-file_at fs conf.local_path name r content_type s t location saved' in
        let (n, u, found) = stat (conf.local_path +++ name) t b (rw path at there) in
        (u, rw (← kinds) (rw (← stores) (rw found refl)))
